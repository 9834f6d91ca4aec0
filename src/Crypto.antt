-- ===== src/Crypto.antt =====
-- src/base/CryptoHandler.cpp: authenticated encryption with a nonce that counts the messages.
-- libsodium's crypto_secretbox is the parameter `Secretbox`.
pub mod Nonce
use eternal_terminal.Common.{
  ℕ, zero, suc, ◌+◌, ◌≡◌, Bool, true, false, not, Option, none, some, List, [], ◌∷◌, ◌++◌, Outcome,
  ok, throws, fatal, length_error, ltb, ◌==◌, if◌then◌else◌, length,
}
use Nonce.{increment_nonce, initial_nonce}

-- crypto_secretbox_easy (return code and output) and crypto_secretbox_open_easy (none is -1).
pub record Secretbox : Type 0 where
  pub seal_ok : List ℕ → List ℕ → List ℕ → Bool
  pub seal : List ℕ → List ℕ → List ℕ → List ℕ
  pub unseal : List ℕ → List ℕ → List ℕ → Option (List ℕ)

abbrev pub key_bytes : ℕ
key_bytes = 32

abbrev pub mac_bytes : ℕ
mac_bytes = 16

-- What libsodium documents: sealing succeeds, adds the MAC, and opens under the same nonce and key.
pub record IsSecretbox (box : Secretbox) : Type 0 where
  pub seals : (m n k : List ℕ) → box.seal_ok m n k ≡ true
  pub length-seal : (m n k : List ℕ) → length (box.seal m n k) ≡ length m + mac_bytes
  pub unseal-seal : (m n k : List ℕ) → box.unseal (box.seal m n k) n k ≡ some m

pub record CryptoHandler : Type 0 where
  pub key : List ℕ
  pub nonce : List ℕ

unfoldable pub crypto_handler : List ℕ → ℕ → Outcome CryptoHandler
crypto_handler key nonce_msb =
    if not (length key == key_bytes)
    then fatal
    else ok (record { key = key; nonce = initial_nonce nonce_msb })

module _ (box : Secretbox) where
  unfoldable pub encrypt : List ℕ → CryptoHandler → Outcome (List ℕ) × CryptoHandler
  encrypt buffer c =
      let c' = record c { nonce = increment_nonce c.nonce } in
      if box.seal_ok buffer c'.nonce c'.key
      then (ok (box.seal buffer c'.nonce c'.key), c')
      else (fatal, c')

  opened : Option (List ℕ) → Outcome (List ℕ)
  opened none = fatal
  opened (some m) = ok m

  -- `buffer.length() - MACBYTES` wraps below zero, and the string constructor refuses the size.
  unfoldable pub decrypt : List ℕ → CryptoHandler → Outcome (List ℕ) × CryptoHandler
  unfolding opened
  decrypt buffer c =
      let c' = record c { nonce = increment_nonce c.nonce } in
      if ltb (length buffer) mac_bytes
      then (throws length_error, c')
      else (opened (box.unseal buffer c'.nonce c'.key), c')
