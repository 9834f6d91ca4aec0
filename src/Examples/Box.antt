-- ===== src/Examples/Box.antt =====
-- A concrete secretbox: a MAC of 16 zeros in front of the plain message.
use eternal_terminal.Crypto.{CryptoHandler, IsSecretbox, Secretbox}
use eternal_terminal.Common.{ℕ, refl, true, false, some, List, [], ◌∷◌, ◌++◌, drop, arith}
use eternal_terminal.Crypto.Nonce.{initial_nonce}
use eternal_terminal.Packet.{Packet}

abbrev zeros16 : List ℕ
zeros16 = 0 ∷ 0 ∷ 0 ∷ 0 ∷ 0 ∷ 0 ∷ 0 ∷ 0 ∷ 0 ∷ 0 ∷ 0 ∷ 0 ∷ 0 ∷ 0 ∷ 0 ∷ 0 ∷ []

abbrev pub toy : Secretbox
toy = record {
  seal_ok = λ m n k. true;
  seal = λ m n k. zeros16 ++ m;
  unseal = λ m n k. some (drop 16 m);
}

pub toy-IsSecretbox : IsSecretbox toy
toy-IsSecretbox = record {
  seals = λ m n k. refl;
  length-seal = λ m n k. omega arith;
  unseal-seal = λ m n k. refl;
}

abbrev pub handler : CryptoHandler
handler = record { key = zeros16 ++ zeros16; nonce = initial_nonce 1 }

abbrev pub hello : Packet
hello = record { encrypted = false; header = 5; payload = 104 ∷ 105 ∷ [] }
