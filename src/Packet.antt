-- ===== src/Packet.antt =====
-- src/base/Packet.hpp: a packet, its wire form, and its encryption.
pub mod Sealed
use eternal_terminal.Common.{
  ℕ, ◌+◌, Bool, true, false, not, List, [], ◌∷◌, Outcome, ok, throws, fatal, waiting, out_of_range,
  continue, ◌==◌, if◌then◌else◌, length,
}
use eternal_terminal.Crypto.{Secretbox, CryptoHandler}
use eternal_terminal.Crypto

pub record Packet : Type 0 where
  pub encrypted : Bool
  pub header : ℕ
  pub payload : List ℕ

abbrev pub header_size : ℕ
header_size = 2

unfoldable pub packet_length : Packet → ℕ
packet_length p = header_size + length p.payload

abbrev byte_of : Bool → ℕ
byte_of true = 1
byte_of false = 0

unfoldable pub serialize : Packet → List ℕ
serialize p = byte_of p.encrypted ∷ p.header ∷ p.payload

-- `substr(2)` throws on a shorter string.
unfoldable pub deserialize : List ℕ → Outcome Packet
deserialize (flag ∷ header ∷ payload) =
    ok (record { encrypted = not (flag == 0); header = header; payload = payload })
deserialize _ = throws out_of_range

module _ (box : Secretbox) where
  unfoldable pub encrypt : Packet → CryptoHandler → Outcome Packet × CryptoHandler
  encrypt p c =
      if p.encrypted
      then (fatal, c)
      else let (sealed, c') = Crypto.encrypt box p.payload c in
        continue sealed c' λ payload. (ok (record p { encrypted = true; payload = payload }), c')

  unfoldable pub decrypt : Packet → CryptoHandler → Outcome Packet × CryptoHandler
  decrypt p c =
      if p.encrypted
      then (let (opened, c') = Crypto.decrypt box p.payload c in
          continue opened c'
            λ payload. (ok (record p { encrypted = false; payload = payload }), c'))
      else (fatal, c)
