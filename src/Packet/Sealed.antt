-- ===== src/Packet/Sealed.antt =====
-- The packets of one direction as they are sealed: the n-th under the n-th nonce, and the bytes
-- that carry them.
use eternal_terminal.Common.{
  ℕ, suc, ◌+◌, ◌≡◌, refl, ap, true, sym, append_assoc, List, [], ◌∷◌, ◌++◌, arith, length,
  encode_be32, take, drop, take_all, ◌≢◌, length-append,
}
use eternal_terminal.Crypto.{Secretbox}
pub use eternal_terminal.Crypto.Nonce.{advance, advance-suc, advance_add}
use eternal_terminal.Crypto.Nonce.{increment_nonce}
use eternal_terminal.Packet.{Packet, packet_length, serialize}

-- The header of four bytes, and the packet.
abbrev pub frame : Packet → List ℕ
frame p = encode_be32 (packet_length p) ++ serialize p

abbrev pub frames : List Packet → List ℕ
frames [] = []
frames (p ∷ ps) = frame p ++ frames ps

module _ (box : Secretbox) (key : List ℕ) where
  abbrev pub seal : List ℕ → Packet → Packet
  seal nonce p = record {
    encrypted = true;
    header = p.header;
    payload = box.seal p.payload (increment_nonce nonce) key;
  }

  abbrev pub sealed : List ℕ → List Packet → List Packet
  sealed nonce [] = []
  sealed nonce (p ∷ ps) = seal nonce p ∷ sealed (increment_nonce nonce) ps

  pub length-sealed : (nonce : List ℕ) (ps : List Packet) → length (sealed nonce ps) ≡ length ps
  length-sealed nonce [] = refl
  length-sealed nonce (p ∷ ps) = ap suc (length-sealed (increment_nonce nonce) ps)

  pub sealed-append :
      (nonce : List ℕ) (ps qs : List Packet)
      → sealed nonce (ps ++ qs) ≡ sealed nonce ps ++ sealed (advance (length ps) nonce) qs
  sealed-append nonce [] qs = refl
  sealed-append nonce (p ∷ ps) qs =
      ap (λ l. seal nonce p ∷ l) (sealed-append (increment_nonce nonce) ps qs)

pub frames-append : (ps qs : List Packet) → frames (ps ++ qs) ≡ frames ps ++ frames qs
frames-append [] qs = refl
frames-append (p ∷ ps) qs =
    rw (frames-append ps qs) (sym (append_assoc (frame p) (frames ps) (frames qs)))

pub length-frame : (p : Packet) → length (frame p) ≡ packet_length p + 4
unfolding packet_length serialize encode_be32
length-frame p = omega arith

pub length-serialize : (p : Packet) → length (serialize p) ≡ packet_length p
unfolding packet_length serialize
length-serialize p = omega arith

pub body-frame : (p : Packet) → take (packet_length p) (drop 4 (frame p)) ≡ serialize p
unfolding encode_be32
body-frame p = take_all (packet_length p) (serialize p) (omega (arith, length-serialize p))

pub frame-ne-nil : (p : Packet) (rest : List ℕ) → frame p ++ rest ≢ []
unfolding encode_be32
frame-ne-nil p rest e = cc

pub length-snoc : (ps : List Packet) (p : Packet) → length (ps ++ (p ∷ [])) ≡ suc (length ps)
length-snoc ps p = omega (arith, length-append ps (p ∷ []))

pub advance-snoc :
    (ps : List Packet) (p : Packet) (nonce : List ℕ)
    → increment_nonce (advance (length ps) nonce) ≡ advance (length (ps ++ (p ∷ []))) nonce
advance-snoc ps p nonce = rw (length-snoc ps p) (advance-suc (length ps) nonce)
