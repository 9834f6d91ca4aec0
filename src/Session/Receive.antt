-- ===== src/Session/Receive.antt =====
-- `read` of a body on a stream of sealed frames, and how a read can end.
use eternal_terminal.Net.{Net, Recv, arrivals, bytes, leave, arrivals-leave, recv_failed}
use eternal_terminal.Common.{
  ℕ, ◌+◌, ◌-◌, ◌^◌, ◌<◌, ◌≡◌, refl, ap, ◌∙◌, inl, inr, false, List, [], ◌∷◌, ◌++◌, arith, length,
  take, drop, decode-encode, append_cut, append_assoc, Outcome, ok, waiting, Bool-cases,
  length-append, ◌==◌, ==_iff, length-take, take-append-drop,
}
use eternal_terminal.Crypto.{Secretbox, IsSecretbox, CryptoHandler, mac_bytes}
use eternal_terminal.Crypto
use eternal_terminal.Crypto.Nonce.{increment_nonce}
use eternal_terminal.Packet.{Packet, packet_length, serialize, deserialize}
use eternal_terminal.Packet
use eternal_terminal.Reader.{
  Reader, ReadResult, error, nothing, message, read_body, unpack, construct_partial_message,
  partial_message_length,
}
use eternal_terminal.Packet.Sealed.{frame, frames, seal, sealed, length-frame, body-frame}

pub arrivals_cut :
    (n : ℕ) (bs : List ℕ) (reads : List Recv) (tail partial : List ℕ)
    → (partial ++ take n bs) ++ (arrivals (leave (drop n bs) reads) ++ tail)
      ≡ partial ++ ((bs ++ arrivals reads) ++ tail)
arrivals_cut n bs reads tail partial =
    rw (arrivals-leave (drop n bs) reads, append_assoc partial (take n bs))
      (ap (λ l. partial ++ l)
        (rw (
          append_assoc (drop n bs),
          ← append_assoc (take n bs),
          take-append-drop n bs,
          append_assoc bs,
        )))

not_done : (a : ℕ) → (a == 0) ≡ false → 0 < a
not_done a h = ground arith

-- Bytes read of a frame that is not complete, or none if no frame is to come.
abbrev pub IsPartial : List ℕ → List Packet → Type 0
IsPartial partial [] = partial ≡ []
IsPartial partial (c ∷ cs) = length partial < length (frame c)

-- Packets that can be framed: not sealed yet, and with a length that an int holds.
abbrev pub CanFrame : List Packet → Type 0
CanFrame [] = Unit {0}
CanFrame (p ∷ ps) = (p.encrypted ≡ false) × (packet_length p + mac_bytes < 2 ^ 31) × CanFrame ps

module _ (box : Secretbox) (law : IsSecretbox box) where
  abbrev pub next : CryptoHandler → CryptoHandler
  next c = record c { nonce = increment_nonce c.nonce }

  pub unpack-seal :
      (c : CryptoHandler) (p : Packet)
      → p.encrypted ≡ false
      → unpack box (serialize (seal box c.key c.nonce p)) c ≡ (ok p, next c)
  unfolding unpack serialize deserialize Packet.decrypt Crypto.decrypt
  unpack-seal c p plain = ground (
    arith,
    law.unseal-seal p.payload (increment_nonce c.nonce) c.key,
    law.length-seal p.payload (increment_nonce c.nonce) c.key,
  )

  pub construct-frame :
      (r : Reader) (net : Net) (p : Packet)
      → p.encrypted ≡ false
      → packet_length (seal box r.crypto.key r.crypto.nonce p) < 2 ^ 31
      → r.partial_message ≡ frame (seal box r.crypto.key r.crypto.nonce p)
      → construct_partial_message box r net ≡ (
        ok (message p),
        (
          record r {
            crypto = next r.crypto;
            partial_message = [];
            sequence_number = r.sequence_number + 1;
          },
          net,
        ),
      )
  unfolding construct_partial_message partial_message_length
  construct-frame r net p plain small e =
      let c = seal box r.crypto.key r.crypto.nonce p in
      rw e (
        ground (
          arith,
          length-frame c,
          decode-encode (packet_length c) (serialize c),
          body-frame c,
          unpack-seal r.crypto p plain,
        ))

  abbrev pub upcoming : Reader → List Packet → List Packet
  upcoming r = sealed box r.crypto.key r.crypto.nonce

  -- The stream goes on, from the bytes in the reader, with the frames of `pending`.
  abbrev pub Stream : Reader → List Recv → List ℕ → List Packet → Type 0
  Stream r reads tail pending =
      (r.partial_message ++ (arrivals reads ++ tail) ≡ frames (upcoming r pending))
      × IsPartial r.partial_message (upcoming r pending)

  -- How a read from the socket can end: it waits; it fails or has no message yet, and the stream
  -- goes on; or it returns the next packet.
  pub data Progress (r : Reader) (tail : List ℕ) (pending : List Packet)
      : Outcome ReadResult × (Reader × Net) → Type 0 where
    waits : (r' : Reader) (net : Net) → Progress r tail pending (waiting, (r', net))
    fails :
        (partial : List ℕ) (net : Net)
        → Stream (record r { partial_message = partial }) net.reads tail pending
        → Progress r tail pending (ok error, (record r { partial_message = partial }, net))
    goes_on :
        (partial : List ℕ) (net : Net)
        → Stream (record r { partial_message = partial }) net.reads tail pending
        → Progress r tail pending (ok nothing, (record r { partial_message = partial }, net))
    delivers :
        (p : Packet) (ps : List Packet) (net : Net)
        → pending ≡ p ∷ ps
        → arrivals net.reads ++ tail
          ≡ frames (sealed box r.crypto.key (increment_nonce r.crypto.nonce) ps)
        → Progress r tail pending (
          ok (message p),
          (
            record r {
              crypto = next r.crypto;
              partial_message = [];
              sequence_number = r.sequence_number + 1;
            },
            net,
          ),
        )

  pub length-seal-frame :
      (c : CryptoHandler) (p : Packet)
      → length (frame (seal box c.key c.nonce p)) ≡ packet_length p + mac_bytes + 4
  unfolding packet_length
  length-seal-frame c p = omega (
    arith,
    length-frame (seal box c.key c.nonce p),
    law.length-seal p.payload (increment_nonce c.nonce) c.key,
  )

  -- The read of a body whose end is `missing` bytes away.
  pub read_body-Progress :
      (r : Reader) (net : Net) (reads : List Recv) (tail : List ℕ) (p : Packet) (ps : List Packet)
      (missing : ℕ)
      → CanFrame (p ∷ ps)
      → Stream r reads tail (p ∷ ps)
      → length r.partial_message + missing ≡ length (frame (seal box r.crypto.key r.crypto.nonce p))
      → Progress r tail (p ∷ ps) (read_body box missing r net reads)
  unfolding read_body
  read_body-Progress r net [] tail p ps missing can s e = waits r net
  read_body-Progress r net (recv_failed n ∷ reads) tail p ps missing can s e =
      fails r.partial_message _ s
  read_body-Progress r net (bytes [] ∷ reads) tail p ps missing can s e =
      fails r.partial_message _ s
  read_body-Progress r net (bytes (b ∷ bs) ∷ reads) tail p ps missing can s e =
      let c = seal box r.crypto.key r.crypto.nonce p in
      let got = take missing (b ∷ bs) in
      let net' = record net { reads = leave (drop missing (b ∷ bs)) reads } in
      let moved = arrivals_cut missing (b ∷ bs) reads tail r.partial_message ∙ s.0 in
      let size = length-append r.partial_message got in
      let bound = length-take missing (b ∷ bs) in
      elim (Bool-cases (missing - length got == 0)) [
        | inl done ↦
            let full = (==_iff _ _).0 done in
            let (whole, rest) =
              append_cut (r.partial_message ++ got) _ (frame c) _ moved (omega arith) in
            let r' = record r { partial_message = r.partial_message ++ got } in
            rw done (
              rw
                (construct-frame r' net' p can.0
                  (omega (arith, length-seal-frame r.crypto p, length-frame c)) whole)
                (delivers p ps net' refl rest))
        | inr more ↦ let short = not_done _ more in rw more (goes_on _ _ (moved, omega arith))
      ]
