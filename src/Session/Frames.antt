-- ===== src/Session/Frames.antt =====
-- `read` of a header and of what follows it, on a stream of sealed frames.
use eternal_terminal.Net.{Net, Recv, arrivals, bytes, leave, recv_failed}
use eternal_terminal.Common.{
  ℕ, ◌+◌, ◌-◌, ◌^◌, ◌≤◌, ◌<◌, ◌≡◌, sym, ap, ◌∙◌, inl, inr, false, List, [], ◌∷◌, ◌++◌, arith,
  length, take, drop, encode_be32, decode_be32, decode-encode, append_split, append_assoc, Outcome,
  ok, Bool-cases, length-append, length-take, ltb, ltb_false→le, length-encode, ltb→lt,
  length-eq-zero,
}
use eternal_terminal.Crypto
use eternal_terminal.Crypto.{Secretbox, IsSecretbox}
use eternal_terminal.Crypto.Nonce.{increment_nonce}
use eternal_terminal.Packet
use eternal_terminal.Packet.{deserialize, Packet, packet_length, serialize}
use eternal_terminal.Reader.{
  Reader, ReadResult, message, read_message, read_body, read_header, read_socket, message_remainder,
  partial_message_length, read_local,
}
use eternal_terminal.Packet.Sealed.{frame, frames, seal, sealed, length-frame}
use eternal_terminal.Session.Receive.{
  CanFrame, IsPartial, Stream, Progress, waits, fails, goes_on, delivers, length-seal-frame,
  upcoming, next, read_body-Progress, arrivals_cut,
}

module _ (box : Secretbox) (law : IsSecretbox box) where
  size-partial :
      (c : Packet) (partial incoming rest : List ℕ)
      → packet_length c < 2 ^ 32
      → 4 ≤ length partial
      → partial ++ incoming ≡ frame c ++ rest
      → decode_be32 partial ≡ packet_length c
  size-partial c partial incoming rest small h e =
      let (us, front, _) =
        append_split (encode_be32 (packet_length c)) (serialize c ++ rest) partial incoming
          (sym (e ∙ append_assoc (encode_be32 (packet_length c)) (serialize c) rest))
          (omega (arith, length-encode (packet_length c))) in
      rw front (decode-encode (packet_length c) us small)

  message_remainder_lem :
      (size : ℕ) (partial : List ℕ)
      → size < 2 ^ 31
      → 4 ≤ length partial
      → length partial < size + 4
      → message_remainder size partial ≡ size + 4 - length partial
  unfolding message_remainder
  message_remainder_lem size partial small h k = omega arith

  read_message_body :
      (r : Reader) (net : Net) (missing : ℕ)
      → 4 ≤ length r.partial_message
      → message_remainder (decode_be32 r.partial_message) r.partial_message ≡ missing
      → 0 < missing
      → missing < 2 ^ 31
      → read_message box r net ≡ read_body box missing r net net.reads
  unfolding read_message partial_message_length
  read_message_body r net missing h e pos small = ground arith

  after_header :
      (r : Reader) (net : Net) (tail : List ℕ) (pending : List Packet)
      → CanFrame pending
      → Stream box law r net.reads tail pending
      → 4 ≤ length r.partial_message
      → Progress box law r tail pending (read_message box r net)
  after_header r net tail [] can s h = absurd (omega (arith, ap (λ (l : List ℕ). length l) s.1))
  after_header r net tail (p ∷ ps) can s h =
      let c = seal box r.crypto.key r.crypto.nonce p in
      let missing = packet_length c + 4 - length r.partial_message in
      let size = length-seal-frame box law r.crypto p in
      let framed = length-frame c in
      let bound = s.1 in
      let d =
        size-partial c r.partial_message _
          (frames (sealed box r.crypto.key (increment_nonce r.crypto.nonce) ps)) (omega arith) h
          s.0 in
      let m =
        ap (λ n. message_remainder n r.partial_message) d
        ∙ message_remainder_lem (packet_length c) r.partial_message (omega arith) h (omega arith) in
      rw (read_message_body r net missing h m (omega arith) (omega arith))
        (read_body-Progress box law r net net.reads tail p ps missing can s (omega arith))

  pub read_message-Progress :
      (r : Reader) (net : Net) (tail : List ℕ) (pending : List Packet)
      → CanFrame pending
      → Stream box law r net.reads tail pending
      → Progress box law r tail pending (read_message box r net)
  unfolding read_message
  read_message-Progress r net tail pending can s =
      elim (Bool-cases (ltb (length r.partial_message) 4)) [
        | inl few ↦ rw few (goes_on r.partial_message net s)
        | inr header ↦ after_header r net tail pending can s (ltb_false→le _ _ header)
      ]

  header-IsPartial :
      (r : Reader) (pending : List Packet) (n : ℕ) (bs : List ℕ) (reads : List Recv) (tail : List ℕ)
      → CanFrame pending
      → Stream box law r (bytes bs ∷ reads) tail pending
      → length r.partial_message + n ≤ 4
      → IsPartial (r.partial_message ++ take n bs) (upcoming box law r pending)
  header-IsPartial r [] n bs reads tail can s h = length-eq-zero (r.partial_message ++ take n bs) (
      omega (
        arith,
        ap (λ (l : List ℕ). length l) s.0,
        length-append r.partial_message ((bs ++ arrivals reads) ++ tail),
        length-append (bs ++ arrivals reads) tail,
        length-append bs (arrivals reads),
        length-append r.partial_message (take n bs),
        length-take n bs,
      ))
  header-IsPartial r (p ∷ ps) n bs reads tail can s h = omega (
    arith,
    length-append r.partial_message (take n bs),
    length-take n bs,
    length-seal-frame box law r.crypto p,
  )

  -- What the reader held before is of no account.
  Progress-start :
      (r : Reader) (partial : List ℕ) {tail : List ℕ} {pending : List Packet}
      {out : Outcome ReadResult × (Reader × Net)}
      → Progress box law (record r { partial_message = partial }) tail pending out
      → Progress box law r tail pending out
  Progress-start r partial (waits r' net) = waits r' net
  Progress-start r partial (fails p net s) = fails p net s
  Progress-start r partial (goes_on p net s) = goes_on p net s
  Progress-start r partial (delivers p ps net e s) = delivers p ps net e s

  pub read_header-Progress :
      (r : Reader) (net : Net) (reads : List Recv) (tail : List ℕ) (pending : List Packet)
      → CanFrame pending
      → Stream box law r reads tail pending
      → length r.partial_message < 4
      → Progress box law r tail pending (read_header box r net reads)
  unfolding read_header
  read_header-Progress r net [] tail pending can s h = waits r net
  read_header-Progress r net (recv_failed n ∷ reads) tail pending can s h =
      fails r.partial_message _ s
  read_header-Progress r net (bytes [] ∷ reads) tail pending can s h = fails r.partial_message _ s
  read_header-Progress r net (bytes (b ∷ bs) ∷ reads) tail pending can s h =
      let wanted = 4 - length r.partial_message in
      let r' = record r { partial_message = r.partial_message ++ take wanted (b ∷ bs) } in
      let net' = record net { reads = leave (drop wanted (b ∷ bs)) reads } in
      Progress-start r (r.partial_message ++ take wanted (b ∷ bs)) (
        read_message-Progress r' net' tail pending can (
          arrivals_cut wanted (b ∷ bs) reads tail r.partial_message ∙ s.0,
          header-IsPartial r pending wanted (b ∷ bs) reads tail can s (omega arith),
        ))

  pub read_socket-Progress :
      (r : Reader) (net : Net) (tail : List ℕ) (pending : List Packet)
      → CanFrame pending
      → Stream box law r net.reads tail pending
      → Progress box law r tail pending (read_socket box r net)
  unfolding read_socket
  read_socket-Progress r net tail pending can s =
      elim (Bool-cases (ltb (length r.partial_message) 4)) [
        | inl few ↦
            rw few (read_header-Progress r net net.reads tail pending can s (ltb→lt _ _ few))
        | inr header ↦ rw header (read_message-Progress r net tail pending can s)
      ]

  -- A packet that a recovery brought.
  pub read_local-seal :
      (r : Reader) (net : Net) (p : Packet) (rest : List (List ℕ))
      → p.encrypted ≡ false
      → read_local box (serialize (seal box r.crypto.key r.crypto.nonce p)) rest r net
        ≡ (ok (message p), (record r { crypto = next box law r.crypto; local_buffer = rest }, net))
  unfolding read_local serialize deserialize Packet.decrypt Crypto.decrypt
  read_local-seal r net p rest plain = ground (
    arith,
    law.unseal-seal p.payload (increment_nonce r.crypto.nonce) r.crypto.key,
    law.length-seal p.payload (increment_nonce r.crypto.nonce) r.crypto.key,
  )
