-- ===== src/Reader.antt =====
-- src/base/BackedReader.cpp: reads framed packets from a socket, or from the messages that a
-- recovery has brought, and counts them.
pub mod Socket
use eternal_terminal.Common.{
  ℕ, zero, suc, ◌+◌, ◌-◌, ◌%◌, ◌^◌, Bool, true, false, not, ◌&&◌, Option, none, some, List, [], ◌∷◌,
  ◌++◌, Outcome, ok, throws, fatal, waiting, length_error, continue, ltb, leb, ◌==◌, ◌>>=◌,
  if◌then◌else◌, length, take, drop, decode_be32,
}
use eternal_terminal.Net.{Net, Recv, bytes, recv_failed, leave, epipe}
use eternal_terminal.Crypto.{Secretbox, CryptoHandler}
use eternal_terminal.Packet.{Packet, deserialize}
use eternal_terminal.Packet

-- -1 (with errno), 0 and 1.
pub data ReadResult : Type 0 where
  error : ReadResult
  nothing : ReadResult
  message : Packet → ReadResult

pub record Reader : Type 0 where
  pub crypto : CryptoHandler
  pub socket_fd : Option ℕ
  pub sequence_number : ℕ
  pub local_buffer : List (List ℕ)
  pub partial_message : List ℕ

unfoldable pub reader : CryptoHandler → Option ℕ → Reader
reader crypto fd = record {
  crypto = crypto;
  socket_fd = fd;
  sequence_number = 0;
  local_buffer = [];
  partial_message = [];
}

unfoldable pub has_data : Reader → Bool → Bool
has_data r socket_has_data = elim r.socket_fd [
  | none ↦ false
  | some fd ↦ elim r.local_buffer [ [] ↦ socket_has_data | _ ∷ _ ↦ true ]
]

-- `getPartialMessageLength`: the length as the bits of an int.
unfoldable pub partial_message_length : List ℕ → Outcome ℕ
partial_message_length partial = if ltb (length partial) 4 then fatal else ok (decode_be32 partial)

-- `messageLength - (partialMessage.length() - 4)`, as the bits of an int.
unfoldable pub message_remainder : ℕ → List ℕ → ℕ
message_remainder size partial = (size + 2 ^ 32 - (length partial - 4) % 2 ^ 32) % 2 ^ 32

module _ (box : Secretbox) where
  abbrev Step : Type 0
  Step = Outcome ReadResult × (Reader × Net)

  -- `*packet = Packet(bytes); packet->decrypt(cryptoHandler)`
  unfoldable pub unpack : List ℕ → CryptoHandler → Outcome Packet × CryptoHandler
  unpack s c = continue (deserialize s) c λ p. Packet.decrypt box p c

  unfoldable pub construct_partial_message : Reader → Net → Step
  construct_partial_message r net =
      continue (partial_message_length r.partial_message) (r, net)
        λ size.
          if (length r.partial_message + 2 ^ 32 - 4) % 2 ^ 32 == size
          then (let (result, c) = unpack (take size (drop 4 r.partial_message)) r.crypto in
              let r' = record r { crypto = c } in
              continue result (r', net)
                λ p. (
                  ok (message p),
                  (
                    record r' { partial_message = []; sequence_number = r.sequence_number + 1 },
                    net,
                  ),
                ))
          else (fatal, (r, net))

  -- The read of the body: `messageRemainder` is not 0, and as a size it may be too large.
  unfoldable pub read_body : ℕ → Reader → Net → List Recv → Step
  read_body remainder r net [] = (waiting, (r, net))
  read_body remainder r net (recv_failed e ∷ reads) =
      (ok error, (r, record net { reads = reads; errno = e }))
  read_body remainder r net (bytes [] ∷ reads) =
      (ok error, (r, record net { reads = reads; errno = epipe }))
  read_body remainder r net (bytes (b ∷ bs) ∷ reads) =
      let got = take remainder (b ∷ bs) in
      let r' = record r { partial_message = r.partial_message ++ got } in
      let net' = record net { reads = leave (drop remainder (b ∷ bs)) reads } in
      if remainder - length got == 0
      then construct_partial_message r' net'
      else (ok nothing, (r', net'))

  unfoldable pub read_message : Reader → Net → Step
  read_message r net =
      if ltb (length r.partial_message) 4
      then (ok nothing, (r, net))
      else continue (partial_message_length r.partial_message) (r, net)
          λ size.
            let remainder = message_remainder size r.partial_message in
            if remainder == 0
            then construct_partial_message r net
            else if leb (2 ^ 31) remainder
            then (throws length_error, (r, net))
            else read_body remainder r net net.reads

  unfoldable pub read_header : Reader → Net → List Recv → Step
  read_header r net [] = (waiting, (r, net))
  read_header r net (recv_failed e ∷ reads) =
      (ok error, (r, record net { reads = reads; errno = e }))
  read_header r net (bytes [] ∷ reads) =
      (ok error, (r, record net { reads = reads; errno = epipe }))
  read_header r net (bytes (b ∷ bs) ∷ reads) =
      let wanted = 4 - length r.partial_message in
      read_message (record r { partial_message = r.partial_message ++ take wanted (b ∷ bs) })
        (record net { reads = leave (drop wanted (b ∷ bs)) reads })

  unfoldable pub read_socket : Reader → Net → Step
  read_socket r net =
      if ltb (length r.partial_message) 4 then read_header r net net.reads else read_message r net

  unfoldable pub read_local : List ℕ → List (List ℕ) → Reader → Net → Step
  read_local s rest r net =
      continue (deserialize s) (r, net)
        λ p.
          let (result, c) = Packet.decrypt box p r.crypto in
          let r' = record r { crypto = c; local_buffer = rest } in
          continue result (r', net) λ p'. (ok (message p'), (r', net))

  abbrev read_from : List (List ℕ) → Reader → Net → Step
  read_from [] r net = read_socket r net
  read_from (s ∷ rest) r net = read_local s rest r net

  unfoldable pub read : Reader → Net → Step
  read r net = elim r.socket_fd [
    | none ↦ (ok nothing, (r, net))
    | some fd ↦ read_from r.local_buffer r net
  ]

unfoldable pub revive : ℕ → List (List ℕ) → Reader → Reader
revive fd entries r = record r {
  partial_message = [];
  local_buffer = r.local_buffer ++ entries;
  sequence_number = r.sequence_number + length entries;
  socket_fd = some fd;
}

unfoldable pub invalidate_socket : Reader → Reader
invalidate_socket r = record r { socket_fd = none }
