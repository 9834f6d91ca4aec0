-- ===== src/Writer.antt =====
-- src/base/BackedWriter.cpp: encrypts packets, keeps a backup of them, and sends them.
-- `recoverMutex` is held over each operation, so an operation is one step here.
use eternal_terminal.Common.{
  ℕ, zero, suc, ◌+◌, ◌-◌, ◌*◌, ◌<◌, Bool, true, false, not, ◌&&◌, Option, none, some, List, [], ◌∷◌,
  ◌++◌, reverse, Outcome, ok, throws, fatal, waiting, runtime_error, continue, ltb, ◌==◌,
  if◌then◌else◌, length, take, drop, encode_be32, ℤ, pos, negsuc,
}
pub mod Backup
pub mod Sending
pub mod Branches
use Prim.Native.Nat.{min}
use eternal_terminal.Net.{Net, Send, accepted, send_failed}
use eternal_terminal.Crypto.{Secretbox, CryptoHandler}
use eternal_terminal.Packet.{Packet, packet_length, serialize}
use eternal_terminal.Packet

pub data WriteState : Type 0 where
  skipped success wrote_with_failure buffered_only : WriteState

abbrev pub max_backup_bytes : ℕ
max_backup_bytes = 64 * 1024 * 1024

abbrev pub disconnect_buffer_bytes : ℕ
disconnect_buffer_bytes = 64 * 1024 * 1024

-- `socketFd` is none for -1. `backup_buffer` is the deque from its back: the oldest packet first.
pub record Writer : Type 0 where
  pub crypto : CryptoHandler
  pub socket_fd : Option ℕ
  pub backup_buffer : List Packet
  pub backup_size : ℕ
  pub disconnected_bytes : ℕ
  pub sequence_number : ℕ

unfoldable pub writer : CryptoHandler → Option ℕ → Writer
writer crypto fd = record {
  crypto = crypto;
  socket_fd = fd;
  backup_buffer = [];
  backup_size = 0;
  disconnected_bytes = 0;
  sequence_number = 0;
}

abbrev pub is_some : Option ℕ → Bool
is_some none = false
is_some (some fd) = true

-- The cleanup loop, from the oldest packet. `back()` of an empty deque is never read: the size
-- of an empty backup is 0.
unfoldable pub trim : ℕ → List Packet → List Packet × ℕ
trim size [] = ([], size)
trim size (p ∷ ps) =
    let rest = trim (size - packet_length p) ps in
    if ltb max_backup_bytes size then rest else (p ∷ ps, size)

-- The `while (true)` around `socketHandler->write`, from `bytesWritten` on.
unfoldable pub send_loop : List ℕ → ℕ → Net → List Send → Outcome WriteState × Net
send_loop s written net [] = (waiting, record net { sends = [] })
send_loop s written net (send_failed e ∷ answers) =
    (ok wrote_with_failure, record net { sends = answers; errno = e })
send_loop s written net (accepted room ∷ answers) =
    let n = min room (length s - written) in
    let net' = record net { wire = net.wire ++ take n (drop written s) } in
    let rest = send_loop s (written + n) net' answers in
    if written + n == length s then (ok success, record net' { sends = answers }) else rest

-- What `write` does with the packet once it is in the backup.
unfoldable pub transmit : Packet → Writer → Net → Outcome WriteState × (Writer × Net)
transmit p w net =
    if is_some w.socket_fd
    then if packet_length p == length (serialize p)
      then (let (state, net') =
            send_loop (encode_be32 (packet_length p) ++ serialize p) 0 net net.sends in
          (state, (w, net')))
      else (fatal, (w, net))
    else (
      ok buffered_only,
      (record w { disconnected_bytes = w.disconnected_bytes + packet_length p }, net),
    )

-- Backs up the encrypted packet, and drops old ones only when connected.
unfoldable pub backup : Packet → Writer → Writer
backup p w =
    let buffer = w.backup_buffer ++ (p ∷ []) in
    let size = w.backup_size + packet_length p in
    let kept = (if is_some w.socket_fd then trim size buffer else (buffer, size)) in
    record w {
      backup_buffer = kept.0;
      backup_size = kept.1;
      sequence_number = w.sequence_number + 1;
    }

unfoldable pub would_skip : Packet → Writer → Bool
would_skip p w =
    not (is_some w.socket_fd)
    && ltb disconnect_buffer_bytes (w.disconnected_bytes + packet_length p)

module _ (box : Secretbox) where
  unfoldable pub write : Packet → Writer → Net → Outcome WriteState × (Writer × Net)
  write p w net =
      if would_skip p w
      then (ok skipped, (w, net))
      else let (sealed, c) = Packet.encrypt box p w.crypto in
        continue sealed (record w { crypto = c }, net)
          λ p'. transmit p' (backup p' (record w { crypto = c })) net

-- The loop of `recover` over the deque from its front; none when it ends without the return.
unfoldable pub collect : ℕ → ℕ → List (List ℕ) → List Packet → Option (List (List ℕ))
collect wanted seen out [] = none
collect wanted seen out (p ∷ ps) =
    let rest = collect wanted (seen + 1) (out ++ (serialize p ∷ [])) ps in
    if seen + 1 == wanted then some (reverse (out ++ (serialize p ∷ []))) else rest

abbrev or_too_far : Option (List (List ℕ)) → Outcome (List (List ℕ))
or_too_far none = throws runtime_error
or_too_far (some messages) = ok messages

unfoldable pub recover_messages : Writer → ℕ → Outcome (List (List ℕ))
recover_messages w wanted =
    if wanted == 0 then ok [] else or_too_far (collect wanted 0 [] (reverse w.backup_buffer))

-- `messagesToRecover = sequenceNumber - lastValidSequenceNumber`, by the sign of the argument.
abbrev recover_since : Writer → ℤ → Outcome (List (List ℕ))
recover_since w (pos n) =
    if ltb w.sequence_number n then fatal else recover_messages w (w.sequence_number - n)
recover_since w (negsuc n) = recover_messages w (w.sequence_number + n + 1)

unfoldable pub recover : Writer → ℤ → Outcome (List (List ℕ))
recover w last_valid =
    if is_some w.socket_fd then throws runtime_error else recover_since w last_valid

unfoldable pub revive : ℕ → Writer → Writer
revive fd w = record w { socket_fd = some fd; disconnected_bytes = 0 }

unfoldable pub invalidate_socket : Writer → Writer
invalidate_socket w = record w { socket_fd = none }

unfoldable pub has_buffer_capacity : ℕ → Writer → Bool
has_buffer_capacity n w =
    if is_some w.socket_fd
    then true
    else not (ltb disconnect_buffer_bytes (w.disconnected_bytes + n))
