-- ===== src/Writer/Branches.antt =====
-- `write` of src/base/BackedWriter.cpp, branch by branch.
use eternal_terminal.Packet.Sealed.{frame, seal}
use eternal_terminal.Common.{
  ℕ, ◌+◌, ◌-◌, ◌≤◌, ◌≡◌, refl, ap, ◌∙◌, inl, inr, true, false, none, List, [], ◌∷◌, ◌++◌, arith,
  length, Outcome, ok, waiting, Bool-cases, to_int32, throws, runtime_error, le→ltb_false, ◌%◌, ◌^◌,
}
use eternal_terminal.Net.{Net}
use eternal_terminal.Crypto.{Secretbox, IsSecretbox, CryptoHandler}
use eternal_terminal.Crypto
use eternal_terminal.Crypto.Nonce.{increment_nonce}
use eternal_terminal.Packet.{Packet, packet_length, serialize}
use eternal_terminal.Packet
use eternal_terminal.Writer.{
  WriteState, skipped, success, wrote_with_failure, buffered_only, Writer, send_loop, is_some, trim,
  transmit, backup, would_skip, write, max_backup_bytes,
}
use eternal_terminal.Writer
use eternal_terminal.Writer.Backup.{total, total-append, trim-Trimmed, recover_messages_short}
use eternal_terminal.Writer.Sending.{Sent, stuck, whole, part, send_loop-Sent}

-- The size that the writer keeps is the size of its backup.
abbrev pub IsSized : Writer → Type 0
IsSized w = w.backup_size ≡ total w.backup_buffer

length-serialize : (p : Packet) → packet_length p ≡ length (serialize p)
unfolding packet_length serialize
length-serialize p = omega arith

module _ (p : Packet) (w : Writer) where
  pub size-backup :
      IsSized w → w.backup_size + packet_length p ≡ total (w.backup_buffer ++ (p ∷ []))
  size-backup h = omega (arith, total-append w.backup_buffer (p ∷ []))

  pub backup-IsSized : IsSized w → IsSized (backup p w)
  unfolding backup
  backup-IsSized h = elim (Bool-cases (is_some w.socket_fd)) [
    | inl up ↦ rw (up, size-backup h) (trim-Trimmed (w.backup_buffer ++ (p ∷ []))).sized
    | inr down ↦ rw (down) (size-backup h)
  ]

  -- The backup and the new packet, less the oldest packets.
  pub backup-suffix :
      IsSized w
      → (dropped : List Packet) × (w.backup_buffer ++ (p ∷ [])
          ≡ dropped ++ (backup p w).backup_buffer)
  unfolding backup
  backup-suffix h = elim (Bool-cases (is_some w.socket_fd)) [
    | inl up ↦
        let t = trim-Trimmed (w.backup_buffer ++ (p ∷ [])) in
        (t.dropped, rw (up, size-backup h) t.cut)
    | inr down ↦ ([], rw down)
  ]

transmit_up :
    (p : Packet) (w : Writer) (net : Net)
    → is_some w.socket_fd ≡ true
    → transmit p w net
      ≡ ((send_loop (frame p) 0 net net.sends).0, (w, (send_loop (frame p) 0 net net.sends).1))
unfolding transmit
transmit_up p w net up = ground (arith, length-serialize p)

transmit_down :
    (p : Packet) (w : Writer) (net : Net)
    → is_some w.socket_fd ≡ false
    → transmit p w net ≡ (
      ok buffered_only,
      (record w { disconnected_bytes = w.disconnected_bytes + packet_length p }, net),
    )
unfolding transmit
transmit_down p w net down = ground arith

module _ (box : Secretbox) where
  abbrev pub sealed_next : Packet → Writer → Packet
  sealed_next p w = seal box w.crypto.key w.crypto.nonce p

  -- The writer once the sealed packet is backed up.
  abbrev pub backed : Packet → Writer → Writer
  backed p w =
      backup (sealed_next p w)
        (record w { crypto = record w.crypto { nonce = increment_nonce w.crypto.nonce } })

module _ (box : Secretbox) (law : IsSecretbox box) where
  pub encrypt-seal :
      (p : Packet) (c : CryptoHandler)
      → p.encrypted ≡ false
      → Packet.encrypt box p c
        ≡ (ok (seal box c.key c.nonce p), record c { nonce = increment_nonce c.nonce })
  unfolding Packet.encrypt Crypto.encrypt
  encrypt-seal p c plain = ground (arith, law.seals p.payload (increment_nonce c.nonce) c.key)

  -- How `write` can end on a plain packet.
  pub data Written (p : Packet) (w : Writer) (net : Net)
      : Outcome WriteState × (Writer × Net) → Type 0 where
    skips : would_skip p w ≡ true → Written p w net (ok skipped, (w, net))
    buffers :
        is_some w.socket_fd ≡ false
        → would_skip p w ≡ false
        → Written p w net (
          ok buffered_only,
          (
            record (backed box p w) {
              disconnected_bytes = w.disconnected_bytes + packet_length (sealed_next box p w);
            },
            net,
          ),
        )
    waits :
        (net' : Net)
        → is_some w.socket_fd ≡ true
        → Written p w net (waiting, (backed box p w, net'))
    sends :
        (net' : Net)
        → is_some w.socket_fd ≡ true
        → net'.wire ≡ net.wire ++ frame (sealed_next box p w)
        → Written p w net (ok success, (backed box p w, net'))
    breaks :
        (sent unsent : List ℕ) (net' : Net)
        → is_some w.socket_fd ≡ true
        → frame (sealed_next box p w) ≡ sent ++ unsent
        → net'.wire ≡ net.wire ++ sent
        → Written p w net (ok wrote_with_failure, (backed box p w, net'))

  Written-Sent :
      (p : Packet) (w : Writer) (net : Net) {out : Outcome WriteState × Net}
      → is_some w.socket_fd ≡ true
      → Sent (frame (sealed_next box p w)) 0 net out
      → Written p w net (out.0, (backed box p w, out.1))
  Written-Sent p w net up (stuck net') = waits net' up
  Written-Sent p w net up (whole net' e) = sends net' up e
  Written-Sent p w net up (part sent unsent net' e h) = breaks sent unsent net' up e h

  fd-backup : (p : Packet) (w : Writer) → (backup p w).socket_fd ≡ w.socket_fd
  unfolding backup
  fd-backup p w = refl

  disconnected-backup :
      (p : Packet) (w : Writer) → (backup p w).disconnected_bytes ≡ w.disconnected_bytes
  unfolding backup
  disconnected-backup p w = refl

  write_sealed :
      (p : Packet) (w : Writer) (net : Net)
      → p.encrypted ≡ false
      → would_skip p w ≡ false
      → write box p w net ≡ transmit (sealed_next box p w) (backed box p w) net
  unfolding write
  write_sealed p w net plain room = rw (room, encrypt-seal p w.crypto plain)

  transmit-Written :
      (p : Packet) (w : Writer) (net : Net)
      → would_skip p w ≡ false
      → Written p w net (transmit (sealed_next box p w) (backed box p w) net)
  transmit-Written p w net room = elim (Bool-cases (is_some w.socket_fd)) [
    | inl up ↦
        rw
          (transmit_up (sealed_next box p w) (backed box p w) net
            (ap is_some (fd-backup (sealed_next box p w) _) ∙ up))
          (Written-Sent p w net up (send_loop-Sent (frame (sealed_next box p w)) 0 net net.sends))
    | inr down ↦
        rw
          (
            transmit_down (sealed_next box p w) (backed box p w) net
                (ap is_some (fd-backup (sealed_next box p w) _) ∙ down),
            disconnected-backup (sealed_next box p w) _,
          )
          (buffers down room)
  ]

  -- A plain packet is skipped, or backed up sealed and then buffered or sent.
  pub write-Written :
      (p : Packet) (w : Writer) (net : Net)
      → p.encrypted ≡ false
      → Written p w net (write box p w net)
  unfolding write
  write-Written p w net plain = elim (Bool-cases (would_skip p w)) [
    | inl full ↦ rw full (skips full)
    | inr room ↦ rw (write_sealed p w net plain room) (transmit-Written p w net room)
  ]

-- No write changes the socket.
pub socket-write :
    (box : Secretbox) (p : Packet) (w : Writer) (net : Net)
    → (write box p w net).1.0.socket_fd ≡ w.socket_fd
unfolding write transmit backup
socket-write box p w net = ground arith

-- The header of a recovery is an int32: once the reader has counted as far as its negative
-- numbers, every recovery of a writer whose socket is closed throws, as long as its backup is no
-- longer than its count.
pub recover-to_int32_wraps :
    (w : Writer) (received : ℕ)
    → w.socket_fd ≡ none
    → length w.backup_buffer ≤ w.sequence_number
    → 2 ^ 31 ≤ received % 2 ^ 32
    → Writer.recover w (to_int32 received) ≡ throws runtime_error
unfolding Writer.recover to_int32
recover-to_int32_wraps w received down few wrapped =
    rw (ap is_some down, le→ltb_false (received % 2 ^ 32) (2 ^ 31) wrapped)
      (recover_messages_short w (w.sequence_number + (2 ^ 32 - 1 - received % 2 ^ 32) + 1)
        (omega arith))
