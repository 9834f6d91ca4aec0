-- ===== src/Session/Delivery.antt =====
-- What the two applications see over a whole session, through any number of broken connections.
use eternal_terminal.Crypto.Nonce.{advance}
use eternal_terminal.Packet.Sealed.{frames, length-sealed, frame}
use eternal_terminal.Common.{
  ℕ, zero, suc, ◌+◌, ◌≤◌, ◌<◌, ◌≡◌, ◌≢◌, refl, sym, ap, ◌∙◌, true, none, some, List, [], ◌∷◌, ◌++◌,
  map, length, arith, append_assoc, append-nil, length-append, length-map, Outcome, ok, throws,
  fatal, waiting, Error, runtime_error, length-eq-zero,
}
use eternal_terminal.Net.{Net, Recv, arrivals, quiet}
use eternal_terminal.Crypto.{Secretbox, IsSecretbox, CryptoHandler}
use eternal_terminal.Packet.{Packet, serialize}
use eternal_terminal.Reader.{Reader, ReadResult, read}
use eternal_terminal.Reader
use eternal_terminal.Session.Receive.{CanFrame, IsPartial}
use eternal_terminal.Session.Inv.{Inv, Holds, unread, start-Inv}
use eternal_terminal.Session.Reading.{AfterRead, read-AfterRead, read_front, after-local}
use eternal_terminal.Session.Recovering.{
  exchange-eq-ok, exchange-unread, exchange_short, both-Holds, reader_only-Holds, count_split,
}
use eternal_terminal.Session.Steps.{Fits, Reach-Inv, few_received}
use eternal_terminal.Session.{
  Session, start, Finished, both, reader_only, writer_only, after_read, after_recover, exchange,
  Reach,
}

-- Reads that find nothing new in the socket, n of them.
pub after_quiet : Outcome ReadResult × (Reader × Net) → Session → Session
after_quiet (ok result, (r, net)) s = after_read result r s.wire s
after_quiet _ s = s

pub drain : Secretbox → ℕ → Session → Session
unfolding after_quiet
drain box zero s = s
drain box (suc n) s = drain box n (after_quiet (read box s.reader quiet) s)

-- A stream that holds less than a frame, and nothing more to come, has no frame to come.
no_frames :
    (cs : List Packet) (partial : List ℕ)
    → partial ≡ frames cs
    → IsPartial partial cs
    → length cs ≡ 0
no_frames [] partial e h = refl
no_frames (d ∷ cs) partial e h =
    absurd (omega (arith, ap (λ (l : List ℕ). length l) e, length-append (frame d) (frames cs)))

module _ (box : Secretbox) (law : IsSecretbox box) (c : CryptoHandler) where
  drain_lem :
      (buffered : List Packet) (s : Session) {fd : ℕ} {pending : List Packet} {rest : List ℕ}
      {dropped : List Packet}
      → s.reader.socket_fd ≡ some fd
      → CanFrame s.written
      → Holds box c s buffered pending rest dropped
      → (drain box (length buffered) s).delivered ≡ s.delivered ++ buffered
  unfolding drain
  drain_lem [] s alive can h = sym (append-nil s.delivered)
  drain_lem (p ∷ buffered) s alive can h =
      ap (λ o. (drain box (length buffered) (after_quiet o s)).delivered)
        (read_front box law c s [] [] p buffered alive can h)
      ∙ drain_lem buffered _ alive can (after-local box law c s p buffered s.wire refl h)
      ∙ append_assoc s.delivered (p ∷ []) buffered

  AfterRead-safe :
      (s : Session) (beyond : List ℕ) (out : Outcome ReadResult × (Reader × Net))
      → AfterRead box c s beyond out
      → (out.0 ≢ fatal) × ((e : Error) → out.0 ≢ throws e)
  AfterRead-safe s beyond (ok result, out) h = (λ x. cc, λ e x. cc)
  AfterRead-safe s beyond (waiting, out) h = (λ x. cc, λ e x. cc)
  AfterRead-safe s beyond (throws e, out) h = absurd h
  AfterRead-safe s beyond (fatal, out) h = absurd h

  local-length :
      (s : Session) {buffered pending : List Packet} {rest : List ℕ} {dropped : List Packet}
      → Holds box c s buffered pending rest dropped
      → length s.reader.local_buffer ≡ length buffered
  local-length s {buffered = buffered} h =
      ap (λ (l : List (List ℕ)). length l) h.receiver.local
      ∙ length-map serialize _
      ∙ length-sealed box s.reader.crypto.key s.reader.crypto.nonce buffered

  drained :
      (t : Session) {fd : ℕ} {buffered : List Packet} {rest : List ℕ} {dropped : List Packet}
      → t.reader.socket_fd ≡ some fd
      → CanFrame t.written
      → Holds box c t buffered [] rest dropped
      → (drain box (length t.reader.local_buffer) t).delivered ≡ t.written
  drained t {buffered = buffered} alive can h =
      ap (λ n. (drain box n t).delivered) (local-length t h)
      ∙ drain_lem buffered t alive can h
      ∙ ap (λ l. t.delivered ++ l) (sym (append-nil buffered))
      ∙ sym h.split

  module _ (fd fd' : ℕ) {s : Session} (run : Reach box (start c fd fd') s)
      (fits : Fits s.written) where
    reached : Inv box c s
    reached = Reach-Inv box law c fits run (start-Inv box c fd fd')

    -- In a run from a fresh start that has written fewer than 2^31 packets, plain and short
    -- enough for an int, over a secretbox as documented: through all writes, reads, lost bytes,
    -- closed sockets and recoveries, finished at one end or at both, the packets delivered are a
    -- first part of those written. Each arrives once, in order, and none is made up.
    pub delivered-prefix-written : (rest : List Packet) × (s.written ≡ s.delivered ++ rest)
    delivered-prefix-written = (reached.buffered ++ reached.pending, reached.holds.split)

    -- In such a run a read never throws or aborts, whatever part of the carried bytes it finds in
    -- the socket.
    pub read_safe :
        (bursts : List Recv) (beyond : List ℕ)
        → s.wire ≡ arrivals bursts ++ beyond
        → ((read box s.reader (record quiet { reads = bursts })).0 ≢ fatal)
          × ((e : Error) → (read box s.reader (record quiet { reads = bursts })).0 ≢ throws e)
    read_safe bursts beyond carries =
        AfterRead-safe s beyond _
          (read-AfterRead box law c s bursts beyond fits.frameable carries reached)

    -- In such a run, once an exchange has brought its messages and the reader has finished the
    -- recovery, it delivers all that was written before, with no further byte from the network.
    pub recover_then_drain :
        (finished : Finished) (fd₁ fd₂ : ℕ) (messages : List (List ℕ))
        → exchange s ≡ ok messages
        → finished ≢ writer_only
        → let t = after_recover finished fd₁ fd₂ messages s in
          (drain box (length t.reader.local_buffer) t).delivered ≡ s.written
    unfolding Reader.revive
    recover_then_drain finished fd₁ fd₂ messages e h =
        let i = reached in
        let same = exchange-eq-ok box c s i.holds (few_received box law c i fits.few) e in
        let can = fits.frameable in
        elim finished
            as (λ f.
              f ≢ writer_only
              → (drain box (length (after_recover f fd₁ fd₂ messages s).reader.local_buffer)
                  (after_recover f fd₁ fd₂ messages s)).delivered
                ≡ s.written) [
                  | both ↦ λ _.
                      drained (after_recover both fd₁ fd₂ messages s) refl can
                        (both-Holds box c s i.holds fd₁ fd₂ messages same)
                  | reader_only ↦ λ _.
                      drained (after_recover reader_only fd₁ fd₂ messages s) refl can
                        (reader_only-Holds box c s i.holds fd₁ fd₂ messages same)
                  | writer_only ↦ λ n. absurd (n refl)
                ]
          h

    -- In such a run, on a connection that holds, once the network and the local buffer are empty,
    -- everything written has been delivered.
    pub linked_complete :
        s.linked ≡ true → s.wire ≡ [] → s.reader.local_buffer ≡ [] → s.delivered ≡ s.written
    linked_complete up quiet_wire none_local =
        let i = reached in
        let h = i.holds in
        let no_buffered : i.buffered ≡ [] =
          length-eq-zero _
            (sym (local-length s h) ∙ ap (λ (l : List (List ℕ)). length l) none_local) in
        let no_pending : i.pending ≡ [] = length-eq-zero _ (
          sym (length-sealed box _ _ i.pending)
          ∙ no_frames _ s.reader.partial_message
              (sym (append-nil s.reader.partial_message)
                ∙ ap (λ l. s.reader.partial_message ++ l)
                    (sym (ap (λ l. l ++ i.rest) quiet_wire ∙ (h.live up).0))
                ∙ h.receiver.stream)
              h.receiver.partial) in
        sym (
          h.split
          ∙ ap (λ l. s.delivered ++ (l ++ i.pending)) no_buffered
          ∙ ap (λ l. s.delivered ++ l) no_pending
          ∙ append-nil s.delivered)

    -- In such a run, with the writer's socket closed, a recovery hands over as many messages as
    -- the reader lacks, if the backup has them.
    pub exchange_covers :
        s.writer.socket_fd ≡ none
        → length s.written ≤ s.reader.sequence_number + length s.writer.backup_buffer
        → (messages : List (List ℕ)) × (exchange s ≡ ok messages)
          × (s.reader.sequence_number + length messages ≡ length s.written)
    exchange_covers down enough =
        let i = reached in
        let few = few_received box law c i fits.few in
        let count : length s.written ≡ s.reader.sequence_number + length i.pending =
          sym i.holds.sender.counted ∙ count_split box c s i.holds in
        (
          map serialize (unread box s.reader i.buffered i.pending),
          exchange-unread box c s i.holds down few (omega arith),
          omega (
            arith,
            length-map serialize (unread box s.reader i.buffered i.pending),
            length-sealed box s.reader.crypto.key
                (advance (length i.buffered) s.reader.crypto.nonce) i.pending,
          ),
        )

    -- With the writer's socket closed, a recovery throws if the reader lacks a message that the
    -- backup has no more.
    pub exchange_refuses :
        s.writer.socket_fd ≡ none
        → s.reader.sequence_number + length s.writer.backup_buffer < length s.written
        → exchange s ≡ throws runtime_error
    exchange_refuses down short =
        let i = reached in
        let few = few_received box law c i fits.few in
        let count : length s.written ≡ s.reader.sequence_number + length i.pending =
          sym i.holds.sender.counted ∙ count_split box c s i.holds in
        exchange_short box c s i.holds down few (omega arith)
