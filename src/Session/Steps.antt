-- ===== src/Session/Steps.antt =====
-- Every step of a session keeps the invariant, so every run does.
use eternal_terminal.Net.{Net}
use eternal_terminal.Session.Inv.{Inv}
use eternal_terminal.Session.Receive.{CanFrame}
use eternal_terminal.Common.{
  ℕ, ◌^◌, ◌<◌, ◌≡◌, refl, sym, ap, ◌∙◌, true, false, none, List, [], ◌∷◌, ◌++◌, length, arith,
  append_assoc, append-nil, length-append, ok, ◌⊎◌, inl, inr, subst,
}
use eternal_terminal.Crypto.{Secretbox, IsSecretbox, CryptoHandler}
use eternal_terminal.Packet.{Packet, serialize}
use eternal_terminal.Packet
use eternal_terminal.Writer.{
  Writer, WriteState, skipped, success, wrote_with_failure, buffered_only, write, would_skip,
}
use eternal_terminal.Writer
use eternal_terminal.Writer.Branches.{write-Written}
use eternal_terminal.Reader.{Reader, ReadResult, read}
use eternal_terminal.Reader
use eternal_terminal.Session.Reading.{AfterRead, read-AfterRead}
use eternal_terminal.Session.Writing.{AfterWrite, after-Written, Sender-unsocketed}
use eternal_terminal.Session.Recovering.{exchange-eq-ok, after_recover-Inv}
use eternal_terminal.Session.{
  Session, Finished, both, writer_only, reader_only, after_write, after_read, after_recover, Step,
  writes, reads, loses, closes_writer, closes_reader, recovers, Reach, here, next,
}

CanFrame-prefix : (ps qs : List Packet) → CanFrame (ps ++ qs) → CanFrame ps
CanFrame-prefix [] qs h = tt
CanFrame-prefix (p ∷ ps) qs h = (h.0, h.1, CanFrame-prefix ps qs h.2)

-- A write that returned was of a plain packet, or was skipped.
write_plain :
    (box : Secretbox) (p : Packet) (w : Writer) (net : Net) {state : WriteState}
    {out : Writer × Net}
    → write box p w net ≡ (ok state, out)
    → (would_skip p w ≡ true) ⊎ (p.encrypted ≡ false)
unfolding write Packet.encrypt
write_plain box p w net e = ground arith

write_skips :
    (box : Secretbox) (p : Packet) (w : Writer) (net : Net)
    → would_skip p w ≡ true
    → write box p w net ≡ (ok skipped, (w, net))
unfolding write
write_skips box p w net e = ground arith

abbrev Extends : Session → Session → Type 0
Extends s t = (more : List Packet) × (t.written ≡ s.written ++ more)

unchanged : (s : Session) → Extends s s
unchanged s = ([], sym (append-nil s.written))

write-Extends :
    (s : Session) (state : WriteState) (p : Packet) (w : Writer) (sent : List ℕ)
    → Extends s (after_write state p w sent s)
write-Extends s skipped p w sent = unchanged s
write-Extends s success p w sent = (p ∷ [], refl)
write-Extends s wrote_with_failure p w sent = (p ∷ [], refl)
write-Extends s buffered_only p w sent = (p ∷ [], refl)

read-Extends :
    (s : Session) (result : ReadResult) (r : Reader) (wire : List ℕ)
    → Extends s (after_read result r wire s)
read-Extends s ReadResult.error r wire = unchanged s
read-Extends s ReadResult.nothing r wire = unchanged s
read-Extends s (ReadResult.message p) r wire = unchanged s

recover-Extends :
    (s : Session) (finished : Finished) (fd fd' : ℕ) (messages : List (List ℕ))
    → Extends s (after_recover finished fd fd' messages s)
recover-Extends s both fd fd' messages = unchanged s
recover-Extends s writer_only fd fd' messages = unchanged s
recover-Extends s reader_only fd fd' messages = unchanged s

module _ (box : Secretbox) where
  Step-Extends : {s t : Session} → Step box s t → Extends s t
  Step-Extends (writes s p room state w net e) = write-Extends s state p w net.wire
  Step-Extends (reads s bursts beyond result r net e h) = read-Extends s result r _
  Step-Extends (loses s kept lost e) = unchanged s
  Step-Extends (closes_writer s) = unchanged s
  Step-Extends (closes_reader s) = unchanged s
  Step-Extends (recovers s finished fd fd' messages e) = recover-Extends s finished fd fd' messages

-- What a session may write: packets that can be framed, and fewer than an int32 can count.
pub record Fits (written : List Packet) : Type 0 where
  pub frameable : CanFrame written
  pub few : length written < 2 ^ 31

Fits-prefix : (ps qs : List Packet) → Fits (ps ++ qs) → Fits ps
Fits-prefix ps qs h = record {
  frameable = CanFrame-prefix ps qs h.frameable;
  few = omega (arith, h.few, length-append ps qs);
}

module _ (box : Secretbox) (law : IsSecretbox box) (c : CryptoHandler) where
  pub few_received :
      {s : Session} → Inv box c s → length s.written < 2 ^ 31 → s.reader.sequence_number < 2 ^ 31
  few_received {s} i h = omega (
    arith,
    i.holds.receiver.counted,
    ap (λ (l : List Packet). length l) i.holds.split,
    length-append s.delivered (i.buffered ++ i.pending),
    length-append i.buffered i.pending,
  )

  loses-Inv :
      (s : Session) (kept lost : List ℕ)
      → s.wire ≡ kept ++ lost
      → Inv box c s
      → Inv box c (record s { wire = kept; linked = false })
  loses-Inv s kept lost e i = record {
    buffered = i.buffered;
    pending = i.pending;
    rest = lost ++ i.rest;
    dropped = i.dropped;
    holds = record {
      split = i.holds.split;
      sender = i.holds.sender;
      receiver = record {
        key = i.holds.receiver.key;
        nonce = i.holds.receiver.nonce;
        counted = i.holds.receiver.counted;
        local = i.holds.receiver.local;
        stream =
            ap (λ l. s.reader.partial_message ++ l)
              (sym (append_assoc kept lost i.rest) ∙ ap (λ l. l ++ i.rest) (sym e))
            ∙ i.holds.receiver.stream;
        partial = i.holds.receiver.partial;
      };
      live = λ up. cc;
    };
  }

  closes_writer-Inv :
      (s : Session)
      → Inv box c s
      → Inv box c (record s { writer = Writer.invalidate_socket s.writer; linked = false })
  unfolding Writer.invalidate_socket
  closes_writer-Inv s i = record {
    buffered = i.buffered;
    pending = i.pending;
    rest = i.rest;
    dropped = i.dropped;
    holds = record {
      split = i.holds.split;
      sender = Sender-unsocketed none s.writer.disconnected_bytes i.holds.sender;
      receiver = i.holds.receiver;
      live = λ up. cc;
    };
  }

  closes_reader-Inv :
      (s : Session)
      → Inv box c s
      → Inv box c (record s { reader = Reader.invalidate_socket s.reader })
  unfolding Reader.invalidate_socket
  closes_reader-Inv s i = record {
    buffered = i.buffered;
    pending = i.pending;
    rest = i.rest;
    dropped = i.dropped;
    holds = record {
      split = i.holds.split;
      sender = i.holds.sender;
      receiver = record {
        key = i.holds.receiver.key;
        nonce = i.holds.receiver.nonce;
        counted = i.holds.receiver.counted;
        local = i.holds.receiver.local;
        stream = i.holds.receiver.stream;
        partial = i.holds.receiver.partial;
      };
      live = i.holds.live;
    };
  }

  pub Step-Inv : {s t : Session} → Fits s.written → Step box s t → Inv box c s → Inv box c t
  Step-Inv fits (writes s p room state w net e) i = elim (write_plain box p s.writer _ e) [
    | inl full ↦ subst (AfterWrite box law c p s) (sym (write_skips box p s.writer _ full) ∙ e) i
    | inr plain ↦
        subst (AfterWrite box law c p s) e
          (after-Written box law c p s refl i (write-Written box law p s.writer _ plain))
  ]
  Step-Inv fits (reads s bursts beyond result r net carries e) i =
      subst (AfterRead box c s beyond) e
        (read-AfterRead box law c s bursts beyond fits.frameable carries i)
  Step-Inv fits (loses s kept lost e) i = loses-Inv s kept lost e i
  Step-Inv fits (closes_writer s) i = closes_writer-Inv s i
  Step-Inv fits (closes_reader s) i = closes_reader-Inv s i
  Step-Inv fits (recovers s finished fd fd' messages e) i =
      after_recover-Inv box c s i.holds finished fd fd' messages
        (exchange-eq-ok box c s i.holds (few_received i fits.few) e)

  pub Reach-Inv : {s t : Session} → Fits t.written → Reach box s t → Inv box c s → Inv box c t
  Reach-Inv fits here i = i
  Reach-Inv fits (next {t = t} r st) i =
      let (more, e) = Step-Extends box st in
      let before = Fits-prefix t.written more (subst Fits e fits) in
      Step-Inv before st (Reach-Inv before r i)
