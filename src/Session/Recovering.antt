-- ===== src/Session/Recovering.antt =====
-- What a recovery hands over, and that it keeps the invariant.
use eternal_terminal.Session.Inv.{Holds, unread, Inv, Receiver}
use eternal_terminal.Common.{
  ℕ, ◌+◌, ◌-◌, ◌^◌, ◌≤◌, ◌<◌, ◌≡◌, refl, sym, ap, ◌∙◌, none, some, List, [], ◌++◌, map, map-append,
  length, arith, append_assoc, append-nil, length-append, length-map, append_split, ok, throws,
  runtime_error, inl, inr, ltb, Bool-cases, ltb→lt, ltb_false→le, to_int32, pos, ◌%◌, Option-cases,
}
use eternal_terminal.Crypto.{Secretbox, CryptoHandler}
use eternal_terminal.Packet.{Packet, serialize}
use eternal_terminal.Packet.Sealed.{advance, advance_add, sealed, sealed-append, length-sealed}
use eternal_terminal.Writer.{Writer, recover, recover_messages, is_some}
use eternal_terminal.Writer
use eternal_terminal.Writer.Backup.{recover_messages-newest, recover_messages_short}
use eternal_terminal.Reader
use eternal_terminal.Session.Writing.{Sender-unsocketed}
use eternal_terminal.Session.{
  Session, Finished, both, writer_only, reader_only, after_recover, exchange,
}

small_int32 : (n : ℕ) → n < 2 ^ 31 → to_int32 n ≡ pos n
unfolding to_int32
small_int32 n h = let e : n % 2 ^ 32 ≡ n = omega arith in rw e (ground arith)

recover_pos :
    (w : Writer) (n m : ℕ)
    → w.socket_fd ≡ none
    → w.sequence_number ≡ n + m
    → recover w (pos n) ≡ recover_messages w m
unfolding recover
recover_pos w n m down e =
    let gap : w.sequence_number - n ≡ m = omega arith in
    ground (arith, ap (λ (k : ℕ). recover_messages w k) gap)

recover_connected :
    (w : Writer) (fd n : ℕ) → w.socket_fd ≡ some fd → recover w (pos n) ≡ throws runtime_error
unfolding recover
recover_connected w fd n up = ground arith

module _ (box : Secretbox) (c : CryptoHandler) (s : Session) {buffered pending : List Packet}
    {rest : List ℕ} {dropped : List Packet} (h : Holds box c s buffered pending rest dropped) where
  pub count_split : s.writer.sequence_number ≡ s.reader.sequence_number + length pending
  count_split = omega (
    arith,
    h.sender.counted,
    h.receiver.counted,
    ap (λ (l : List Packet). length l) h.split,
    length-append s.delivered (buffered ++ pending),
    length-append buffered pending,
  )

  -- The packets that have not arrived are the newest of those sealed.
  sealed_split :
      (front : List Packet) × (length front ≡ length s.delivered + length buffered)
      × (sealed box c.key c.nonce s.written ≡ front ++ unread box s.reader buffered pending)
  sealed_split =
      let seen = s.delivered ++ buffered in
      let count = length-append s.delivered buffered in
      let start : advance (length seen) c.nonce ≡ advance (length buffered) s.reader.crypto.nonce =
        ap (λ k. advance k c.nonce) count
        ∙ sym (advance_add (length s.delivered) (length buffered) c.nonce)
        ∙ ap (advance (length buffered)) (sym h.receiver.nonce) in
      (
        sealed box c.key c.nonce seen,
        length-sealed box c.key c.nonce seen ∙ count,
        ap (sealed box c.key c.nonce) (h.split ∙ sym (append_assoc s.delivered buffered pending))
            ∙ sealed-append box c.key c.nonce seen pending
            ∙ ap (λ l. sealed box c.key c.nonce seen ++ l)
                (ap (λ n. sealed box c.key n pending) start
                  ∙ ap (λ k. sealed box k (advance (length buffered) s.reader.crypto.nonce) pending)
                      (sym h.receiver.key)),
      )

  -- A backup that is long enough ends with the packets that have not arrived.
  backup_split :
      length pending ≤ length s.writer.backup_buffer
      → (older : List Packet) × (s.writer.backup_buffer
          ≡ older ++ unread box s.reader buffered pending)
  backup_split enough =
      let (front, size, e) = sealed_split in
      let back = unread box s.reader buffered pending in
      let (older, _, cut) =
        append_split dropped s.writer.backup_buffer front back (sym h.sender.kept ∙ e) (
          omega (
            arith,
            ap (λ (l : List Packet). length l) (sym h.sender.kept ∙ e),
            length-append dropped s.writer.backup_buffer,
            length-append front back,
            length-sealed box s.reader.crypto.key (advance (length buffered) s.reader.crypto.nonce)
                pending,
          )) in
      (older, cut)

  exchange-messages :
      s.writer.socket_fd ≡ none
      → s.reader.sequence_number < 2 ^ 31
      → exchange s ≡ recover_messages s.writer (length pending)
  exchange-messages down small =
      ap (recover s.writer) (small_int32 _ small)
      ∙ recover_pos s.writer s.reader.sequence_number (length pending) down count_split

  -- A writer that is cut off, and whose backup goes back far enough, hands over what the reader
  -- has not got.
  pub exchange-unread :
      s.writer.socket_fd ≡ none
      → s.reader.sequence_number < 2 ^ 31
      → length pending ≤ length s.writer.backup_buffer
      → exchange s ≡ ok (map serialize (unread box s.reader buffered pending))
  exchange-unread down small enough =
      let (older, cut) = backup_split enough in
      exchange-messages down small
      ∙ ap (recover_messages s.writer) (
          sym (
            length-sealed box s.reader.crypto.key (advance (length buffered) s.reader.crypto.nonce)
              pending))
      ∙ recover_messages-newest s.writer older _ cut

  pub exchange_short :
      s.writer.socket_fd ≡ none
      → s.reader.sequence_number < 2 ^ 31
      → length s.writer.backup_buffer < length pending
      → exchange s ≡ throws runtime_error
  exchange_short down small short =
      exchange-messages down small ∙ recover_messages_short s.writer (length pending) short

  pub exchange_connected :
      {fd : ℕ}
      → s.writer.socket_fd ≡ some fd
      → s.reader.sequence_number < 2 ^ 31
      → exchange s ≡ throws runtime_error
  exchange_connected {fd} up small =
      ap (recover s.writer) (small_int32 _ small) ∙ recover_connected s.writer fd _ up

  -- Whatever an exchange hands over is what the reader has not got.
  pub exchange-eq-ok :
      {messages : List (List ℕ)}
      → s.reader.sequence_number < 2 ^ 31
      → exchange s ≡ ok messages
      → messages ≡ map serialize (unread box s.reader buffered pending)
  exchange-eq-ok small e = elim (Option-cases s.writer.socket_fd) [
    | inr (fd, up) ↦ cc (exchange_connected up small)
    | inl down ↦ elim (Bool-cases (ltb (length s.writer.backup_buffer) (length pending))) [
      | inl short ↦ cc (exchange_short down small (ltb→lt _ _ short))
      | inr enough ↦ cc (exchange-unread down small (ltb_false→le _ _ enough))
    ]
  ]

  received :
      (fd : ℕ) (messages : List (List ℕ))
      → messages ≡ map serialize (unread box s.reader buffered pending)
      → Receiver box c
          (Reader.revive fd messages s.reader)
          []
          s.delivered
          (buffered ++ pending)
          []
          []
  unfolding Reader.revive
  received fd messages e = record {
    key = h.receiver.key;
    nonce = h.receiver.nonce;
    counted = omega (
      arith,
      h.receiver.counted,
      length-append buffered pending,
      ap (λ (l : List (List ℕ)). length l) e,
      length-map serialize (unread box s.reader buffered pending),
      length-sealed box s.reader.crypto.key (advance (length buffered) s.reader.crypto.nonce)
          pending,
    );
    local =
        rw (h.receiver.local, e)
          (sym (map-append serialize _ _)
            ∙ ap (map serialize) (
                sym
                  (sealed-append box s.reader.crypto.key s.reader.crypto.nonce buffered pending)));
    stream = refl;
    partial = refl;
  }

  -- Once the reader has finished, all that has not been delivered waits in its local buffer.
  pub both-Holds :
      (fd fd' : ℕ) (messages : List (List ℕ))
      → messages ≡ map serialize (unread box s.reader buffered pending)
      → Holds box c (after_recover both fd fd' messages s) (buffered ++ pending) [] [] dropped
  unfolding Writer.revive
  both-Holds fd fd' messages e = record {
    split = h.split ∙ ap (λ l. s.delivered ++ l) (sym (append-nil (buffered ++ pending)));
    sender = Sender-unsocketed (some fd) 0 h.sender;
    receiver = received fd' messages e;
    live = λ _. (refl, refl);
  }

  pub reader_only-Holds :
      (fd fd' : ℕ) (messages : List (List ℕ))
      → messages ≡ map serialize (unread box s.reader buffered pending)
      → Holds box c
          (after_recover reader_only fd fd' messages s)
          (buffered ++ pending)
          []
          []
          dropped
  reader_only-Holds fd fd' messages e = record {
    split = h.split ∙ ap (λ l. s.delivered ++ l) (sym (append-nil (buffered ++ pending)));
    sender = h.sender;
    receiver = received fd' messages e;
    live = λ up. cc;
  }

  -- A recovery that either end, or both, have finished keeps the invariant.
  pub after_recover-Inv :
      (finished : Finished) (fd fd' : ℕ) (messages : List (List ℕ))
      → messages ≡ map serialize (unread box s.reader buffered pending)
      → Inv box c (after_recover finished fd fd' messages s)
  unfolding Writer.revive
  after_recover-Inv both fd fd' messages e = record {
    buffered = buffered ++ pending;
    pending = [];
    rest = [];
    dropped = dropped;
    holds = both-Holds fd fd' messages e;
  }
  after_recover-Inv reader_only fd fd' messages e = record {
    buffered = buffered ++ pending;
    pending = [];
    rest = [];
    dropped = dropped;
    holds = reader_only-Holds fd fd' messages e;
  }
  after_recover-Inv writer_only fd fd' messages e = record {
    buffered = buffered;
    pending = pending;
    rest = rest;
    dropped = dropped;
    holds = record {
      split = h.split;
      sender = Sender-unsocketed (some fd) 0 h.sender;
      receiver = h.receiver;
      live = λ up. cc;
    };
  }
