-- ===== src/Session/Writing.antt =====
-- A write keeps the invariant.
use eternal_terminal.Net.{Net}
use eternal_terminal.Packet.{Packet}
use eternal_terminal.Common.{
  ℕ, ◌+◌, ◌≡◌, refl, sym, ap, ◌∙◌, Bool, true, false, List, [], ◌∷◌, ◌++◌, length, arith,
  append_assoc, append-nil, length-append, Outcome, ok, waiting, throws, fatal, if◌then◌else◌,
  Option,
}
use eternal_terminal.Crypto.{Secretbox, IsSecretbox, CryptoHandler}
use eternal_terminal.Crypto.Nonce.{increment_nonce}
use eternal_terminal.Packet.Sealed.{
  advance, advance_add, frame, frames, frames-append, sealed-append, seal, length-frame,
  length-snoc, advance-snoc,
}
use eternal_terminal.Writer.{Writer, WriteState, write, would_skip, backup, is_some}
use eternal_terminal.Writer
use eternal_terminal.Writer.Branches.{
  backup-IsSized, backup-suffix, Written, skips, buffers, waits, sends, breaks, sealed_next, backed,
}
use eternal_terminal.Session.Receive.{IsPartial}
use eternal_terminal.Session.Inv.{Inv, Holds, Sender, Receiver, unread}
use eternal_terminal.Session.{Session, after_write, carried}

IsPartial-snoc :
    (partial : List ℕ) (cs : List Packet) (c : Packet)
    → IsPartial partial cs
    → IsPartial partial (cs ++ (c ∷ []))
IsPartial-snoc partial [] c h = rw h (omega (arith, length-frame c))
IsPartial-snoc partial (d ∷ cs) c h = h

frames-snoc : (cs : List Packet) (c : Packet) → frames (cs ++ (c ∷ [])) ≡ frames cs ++ frame c
frames-snoc cs c = frames-append cs (c ∷ []) ∙ ap (λ l. frames cs ++ l) (append-nil (frame c))

crypto-backup : (p : Packet) (w : Writer) → (backup p w).crypto ≡ w.crypto
unfolding backup
crypto-backup p w = refl

count-backup : (p : Packet) (w : Writer) → (backup p w).sequence_number ≡ w.sequence_number + 1
unfolding backup
count-backup p w = refl

socket-backup : (p : Packet) (w : Writer) → (backup p w).socket_fd ≡ w.socket_fd
unfolding backup
socket-backup p w = refl

same_seal :
    (box : Secretbox) (p : Packet) {k k' n n' : List ℕ}
    → k ≡ k'
    → n ≡ n'
    → seal box k n p ≡ seal box k' n' p
same_seal box p ek en = rw (ek, en)

-- What the network does not carry once `sent` of the new frame is on its way.
missing : Bool → List ℕ → List ℕ → List ℕ → List ℕ
missing true rest unsent whole = unsent
missing false rest unsent whole = rest ++ whole

stream-snoc :
    (linked : Bool) (partial wire rest sent unsent whole before : List ℕ)
    → (linked ≡ true → rest ≡ [])
    → whole ≡ sent ++ unsent
    → partial ++ (wire ++ rest) ≡ before
    → partial ++ ((if linked then wire ++ sent else wire) ++ missing linked rest unsent whole)
      ≡ before ++ whole
unfolding missing
stream-snoc true partial wire rest sent unsent whole before up cut e =
    rw (cut, ← e, up refl) (simp (append-nil, append_assoc))
stream-snoc false partial wire rest sent unsent whole before up cut e = rw (← e) (simp append_assoc)

missing_linked :
    (linked : Bool) (rest whole : List ℕ) → linked ≡ true → missing linked rest [] whole ≡ []
unfolding missing
missing_linked true rest whole e = refl
missing_linked false rest whole e = cc

module _ {box : Secretbox} {c : CryptoHandler} where
  -- The socket and the count of disconnected bytes are of no account to the sender.
  pub Sender-unsocketed :
      {w : Writer} {written dropped : List Packet} (fd : Option ℕ) (n : ℕ)
      → Sender box c w written dropped
      → Sender box c (record w { socket_fd = fd; disconnected_bytes = n }) written dropped
  Sender-unsocketed fd n h = record {
    key = h.key;
    nonce = h.nonce;
    counted = h.counted;
    sized = h.sized;
    kept = h.kept;
  }

module _ (box : Secretbox) (c : CryptoHandler) (p : Packet) where
  Sender-backed :
      (w : Writer) (written dropped : List Packet)
      → Sender box c w written dropped
      → (more : List Packet) × Sender box c (backed box p w) (written ++ (p ∷ [])) more
  Sender-backed w written dropped h =
      let w' = record w { crypto = record w.crypto { nonce = increment_nonce w.crypto.nonce } } in
      let q = sealed_next box p w in
      let (more, cut) = backup-suffix q w' h.sized in
      (
        dropped ++ more,
        record {
          key = ap (λ (x : CryptoHandler). x.key) (crypto-backup q w') ∙ h.key;
          nonce =
              ap (λ (x : CryptoHandler). x.nonce) (crypto-backup q w')
              ∙ ap increment_nonce h.nonce
              ∙ advance-snoc written p c.nonce;
          counted = omega (arith, count-backup q w', h.counted, length-snoc written p);
          sized = backup-IsSized q w' h.sized;
          kept =
              sealed-append box c.key c.nonce written (p ∷ [])
              ∙ ap (λ l. l ++ (seal box c.key (advance (length written) c.nonce) p ∷ [])) h.kept
              ∙ append_assoc dropped w.backup_buffer _
              ∙ ap (λ l. dropped ++ l)
                  (ap (λ x. w.backup_buffer ++ (x ∷ [])) (same_seal box p (sym h.key) (sym h.nonce))
                    ∙ cut)
              ∙ sym (append_assoc dropped more _);
        },
      )

  nonce-unread :
      (s : Session) {buffered pending : List Packet} {rest : List ℕ} {dropped : List Packet}
      → Holds box c s buffered pending rest dropped
      → advance (length pending) (advance (length buffered) s.reader.crypto.nonce)
        ≡ s.writer.crypto.nonce
  nonce-unread s {buffered = buffered} {pending = pending} h =
      let d = length s.delivered in
      let count : d + length buffered + length pending ≡ length s.written = omega (
        arith,
        ap (λ (l : List Packet). length l) h.split,
        length-append s.delivered (buffered ++ pending),
        length-append buffered pending,
      ) in
      ap (λ n. advance (length pending) (advance (length buffered) n)) h.receiver.nonce
      ∙ ap (advance (length pending)) (advance_add d (length buffered) c.nonce)
      ∙ advance_add (d + length buffered) (length pending) c.nonce
      ∙ ap (λ k. advance k c.nonce) count
      ∙ sym h.sender.nonce

  unread-snoc :
      (s : Session) {buffered pending : List Packet} {rest : List ℕ} {dropped : List Packet}
      → Holds box c s buffered pending rest dropped
      → unread box s.reader buffered (pending ++ (p ∷ []))
        ≡ unread box s.reader buffered pending ++ (sealed_next box p s.writer ∷ [])
  unread-snoc s {buffered = buffered} {pending = pending} h =
      sealed-append box s.reader.crypto.key (advance (length buffered) s.reader.crypto.nonce)
        pending (p ∷ [])
      ∙ ap (λ x. unread box s.reader buffered pending ++ (x ∷ []))
          (same_seal box p (h.receiver.key ∙ sym h.sender.key) (nonce-unread s h))

  receiver-snoc :
      (s : Session) {buffered pending : List Packet} {rest : List ℕ} {dropped : List Packet}
      (sent unsent : List ℕ)
      → Holds box c s buffered pending rest dropped
      → frame (sealed_next box p s.writer) ≡ sent ++ unsent
      → Receiver box c s.reader
          (carried s sent)
          s.delivered
          buffered
          (pending ++ (p ∷ []))
          (missing s.linked rest unsent (frame (sealed_next box p s.writer)))
  receiver-snoc s {buffered = buffered} {pending = pending} {rest = rest} sent unsent h cut =
      record {
        key = h.receiver.key;
        nonce = h.receiver.nonce;
        counted = h.receiver.counted;
        local = h.receiver.local;
        stream =
            stream-snoc s.linked s.reader.partial_message s.wire rest sent unsent _ _
              (λ e. (h.live e).0) cut h.receiver.stream
            ∙ sym (frames-snoc (unread box s.reader buffered pending) (sealed_next box p s.writer))
            ∙ ap frames (sym (unread-snoc s h));
        partial = rw (unread-snoc s h) (IsPartial-snoc _ _ _ h.receiver.partial);
      }

module _ (box : Secretbox) (law : IsSecretbox box) (c : CryptoHandler) (p : Packet)
    (s : Session) where
  -- The invariant after a write that returned; a write may wait, and neither throws nor aborts.
  abbrev pub AfterWrite : Outcome WriteState × (Writer × Net) → Type 0
  AfterWrite (ok state, (w, net)) = Inv box c (after_write state p w net.wire s)
  AfterWrite (waiting, _) = Unit {0}
  AfterWrite (throws e, _) = ⊥
  AfterWrite (fatal, _) = ⊥

  written-Inv :
      {buffered pending : List Packet} {rest : List ℕ} {dropped : List Packet} (w : Writer)
      (linked : Bool) (sent unsent : List ℕ)
      → Holds box c s buffered pending rest dropped
      → frame (sealed_next box p s.writer) ≡ sent ++ unsent
      → ((more : List Packet) × Sender box c w (s.written ++ (p ∷ [])) more)
      → (linked ≡ true
          → (missing s.linked rest unsent (frame (sealed_next box p s.writer)) ≡ [])
            × (is_some w.socket_fd ≡ true))
      → Inv box c (record s {
        writer = w;
        wire = carried s sent;
        linked = linked;
        written = s.written ++ (p ∷ []);
      })
  written-Inv {buffered = buffered} {pending = pending} {rest = rest} w linked sent unsent h cut
        (more, sender) live =
      record {
        buffered = buffered;
        pending = pending ++ (p ∷ []);
        rest = missing s.linked rest unsent (frame (sealed_next box p s.writer));
        dropped = more;
        holds = record {
          split =
              ap (λ l. l ++ (p ∷ [])) h.split
              ∙ append_assoc s.delivered (buffered ++ pending) (p ∷ [])
              ∙ ap (λ l. s.delivered ++ l) (append_assoc buffered pending (p ∷ []));
          sender = sender;
          receiver = receiver-snoc box c p s sent unsent h cut;
          live = live;
        };
      }

  pub after-Written :
      {net : Net} {out : Outcome WriteState × (Writer × Net)}
      → net.wire ≡ []
      → Inv box c s
      → Written box law p s.writer net out
      → AfterWrite out
  unfolding Writer.invalidate_socket
  after-Written clean i (skips e) = i
  after-Written clean i (waits net up) = tt
  after-Written {net = net} clean i (buffers down e) =
      let (more, sender) = Sender-backed box c p s.writer s.written i.dropped i.holds.sender in
      written-Inv _ s.linked net.wire (frame (sealed_next box p s.writer)) i.holds
        (sym (ap (λ l. l ++ frame (sealed_next box p s.writer)) clean))
        (more, Sender-unsocketed _ _ sender) (λ e. let up = (i.holds.live e).1 in cc)
  after-Written clean i (sends net' up e) =
      let q = sealed_next box p s.writer in
      written-Inv (backed box p s.writer) s.linked net'.wire [] i.holds
        (sym (append-nil net'.wire ∙ e ∙ ap (λ l. l ++ frame q) clean))
        (Sender-backed box c p s.writer s.written i.dropped i.holds.sender)
        (λ e. (missing_linked s.linked i.rest (frame q) e, ap is_some (socket-backup q _) ∙ up))
  after-Written clean i (breaks sent unsent net' up cut e) =
      let (more, sender) = Sender-backed box c p s.writer s.written i.dropped i.holds.sender in
      written-Inv _ false net'.wire unsent i.holds
        (cut ∙ ap (λ l. l ++ unsent) (sym (e ∙ ap (λ l. l ++ sent) clean)))
        (more, Sender-unsocketed _ _ sender) (λ e. cc)
