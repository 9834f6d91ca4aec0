-- ===== src/Session/Reading.antt =====
-- A read keeps the invariant, and cannot go wrong.
use eternal_terminal.Common.{
  ℕ, ◌≡◌, refl, sym, ap, ◌∙◌, Option, none, some, List, [], ◌∷◌, ◌++◌, map, arith, append_assoc,
  Outcome, ok, waiting, inl, inr, throws, fatal, subst, Option-cases,
}
use eternal_terminal.Net.{Net, Recv, arrivals, quiet}
use eternal_terminal.Crypto.{Secretbox, IsSecretbox, CryptoHandler}
use eternal_terminal.Crypto.Nonce.{increment_nonce}
use eternal_terminal.Packet.{Packet, serialize}
use eternal_terminal.Packet.Sealed.{frames, sealed, length-frame, length-snoc, advance-snoc}
use eternal_terminal.Reader.{
  Reader, ReadResult, error, nothing, message, read, read_socket, read_local,
}
use eternal_terminal.Reader
use eternal_terminal.Session.Receive.{
  IsPartial, CanFrame, Progress, fails, goes_on, delivers, waits,
}
use eternal_terminal.Session.Frames.{read_socket-Progress, read_local-seal}
use eternal_terminal.Session.Inv.{Inv, Holds, unread}
use eternal_terminal.Session.{Session, after_read}

-- A suffix of packets that can be framed can be framed.
pub CanFrame-suffix : (ps qs : List Packet) → CanFrame (ps ++ qs) → CanFrame qs
CanFrame-suffix [] qs h = h
CanFrame-suffix (p ∷ ps) qs h = CanFrame-suffix ps qs h.2

IsPartial-nil : (ps : List Packet) → IsPartial [] ps
IsPartial-nil [] = refl
IsPartial-nil (p ∷ ps) = omega (arith, length-frame p)

module _ (box : Secretbox) (c : CryptoHandler) (s : Session) (beyond : List ℕ) where
  -- The invariant after a read that returned; a read may wait, and neither throws nor aborts.
  abbrev pub AfterRead : Outcome ReadResult × (Reader × Net) → Type 0
  AfterRead (ok result, (r, net)) = Inv box c (after_read result r (arrivals net.reads ++ beyond) s)
  AfterRead (waiting, _) = Unit {0}
  AfterRead (throws e, _) = ⊥
  AfterRead (fatal, _) = ⊥

module _ (box : Secretbox) (law : IsSecretbox box) (c : CryptoHandler) where
  -- The reader has taken more bytes of a frame.
  resume :
      {s : Session} {pending : List Packet} {rest : List ℕ} {dropped : List Packet} (fd : Option ℕ)
      (partial wire : List ℕ)
      → Holds box c s [] pending rest dropped
      → (partial ++ (wire ++ rest) ≡ frames (unread box s.reader [] pending))
      → IsPartial partial (unread box s.reader [] pending)
      → Inv box c (record s {
        reader = record s.reader { socket_fd = fd; partial_message = partial };
        wire = wire;
      })
  resume {pending = pending} {rest = rest} {dropped = dropped} fd partial wire h stream short =
      record {
        buffered = [];
        pending = pending;
        rest = rest;
        dropped = dropped;
        holds = record {
          split = h.split;
          sender = h.sender;
          receiver = record {
            key = h.receiver.key;
            nonce = h.receiver.nonce;
            counted = h.receiver.counted;
            local = h.receiver.local;
            stream = stream;
            partial = short;
          };
          live = h.live;
        };
      }

  module _ (s : Session) {pending : List Packet} {rest : List ℕ} {dropped : List Packet}
      (beyond : List ℕ) where
    -- The read went to the socket: nothing was buffered.
    after-Progress :
        {out : Outcome ReadResult × (Reader × Net)}
        → Holds box c s [] pending rest dropped
        → Progress box law s.reader (beyond ++ rest) pending out
        → AfterRead box c s beyond out
    unfolding Reader.invalidate_socket
    after-Progress h (waits r net) = tt
    after-Progress h (fails partial net stream) =
        resume none partial (arrivals net.reads ++ beyond) h (rw append_assoc stream.0) stream.1
    after-Progress h (goes_on partial net stream) =
        resume s.reader.socket_fd partial (arrivals net.reads ++ beyond) h
          (rw append_assoc stream.0) stream.1
    after-Progress h (delivers p ps net e stream) = record {
      buffered = [];
      pending = ps;
      rest = rest;
      dropped = dropped;
      holds = record {
        split = h.split ∙ ap (λ l. s.delivered ++ l) e ∙ sym (append_assoc s.delivered (p ∷ []) ps);
        sender = h.sender;
        receiver = record {
          key = h.receiver.key;
          nonce = ap increment_nonce h.receiver.nonce ∙ advance-snoc s.delivered p c.nonce;
          counted = omega (arith, h.receiver.counted, length-snoc s.delivered p);
          local = h.receiver.local;
          stream = append_assoc (arrivals net.reads) beyond rest ∙ stream;
          partial = IsPartial-nil _;
        };
        live = h.live;
      };
    }

  -- The reader once it has taken the first packet of the local buffer, `buffered` after it.
  abbrev pub taken : Reader → List Packet → Reader
  taken r buffered =
      let nonce = increment_nonce r.crypto.nonce in
      record r {
        crypto = record r.crypto { nonce = nonce };
        local_buffer = map serialize (sealed box r.crypto.key nonce buffered);
      }

  pub after-local :
      (s : Session) (p : Packet) (buffered : List Packet) {pending : List Packet} {rest : List ℕ}
      {dropped : List Packet} (wire : List ℕ)
      → s.wire ≡ wire
      → Holds box c s (p ∷ buffered) pending rest dropped
      → Holds box c
          (after_read (message p) (taken s.reader buffered) wire s)
          buffered
          pending
          rest
          dropped
  after-local s p buffered {pending = pending} wire same h = record {
    split = h.split ∙ sym (append_assoc s.delivered (p ∷ []) (buffered ++ pending));
    sender = h.sender;
    receiver = record {
      key = h.receiver.key;
      nonce = ap increment_nonce h.receiver.nonce ∙ advance-snoc s.delivered p c.nonce;
      counted = omega (arith, h.receiver.counted, length-snoc s.delivered p);
      local = refl;
      stream = rw (← same) h.receiver.stream;
      partial = h.receiver.partial;
    };
    live = h.live;
  }

  idle :
      {s : Session} (wire : List ℕ)
      → s.wire ≡ wire
      → Inv box c s
      → Inv box c (record s { wire = wire })
  idle {s} wire same i = subst (λ w. Inv box c (record s { wire = w })) same i

  module _ (s : Session) (bursts : List Recv) (beyond : List ℕ) where
    abbrev finds : Net
    finds = record quiet { reads = bursts }

    read-dead :
        s.reader.socket_fd ≡ none → read box s.reader finds ≡ (ok nothing, (s.reader, finds))
    unfolding read
    read-dead e = ground arith

    read-empty :
        {fd : ℕ}
        → s.reader.socket_fd ≡ some fd
        → s.reader.local_buffer ≡ []
        → read box s.reader finds ≡ read_socket box s.reader finds
    unfolding read
    read-empty e l = ground arith

    read-buffered :
        {fd : ℕ} {front : List ℕ} {rest : List (List ℕ)}
        → s.reader.socket_fd ≡ some fd
        → s.reader.local_buffer ≡ front ∷ rest
        → read box s.reader finds ≡ read_local box front rest s.reader finds
    unfolding read
    read-buffered e l = ground arith

    pub read_front :
        {fd : ℕ} (p : Packet) (buffered : List Packet) {pending : List Packet} {rest : List ℕ}
        {dropped : List Packet}
        → s.reader.socket_fd ≡ some fd
        → CanFrame s.written
        → Holds box c s (p ∷ buffered) pending rest dropped
        → read box s.reader finds ≡ (ok (message p), (taken s.reader buffered, finds))
    read_front p buffered {pending = pending} alive can h =
        read-buffered alive h.receiver.local
        ∙ read_local-seal box law s.reader finds p _
            (CanFrame-suffix s.delivered (p ∷ (buffered ++ pending)) (subst CanFrame h.split can)).0

    read_alive :
        {fd : ℕ} (buffered : List Packet) {pending : List Packet} {rest : List ℕ}
        {dropped : List Packet}
        → s.reader.socket_fd ≡ some fd
        → CanFrame s.written
        → s.wire ≡ arrivals bursts ++ beyond
        → Holds box c s buffered pending rest dropped
        → AfterRead box c s beyond (read box s.reader finds)
    read_alive [] {pending = pending} {rest = rest} alive can carries h =
        rw (read-empty alive h.receiver.local) (
          after-Progress s beyond h (
            read_socket-Progress box law s.reader finds (beyond ++ rest) pending
              (CanFrame-suffix s.delivered pending (subst CanFrame h.split can))
              (
                rw (← append_assoc (arrivals bursts)) (rw (← carries) h.receiver.stream),
                h.receiver.partial,
              )))
    read_alive (p ∷ buffered) {pending = pending} {rest = rest} {dropped = dropped} alive can
          carries h =
        rw (read_front p buffered alive can h) (record {
          buffered = buffered;
          pending = pending;
          rest = rest;
          dropped = dropped;
          holds = after-local s p buffered (arrivals bursts ++ beyond) carries h;
        })

    -- A read keeps the invariant, on every branch, and neither throws nor aborts.
    pub read-AfterRead :
        CanFrame s.written
        → s.wire ≡ arrivals bursts ++ beyond
        → Inv box c s
        → AfterRead box c s beyond (read box s.reader finds)
    read-AfterRead can carries i = elim (Option-cases s.reader.socket_fd) [
      | inl dead ↦ rw (read-dead dead) (idle (arrivals bursts ++ beyond) carries i)
      | inr (fd, alive) ↦ read_alive i.buffered alive can carries i.holds
    ]
