-- ===== src/Session/Inv.antt =====
-- What holds between the two ends at every moment.
use eternal_terminal.Common.{List, ℕ, [], length, ◌≡◌, ◌+◌, ◌++◌, map, true, refl}
use eternal_terminal.Crypto.{Secretbox, CryptoHandler}
use eternal_terminal.Packet.{Packet, serialize}
use eternal_terminal.Packet.Sealed.{advance, frames, sealed}
use eternal_terminal.Writer.{is_some, writer, Writer}
use eternal_terminal.Writer.Branches.{IsSized}
use eternal_terminal.Reader.{reader, Reader}
use eternal_terminal.Session.Receive.{IsPartial}
use eternal_terminal.Session.{Session, start}

-- The packets that have not arrived, sealed under the nonces that follow the buffered ones.
abbrev pub unread : Secretbox → Reader → List Packet → List Packet → List Packet
unread box r buffered pending =
    sealed box r.crypto.key (advance (length buffered) r.crypto.nonce) pending

module _ (box : Secretbox) (c : CryptoHandler) where
  -- The writer has sealed `written` and has all of it in its backup but `dropped`.
  pub record Sender (w : Writer) (written dropped : List Packet) : Type 0 where
    pub key : w.crypto.key ≡ c.key
    pub nonce : w.crypto.nonce ≡ advance (length written) c.nonce
    pub counted : w.sequence_number ≡ length written
    pub sized : IsSized w
    pub kept : sealed box c.key c.nonce written ≡ dropped ++ w.backup_buffer

  -- After `delivered` the reader has `buffered` in its local buffer; `pending` has not arrived,
  -- and `rest` is the end of its frames that the network does not carry.
  pub record Receiver (r : Reader) (wire : List ℕ) (delivered buffered pending : List Packet)
      (rest : List ℕ) : Type 0 where
    pub key : r.crypto.key ≡ c.key
    pub nonce : r.crypto.nonce ≡ advance (length delivered) c.nonce
    pub counted : r.sequence_number ≡ length delivered + length buffered
    pub local : r.local_buffer ≡ map serialize (sealed box r.crypto.key r.crypto.nonce buffered)
    pub stream : r.partial_message ++ (wire ++ rest) ≡ frames (unread box r buffered pending)
    pub partial : IsPartial r.partial_message (unread box r buffered pending)

  pub record Holds (s : Session) (buffered pending : List Packet) (rest : List ℕ)
      (dropped : List Packet) : Type 0 where
    pub split : s.written ≡ s.delivered ++ (buffered ++ pending)
    pub sender : Sender s.writer s.written dropped
    pub receiver : Receiver s.reader s.wire s.delivered buffered pending rest
    pub live : s.linked ≡ true → (rest ≡ []) × (is_some s.writer.socket_fd ≡ true)

  pub record Inv (s : Session) : Type 0 where
    pub buffered : List Packet
    pub pending : List Packet
    pub rest : List ℕ
    pub dropped : List Packet
    pub holds : Holds s buffered pending rest dropped

  pub start-Inv : (fd fd' : ℕ) → Inv (start c fd fd')
  unfolding writer reader
  start-Inv fd fd' = record {
    buffered = [];
    pending = [];
    rest = [];
    dropped = [];
    holds = record {
      split = refl;
      sender = record { key = refl; nonce = refl; counted = refl; sized = refl; kept = refl };
      receiver = record {
        key = refl;
        nonce = refl;
        counted = refl;
        local = refl;
        stream = refl;
        partial = refl;
      };
      live = λ _. (refl, refl);
    };
  }
