-- ===== src/Session.antt =====
-- One direction of a session: the writer of one end (src/base/BackedWriter.cpp), the reader of
-- the other (src/base/BackedReader.cpp), and the network between them, driven as
-- src/base/Connection.cpp drives them.
mod Receive
mod Frames
pub mod Inv
pub mod Reading
pub mod Writing
pub mod Recovering
pub mod Steps
pub mod Delivery
use eternal_terminal.Common.{
  ℕ, ◌≡◌, Bool, true, false, List, [], ◌∷◌, ◌++◌, Outcome, ok, if◌then◌else◌, to_int32, Option,
  none, some,
}
use eternal_terminal.Net.{Net, Recv, Send, arrivals, quiet}
use eternal_terminal.Crypto.{Secretbox, CryptoHandler}
use eternal_terminal.Packet.{Packet}
use eternal_terminal.Writer.{
  Writer, WriteState, skipped, success, wrote_with_failure, buffered_only, write, recover, writer,
}
use eternal_terminal.Writer
use eternal_terminal.Reader.{Reader, ReadResult, error, nothing, message, read, reader}
use eternal_terminal.Reader

-- `wire` is what the network still carries to the reader's socket, and `linked` says that the
-- writer's socket is the other end of it. `written` and `delivered` are the packets that the
-- writing and the reading application have seen.
pub record Session : Type 0 where
  pub writer : Writer
  pub reader : Reader
  pub wire : List ℕ
  pub linked : Bool
  pub written : List Packet
  pub delivered : List Packet

-- Both ends as they are constructed, on the two ends of one socket.
abbrev pub start : CryptoHandler → ℕ → ℕ → Session
start crypto fd fd' = record {
  writer = writer crypto (some fd);
  reader = reader crypto (some fd');
  wire = [];
  linked = true;
  written = [];
  delivered = [];
}

abbrev carried : Session → List ℕ → List ℕ
carried s sent = if s.linked then s.wire ++ sent else s.wire

-- `Connection::write` after `writer->write`: a failure closes the socket.
abbrev pub after_write : WriteState → Packet → Writer → List ℕ → Session → Session
after_write skipped p w sent s = record s { writer = w }
after_write success p w sent s = record s {
  writer = w;
  wire = carried s sent;
  written = s.written ++ (p ∷ []);
}
after_write buffered_only p w sent s = record s {
  writer = w;
  wire = carried s sent;
  written = s.written ++ (p ∷ []);
}
after_write wrote_with_failure p w sent s = record s {
  writer = Writer.invalidate_socket w;
  wire = carried s sent;
  linked = false;
  written = s.written ++ (p ∷ []);
}

-- `Connection::read` after `reader->read`: an error closes the socket.
abbrev pub after_read : ReadResult → Reader → List ℕ → Session → Session
after_read error r wire s = record s { reader = Reader.invalidate_socket r; wire = wire }
after_read nothing r wire s = record s { reader = r; wire = wire }
after_read (message p) r wire s = record s {
  reader = r;
  wire = wire;
  delivered = s.delivered ++ (p ∷ []);
}

-- Which ends have finished `Connection::recover`: an exchange can fail at either end after the
-- other has finished.
pub data Finished : Type 0 where
  both writer_only reader_only : Finished

abbrev pub after_recover : Finished → ℕ → ℕ → List (List ℕ) → Session → Session
after_recover both fd fd' messages s = record s {
  writer = Writer.revive fd s.writer;
  reader = Reader.revive fd' messages s.reader;
  wire = [];
  linked = true;
}
after_recover writer_only fd fd' messages s = record s {
  writer = Writer.revive fd s.writer;
  linked = false;
}
after_recover reader_only fd fd' messages s = record s {
  reader = Reader.revive fd' messages s.reader;
  wire = [];
  linked = false;
}

-- The writer gets the reader's sequence number, which protobuf cuts to 32 bits.
abbrev pub exchange : Session → Outcome (List (List ℕ))
exchange s = recover s.writer (to_int32 s.reader.sequence_number)

module _ (box : Secretbox) where
  pub data Step : Session → Session → Type 0 where
    writes :
        (s : Session) (p : Packet) (room : List Send) (state : WriteState) (w : Writer) (net : Net)
        → write box p s.writer (record quiet { sends = room }) ≡ (ok state, (w, net))
        → Step s (after_write state p w net.wire s)
    -- What the read finds in the socket is a first part of what the network carries, in bursts.
    reads :
        (s : Session) (bursts : List Recv) (beyond : List ℕ) (result : ReadResult) (r : Reader)
        (net : Net)
        → s.wire ≡ arrivals bursts ++ beyond
        → read box s.reader (record quiet { reads = bursts }) ≡ (ok result, (r, net))
        → Step s (after_read result r (arrivals net.reads ++ beyond) s)
    -- The connection breaks: the last bytes are lost, and what is written from here on.
    loses :
        (s : Session) (kept lost : List ℕ)
        → s.wire ≡ kept ++ lost
        → Step s (record s { wire = kept; linked = false })
    closes_writer :
        (s : Session)
        → Step s (record s { writer = Writer.invalidate_socket s.writer; linked = false })
    closes_reader : (s : Session) → Step s (record s { reader = Reader.invalidate_socket s.reader })
    recovers :
        (s : Session) (finished : Finished) (fd fd' : ℕ) (messages : List (List ℕ))
        → exchange s ≡ ok messages
        → Step s (after_recover finished fd fd' messages s)

  pub data Reach (s : Session) : Session → Type 0 where
    here : Reach s s
    next : {t u : Session} → Reach s t → Step t u → Reach s u
