-- ===== src/Connection.antt =====
-- src/base/Connection.cpp: a reader and a writer on one socket, which can be closed and replaced.
-- `connectionMutex` is held over each operation, so an operation is one step here; `writePacket`
-- alone takes it anew for each of its parts.
pub mod Coherent
pub mod Recovery
pub mod Waiting
use eternal_terminal.Common.{
  ℕ, Bool, true, false, not, ◌&&◌, ◌||◌, Option, none, some, List, [], ◌∷◌, Outcome, ok, throws,
  fatal, waiting, Error, runtime_error, continue, ◌==◌, if◌then◌else◌, ℤ, to_int32, one_of,
}
use eternal_terminal.Net.{Net, close}
use eternal_terminal.Crypto.{Secretbox}
use eternal_terminal.Packet.{Packet}
use eternal_terminal.Reader.{Reader, ReadResult, error, nothing, message, read}
use eternal_terminal.Reader
use eternal_terminal.Writer.{
  Writer, WriteState, skipped, success, wrote_with_failure, buffered_only, write, is_some,
}
use eternal_terminal.Writer

-- The class of the object, which decides what follows a lost socket.
pub data Role : Type 0 where
  client server : Role

-- `reader` and `writer` are none before the first connection of a client. `reconnecting` says
-- that a client has started its reconnect thread.
pub record Connection : Type 0 where
  pub role : Role
  pub reader : Option Reader
  pub writer : Option Writer
  pub socket_fd : Option ℕ
  pub shutting_down : Bool
  pub reconnecting : Bool

-- Numbers of errno on Linux.
abbrev pub eagain : ℕ
eagain = 11

skippable_errors : List ℕ
skippable_errors = eagain ∷ 104 ∷ 110 ∷ 113 ∷ 32 ∷ 107 ∷ 103 ∷ 100 ∷ 101 ∷ 102 ∷ 112 ∷ 91 ∷ 9 ∷ []

unfoldable pub is_skippable_error : ℕ → Bool
unfolding skippable_errors
is_skippable_error e = one_of e skippable_errors

abbrev pub on_reader : (Reader → Reader) → Option Reader → Option Reader
on_reader f none = none
on_reader f (some r) = some (f r)

abbrev pub on_writer : (Writer → Writer) → Option Writer → Option Writer
on_writer f none = none
on_writer f (some w) = some (f w)

unfoldable pub close_socket : Connection → Net → Connection × Net
close_socket c net = elim c.socket_fd [
  | none ↦ (c, net)
  | some fd ↦ (
    record c {
      reader = on_reader Reader.invalidate_socket c.reader;
      writer = on_writer Writer.invalidate_socket c.writer;
      socket_fd = none;
    },
    close fd net,
  )
]

-- `ClientConnection` waits for the reconnect thread that runs, and starts another one.
unfoldable pub close_socket_and_maybe_reconnect : Connection → Net → Connection × Net
close_socket_and_maybe_reconnect c net = elim c.role [
  | server ↦ close_socket c net
  | client ↦
      let (c', net') = close_socket (record c { reconnecting = false }) net in
      (record c' { reconnecting = not c.shutting_down }, net')
]

unfoldable pub shutdown : Connection → Net → Connection × Net
shutdown c net = close_socket (record c { shutting_down = true }) net

abbrev pub Call : Type 0 → Type 0
Call A = Outcome A × (Connection × Net)

-- A packet, or `false`.
unfoldable pub after_reader : ReadResult → Connection → Net → Call (Option Packet)
after_reader error c net =
    if is_skippable_error net.errno
    then (ok none, close_socket_and_maybe_reconnect c net)
    else (ok none, close_socket_and_maybe_reconnect c net)
after_reader nothing c net = (ok none, (c, net))
after_reader (message p) c net = (ok (some p), (c, net))

unfoldable pub after_writer : WriteState → Connection → Net → Call Bool
after_writer skipped c net = (ok false, (c, net))
after_writer buffered_only c net = (ok true, (c, net))
after_writer success c net = (ok true, (c, net))
after_writer wrote_with_failure c net =
    if not (is_some c.socket_fd)
    then (ok true, (c, net))
    else if is_skippable_error net.errno
    then (ok true, close_socket_and_maybe_reconnect c net)
    else (ok true, close_socket_and_maybe_reconnect c net)

-- A round of `writePacket`: what it tests and what it writes on.
pub record WriteRound (A : Type 0) : Type 0 where
  pub tested : A
  pub written : A

module _ (box : Secretbox) where
  -- By whether the pointer to the reader is set.
  unfoldable pub read_at : Option Reader → Connection → Net → Call (Option Packet)
  read_at none c net = (ok none, (c, net))
  read_at (some r) c net =
      let (result, out) = read box r net in
      let c' = record c { reader = some out.0 } in
      continue result (c', out.1) λ got. after_reader got c' out.1

  unfoldable pub connection_read : Connection → Net → Call (Option Packet)
  connection_read c net = read_at c.reader c net

  unfoldable pub read_packet : Connection → Net → Call (Option Packet)
  read_packet c net = if c.shutting_down then (ok none, (c, net)) else connection_read c net

  unfoldable pub write_at : Packet → Option Writer → Connection → Net → Call Bool
  write_at p none c net = (ok false, (c, net))
  write_at p (some w) c net =
      let (result, out) = write box p w net in
      let c' = record c { writer = some out.0 } in
      continue result (c', out.1) λ state. after_writer state c' out.1

  unfoldable pub connection_write : Packet → Connection → Net → Call Bool
  connection_write p c net = write_at p c.writer c net

  -- The loop of `writePacket`, by the connection that each round finds when it tests shuttingDown
  -- and when it writes: the mutex is free between the two and between the rounds, and other threads
  -- change the connection there. True says that the packet was taken.
  unfoldable pub write_packet :
      Packet → List (WriteRound (Connection × Net)) → Connection × Net → Call Bool
  write_packet p [] last = (waiting, last)
  write_packet p (r ∷ rounds) last =
      let out = connection_write p r.written.0 r.written.1 in
      let rest = write_packet p rounds out.1 in
      if r.tested.0.shutting_down
      then (ok false, r.tested)
      else continue out.0 out.1 λ taken. if taken then (ok true, out.1) else rest

-- What the four transfers of `recover` bring: whether each write returned, and what each read
-- brought; none and false stand for a runtime_error.
pub record Exchange : Type 0 where
  pub sends_header : Bool
  pub remote_header : Option ℤ
  pub sends_catchup : Bool
  pub remote_catchup : Option (List (List ℕ))

-- The number that goes out, as protobuf's int32.
unfoldable pub sequence_header : Reader → ℤ
sequence_header r = to_int32 r.sequence_number

unfoldable pub recover_failed : ℕ → Connection → Net → Call Bool
recover_failed fd c net = (ok false, (c, close fd net))

unfoldable pub finish_recover :
    ℕ → Option (List (List ℕ)) → Reader → Writer → Connection → Net → Call Bool
finish_recover fd none r w c net = recover_failed fd c net
finish_recover fd (some entries) r w c net = (
  ok true,
  (
    record c {
      socket_fd = some fd;
      reader = some (Reader.revive fd entries r);
      writer = some (Writer.revive fd w);
    },
    net,
  ),
)

-- The handler catches runtime_error alone.
unfoldable pub send_catchup :
    ℕ → Exchange → Outcome (List (List ℕ)) → Reader → Writer → Connection → Net → Call Bool
send_catchup fd x (ok messages) r w c net =
    if x.sends_catchup
    then finish_recover fd x.remote_catchup r w c net
    else recover_failed fd c net
send_catchup fd x (throws runtime_error) r w c net = recover_failed fd c net
send_catchup fd x (throws e) r w c net = (throws e, (c, net))
send_catchup fd x fatal r w c net = (fatal, (c, net))
send_catchup fd x waiting r w c net = (waiting, (c, net))

unfoldable pub exchange_headers : ℕ → Exchange → Reader → Writer → Connection → Net → Call Bool
exchange_headers fd x r w c net =
    if x.sends_header
    then elim x.remote_header [
      | none ↦ recover_failed fd c net
      | some n ↦ send_catchup fd x (Writer.recover w n) r w c net
    ]
    else recover_failed fd c net

-- `reader` and `writer` are dereferenced without a test.
unfoldable pub recover_at :
    ℕ → Exchange → Option Reader → Option Writer → Connection → Net → Call Bool
recover_at fd x (some r) (some w) c net = exchange_headers fd x r w c net
recover_at fd x _ _ c net = (fatal, (c, net))

unfoldable pub connection_recover : ℕ → Exchange → Connection → Net → Call Bool
connection_recover fd x c net = recover_at fd x c.reader c.writer c net

-- Whether a write of so many bytes returns at once.
unfoldable pub can_buffer_write : ℕ → Connection → Bool
can_buffer_write n c =
    if c.shutting_down
    then true
    else elim c.writer [ none ↦ false | some w ↦ Writer.has_buffer_capacity n w ]
