-- ===== src/Connection/Coherent.antt =====
-- The reader and the writer of a connection are always on the connection's socket. A connect that
-- fails leaves a socket number without them.
use eternal_terminal.Writer.Branches.{socket-write}
use eternal_terminal.Reader.Socket.{socket-read}
use eternal_terminal.Common.{
  ℕ, ◌≡◌, refl, sym, subst, List, ◌∙◌, Bool, true, false, Option, none, some, arith, Outcome, ok,
  throws, fatal, waiting, if◌then◌else◌, continue,
}
use eternal_terminal.Net.{Net}
use eternal_terminal.Crypto.{Secretbox}
use eternal_terminal.Packet.{Packet}
use eternal_terminal.Reader.{Reader, ReadResult, error, nothing, message, read}
use eternal_terminal.Reader
use eternal_terminal.Writer.{
  Writer, WriteState, write, skipped, success, wrote_with_failure, buffered_only,
}
use eternal_terminal.Writer
use eternal_terminal.Reader.{reader}
use eternal_terminal.Writer.{writer}
use eternal_terminal.Crypto.{crypto_handler}
use eternal_terminal.Server.{client_server_nonce_msb, server_client_nonce_msb}
use eternal_terminal.Client.{
  Status, new_client, returning_client, invalid_key, mismatched_protocol, Attempt, establish,
  greeted, connect_failed, connect_on, connect,
}
use eternal_terminal.Connection.{
  Connection, close_socket, close_socket_and_maybe_reconnect, shutdown, after_reader,
  connection_read, read_packet, after_writer, connection_write, Exchange, connection_recover,
  finish_recover, send_catchup, recover_failed, read_at, write_at, recover_at, exchange_headers,
}

abbrev ReaderOn : Option ℕ → Option Reader → Type 0
ReaderOn fd none = Unit
ReaderOn fd (some r) = r.socket_fd ≡ fd

abbrev WriterOn : Option ℕ → Option Writer → Type 0
WriterOn fd none = Unit
WriterOn fd (some w) = w.socket_fd ≡ fd

pub record IsCoherent (c : Connection) : Type 0 where
  pub reads : ReaderOn c.socket_fd c.reader
  pub writes : WriterOn c.socket_fd c.writer

-- After a close there is no socket.
close_socket-IsCoherent :
    (c : Connection) (net : Net) → IsCoherent c → IsCoherent (close_socket c net).0
unfolding close_socket Reader.invalidate_socket Writer.invalidate_socket
close_socket-IsCoherent c net h = ground arith

maybe_reconnect-IsCoherent :
    (c : Connection) (net : Net)
    → IsCoherent c
    → IsCoherent (close_socket_and_maybe_reconnect c net).0
unfolding close_socket_and_maybe_reconnect close_socket Reader.invalidate_socket
    Writer.invalidate_socket
maybe_reconnect-IsCoherent c net h = ground arith

pub shutdown-IsCoherent :
    (c : Connection) (net : Net) → IsCoherent c → IsCoherent (shutdown c net).0
unfolding shutdown
shutdown-IsCoherent c net h =
    close_socket-IsCoherent (record c { shutting_down = true }) net
      (record { reads = h.reads; writes = h.writes })

after_reader-IsCoherent :
    (result : ReadResult) (c : Connection) (net : Net)
    → IsCoherent c
    → IsCoherent (after_reader result c net).1.0
unfolding after_reader
after_reader-IsCoherent error c net h = ground (arith, maybe_reconnect-IsCoherent c net h)
after_reader-IsCoherent nothing c net h = h
after_reader-IsCoherent (message p) c net h = h

after_writer-IsCoherent :
    (state : WriteState) (c : Connection) (net : Net)
    → IsCoherent c
    → IsCoherent (after_writer state c net).1.0
unfolding after_writer
after_writer-IsCoherent wrote_with_failure c net h =
    ground (arith, maybe_reconnect-IsCoherent c net h)
after_writer-IsCoherent skipped c net h = h
after_writer-IsCoherent success c net h = h
after_writer-IsCoherent buffered_only c net h = h

-- What follows a read or a write of the member that the connection holds.
continue-IsCoherent :
    {A B : Type 0} (out : Outcome A) (c : Connection) (net : Net)
    (f : A → Outcome B × (Connection × Net))
    → IsCoherent c
    → ((a : A) → IsCoherent (f a).1.0)
    → IsCoherent (continue out (c, net) f).1.0
continue-IsCoherent (ok a) c net f h k = k a
continue-IsCoherent (throws e) c net f h k = h
continue-IsCoherent fatal c net f h k = h
continue-IsCoherent waiting c net f h k = h

module _ (box : Secretbox) where
  read_at-IsCoherent :
      (reader : Option Reader) (c : Connection) (net : Net)
      → ReaderOn c.socket_fd reader
      → IsCoherent c
      → IsCoherent (read_at box reader c net).1.0
  unfolding read_at
  read_at-IsCoherent none c net e h = h
  read_at-IsCoherent (some r) c net e h =
      let c' = record c { reader = some (read box r net).1.0 } in
      let h' : IsCoherent c' = record { reads = socket-read box r net ∙ e; writes = h.writes } in
      continue-IsCoherent (read box r net).0 c' (read box r net).1.1
        (λ got. after_reader got c' (read box r net).1.1) h'
        (λ got. after_reader-IsCoherent got c' (read box r net).1.1 h')

  write_at-IsCoherent :
      (p : Packet) (writer : Option Writer) (c : Connection) (net : Net)
      → WriterOn c.socket_fd writer
      → IsCoherent c
      → IsCoherent (write_at box p writer c net).1.0
  unfolding write_at
  write_at-IsCoherent p none c net e h = h
  write_at-IsCoherent p (some w) c net e h =
      let c' = record c { writer = some (write box p w net).1.0 } in
      let h' : IsCoherent c' = record { reads = h.reads; writes = socket-write box p w net ∙ e } in
      continue-IsCoherent (write box p w net).0 c' (write box p w net).1.1
        (λ state. after_writer state c' (write box p w net).1.1) h'
        (λ state. after_writer-IsCoherent state c' (write box p w net).1.1 h')

  unless_down-IsCoherent :
      (down : Bool) (c : Connection) (net : Net)
      → IsCoherent c
      → IsCoherent (if down then (ok none, (c, net)) else connection_read box c net).1.0
  unfolding connection_read
  unless_down-IsCoherent true c net h = h
  unless_down-IsCoherent false c net h = read_at-IsCoherent c.reader c net h.reads h

  -- What an application or the other end can bring about.
  pub data Event : Type 0 where
    reads : Net → Event
    writes : Packet → Net → Event
    recovers : ℕ → Exchange → Net → Event
    closes : Net → Event
    shuts_down : Net → Event

  unfoldable pub step : Event → Connection → Connection
  step (reads net) c = (read_packet box c net).1.0
  step (writes p net) c = (connection_write box p c net).1.0
  step (recovers fd x net) c = (connection_recover fd x c net).1.0
  step (closes net) c = (close_socket_and_maybe_reconnect c net).0
  step (shuts_down net) c = (shutdown c net).0

  -- What can happen to the connection of a client: such an event, or the first connect, with the
  -- client's key.
  pub data ClientEvent : Type 0 where
    occurs : Event → ClientEvent
    connects : List ℕ → Attempt → Net → ClientEvent

  unfoldable pub client_step : ClientEvent → Connection → Connection
  unfolding step
  client_step (occurs e) c = step e c
  client_step (connects key a net) c = (connect key a c net).1.0

  -- A client connects while it has no reader and no writer; all else can come at any time.
  abbrev pub CanStep : ClientEvent → Connection → Type 0
  CanStep (connects key a net) c = (c.reader ≡ none) × (c.writer ≡ none)
  CanStep (occurs e) c = Unit

  recover_at-IsCoherent :
      (fd : ℕ) (x : Exchange) (reader : Option Reader) (writer : Option Writer) (c : Connection)
      (net : Net)
      → IsCoherent c
      → IsCoherent (recover_at fd x reader writer c net).1.0
  unfolding recover_at exchange_headers send_catchup finish_recover recover_failed Reader.revive
      Writer.revive
  recover_at-IsCoherent fd x (some r) (some w) c net h = ground arith
  recover_at-IsCoherent fd x _ _ c net h = h

  -- Without a reader and a writer any socket number is coherent.
  bare-IsCoherent :
      (fd : Option ℕ) (c : Connection)
      → c.reader ≡ none
      → c.writer ≡ none
      → IsCoherent (record c { socket_fd = fd })
  bare-IsCoherent fd c r w = record {
    reads = subst (ReaderOn fd) (sym r) tt;
    writes = subst (WriterOn fd) (sym w) tt;
  }

  establish-IsCoherent :
      (key : List ℕ) (fd : ℕ) (c : Connection) (net : Net)
      → IsCoherent c
      → IsCoherent (establish key fd c net).1.0
  unfolding establish reader writer
  establish-IsCoherent key fd c net h =
      continue-IsCoherent (crypto_handler key server_client_nonce_msb) c net _ h λ incoming.
        continue-IsCoherent (crypto_handler key client_server_nonce_msb) c net _ h
          λ outgoing. record { reads = refl; writes = refl }

  greeted-IsCoherent :
      (key : List ℕ) (fd : ℕ) (status : Option Status) (c : Connection) (net : Net)
      → IsCoherent c
      → IsCoherent (greeted key fd status c net).1.0
  unfolding greeted
  greeted-IsCoherent key fd none c net h = h
  greeted-IsCoherent key fd (some new_client) c net h = establish-IsCoherent key fd c net h
  greeted-IsCoherent key fd (some returning_client) c net h = establish-IsCoherent key fd c net h
  greeted-IsCoherent key fd (some invalid_key) c net h = h
  greeted-IsCoherent key fd (some mismatched_protocol) c net h = h

  connect_on-IsCoherent :
      (key : List ℕ) (found : Option ℕ) (a : Attempt) (c : Connection) (net : Net)
      → c.reader ≡ none
      → c.writer ≡ none
      → IsCoherent (connect_on key found a c net).1.0
  unfolding connect_on
  connect_on-IsCoherent key none a c net r w = bare-IsCoherent none c r w
  connect_on-IsCoherent key (some fd) a c net r w = sent a.sends_request
    where
      c' : Connection
      c' = record c { socket_fd = some fd }

      sent :
          (b : Bool)
          → IsCoherent
              (if b then greeted key fd a.response c' net else connect_failed fd c' net).1.0
      sent true = greeted-IsCoherent key fd a.response c' net (bare-IsCoherent (some fd) c r w)
      sent false = bare-IsCoherent (some fd) c r w

  event-IsCoherent : (e : Event) (c : Connection) → IsCoherent c → IsCoherent (step e c)
  unfolding step read_packet connection_read connection_write connection_recover
  event-IsCoherent (reads net) c h = unless_down-IsCoherent c.shutting_down c net h
  event-IsCoherent (writes p net) c h = write_at-IsCoherent p c.writer c net h.writes h
  event-IsCoherent (recovers fd x net) c h = recover_at-IsCoherent fd x c.reader c.writer c net h
  event-IsCoherent (closes net) c h = maybe_reconnect-IsCoherent c net h
  event-IsCoherent (shuts_down net) c h = shutdown-IsCoherent c net h

  -- Every event, on every branch, keeps the reader and the writer, if the connection has them, on
  -- the connection's socket: reads, writes, recoveries, closes, shutdowns, and the connect of a
  -- client that has no reader and no writer yet, whether it succeeds or fails.
  pub step-IsCoherent :
      (e : ClientEvent) (c : Connection) → CanStep e c → IsCoherent c → IsCoherent (client_step e c)
  unfolding client_step connect
  step-IsCoherent (occurs e) c can h = event-IsCoherent e c h
  step-IsCoherent (connects key a net) c (r, w) h = connect_on-IsCoherent key a.connects a c net r w
