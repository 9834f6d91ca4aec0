-- ===== src/Server/Down.antt =====
-- No operation of src/base/Connection.cpp takes a shutdown back.
use eternal_terminal.Net.{Net}
use eternal_terminal.Common.{
  ℕ, ◌≡◌, refl, ap, ◌∙◌, Bool, true, false, Option, none, some, arith, Outcome, ok, throws, fatal,
  waiting, if◌then◌else◌, continue,
}
use eternal_terminal.Crypto.{Secretbox}
use eternal_terminal.Packet.{Packet}
use eternal_terminal.Reader.{Reader, ReadResult, error, nothing, message, read}
use eternal_terminal.Writer.{
  Writer, WriteState, skipped, success, wrote_with_failure, buffered_only, write,
}
use eternal_terminal.Connection.{
  Connection, Call, shutdown, close_socket, Exchange, connection_recover,
  close_socket_and_maybe_reconnect, read_packet, connection_read, read_at, connection_write,
  write_at, after_reader, after_writer,
}
use eternal_terminal.Connection.Coherent.{Event, reads, writes, recovers, closes, shuts_down}
use eternal_terminal.Connection.Coherent
use eternal_terminal.Connection.Recovery.{Recovered, recover-Recovered}
use eternal_terminal.Server.{recover_client}

-- A closing leaves the flag of the shutdown; a shutdown sets it.
down-close_socket :
    (c : Connection) (net : Net) → (close_socket c net).0.shutting_down ≡ c.shutting_down
unfolding close_socket
down-close_socket c net = ground arith

pub down-shutdown : (c : Connection) (net : Net) → (shutdown c net).0.shutting_down ≡ true
unfolding shutdown
down-shutdown c net = down-close_socket (record c { shutting_down = true }) net

down-Recovered :
    (fd : ℕ) (x : Exchange) (c : Connection) (net : Net) (out : Call Bool)
    → Recovered fd x c net out
    → out.1.0.shutting_down ≡ c.shutting_down
unfolding Recovered
down-Recovered fd x c net (ok true, out) h = ap (λ o. o.0.shutting_down) h.result
down-Recovered fd x c net (ok false, out) h = ap (λ o. o.0.shutting_down) h
down-Recovered fd x c net (throws e, out) h = ap (λ o. o.0.shutting_down) h
down-Recovered fd x c net (fatal, out) h = ap (λ o. o.0.shutting_down) h
down-Recovered fd x c net (waiting, out) h = ap (λ o. o.0.shutting_down) h

pub down-recover_client :
    (fd : ℕ) (x : Exchange) (c : Connection) (net : Net)
    → (recover_client fd x c net).1.0.shutting_down ≡ c.shutting_down
unfolding recover_client close_socket
down-recover_client fd x c net = ground (
  arith,
  down-Recovered fd x c net (connection_recover fd x c net) (recover-Recovered fd x c net),
  down-close_socket c net,
  down-Recovered fd x (close_socket c net).0 (close_socket c net).1
      (connection_recover fd x (close_socket c net).0 (close_socket c net).1)
      (recover-Recovered fd x (close_socket c net).0 (close_socket c net).1),
)

down-maybe_reconnect :
    (c : Connection) (net : Net)
    → (close_socket_and_maybe_reconnect c net).0.shutting_down ≡ c.shutting_down
unfolding close_socket_and_maybe_reconnect close_socket
down-maybe_reconnect c net = ground arith

after_reader-down :
    (result : ReadResult) (c : Connection) (net : Net)
    → (after_reader result c net).1.0.shutting_down ≡ c.shutting_down
unfolding after_reader
after_reader-down error c net = ground (arith, down-maybe_reconnect c net)
after_reader-down nothing c net = refl
after_reader-down (message p) c net = refl

after_writer-down :
    (state : WriteState) (c : Connection) (net : Net)
    → (after_writer state c net).1.0.shutting_down ≡ c.shutting_down
unfolding after_writer
after_writer-down wrote_with_failure c net = ground (arith, down-maybe_reconnect c net)
after_writer-down skipped c net = refl
after_writer-down success c net = refl
after_writer-down buffered_only c net = refl

continue-down :
    {A B : Type 0} (out : Outcome A) (c : Connection) (net : Net)
    (f : A → Outcome B × (Connection × Net)) (down : Bool)
    → c.shutting_down ≡ down
    → ((a : A) → (f a).1.0.shutting_down ≡ down)
    → (continue out (c, net) f).1.0.shutting_down ≡ down
continue-down (ok a) c net f down h k = k a
continue-down (throws e) c net f down h k = h
continue-down fatal c net f down h k = h
continue-down waiting c net f down h k = h

module _ (box : Secretbox) where
  read_at-down :
      (r : Option Reader) (c : Connection) (net : Net)
      → (read_at box r c net).1.0.shutting_down ≡ c.shutting_down
  unfolding read_at
  read_at-down none c net = refl
  read_at-down (some r) c net =
      let c' = record c { reader = some (read box r net).1.0 } in
      continue-down (read box r net).0 c' (read box r net).1.1
        (λ got. after_reader got c' (read box r net).1.1) c.shutting_down refl
        (λ got. after_reader-down got c' (read box r net).1.1)

  write_at-down :
      (p : Packet) (w : Option Writer) (c : Connection) (net : Net)
      → (write_at box p w c net).1.0.shutting_down ≡ c.shutting_down
  unfolding write_at
  write_at-down p none c net = refl
  write_at-down p (some w) c net =
      let c' = record c { writer = some (write box p w net).1.0 } in
      continue-down (write box p w net).0 c' (write box p w net).1.1
        (λ state. after_writer state c' (write box p w net).1.1) c.shutting_down refl
        (λ state. after_writer-down state c' (write box p w net).1.1)

  unless_down :
      (down : Bool) (c : Connection) (net : Net)
      → (if down then (ok none, (c, net)) else connection_read box c net).1.0.shutting_down
        ≡ c.shutting_down
  unfolding connection_read
  unless_down true c net = refl
  unless_down false c net = read_at-down c.reader c net

  -- No event takes a shutdown back.
  pub down-step :
      (e : Event box) (c : Connection)
      → c.shutting_down ≡ true
      → (Coherent.step box e c).shutting_down ≡ true
  unfolding Coherent.step read_packet connection_write
  down-step (reads net) c h = unless_down c.shutting_down c net ∙ h
  down-step (writes p net) c h = write_at-down p c.writer c net ∙ h
  down-step (recovers fd x net) c h =
      down-Recovered fd x c net (connection_recover fd x c net) (recover-Recovered fd x c net) ∙ h
  down-step (closes net) c h = down-maybe_reconnect c net ∙ h
  down-step (shuts_down net) c h = down-shutdown c net
