-- ===== src/TerminalClient.antt =====
-- src/terminal/TerminalClient.cpp: the loop of `run` between the console, the connection and the
-- port forwarding, outside Windows.
pub mod Output
pub mod KeepAlive
use eternal_terminal.Common.{
  ℕ, ◌+◌, Bool, true, false, not, ◌&&◌, ◌||◌, Option, none, some, List, [], ◌∷◌, ◌++◌, ◌==◌,
  if◌then◌else◌, map, ltb, same, take, is_empty,
}

-- A packet that the client sends, with what is serialized in it; port forwarding's are bytes here.
pub data Sent : Type 0 where
  terminal_buffer : List ℕ → Sent
  terminal_info : List ℕ → Sent
  keep_alive : Sent
  destination_request : List ℕ → Sent
  forward_data : List ℕ → Sent

-- What `connection->read` gives: a packet by its type, no packet, or an exception.
pub data Got : Type 0 where
  port_forward : List ℕ → Got
  got_buffer : List ℕ → Got
  got_keep_alive : Got
  got_other : ℕ → Got
  nothing : Got
  read_throws : Got

-- What a `read` of the console brings.
pub data FromConsole : Type 0 where
  bytes : List ℕ → FromConsole
  ended again failed : FromConsole

-- What the environment answers in one round. The clock is read as `now` throughout; `packets` are
-- the packets for which hasData says yes; `info` holds the fields of TerminalInfo for the console's window; `requests`
-- and `data_to_send` are what the port forwarding's update asks to send; `console_takes` is none if a
-- write to the console succeeds, and else how many bytes it puts out before it throws. `connected` says that the
-- connection has a socket.
pub record Round : Type 0 where
  pub now : ℕ
  pub connected : Bool
  pub connection_ready : Bool
  pub console_ready : Bool
  pub from_console : FromConsole
  pub packets : List Got
  pub console_takes : Option ℕ
  pub info : List ℕ
  pub requests : List (List ℕ)
  pub data_to_send : List (List ℕ)

-- `sent` holds the packets written, `shown` the bytes written to the console and `forwarded` the
-- packets handed to the port forwarding, all in order; `keepalive_closes` counts the
-- calls of closeSocketAndMaybeReconnect that `run` makes itself for want of a keepalive, and not
-- those inside the connection's own read and write.
pub record TerminalClient : Type 0 where
  pub has_console : Bool
  pub shutting_down : Bool
  pub keepalive_duration : ℕ
  pub keepalive_time : ℕ
  pub waiting_on_keepalive : Bool
  pub last_terminal_info : List ℕ
  pub sent : List Sent
  pub shown : List ℕ
  pub forwarded : List (List ℕ)
  pub keepalive_closes : ℕ

-- How a part ends: the round goes on, the loop breaks, an exception is thrown, or the process
-- aborts.
pub data Flow : Type 0 where
  goes_on breaks throws fatal : Flow

abbrev pub send : Sent → TerminalClient → TerminalClient
send p t = record t { sent = t.sent ++ p ∷ [] }

abbrev pub keep : ℕ → TerminalClient → TerminalClient
keep now t = record t { keepalive_time = now + t.keepalive_duration }

-- The part that reads the console.
abbrev pub on_console : ℕ → FromConsole → TerminalClient → Flow × TerminalClient
on_console now (bytes s) t = (goes_on, keep now (send (terminal_buffer s) t))
on_console now ended t = (breaks, t)
on_console now again t = (goes_on, t)
on_console now failed t = (breaks, t)

-- The loop over the packets that are there; the text for the console is collected.
unfoldable pub read_packets :
    ℕ → List Got → List ℕ → TerminalClient → Flow × List ℕ × TerminalClient
read_packets now [] coalesced t = (goes_on, coalesced, t)
read_packets now (port_forward p ∷ packets) coalesced t =
    read_packets now packets coalesced (record (keep now t) { forwarded = t.forwarded ++ p ∷ [] })
read_packets now (got_buffer s ∷ packets) coalesced t =
    let shows = read_packets now packets (coalesced ++ s) (keep now t) in
    let skips = read_packets now packets coalesced t in if t.has_console then shows else skips
read_packets now (got_keep_alive ∷ packets) coalesced t =
    read_packets now packets coalesced (record t { waiting_on_keepalive = false })
read_packets now (got_other type₁ ∷ packets) coalesced t = (fatal, coalesced, t)
read_packets now (nothing ∷ packets) coalesced t = (goes_on, coalesced, t)
read_packets now (read_throws ∷ packets) coalesced t = (throws, coalesced, t)

abbrev pub write_console : Option ℕ → List ℕ → TerminalClient → Flow × TerminalClient
write_console none s t = (goes_on, record t { shown = t.shown ++ s })
write_console (some n) s t = (throws, record t { shown = t.shown ++ take n s })

-- What was collected is written in one call, if it is not empty.
abbrev pub show_all : Option ℕ → Flow × List ℕ × TerminalClient → Flow × TerminalClient
show_all takes (goes_on, coalesced, t) =
    if t.has_console && not (is_empty coalesced)
    then write_console takes coalesced t
    else (goes_on, t)
show_all takes (breaks, coalesced, t) = (breaks, t)
show_all takes (throws, coalesced, t) = (throws, t)
show_all takes (fatal, coalesced, t) = (fatal, t)

-- A keepalive is due: one is sent, or the connection is closed if the last one is unanswered.
abbrev pub on_keepalive : ℕ → TerminalClient → TerminalClient
on_keepalive now t =
    if t.waiting_on_keepalive
    then record (keep now t) {
      keepalive_closes = 1 + t.keepalive_closes;
      waiting_on_keepalive = false;
    }
    else record (send keep_alive (keep now t)) { waiting_on_keepalive = true }

abbrev pub check_keepalive : Round → TerminalClient → TerminalClient
check_keepalive r t =
    if r.connected
    then (if ltb t.keepalive_time r.now then on_keepalive r.now t else t)
    else record t { waiting_on_keepalive = false }

abbrev pub check_info : Round → TerminalClient → TerminalClient
check_info r t =
    if t.has_console && not (same r.info t.last_terminal_info)
    then send (terminal_info r.info) (record t { last_terminal_info = r.info })
    else t

-- The loops over what the port forwarding has to send.
abbrev pub send_all : ℕ → List Sent → TerminalClient → TerminalClient
send_all now [] t = t
send_all now (p ∷ ps) t = send_all now ps (keep now (send p t))

abbrev pub update_forwards : Round → TerminalClient → TerminalClient
update_forwards r t =
    send_all r.now (map forward_data r.data_to_send)
      (send_all r.now (map destination_request r.requests) t)

abbrev pub if_set :
    Bool → (TerminalClient → Flow × TerminalClient) → TerminalClient → Flow × TerminalClient
if_set true part t = part t
if_set false part t = (goes_on, t)

abbrev pub and_then :
    Flow × TerminalClient → (TerminalClient → Flow × TerminalClient) → Flow × TerminalClient
and_then (goes_on, t) part = part t
and_then (breaks, t) part = (breaks, t)
and_then (throws, t) part = (throws, t)
and_then (fatal, t) part = (fatal, t)

abbrev pub on_packets : Round → TerminalClient → Flow × TerminalClient
on_packets r t = show_all r.console_takes (read_packets r.now r.packets [] t)

-- What the round does once the packets are read.
abbrev pub rest_of_round : Round → TerminalClient → Flow × TerminalClient
rest_of_round r t = (goes_on, update_forwards r (check_info r (check_keepalive r t)))

-- An exception makes the loop end at its next test.
abbrev pub caught : Flow × TerminalClient → Flow × TerminalClient
caught (throws, t) = (goes_on, record t { shutting_down = true })
caught (goes_on, t) = (goes_on, t)
caught (breaks, t) = (breaks, t)
caught (fatal, t) = (fatal, t)

-- One round of the loop.
unfoldable pub round : Round → TerminalClient → Flow × TerminalClient
unfolding read_packets
round r t = caught (
    and_then
      (and_then (if_set (t.has_console && r.console_ready) (on_console r.now r.from_console) t)
        (if_set (r.connected && r.connection_ready) (on_packets r)))
      (rest_of_round r))

-- The loop, while the connection is not shutting down.
unfoldable pub run : List Round → TerminalClient → Flow × TerminalClient
unfolding round
run [] t = (goes_on, t)
run (r ∷ rounds) t =
    let next = and_then (round r t) (run rounds) in if t.shutting_down then (breaks, t) else next

-- The command that `run` sends first, if it is not empty: with a newline, or to leave the shell
-- after it.
unfoldable pub send_command : List ℕ → Bool → TerminalClient → TerminalClient
send_command [] noexit t = t
send_command (c ∷ command) noexit t =
    let end = if noexit then b'\n' ∷ [] else b';' ∷ b' ' ∷ b'e' ∷ b'x' ∷ b'i' ∷ b't' ∷ b'\n' ∷ [] in
    send (terminal_buffer (c ∷ command ++ end)) t
