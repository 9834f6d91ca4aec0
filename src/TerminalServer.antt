-- ===== src/TerminalServer.antt =====
-- src/terminal/TerminalServer.cpp: runTerminal, the thread that serves one client with a terminal.
pub mod Opening
pub mod Left
pub mod Output
pub mod JumpHost
pub mod Relayed
use eternal_terminal.Common.{
  ℕ, ◌+◌, Bool, true, false, ◌&&◌, Option, List, [], ◌∷◌, ◌++◌, if◌then◌else◌, map,
}

-- A packet for the client, with what is serialized in it.
pub data Sent : Type 0 where
  initial_response : Option (List ℕ) → Sent
  terminal_buffer : List ℕ → Sent
  keep_alive : Sent
  destination_request : List ℕ → Sent
  forward_data : List ℕ → Sent

-- What is written to the terminal: the first packet, and then type bytes and messages.
pub data Piece : Type 0 where
  term_init : List (List ℕ × List ℕ) → Piece
  type_byte : ℕ → Piece
  message : List ℕ → Piece

-- How far a type byte and its message get: both, neither, or the byte alone.
pub data Written : Type 0 where
  both neither type_only : Written

-- What `readPacket` of the client's connection gives: a packet by its type, no packet, or an
-- exception.
pub data Got : Type 0 where
  port_forward : List ℕ → Got
  got_buffer : List ℕ → Written → Got
  got_keep_alive : Got
  got_info : List ℕ → Written → Got
  got_other : ℕ → Got
  nothing : Got
  read_throws : Got

-- What a `read` of the terminal brings.
pub data FromTerminal : Type 0 where
  bytes : List ℕ → FromTerminal
  ended again failed : FromTerminal

-- What the environment answers in one round. `can_buffer` is canBufferWrite of two buffers;
-- `packets` are those for which hasData says yes; `requests` and `data_to_send` are what the port
-- forwarding's update asks to send.
pub record Round : Type 0 where
  pub halted : Bool
  pub can_buffer : Bool
  pub terminal_ready : Bool
  pub from_terminal : FromTerminal
  pub client_ready : Bool
  pub packets : List Got
  pub requests : List (List ℕ)
  pub data_to_send : List (List ℕ)

-- `sent` holds the packets handed to writePacket of the client's connection, `written` what went to
-- the terminal and `forwarded` the packets handed to the port forwarding, whose own calls do not
-- throw here, all in order; `closes` counts the calls of closeSocket.
pub record TerminalRun : Type 0 where
  pub sent : List Sent
  pub written : List Piece
  pub forwarded : List (List ℕ)
  pub closes : ℕ

-- How a part of a round ends: the round goes on, the next one starts, the loop breaks, an exception
-- is thrown, or the process aborts.
pub data Flow : Type 0 where
  goes_on skips breaks raises aborts : Flow

-- How the thread ends, or that its loop has not.
pub data Ending : Type 0 where
  turned_away tunnel_failed session_ended aborted running : Ending

abbrev pub terminal_buffer_type : ℕ
terminal_buffer_type = 1

abbrev pub terminal_info_type : ℕ
terminal_info_type = 2

abbrev pub send : Sent → TerminalRun → TerminalRun
send p t = record t { sent = t.sent ++ p ∷ [] }

abbrev pub write : Piece → TerminalRun → TerminalRun
write p t = record t { written = t.written ++ p ∷ [] }

-- The bytes of the terminal go out before anything else in the round can fail.
abbrev pub on_terminal : FromTerminal → TerminalRun → Flow × TerminalRun
on_terminal (bytes s) t = (goes_on, send (terminal_buffer s) t)
on_terminal ended t = (breaks, t)
on_terminal again t = (skips, t)
on_terminal failed t = (breaks, t)

abbrev pub send_all : List Sent → TerminalRun → TerminalRun
send_all [] t = t
send_all (p ∷ ps) t = send_all ps (send p t)

abbrev pub update_forwards : Round → TerminalRun → TerminalRun
update_forwards r t =
    send_all (map forward_data r.data_to_send) (send_all (map destination_request r.requests) t)

-- A type byte and its message for the terminal.
abbrev pub to_terminal : ℕ → List ℕ → Written → TerminalRun → Flow × TerminalRun
to_terminal type₁ s both t = (goes_on, write (message s) (write (type_byte type₁) t))
to_terminal type₁ s neither t = (raises, t)
to_terminal type₁ s type_only t = (raises, write (type_byte type₁) t)

abbrev pub and_then : Flow × TerminalRun → (TerminalRun → Flow × TerminalRun) → Flow × TerminalRun
and_then (goes_on, t) part = part t
and_then (skips, t) part = (skips, t)
and_then (breaks, t) part = (breaks, t)
and_then (raises, t) part = (raises, t)
and_then (aborts, t) part = (aborts, t)

-- The loop over the packets of the client.
unfoldable pub read_packets : List Got → TerminalRun → Flow × TerminalRun
read_packets [] t = (goes_on, t)
read_packets (port_forward p ∷ packets) t =
    read_packets packets (record t { forwarded = t.forwarded ++ p ∷ [] })
read_packets (got_buffer s w ∷ packets) t =
    and_then (to_terminal terminal_buffer_type s w t) (read_packets packets)
read_packets (got_keep_alive ∷ packets) t = read_packets packets (send keep_alive t)
read_packets (got_info s w ∷ packets) t =
    and_then (to_terminal terminal_info_type s w t) (read_packets packets)
read_packets (got_other type₁ ∷ packets) t = (aborts, t)
read_packets (nothing ∷ packets) t = (goes_on, t)
read_packets (read_throws ∷ packets) t = (raises, t)

abbrev pub if_set : Bool → (TerminalRun → Flow × TerminalRun) → TerminalRun → Flow × TerminalRun
if_set true part t = part t
if_set false part t = (goes_on, t)

-- One round: the terminal is looked at only while the client's connection has room.
unfoldable pub round : Round → TerminalRun → Flow × TerminalRun
unfolding read_packets
round r t =
    and_then (if_set (r.can_buffer && r.terminal_ready) (on_terminal r.from_terminal) t)
      (λ u. if_set r.client_ready (read_packets r.packets) (update_forwards r u))

-- After an exception the socket is closed, and the session waits for its client to return.
abbrev pub next : Flow × TerminalRun → (TerminalRun → Ending × TerminalRun) → Ending × TerminalRun
next (goes_on, t) rest = rest t
next (skips, t) rest = rest t
next (breaks, t) rest = (session_ended, t)
next (raises, t) rest = rest (record t { closes = 1 + t.closes })
next (aborts, t) rest = (aborted, t)

unfoldable pub loop : List Round → TerminalRun → Ending × TerminalRun
unfolding round
loop [] t = (running, t)
loop (r ∷ rounds) t =
    let rest = next (round r t) (loop rounds) in if r.halted then (session_ended, t) else rest
