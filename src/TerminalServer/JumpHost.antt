-- ===== src/TerminalServer/JumpHost.antt =====
-- runJumpHost of src/terminal/TerminalServer.cpp: packets between a client and the terminal process
-- of a jump host.
use eternal_terminal.Common.{
  ℕ, ◌+◌, Bool, true, false, ◌&&◌, Option, none, some, List, [], ◌∷◌, ◌++◌, if◌then◌else◌, Outcome,
  ok, throws, fatal, waiting,
}
use eternal_terminal.Connection.{close_socket}
use eternal_terminal.Server.{Server, remove_client, on_connection}
use eternal_terminal.Router.{TerminalUserInfo}
use eternal_terminal.TerminalServer.{
  Flow, goes_on, skips, breaks, raises, aborts, Ending, turned_away, tunnel_failed, session_ended,
  aborted, running,
}

-- What `readPacket` of the terminal brings.
pub data FromTerminal : Type 0 where
  from_terminal : List ℕ → FromTerminal
  none_there terminal_fails : FromTerminal

-- What `readPacket` of the client's connection brings, and whether its packet can be written to the
-- terminal.
pub data FromClient : Type 0 where
  from_client : List ℕ → Bool → FromClient
  none_read client_raises : FromClient

-- `stopped` is the halt of the server or the shutdown of the connection.
pub record Round : Type 0 where
  pub stopped : Bool
  pub can_buffer : Bool
  pub terminal_ready : Bool
  pub terminal_read : FromTerminal
  pub client_ready : Bool
  pub has_data : Bool
  pub client_read : FromClient

-- The packets handed to either side, in order; `closes` counts the calls of closeSocket.
pub record JumpHost : Type 0 where
  pub to_client : List (List ℕ)
  pub to_terminal : List (List ℕ)
  pub closes : ℕ

abbrev pub on_terminal : FromTerminal → JumpHost → Flow × JumpHost
on_terminal (from_terminal p) j = (goes_on, record j { to_client = j.to_client ++ p ∷ [] })
on_terminal none_there j = (goes_on, j)
on_terminal terminal_fails j = (breaks, j)

abbrev pub on_client : FromClient → JumpHost → Flow × JumpHost
on_client (from_client p true) j = (goes_on, record j { to_terminal = j.to_terminal ++ p ∷ [] })
on_client (from_client p false) j = (breaks, j)
on_client none_read j = (skips, j)
on_client client_raises j = (raises, j)

abbrev pub if_set : Bool → (JumpHost → Flow × JumpHost) → JumpHost → Flow × JumpHost
if_set true part j = part j
if_set false part j = (goes_on, j)

abbrev pub and_then : Flow × JumpHost → (JumpHost → Flow × JumpHost) → Flow × JumpHost
and_then (goes_on, j) part = part j
and_then (skips, j) part = (skips, j)
and_then (breaks, j) part = (breaks, j)
and_then (raises, j) part = (raises, j)
and_then (aborts, j) part = (aborts, j)

unfoldable pub round : Round → JumpHost → Flow × JumpHost
round r j =
    and_then (if_set (r.can_buffer && r.terminal_ready) (on_terminal r.terminal_read) j)
      (if_set (r.client_ready && r.has_data) (on_client r.client_read))

abbrev pub next : Flow × JumpHost → (JumpHost → Ending × JumpHost) → Ending × JumpHost
next (goes_on, j) rest = rest j
next (skips, j) rest = rest j
next (breaks, j) rest = (session_ended, j)
next (raises, j) rest = rest (record j { closes = 1 + j.closes })
next (aborts, j) rest = (aborted, j)

unfoldable pub loop : List Round → JumpHost → Ending × JumpHost
unfolding round
loop [] j = (running, j)
loop (r ∷ rounds) j =
    let rest = next (round r j) (loop rounds) in if r.stopped then (session_ended, j) else rest

abbrev pub new_jump_host : JumpHost
new_jump_host = record { to_client = []; to_terminal = []; closes = 0 }

-- `response` is the first packet for the client and `init` the first one for the terminal, which
-- is written outside the `try`.
abbrev pub serve : List ℕ → List ℕ → Bool → List Round → Ending × JumpHost
serve response init true rounds =
    loop rounds (record new_jump_host { to_client = response ∷ []; to_terminal = init ∷ [] })
serve response init false rounds = (aborted, record new_jump_host { to_client = response ∷ [] })

abbrev pub bound :
    List ℕ → Outcome (Option TerminalUserInfo) → List ℕ → Bool → List Round → Ending × JumpHost
unfolding loop
bound response (ok none) init init_written rounds =
    (turned_away, record new_jump_host { to_client = response ∷ []; closes = 1 })
bound response (ok (some info)) init init_written rounds = serve response init init_written rounds
bound response (throws e) init init_written rounds =
    (aborted, record new_jump_host { to_client = response ∷ [] })
bound response fatal init init_written rounds =
    (aborted, record new_jump_host { to_client = response ∷ [] })
bound response waiting init init_written rounds =
    (running, record new_jump_host { to_client = response ∷ [] })

-- The last step of the thread on the server; the earlier return skips the removal and closes the
-- client's socket.
abbrev pub leave : List ℕ → ℕ → Ending × JumpHost → Server → Ending × JumpHost × Server
leave id p (session_ended, j) s = (session_ended, j, (remove_client id s).1)
leave id p (turned_away, j) s = (turned_away, j, on_connection p close_socket s)
leave id p (tunnel_failed, j) s = (tunnel_failed, j, s)
leave id p (aborted, j) s = (aborted, j, s)
leave id p (running, j) s = (running, j, s)

-- The connection of the client is behind the pointer `p`; the server is the one before the last
-- step.
unfoldable pub run_jump_host :
    List ℕ
    → ℕ
    → List ℕ
    → Outcome (Option TerminalUserInfo)
    → List ℕ
    → Bool
    → List Round
    → Server
    → Ending × JumpHost × Server
unfolding loop
run_jump_host id p response found init init_written rounds s =
    leave id p (bound response found init init_written rounds) s
