-- ===== src/TerminalServer/Opening.antt =====
-- How runTerminal of src/terminal/TerminalServer.cpp starts and leaves: the variables, the reverse
-- tunnels, and the client's removal.
use eternal_terminal.Common.{
  ℕ, Bool, true, false, ◌&&◌, ◌||◌, Option, none, some, List, [], ◌∷◌, ◌==◌, if◌then◌else◌, ltb,
  same, Outcome, ok, throws, fatal, waiting,
}
use eternal_terminal.Net.{Net}
use eternal_terminal.Crypto.{Secretbox}
use eternal_terminal.Packet.{Packet}
use eternal_terminal.Connection.{Connection, close_socket, connection_write}
use eternal_terminal.Server.{Server, remove_client, on_connection}
use eternal_terminal.Router.{TerminalUserInfo}
use eternal_terminal.TerminalServer.{
  initial_response, term_init, Round, TerminalRun, Ending, turned_away, tunnel_failed,
  session_ended, aborted, running, send, write, loop,
}

-- The order of strings.
abbrev pub less : List ℕ → List ℕ → Bool
less [] [] = false
less [] (b ∷ v) = true
less (a ∷ u) [] = false
less (a ∷ u) (b ∷ v) = ltb a b || (a == b && less u v)

-- The assignment to an entry of a map, which is kept in the order of its keys.
abbrev pub set_variable : List ℕ → List ℕ → List (List ℕ × List ℕ) → List (List ℕ × List ℕ)
set_variable name value [] = (name, value) ∷ []
set_variable name value ((k, v) ∷ env) =
    let rest = set_variable name value env in
    if same name k
    then (k, value) ∷ env
    else if less name k
    then (name, value) ∷ (k, v) ∷ env
    else (k, v) ∷ rest

abbrev pub set_variables : List (List ℕ × List ℕ) → List (List ℕ × List ℕ) → List (List ℕ × List ℕ)
set_variables [] env = env
set_variables ((k, v) ∷ vars) env = set_variables vars (set_variable k v env)

-- What `createSource` answers: an error, or the name of the source.
pub data Source : Type 0 where
  source_error source_name : List ℕ → Source

-- A reverse tunnel of the payload, with its environment variable if it has one and what
-- `createSource` answers to it.
pub record Tunnel : Type 0 where
  pub environment_variable : Option (List ℕ)
  pub source : Source

pub data Opened : Type 0 where
  opened : List (List ℕ × List ℕ) → Opened
  open_error : List ℕ → Opened

abbrev pub name_variable :
    Option (List ℕ) → List ℕ → List (List ℕ × List ℕ) → List (List ℕ × List ℕ)
name_variable none name env = env
name_variable (some variable) name env = set_variable variable name env

abbrev pub open_tunnel :
    Source → Option (List ℕ) → (List (List ℕ × List ℕ) → Opened) → List (List ℕ × List ℕ) → Opened
open_tunnel (source_error e) variable rest env = open_error e
open_tunnel (source_name name) variable rest env = rest (name_variable variable name env)

abbrev pub open_tunnels : List Tunnel → List (List ℕ × List ℕ) → Opened
open_tunnels [] env = opened env
open_tunnels (tunnel ∷ tunnels) env =
    open_tunnel tunnel.source tunnel.environment_variable (open_tunnels tunnels) env

abbrev pub new_run : TerminalRun
new_run = record { sent = []; written = []; forwarded = []; closes = 0 }

-- The first packet to the terminal is written outside the `try`: its exception ends the process.
abbrev pub serve : Opened → Bool → List Round → Ending × TerminalRun
serve (open_error e) init_written rounds = (tunnel_failed, send (initial_response (some e)) new_run)
serve (opened env) true rounds =
    loop rounds (write (term_init env) (send (initial_response none) new_run))
serve (opened env) false rounds = (aborted, send (initial_response none) new_run)

-- What the router found for the client, the variables and tunnels of its payload, whether the first
-- write to the terminal succeeds, and the rounds.
unfoldable pub bound :
    Outcome (Option TerminalUserInfo)
    → List (List ℕ × List ℕ)
    → List Tunnel
    → Bool
    → List Round
    → Ending × TerminalRun
unfolding loop
bound (ok none) vars tunnels init_written rounds = (turned_away, record new_run { closes = 1 })
bound (ok (some info)) vars tunnels init_written rounds =
    serve (open_tunnels tunnels (set_variables vars [])) init_written rounds
bound (throws e) vars tunnels init_written rounds = (aborted, new_run)
bound fatal vars tunnels init_written rounds = (aborted, new_run)
bound waiting vars tunnels init_written rounds = (running, new_run)

-- The round of writePacket that returns, for the packet that tells the client of an error.
abbrev pub tell_client : Secretbox → Packet → Connection → Net → Connection × Net
tell_client box response c net =
    if c.shutting_down then (c, net) else (connection_write box response c net).1

-- The last step of the thread on the server: the removal of the client, which the early returns
-- skip; they close the client's socket or tell it of the error.
abbrev pub leave : Secretbox → Packet → List ℕ → ℕ → Ending → Server → Server
leave box response id p session_ended s = (remove_client id s).1
leave box response id p turned_away s = on_connection p close_socket s
leave box response id p tunnel_failed s = on_connection p (tell_client box response) s
leave box response id p aborted s = s
leave box response id p running s = s

-- `runTerminal` for the client of this id, whose connection is behind the pointer `p`. The server
-- is the one before the last step, and `response` is the packet of an error.
unfoldable pub run_terminal :
    Secretbox
    → Packet
    → List ℕ
    → ℕ
    → Outcome (Option TerminalUserInfo)
    → List (List ℕ × List ℕ)
    → List Tunnel
    → Bool
    → List Round
    → Server
    → Ending × TerminalRun × Server
unfolding loop
run_terminal box response id p found vars tunnels init_written rounds s =
    let (ending, t) = bound found vars tunnels init_written rounds in
    (ending, t, leave box response id p ending s)
