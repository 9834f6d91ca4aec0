-- ===== src/TerminalServer/Left.antt =====
-- What the end of a terminal's thread means for its client, terminal/TerminalServer.cpp.
use eternal_terminal.Common.{
  ℕ, ◌+◌, Bool, true, false, Option, none, some, List, [], ◌∷◌, ◌≡◌, refl, sym, subst, ◌⊎◌, inl,
  inr, if◌then◌else◌, Outcome, ok, throws, fatal, waiting, find,
}
use eternal_terminal.Net.{Net}
use eternal_terminal.Crypto.{Secretbox}
use eternal_terminal.Packet.{Packet}
use eternal_terminal.Connection.{Connection, close_socket}
use eternal_terminal.Server.{
  Server, at, on_object, on_connection, client_key_exists, admit, admit_at, refused, returning,
}
use eternal_terminal.Server.Removed.{admit-remove_client}
use eternal_terminal.Router.{TerminalUserInfo}
use eternal_terminal.TerminalServer.{
  initial_response, term_init, Round, TerminalRun, Flow, goes_on, skips, breaks, raises, aborts,
  Ending, turned_away, tunnel_failed, session_ended, aborted, running, send, write, round, next,
  loop,
}
use eternal_terminal.TerminalServer.Opening.{
  Source, source_error, source_name, Tunnel, Opened, opened, open_error, name_variable, open_tunnel,
  open_tunnels, set_variables, new_run, serve, tell_client, bound, leave, run_terminal,
}

-- What the server answers to a client that comes back after its thread has left.
abbrev pub Left : List ℕ → ℕ → ℕ → Ending × TerminalRun × Server → Type 0
Left id p fd (session_ended, t, s) = (admit id fd s).0 ≡ ok refused
Left id p fd (turned_away, t, s) = (admit id fd s).0 ≡ ok (returning p)
Left id p fd (tunnel_failed, t, s) = (admit id fd s).0 ≡ ok (returning p)
Left id p fd (aborted, t, s) = Unit
Left id p fd (running, t, s) = Unit

-- A client that both maps know is admitted to its old connection, whatever was done to one.
admit-on_connection :
    (id : List ℕ) (p q fd : ℕ) (f : Connection → Net → Connection × Net) (s : Server)
    → find id s.client_connections ≡ some p
    → client_key_exists id s ≡ true
    → (admit id fd (on_connection q f s)).0 ≡ ok (returning p)
unfolding admit admit_at client_key_exists
admit-on_connection id p q fd f s found known = by_object (at q s.connections)
  where
    by_object : (c : Option Connection) → (admit id fd (on_object c q f s)).0 ≡ ok (returning p)
    by_object none = rw found (rw known refl)
    by_object (some c) = rw found (rw known refl)

leave-Left :
    (box : Secretbox) (response : Packet) (id : List ℕ) (p fd : ℕ) (e : Ending) (t : TerminalRun)
    (s : Server)
    → find id s.client_connections ≡ some p
    → client_key_exists id s ≡ true
    → Left id p fd (e, t, leave box response id p e s)
leave-Left box response id p fd session_ended t s found known = admit-remove_client id fd s
leave-Left box response id p fd turned_away t s found known =
    admit-on_connection id p p fd close_socket s found known
leave-Left box response id p fd tunnel_failed t s found known =
    admit-on_connection id p p fd (tell_client box response) s found known
leave-Left box response id p fd aborted t s found known = tt
leave-Left box response id p fd running t s found known = tt

-- The error of the first reverse tunnel that fails.
abbrev pub first_error : List Tunnel → Option (List ℕ)
first_error [] = none
first_error (tunnel ∷ tunnels) = elim tunnel.source [
  | source_error e ↦ some e
  | source_name name ↦ first_error tunnels
]

-- What the ending of a thread tells of its beginning.
abbrev pub Begun : Outcome (Option TerminalUserInfo) → List Tunnel → Ending → TerminalRun → Type 0
Begun found tunnels session_ended t = first_error tunnels ≡ none
Begun found tunnels turned_away t = (found ≡ ok none) × (t.written ≡ [])
Begun found tunnels tunnel_failed t =
    (e : List ℕ) × (first_error tunnels ≡ some e)
    × (t.sent ≡ initial_response (some e) ∷ [])
    × (t.written ≡ [])
Begun found tunnels aborted t = Unit
Begun found tunnels running t = Unit

open_tunnels-cases :
    (tunnels : List Tunnel) (env : List (List ℕ × List ℕ))
    → ((e : List ℕ) × (open_tunnels tunnels env ≡ open_error e) × (first_error tunnels ≡ some e))
      ⊎ ((env' : List (List ℕ × List ℕ)) × (open_tunnels tunnels env ≡ opened env')
          × (first_error tunnels ≡ none))
open_tunnels-cases [] env = inr (env, refl, refl)
open_tunnels-cases (tunnel ∷ tunnels) env =
    by_source tunnel.source
      (λ name. open_tunnels-cases tunnels (name_variable tunnel.environment_variable name env))
  where
    Cases : Opened → Option (List ℕ) → Type 0
    Cases o first =
        ((e : List ℕ) × (o ≡ open_error e) × (first ≡ some e))
        ⊎ ((env' : List (List ℕ × List ℕ)) × (o ≡ opened env') × (first ≡ none))

    by_source :
        (source : Source)
        → ((name : List ℕ)
            → Cases
                (open_tunnels tunnels (name_variable tunnel.environment_variable name env))
                (first_error tunnels))
        → Cases
            (open_tunnel source tunnel.environment_variable (open_tunnels tunnels) env)
            (elim source [ source_error e ↦ some e | source_name name ↦ first_error tunnels ])
    by_source (source_error e) rest = inl (e, refl, refl)
    by_source (source_name name) rest = rest name

-- The endings of the loop.
abbrev ByLoop : Ending → Type 0
ByLoop session_ended = Unit
ByLoop aborted = Unit
ByLoop running = Unit
ByLoop turned_away = ⊥
ByLoop tunnel_failed = ⊥

loop-ByLoop : (rounds : List Round) (t : TerminalRun) → ByLoop (loop rounds t).0
unfolding loop
loop-ByLoop [] t = tt
loop-ByLoop (r ∷ rounds) t = halt r.halted (round r t) (loop-ByLoop rounds)
  where
    after :
        (o : Flow × TerminalRun)
        → ((u : TerminalRun) → ByLoop (loop rounds u).0)
        → ByLoop (next o (loop rounds)).0
    after (goes_on, u) rest = rest u
    after (skips, u) rest = rest u
    after (breaks, u) rest = tt
    after (raises, u) rest = rest (record u { closes = 1 + u.closes })
    after (aborts, u) rest = tt

    halt :
        (b : Bool) (o : Flow × TerminalRun)
        → ((u : TerminalRun) → ByLoop (loop rounds u).0)
        → ByLoop (if b then (session_ended, t) else next o (loop rounds)).0
    halt true o rest = tt
    halt false o rest = after o rest

bound-Begun :
    (found : Outcome (Option TerminalUserInfo)) (vars : List (List ℕ × List ℕ))
    (tunnels : List Tunnel) (init_written : Bool) (rounds : List Round)
    → let o = bound found vars tunnels init_written rounds in Begun found tunnels o.0 o.1
unfolding bound
bound-Begun (ok none) vars tunnels init_written rounds = (refl, refl)
bound-Begun (throws e) vars tunnels init_written rounds = tt
bound-Begun fatal vars tunnels init_written rounds = tt
bound-Begun waiting vars tunnels init_written rounds = tt
bound-Begun (ok (some info)) vars tunnels init_written rounds =
    elim (open_tunnels-cases tunnels (set_variables vars [])) [
      | inl (e, o, f) ↦ subst Serves (sym o) (e, f, refl, refl)
      | inr (env, o, f) ↦ subst Serves (sym o) (served env init_written f)
    ]
  where
    Serves : Opened → Type 0
    Serves o = let out = serve o init_written rounds in Begun (ok (some info)) tunnels out.0 out.1

    by_loop :
        (o : Ending × TerminalRun)
        → ByLoop o.0
        → first_error tunnels ≡ none
        → Begun (ok (some info)) tunnels o.0 o.1
    by_loop (session_ended, t) h f = f
    by_loop (aborted, t) h f = tt
    by_loop (running, t) h f = tt
    by_loop (turned_away, t) h f = absurd h
    by_loop (tunnel_failed, t) h f = absurd h

    served :
        (env : List (List ℕ × List ℕ)) (b : Bool)
        → first_error tunnels ≡ none
        → let out = serve (opened env) b rounds in Begun (ok (some info)) tunnels out.0 out.1
    served env true f =
        let start = write (term_init env) (send (initial_response none) new_run) in
        by_loop (loop rounds start) (loop-ByLoop rounds start) f
    served env false f = tt

-- For a client that the server knows, whatever the router finds, the tunnels answer and happens in
-- the rounds: after a session that has ended, for which no reverse tunnel had failed, the client is
-- refused if it comes back. A thread is turned away only if the router's lookup gave no terminal,
-- and ends for a tunnel only with the error of the first one that fails, which is all that it has
-- sent; it has then written nothing to the terminal, and the client is admitted again as a
-- returning one, to the connection that this thread has left.
pub run_terminal-Left :
    (box : Secretbox) (response : Packet) (id : List ℕ) (p fd : ℕ)
    (found : Outcome (Option TerminalUserInfo)) (vars : List (List ℕ × List ℕ))
    (tunnels : List Tunnel) (init_written : Bool) (rounds : List Round) (s : Server)
    → find id s.client_connections ≡ some p
    → client_key_exists id s ≡ true
    → let out = run_terminal box response id p found vars tunnels init_written rounds s in
      Begun found tunnels out.0 out.1 × Left id p fd out
unfolding run_terminal
run_terminal-Left box response id p fd found vars tunnels init_written rounds s known_at known =
    let (ending, t) = bound found vars tunnels init_written rounds in
    (
      bound-Begun found vars tunnels init_written rounds,
      leave-Left box response id p fd ending t s known_at known,
    )
