-- ===== src/TerminalServer/Relayed.antt =====
-- What a jump host of terminal/TerminalServer.cpp relays.
use eternal_terminal.Common.{
  ℕ, ◌+◌, Bool, true, false, ◌&&◌, List, [], ◌∷◌, ◌++◌, ◌≡◌, refl, ap, sym, ◌∙◌, ◌⊎◌, inl, inr,
  if◌then◌else◌, append_assoc, append-nil,
}
use eternal_terminal.TerminalServer.{
  Flow, goes_on, skips, breaks, raises, aborts, Ending, session_ended, aborted,
}
use eternal_terminal.TerminalServer.JumpHost.{
  FromTerminal, from_terminal, none_there, terminal_fails, FromClient, from_client, none_read,
  client_raises, Round, JumpHost, on_terminal, on_client, if_set, and_then, round, next, loop,
}

-- The packets that a round reads from the terminal.
abbrev pub packet_of : FromTerminal → List (List ℕ)
packet_of (from_terminal p) = p ∷ []
packet_of none_there = []
packet_of terminal_fails = []

abbrev pub taken : Round → List (List ℕ)
taken r = if r.can_buffer && r.terminal_ready then packet_of r.terminal_read else []

abbrev pub taken_all : List Round → List (List ℕ)
taken_all [] = []
taken_all (r ∷ rounds) = taken r ++ taken_all rounds

on_client-to_client : (f : FromClient) (j : JumpHost) → ((on_client f j).1).to_client ≡ j.to_client
on_client-to_client (from_client p true) j = refl
on_client-to_client (from_client p false) j = refl
on_client-to_client none_read j = refl
on_client-to_client client_raises j = refl

round-to_client : (r : Round) (j : JumpHost) → ((round r j).1).to_client ≡ j.to_client ++ taken r
unfolding round
round-to_client r j = look (r.can_buffer && r.terminal_ready)
  where
    client :
        (b : Bool) (u : JumpHost)
        → ((if_set b (on_client r.client_read) u).1).to_client ≡ u.to_client
    client true u = on_client-to_client r.client_read u
    client false u = refl

    terminal :
        (f : FromTerminal)
        → ((and_then
            (on_terminal f j)
            (if_set (r.client_ready && r.has_data) (on_client r.client_read))).1
          ).to_client
          ≡ j.to_client ++ packet_of f
    terminal (from_terminal p) =
        client (r.client_ready && r.has_data) (record j { to_client = j.to_client ++ p ∷ [] })
    terminal none_there = client (r.client_ready && r.has_data) j ∙ sym (append-nil j.to_client)
    terminal terminal_fails = sym (append-nil j.to_client)

    look :
        (b : Bool)
        → ((and_then
            (if_set b (on_terminal r.terminal_read) j)
            (if_set (r.client_ready && r.has_data) (on_client r.client_read))).1
          ).to_client
          ≡ j.to_client ++ (if b then packet_of r.terminal_read else [])
    look true = terminal r.terminal_read
    look false = client (r.client_ready && r.has_data) j ∙ sym (append-nil j.to_client)

-- What a loop has sent to the client after the rounds it entered, which are all of them if it is
-- still running.
abbrev pub Relayed : List Round → List (List ℕ) → Ending × JumpHost → Type 0
Relayed rounds before (e, j) =
    (entered rest : List Round) × (rounds ≡ entered ++ rest)
    × (j.to_client ≡ before ++ taken_all entered)
    × ((rest ≡ []) ⊎ (e ≡ session_ended) ⊎ (e ≡ aborted))

entered_one :
    (r : Round) (rounds : List Round) (before sent : List (List ℕ)) (o : Ending × JumpHost)
    → sent ≡ before ++ taken r
    → Relayed rounds sent o
    → Relayed (r ∷ rounds) before o
entered_one r rounds before sent (e, j) q (entered, rest, s, all, end) = (
  r ∷ entered,
  rest,
  ap (r ∷◌) s,
  all ∙ ap (λ x. x ++ taken_all entered) q ∙ append_assoc before (taken r) (taken_all entered),
  end,
)

stops :
    (r : Round) (rounds : List Round) (before : List (List ℕ)) (e : Ending) (j : JumpHost)
    → j.to_client ≡ before ++ taken r
    → (e ≡ session_ended) ⊎ (e ≡ aborted)
    → Relayed (r ∷ rounds) before (e, j)
stops r rounds before e j sent end =
    (r ∷ [], rounds, refl, sent ∙ ap (before ++◌) (sym (append-nil (taken r))), inr end)

next-Relayed :
    (r : Round) (rounds : List Round) (before : List (List ℕ)) (o : Flow × JumpHost)
    → ((u : JumpHost) → Relayed rounds u.to_client (loop rounds u))
    → (o.1).to_client ≡ before ++ taken r
    → Relayed (r ∷ rounds) before (next o (loop rounds))
next-Relayed r rounds before (goes_on, j) rest sent =
    entered_one r rounds before j.to_client (loop rounds j) sent (rest j)
next-Relayed r rounds before (skips, j) rest sent =
    entered_one r rounds before j.to_client (loop rounds j) sent (rest j)
next-Relayed r rounds before (breaks, j) rest sent =
    stops r rounds before session_ended j sent (inl refl)
next-Relayed r rounds before (raises, j) rest sent =
    let u : JumpHost = record j { closes = 1 + j.closes } in
    entered_one r rounds before j.to_client (loop rounds u) sent (rest u)
next-Relayed r rounds before (aborts, j) rest sent = stops r rounds before aborted j sent (inr refl)

-- Whatever the client and the terminal do, exceptions included: the packets handed to the client
-- are, in order, the ones from before and all that were read from the terminal in the rounds that
-- the loop entered; and it enters all rounds, unless the session has ended or the process has
-- aborted.
pub loop-Relayed : (rounds : List Round) (j : JumpHost) → Relayed rounds j.to_client (loop rounds j)
unfolding loop
loop-Relayed [] j = ([], [], refl, sym (append-nil j.to_client), inl refl)
loop-Relayed (r ∷ rounds) j =
    stop r.stopped
      (next-Relayed r rounds j.to_client (round r j) (loop-Relayed rounds) (round-to_client r j))
  where
    stop :
        (b : Bool)
        → Relayed (r ∷ rounds) j.to_client (next (round r j) (loop rounds))
        → Relayed
            (r ∷ rounds)
            j.to_client
            (if b then (session_ended, j) else next (round r j) (loop rounds))
    stop true h = ([], r ∷ rounds, refl, sym (append-nil j.to_client), inr (inl refl))
    stop false h = h
