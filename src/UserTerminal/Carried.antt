-- ===== src/UserTerminal/Carried.antt =====
-- What terminal/UserTerminalHandler.cpp does with the input that it reads from the router.
use eternal_terminal.Common.{
  ℕ, Bool, true, false, not, List, [], ◌∷◌, ◌++◌, ◌≡◌, refl, ap, sym, ◌∙◌, if◌then◌else◌, is_empty,
  take, drop, take-append-drop, append_assoc, append-nil, ◌==◌,
}
use eternal_terminal.UserTerminal.{
  FromPty, output, pty_ended, pty_again, pty_failed, FromRouter, terminal_buffer, terminal_info,
  unknown_type, router_ended, router_again, router_failed, proto_failed, ToPty, wrote, full,
  write_failed, Round, UserTerminalHandler, Flow, goes_on, continues, breaks, new_second, on_pty,
  on_router, on_drain, if_set, and_then, reads_pty, reads_router, drain, round, run_user_terminal,
}

-- The input of a message of the router.
abbrev pub input_of : FromRouter → List ℕ
input_of (terminal_buffer s) = s
input_of _ = []

-- The parts up to the router's, after which its message is in the pending input if it was read.
abbrev pub before_router : Round → UserTerminalHandler → Flow × UserTerminalHandler
before_router r u =
    let v = new_second r.second u in if_set (reads_pty r v) (on_pty r.from_pty r.goes_through) v

abbrev pub taken_after : Flow × UserTerminalHandler → Bool → FromRouter → List ℕ
taken_after (goes_on, u) true m = input_of m
taken_after (goes_on, u) false m = []
taken_after (continues, u) router m = []
taken_after (breaks, u) router m = []

-- The input that a round reads from the router.
abbrev pub taken : Round → UserTerminalHandler → List ℕ
taken r u = taken_after (before_router r u) (reads_router r u) r.from_router

abbrev pub taken_all : List Round → UserTerminalHandler → List ℕ
taken_all [] u = []
taken_all (r ∷ rounds) u =
    let rest = taken r u ++ taken_all rounds ((round r u).1) in if u.shutting_down then [] else rest

-- What has gone to the pty and what is to go.
abbrev pub carried : UserTerminalHandler → List ℕ
carried u = u.typed ++ u.pending_input

on_pty-carried :
    (f : FromPty) (goes : Bool) (u : UserTerminalHandler)
    → carried ((on_pty f goes u).1) ≡ carried u
on_pty-carried (output s) true u = refl
on_pty-carried (output s) false u = refl
on_pty-carried pty_ended goes u = refl
on_pty-carried pty_again goes u = refl
on_pty-carried pty_failed goes u = refl

on_router-carried :
    (m : FromRouter) (u : UserTerminalHandler)
    → carried ((on_router m u).1) ≡ carried u ++ input_of m
on_router-carried (terminal_buffer s) u = sym (append_assoc u.typed u.pending_input s)
on_router-carried (terminal_info row column) u = sym (append-nil (carried u))
on_router-carried unknown_type u = sym (append-nil (carried u))
on_router-carried router_ended u = sym (append-nil (carried u))
on_router-carried router_again u = sym (append-nil (carried u))
on_router-carried router_failed u = sym (append-nil (carried u))
on_router-carried proto_failed u = sym (append-nil (carried u))

on_drain-carried : (w : ToPty) (u : UserTerminalHandler) → carried ((on_drain w u).1) ≡ carried u
on_drain-carried (wrote n) u =
    append_assoc u.typed (take n u.pending_input) (drop n u.pending_input)
    ∙ ap (λ l. u.typed ++ l) (take-append-drop n u.pending_input)
on_drain-carried full u = refl
on_drain-carried write_failed u = refl

before_router-carried :
    (r : Round) (u : UserTerminalHandler) → carried ((before_router r u).1) ≡ carried u
before_router-carried r u =
    let v = new_second r.second u in read (reads_pty r v) v ∙ second (r.second == u.last_second)
  where
    second :
        (b : Bool)
        → carried (if b then u else record u { output_per_second = 0; last_second = r.second })
          ≡ carried u
    second true = refl
    second false = refl

    read :
        (b : Bool) (v : UserTerminalHandler)
        → carried ((if_set b (on_pty r.from_pty r.goes_through) v).1) ≡ carried v
    read true v = on_pty-carried r.from_pty r.goes_through v
    read false v = refl

-- The drain at the end of a round.
and_then-drain :
    (r : Round) (p : Flow × UserTerminalHandler)
    → carried ((and_then p (drain r)).1) ≡ carried (p.1)
and_then-drain r (continues, u) = refl
and_then-drain r (breaks, u) = refl
and_then-drain r (goes_on, u) = drained (not (is_empty u.pending_input))
  where
    drained : (b : Bool) → carried ((if_set b (on_drain r.to_pty) u).1) ≡ carried u
    drained true = on_drain-carried r.to_pty u
    drained false = refl

-- The rest of a round after the part that reads the pty.
rest-carried :
    (r : Round) (router : Bool) (p : Flow × UserTerminalHandler)
    → carried ((and_then (and_then p (if_set router (on_router r.from_router))) (drain r)).1)
      ≡ carried (p.1) ++ taken_after p router r.from_router
rest-carried r router (continues, u) = sym (append-nil (carried u))
rest-carried r router (breaks, u) = sym (append-nil (carried u))
rest-carried r true (goes_on, u) =
    and_then-drain r (on_router r.from_router u) ∙ on_router-carried r.from_router u
rest-carried r false (goes_on, u) = and_then-drain r (goes_on, u) ∙ sym (append-nil (carried u))

round-carried :
    (r : Round) (u : UserTerminalHandler) → carried ((round r u).1) ≡ carried u ++ taken r u
unfolding round
round-carried r u =
    rest-carried r (reads_router r u) (before_router r u)
    ∙ ap (λ l. l ++ taken r u) (before_router-carried r u)

-- Whatever the kernel answers in any number of rounds: the bytes written to the pty and those that
-- are pending are, in order, the ones from before and all the input that was read from the router.
-- None is lost, made up or out of order.
pub run_user_terminal-carried :
    (rounds : List Round) (u : UserTerminalHandler)
    → carried (run_user_terminal rounds u) ≡ carried u ++ taken_all rounds u
unfolding run_user_terminal
run_user_terminal-carried [] u = sym (append-nil (carried u))
run_user_terminal-carried (r ∷ rounds) u =
    looks (run_user_terminal-carried rounds ((round r u).1)) u.shutting_down
  where
    looks :
        carried (run_user_terminal rounds ((round r u).1))
          ≡ carried ((round r u).1) ++ taken_all rounds ((round r u).1)
        → (b : Bool)
        → carried (if b then u else run_user_terminal rounds ((round r u).1))
          ≡ carried u ++ (if b then [] else taken r u ++ taken_all rounds ((round r u).1))
    looks rest true = sym (append-nil (carried u))
    looks rest false =
        rest
        ∙ ap (λ l. l ++ taken_all rounds ((round r u).1)) (round-carried r u)
        ∙ append_assoc (carried u) (taken r u) (taken_all rounds ((round r u).1))
