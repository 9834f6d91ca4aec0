-- ===== src/UserTerminal/Limited.antt =====
-- The limit of the pending input of terminal/UserTerminalHandler.cpp.
use eternal_terminal.Common.{
  ℕ, ◌+◌, ◌≤◌, ◌<◌, Bool, true, false, not, ◌&&◌, List, [], ◌∷◌, ◌≡◌, refl, ◌∙◌, arith,
  if◌then◌else◌, is_empty, length, length-append, length-drop, ltb, ltb→lt, ◌==◌, leb, leb→le,
  and-parts,
}
use eternal_terminal.UserTerminal.{
  FromPty, output, pty_ended, pty_again, pty_failed, FromRouter, terminal_buffer, terminal_info,
  unknown_type, router_ended, router_again, router_failed, proto_failed, ToPty, wrote, full,
  write_failed, Round, UserTerminalHandler, max_pending_input, Flow, goes_on, continues, breaks,
  new_second, on_pty, on_router, on_drain, if_set, and_then, reads_pty, reads_router, drain, round,
  run_user_terminal,
}
use eternal_terminal.UserTerminal.Carried.{input_of, before_router}

-- The bound that one message more makes.
abbrev pub limit : ℕ → ℕ
limit m = max_pending_input + m

-- Whether no message of the rounds holds more than `m` bytes of input.
abbrev pub messages_fit : ℕ → List Round → Bool
messages_fit m [] = true
messages_fit m (r ∷ rounds) = leb (length (input_of r.from_router)) m && messages_fit m rounds

abbrev held : UserTerminalHandler → ℕ
held u = length u.pending_input

on_pty-held :
    (f : FromPty) (goes : Bool) (u : UserTerminalHandler) → held ((on_pty f goes u).1) ≡ held u
on_pty-held (output s) true u = refl
on_pty-held (output s) false u = refl
on_pty-held pty_ended goes u = refl
on_pty-held pty_again goes u = refl
on_pty-held pty_failed goes u = refl

on_router-held :
    (m : FromRouter) (u : UserTerminalHandler)
    → held ((on_router m u).1) ≡ held u + length (input_of m)
on_router-held (terminal_buffer s) u = length-append u.pending_input s
on_router-held (terminal_info row column) u = omega arith
on_router-held unknown_type u = omega arith
on_router-held router_ended u = omega arith
on_router-held router_again u = omega arith
on_router-held router_failed u = omega arith
on_router-held proto_failed u = omega arith

on_drain-held : (w : ToPty) (u : UserTerminalHandler) → held ((on_drain w u).1) ≤ held u
on_drain-held (wrote n) u = omega (arith, length-drop n u.pending_input)
on_drain-held full u = omega arith
on_drain-held write_failed u = omega arith

before_router-held : (r : Round) (u : UserTerminalHandler) → held ((before_router r u).1) ≡ held u
before_router-held r u =
    let v = new_second r.second u in read (reads_pty r v) v ∙ second (r.second == u.last_second)
  where
    second :
        (b : Bool)
        → held (if b then u else record u { output_per_second = 0; last_second = r.second })
          ≡ held u
    second true = refl
    second false = refl

    read :
        (b : Bool) (v : UserTerminalHandler)
        → held ((if_set b (on_pty r.from_pty r.goes_through) v).1) ≡ held v
    read true v = on_pty-held r.from_pty r.goes_through v
    read false v = refl

and_then-held :
    (r : Round) (p : Flow × UserTerminalHandler) → held ((and_then p (drain r)).1) ≤ held (p.1)
and_then-held r (continues, u) = omega arith
and_then-held r (breaks, u) = omega arith
and_then-held r (goes_on, u) = drained (not (is_empty u.pending_input))
  where
    drained : (b : Bool) → held ((if_set b (on_drain r.to_pty) u).1) ≤ held u
    drained true = on_drain-held r.to_pty u
    drained false = omega arith

-- The message is read only below the limit.
rest-held :
    (r : Round) (router : Bool) (p : Flow × UserTerminalHandler) (m : ℕ)
    → length (input_of r.from_router) ≤ m
    → (router ≡ true → held (p.1) < max_pending_input)
    → held (p.1) ≤ limit m
    → held ((and_then (and_then p (if_set router (on_router r.from_router))) (drain r)).1) ≤ limit m
rest-held r router (continues, u) m fits below h = h
rest-held r router (breaks, u) m fits below h = h
rest-held r true (goes_on, u) m fits below h = omega (
  arith,
  and_then-held r (on_router r.from_router u),
  on_router-held r.from_router u,
  below refl,
  fits,
)
rest-held r false (goes_on, u) m fits below h = omega (arith, and_then-held r (goes_on, u), h)

round-held :
    (r : Round) (u : UserTerminalHandler) (m : ℕ)
    → length (input_of r.from_router) ≤ m
    → held u ≤ limit m
    → held ((round r u).1) ≤ limit m
unfolding round
round-held r u m fits h =
    rest-held r (reads_router r u) (before_router r u) m fits
      (λ e. omega (
        arith,
        before_router-held r u,
        ltb→lt (held u) max_pending_input
            ((and-parts r.router_ready (ltb (held u) max_pending_input) e).1),
      ))
      (omega (arith, before_router-held r u, h))

-- When no message of the router holds more than `m` bytes of input, at most 256 KB and `m` bytes
-- are ever pending, if so at the start: a full buffer stops the reads of the router.
pub run_user_terminal-limit :
    (rounds : List Round) (u : UserTerminalHandler) (m : ℕ)
    → messages_fit m rounds ≡ true
    → length u.pending_input ≤ limit m
    → length (run_user_terminal rounds u).pending_input ≤ limit m
unfolding run_user_terminal
run_user_terminal-limit [] u m fit h = h
run_user_terminal-limit (r ∷ rounds) u m fit h =
    let (fits, rest) =
      and-parts (leb (length (input_of r.from_router)) m) (messages_fit m rounds) fit in
    looks u.shutting_down (
      run_user_terminal-limit rounds ((round r u).1) m rest
        (round-held r u m (leb→le (length (input_of r.from_router)) m fits) h))
  where
    looks :
        (b : Bool)
        → held (run_user_terminal rounds ((round r u).1)) ≤ limit m
        → held (if b then u else run_user_terminal rounds ((round r u).1)) ≤ limit m
    looks true rest = h
    looks false rest = rest
