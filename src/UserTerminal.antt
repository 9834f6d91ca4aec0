-- ===== src/UserTerminal.antt =====
-- src/terminal/UserTerminalHandler.cpp: the loop of runUserTerminal between the pty and the router.
pub mod Carried
pub mod Limited
use eternal_terminal.Common.{
  ℕ, ◌+◌, ◌*◌, Bool, true, false, not, ◌&&◌, ◌||◌, List, [], ◌∷◌, ◌++◌, ◌==◌, if◌then◌else◌,
  is_empty, length, take, drop, ltb,
}

-- What a `read` of the pty brings, at most 16 KB of it.
pub data FromPty : Type 0 where
  output : List ℕ → FromPty
  pty_ended pty_again pty_failed : FromPty

-- A message of the router, or what the read of one fails with. A type that the switch does not know
-- does nothing.
pub data FromRouter : Type 0 where
  terminal_buffer : List ℕ → FromRouter
  terminal_info : ℕ → ℕ → FromRouter
  unknown_type router_ended router_again router_failed proto_failed : FromRouter

-- What a `write` to the pty says.
pub data ToPty : Type 0 where
  wrote : ℕ → ToPty
  full write_failed : ToPty

-- What the kernel answers in one round: the time, isSocketWritable and select, the reads, whether
-- the write to the router goes through, and the write.
pub record Round : Type 0 where
  pub second : ℕ
  pub router_writable : Bool
  pub pty_ready : Bool
  pub router_ready : Bool
  pub from_pty : FromPty
  pub goes_through : Bool
  pub from_router : FromRouter
  pub to_pty : ToPty

-- `to_router` and `typed` are the bytes written so far; `sizes` the window sizes set, the latest
-- first; `ended` counts handleSessionEnd.
pub record UserTerminalHandler : Type 0 where
  pub noratelimit : Bool
  pub shutting_down : Bool
  pub last_second : ℕ
  pub output_per_second : ℕ
  pub pending_input : List ℕ
  pub to_router : List ℕ
  pub typed : List ℕ
  pub sizes : List (ℕ × ℕ)
  pub ended : ℕ

abbrev pub max_pending_input : ℕ
max_pending_input = 256 * 1024

-- How a part of the round goes on: to the next part, to the next round, or out of the loop.
pub data Flow : Type 0 where
  goes_on continues breaks : Flow

abbrev pub newlines : List ℕ → ℕ
newlines [] = 0
newlines (c ∷ s) = let rest = newlines s in if c == b'\n' then 1 + rest else rest

abbrev pub shut : UserTerminalHandler → Flow × UserTerminalHandler
shut u = (breaks, record u { shutting_down = true })

abbrev pub session_end : UserTerminalHandler → Flow × UserTerminalHandler
session_end u = (breaks, record u { shutting_down = true; ended = 1 + u.ended })

abbrev pub new_second : ℕ → UserTerminalHandler → UserTerminalHandler
new_second second u =
    if second == u.last_second then u else record u { output_per_second = 0; last_second = second }

-- The part that reads the pty.
abbrev pub on_pty : FromPty → Bool → UserTerminalHandler → Flow × UserTerminalHandler
on_pty (output s) true u = (
  goes_on,
  record u { output_per_second = u.output_per_second + newlines s; to_router = u.to_router ++ s },
)
on_pty (output s) false u = shut (record u { output_per_second = u.output_per_second + newlines s })
on_pty pty_ended goes u = session_end u
on_pty pty_again goes u = (continues, u)
on_pty pty_failed goes u = session_end u

-- The part that reads the router.
abbrev pub on_router : FromRouter → UserTerminalHandler → Flow × UserTerminalHandler
on_router (terminal_buffer s) u = (goes_on, record u { pending_input = u.pending_input ++ s })
on_router (terminal_info row column) u = (goes_on, record u { sizes = (row, column) ∷ u.sizes })
on_router unknown_type u = (goes_on, u)
on_router router_ended u = shut u
on_router router_again u = (continues, u)
on_router router_failed u = shut u
on_router proto_failed u = shut u

-- The part that drains the pending input; a short write leaves the rest.
abbrev pub on_drain : ToPty → UserTerminalHandler → Flow × UserTerminalHandler
on_drain (wrote n) u = (
  goes_on,
  record u { typed = u.typed ++ take n u.pending_input; pending_input = drop n u.pending_input },
)
on_drain full u = (goes_on, u)
on_drain write_failed u = session_end u

abbrev pub if_set :
    Bool
    → (UserTerminalHandler → Flow × UserTerminalHandler)
    → UserTerminalHandler
    → Flow × UserTerminalHandler
if_set true part u = part u
if_set false part u = (goes_on, u)

abbrev pub and_then :
    Flow × UserTerminalHandler
    → (UserTerminalHandler → Flow × UserTerminalHandler)
    → Flow × UserTerminalHandler
and_then (goes_on, u) part = part u
and_then (continues, u) part = (continues, u)
and_then (breaks, u) part = (breaks, u)

abbrev pub reads_pty : Round → UserTerminalHandler → Bool
reads_pty r u =
    r.router_writable && (r.pty_ready && (u.noratelimit || ltb u.output_per_second 1024))

-- The router is in the set for select only while the pending input is below its limit, which the
-- start of the round decides.
abbrev pub reads_router : Round → UserTerminalHandler → Bool
reads_router r u = r.router_ready && ltb (length u.pending_input) max_pending_input

abbrev pub drain : Round → UserTerminalHandler → Flow × UserTerminalHandler
drain r u = if_set (not (is_empty u.pending_input)) (on_drain r.to_pty) u

-- One round of the loop.
unfoldable pub round : Round → UserTerminalHandler → Flow × UserTerminalHandler
round r u =
    let router = reads_router r u in
    let v = new_second r.second u in
    and_then
      (and_then (if_set (reads_pty r v) (on_pty r.from_pty r.goes_through) v)
        (if_set router (on_router r.from_router)))
      (drain r)

-- The loop, which looks at `shutting_down` first.
unfoldable pub run_user_terminal : List Round → UserTerminalHandler → UserTerminalHandler
run_user_terminal [] u = u
run_user_terminal (r ∷ rounds) u =
    let next = run_user_terminal rounds ((round r u).1) in if u.shutting_down then u else next
