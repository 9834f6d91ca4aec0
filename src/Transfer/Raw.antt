-- ===== src/Transfer/Raw.antt =====
-- src/base/RawSocketUtils.cpp: the same transfers on a plain descriptor, without a time limit.
use eternal_terminal.Common.{
  ℕ, zero, suc, ◌-◌, ◌≡◌, refl, ap, ◌∙◌, false, not, ◌&&◌, ◌||◌, Option, none, some, List, [], ◌∷◌,
  ◌++◌, arith, take, drop, length, Outcome, ok, throws, waiting, runtime_error, ◌==◌, leb,
  if◌then◌else◌, continue,
}
use eternal_terminal.Connection.{eagain}
use eternal_terminal.Transfer.{
  Incoming, not_ready, holds, read_fails, keep, read_all, Outgoing, timed_out, room, write_fails,
  write_all_or_throw, etimedout,
}

-- The loop of `RawSocketUtils::readAll`; nobody looks at the clock.
unfoldable pub raw_read_loop : ℕ → List Incoming → Outcome (List ℕ) × List Incoming
raw_read_loop zero script = (ok [], script)
raw_read_loop (suc n) [] = (waiting, [])
raw_read_loop (suc n) (not_ready past_limit ∷ script) = raw_read_loop (suc n) script
raw_read_loop (suc n) (read_fails e ∷ script) =
    let rest = raw_read_loop (suc n) script in
    if e == eagain then rest else (throws runtime_error, script)
raw_read_loop (suc n) (holds [] ∷ script) = (throws runtime_error, script)
raw_read_loop (suc n) (holds (b ∷ bs) ∷ script) =
    let rest = raw_read_loop (suc n - length (b ∷ bs)) script in
    if leb (suc n) (length (b ∷ bs))
    then (ok (take (suc n) (b ∷ bs)), keep (drop (suc n) (b ∷ bs)) script)
    else (continue rest.0 rest.1 λ more. (ok ((b ∷ bs) ++ more), rest.1))

-- A descriptor below 0 is none.
unfoldable pub raw_read_all : Option ℕ → ℕ → List Incoming → Outcome (List ℕ) × List Incoming
raw_read_all none n script = (throws runtime_error, script)
raw_read_all (some fd) n script = raw_read_loop n script

unfoldable pub raw_write_loop : List ℕ → List Outgoing → Outcome (Unit {0}) × List ℕ
raw_write_loop [] script = (ok tt, [])
raw_write_loop (b ∷ bs) [] = (waiting, [])
raw_write_loop (b ∷ bs) (timed_out ∷ script) = raw_write_loop (b ∷ bs) script
raw_write_loop (b ∷ bs) (write_fails e ∷ script) =
    let rest = raw_write_loop (b ∷ bs) script in
    if e == eagain then rest else (throws runtime_error, [])
raw_write_loop (b ∷ bs) (room zero ∷ script) = (throws runtime_error, [])
raw_write_loop (b ∷ bs) (room (suc n) ∷ script) =
    let rest = raw_write_loop (drop n bs) script in (rest.0, (b ∷ take n bs) ++ rest.1)

unfoldable pub raw_write_all : Option ℕ → List ℕ → List Outgoing → Outcome (Unit {0}) × List ℕ
raw_write_all none bytes script = (throws runtime_error, [])
raw_write_all (some fd) bytes script = raw_write_loop bytes script

read_loop-read_all :
    (n : ℕ) (script : List Incoming) → raw_read_loop n script ≡ read_all false n script
unfolding raw_read_loop read_all
read_loop-read_all zero script = refl
read_loop-read_all (suc n) [] = refl
read_loop-read_all (suc n) (not_ready past_limit ∷ script) = read_loop-read_all (suc n) script
read_loop-read_all (suc n) (read_fails e ∷ script) =
    ap (λ out. if e == eagain then out else (throws runtime_error, script))
      (read_loop-read_all (suc n) script)
read_loop-read_all (suc n) (holds [] ∷ script) = refl
read_loop-read_all (suc n) (holds (b ∷ bs) ∷ script) =
    ap
      (λ (out : Outcome (List ℕ) × List Incoming).
        if leb (suc n) (length (b ∷ bs))
        then (ok (take (suc n) (b ∷ bs)), keep (drop (suc n) (b ∷ bs)) script)
        else (continue out.0 out.1 λ more. (ok ((b ∷ bs) ++ more), out.1)))
      (read_loop-read_all (suc n - length (b ∷ bs)) script)

-- On an open descriptor the raw read is the socket handler's read without a time limit.
pub raw_read_all-read_all :
    (fd n : ℕ) (script : List Incoming) → raw_read_all (some fd) n script ≡ read_all false n script
unfolding raw_read_all
raw_read_all-read_all fd n script = read_loop-read_all n script

-- No limit passes and no errno says so.
abbrev pub InTime : List Outgoing → Type 0
InTime [] = Unit {0}
InTime (timed_out ∷ script) = InTime script
InTime (write_fails e ∷ script) = ((e == etimedout) ≡ false) × InTime script
InTime (room n ∷ script) = InTime script

write_loop-write_all :
    (bytes : List ℕ) (script : List Outgoing)
    → InTime script
    → raw_write_loop bytes script ≡ write_all_or_throw false bytes script
unfolding raw_write_loop write_all_or_throw
write_loop-write_all [] script h = refl
write_loop-write_all (b ∷ bs) [] h = refl
write_loop-write_all (b ∷ bs) (timed_out ∷ script) h = write_loop-write_all (b ∷ bs) script h
write_loop-write_all (b ∷ bs) (write_fails e ∷ script) (other, h) =
    ap (λ out. if e == eagain then out else (throws runtime_error, []))
      (write_loop-write_all (b ∷ bs) script h)
    ∙ ap
        (λ again.
          if again then write_all_or_throw false (b ∷ bs) script else (throws runtime_error, []))
        (same_test e other)
  where
    same_test :
        (e : ℕ)
        → (e == etimedout) ≡ false
        → (e == eagain) ≡ (e == eagain || (not false && e == etimedout))
    same_test e other = ground (arith, other)
write_loop-write_all (b ∷ bs) (room zero ∷ script) h = refl
write_loop-write_all (b ∷ bs) (room (suc n) ∷ script) h =
    ap (λ (out : Outcome (Unit {0}) × List ℕ). (out.0, (b ∷ take n bs) ++ out.1))
      (write_loop-write_all (drop n bs) script h)

-- Where no errno says that a time limit has passed, the raw write on an open descriptor is the
-- socket handler's write without a time limit.
pub raw_write_all-write_all :
    (fd : ℕ) (bytes : List ℕ) (script : List Outgoing)
    → InTime script
    → raw_write_all (some fd) bytes script ≡ write_all_or_throw false bytes script
unfolding raw_write_all
raw_write_all-write_all fd bytes script h = write_loop-write_all bytes script h
