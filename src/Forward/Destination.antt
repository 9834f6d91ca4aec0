-- ===== src/Forward/Destination.antt =====
-- createDestination of PortForwardHandler.cpp: a new tunnel never takes over the id of another.
use eternal_terminal.Common.{
  ℕ, ◌+◌, ◌≤◌, ◌<◌, ◌≡◌, ◌≢◌, refl, inl, inr, true, Option, none, some, List, [], ◌∷◌, arith,
  Outcome, ok, throws, fatal, waiting, Bool-cases, ltb, length, ltb→lt, ◌==◌, ==_iff, ◌⊎◌, false,
}
use eternal_terminal.Forward.{Forwarder, free_id, create_destination, with_id, is_absent}
use eternal_terminal.Forward.Table.{lookup, lookup-store, lookup-store_other}

-- What the search for an id can bring.
Free : List (ℕ × ℕ) → Outcome (Option ℕ) → Type 0
Free destinations (ok (some id)) = lookup id destinations ≡ none
Free destinations (ok none) = Unit
Free destinations (throws e) = ⊥
Free destinations fatal = ⊥
Free destinations waiting = Unit

absent-none : (o : Option ℕ) → is_absent o ≡ true → o ≡ none
absent-none none e = refl
absent-none (some fd) e = absurd cc

free_id-Free :
    (attempts : ℕ) (random : List ℕ) (destinations : List (ℕ × ℕ))
    → Free destinations (free_id attempts random destinations)
unfolding free_id Free
free_id-Free attempts [] destinations = tt
free_id-Free attempts (r ∷ random) destinations =
    elim (Bool-cases (is_absent (lookup r destinations))) [
      | inl e ↦ rw e (absent-none (lookup r destinations) e)
      | inr taken ↦ elim (Bool-cases (ltb (attempts + 1) 100000)) [
        | inl more ↦ rw (taken, more) (free_id-Free (attempts + 1) random destinations)
        | inr enough ↦ rw (taken, enough) tt
      ]
    ]

-- The new id was free and finds the new socket, and every other id finds what it found before;
-- with an error, or while the search goes on, nothing has changed.
pub Added : ℕ → Forwarder → Outcome (Option ℕ) × Forwarder → Type 0
Added fd f (ok (some id), f') =
    (lookup id f.destinations ≡ none)
    × (lookup id f'.destinations ≡ some fd)
    × ((other : ℕ) → (id ≡ other) ⊎ (lookup other f'.destinations ≡ lookup other f.destinations))
Added fd f (ok none, f') = f' ≡ f
Added fd f (throws e, f') = ⊥
Added fd f (fatal, f') = ⊥
Added fd f (waiting, f') = f' ≡ f

apart : (a b : ℕ) → (a == b) ≡ false → a ≢ b
apart a b e = ground arith

with_id-Added :
    (fd : ℕ) (f : Forwarder) (found : Outcome (Option ℕ))
    → Free f.destinations found
    → Added fd f (with_id fd found f)
unfolding Free Added
with_id-Added fd f (ok (some id)) h = (
  h,
  lookup-store id fd f.destinations,
  λ other. elim (Bool-cases (id == other)) [
    | inl same ↦ inl ((==_iff id other).0 same)
    | inr differs ↦ inr (lookup-store_other other id fd f.destinations (apart id other differs))
  ],
)
with_id-Added fd f (ok none) h = refl
with_id-Added fd f (throws e) h = h
with_id-Added fd f fatal h = h
with_id-Added fd f waiting h = refl

-- A connected socket gets an id that was free, and no other tunnel loses its own; or the answer
-- is an error and nothing has changed.
pub create_destination-Added :
    (fd : ℕ) (random : List ℕ) (f : Forwarder) → Added fd f (create_destination (some fd) random f)
unfolding create_destination
create_destination-Added fd random f =
    with_id-Added fd f (free_id 0 random f.destinations) (free_id-Free 0 random f.destinations)

-- The search ends: a hundred thousand numbers are enough.
pub free_id-ends :
    (attempts : ℕ) (random : List ℕ) (destinations : List (ℕ × ℕ))
    → attempts < 100000
    → 100000 ≤ attempts + length random
    → free_id attempts random destinations ≢ waiting
unfolding free_id
free_id-ends attempts [] destinations h k = absurd (omega arith)
free_id-ends attempts (r ∷ random) destinations h k =
    elim (Bool-cases (is_absent (lookup r destinations))) [
      | inl e ↦ rw e (λ x. cc)
      | inr taken ↦ elim (Bool-cases (ltb (attempts + 1) 100000)) [
        | inl more ↦
            rw (taken, more)
              (free_id-ends (attempts + 1) random destinations (ltb→lt _ _ more) (omega arith))
        | inr enough ↦ rw (taken, enough) (λ x. cc)
      ]
    ]
