-- ===== src/Htm/Children.antt =====
-- The vectors of children of htm/MultiplexerState.cpp under the loops of newSplit and
-- closePane.
use eternal_terminal.Common.{
  ℕ, zero, suc, ◌<◌, Bool, true, false, ◌||◌, some, List, [], ◌∷◌, ◌++◌, ◌≡◌, refl, ap, ◌∙◌, inl,
  inr, arith, length, same, same_refl, same-eq, Bool-cases,
}
use eternal_terminal.Htm.{Uuid, ok, listed}
use eternal_terminal.Htm.Splitting.{replace_in, replace_child}
use eternal_terminal.Htm.Closing.{index_from, erase_at}

pub listed-append :
    (id : Uuid) (cs ds : List Uuid) → listed id cs ≡ true → listed id (cs ++ ds) ≡ true
listed-append id [] ds h = absurd cc
listed-append id (c ∷ cs) ds h = ground (arith, listed-append id cs ds)

pub listed_last : (id : Uuid) (cs : List Uuid) → listed id (cs ++ id ∷ []) ≡ true
listed_last id [] = rw (same_refl id) refl
listed_last id (c ∷ cs) = ground (arith, listed_last id cs)

-- What replacing a child that is there does.
abbrev pub Replaced : Uuid → Uuid → List Uuid → List Uuid → Type 0
Replaced old new cs cs' =
    (length cs' ≡ length cs)
    × (listed new cs' ≡ true)
    × ((id : Uuid) → same old id ≡ false → listed id cs ≡ true → listed id cs' ≡ true)

or-right : (a b : Bool) → a ≡ false → a || b ≡ true → b ≡ true
or-right true b h h' = absurd cc
or-right false b h h' = h'

or-true : (a b : Bool) → b ≡ true → a || b ≡ true
or-true true b h = refl
or-true false b h = h

-- A first child stays, and so does what the rest keeps.
kept :
    (c id : Uuid) (cs cs' : List Uuid)
    → (listed id cs ≡ true → listed id cs' ≡ true)
    → listed id (c ∷ cs) ≡ true
    → listed id (c ∷ cs') ≡ true
kept c id cs cs' keeps l = elim (Bool-cases (same c id)) [
  | inl s ↦ rw s refl
  | inr s ↦ or-true (same c id) (listed id cs') (keeps (or-right (same c id) (listed id cs) s l))
]

replace_in-Replaced :
    (old new : Uuid) (cs : List Uuid)
    → listed old cs ≡ true
    → (cs' : List Uuid) × (replace_in old new cs ≡ ok cs') × Replaced old new cs cs'
replace_in-Replaced old new [] h = absurd cc
replace_in-Replaced old new (c ∷ cs) h = elim (Bool-cases (same c old)) [
  | inl e ↦ (
    new ∷ cs,
    rw e refl,
    (
      refl,
      rw (same_refl new) refl,
      λ id other l.
          let d : same c id ≡ false = ap (λ k. same k id) (same-eq c old e) ∙ other in
          or-true (same new id) (listed id cs) (or-right (same c id) (listed id cs) d l),
    ),
  )
  | inr e ↦
      let (cs', made, (size, has, keeps)) =
        replace_in-Replaced old new cs (or-right (same c old) (listed old cs) e h) in
      (
        c ∷ cs',
        rw (e, made) refl,
        (
          ap suc size,
          or-true (same c new) (listed new cs') has,
          λ id other l. kept c id cs cs' (keeps id other) l,
        ),
      )
]

pub replace_child-Replaced :
    (old new : Uuid) (cs : List Uuid)
    → listed old cs ≡ true
    → (cs' : List Uuid) × (replace_child old new cs ≡ ok cs') × Replaced old new cs cs'
replace_child-Replaced old new [] h = absurd cc
replace_child-Replaced old new (c ∷ cs) h = replace_in-Replaced old new (c ∷ cs) h

-- What taking a child out does.
abbrev pub Removed : Uuid → List Uuid → List Uuid → Type 0
Removed gone cs cs' =
    (suc (length cs') ≡ length cs)
    × ((id : Uuid) → same gone id ≡ false → listed id cs ≡ true → listed id cs' ≡ true)
    × ((id : Uuid) → listed id cs' ≡ true → listed id cs ≡ true)

pub index_from-Removed :
    (gone : Uuid) (cs : List Uuid)
    → listed gone cs ≡ true
    → (a : ℕ) × (cs' : List Uuid) × (index_from gone cs ≡ some a)
      × (a < length cs)
      × (erase_at a cs ≡ ok cs')
      × Removed gone cs cs'
index_from-Removed gone [] h = absurd cc
index_from-Removed gone (c ∷ cs) h = elim (Bool-cases (same c gone)) [
  | inl e ↦ (
    0,
    cs,
    rw e refl,
    omega arith,
    refl,
    (
      refl,
      λ id other l.
          let d : same c id ≡ false = ap (λ k. same k id) (same-eq c gone e) ∙ other in
          or-right (same c id) (listed id cs) d l,
      λ id l. or-true (same c id) (listed id cs) l,
    ),
  )
  | inr e ↦
      let (a, cs', at, below, made, (size, keeps, back)) =
        index_from-Removed gone cs (or-right (same c gone) (listed gone cs) e h) in
      (
        suc a,
        c ∷ cs',
        rw (e, at) refl,
        omega (arith, below),
        rw made refl,
        (
          ap suc size,
          λ id other l. kept c id cs cs' (keeps id other) l,
          λ id l. kept c id cs' cs (back id) l,
        ),
      )
]

pub erase_at-ok :
    {A : Type 0} (a : ℕ) (xs : List A)
    → a < length xs
    → (rest : List A) × (erase_at a xs ≡ ok rest) × (suc (length rest) ≡ length xs)
erase_at-ok a [] h = absurd (omega arith)
erase_at-ok zero (x ∷ xs) h = (xs, refl, refl)
erase_at-ok (suc a) (x ∷ xs) h =
    let (rest, made, size) = erase_at-ok a xs (omega arith) in (x ∷ rest, rw made refl, ap suc size)
