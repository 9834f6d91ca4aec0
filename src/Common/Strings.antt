-- ===== src/Common/Strings.antt =====
-- What the parsers use of std::string: find of one character, with substr as take and drop; and
-- base/Headers.hpp: split, the getline loop.
use Prim.Native.Nat.{ℕ, suc}
use mathlib.Core.Path.{◌≡◌, refl, ap, sym}
use mathlib.Core.Logic.{◌⊎◌, inl, inr}
use mathlib.Core.Bool.{Bool, true, false, not, ◌&&◌}
use mathlib.Core.Option.{Option, none, some}
use mathlib.Core.List.{List, [], ◌∷◌, ◌++◌, append_assoc, append-nil}
use native.Mathlib.Omega.{arith}
use eternal_terminal.Common.Tests.{◌==◌, if◌then◌else◌, Bool-cases, ==_iff}
use eternal_terminal.Common.Lists.{length, is_empty, one_of}

abbrev next_index : Option ℕ → Option ℕ
next_index none = none
next_index (some i) = some (suc i)

-- The first position of a character; none is npos.
unfoldable pub find_char : ℕ → List ℕ → Option ℕ
find_char c [] = none
find_char c (x ∷ s) = let rest = find_char c s in if x == c then some 0 else next_index rest

pub find_char-absent : (c : ℕ) (s : List ℕ) → one_of c s ≡ false → find_char c s ≡ none
unfolding find_char
find_char-absent c [] h = refl
find_char-absent c (x ∷ s) h = ground (arith, find_char-absent c s)

pub find_char-append :
    (c : ℕ) (s t : List ℕ) → one_of c s ≡ false → find_char c (s ++ c ∷ t) ≡ some (length s)
unfolding find_char
find_char-append c [] t h = ground arith
find_char-append c (x ∷ s) t h = ground (arith, find_char-append c s t)

-- A string without the character, or its part before the first one and what follows it.
pub one_of-cases :
    (c : ℕ) (s : List ℕ)
    → (one_of c s ≡ false)
      ⊎ ((before after : List ℕ) × (s ≡ before ++ c ∷ after) × (one_of c before ≡ false))
one_of-cases c [] = inl refl
one_of-cases c (x ∷ s) = elim (Bool-cases (c == x)) [
  | inl e ↦ inr ([], s, ap (λ k. k ∷ s) (sym ((==_iff c x).0 e)), refl)
  | inr e ↦ elim (one_of-cases c s) [
    | inl absent ↦ inl (rw (e, absent) refl)
    | inr (before, after, cut, absent) ↦
        inr (x ∷ before, after, ap (λ k. x ∷ k) cut, rw (e, absent) refl)
  ]
]

-- `std::getline` takes the characters up to the delimiter; a last item with no character ends the
-- loop instead.
split_from : ℕ → List ℕ → List ℕ → List (List ℕ)
split_from delim item [] = if is_empty item then [] else item ∷ []
split_from delim item (c ∷ s) =
    let ended = item ∷ split_from delim [] s in
    let longer = split_from delim (item ++ c ∷ []) s in if c == delim then ended else longer

unfoldable pub split : List ℕ → ℕ → List (List ℕ)
unfolding split_from
split s delim = split_from delim [] s

-- The texts of a list with a character between each two, for what `split` takes apart.
abbrev pub join : List (List ℕ) → ℕ → List ℕ
join [] delim = []
join (p ∷ []) delim = p
join (p ∷ q ∷ ps) delim = p ++ delim ∷ join (q ∷ ps) delim

abbrev pub all {ℓ} : {A : Type ℓ} → (A → Bool) → List A → Bool
all test [] = true
all test (x ∷ xs) = test x && all test xs

-- An item that `split` gives back wherever it stands.
abbrev pub is_item : ℕ → List ℕ → Bool
is_item delim s = not (is_empty s) && not (one_of delim s)

pub and-parts : (a b : Bool) → a && b ≡ true → (a ≡ true) × (b ≡ true)
and-parts true true h = (refl, refl)
and-parts true false h = absurd cc
and-parts false b h = absurd cc

pub not-part : (a : Bool) → not a ≡ true → a ≡ false
not-part true h = absurd cc
not-part false h = refl

pub is_item-parts :
    (delim : ℕ) (s : List ℕ)
    → is_item delim s ≡ true
    → (is_empty s ≡ false) × (one_of delim s ≡ false)
is_item-parts delim s h =
    let (a, b) = and-parts (not (is_empty s)) (not (one_of delim s)) h in
    (not-part (is_empty s) a, not-part (one_of delim s) b)

split_from-part :
    (delim : ℕ) (item p : List ℕ)
    → one_of delim p ≡ false
    → is_empty (item ++ p) ≡ false
    → split_from delim item p ≡ (item ++ p) ∷ []
unfolding split_from
split_from-part delim item [] h ne =
    let e : is_empty item ≡ false = rw (append-nil item) at ne in rw e (rw (append-nil item) refl)
split_from-part delim item (c ∷ p) h ne =
    ground (arith, split_from-part delim (item ++ c ∷ []) p, append_assoc item (c ∷ []) p)

split_from-next :
    (delim : ℕ) (item p rest : List ℕ)
    → one_of delim p ≡ false
    → split_from delim item (p ++ delim ∷ rest) ≡ (item ++ p) ∷ split_from delim [] rest
unfolding split_from
split_from-next delim item [] rest h = rw (append-nil item) (ground arith)
split_from-next delim item (c ∷ p) rest h =
    ground (arith, split_from-next delim (item ++ c ∷ []) p rest, append_assoc item (c ∷ []) p)

pub split-part : (delim : ℕ) (p : List ℕ) → is_item delim p ≡ true → split p delim ≡ p ∷ []
unfolding split
split-part delim p h =
    let (ne, absent) = is_item-parts delim p h in split_from-part delim [] p absent ne

pub split-join :
    (ps : List (List ℕ)) (delim : ℕ)
    → all (is_item delim) ps ≡ true
    → split (join ps delim) delim ≡ ps
unfolding split split_from
split-join [] delim h = refl
split-join (p ∷ []) delim h = split-part delim p (ground (arith, h))
split-join (p ∷ q ∷ ps) delim h =
    let (hp, hps) = and-parts (is_item delim p) (all (is_item delim) (q ∷ ps)) h in
    let (ne, absent) = is_item-parts delim p hp in
    rw (split_from-next delim [] p (join (q ∷ ps) delim) absent)
      (ap (λ r. p ∷ r) (split-join (q ∷ ps) delim hps))
