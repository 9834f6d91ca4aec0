-- ===== src/Common/Maps.antt =====
-- A map from strings (lists of bytes), as an association list: std::unordered_map with find,
-- erase and operator[] as an assignment.
use Prim.Native.Nat.{ℕ}
use mathlib.Core.Path.{◌≡◌, refl, ap, sym, ◌∙◌}
use mathlib.Core.Logic.{◌≢◌, inl, inr}
use eternal_terminal.Common.Tests.{◌==◌, if◌then◌else◌, Bool-cases}
use mathlib.Core.Bool.{Bool, true, false, ◌&&◌}
use mathlib.Core.Option.{Option, none, some}
use mathlib.Core.List.{List, [], ◌∷◌}
use native.Mathlib.Omega.{arith}

-- Equality of strings.
abbrev pub same : List ℕ → List ℕ → Bool
same [] [] = true
same [] (b ∷ bs) = false
same (a ∷ as₁) [] = false
same (a ∷ as₁) (b ∷ bs) = a == b && same as₁ bs

pub same_refl : (a : List ℕ) → same a a ≡ true
same_refl [] = refl
same_refl (x ∷ a) = ground (arith, same_refl a)

pub same-eq : (a b : List ℕ) → same a b ≡ true → a ≡ b
same-eq [] [] h = refl
same-eq [] (y ∷ b) h = absurd cc
same-eq (x ∷ a) [] h = absurd cc
same-eq (x ∷ a) (y ∷ b) h = ground (arith, same-eq a b)

pub same-sym : (a b : List ℕ) → same a b ≡ same b a
same-sym [] [] = refl
same-sym [] (y ∷ b) = refl
same-sym (x ∷ a) [] = refl
same-sym (x ∷ a) (y ∷ b) = ground (arith, same-sym a b)

pub same-false : (a b : List ℕ) → a ≢ b → same a b ≡ false
same-false a b h = elim (Bool-cases (same a b)) [ inl e ↦ absurd (h (same-eq a b e)) | inr e ↦ e ]

module _ {ℓ} {A : Type ℓ} where
  abbrev pub find : List ℕ → List (List ℕ × A) → Option A
  find id [] = none
  find id ((key, a) ∷ m) = if same key id then some a else find id m

  abbrev pub erase : List ℕ → List (List ℕ × A) → List (List ℕ × A)
  erase id [] = []
  erase id ((key, a) ∷ m) = let rest = erase id m in if same key id then rest else ((key, a) ∷ rest)

  -- `m[id] = a`
  abbrev pub assign : List ℕ → A → List (List ℕ × A) → List (List ℕ × A)
  assign id a m = (id, a) ∷ erase id m

  pub find-erase : (id : List ℕ) (m : List (List ℕ × A)) → find id (erase id m) ≡ none
  find-erase id [] = refl
  find-erase id ((key, a) ∷ m) = elim (Bool-cases (same key id)) [
    | inl e ↦ rw e (find-erase id m)
    | inr e ↦ rw e (rw e (find-erase id m))
  ]

  pub erase_absent : (id : List ℕ) (m : List (List ℕ × A)) → find id m ≡ none → erase id m ≡ m
  erase_absent id [] h = refl
  erase_absent id ((key, a) ∷ m) h = elim (Bool-cases (same key id)) [
    | inl e ↦ absurd (found e h)
    | inr e ↦ rw e (ap (λ l. (key, a) ∷ l) (erase_absent id m (rw e at h)))
  ]
    where
      found : same key id ≡ true → find id ((key, a) ∷ m) ≢ none
      found e f = ground (arith, e, f)

  pub find-erase_other :
      (id other : List ℕ) (m : List (List ℕ × A))
      → same other id ≡ false
      → find id (erase other m) ≡ find id m
  find-erase_other id other [] h = refl
  find-erase_other id other ((key, a) ∷ m) h = elim (Bool-cases (same key other)) [
    | inl e ↦
        let e' : same key id ≡ false = ap (λ k. same k id) (same-eq key other e) ∙ h in
        rw (e, e') (find-erase_other id other m h)
    | inr e ↦ rw e (ap (λ o. if same key id then some a else o) (find-erase_other id other m h))
  ]

  pub find-assign : (id : List ℕ) (a : A) (m : List (List ℕ × A)) → find id (assign id a m) ≡ some a
  find-assign id a m = rw (same_refl id) refl

  pub find-assign_other :
      (id other : List ℕ) (a : A) (m : List (List ℕ × A))
      → same other id ≡ false
      → find id (assign other a m) ≡ find id m
  find-assign_other id other a m h = rw h (find-erase_other id other m h)

  -- What is found after an erasure was there before, under another name.
  pub found_erased :
      (id other : List ℕ) (m : List (List ℕ × A)) {a : A}
      → find id (erase other m) ≡ some a
      → (same other id ≡ false) × (find id m ≡ some a)
  found_erased id other m e = elim (Bool-cases (same other id)) [
    | inl s ↦ absurd (gone id other m s e)
    | inr s ↦ (s, sym (find-erase_other id other m s) ∙ e)
  ]
    where
      gone :
          (id other : List ℕ) (m : List (List ℕ × A)) {a : A}
          → same other id ≡ true
          → find id (erase other m) ≢ some a
      gone id other m s e =
          let e' : other ≡ id = same-eq other id s in
          cc (sym (find-erase id m) ∙ ap (λ k. find id (erase k m)) (sym e') ∙ e)
