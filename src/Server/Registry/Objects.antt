-- ===== src/Server/Registry/Objects.antt =====
-- The objects behind the pointers: a list read and updated by position.
use eternal_terminal.Common.{
  ℕ, zero, suc, ◌<◌, ◌≡◌, ◌≢◌, refl, ap, ◌⊎◌, inl, inr, some, List, [], ◌∷◌, ◌++◌, arith, length,
}
use eternal_terminal.Server.{at, put}

module _ {A : Type 0} where
  pub at-lt : (p : ℕ) (xs : List A) {x : A} → at p xs ≡ some x → p < length xs
  at-lt p [] e = absurd cc
  at-lt zero (y ∷ xs) e = omega arith
  at-lt (suc p) (y ∷ xs) e = omega (arith, at-lt p xs e)

  pub lt-at : (p : ℕ) (xs : List A) → p < length xs → (x : A) × (at p xs ≡ some x)
  lt-at p [] h = absurd (omega arith)
  lt-at zero (y ∷ xs) h = (y, refl)
  lt-at (suc p) (y ∷ xs) h = lt-at p xs (omega arith)

  pub length-put : (p : ℕ) (y : A) (xs : List A) → length (put p y xs) ≡ length xs
  length-put p y [] = refl
  length-put zero y (x ∷ xs) = refl
  length-put (suc p) y (x ∷ xs) = ap suc (length-put p y xs)

  pub at-put :
      (p : ℕ) (y : A) (xs : List A) (q : ℕ) (x : A)
      → at q (put p y xs) ≡ some x
      → ((q ≡ p) × (x ≡ y)) ⊎ ((q ≢ p) × (at q xs ≡ some x))
  at-put p y [] q x e = absurd cc
  at-put zero y (z ∷ xs) zero x e = inl (refl, cc)
  at-put zero y (z ∷ xs) (suc q) x e = inr (λ h. omega arith, e)
  at-put (suc p) y (z ∷ xs) zero x e = inr (λ h. omega arith, e)
  at-put (suc p) y (z ∷ xs) (suc q) x e = elim (at-put p y xs q x e) [
    | inl (h, k) ↦ inl (ap suc h, k)
    | inr (h, k) ↦ inr (λ s. h (omega arith), k)
  ]

  pub at_new :
      (y : A) (xs : List A) (q : ℕ) (x : A)
      → at q (xs ++ (y ∷ [])) ≡ some x
      → (at q xs ≡ some x) ⊎ (q ≡ length xs)
  at_new y [] zero x e = inr refl
  at_new y [] (suc q) x e = absurd cc
  at_new y (z ∷ xs) zero x e = inl e
  at_new y (z ∷ xs) (suc q) x e = elim (at_new y xs q x e) [
    | inl h ↦ inl h
    | inr h ↦ inr (ap suc h)
  ]
