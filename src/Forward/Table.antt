-- ===== src/Forward/Table.antt =====
-- A map from numbers, as an association list: std::unordered_map with find, erase and operator[].
use eternal_terminal.Common.{
  ℕ, ◌≡◌, ◌≢◌, refl, ap, false, Option, none, some, List, [], ◌∷◌, arith, ◌==◌, ==_iff,
  if◌then◌else◌, Bool-cases, inl, inr, eq_false,
}

module _ {A : Type 0} where
  abbrev pub lookup : ℕ → List (ℕ × A) → Option A
  lookup id [] = none
  lookup id ((key, a) ∷ m) = if key == id then some a else lookup id m

  abbrev pub remove : ℕ → List (ℕ × A) → List (ℕ × A)
  remove id [] = []
  remove id ((key, a) ∷ m) = let rest = remove id m in if key == id then rest else ((key, a) ∷ rest)

  -- `m[id] = a`
  abbrev pub store : ℕ → A → List (ℕ × A) → List (ℕ × A)
  store id a m = (id, a) ∷ remove id m

  pub lookup-remove : (id : ℕ) (m : List (ℕ × A)) → lookup id (remove id m) ≡ none
  lookup-remove id [] = refl
  lookup-remove id ((key, a) ∷ m) = elim (Bool-cases (key == id)) [
    | inl e ↦ rw e (lookup-remove id m)
    | inr e ↦ rw e (rw e (lookup-remove id m))
  ]

  pub lookup-remove_other :
      (id other : ℕ) (m : List (ℕ × A)) → other ≢ id → lookup id (remove other m) ≡ lookup id m
  lookup-remove_other id other [] h = refl
  lookup-remove_other id other ((key, a) ∷ m) h = elim (Bool-cases (key == other)) [
    | inl e ↦
        let k : (key == id) ≡ false =
          eq_false key id (λ same. h (omega (arith, (==_iff key other).0 e))) in
        rw (e, k) (lookup-remove_other id other m h)
    | inr e ↦ rw e (ap (λ o. if key == id then some a else o) (lookup-remove_other id other m h))
  ]

  pub lookup-store : (id : ℕ) (a : A) (m : List (ℕ × A)) → lookup id (store id a m) ≡ some a
  lookup-store id a m = ground arith

  pub lookup-store_other :
      (id other : ℕ) (a : A) (m : List (ℕ × A))
      → other ≢ id
      → lookup id (store other a m) ≡ lookup id m
  lookup-store_other id other a m h = rw (eq_false other id h) (lookup-remove_other id other m h)
