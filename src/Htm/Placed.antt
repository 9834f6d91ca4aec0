-- ===== src/Htm/Placed.antt =====
-- The links between the tabs, the splits and the panes of htm/MultiplexerState.cpp: a child is in
-- the parent that it names, and how changes of the maps keep it so.
use eternal_terminal.Common.{
  true, false, none, some, List, ◌∷◌, ◌≡◌, ◌≢◌, ap, sym, ◌∙◌, subst, ◌⊎◌, inl, inr, same, same-eq,
  find, erase, assign, find-erase, find-assign, find-assign_other, erase_absent, Bool-cases,
  find-erase_other,
}
use eternal_terminal.Htm.{Uuid, Pane, Split, Tab, listed, insert}

module _ {A : Type 0} where
  pub found_assigned :
      (id key : Uuid) (a : A) (m : List (Uuid × A)) {b : A}
      → find id (assign key a m) ≡ some b
      → ((id ≡ key) × (b ≡ a)) ⊎ ((same key id ≡ false) × (find id m ≡ some b))
  found_assigned id key a m {b} e = elim (Bool-cases (same key id)) [
    | inl s ↦ inl (sym (same-eq key id s), sym (some_inj (rw s at e)))
    | inr s ↦ inr (s, sym (find-assign_other id key a m s) ∙ e)
  ]
    where
      some_inj : {a b : A} → some a ≡ some b → a ≡ b
      some_inj e = cc

  pub insert_absent :
      (id : Uuid) (a : A) (m : List (Uuid × A)) → find id m ≡ none → insert id a m ≡ assign id a m
  insert_absent id a m e = rw (insert, e) (ap (λ l. (id, a) ∷ l) (sym (erase_absent id m e)))

  -- An entry that was made and then changed.
  pub found_reassigned :
      (id key : Uuid) (a a' : A) (m : List (Uuid × A)) {b : A}
      → find id (assign key a (assign key a' m)) ≡ some b
      → ((id ≡ key) × (b ≡ a)) ⊎ ((same key id ≡ false) × (find id m ≡ some b))
  found_reassigned id key a a' m e = elim (found_assigned id key a (assign key a' m) e) [
    | inl h ↦ inl h
    | inr (other, f) ↦ inr (other, sym (find-assign_other id key a' m other) ∙ f)
  ]

  pub absent_assigned :
      (id key : Uuid) (a : A) (m : List (Uuid × A))
      → same key id ≡ false
      → find id m ≡ none
      → find id (assign key a m) ≡ none
  absent_assigned id key a m other e = find-assign_other id key a m other ∙ e

  pub absent_changed :
      (id key : Uuid) (a : A) (m : List (Uuid × A)) {old : A}
      → find key m ≡ some old
      → find id m ≡ none
      → find id (assign key a m) ≡ none
  absent_changed id key a m f e = elim (Bool-cases (same key id)) [
    | inl s ↦ absurd (cc (same-eq key id s, e, f))
    | inr s ↦ absent_assigned id key a m s e
  ]

  pub differ :
      (id key : Uuid) (m : List (Uuid × A)) {a : A}
      → find key m ≡ none
      → find id m ≡ some a
      → same key id ≡ false
  differ id key m e f = elim (Bool-cases (same key id)) [
    | inl s ↦ absurd (cc (same-eq key id s, e, f))
    | inr s ↦ s
  ]

  pub absent_erased :
      (id key : Uuid) (m : List (Uuid × A)) → find id m ≡ none → find id (erase key m) ≡ none
  absent_erased id key m e = elim (Bool-cases (same key id)) [
    | inl s ↦ ap (λ k. find k (erase key m)) (sym (same-eq key id s)) ∙ find-erase key m
    | inr s ↦ find-erase_other id key m s ∙ e
  ]

  pub found_same :
      (id : Uuid) (m : List (Uuid × A)) {a b : A} → find id m ≡ some a → find id m ≡ some b → a ≡ b
  found_same id m e f = cc

  pub absent-found :
      (id : Uuid) (m : List (Uuid × A)) {a : A} → find id m ≡ none → find id m ≢ some a
  absent-found id m e f = cc

module _ {F : Type 0} where
  -- The parent is a tab that shows the child, or a split that has it.
  abbrev pub HasParent : List (Uuid × Tab) → List (Uuid × Split F) → Uuid → Uuid → Type 0
  HasParent tabs splits parent id =
      ((t : Tab) × (find parent tabs ≡ some t) × (t.pane_or_split_id ≡ id))
      ⊎ ((sp : Split F) × (find parent splits ≡ some sp) × (listed id sp.panes_or_splits ≡ true))

  -- A split changed, and kept the child if it was its parent.
  pub HasParent-assign_split :
      (tabs : List (Uuid × Tab)) (splits : List (Uuid × Split F)) (parent id key : Uuid)
      → (new : Split F)
      → ((old : Split F)
          → find key splits ≡ some old
          → listed id old.panes_or_splits ≡ true
          → listed id new.panes_or_splits ≡ true)
      → HasParent tabs splits parent id
      → HasParent tabs (assign key new splits) parent id
  HasParent-assign_split tabs splits parent id key new keeps (inl h) = inl h
  HasParent-assign_split tabs splits parent id key new keeps (inr (sp, e, l)) =
      elim (Bool-cases (same key parent)) [
        | inl s ↦
            let k : key ≡ parent = same-eq key parent s in
            let e' : find key splits ≡ some sp = ap (λ q. find q splits) k ∙ e in
            let found : find parent (assign key new splits) ≡ some new =
              ap (λ q. find q (assign key new splits)) (sym k) ∙ find-assign key new splits in
            inr (new, found, keeps sp e' l)
        | inr s ↦ inr (sp, find-assign_other parent key new splits s ∙ e, l)
      ]

  -- A tab changed, and still shows the child if it did.
  pub HasParent-assign_tab :
      (tabs : List (Uuid × Tab)) (splits : List (Uuid × Split F)) (parent id key : Uuid)
      → (new : Tab)
      → ((old : Tab)
          → find key tabs ≡ some old
          → old.pane_or_split_id ≡ id
          → new.pane_or_split_id ≡ id)
      → HasParent tabs splits parent id
      → HasParent (assign key new tabs) splits parent id
  HasParent-assign_tab tabs splits parent id key new keeps (inr h) = inr h
  HasParent-assign_tab tabs splits parent id key new keeps (inl (t, e, l)) =
      elim (Bool-cases (same key parent)) [
        | inl s ↦
            let k : key ≡ parent = same-eq key parent s in
            let e' : find key tabs ≡ some t = ap (λ q. find q tabs) k ∙ e in
            let found : find parent (assign key new tabs) ≡ some new =
              ap (λ q. find q (assign key new tabs)) (sym k) ∙ find-assign key new tabs in
            inl (new, found, keeps t e' l)
        | inr s ↦ inl (t, find-assign_other parent key new tabs s ∙ e, l)
      ]

  pub HasParent-change_split :
      (tabs : List (Uuid × Tab)) (splits : List (Uuid × Split F)) (parent id key : Uuid)
      → (old new : Split F) → find key splits ≡ some old
      → (listed id old.panes_or_splits ≡ true → listed id new.panes_or_splits ≡ true)
      → HasParent tabs splits parent id
      → HasParent tabs (assign key new splits) parent id
  HasParent-change_split tabs splits parent id key old new e keeps =
      HasParent-assign_split tabs splits parent id key new λ o f l.
        keeps (subst (λ r. listed id r.panes_or_splits ≡ true) (found_same key splits f e) l)

  -- A tab or a split is made under a free key.
  pub HasParent-new_tab :
      (tabs : List (Uuid × Tab)) (splits : List (Uuid × Split F)) (parent id key : Uuid) (new : Tab)
      → find key tabs ≡ none
      → HasParent tabs splits parent id
      → HasParent (assign key new tabs) splits parent id
  HasParent-new_tab tabs splits parent id key new free =
      HasParent-assign_tab tabs splits parent id key new
        λ old f. absurd (absent-found key tabs free f)

  pub HasParent-new_split :
      (tabs : List (Uuid × Tab)) (splits : List (Uuid × Split F)) (parent id key : Uuid)
      → (new : Split F) → find key splits ≡ none
      → HasParent tabs splits parent id
      → HasParent tabs (assign key new splits) parent id
  HasParent-new_split tabs splits parent id key new free =
      HasParent-assign_split tabs splits parent id key new
        λ old f. absurd (absent-found key splits free f)

  -- A split goes that was not the parent.
  pub HasParent-erase_split :
      (tabs : List (Uuid × Tab)) (splits : List (Uuid × Split F)) (parent id key : Uuid)
      → ((old : Split F) → find key splits ≡ some old → listed id old.panes_or_splits ≢ true)
      → HasParent tabs splits parent id
      → HasParent tabs (erase key splits) parent id
  HasParent-erase_split tabs splits parent id key gone (inl h) = inl h
  HasParent-erase_split tabs splits parent id key gone (inr (sp, e, l)) =
      elim (Bool-cases (same key parent)) [
        | inl s ↦
            let k : key ≡ parent = same-eq key parent s in
            absurd (gone sp (ap (λ q. find q splits) k ∙ e) l)
        | inr s ↦ inr (sp, find-erase_other parent key splits s ∙ e, l)
      ]

  -- A tab goes that was not the parent.
  pub HasParent-erase_tab :
      (tabs : List (Uuid × Tab)) (splits : List (Uuid × Split F)) (parent id key : Uuid)
      → ((old : Tab) → find key tabs ≡ some old → old.pane_or_split_id ≢ id)
      → HasParent tabs splits parent id
      → HasParent (erase key tabs) splits parent id
  HasParent-erase_tab tabs splits parent id key gone (inr h) = inr h
  HasParent-erase_tab tabs splits parent id key gone (inl (t, e, l)) =
      elim (Bool-cases (same key parent)) [
        | inl s ↦
            let k : key ≡ parent = same-eq key parent s in
            absurd (gone t (ap (λ q. find q tabs) k ∙ e) l)
        | inr s ↦ inl (t, find-erase_other parent key tabs s ∙ e, l)
      ]

  abbrev pub PanePlaced : List (Uuid × Tab) → List (Uuid × Split F) → Uuid → Pane → Type 0
  PanePlaced tabs splits id p = (p.id ≡ id) × HasParent tabs splits p.parent_id id

  abbrev pub SplitPlaced : List (Uuid × Tab) → List (Uuid × Split F) → Uuid → Split F → Type 0
  SplitPlaced tabs splits id sp = (sp.id ≡ id) × HasParent tabs splits sp.parent_id id

  pub pane_as :
      (tabs : List (Uuid × Tab)) (splits : List (Uuid × Split F)) {id id₀ : Uuid} {p p₀ : Pane}
      → id ≡ id₀
      → p ≡ p₀
      → PanePlaced tabs splits id₀ p₀
      → PanePlaced tabs splits id p
  pane_as tabs splits {id} {id₀} {p} {p₀} k v placed =
      subst (λ q. PanePlaced tabs splits q p) (sym k)
        (subst (λ r. PanePlaced tabs splits id₀ r) (sym v) placed)

  pub split_as :
      (tabs : List (Uuid × Tab)) (splits : List (Uuid × Split F)) {id id₀ : Uuid} {sp sp₀ : Split F}
      → id ≡ id₀
      → sp ≡ sp₀
      → SplitPlaced tabs splits id₀ sp₀
      → SplitPlaced tabs splits id sp
  split_as tabs splits {id} {id₀} {sp} {sp₀} k v placed =
      subst (λ q. SplitPlaced tabs splits q sp) (sym k)
        (subst (λ r. SplitPlaced tabs splits id₀ r) (sym v) placed)
