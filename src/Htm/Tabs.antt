-- ===== src/Htm/Tabs.antt =====
-- The map of tabs of htm/MultiplexerState.cpp under the loops of closePane.
use eternal_terminal.Common.{
  ℕ, true, false, Option, none, some, List, [], ◌∷◌, ◌≡◌, refl, ap, sym, ◌∙◌, subst, inl, inr, ltb,
  same, same_refl, same-eq, same-sym, find, erase, assign, find-erase, find-erase_other, Bool-cases,
}
use eternal_terminal.Htm.{Uuid, Tab}
use eternal_terminal.Htm.Closing.{move_up, shift_orders, tab_of}

-- One entry for each key.
unfoldable pub Unique : List (Uuid × Tab) → Type 0
Unique [] = Unit
Unique ((key, t) ∷ tabs) = (find key tabs ≡ none) × Unique tabs

pub Unique-erase : (id : Uuid) (tabs : List (Uuid × Tab)) → Unique tabs → Unique (erase id tabs)
unfolding Unique
Unique-erase id [] h = tt
Unique-erase id ((key, t) ∷ tabs) (absent, h) = elim (Bool-cases (same key id)) [
  | inl e ↦ rw e (Unique-erase id tabs h)
  | inr e ↦
      rw e (find-erase_other key id tabs (same-sym id key ∙ e) ∙ absent, Unique-erase id tabs h)
]

pub Unique-assign :
    (id : Uuid) (t : Tab) (tabs : List (Uuid × Tab)) → Unique tabs → Unique (assign id t tabs)
unfolding Unique
Unique-assign id t tabs h = (find-erase id tabs, Unique-erase id tabs h)

abbrev moved : ℕ → Option Tab → Option Tab
moved order none = none
moved order (some t) = some (move_up order t)

find-shift_orders :
    (order : ℕ) (id : Uuid) (tabs : List (Uuid × Tab))
    → find id (shift_orders order tabs) ≡ moved order (find id tabs)
find-shift_orders order id [] = refl
find-shift_orders order id ((key, t) ∷ tabs) = elim (Bool-cases (same key id)) [
  | inl e ↦ rw e refl
  | inr e ↦ rw e (find-shift_orders order id tabs)
]

move_up-child : (order : ℕ) (t : Tab) → (move_up order t).pane_or_split_id ≡ t.pane_or_split_id
move_up-child order t = elim (Bool-cases (ltb order t.order)) [
  | inl e ↦ rw e refl
  | inr e ↦ rw e refl
]

move_up-id : (order : ℕ) (t : Tab) → (move_up order t).id ≡ t.id
move_up-id order t = elim (Bool-cases (ltb order t.order)) [ inl e ↦ rw e refl | inr e ↦ rw e refl ]

-- A tab is shifted to one that shows the same child, and each shifted tab comes from one.
pub shifted :
    (order : ℕ) (id : Uuid) (tabs : List (Uuid × Tab)) (t : Tab)
    → find id tabs ≡ some t
    → (t' : Tab) × (find id (shift_orders order tabs) ≡ some t')
      × (t'.pane_or_split_id ≡ t.pane_or_split_id)
shifted order id tabs t e =
    (move_up order t, find-shift_orders order id tabs ∙ ap (moved order) e, move_up-child order t)

pub unshifted :
    (order : ℕ) (id : Uuid) (tabs : List (Uuid × Tab)) (t' : Tab)
    → find id (shift_orders order tabs) ≡ some t'
    → (t : Tab) × (find id tabs ≡ some t) × (t'.id ≡ t.id)
unshifted order id tabs t' e = came (find id tabs) (sym (find-shift_orders order id tabs) ∙ e)
  where
    came : (o : Option Tab) → moved order o ≡ some t' → (t : Tab) × (o ≡ some t) × (t'.id ≡ t.id)
    came none h = absurd cc
    came (some t) h = (t, refl, ap (λ r. r.id) (unsome (sym h)) ∙ move_up-id order t)
      where
        unsome : {a b : Tab} → some a ≡ some b → a ≡ b
        unsome h = cc

pub shifted_absent :
    (order : ℕ) (id : Uuid) (tabs : List (Uuid × Tab))
    → find id tabs ≡ none
    → find id (shift_orders order tabs) ≡ none
shifted_absent order id tabs e = find-shift_orders order id tabs ∙ ap (moved order) e

pub Unique-shift_orders :
    (order : ℕ) (tabs : List (Uuid × Tab)) → Unique tabs → Unique (shift_orders order tabs)
unfolding Unique
Unique-shift_orders order [] h = tt
Unique-shift_orders order ((key, t) ∷ tabs) (absent, h) =
    (find-shift_orders order key tabs ∙ ap (moved order) absent, Unique-shift_orders order tabs h)

-- The key that the loop finds is one of a tab that shows the pane.
pub tab_of-found :
    (pane_id : Uuid) (tabs : List (Uuid × Tab)) (key : Uuid)
    → Unique tabs
    → tab_of pane_id tabs ≡ some key
    → (t : Tab) × (find key tabs ≡ some t) × (t.pane_or_split_id ≡ pane_id)
unfolding Unique
tab_of-found pane_id [] key h e = absurd cc
tab_of-found pane_id ((k, t) ∷ tabs) key (absent, h) e =
    elim (Bool-cases (same t.pane_or_split_id pane_id)) [
      | inl s ↦
          let e' : some k ≡ some key = rw s at e in
          let k' : k ≡ key = cc e' in
          (
            t,
            subst (λ q. find q ((k, t) ∷ tabs) ≡ some t) k' (rw (same_refl k) refl),
            same-eq t.pane_or_split_id pane_id s,
          )
      | inr s ↦
          let (u, f, c) = tab_of-found pane_id tabs key h (rw s at e) in
          (u, rw (later k key tabs absent f) f, c)
    ]
  where
    later :
        (k key : Uuid) (tabs : List (Uuid × Tab)) {u : Tab}
        → find k tabs ≡ none
        → find key tabs ≡ some u
        → same k key ≡ false
    later k key tabs absent f = elim (Bool-cases (same k key)) [
      | inl s ↦ absurd (cc (same-eq k key s, absent, f))
      | inr s ↦ s
    ]

pub tab_of-some :
    (pane_id key : Uuid) (tabs : List (Uuid × Tab)) (t : Tab)
    → find key tabs ≡ some t
    → t.pane_or_split_id ≡ pane_id
    → (k : Uuid) × (tab_of pane_id tabs ≡ some k)
tab_of-some pane_id key [] t e c = absurd cc
tab_of-some pane_id key ((k, u) ∷ tabs) t e c =
    elim (Bool-cases (same u.pane_or_split_id pane_id)) [
      | inl s ↦ (k, rw s refl)
      | inr s ↦ elim (Bool-cases (same k key)) [
        | inl here ↦ let e' : some u ≡ some t = rw here at e in absurd (cc (s, shows u t (cc e') c))
        | inr there ↦ let (k', f) = tab_of-some pane_id key tabs t (rw there at e) c in (k', rw s f)
      ]
    ]
  where
    shows :
        (u t : Tab) → u ≡ t → t.pane_or_split_id ≡ pane_id → same u.pane_or_split_id pane_id ≡ true
    shows u t e c =
        subst (λ q. same q pane_id ≡ true) (sym (ap (λ r. r.pane_or_split_id) e ∙ c))
          (same_refl pane_id)
