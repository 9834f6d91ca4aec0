-- ===== src/Htm/Collapsed.antt =====
-- closePane of htm/MultiplexerState.cpp where a split is left with one pane: the pane takes the
-- place of the split.
use eternal_terminal.Common.{
  ◌≤◌, true, false, none, some, List, [], ◌∷◌, ◌≡◌, ◌≢◌, refl, ap, sym, ◌∙◌, subst, ◌⊎◌, inl, inr,
  arith, length, same, same_refl, same-eq, same-sym, find, erase, assign, find-erase, find-assign,
  find-assign_other, found_erased, Bool-cases, Option-cases, find-erase_other,
}
use eternal_terminal.Htm.{Uuid, Pane, Split, Tab, MultiplexerState, ok, listed}
use eternal_terminal.Htm.Closing.{collapse}
use eternal_terminal.Htm.Children.{Removed, Replaced, replace_child-Replaced}
use eternal_terminal.Htm.Placed.{
  HasParent, HasParent-change_split, pane_as, split_as, found_assigned, absent_changed,
  absent_erased, absent-found, found_same, differ, HasParent-erase_split, HasParent-assign_tab,
}
use eternal_terminal.Htm.Tabs.{Unique-assign}
use eternal_terminal.Htm.WellFormed.{WellFormed}
use eternal_terminal.Htm.Closed.{without_pane, split_apart}

module _ {F : Type 0} (s : MultiplexerState F) (h : WellFormed s) (pane_id : Uuid) (pane : Pane)
    (found : find pane_id s.panes ≡ some pane) (sp one : Split F) (child : Uuid) (q : Pane)
    (e : find pane.parent_id s.splits ≡ some sp) (one_id : one.id ≡ sp.id)
    (one_parent : one.parent_id ≡ sp.parent_id) (one_child : one.panes_or_splits ≡ child ∷ [])
    (removed : Removed pane_id sp.panes_or_splits one.panes_or_splits)
    (left : find child (erase pane_id s.panes) ≡ some q) where
  key_named : one.id ≡ pane.parent_id
  key_named = one_id ∙ (h.split_placed pane.parent_id sp e).0

  left_parts : (same pane_id child ≡ false) × (find child s.panes ≡ some q)
  left_parts = found_erased child pane_id s.panes left

  child_named : q.id ≡ child
  child_named = (h.pane_placed child q (left_parts.1)).0

  key_child : same pane.parent_id child ≡ false
  key_child =
      same-sym pane.parent_id child
      ∙ differ pane.parent_id child s.splits (h.pane_not_split child q (left_parts.1)) e

  only : (id : Uuid) → same child id ≡ false → listed id one.panes_or_splits ≢ true
  only id other l =
      let l' : listed id (child ∷ []) ≡ true = sym (ap (listed id) one_child) ∙ l in
      let off : listed id (child ∷ []) ≡ false = rw other refl in absurd (cc (l', off))

  one_split : List (Uuid × Split F)
  one_split = assign pane.parent_id one s.splits

  moved : List (Uuid × Pane)
  moved = assign child (record q { parent_id = one.parent_id }) (erase pane_id s.panes)

  -- A pane of the new state is the one that moved, or as it was.
  found_left :
      (id : Uuid) (p : Pane)
      → find id moved ≡ some p
      → ((id ≡ child) × (p ≡ record q { parent_id = one.parent_id }))
        ⊎ ((same child id ≡ false) × (same pane_id id ≡ false) × (find id s.panes ≡ some p))
  unfolding moved
  found_left id p f =
      elim (found_assigned id child (record q { parent_id = one.parent_id }) (erase pane_id s.panes)
        f) [
          | inl at ↦ inl at
          | inr (other, g) ↦
              let (apart, g') = found_erased id pane_id s.panes g in inr (other, apart, g')
        ]

  moved-absent : (id : Uuid) (p : Pane) → find id moved ≡ some p → find id s.splits ≡ none
  moved-absent id p f = elim (found_left id p f) [
    | inl (k, _) ↦
        subst (λ r. find r s.splits ≡ none) (sym k) (h.pane_not_split child q (left_parts.1))
    | inr (_, _, g) ↦ h.pane_not_split id p g
  ]

  -- A split that is left is none of the two panes, nor the one that goes.
  split_others :
      (id : Uuid) {r : Split F}
      → find id s.splits ≡ some r
      → (same child id ≡ false) × (same pane_id id ≡ false)
  split_others id f = (
    differ id child s.splits (h.pane_not_split child q (left_parts.1)) f,
    split_apart s h pane_id pane found id f,
  )

  pane_off : (id : Uuid) {p : Pane} → find id s.panes ≡ some p → same pane.parent_id id ≡ false
  pane_off id {p} f =
      same-sym pane.parent_id id ∙ differ pane.parent_id id s.splits (h.pane_not_split id p f) e

  -- Once the split has one child, a parent of another node is not that split.
  to_one :
      (id parent : Uuid)
      → same pane_id id ≡ false
      → HasParent s.tabs s.splits parent id
      → HasParent s.tabs one_split parent id
  unfolding one_split
  to_one id parent other hp =
      HasParent-change_split s.tabs s.splits parent id pane.parent_id sp one e (removed.1 id other)
        hp

  -- What is left after the split goes, whatever was done to the map of splits before.
  found_dropped :
      (m : List (Uuid × Split F)) (id : Uuid) {r : Split F}
      → find id (erase one.id m) ≡ some r
      → (same pane.parent_id id ≡ false) × (find id m ≡ some r)
  found_dropped m id f =
      let (off, g) = found_erased id one.id m f in (ap (λ k. same k id) (sym key_named) ∙ off, g)

  found_one :
      (id : Uuid) {r : Split F}
      → same pane.parent_id id ≡ false
      → find id one_split ≡ some r
      → find id s.splits ≡ some r
  unfolding one_split
  found_one id off f = sym (find-assign_other id pane.parent_id one s.splits off) ∙ f

  absent_one : (id : Uuid) → find id s.splits ≡ none → find id one_split ≡ none
  unfolding one_split
  absent_one id f = absent_changed id pane.parent_id one s.splits e f

  gone :
      (m : List (Uuid × Split F)) (id : Uuid)
      → find pane.parent_id m ≡ some one
      → same child id ≡ false
      → (old : Split F) → find one.id m ≡ some old
      → listed id old.panes_or_splits ≢ true
  gone m id f other old g l =
      let v : old ≡ one = found_same pane.parent_id m (ap (λ k. find k m) (sym key_named) ∙ g) f in
      only id other (sym (ap (λ r. listed id r.panes_or_splits) v) ∙ l)

  -- The split stood in a tab.
  in_tab : Tab → MultiplexerState F
  in_tab tab = record (without_pane pane_id s) {
    panes = moved;
    tabs = assign one.parent_id (record tab { pane_or_split_id = q.id }) s.tabs;
    splits = erase one.id one_split;
  }

  in_tab-WellFormed :
      (tab : Tab)
      → find one.parent_id s.tabs ≡ some tab
      → tab.pane_or_split_id ≡ pane.parent_id
      → WellFormed (in_tab tab)
  unfolding in_tab one_split moved
  in_tab-WellFormed tab f shown =
      let tab' : Tab = record tab { pane_or_split_id = q.id } in
      let tabs' : List (Uuid × Tab) = assign one.parent_id tab' s.tabs in
      let splits' : List (Uuid × Split F) = erase one.id one_split in
      let keep : (id parent : Uuid)
          → same pane_id id ≡ false
          → same child id ≡ false
          → same pane.parent_id id ≡ false
          → HasParent s.tabs s.splits parent id
          → HasParent tabs' splits' parent id =
        λ id parent other other' off hp.
          HasParent-erase_split tabs' one_split parent id one.id
            (gone one_split id (find-assign pane.parent_id one s.splits) other')
            (HasParent-assign_tab s.tabs one_split parent id one.parent_id tab'
              (λ old g c.
                absurd (not_shown tab shown id off old (found_same one.parent_id s.tabs g f) c))
              (to_one id parent other hp)) in
      record {
        tabs_unique = Unique-assign one.parent_id tab' s.tabs h.tabs_unique;
        no_root = (
          absent_changed [] one.parent_id tab' s.tabs f (h.no_root.0),
          absent_erased [] one.id one_split (absent_one [] (h.no_root.1)),
        );
        tab_not_split = λ id t g. absent_erased id one.id one_split (
            absent_one id (elim (found_assigned id one.parent_id tab' s.tabs g) [
              | inl (k, _) ↦ h.tab_not_split id tab (ap (λ r. find r s.tabs) k ∙ f)
              | inr (_, g') ↦ h.tab_not_split id t g'
            ]));
        pane_not_split =
            λ id p g. absent_erased id one.id one_split (absent_one id (moved-absent id p g));
        tab_named = λ id t g. elim (found_assigned id one.parent_id tab' s.tabs g) [
          | inl (k, v) ↦ ap (λ r. r.id) v ∙ (h.tab_named one.parent_id tab f ∙ sym k)
          | inr (_, g') ↦ h.tab_named id t g'
        ];
        pane_placed = λ id p g. elim (found_left id p g) [
          | inl (k, v) ↦
              pane_as tabs' splits' k v
                (child_named, inl (tab', find-assign one.parent_id tab' s.tabs, child_named))
          | inr (other, apart, g') ↦
              let (n, parent) = h.pane_placed id p g' in
              (n, keep id p.parent_id apart other (pane_off id g') parent)
        ];
        split_placed = λ id r g.
            let (off, g') = found_dropped one_split id g in
            let g₀ = found_one id off g' in
            let (other, apart) = split_others id g₀ in
            let (n, parent) = h.split_placed id r g₀ in
            (n, keep id r.parent_id apart other off parent);
        split_sized = λ id r g.
            let (off, g') = found_dropped one_split id g in
            h.split_sized id r (found_one id off g');
      }
    where
      not_shown :
          (tab : Tab)
          → tab.pane_or_split_id ≡ pane.parent_id
          → (id : Uuid) → same pane.parent_id id ≡ false
          → (old : Tab) → old ≡ tab
          → old.pane_or_split_id ≢ id
      not_shown tab shown id off old v c =
          let e' : pane.parent_id ≡ id = sym shown ∙ (sym (ap (λ r. r.pane_or_split_id) v) ∙ c) in
          cc (same_refl pane.parent_id, ap (same pane.parent_id) e', off)

  -- The split stood in another split.
  upper : Split F → List Uuid → Split F
  upper up children = record up { panes_or_splits = children }

  in_split : Split F → List Uuid → MultiplexerState F
  unfolding upper
  in_split up children = record (without_pane pane_id s) {
    panes = moved;
    splits = erase one.id (assign one.parent_id (upper up children) one_split);
  }

  in_split-WellFormed :
      (up : Split F) (children : List Uuid)
      → find one.parent_id s.splits ≡ some up
      → same pane.parent_id one.parent_id ≡ false
      → Replaced one.id q.id up.panes_or_splits children
      → WellFormed (in_split up children)
  unfolding in_split upper one_split moved
  in_split-WellFormed up children f off_up (size, has, keeps) =
      let up' : Split F = upper up children in
      let two : List (Uuid × Split F) = assign one.parent_id up' one_split in
      let splits' : List (Uuid × Split F) = erase one.id two in
      let f' : find one.parent_id one_split ≡ some up =
        find-assign_other one.parent_id pane.parent_id one s.splits off_up ∙ f in
      let one_there : find pane.parent_id two ≡ some one =
        find-assign_other pane.parent_id one.parent_id up' one_split
          (same-sym one.parent_id pane.parent_id ∙ off_up)
        ∙ find-assign pane.parent_id one s.splits in
      let off_id : same one.id one.parent_id ≡ false =
        ap (λ k. same k one.parent_id) key_named ∙ off_up in
      let keep : (id parent : Uuid)
          → same pane_id id ≡ false
          → same child id ≡ false
          → same pane.parent_id id ≡ false
          → HasParent s.tabs s.splits parent id
          → HasParent s.tabs splits' parent id =
        λ id parent other other' off hp.
          HasParent-erase_split s.tabs two parent id one.id (gone two id one_there other') (
            HasParent-change_split s.tabs one_split parent id one.parent_id up up' f'
              (keeps id (ap (λ k. same k id) key_named ∙ off)) (to_one id parent other hp)) in
      let away : (id : Uuid) → find id s.splits ≡ none → find id splits' ≡ none = λ id g.
        absent_erased id one.id two
          (absent_changed id one.parent_id up' one_split f' (absent_one id g)) in
      record {
        tabs_unique = h.tabs_unique;
        no_root = (h.no_root.0, away [] (h.no_root.1));
        tab_not_split = λ id t g. away id (h.tab_not_split id t g);
        pane_not_split = λ id p g. away id (moved-absent id p g);
        tab_named = h.tab_named;
        pane_placed = λ id p g. elim (found_left id p g) [
          | inl (k, v) ↦ pane_as s.tabs splits' k v (
            child_named,
            inr (
              up',
              find-erase_other one.parent_id one.id two off_id
                  ∙ find-assign one.parent_id up' one_split,
              sym (ap (λ c. listed c children) child_named) ∙ has,
            ),
          )
          | inr (other, apart, g') ↦
              let (n, parent) = h.pane_placed id p g' in
              (n, keep id p.parent_id apart other (pane_off id g') parent)
        ];
        split_placed = λ id r g.
            let (off, g') = found_dropped two id g in
            elim (found_assigned id one.parent_id up' one_split g') [
              | inl (k, v) ↦
                  let (n, parent) = h.split_placed one.parent_id up f in
                  let (other, apart) = split_others one.parent_id f in
                  split_as s.tabs splits' k v
                    (n, keep one.parent_id up.parent_id apart other off_up parent)
              | inr (_, g₁) ↦
                  let g₀ = found_one id off g₁ in
                  let (other, apart) = split_others id g₀ in
                  let (n, parent) = h.split_placed id r g₀ in
                  (n, keep id r.parent_id apart other off parent)
            ];
        split_sized = λ id r g.
            let (off, g') = found_dropped two id g in
            elim (found_assigned id one.parent_id up' one_split g') [
              | inl (k, v) ↦
                  let (a, b) = h.split_sized one.parent_id up f in
                  subst
                    (λ o.
                      (length o.sizes ≡ length o.panes_or_splits) × (2 ≤ length o.panes_or_splits))
                    (sym v) (a ∙ sym size, omega (arith, b, size))
              | inr (_, g₁) ↦ h.split_sized id r (found_one id off g₁)
            ];
      }

  placed_one : HasParent s.tabs s.splits one.parent_id pane.parent_id
  placed_one =
      subst (λ r. HasParent s.tabs s.splits r pane.parent_id) (sym one_parent)
        ((h.split_placed pane.parent_id sp e).1)

  in_tab_shown :
      (tab : Tab) → find one.parent_id s.tabs ≡ some tab → tab.pane_or_split_id ≡ pane.parent_id
  in_tab_shown tab f = elim placed_one [
    | inl (t, g, c) ↦ sym (ap (λ r. r.pane_or_split_id) (found_same one.parent_id s.tabs g f)) ∙ c
    | inr (up, g, _) ↦
        absurd (absent-found one.parent_id s.splits (h.tab_not_split one.parent_id tab f) g)
  ]

  in_split_listed :
      find one.parent_id s.tabs ≡ none
      → (up : Split F) × (find one.parent_id s.splits ≡ some up)
        × (listed pane.parent_id up.panes_or_splits ≡ true)
  in_split_listed f = elim placed_one [
    | inl (t, g, _) ↦ absurd (absent-found one.parent_id s.tabs f g)
    | inr up ↦ up
  ]

  -- No split is its own parent once it has the one child.
  off_upper :
      (up : Split F)
      → find one.parent_id s.splits ≡ some up
      → listed pane.parent_id up.panes_or_splits ≡ true
      → same pane.parent_id one.parent_id ≡ false
  off_upper up f l = elim (Bool-cases (same pane.parent_id one.parent_id)) [
    | inr off ↦ off
    | inl at ↦
        let k : pane.parent_id ≡ one.parent_id = same-eq pane.parent_id one.parent_id at in
        let v : up ≡ sp = found_same pane.parent_id s.splits (ap (λ r. find r s.splits) k ∙ f) e in
        let l' : listed pane.parent_id sp.panes_or_splits ≡ true =
          sym (ap (λ r. listed pane.parent_id r.panes_or_splits) v) ∙ l in
        let kept =
          removed.1 pane.parent_id (split_apart s h pane_id pane found pane.parent_id e) l' in
        absurd (only pane.parent_id (same-sym child pane.parent_id ∙ key_child) kept)
  ]

  pane_gone : find pane_id moved ≡ none
  unfolding moved
  pane_gone =
      find-assign_other pane_id child (record q { parent_id = one.parent_id })
        (erase pane_id s.panes) (same-sym child pane_id ∙ left_parts.0)
      ∙ find-erase pane_id s.panes

  -- The result of the collapse.
  unfoldable pub Collapses : Type 0
  Collapses =
      (done : MultiplexerState F) × (collapse one child (some q)
          (record (without_pane pane_id s) { splits = assign pane.parent_id one s.splits })
        ≡ ok done)
      × WellFormed done
      × (find pane_id done.panes ≡ none)

  collapse-split : find one.parent_id s.tabs ≡ none → Collapses
  unfolding Collapses in_split upper one_split moved
  collapse-split f =
      let (up, g, l) = in_split_listed f in
      let off = off_upper up g l in
      let l' : listed one.id up.panes_or_splits ≡ true =
        ap (λ k. listed k up.panes_or_splits) key_named ∙ l in
      let (children, made, replaced) = replace_child-Replaced one.id q.id up.panes_or_splits l' in
      let g' : find one.parent_id one_split ≡ some up =
        find-assign_other one.parent_id pane.parent_id one s.splits off ∙ g in
      (
        in_split up children,
        rw f (rw g' (rw made refl)),
        in_split-WellFormed up children g off replaced,
        pane_gone,
      )

  pub collapse-ok : Collapses
  unfolding Collapses in_tab one_split moved
  collapse-ok = elim (Option-cases (find one.parent_id s.tabs)) [
    | inr (tab, f) ↦
        (in_tab tab, rw f refl, in_tab-WellFormed tab f (in_tab_shown tab f), pane_gone)
    | inl f ↦ collapse-split f
  ]
