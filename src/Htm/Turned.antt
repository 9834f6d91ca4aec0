-- ===== src/Htm/Turned.antt =====
-- newSplit of htm/MultiplexerState.cpp where it makes a split: around the only pane of a tab, or
-- inside a split of the other orientation.
use eternal_terminal.Common.{
  ◌≤◌, Bool, true, false, Option, none, some, List, [], ◌∷◌, ◌≡◌, ◌≢◌, refl, ap, sym, ◌∙◌, subst,
  ◌⊎◌, inl, inr, arith, length, same, same_refl, same-false, same-sym, find, assign, find-assign,
  find-assign_other, Bool-cases, Option-cases,
}
use eternal_terminal.Htm.{Uuid, Floats, Pane, Split, Tab, MultiplexerState, ok, listed, id_in_use}
use eternal_terminal.Htm.Splitting.{same_bool, continue_split, split_under, new_split}
use eternal_terminal.Htm.Children.{Replaced, replace_child-Replaced}
use eternal_terminal.Htm.Placed.{
  HasParent, HasParent-new_split, HasParent-change_split, HasParent-assign_tab, PanePlaced, pane_as,
  split_as, found_assigned, found_reassigned, insert_absent, absent_assigned, absent_changed,
  absent-found, found_same, differ,
}
use eternal_terminal.Htm.Tabs.{Unique-assign}
use eternal_terminal.Htm.WellFormed.{WellFormed, id_in_use-parts}
use eternal_terminal.Htm.Divided.{fresh_pane, with_pane, continue_split-WellFormed}

module _ {F : Type 0} (floats : Floats F) (vertical : Bool) (s : MultiplexerState F)
    (h : WellFormed s) (source_id pane_id split_id : Uuid) (source : Pane)
    (found : find source_id s.panes ≡ some source) (pane_free : id_in_use pane_id s ≡ false)
    (split_free : id_in_use split_id s ≡ false) (apart : same split_id pane_id ≡ false)
    (named : split_id ≢ []) where
  -- The split that is made under a parent, and the panes that are in it.
  new_node : Uuid → Split F
  new_node parent_id = record {
    id = split_id;
    parent_id = parent_id;
    vertical = vertical;
    panes_or_splits = source_id ∷ pane_id ∷ [];
    sizes = floats.half ∷ floats.half ∷ [];
  }

  split_panes : List (Uuid × Pane)
  split_panes =
      assign pane_id (record (fresh_pane pane_id) { parent_id = split_id })
        (assign pane_id (fresh_pane pane_id) s.panes)

  moved_panes : List (Uuid × Pane)
  unfolding split_panes
  moved_panes = assign source_id (record source { parent_id = split_id }) split_panes

  pane_apart : (id : Uuid) {q : Split F} → find id s.splits ≡ some q → same source_id id ≡ false
  pane_apart id g = differ id source_id s.splits (h.pane_not_split source_id source found) g

  sized-as :
      (node q : Split F)
      → q ≡ node
      → (length node.sizes ≡ length node.panes_or_splits) × (2 ≤ length node.panes_or_splits)
      → (length q.sizes ≡ length q.panes_or_splits) × (2 ≤ length q.panes_or_splits)
  sized-as node q v sized =
      subst (λ r. (length r.sizes ≡ length r.panes_or_splits) × (2 ≤ length r.panes_or_splits))
        (sym v) sized

  source_apart : same split_id source_id ≡ false
  source_apart = differ source_id split_id s.panes ((id_in_use-parts split_id s split_free).0) found

  -- A pane of the new state is one of the two in the split, or as it was.
  found_moved :
      (id : Uuid) (p : Pane)
      → find id moved_panes ≡ some p
      → ((id ≡ source_id) × (p ≡ record source { parent_id = split_id }))
        ⊎ (((id ≡ pane_id) × (p ≡ record (fresh_pane pane_id) { parent_id = split_id }))
            ⊎ ((same source_id id ≡ false) × (find id s.panes ≡ some p)))
  unfolding moved_panes split_panes
  found_moved id p e =
      elim (found_assigned id source_id (record source { parent_id = split_id }) split_panes e) [
        | inl at_source ↦ inl at_source
        | inr (other, f) ↦ elim (found_reassigned id pane_id _ _ s.panes f) [
          | inl at_pane ↦ inr (inl at_pane)
          | inr (_, g) ↦ inr (inr (other, g))
        ]
      ]

  moved-absent :
      (node : Split F) (id : Uuid) (p : Pane)
      → find id moved_panes ≡ some p
      → find id (assign split_id node s.splits) ≡ none
  moved-absent node id p e = elim (found_moved id p e) [
    | inl (k, _) ↦
        subst (λ q. find q (assign split_id node s.splits) ≡ none) (sym k)
          (absent_assigned source_id split_id node s.splits source_apart
            (h.pane_not_split source_id source found))
    | inr (inl (k, _)) ↦
        subst (λ q. find q (assign split_id node s.splits) ≡ none) (sym k)
          (absent_assigned pane_id split_id node s.splits apart
            ((id_in_use-parts pane_id s pane_free).1))
    | inr (inr (_, g)) ↦
        absent_assigned id split_id node s.splits
          (differ id split_id s.panes ((id_in_use-parts split_id s split_free).0) g)
          (h.pane_not_split id p g)
  ]

  -- The panes are placed when the split is, and the others keep their parents.
  moved-placed :
      (tabs : List (Uuid × Tab)) (splits : List (Uuid × Split F)) (parent_id : Uuid)
      → find split_id splits ≡ some (new_node parent_id)
      → ((id parent : Uuid)
          → same source_id id ≡ false
          → HasParent s.tabs s.splits parent id
          → HasParent tabs splits parent id)
      → (id : Uuid) (p : Pane) → find id moved_panes ≡ some p
      → PanePlaced tabs splits id p
  unfolding new_node
  moved-placed tabs splits parent_id made keeps id p e = elim (found_moved id p e) [
    | inl (k, v) ↦ pane_as tabs splits k v (
      (h.pane_placed source_id source found).0,
      inr (new_node parent_id, made, rw (same_refl source_id) refl),
    )
    | inr (inl (k, v)) ↦ pane_as tabs splits k v (refl, inr (new_node parent_id, made, second))
    | inr (inr (other, g)) ↦
        let (n, parent) = h.pane_placed id p g in (n, keeps id p.parent_id other parent)
  ]
    where
      second : listed pane_id (source_id ∷ pane_id ∷ []) ≡ true
      second = elim (Bool-cases (same source_id pane_id)) [
        | inl e ↦ rw e refl
        | inr e ↦ rw (e, same_refl pane_id) refl
      ]

  -- The source stood alone in a tab.
  rooted : Uuid → Tab → MultiplexerState F
  rooted key tab = record s {
    tabs = assign key (record tab { pane_or_split_id = split_id }) s.tabs;
    splits = assign split_id (new_node tab.id) s.splits;
    panes = moved_panes;
  }

  rooted-WellFormed :
      (tab : Tab)
      → find source.parent_id s.tabs ≡ some tab
      → tab.pane_or_split_id ≡ source_id
      → WellFormed (rooted source.parent_id tab)
  unfolding rooted new_node
  rooted-WellFormed tab e shown =
      let key = source.parent_id in
      let tab' : Tab = record tab { pane_or_split_id = split_id } in
      let node : Split F = new_node tab.id in
      let (sp, ss, st) = id_in_use-parts split_id s split_free in
      let tabs' : List (Uuid × Tab) = assign key tab' s.tabs in
      let splits' : List (Uuid × Split F) = assign split_id node s.splits in
      let keep : (id parent : Uuid)
          → same source_id id ≡ false
          → HasParent s.tabs s.splits parent id
          → HasParent tabs' splits' parent id =
        λ id parent other hp. HasParent-new_split tabs' s.splits parent id split_id node ss (
          HasParent-assign_tab s.tabs s.splits parent id key tab'
            (λ old f c. absurd (not_shown tab shown old (found_same key s.tabs f e) id other c))
            hp) in
      record {
        tabs_unique = Unique-assign key tab' s.tabs h.tabs_unique;
        no_root = (
          absent_changed [] key tab' s.tabs e (h.no_root.0),
          absent_assigned [] split_id node s.splits (same-false split_id [] named) (h.no_root.1),
        );
        tab_not_split = λ id t f. elim (found_assigned id key tab' s.tabs f) [
          | inl (k, _) ↦
              subst (λ q. find q splits' ≡ none) (sym k)
                (absent_assigned key split_id node s.splits (differ key split_id s.tabs st e)
                  (h.tab_not_split key tab e))
          | inr (_, g) ↦
              absent_assigned id split_id node s.splits (differ id split_id s.tabs st g)
                (h.tab_not_split id t g)
        ];
        pane_not_split = moved-absent node;
        tab_named = λ id t f. elim (found_assigned id key tab' s.tabs f) [
          | inl (k, v) ↦ ap (λ r. r.id) v ∙ (h.tab_named key tab e ∙ sym k)
          | inr (_, g) ↦ h.tab_named id t g
        ];
        pane_placed = moved-placed tabs' splits' tab.id (find-assign split_id node s.splits) keep;
        split_placed = λ id q f. elim (found_assigned id split_id node s.splits f) [
          | inl (k, v) ↦ split_as tabs' splits' k v (
            refl,
            inl (
              tab',
              ap (λ r. find r tabs') (h.tab_named key tab e) ∙ find-assign key tab' s.tabs,
              refl,
            ),
          )
          | inr (_, g) ↦
              let (n, parent) = h.split_placed id q g in
              (n, keep id q.parent_id (pane_apart id g) parent)
        ];
        split_sized = λ id q f. elim (found_assigned id split_id node s.splits f) [
          | inl (k, v) ↦ sized-as node q v (refl, omega arith)
          | inr (_, g) ↦ h.split_sized id q g
        ];
      }
    where
      not_shown :
          (tab : Tab)
          → tab.pane_or_split_id ≡ source_id
          → (old : Tab) → old ≡ tab
          → (id : Uuid) → same source_id id ≡ false
          → old.pane_or_split_id ≢ id
      not_shown tab shown old v id other c = cc (
        same_refl source_id,
        ap (same source_id) (sym (sym (ap (λ r. r.pane_or_split_id) v ∙ shown) ∙ c)),
        other,
      )

  -- The source stood in a split of the other orientation.
  nested : Uuid → Split F → List Uuid → MultiplexerState F
  nested key sp children = record s {
    splits =
        assign key (record sp { panes_or_splits = children })
          (assign split_id (new_node sp.id) s.splits);
    panes = moved_panes;
  }

  nested-WellFormed :
      (sp : Split F) (children : List Uuid)
      → find source.parent_id s.splits ≡ some sp
      → Replaced source_id split_id sp.panes_or_splits children
      → WellFormed (nested source.parent_id sp children)
  unfolding nested new_node
  nested-WellFormed sp children e (size, has, keeps) =
      let key = source.parent_id in
      let sp' : Split F = record sp { panes_or_splits = children } in
      let node : Split F = new_node sp.id in
      let (fp, fs, ft) = id_in_use-parts split_id s split_free in
      let mid : List (Uuid × Split F) = assign split_id node s.splits in
      let splits' : List (Uuid × Split F) = assign key sp' mid in
      let off : same split_id key ≡ false = differ key split_id s.splits fs e in
      let e' : find key mid ≡ some sp = find-assign_other key split_id node s.splits off ∙ e in
      let sp_named : sp.id ≡ key = (h.split_placed key sp e).0 in
      let made : find split_id splits' ≡ some node =
        find-assign_other split_id key sp' mid (same-sym key split_id ∙ off)
        ∙ find-assign split_id node s.splits in
      let keep : (id parent : Uuid)
          → same source_id id ≡ false
          → HasParent s.tabs s.splits parent id
          → HasParent s.tabs splits' parent id =
        λ id parent other hp.
          HasParent-change_split s.tabs mid parent id key sp sp' e' (keeps id other)
            (HasParent-new_split s.tabs s.splits parent id split_id node fs hp) in
      record {
        tabs_unique = h.tabs_unique;
        no_root = (
          h.no_root.0,
          absent_changed [] key sp' mid e' (
              absent_assigned [] split_id node s.splits (same-false split_id [] named)
                (h.no_root.1)),
        );
        tab_not_split = λ id t f. absent_changed id key sp' mid e' (
            absent_assigned id split_id node s.splits (differ id split_id s.tabs ft f)
              (h.tab_not_split id t f));
        pane_not_split = λ id p f. absent_changed id key sp' mid e' (moved-absent node id p f);
        tab_named = h.tab_named;
        pane_placed = moved-placed s.tabs splits' sp.id made keep;
        split_placed = λ id q f. elim (found_assigned id key sp' mid f) [
          | inl (k, v) ↦
              let (n, parent) = h.split_placed key sp e in
              split_as s.tabs splits' k v (n, keep key sp.parent_id (pane_apart key e) parent)
          | inr (_, g) ↦ elim (found_assigned id split_id node s.splits g) [
            | inl (k, v) ↦
                split_as s.tabs splits' k v (
                  refl,
                  inr (sp', ap (λ r. find r splits') sp_named ∙ find-assign key sp' mid, has),
                )
            | inr (_, g') ↦
                let (n, parent) = h.split_placed id q g' in
                (n, keep id q.parent_id (pane_apart id g') parent)
          ]
        ];
        split_sized = λ id q f. elim (found_assigned id key sp' mid f) [
          | inl (k, v) ↦
              let (a, b) = h.split_sized key sp e in
              sized-as sp' q v (a ∙ sym size, omega (arith, b, size))
          | inr (_, g) ↦ elim (found_assigned id split_id node s.splits g) [
            | inl (k, v) ↦ sized-as node q v (refl, omega arith)
            | inr (_, g') ↦ h.split_sized id q g'
          ]
        ];
      }

  -- The parent of the source, as the code looks for it.
  parent_split :
      (sp : Split F)
      → find source.parent_id s.splits ≡ some sp
      → listed source_id sp.panes_or_splits ≡ true
  parent_split sp e = elim ((h.pane_placed source_id source found).1) [
    | inl (t, f, _) ↦
        absurd (absent-found source.parent_id s.splits (h.tab_not_split source.parent_id t f) e)
    | inr (sp', f, l) ↦
        subst (λ r. listed source_id r.panes_or_splits ≡ true)
          (found_same source.parent_id s.splits f e) l
  ]

  parent_tab :
      find source.parent_id s.splits ≡ none
      → (t : Tab) × (find source.parent_id s.tabs ≡ some t) × (t.pane_or_split_id ≡ source_id)
  parent_tab e = elim ((h.pane_placed source_id source found).1) [
    | inl tab ↦ tab
    | inr (sp, f, _) ↦ absurd (absent-found source.parent_id s.splits e f)
  ]

  -- The result for a source that has this parent.
  Made : Option (Split F) → Type 0
  Made parent =
      (made : MultiplexerState F) × (split_under floats vertical source_id source pane_id split_id
          (fresh_pane pane_id) parent (with_pane pane_id s)
        ≡ ok made)
      × WellFormed made

  Made-none : find source.parent_id s.splits ≡ none → Made none
  unfolding Made rooted new_node moved_panes split_panes
  Made-none e =
      let (tab, f, shown) = parent_tab e in
      let free = (id_in_use-parts split_id s split_free).1 in
      (
        rooted source.parent_id tab,
        rw f (rw (insert_absent split_id (new_node tab.id) s.splits free) refl),
        rooted-WellFormed tab f shown,
      )

  Made-some :
      (sp : Split F)
      → find source.parent_id s.splits ≡ some sp
      → same_bool sp.vertical vertical ≡ false
      → Made (some sp)
  unfolding Made nested new_node moved_panes split_panes
  Made-some sp e other_way =
      let (children, replaced, kept) =
        replace_child-Replaced source_id split_id sp.panes_or_splits (parent_split sp e) in
      let free = (id_in_use-parts split_id s split_free).1 in
      (
        nested source.parent_id sp children,
        rw (other_way, replaced) (rw (insert_absent split_id (new_node sp.id) s.splits free) refl),
        nested-WellFormed sp children e kept,
      )

  -- With its source in a tab or in a split, newSplit makes its split.
  split_under-ok : Made (find source.parent_id s.splits)
  unfolding Made
  split_under-ok = elim (Option-cases (find source.parent_id s.splits)) [
    | inl e ↦ subst Made (sym e) (Made-none e)
    | inr (sp, e) ↦ subst Made (sym e) (elim (Bool-cases (same_bool sp.vertical vertical)) [
      | inl same_way ↦ (
        continue_split floats source.parent_id sp pane_id (fresh_pane pane_id)
            (with_pane pane_id s),
        rw same_way refl,
        continue_split-WellFormed floats source.parent_id pane_id sp s pane_free e h,
      )
      | inr other_way ↦ Made-some sp e other_way
    ])
  ]

  -- In a well-formed state, with a pane that exists as its source, a pane id that is in use nowhere,
  -- and for the new split a uuid that is new, not empty and not the pane's: newSplit does not abort,
  -- wherever the source stands, and the state is well formed after it.
  pub new_split-ok :
      (made : MultiplexerState F) × (new_split floats split_id source_id pane_id vertical s
        ≡ ok made)
      × WellFormed made
  unfolding new_split Made
  new_split-ok =
      let (pp, ps, pt) = id_in_use-parts pane_id s pane_free in
      let (made, e, kept) = split_under-ok in
      let found' : find source_id (assign pane_id (fresh_pane pane_id) s.panes) ≡ some source =
        find-assign_other source_id pane_id (fresh_pane pane_id) s.panes
          (differ source_id pane_id s.panes pp found)
        ∙ found in
      (
        made,
        rw pane_free (rw (insert_absent pane_id (fresh_pane pane_id) s.panes pp) (rw found' e)),
        kept,
      )
