-- ===== src/Htm/CloseSteps.antt =====
-- How closePane of htm/MultiplexerState.cpp ends in a well-formed state.
use eternal_terminal.Common.{
  ℕ, suc, true, false, none, some, List, [], ◌∷◌, ◌≡◌, refl, ap, sym, ◌∙◌, subst, ◌⊎◌, inl, inr,
  arith, length, length-map, map, ltb, same_refl, find, erase, assign, find-erase, Bool-cases,
  Option-cases, ltb→lt, ltb_false→le,
}
use eternal_terminal.Htm.{
  Uuid, Floats, Pane, Split, Tab, MultiplexerState, Result, ok, fatal, undefined, listed,
}
use eternal_terminal.Htm.Closing.{
  shift_orders, index_from, erase_at, close_tab, settle, close_in_split, close_under, close_found,
  close_pane, collapse,
}
use eternal_terminal.Htm.Children.{Removed, index_from-Removed, erase_at-ok}
use eternal_terminal.Htm.Placed.{absent-found, found_same}
use eternal_terminal.Htm.Tabs.{Unique-shift_orders, shifted, tab_of-found, tab_of-some}
use eternal_terminal.Htm.WellFormed.{WellFormed, Stays}
use eternal_terminal.Htm.Closed.{
  without_pane, pane_named, untabbed, untabbed-WellFormed, thinned, thinned-WellFormed,
}
use eternal_terminal.Htm.Collapsed.{Collapses, collapse-ok}

-- The pane's split has one other child, and that is no pane.
abbrev pub OtherIsNoPane : {F : Type 0} → MultiplexerState F → Uuid → Pane → Type 0
OtherIsNoPane {F} s pane_id pane =
    (sp : Split F) × (find pane.parent_id s.splits ≡ some sp)
    × (length sp.panes_or_splits ≡ 2)
    × (child : Uuid) × (listed child sp.panes_or_splits ≡ true)
    × (find child (erase pane_id s.panes) ≡ none)

-- The pane is gone from a well-formed state, or the process aborts over the child that is left.
abbrev pub Closes :
    {F : Type 0} → MultiplexerState F → Uuid → Pane → Result (MultiplexerState F) → Type 0
Closes {F} s pane_id pane r =
    ((done : MultiplexerState F) × (r ≡ ok done)
      × WellFormed done
      × (find pane_id done.panes ≡ none))
    ⊎ ((r ≡ fatal) × OtherIsNoPane s pane_id pane)

first : (child : Uuid) → listed child (child ∷ []) ≡ true
first child = rw (same_refl child) refl

module _ {F : Type 0} (floats : Floats F) (s : MultiplexerState F) (h : WellFormed s)
    (pane_id : Uuid) (pane : Pane) (found : find pane_id s.panes ≡ some pane) where
  named : pane.id ≡ pane_id
  named = pane_named s h pane_id pane found

  close_tab-Closes :
      (tab : Tab)
      → find pane.parent_id s.tabs ≡ some tab
      → Closes s pane_id pane (close_tab pane.id tab (without_pane pane_id s))
  unfolding untabbed
  close_tab-Closes tab f =
      let (t', g, c) = shifted tab.order pane.parent_id s.tabs tab f in
      let shown = tab_shown tab f in
      let (key, k) =
        tab_of-some pane.id pane.parent_id (shift_orders tab.order s.tabs) t' g (c ∙ shown) in
      let (t, e, d) =
        tab_of-found pane.id (shift_orders tab.order s.tabs) key
          (Unique-shift_orders tab.order s.tabs h.tabs_unique) k in
      inl (
        untabbed s h pane_id pane found key tab.order,
        rw (close_tab, k) refl,
        untabbed-WellFormed s h pane_id pane found key tab.order t e (d ∙ named),
        find-erase pane_id s.panes,
      )
    where
      tab_shown :
          (tab : Tab) → find pane.parent_id s.tabs ≡ some tab → tab.pane_or_split_id ≡ pane.id
      tab_shown tab f = elim ((h.pane_placed pane_id pane found).1) [
        | inl (t, g, c) ↦
            sym (ap (λ r. r.pane_or_split_id) (found_same pane.parent_id s.tabs g f))
            ∙ (c ∙ sym named)
        | inr (sp, g, _) ↦
            absurd (absent-found pane.parent_id s.splits (h.tab_not_split pane.parent_id tab f) g)
      ]

  -- One child is left.
  collapse-Closes :
      (sp one : Split F) (child : Uuid)
      → find pane.parent_id s.splits ≡ some sp
      → one.id ≡ sp.id
      → one.parent_id ≡ sp.parent_id
      → one.panes_or_splits ≡ child ∷ []
      → Removed pane_id sp.panes_or_splits one.panes_or_splits
      → Closes s pane_id pane (
          collapse one child
            (find child (erase pane_id s.panes))
            (record (without_pane pane_id s) { splits = assign pane.parent_id one s.splits }))
  unfolding Collapses
  collapse-Closes sp one child e i p c removed =
      elim (Option-cases (find child (erase pane_id s.panes))) [
        | inl left ↦ inr (
          rw left refl,
          (
            sp,
            e,
            sym (removed.0) ∙ ap (λ l. suc (length l)) c,
            child,
            removed.2 child (ap (listed child) c ∙ first child),
            left,
          ),
        )
        | inr (q, left) ↦ inl (
            subst
              (λ o.
                (done : MultiplexerState F) × (collapse one child o
                    (record (without_pane pane_id s) {
                      splits = assign pane.parent_id one s.splits;
                    })
                  ≡ ok done)
                × WellFormed done
                × (find pane_id done.panes ≡ none))
              (sym left) (collapse-ok s h pane_id pane found sp one child q e i p c removed left))
      ]

  -- The branch of `settle` with one child or none.
  last-Closes :
      (sp one : Split F) (children : List Uuid)
      → find pane.parent_id s.splits ≡ some sp
      → one.id ≡ sp.id
      → one.parent_id ≡ sp.parent_id
      → one.panes_or_splits ≡ children
      → length children ≡ 1
      → Removed pane_id sp.panes_or_splits one.panes_or_splits
      → Closes s pane_id pane (elim children [
        | [] ↦ undefined
        | child ∷ _ ↦
            collapse one child
              (find child (erase pane_id s.panes))
              (record (without_pane pane_id s) { splits = assign pane.parent_id one s.splits })
      ])
  last-Closes sp one [] e i p c single removed = absurd (omega arith)
  last-Closes sp one (child ∷ []) e i p c single removed =
      collapse-Closes sp one child e i p c removed
  last-Closes sp one (child ∷ b ∷ more) e i p c single removed = absurd (omega arith)

  settle-Closes :
      (sp one : Split F)
      → find pane.parent_id s.splits ≡ some sp
      → one.id ≡ sp.id
      → one.parent_id ≡ sp.parent_id
      → length one.sizes ≡ length one.panes_or_splits
      → Removed pane_id sp.panes_or_splits one.panes_or_splits
      → Closes s pane_id pane (settle floats pane.parent_id one (without_pane pane_id s))
  unfolding thinned
  settle-Closes sp one e i p sized removed =
      elim (Bool-cases (ltb 1 (length one.panes_or_splits))) [
        | inl big ↦ inl (
          thinned s h pane_id pane found pane.parent_id scaled,
          rw big refl,
          thinned-WellFormed s h pane_id pane found pane.parent_id sp scaled e i p removed
              (length-map _ one.sizes ∙ sized)
              (omega (arith, ltb→lt 1 (length one.panes_or_splits) big)),
          find-erase pane_id s.panes,
        )
        | inr small ↦
            let (_, two) = h.split_sized pane.parent_id sp e in
            let single : length one.panes_or_splits ≡ 1 =
              omega (arith, removed.0, two, ltb_false→le 1 (length one.panes_or_splits) small) in
            rw small (last-Closes sp one one.panes_or_splits e i p refl single removed)
      ]
    where
      scaled : Split F
      scaled = record one {
        sizes = map (floats.scale (suc (length one.sizes)) (length one.sizes)) one.sizes;
      }

  close_in_split-Closes :
      (sp : Split F)
      → find pane.parent_id s.splits ≡ some sp
      → listed pane.id sp.panes_or_splits ≡ true
      → Closes s pane_id pane
          (close_in_split floats pane.id pane.parent_id sp (without_pane pane_id s))
  close_in_split-Closes sp e l =
      let (a, cs, at, below, made, removed) = index_from-Removed pane.id sp.panes_or_splits l in
      let (same_size, two) = h.split_sized pane.parent_id sp e in
      let (zs, made', size) = erase_at-ok a sp.sizes (omega (arith, below, same_size)) in
      let one : Split F = record sp { panes_or_splits = cs; sizes = zs } in
      subst (λ r. Closes s pane_id pane r) (sym (taken sp a cs zs at made made'))
        (settle-Closes sp one e refl refl (omega (arith, size, same_size, removed.0))
          (subst (λ k. Removed k sp.panes_or_splits cs) named removed))
    where
      taken :
          (sp : Split F) (a : ℕ) (cs : List Uuid) (zs : List F)
          → index_from pane.id sp.panes_or_splits ≡ some a
          → erase_at a sp.panes_or_splits ≡ ok cs
          → erase_at a sp.sizes ≡ ok zs
          → close_in_split floats pane.id pane.parent_id sp (without_pane pane_id s)
            ≡ settle floats pane.parent_id
                (record sp { panes_or_splits = cs; sizes = zs })
                (without_pane pane_id s)
      taken sp a cs zs at made made' = rw (close_in_split, at) (rw (made, made') refl)

  pub close_found-Closes : Closes s pane_id pane (close_found floats pane_id (some pane) s)
  close_found-Closes = elim (Option-cases (find pane.parent_id s.tabs)) [
    | inr (tab, f) ↦ rw f (close_tab-Closes tab f)
    | inl f ↦ elim ((h.pane_placed pane_id pane found).1) [
      | inl (t, g, _) ↦ absurd (absent-found pane.parent_id s.tabs f g)
      | inr (sp, e, l) ↦
          let l' : listed pane.id sp.panes_or_splits ≡ true =
            ap (λ k. listed k sp.panes_or_splits) named ∙ l in
          rw f (
            subst
              (λ o. Closes s pane_id pane (close_under floats pane none o (without_pane pane_id s)))
              (sym e) (close_in_split-Closes sp e l'))
    ]
  ]

module _ {F : Type 0} where
  -- In a well-formed state a pane that exists and was not closed under this id before is closed:
  -- it is gone and the state is well formed, or the process aborts. It aborts only when the pane's
  -- split has one other child, and that child is no pane.
  pub close_pane-Closes :
      (floats : Floats F) (s : MultiplexerState F) (pane_id : Uuid) (pane : Pane)
      → WellFormed s
      → find pane_id s.panes ≡ some pane
      → listed pane_id s.closed ≡ false
      → Closes s pane_id pane (close_pane floats pane_id s)
  unfolding close_pane
  close_pane-Closes floats s pane_id pane h found fresh =
      rw fresh (rw found (close_found-Closes floats s h pane_id pane found))

  pub close_pane-Stays :
      (floats : Floats F) (s : MultiplexerState F) (pane_id : Uuid)
      → WellFormed s
      → Stays (close_pane floats pane_id s)
  close_pane-Stays floats s pane_id h = elim (Bool-cases (listed pane_id s.closed)) [
    | inl e ↦ inl (s, unfold close_pane in rw e refl, h)
    | inr fresh ↦ elim (Option-cases (find pane_id s.panes)) [
      | inl e ↦ inr (unfold close_pane in rw fresh (rw e refl))
      | inr (pane, found) ↦ elim (close_pane-Closes floats s pane_id pane h found fresh) [
        | inl (done, e, kept, _) ↦ inl (done, e, kept)
        | inr (e, _) ↦ inr e
      ]
    ]
  ]
