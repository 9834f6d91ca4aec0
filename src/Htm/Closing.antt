-- ===== src/Htm/Closing.antt =====
-- src/htm/MultiplexerState.cpp: closePane.
use eternal_terminal.Common.{
  ℕ, zero, suc, ◌-◌, Option, none, some, List, [], ◌∷◌, if◌then◌else◌, length, map, ltb, same, find,
  erase, assign,
}
use eternal_terminal.Htm.{
  Uuid, Floats, Pane, Split, Tab, MultiplexerState, Result, ok, fatal, undefined, listed,
}
use eternal_terminal.Htm.Splitting.{replace_child, put_children}

-- The tabs behind the closed one move up.
abbrev pub move_up : ℕ → Tab → Tab
move_up order t = if ltb order t.order then record t { order = t.order - 1 } else t

abbrev pub shift_orders : ℕ → List (Uuid × Tab) → List (Uuid × Tab)
shift_orders order [] = []
shift_orders order ((key, t) ∷ tabs) = (key, move_up order t) ∷ shift_orders order tabs

-- The key of the tab that shows a pane.
abbrev pub tab_of : Uuid → List (Uuid × Tab) → Option Uuid
tab_of pane_id [] = none
tab_of pane_id ((key, t) ∷ tabs) =
    let rest = tab_of pane_id tabs in if same t.pane_or_split_id pane_id then some key else rest

abbrev pub index_from : Uuid → List Uuid → Option ℕ
index_from id [] = none
index_from id (c ∷ cs) =
    let rest = index_from id cs in
    if same c id then some 0 else elim rest [ none ↦ none | some i ↦ some (suc i) ]

-- `v.erase(v.begin() + a)`.
abbrev pub erase_at {ℓ} : {A : Type ℓ} → ℕ → List A → Result (List A)
erase_at a [] = undefined
erase_at zero (x ∷ xs) = ok xs
erase_at (suc a) (x ∷ xs) = elim (erase_at a xs) [
  | ok rest ↦ ok (x ∷ rest)
  | fatal ↦ fatal
  | undefined ↦ undefined
]

module _ {F : Type 0} where
  abbrev pub close_tab : Uuid → Tab → MultiplexerState F → Result (MultiplexerState F)
  close_tab pane_id tab s =
      let tabs = shift_orders tab.order s.tabs in
      elim (tab_of pane_id tabs) [
        | none ↦ fatal
        | some key ↦ ok (record s { tabs = erase key tabs })
      ]

  -- The split goes; the parent keeps the pane in its place.
  abbrev drop_split : Uuid → Result (MultiplexerState F) → Result (MultiplexerState F)
  drop_split id (ok s) = ok (record s { splits = erase id s.splits })
  drop_split id fatal = fatal
  drop_split id undefined = undefined

  abbrev pub into_split :
      Split F → Uuid → Option (Split F) → MultiplexerState F → Result (MultiplexerState F)
  into_split sp pane_id none s = fatal
  into_split sp pane_id (some parent) s =
      put_children sp.parent_id parent s (replace_child sp.id pane_id parent.panes_or_splits)

  abbrev pub into_parent :
      Split F → Uuid → Option Tab → MultiplexerState F → Result (MultiplexerState F)
  into_parent sp pane_id none s = into_split sp pane_id (find sp.parent_id s.splits) s
  into_parent sp pane_id (some tab) s =
      ok
        (record s { tabs = assign sp.parent_id (record tab { pane_or_split_id = pane_id }) s.tabs })

  -- getPane aborts when the child that is left is a split.
  abbrev pub collapse :
      Split F → Uuid → Option Pane → MultiplexerState F → Result (MultiplexerState F)
  collapse sp child none s = fatal
  collapse sp child (some pane) s =
      let moved : MultiplexerState F = record s {
        panes = assign child (record pane { parent_id = sp.parent_id }) s.panes;
      } in
      drop_split sp.id (into_parent sp pane.id (find sp.parent_id s.tabs) moved)

  -- What follows once the child is out of its split.
  abbrev pub settle : Floats F → Uuid → Split F → MultiplexerState F → Result (MultiplexerState F)
  settle floats key sp s =
      if ltb 1 (length sp.panes_or_splits)
      then ok (record s {
        splits =
            assign key
              (record sp {
                sizes = map (floats.scale (suc (length sp.sizes)) (length sp.sizes)) sp.sizes;
              })
              s.splits;
      })
      else elim sp.panes_or_splits [
        | [] ↦ undefined
        | child ∷ _ ↦
            collapse sp child (find child s.panes) (record s { splits = assign key sp s.splits })
      ]

  abbrev pub without :
      Floats F
      → Uuid
      → Split F
      → Result (List Uuid)
      → Result (List F)
      → MultiplexerState F
      → Result (MultiplexerState F)
  without floats key sp (ok children) (ok sizes) s =
      settle floats key (record sp { panes_or_splits = children; sizes = sizes }) s
  without floats key sp fatal sizes s = fatal
  without floats key sp undefined sizes s = undefined
  without floats key sp (ok children) fatal s = fatal
  without floats key sp (ok children) undefined s = undefined

  -- The loop that looks for the child: it aborts behind the last one; with no child at all it
  -- leaves the split as it is.
  abbrev pub close_in_split :
      Floats F → Uuid → Uuid → Split F → MultiplexerState F → Result (MultiplexerState F)
  close_in_split floats pane_id key sp s = elim (index_from pane_id sp.panes_or_splits) [
    | some a ↦ without floats key sp (erase_at a sp.panes_or_splits) (erase_at a sp.sizes) s
    | none ↦ elim sp.panes_or_splits [ [] ↦ settle floats key sp s | _ ∷ _ ↦ fatal ]
  ]

  abbrev pub close_under :
      Floats F
      → Pane
      → Option Tab
      → Option (Split F)
      → MultiplexerState F
      → Result (MultiplexerState F)
  close_under floats pane (some tab) split s = close_tab pane.id tab s
  close_under floats pane none (some sp) s = close_in_split floats pane.id pane.parent_id sp s
  close_under floats pane none none s = fatal

  -- The pane's terminal is stopped; it goes with the pane.
  abbrev pub close_found :
      Floats F → Uuid → Option Pane → MultiplexerState F → Result (MultiplexerState F)
  close_found floats pane_id none s = fatal
  close_found floats pane_id (some pane) s =
      close_under floats pane (find pane.parent_id s.tabs) (find pane.parent_id s.splits)
        (record s { panes = erase pane_id s.panes; closed = pane_id ∷ s.closed })

  unfoldable pub close_pane : Floats F → Uuid → MultiplexerState F → Result (MultiplexerState F)
  close_pane floats pane_id s =
      if listed pane_id s.closed then ok s else close_found floats pane_id (find pane_id s.panes) s
