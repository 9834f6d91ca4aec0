-- ===== src/Htm/Splitting.antt =====
-- src/htm/MultiplexerState.cpp: newSplit.
use eternal_terminal.Common.{
  Bool, true, false, Option, none, some, List, [], ◌∷◌, ◌++◌, if◌then◌else◌, map, same, find,
  assign,
}
use eternal_terminal.Terminal.{started}
use eternal_terminal.Htm.{
  Uuid, Floats, Pane, Split, Tab, MultiplexerState, Result, ok, fatal, undefined, id_in_use, insert,
}

-- The loops that put one child in the place of another: they abort behind the last child, and
-- do nothing to a split without children.
abbrev pub replace_in : Uuid → Uuid → List Uuid → Result (List Uuid)
replace_in old new [] = fatal
replace_in old new (c ∷ cs) = if same c old then ok (new ∷ cs) else elim (replace_in old new cs) [
  | ok rest ↦ ok (c ∷ rest)
  | fatal ↦ fatal
  | undefined ↦ undefined
]

abbrev pub replace_child : Uuid → Uuid → List Uuid → Result (List Uuid)
replace_child old new [] = ok []
replace_child old new (c ∷ cs) = replace_in old new (c ∷ cs)

abbrev pub same_bool : Bool → Bool → Bool
same_bool true b = b
same_bool false true = false
same_bool false false = true

module _ {F : Type 0} where
  abbrev pub put_children :
      Uuid → Split F → MultiplexerState F → Result (List Uuid) → Result (MultiplexerState F)
  put_children key sp s (ok children) =
      ok (record s { splits = assign key (record sp { panes_or_splits = children }) s.splits })
  put_children key sp s fatal = fatal
  put_children key sp s undefined = undefined

  -- newSplit: the source's split goes on.
  abbrev pub continue_split :
      Floats F → Uuid → Split F → Uuid → Pane → MultiplexerState F → MultiplexerState F
  continue_split floats key sp pane_id new_pane s = record s {
    splits =
        assign key
          (record sp {
            sizes = map (floats.halve) sp.sizes ++ floats.half ∷ [];
            panes_or_splits = sp.panes_or_splits ++ pane_id ∷ [];
          })
          s.splits;
    panes = assign pane_id (record new_pane { parent_id = sp.id }) s.panes;
  }

  -- newSplit: a split of the source and the new pane, under a parent.
  abbrev pub make_split :
      Floats F
      → Bool
      → Uuid
      → Uuid
      → Pane
      → Uuid
      → Uuid
      → Pane
      → MultiplexerState F
      → MultiplexerState F
  make_split floats vertical parent_id source_id source pane_id split_id new_pane s = record s {
    splits =
        insert split_id
          (record {
            id = split_id;
            parent_id = parent_id;
            vertical = vertical;
            panes_or_splits = source_id ∷ pane_id ∷ [];
            sizes = floats.half ∷ floats.half ∷ [];
          })
          s.splits;
    panes =
        assign source_id (record source { parent_id = split_id })
          (assign pane_id (record new_pane { parent_id = split_id }) s.panes);
  }

  -- The source stands alone in a tab.
  abbrev pub split_root :
      Floats F
      → Bool
      → Uuid
      → Pane
      → Uuid
      → Uuid
      → Pane
      → Option Tab
      → MultiplexerState F
      → Result (MultiplexerState F)
  split_root floats vertical source_id source pane_id split_id new_pane none s = fatal
  split_root floats vertical source_id source pane_id split_id new_pane (some tab) s =
      let made = make_split floats vertical tab.id source_id source pane_id split_id new_pane s in
      ok (record made {
        tabs = assign source.parent_id (record tab { pane_or_split_id = split_id }) made.tabs;
      })

  -- The source's parent is a split, if it is one.
  abbrev pub split_under :
      Floats F
      → Bool
      → Uuid
      → Pane
      → Uuid
      → Uuid
      → Pane
      → Option (Split F)
      → MultiplexerState F
      → Result (MultiplexerState F)
  split_under floats vertical source_id source pane_id split_id new_pane none s =
      split_root floats vertical source_id source pane_id split_id new_pane
        (find source.parent_id s.tabs) s
  split_under floats vertical source_id source pane_id split_id new_pane (some sp) s =
      if same_bool sp.vertical vertical
      then ok (continue_split floats source.parent_id sp pane_id new_pane s)
      else put_children source.parent_id sp
          (make_split floats vertical sp.id source_id source pane_id split_id new_pane s)
          (replace_child source_id split_id sp.panes_or_splits)

  abbrev pub split_source :
      Floats F
      → Bool
      → Uuid
      → Uuid
      → Uuid
      → Pane
      → Option Pane
      → MultiplexerState F
      → Result (MultiplexerState F)
  split_source floats vertical source_id pane_id split_id new_pane none s = fatal
  split_source floats vertical source_id pane_id split_id new_pane (some source) s =
      split_under floats vertical source_id source pane_id split_id new_pane
        (find source.parent_id s.splits) s

  -- `split_id` is the uuid that a new split gets.
  unfoldable pub new_split :
      Floats F → Uuid → Uuid → Uuid → Bool → MultiplexerState F → Result (MultiplexerState F)
  new_split floats split_id source_id pane_id vertical s =
      if id_in_use pane_id s
      then fatal
      else (let new_pane : Pane = record { id = pane_id; parent_id = []; terminal = started } in
          let s' : MultiplexerState F = record s { panes = insert pane_id new_pane s.panes } in
          split_source floats vertical source_id pane_id split_id new_pane (find source_id s'.panes)
            s')
