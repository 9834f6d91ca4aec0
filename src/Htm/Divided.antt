-- ===== src/Htm/Divided.antt =====
-- newSplit of htm/MultiplexerState.cpp keeps the invariant, and when it aborts.
use eternal_terminal.Common.{
  ◌≤◌, false, none, some, [], ◌∷◌, ◌++◌, ◌≡◌, refl, ap, sym, ◌∙◌, subst, inl, inr, arith, length,
  length-append, length-map, map, find, assign, find-assign,
}
use eternal_terminal.Terminal.{started}
use eternal_terminal.Htm.{Uuid, Floats, Pane, Split, MultiplexerState, listed, id_in_use}
use eternal_terminal.Htm.Splitting.{continue_split}
use eternal_terminal.Htm.Children.{listed-append, listed_last}
use eternal_terminal.Htm.Placed.{
  HasParent, HasParent-change_split, pane_as, split_as, found_assigned, found_reassigned,
  absent_changed,
}
use eternal_terminal.Htm.WellFormed.{WellFormed, id_in_use-parts}

-- The new pane before it has a parent, and the state that has it.
abbrev pub fresh_pane : Uuid → Pane
fresh_pane pane_id = record { id = pane_id; parent_id = []; terminal = started }

abbrev pub with_pane : {F : Type 0} → Uuid → MultiplexerState F → MultiplexerState F
with_pane pane_id s = record s { panes = assign pane_id (fresh_pane pane_id) s.panes }

module _ {F : Type 0} (floats : Floats F) where
  pub continue_split-WellFormed :
      (key pane_id : Uuid) (sp : Split F) (s : MultiplexerState F)
      → id_in_use pane_id s ≡ false
      → find key s.splits ≡ some sp
      → WellFormed s
      → WellFormed (continue_split floats key sp pane_id (fresh_pane pane_id) (with_pane pane_id s))
  continue_split-WellFormed key pane_id sp s free e h =
      let (pp, ps, pt) = id_in_use-parts pane_id s free in
      let sp' : Split F = record sp {
        sizes = map (floats.halve) sp.sizes ++ floats.half ∷ [];
        panes_or_splits = sp.panes_or_splits ++ pane_id ∷ [];
      } in
      let named : sp.id ≡ key = (h.split_placed key sp e).0 in
      record {
        tabs_unique = h.tabs_unique;
        no_root = (h.no_root.0, absent_changed [] key sp' s.splits e (h.no_root.1));
        tab_not_split = λ id t f. absent_changed id key sp' s.splits e (h.tab_not_split id t f);
        pane_not_split = λ id p f.
            absent_changed id key sp' s.splits e (elim (found_reassigned id pane_id _ _ s.panes f) [
              | inl (k, _) ↦ subst (λ q. find q s.splits ≡ none) (sym k) ps
              | inr (_, g) ↦ h.pane_not_split id p g
            ]);
        tab_named = h.tab_named;
        pane_placed = λ id p f. elim (found_reassigned id pane_id _ _ s.panes f) [
          | inl (k, v) ↦ pane_as s.tabs (assign key sp' s.splits) k v (
            refl,
            inr (
              sp',
              ap (λ q. find q (assign key sp' s.splits)) named ∙ find-assign key sp' s.splits,
              listed_last pane_id sp.panes_or_splits,
            ),
          )
          | inr (_, g) ↦
              let (n, parent) = h.pane_placed id p g in (n, keep sp' refl p.parent_id id parent)
        ];
        split_placed = λ id q f. elim (found_assigned id key sp' s.splits f) [
          | inl (k, v) ↦
              split_as s.tabs (assign key sp' s.splits) k v
                (named, keep sp' refl sp.parent_id key ((h.split_placed key sp e).1))
          | inr (_, g) ↦
              let (n, parent) = h.split_placed id q g in (n, keep sp' refl q.parent_id id parent)
        ];
        split_sized = λ id q f. elim (found_assigned id key sp' s.splits f) [
          | inl (k, v) ↦
              subst
                (λ r. (length r.sizes ≡ length r.panes_or_splits) × (2 ≤ length r.panes_or_splits))
                (sym v) (grown (h.split_sized key sp e))
          | inr (_, g) ↦ h.split_sized id q g
        ];
      }
    where
      keep :
          (new : Split F)
          → new.panes_or_splits ≡ sp.panes_or_splits ++ pane_id ∷ []
          → (parent id : Uuid) → HasParent s.tabs s.splits parent id
          → HasParent s.tabs (assign key new s.splits) parent id
      keep new c parent id =
          HasParent-change_split s.tabs s.splits parent id key sp new e
            λ l. ap (listed id) c ∙ listed-append id sp.panes_or_splits (pane_id ∷ []) l

      grown :
          (length sp.sizes ≡ length sp.panes_or_splits) × (2 ≤ length sp.panes_or_splits)
          → (length (map (floats.halve) sp.sizes ++ floats.half ∷ [])
              ≡ length (sp.panes_or_splits ++ pane_id ∷ []))
            × (2 ≤ length (sp.panes_or_splits ++ pane_id ∷ []))
      grown (a, b) =
          let c = length-append (map (floats.halve) sp.sizes) (floats.half ∷ []) in
          let d = length-append sp.panes_or_splits (pane_id ∷ []) in
          let m = length-map (floats.halve) sp.sizes in
          (omega (arith, a, c, d, m), omega (arith, b, d))
