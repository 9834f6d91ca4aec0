-- ===== src/Htm/Closed.antt =====
-- closePane of htm/MultiplexerState.cpp for the only pane of a tab, and for a pane of a split that
-- keeps more than one child.
use eternal_terminal.Common.{
  ℕ, ◌≤◌, false, some, List, [], ◌∷◌, ◌≡◌, ◌≢◌, ap, sym, ◌∙◌, subst, inl, inr, length, same,
  same_refl, find, erase, assign, found_erased,
}
use eternal_terminal.Htm.{Uuid, Pane, Split, Tab, MultiplexerState}
use eternal_terminal.Htm.Closing.{shift_orders}
use eternal_terminal.Htm.Children.{Removed}
use eternal_terminal.Htm.Placed.{
  HasParent, HasParent-change_split, HasParent-erase_tab, split_as, found_assigned, absent_changed,
  absent_erased, found_same, differ,
}
use eternal_terminal.Htm.Tabs.{
  Unique-erase, Unique-shift_orders, shifted, unshifted, shifted_absent,
}
use eternal_terminal.Htm.WellFormed.{WellFormed}

module _ {F : Type 0} where
  abbrev pub without_pane : Uuid → MultiplexerState F → MultiplexerState F
  without_pane pane_id s = record s { panes = erase pane_id s.panes; closed = pane_id ∷ s.closed }

  HasParent-shift_orders :
      (tabs : List (Uuid × Tab)) (splits : List (Uuid × Split F)) (parent id : Uuid) (order : ℕ)
      → HasParent tabs splits parent id
      → HasParent (shift_orders order tabs) splits parent id
  HasParent-shift_orders tabs splits parent id order (inr hp) = inr hp
  HasParent-shift_orders tabs splits parent id order (inl (t, e, l)) =
      let (t', e', l') = shifted order parent tabs t e in inl (t', e', l' ∙ l)

module _ {F : Type 0} (s : MultiplexerState F) (h : WellFormed s) (pane_id : Uuid) (pane : Pane)
    (found : find pane_id s.panes ≡ some pane) where
  pub pane_named : pane.id ≡ pane_id
  pane_named = (h.pane_placed pane_id pane found).0

  pub split_apart : (id : Uuid) {q : Split F} → find id s.splits ≡ some q → same pane_id id ≡ false
  split_apart id g = differ id pane_id s.splits (h.pane_not_split pane_id pane found) g

  unfoldable pub untabbed : Uuid → ℕ → MultiplexerState F
  untabbed key order = record (without_pane pane_id s) {
    tabs = erase key (shift_orders order s.tabs);
  }

  pub untabbed-WellFormed :
      (key : Uuid) (order : ℕ) (t : Tab)
      → find key (shift_orders order s.tabs) ≡ some t
      → t.pane_or_split_id ≡ pane_id
      → WellFormed (untabbed key order)
  unfolding untabbed
  untabbed-WellFormed key order t e shown =
      let tabs₁ : List (Uuid × Tab) = shift_orders order s.tabs in
      let keep : (id parent : Uuid)
          → same pane_id id ≡ false
          → HasParent s.tabs s.splits parent id
          → HasParent (erase key tabs₁) s.splits parent id =
        λ id parent other hp.
          HasParent-erase_tab tabs₁ s.splits parent id key
            (λ old f c. shows_other id old other (found_same key tabs₁ f e) c)
            (HasParent-shift_orders s.tabs s.splits parent id order hp) in
      record {
        tabs_unique = Unique-erase key tabs₁ (Unique-shift_orders order s.tabs h.tabs_unique);
        no_root = (
          absent_erased [] key tabs₁ (shifted_absent order [] s.tabs (h.no_root.0)),
          h.no_root.1,
        );
        tab_not_split = λ id u f.
            let (_, g) = found_erased id key tabs₁ f in
            let (old, g', _) = unshifted order id s.tabs u g in h.tab_not_split id old g';
        pane_not_split =
            λ id p f. let (_, g) = found_erased id pane_id s.panes f in h.pane_not_split id p g;
        tab_named = λ id u f.
            let (_, g) = found_erased id key tabs₁ f in
            let (old, g', n) = unshifted order id s.tabs u g in n ∙ h.tab_named id old g';
        pane_placed = λ id p f.
            let (other, g) = found_erased id pane_id s.panes f in
            let (n, parent) = h.pane_placed id p g in (n, keep id p.parent_id other parent);
        split_placed = λ id q f.
            let (n, parent) = h.split_placed id q f in
            (n, keep id q.parent_id (split_apart id f) parent);
        split_sized = h.split_sized;
      }
    where
      shows_other :
          (id : Uuid) (old : Tab) → same pane_id id ≡ false → old ≡ t → old.pane_or_split_id ≢ id
      shows_other id old other v c =
          let e' : pane_id ≡ id = sym shown ∙ (sym (ap (λ r. r.pane_or_split_id) v) ∙ c) in
          cc (same_refl pane_id, ap (same pane_id) e', other)

  -- The pane leaves a split.
  unfoldable pub thinned : Uuid → Split F → MultiplexerState F
  thinned key sp = record (without_pane pane_id s) { splits = assign key sp s.splits }

  pub thinned-WellFormed :
      (key : Uuid) (sp new : Split F)
      → find key s.splits ≡ some sp
      → new.id ≡ sp.id
      → new.parent_id ≡ sp.parent_id
      → Removed pane_id sp.panes_or_splits new.panes_or_splits
      → length new.sizes ≡ length new.panes_or_splits
      → 2 ≤ length new.panes_or_splits
      → WellFormed (thinned key new)
  unfolding thinned
  thinned-WellFormed key sp new e i q (size, keeps, back) sized two =
      let keep : (id parent : Uuid)
          → same pane_id id ≡ false
          → HasParent s.tabs s.splits parent id
          → HasParent s.tabs (assign key new s.splits) parent id =
        λ id parent other hp.
          HasParent-change_split s.tabs s.splits parent id key sp new e (keeps id other) hp in
      record {
        tabs_unique = h.tabs_unique;
        no_root = (h.no_root.0, absent_changed [] key new s.splits e (h.no_root.1));
        tab_not_split = λ id t f. absent_changed id key new s.splits e (h.tab_not_split id t f);
        pane_not_split = λ id p f.
            let (_, g) = found_erased id pane_id s.panes f in
            absent_changed id key new s.splits e (h.pane_not_split id p g);
        tab_named = h.tab_named;
        pane_placed = λ id p f.
            let (other, g) = found_erased id pane_id s.panes f in
            let (n, parent) = h.pane_placed id p g in (n, keep id p.parent_id other parent);
        split_placed = λ id r f. elim (found_assigned id key new s.splits f) [
          | inl (k, v) ↦
              let (n, parent) = h.split_placed key sp e in
              split_as s.tabs (assign key new s.splits) k v (
                i ∙ n,
                subst (λ o. HasParent s.tabs (assign key new s.splits) o key) (sym q)
                    (keep key sp.parent_id (split_apart key e) parent),
              )
          | inr (_, g) ↦
              let (n, parent) = h.split_placed id r g in
              (n, keep id r.parent_id (split_apart id g) parent)
        ];
        split_sized = λ id r f. elim (found_assigned id key new s.splits f) [
          | inl (k, v) ↦
              subst
                (λ o. (length o.sizes ≡ length o.panes_or_splits) × (2 ≤ length o.panes_or_splits))
                (sym v) (sized, two)
          | inr (_, g) ↦ h.split_sized id r g
        ];
      }
