-- ===== src/Htm/WellFormed.antt =====
-- The invariant of htm/MultiplexerState.cpp, and newTab.
use eternal_terminal.Common.{
  ℕ, ◌≤◌, false, ◌||◌, Option, none, some, List, [], ◌≡◌, ◌≢◌, refl, ap, sym, ◌∙◌, subst, ◌⊎◌, inl,
  inr, length, same-false, find, assign, find-assign, Bool-cases, Option-cases,
}
use eternal_terminal.Terminal.{started, TerminalHandler, append_data, update_terminal_size}
use eternal_terminal.Htm.{
  Uuid, Pane, Split, Tab, MultiplexerState, Result, ok, fatal, is_found, id_in_use, new_tab,
  on_pane, append_to_pane, resize_pane,
}
use eternal_terminal.Htm.Placed.{
  HasParent-new_tab, PanePlaced, SplitPlaced, pane_as, found_assigned, insert_absent,
  absent_assigned,
}
use eternal_terminal.Htm.Tabs.{Unique, Unique-assign}

module _ {F : Type 0} where
  pub record WellFormed (s : MultiplexerState F) : Type 0 where
    pub tabs_unique : Unique s.tabs
    pub no_root : (find [] s.tabs ≡ none) × (find [] s.splits ≡ none)
    pub tab_not_split : (id : Uuid) (t : Tab) → find id s.tabs ≡ some t → find id s.splits ≡ none
    pub pane_not_split : (id : Uuid) (p : Pane) → find id s.panes ≡ some p → find id s.splits ≡ none
    pub tab_named : (id : Uuid) (t : Tab) → find id s.tabs ≡ some t → t.id ≡ id
    pub pane_placed :
        (id : Uuid) (p : Pane) → find id s.panes ≡ some p → PanePlaced s.tabs s.splits id p
    pub split_placed :
        (id : Uuid) (sp : Split F) → find id s.splits ≡ some sp → SplitPlaced s.tabs s.splits id sp
    pub split_sized :
        (id : Uuid) (sp : Split F)
        → find id s.splits ≡ some sp
        → (length sp.sizes ≡ length sp.panes_or_splits) × (2 ≤ length sp.panes_or_splits)

  -- What a free id tells of the maps.
  pub id_in_use-parts :
      (id : Uuid) (s : MultiplexerState F)
      → id_in_use id s ≡ false
      → (find id s.panes ≡ none) × (find id s.splits ≡ none) × (find id s.tabs ≡ none)
  unfolding id_in_use
  id_in_use-parts id s h = parts (find id s.panes) (find id s.splits) (find id s.tabs) h
    where
      parts :
          {A B C : Type 0} (a : Option A) (b : Option B) (c : Option C)
          → is_found a || (is_found b || is_found c) ≡ false
          → (a ≡ none) × (b ≡ none) × (c ≡ none)
      parts none none none h = (refl, refl, refl)
      parts none none (some c) h = absurd cc
      parts none (some b) c h = absurd cc
      parts (some a) b c h = absurd cc

  -- How a step of the multiplexer ends: in a well-formed state, or by STFATAL, never outside a
  -- vector's bounds.
  abbrev pub Stays : Result (MultiplexerState F) → Type 0
  Stays r = ((s : MultiplexerState F) × (r ≡ ok s) × WellFormed s) ⊎ (r ≡ fatal)

  opened : Uuid → Uuid → MultiplexerState F → MultiplexerState F
  opened tab_id pane_id s = record s {
    tabs =
        assign tab_id (record { id = tab_id; pane_or_split_id = pane_id; order = length s.tabs })
          s.tabs;
    panes =
        assign pane_id (record { id = pane_id; parent_id = tab_id; terminal = started }) s.panes;
  }

  opened-WellFormed :
      (tab_id pane_id : Uuid) (s : MultiplexerState F)
      → tab_id ≢ []
      → id_in_use tab_id s ≡ false
      → id_in_use pane_id s ≡ false
      → WellFormed s
      → WellFormed (opened tab_id pane_id s)
  unfolding opened
  opened-WellFormed tab_id pane_id s named ht hp h =
      let (tp, ts, tt₁) = id_in_use-parts tab_id s ht in
      let (pp, ps, pt) = id_in_use-parts pane_id s hp in
      let tab : Tab = record { id = tab_id; pane_or_split_id = pane_id; order = length s.tabs } in
      record {
        tabs_unique = Unique-assign tab_id tab s.tabs h.tabs_unique;
        no_root = (
          absent_assigned [] tab_id tab s.tabs (same-false tab_id [] named) (h.no_root.0),
          h.no_root.1,
        );
        tab_not_split = λ id t e. elim (found_assigned id tab_id tab s.tabs e) [
          | inl (k, _) ↦ subst (λ q. find q s.splits ≡ none) (sym k) ts
          | inr (_, f) ↦ h.tab_not_split id t f
        ];
        pane_not_split = λ id p e. elim (found_assigned id pane_id _ s.panes e) [
          | inl (k, _) ↦ subst (λ q. find q s.splits ≡ none) (sym k) ps
          | inr (_, f) ↦ h.pane_not_split id p f
        ];
        tab_named = λ id t e. elim (found_assigned id tab_id tab s.tabs e) [
          | inl (k, v) ↦ ap (λ r. r.id) v ∙ sym k
          | inr (_, f) ↦ h.tab_named id t f
        ];
        pane_placed = λ id p e. elim (found_assigned id pane_id _ s.panes e) [
          | inl (k, v) ↦
              pane_as (assign tab_id tab s.tabs) s.splits k v
                (refl, inl (tab, find-assign tab_id tab s.tabs, refl))
          | inr (_, f) ↦
              let (n, parent) = h.pane_placed id p f in
              (n, HasParent-new_tab s.tabs s.splits p.parent_id id tab_id tab tt₁ parent)
        ];
        split_placed = λ id sp e.
            let (n, parent) = h.split_placed id sp e in
            (n, HasParent-new_tab s.tabs s.splits sp.parent_id id tab_id tab tt₁ parent);
        split_sized = h.split_sized;
      }

  pub new_tab-Stays :
      (tab_id pane_id : Uuid) (s : MultiplexerState F)
      → tab_id ≢ []
      → WellFormed s
      → Stays (new_tab tab_id pane_id s)
  unfolding new_tab opened
  new_tab-Stays tab_id pane_id s named h = elim (Bool-cases (id_in_use tab_id s)) [
    | inl e ↦ inr (rw e refl)
    | inr ht ↦ elim (Bool-cases (id_in_use pane_id s)) [
      | inl e ↦ inr (rw (ht, e) refl)
      | inr hp ↦
          let (tp, ts, tt₁) = id_in_use-parts tab_id s ht in
          let (pp, ps, pt) = id_in_use-parts pane_id s hp in
          inl (
            opened tab_id pane_id s,
            rw (ht, hp)
                (rw (insert_absent tab_id _ s.tabs tt₁, insert_absent pane_id _ s.panes pp) refl),
            opened-WellFormed tab_id pane_id s named ht hp h,
          )
    ]
  ]

  -- Another terminal in a pane.
  unfoldable pub repainted : Uuid → Pane → TerminalHandler → MultiplexerState F → MultiplexerState F
  repainted id p t s = record s { panes = assign id (record p { terminal = t }) s.panes }

  pub repainted-WellFormed :
      (id : Uuid) (p : Pane) (t : TerminalHandler) (s : MultiplexerState F)
      → find id s.panes ≡ some p
      → WellFormed s
      → WellFormed (repainted id p t s)
  unfolding repainted
  repainted-WellFormed id p t s e h =
      let p' : Pane = record p { terminal = t } in
      record {
        tabs_unique = h.tabs_unique;
        no_root = h.no_root;
        tab_not_split = h.tab_not_split;
        pane_not_split = λ id' q f. elim (found_assigned id' id p' s.panes f) [
          | inl (k, _) ↦ h.pane_not_split id' p (ap (λ q'. find q' s.panes) k ∙ e)
          | inr (_, g) ↦ h.pane_not_split id' q g
        ];
        tab_named = h.tab_named;
        pane_placed = λ id' q f. elim (found_assigned id' id p' s.panes f) [
          | inl (k, v) ↦ pane_as s.tabs s.splits k v (h.pane_placed id p e)
          | inr (_, g) ↦ h.pane_placed id' q g
        ];
        split_placed = h.split_placed;
        split_sized = h.split_sized;
      }

  on_pane-Stays :
      (f : TerminalHandler → TerminalHandler) (id : Uuid) (s : MultiplexerState F)
      → WellFormed s
      → Stays (on_pane f id s (find id s.panes))
  unfolding repainted
  on_pane-Stays f id s h = elim (Option-cases (find id s.panes)) [
    | inl e ↦ inr (rw e refl)
    | inr (p, e) ↦
        inl (
          repainted id p (f p.terminal) s,
          rw e refl,
          repainted-WellFormed id p (f p.terminal) s e h,
        )
  ]

  pub append_to_pane-Stays :
      (id : Uuid) (takes : Option ℕ) (data₁ : List ℕ) (s : MultiplexerState F)
      → WellFormed s
      → Stays (append_to_pane id takes data₁ s)
  unfolding append_to_pane
  append_to_pane-Stays id takes data₁ s h =
      on_pane-Stays (λ t. (append_data takes data₁ t).1) id s h

  pub resize_pane-Stays :
      (id : Uuid) (cols rows : ℕ) (s : MultiplexerState F)
      → WellFormed s
      → Stays (resize_pane id cols rows s)
  unfolding resize_pane
  resize_pane-Stays id cols rows s h = on_pane-Stays (update_terminal_size cols rows) id s h
