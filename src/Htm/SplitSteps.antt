-- ===== src/Htm/SplitSteps.antt =====
-- How newSplit of htm/MultiplexerState.cpp ends in a well-formed state, whatever ids it is given.
use eternal_terminal.Common.{
  Bool, false, none, [], ◌≡◌, ◌≢◌, refl, subst, inl, inr, same, same-eq, find, find-assign,
  Bool-cases, Option-cases,
}
use eternal_terminal.Htm.{Uuid, Floats, MultiplexerState, fatal, id_in_use}
use eternal_terminal.Htm.Splitting.{new_split}
use eternal_terminal.Htm.Placed.{insert_absent, absent_assigned}
use eternal_terminal.Htm.WellFormed.{WellFormed, id_in_use-parts, Stays}
use eternal_terminal.Htm.Divided.{fresh_pane}
use eternal_terminal.Htm.Turned.{new_split-ok}

module _ {F : Type 0} where
  -- The new pane itself is no source: it has no parent yet.
  own_source :
      (floats : Floats F) (split_id pane_id : Uuid) (vertical : Bool) (s : MultiplexerState F)
      → WellFormed s
      → id_in_use pane_id s ≡ false
      → new_split floats split_id pane_id pane_id vertical s ≡ fatal
  unfolding new_split
  own_source floats split_id pane_id vertical s h free =
      let (pp, ps, pt) = id_in_use-parts pane_id s free in
      let (tabs₁, splits₁) = h.no_root in
      rw free (
        rw (insert_absent pane_id (fresh_pane pane_id) s.panes pp)
          (rw (find-assign pane_id (fresh_pane pane_id) s.panes) (rw (splits₁, tabs₁) refl)))

  no_source :
      (floats : Floats F) (split_id source_id pane_id : Uuid) (vertical : Bool)
      → (s : MultiplexerState F) → id_in_use pane_id s ≡ false
      → same pane_id source_id ≡ false
      → find source_id s.panes ≡ none
      → new_split floats split_id source_id pane_id vertical s ≡ fatal
  unfolding new_split
  no_source floats split_id source_id pane_id vertical s free other e =
      let (pp, ps, pt) = id_in_use-parts pane_id s free in
      let e' = absent_assigned source_id pane_id (fresh_pane pane_id) s.panes other e in
      rw free (rw (insert_absent pane_id (fresh_pane pane_id) s.panes pp) (rw e' refl))

  pub new_split-Stays :
      (floats : Floats F) (split_id source_id pane_id : Uuid) (vertical : Bool)
      → (s : MultiplexerState F) → split_id ≢ []
      → id_in_use split_id s ≡ false
      → same split_id pane_id ≡ false
      → WellFormed s
      → Stays (new_split floats split_id source_id pane_id vertical s)
  new_split-Stays floats split_id source_id pane_id vertical s named split_free apart h =
      elim (Bool-cases (id_in_use pane_id s)) [
        | inl e ↦ inr (unfold new_split in rw e refl)
        | inr pane_free ↦ elim (Option-cases (find source_id s.panes)) [
          | inr (source, found) ↦ inl (
              new_split-ok floats vertical s h source_id pane_id split_id source found pane_free
                split_free apart named)
          | inl absent ↦ elim (Bool-cases (same pane_id source_id)) [
            | inl e ↦ inr (
                subst (λ q. new_split floats split_id q pane_id vertical s ≡ fatal)
                  (same-eq pane_id source_id e)
                  (own_source floats split_id pane_id vertical s h pane_free))
            | inr e ↦
                inr (no_source floats split_id source_id pane_id vertical s pane_free e absent)
          ]
        ]
      ]
