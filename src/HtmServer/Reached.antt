-- ===== src/HtmServer/Reached.antt =====
-- The states that htm/HtmServer.cpp reaches, and how a round ends in them.
use eternal_terminal.Common.{
  ℕ, Bool, true, false, not, ◌&&◌, ◌||◌, Option, none, some, List, [], ◌∷◌, ◌≡◌, ◌≢◌, refl, ap, sym,
  ◌∙◌, subst, ◌⊎◌, inl, inr, if◌then◌else◌, is_empty, same, find, find-assign, same-false,
  Option-cases,
}
use eternal_terminal.Terminal.{Output, TerminalHandler, poll_user_terminal}
use eternal_terminal.Htm.{Uuid, Floats, Pane, Tab, MultiplexerState, Result, ok, fatal, id_in_use}
use eternal_terminal.Htm.WellFormed.{
  WellFormed, Stays, new_tab-Stays, append_to_pane-Stays, resize_pane-Stays, repainted,
  repainted-WellFormed,
}
use eternal_terminal.Htm.Placed.{found_assigned, absent_assigned, pane_as}
use eternal_terminal.Htm.Tabs.{Unique}
use eternal_terminal.Htm.SplitSteps.{new_split-Stays}
use eternal_terminal.Htm.CloseSteps.{close_pane-Stays}
use eternal_terminal.Htm.Closing.{close_pane}
use eternal_terminal.HtmServer.{
  Command, Round, HtmServer, accepts, read_fails, event, insert_keys, insert_debug_keys, make_tab,
  make_split, resize, client_close_pane, unknown, first_char, keys, initial, with_state,
  after_append, stop_if_empty, on_debug_key, handle_command, polled, tell_closed, update,
  server_close_pane, then_update, step,
}

-- The ids that the client makes are not empty, and the uuid of a new split is new.
abbrev pub IsFreshFor : {F : Type 0} → Uuid → MultiplexerState F → Command → Type 0
IsFreshFor split_id s (make_tab tab_id pane_id) = tab_id ≢ []
IsFreshFor split_id s (make_split source_id pane_id vertical) =
    (split_id ≢ []) × (id_in_use split_id s ≡ false) × (same split_id pane_id ≡ false)
IsFreshFor split_id s _ = Unit

abbrev pub IsFresh : {F : Type 0} → Uuid → MultiplexerState F → Round → Type 0
IsFresh split_id s (event (some c) outputs writes) = IsFreshFor split_id s c
IsFresh split_id s _ = Unit

-- A server with a well-formed state, or the end of the process.
abbrev pub StaysUp : {F : Type 0} → Result (HtmServer F) → Type 0
StaysUp {F} r = ((v : HtmServer F) × (r ≡ ok v) × WellFormed v.state) ⊎ (r ≡ fatal)

-- The only entry of a map.
only_entry :
    {A : Type 0} (key id : Uuid) (a b : A) → find id ((key, a) ∷ []) ≡ some b → (id ≡ key) × (b ≡ a)
only_entry key id a b e = elim (found_assigned id key a [] e) [
  | inl h ↦ h
  | inr (_, f) ↦ absurd (cc f)
]

same_end : {A : Type 0} (a b : A) → ok a ≡ ok b → b ≡ a
same_end a b h = cc

module _ {F : Type 0} where
  with_state-StaysUp :
      (v : HtmServer F) (r : Result (MultiplexerState F)) → Stays r → StaysUp (with_state v r)
  with_state-StaysUp v r (inl (s, e, h)) = inl (record v { state = s }, rw e refl, h)
  with_state-StaysUp v r (inr e) = inr (rw e refl)

  after_append-StaysUp :
      (takes : Option ℕ) (r : Result (HtmServer F)) → StaysUp r → StaysUp (after_append takes r)
  after_append-StaysUp none r h = h
  after_append-StaysUp (some n) r (inl (v, e, h)) =
      inl (record v { connected = false }, rw e refl, h)
  after_append-StaysUp (some n) r (inr e) = inr (rw e refl)

  stop_if_empty-StaysUp : (r : Result (HtmServer F)) → StaysUp r → StaysUp (stop_if_empty r)
  stop_if_empty-StaysUp r (inl (v, e, h)) =
      inl (record v { running = v.running && not (is_empty v.state.panes) }, rw e refl, h)
  stop_if_empty-StaysUp r (inr e) = inr (rw e refl)

  handle_command-StaysUp :
      (floats : Floats F) (split_id : Uuid) (c : Command) (v : HtmServer F)
      → IsFreshFor split_id v.state c
      → WellFormed v.state
      → StaysUp (handle_command floats split_id c v)
  unfolding handle_command
  handle_command-StaysUp floats split_id (insert_keys uid data₁ takes) v fresh h =
      after_append-StaysUp takes _
        (with_state-StaysUp v _ (append_to_pane-Stays uid takes data₁ v.state h))
  handle_command-StaysUp floats split_id (insert_debug_keys data₁) v fresh h =
      inl (on_debug_key (first_char data₁) v, refl, h)
  handle_command-StaysUp floats split_id (make_tab tab_id pane_id) v fresh h =
      with_state-StaysUp v _ (new_tab-Stays tab_id pane_id v.state fresh h)
  handle_command-StaysUp floats split_id (make_split source_id pane_id vertical) v
        (named, free, off) h =
      with_state-StaysUp v _
        (new_split-Stays floats split_id source_id pane_id vertical v.state named free off h)
  handle_command-StaysUp floats split_id (resize cols rows pane_id) v fresh h =
      with_state-StaysUp v _ (resize_pane-Stays pane_id cols rows v.state h)
  handle_command-StaysUp floats split_id (client_close_pane pane_id) v fresh h =
      stop_if_empty-StaysUp _ (with_state-StaysUp v _ (close_pane-Stays floats v.state pane_id h))
  handle_command-StaysUp floats split_id (unknown header) v fresh h = inr refl

  polled-WellFormed :
      (id : Uuid) (pane : Pane) (got : List ℕ × TerminalHandler) (v : HtmServer F)
      → find id v.state.panes ≡ some pane
      → WellFormed v.state
      → WellFormed ((polled id pane got v).state)
  unfolding repainted
  polled-WellFormed id pane (data₁, terminal) v e h =
      repainted-WellFormed id pane terminal v.state e h

  tell_closed-StaysUp :
      (id : Uuid) (goes : Bool) (r : Result (HtmServer F))
      → StaysUp r
      → StaysUp (tell_closed id goes r)
  tell_closed-StaysUp id goes r (inl (v, e, h)) = inl (
    record v { sent = server_close_pane id ∷ v.sent; connected = v.connected && goes },
    rw e refl,
    h,
  )
  tell_closed-StaysUp id goes r (inr e) = inr (rw e refl)

  -- The ends of a pane's turn in `update`.
  turn_ends :
      (goes alive : Bool) (dropped : HtmServer F) (rest shut : Result (HtmServer F))
      → WellFormed dropped.state
      → StaysUp rest
      → StaysUp shut
      → StaysUp
          (elim goes [ false ↦ ok dropped | true ↦ elim alive [ true ↦ rest | false ↦ shut ] ])
  turn_ends false alive dropped rest shut h a b = inl (dropped, refl, h)
  turn_ends true true dropped rest shut h a b = a
  turn_ends true false dropped rest shut h a b = b

  update-StaysUp :
      (floats : Floats F) (outputs : Uuid → List Output) (writes : Uuid → Bool) (ids : List Uuid)
      → (v : HtmServer F) → WellFormed v.state
      → StaysUp (update floats outputs writes ids v)
  unfolding update
  update-StaysUp floats outputs writes [] v h = inl (v, refl, h)
  update-StaysUp floats outputs writes (id ∷ ids) v h =
      elim (Option-cases (find id v.state.panes)) [
        | inl e ↦ rw (update, e) (update-StaysUp floats outputs writes ids v h)
        | inr (pane, e) ↦
            let got = poll_user_terminal (outputs id) pane.terminal in
            let w = polled id pane got v in
            let kept = polled-WellFormed id pane got v e h in
            rw (update, e)
              (turn_ends (is_empty (got.0) || writes id) ((got.1).run)
                (record w { connected = false; sent = v.sent }) (update floats outputs writes ids w)
                (tell_closed id (writes id) (with_state w (close_pane floats id w.state))) kept
                (update-StaysUp floats outputs writes ids w kept)
                (tell_closed-StaysUp id (writes id) (with_state w (close_pane floats id w.state)) (
                  with_state-StaysUp w (close_pane floats id w.state)
                    (close_pane-Stays floats w.state id kept))))
      ]

  then_update-StaysUp :
      (floats : Floats F) (outputs : Uuid → List Output) (writes : Uuid → Bool)
      → (r : Result (HtmServer F)) → StaysUp r
      → StaysUp (then_update floats outputs writes r)
  then_update-StaysUp floats outputs writes r (inr e) = inr (rw e refl)
  then_update-StaysUp floats outputs writes r (inl (v, e, h)) = rw e (if_connected v.connected)
    where
      if_connected :
          (b : Bool)
          → StaysUp (if b then update floats outputs writes (keys v.state.panes) v else ok v)
      if_connected true = update-StaysUp floats outputs writes (keys v.state.panes) v h
      if_connected false = inl (v, refl, h)

  either :
      (b : Bool) (next : Result (HtmServer F)) (v : HtmServer F)
      → StaysUp next
      → WellFormed v.state
      → StaysUp (if b then next else ok v)
  either true next v a h = a
  either false next v a h = inl (v, refl, h)

  step-StaysUp :
      (floats : Floats F) (split_id : Uuid) (r : Round) (v : HtmServer F)
      → IsFresh split_id v.state r
      → WellFormed v.state
      → StaysUp (step floats split_id r v)
  unfolding step
  step-StaysUp floats split_id (accepts there) v fresh h =
      either (v.running && not v.connected) (ok (record v { connected = there })) v
        (inl (record v { connected = there }, refl, h)) h
  step-StaysUp floats split_id read_fails v fresh h =
      either (v.running && v.connected) (ok (record v { connected = false })) v
        (inl (record v { connected = false }, refl, h)) h
  step-StaysUp floats split_id (event none outputs writes) v fresh h =
      either (v.running && v.connected) (then_update floats outputs writes (ok v)) v
        (then_update-StaysUp floats outputs writes (ok v) (inl (v, refl, h))) h
  step-StaysUp floats split_id (event (some c) outputs writes) v fresh h =
      let r = handle_command floats split_id c v in
      either (v.running && v.connected) (then_update floats outputs writes r) v
        (then_update-StaysUp floats outputs writes r
          (handle_command-StaysUp floats split_id c v fresh h))
        h

  -- A server that has just been made, with or without a client.
  abbrev pub first : Uuid → Uuid → Bool → HtmServer F
  first tab_id pane_id there = record {
    state = initial tab_id pane_id;
    running = true;
    connected = there;
    sent = [];
  }

  initial-WellFormed :
      (tab_id pane_id : Uuid) → tab_id ≢ [] → WellFormed {F = F} (initial tab_id pane_id)
  unfolding initial Unique
  initial-WellFormed tab_id pane_id named =
      let tab : Tab = record { id = tab_id; pane_or_split_id = pane_id; order = 0 } in
      record {
        tabs_unique = (refl, tt);
        no_root = (absent_assigned [] tab_id tab [] (same-false tab_id [] named) refl, refl);
        tab_not_split = λ id t e. refl;
        pane_not_split = λ id p e. refl;
        tab_named = λ id t e. let (k, v) = only_entry tab_id id tab t e in ap (λ r. r.id) v ∙ sym k;
        pane_placed = λ id p e.
            let (k, v) = only_entry pane_id id _ p e in
            pane_as ((tab_id, tab) ∷ []) [] k v (refl, inl (tab, find-assign tab_id tab [], refl));
        split_placed = λ id q e. absurd cc;
        split_sized = λ id q e. absurd cc;
      }

  -- The servers that a run goes through, with new ids in each round.
  pub data Reached (floats : Floats F) : HtmServer F → Type 0 where
    made :
        (tab_id pane_id : Uuid) (there : Bool)
        → tab_id ≢ []
        → Reached floats (first tab_id pane_id there)
    after :
        (split_id : Uuid) (r : Round) (v w : HtmServer F)
        → Reached floats v
        → IsFresh split_id v.state r
        → step floats split_id r v ≡ ok w
        → Reached floats w

  -- Every server that a run reaches has a well-formed state.
  pub Reached-WellFormed :
      (floats : Floats F) (v : HtmServer F) → Reached floats v → WellFormed v.state
  Reached-WellFormed floats v (made tab_id pane_id there named) =
      initial-WellFormed tab_id pane_id named
  Reached-WellFormed floats v (after split_id r u w reached fresh e) =
      kept (step-StaysUp floats split_id r u fresh (Reached-WellFormed floats u reached))
    where
      kept : StaysUp (step floats split_id r u) → WellFormed v.state
      kept (inl (v', e', h)) = subst (λ x. WellFormed (x.state)) (same_end v v' (sym e ∙ e')) h
      kept (inr e') = absurd (cc (e, e'))

  -- A round of any server that a run reaches, with new ids, whatever the client sends, the
  -- terminals do and the socket refuses, ends with a well-formed state or with STFATAL, and never
  -- outside a vector's bounds: each pane and each split is in the parent that it names, a split has
  -- a size for each of its two or more children, and no id of a split is one of a pane or a tab.
  pub step-Reached :
      (floats : Floats F) (split_id : Uuid) (r : Round) (v : HtmServer F)
      → Reached floats v
      → IsFresh split_id v.state r
      → StaysUp (step floats split_id r v)
  step-Reached floats split_id r v reached fresh =
      step-StaysUp floats split_id r v fresh (Reached-WellFormed floats v reached)
