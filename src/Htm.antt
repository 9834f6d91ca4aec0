-- ===== src/Htm.antt =====
-- src/htm/MultiplexerState.cpp: the tabs, the panes and the splits of the multiplexer, by their ids.
-- A shared pointer that is in a map is its entry. The sizes are floats, which are a parameter.
pub mod Splitting
pub mod Closing
pub mod Placed
pub mod Children
pub mod Tabs
pub mod WellFormed
pub mod Divided
pub mod Turned
pub mod SplitSteps
pub mod Closed
pub mod Collapsed
pub mod CloseSteps
use eternal_terminal.Common.{
  ℕ, zero, suc, ◌+◌, ◌-◌, ◌<◌, Bool, true, false, ◌||◌, Option, none, some, List, [], ◌∷◌, ◌++◌,
  if◌then◌else◌, length, map, ltb, same, find, erase, assign,
}
use eternal_terminal.Terminal.{TerminalHandler, started, append_data, update_terminal_size}

abbrev pub Uuid : Type 0
Uuid = List ℕ

-- The float operations of the sizes: 0.5, `x / 2.0` and `(x * m) / float(n)`.
pub record Floats (F : Type 0) : Type 0 where
  pub half : F
  pub halve : F → F
  pub scale : ℕ → ℕ → F → F

pub record Pane : Type 0 where
  pub id : Uuid
  pub parent_id : Uuid
  pub terminal : TerminalHandler

pub record Split (F : Type 0) : Type 0 where
  pub id : Uuid
  pub parent_id : Uuid
  pub vertical : Bool
  pub panes_or_splits : List Uuid
  pub sizes : List F

pub record Tab : Type 0 where
  pub id : Uuid
  pub pane_or_split_id : Uuid
  pub order : ℕ

pub record MultiplexerState (F : Type 0) : Type 0 where
  pub tabs : List (Uuid × Tab)
  pub panes : List (Uuid × Pane)
  pub splits : List (Uuid × Split F)
  pub closed : List Uuid

-- An operation returns, aborts (STFATAL), or leaves a vector's bounds.
pub data Result {ℓ} (A : Type ℓ) : Type ℓ where
  ok : A → Result A
  fatal undefined : Result A

abbrev pub is_found {ℓ} : {A : Type ℓ} → Option A → Bool
is_found none = false
is_found (some a) = true

abbrev pub listed : Uuid → List Uuid → Bool
listed id [] = false
listed id (x ∷ xs) = same x id || listed id xs

-- `map::insert`, which keeps an entry that is there.
abbrev pub insert {ℓ} : {A : Type ℓ} → Uuid → A → List (Uuid × A) → List (Uuid × A)
insert id a m = elim (find id m) [ none ↦ (id, a) ∷ m | some _ ↦ m ]

abbrev pub first_some : Bool → ℕ → Option ℕ → Option ℕ
first_some true i rest = some i
first_some false i none = none
first_some false i (some j) = some (suc j)

module _ {F : Type 0} where
  -- Whether fatalIfFound aborts.
  unfoldable pub id_in_use : Uuid → MultiplexerState F → Bool
  id_in_use id s =
      is_found (find id s.panes) || (is_found (find id s.splits) || is_found (find id s.tabs))

  unfoldable pub new_tab : Uuid → Uuid → MultiplexerState F → Result (MultiplexerState F)
  unfolding id_in_use
  new_tab tab_id pane_id s =
      if id_in_use tab_id s || id_in_use pane_id s
      then fatal
      else ok (record s {
        tabs =
            insert tab_id
              (record { id = tab_id; pane_or_split_id = pane_id; order = length s.tabs }) s.tabs;
        panes =
            insert pane_id (record { id = pane_id; parent_id = tab_id; terminal = started })
              s.panes;
      })

  abbrev pub on_pane :
      (TerminalHandler → TerminalHandler)
      → Uuid
      → MultiplexerState F
      → Option Pane
      → Result (MultiplexerState F)
  on_pane f id s none = fatal
  on_pane f id s (some p) =
      ok (record s { panes = assign id (record p { terminal = f p.terminal }) s.panes })

  -- The state that appendData leaves, its exception included.
  unfoldable pub append_to_pane :
      Uuid → Option ℕ → List ℕ → MultiplexerState F → Result (MultiplexerState F)
  append_to_pane uid takes data₁ s =
      on_pane (λ t. (append_data takes data₁ t).1) uid s (find uid s.panes)

  unfoldable pub resize_pane : Uuid → ℕ → ℕ → MultiplexerState F → Result (MultiplexerState F)
  resize_pane pane_id cols rows s =
      on_pane (update_terminal_size cols rows) pane_id s (find pane_id s.panes)
