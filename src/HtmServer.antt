-- ===== src/HtmServer.antt =====
-- src/htm/HtmServer.cpp: the commands of the client and the rounds of `run`, over the state of
-- src/htm/MultiplexerState.cpp with its `update` and `sendTerminalBuffers`.
pub mod Reached
use eternal_terminal.Common.{
  ℕ, Bool, true, false, not, ◌&&◌, ◌||◌, Option, none, some, List, [], ◌∷◌, ◌++◌, ◌==◌,
  if◌then◌else◌, map, is_empty, length, find, assign,
}
use eternal_terminal.Terminal.{Output, TerminalHandler, started, poll_user_terminal}
use eternal_terminal.Htm.{
  Uuid, Floats, Pane, Tab, MultiplexerState, Result, ok, fatal, undefined, append_to_pane, new_tab,
  resize_pane,
}
use eternal_terminal.Htm.Splitting.{new_split}
use eternal_terminal.Htm.Closing.{close_pane}

-- A message of the client, by its header. Keys come with how many bytes of them the write to the
-- terminal puts out before it throws, if it does.
pub data Command : Type 0 where
  insert_keys : Uuid → List ℕ → Option ℕ → Command
  insert_debug_keys : List ℕ → Command
  make_tab : Uuid → Uuid → Command
  make_split : Uuid → Uuid → Bool → Command
  resize : ℕ → ℕ → Uuid → Command
  client_close_pane : Uuid → Command
  unknown : ℕ → Command

-- A message to the client.
pub data Message : Type 0 where
  append_to_pane_message : Uuid → List ℕ → Message
  server_close_pane : Uuid → Message

-- `connected` says that there is an endpoint; `sent` holds the messages, the latest first.
pub record HtmServer (F : Type 0) : Type 0 where
  pub state : MultiplexerState F
  pub running : Bool
  pub connected : Bool
  pub sent : List Message

-- What the environment gives a round: nothing to accept, a client, a socket that fails while the
-- command is read, or a command, if there is one, with the outputs of the terminals and whether
-- each write to the client goes through.
pub data Round : Type 0 where
  accepts : Bool → Round
  read_fails : Round
  event : Option Command → (Uuid → List Output) → (Uuid → Bool) → Round

-- `data[0]`, which is 0 behind the end of an empty string.
abbrev pub first_char : List ℕ → ℕ
first_char [] = 0
first_char (c ∷ _) = c

abbrev pub keys : {A : Type 0} → List (Uuid × A) → List Uuid
keys [] = []
keys ((key, _) ∷ m) = key ∷ keys m

-- The lines of a buffer with a newline before each one that is not at the front of the text.
abbrev pub buffer_text : List ℕ → List (List ℕ) → List ℕ
buffer_text text [] = text
buffer_text text (line ∷ lines) =
    buffer_text ((if is_empty text then [] else text ++ b'\n' ∷ []) ++ line) lines

module _ {F : Type 0} where
  -- The constructor: a tab with one pane.
  unfoldable pub initial : Uuid → Uuid → MultiplexerState F
  initial tab_id pane_id = record {
    tabs = (tab_id, record { id = tab_id; pane_or_split_id = pane_id; order = 0 }) ∷ [];
    panes = (pane_id, record { id = pane_id; parent_id = tab_id; terminal = started }) ∷ [];
    splits = [];
    closed = [];
  }

  abbrev pub with_state : HtmServer F → Result (MultiplexerState F) → Result (HtmServer F)
  with_state v (ok s) = ok (record v { state = s })
  with_state v fatal = fatal
  with_state v undefined = undefined

  -- An exception of the write closes the endpoint.
  abbrev pub after_append : Option ℕ → Result (HtmServer F) → Result (HtmServer F)
  after_append none r = r
  after_append (some n) (ok v) = ok (record v { connected = false })
  after_append (some n) fatal = fatal
  after_append (some n) undefined = undefined

  -- The server stops with its last pane.
  abbrev pub stop_if_empty : Result (HtmServer F) → Result (HtmServer F)
  stop_if_empty (ok v) = ok (record v { running = v.running && not (is_empty v.state.panes) })
  stop_if_empty fatal = fatal
  stop_if_empty undefined = undefined

  abbrev pub on_debug_key : ℕ → HtmServer F → HtmServer F
  on_debug_key c v = record v {
    running = v.running && not (c == b'x');
    connected = v.connected && not (c == 27);
  }

  -- The switch over the header. `split_id` is the uuid that a new split gets.
  unfoldable pub handle_command : Floats F → Uuid → Command → HtmServer F → Result (HtmServer F)
  handle_command floats split_id (insert_keys uid data₁ takes) v =
      after_append takes (with_state v (append_to_pane uid takes data₁ v.state))
  handle_command floats split_id (insert_debug_keys data₁) v =
      ok (on_debug_key (first_char data₁) v)
  handle_command floats split_id (make_tab tab_id pane_id) v =
      with_state v (new_tab tab_id pane_id v.state)
  handle_command floats split_id (make_split source_id pane_id vertical) v =
      with_state v (new_split floats split_id source_id pane_id vertical v.state)
  handle_command floats split_id (resize cols rows pane_id) v =
      with_state v (resize_pane pane_id cols rows v.state)
  handle_command floats split_id (client_close_pane pane_id) v =
      stop_if_empty (with_state v (close_pane floats pane_id v.state))
  handle_command floats split_id (unknown header) v = fatal

  abbrev pub polled : Uuid → Pane → List ℕ × TerminalHandler → HtmServer F → HtmServer F
  polled id pane (data₁, terminal) v = record v {
    state = record (v.state) {
      panes = assign id (record pane { terminal = terminal }) v.state.panes;
    };
    sent = if is_empty data₁ then v.sent else append_to_pane_message id data₁ ∷ v.sent;
  }

  abbrev pub tell_closed : Uuid → Bool → Result (HtmServer F) → Result (HtmServer F)
  tell_closed id goes (ok v) =
      ok (record v { sent = server_close_pane id ∷ v.sent; connected = v.connected && goes })
  tell_closed id goes fatal = fatal
  tell_closed id goes undefined = undefined

  -- The loop of `update`: a write that fails throws, which closes the endpoint; a terminal that has
  -- ended closes its pane and ends the loop.
  unfoldable pub update :
      Floats F
      → (Uuid → List Output)
      → (Uuid → Bool)
      → List Uuid
      → HtmServer F
      → Result (HtmServer F)
  update floats outputs writes [] v = ok v
  update floats outputs writes (id ∷ ids) v = elim (find id v.state.panes) [
    | none ↦ update floats outputs writes ids v
    | some pane ↦
        let got = poll_user_terminal (outputs id) pane.terminal in
        let w = polled id pane got v in
        elim (is_empty (got.0) || writes id) [
          | false ↦ ok (record w { connected = false; sent = v.sent })
          | true ↦ elim ((got.1).run) [
            | true ↦ update floats outputs writes ids w
            | false ↦ tell_closed id (writes id) (with_state w (close_pane floats id w.state))
          ]
        ]
  ]

  abbrev pub then_update :
      Floats F → (Uuid → List Output) → (Uuid → Bool) → Result (HtmServer F) → Result (HtmServer F)
  then_update floats outputs writes (ok v) =
      if v.connected then update floats outputs writes (keys v.state.panes) v else ok v
  then_update floats outputs writes fatal = fatal
  then_update floats outputs writes undefined = undefined

  abbrev pub on_command : Floats F → Uuid → Option Command → HtmServer F → Result (HtmServer F)
  on_command floats split_id none v = ok v
  on_command floats split_id (some c) v = handle_command floats split_id c v

  -- One round of the loop of `run`.
  unfoldable pub step : Floats F → Uuid → Round → HtmServer F → Result (HtmServer F)
  step floats split_id (accepts there) v =
      if v.running && not v.connected then ok (record v { connected = there }) else ok v
  step floats split_id read_fails v =
      if v.running && v.connected then ok (record v { connected = false }) else ok v
  step floats split_id (event c outputs writes) v =
      let next = then_update floats outputs writes (on_command floats split_id c v) in
      if v.running && v.connected then next else ok v

  -- `sendTerminalBuffers`, when all the writes go through.
  unfoldable pub send_terminal_buffers : List (Uuid × Pane) → HtmServer F → HtmServer F
  send_terminal_buffers [] v = v
  send_terminal_buffers ((id, pane) ∷ panes) v = send_terminal_buffers panes (
      if is_empty pane.terminal.buffer then v else record v {
        sent = append_to_pane_message id (buffer_text [] pane.terminal.buffer) ∷ v.sent;
      })
