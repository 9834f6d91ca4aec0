-- ===== src/Router.antt =====
-- src/terminal/UserTerminalRouter.cpp: the terminals that have registered with the server, by their
-- ids, and the registration in src/terminal/TerminalServer.cpp.
pub mod Agrees
use eternal_terminal.Common.{
  ℕ, Bool, true, false, Option, none, some, List, [], ◌∷◌, ◌==◌, if◌then◌else◌, is_empty, find,
  Outcome, ok, throws, fatal, waiting,
}
use eternal_terminal.Server.{Server, add_client_key, verify_passkey}

pub record TerminalUserInfo : Type 0 where
  pub id : List ℕ
  pub passkey : List ℕ
  pub uid : ℕ
  pub gid : ℕ
  pub fd : ℕ

-- `closed_fds` holds the calls of close, the latest first.
pub record Router : Type 0 where
  pub id_info_map : List (List ℕ × TerminalUserInfo)
  pub closed_fds : List ℕ

abbrev pub terminal_user_info_header : ℕ
terminal_user_info_header = 8

-- What accept and the read of the first packet bring. The payload of a packet is a
-- TerminalUserInfo, or does not parse.
pub data Arrival : Type 0 where
  nothing_there accept_fails : Arrival
  no_packet read_throws : ℕ → Arrival
  packet : ℕ → ℕ → Option TerminalUserInfo → Arrival

abbrev pub reject : ℕ → Router → Outcome (List ℕ × List ℕ) × Router
reject fd r = (ok ([], []), record r { closed_fds = fd ∷ r.closed_fds })

-- `insert` leaves an entry that is there, and its terminal keeps the id.
abbrev pub insert_info :
    Option TerminalUserInfo → ℕ → TerminalUserInfo → Router → Outcome (List ℕ × List ℕ) × Router
insert_info (some old) fd tui r = reject fd r
insert_info none fd tui r = (
  ok (tui.id, tui.passkey),
  record r { id_info_map = (tui.id, record tui { fd = fd }) ∷ r.id_info_map },
)

abbrev pub on_info : ℕ → Option TerminalUserInfo → Router → Outcome (List ℕ × List ℕ) × Router
on_info fd none r = (fatal, r)
on_info fd (some tui) r = insert_info (find tui.id r.id_info_map) fd tui r

-- The id and the key of a new terminal; two empty strings when there is none.
unfoldable pub accept_new_connection : Arrival → Router → Outcome (List ℕ × List ℕ) × Router
accept_new_connection nothing_there r = (ok ([], []), r)
accept_new_connection accept_fails r = (fatal, r)
accept_new_connection (no_packet fd) r = (fatal, r)
accept_new_connection (read_throws fd) r = reject fd r
accept_new_connection (packet fd header info) r =
    if header == terminal_user_info_header then on_info fd info r else (fatal, r)

abbrev pub verified : List ℕ → Option TerminalUserInfo → Outcome (Option TerminalUserInfo)
verified key none = fatal
verified key (some info) = if verify_passkey key info.passkey then ok (some info) else ok none

-- For a connection with this id and key.
unfoldable pub try_get_info_for_connection :
    List ℕ → List ℕ → Router → Outcome (Option TerminalUserInfo)
try_get_info_for_connection id key r = verified key (find id r.id_info_map)

abbrev pub add_key : Outcome (List ℕ × List ℕ) × Router → Server → Outcome (Router × Server)
add_key (ok (id, key), r) s = ok (r, if is_empty id then s else add_client_key id key s)
add_key (throws e, r) s = throws e
add_key (fatal, r) s = fatal
add_key (waiting, r) s = waiting

-- What `run` of the terminal server does when its router has a connection to accept.
unfoldable pub register : Arrival → Router → Server → Outcome (Router × Server)
unfolding accept_new_connection
register a r s = add_key (accept_new_connection a r) s
