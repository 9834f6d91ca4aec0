-- ===== src/Examples/Routers.antt =====
-- A router with one terminal and the server that knows its key: the theorems at inputs that meet
-- their hypotheses.
use eternal_terminal.Common.{
  ℕ, ◌≡◌, refl, sym, subst, inl, inr, none, some, List, [], ◌∷◌, find, ok,
}
use eternal_terminal.Net.{quiet}
use eternal_terminal.Server.{Server}
use eternal_terminal.Htm.Placed.{found_assigned}
use eternal_terminal.Router.{
  Router, TerminalUserInfo, packet, register, try_get_info_for_connection, accept_new_connection,
}
use eternal_terminal.Router.Agrees.{
  Agrees, Registered, register-Registered, try_get_info_for_connection-Agrees,
}

abbrev pub name : List ℕ
name = 1 ∷ 2 ∷ []

abbrev terminal_key : List ℕ
terminal_key = 5 ∷ 6 ∷ []

abbrev pub terminal : TerminalUserInfo
terminal = record { id = name; passkey = terminal_key; uid = 1000; gid = 1000; fd = 9 }

abbrev router : Router
router = record { id_info_map = (name, terminal) ∷ []; closed_fds = [] }

abbrev pub server : Server
server = record {
  client_keys = (name, terminal_key) ∷ [];
  client_connections = [];
  connections = [];
  net = quiet;
}

-- A second terminal with the id of the first.
abbrev usurper : TerminalUserInfo
usurper = record { id = name; passkey = 7 ∷ []; uid = 1001; gid = 1001; fd = 0 }

usurper_rejected :
    register (packet 11 8 (some usurper)) router server
    ≡ ok (record router { closed_fds = 11 ∷ [] }, server)
unfolding register accept_new_connection
usurper_rejected = refl

server-Agrees : Agrees router server
unfolding Agrees
server-Agrees id key e = elim (found_assigned id name terminal_key [] e) [
  | inl (k, v) ↦
      (terminal, subst (λ q. find q ((name, terminal) ∷ []) ≡ some terminal) (sym k) refl, sym v)
  | inr (_, f) ↦ absurd cc
]

register-Registered_example :
    Registered router server (register (packet 11 8 (some usurper)) router server)
register-Registered_example =
    register-Registered (packet 11 8 (some usurper)) router server server-Agrees

try_get_info_for_connection-Agrees_example :
    ((info : TerminalUserInfo) × (find name router.id_info_map ≡ some info)
      × (try_get_info_for_connection name terminal_key router ≡ ok (some info)))
    × (try_get_info_for_connection name (7 ∷ []) router ≡ ok none)
try_get_info_for_connection-Agrees_example =
    try_get_info_for_connection-Agrees name terminal_key (7 ∷ []) router server server-Agrees refl
      (λ e. absurd cc)
