-- ===== src/Examples/Servers.antt =====
-- A server with one registered client, and that client: the theorems at inputs that meet their
-- hypotheses.
use eternal_terminal.Net.{quiet, close}
use eternal_terminal.Server.Registry.{WellFormed}
use eternal_terminal.Common.{ℕ, ◌≡◌, refl, true, false, none, some, List, [], ◌∷◌, ok, to_int32}
use eternal_terminal.Crypto.{crypto_handler}
use eternal_terminal.Crypto.Nonce.{initial_nonce}
use eternal_terminal.Writer.{Writer, writer, recover, recover_messages, collect}
use eternal_terminal.Writer
use eternal_terminal.Reader.{Reader, reader}
use eternal_terminal.Reader
use eternal_terminal.Connection.{Connection, client, shutdown, close_socket}
use eternal_terminal.Connection.Recovery.{answers}
use eternal_terminal.Server.{
  Server, refused, Answers, request, client_handler, admit, admit_at, admit_new, server_shutdown,
  server_client_connection, on_socket, client_key_exists,
}
use eternal_terminal.Server.Steps.{admits, server_step, step-WellFormed, server_shutdown_all_down}
use eternal_terminal.Server.Handler.{Disposed, client_handler-Disposed}
use eternal_terminal.Server.Removed.{admit-remove_client}
use eternal_terminal.Client.{
  new_client, returning_client, Attempt, connect, poll_reconnect, status_of,
}
use eternal_terminal.Client.Start.{Started, connect-Started}
use eternal_terminal.Client.Reconnect.{Returned, poll_reconnect-Returned, removed_client-stops}
use eternal_terminal.Examples.Box.{toy, handler}

abbrev name : List ℕ
name = 1 ∷ 2 ∷ []

-- A server that knows one client and has no connection yet.
abbrev fresh : Server
fresh = record {
  client_keys = (name, handler.key) ∷ [];
  client_connections = [];
  connections = [];
  net = quiet;
}

fresh-WellFormed : WellFormed fresh
unfolding client_key_exists
fresh-WellFormed = record {
  linked = record {
    valid = λ id p e. absurd cc;
    distinct = λ id id' p e f. absurd cc;
    dropped = λ p c e. absurd cc;
  };
  keyed = λ id p e. absurd cc;
}

step-WellFormed_example : WellFormed (server_step toy (admits name 7) fresh)
step-WellFormed_example = step-WellFormed toy (admits name 7) fresh fresh-WellFormed

-- The same server with the client's connection.
abbrev joined : Server
joined = (admit name 7 fresh).1

joined-WellFormed : WellFormed joined
unfolding server_step
joined-WellFormed = step-WellFormed toy (admits name 7) fresh fresh-WellFormed

abbrev dropped : Connection
dropped = record (on_socket 7 (record handler { nonce = initial_nonce 0 }) handler) {
  reader = some (reader (record handler { nonce = initial_nonce 0 }) none);
  writer = some (writer handler none);
  socket_fd = none;
  shutting_down = true;
}

server_shutdown_all_down_example : dropped.shutting_down ≡ true
unfolding server_shutdown shutdown close_socket admit admit_at admit_new server_client_connection
    crypto_handler reader writer Reader.invalidate_socket Writer.invalidate_socket
server_shutdown_all_down_example = server_shutdown_all_down joined 0 dropped joined-WellFormed refl

abbrev accepting : Answers
accepting = record {
  sends_response = true;
  new_client = some true;
  exchange = answers (to_int32 0) [];
}

client_handler-Disposed_example : Disposed 7 (client_handler (request 6 name) accepting 7 fresh)
client_handler-Disposed_example = client_handler-Disposed (request 6 name) accepting 7 fresh

-- A client before its first connection, and an attempt that the server accepts.
abbrev idle : Connection
idle = record {
  role = client;
  reader = none;
  writer = none;
  socket_fd = none;
  shutting_down = false;
  reconnecting = false;
}

abbrev greeting : Attempt
greeting = record {
  connects = some 3;
  sends_request = true;
  response = some new_client;
  exchange = answers (to_int32 0) [];
}

connect-Started_example :
    ((connect handler.key greeting idle quiet).0 ≡ ok true)
    × ((there : Connection) × (server_client_connection handler.key 7 ≡ ok there)
        × Started 3 7 (connect handler.key greeting idle quiet).1.0 there)
connect-Started_example = connect-Started handler.key 3 7 greeting idle quiet refl refl refl refl

-- The client after it has lost its socket.
abbrev lost : Connection
lost = record idle { reader = some (reader handler none); writer = some (writer handler none) }

abbrev no_server : Attempt
no_server = record greeting { connects = none }

abbrev known : Attempt
known = record greeting { response = some returning_client }

poll_reconnect-Returned_example : Returned (poll_reconnect (no_server ∷ known ∷ []) lost quiet)
poll_reconnect-Returned_example = poll_reconnect-Returned (no_server ∷ known ∷ []) lost quiet

removed_client-stops_example :
    poll_reconnect (record known { response = some (status_of refused) } ∷ []) lost quiet
    ≡ (ok true, (record lost { shutting_down = true }, close 3 quiet))
removed_client-stops_example =
    removed_client-stops name joined 3 8 refused
      (record known { response = some (status_of refused) }) [] lost quiet
      (admit-remove_client name 8 joined) refl refl refl refl refl
