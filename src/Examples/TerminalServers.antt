-- ===== src/Examples/TerminalServers.antt =====
-- A terminal of the server in two rounds: the theorems at inputs that meet their hypotheses.
use eternal_terminal.Common.{◌≡◌, refl, true, false, none, some, List, [], ◌∷◌, ok}
use eternal_terminal.Server.{Server, client_key_exists}
use eternal_terminal.Connection
use eternal_terminal.Connection.{Connection}
use eternal_terminal.Reader.{reader}
use eternal_terminal.Writer.{writer}
use eternal_terminal.Examples.Box.{toy, handler, hello}
use eternal_terminal.TerminalServer.{
  Round, Ending, TerminalRun, bytes, ended, got_buffer, got_keep_alive, both, type_only, type_byte,
  message, keep_alive, terminal_buffer, session_ended, read_packets, round, loop,
}
use eternal_terminal.TerminalServer.Opening.{
  Tunnel, source_name, source_error, new_run, run_terminal,
}
use eternal_terminal.TerminalServer.Left.{Begun, Left, run_terminal-Left}
use eternal_terminal.TerminalServer.Output.{output, Delivered, loop-Delivered}
use eternal_terminal.TerminalServer.JumpHost
use eternal_terminal.TerminalServer.JumpHost.{
  from_terminal, terminal_fails, from_client, new_jump_host,
}
use eternal_terminal.TerminalServer.Relayed.{Relayed, loop-Relayed}
use eternal_terminal.Examples.Routers.{name, terminal, server}

abbrev typed : Round
typed = record {
  halted = false;
  can_buffer = true;
  terminal_ready = true;
  from_terminal = bytes (b'$' ∷ []);
  client_ready = true;
  packets = got_keep_alive ∷ got_buffer (b'l' ∷ []) both ∷ got_buffer (b's' ∷ []) type_only ∷ [];
  requests = [];
  data_to_send = [];
}

abbrev left : Round
left = record typed { from_terminal = ended }

abbrev rounds : List Round
rounds = typed ∷ left ∷ typed ∷ []

-- The failed write closes the client's socket, and the session goes on to its end.
two_rounds : loop rounds new_run ≡ (
  session_ended,
  record {
    sent = terminal_buffer (b'$' ∷ []) ∷ keep_alive ∷ [];
    written = type_byte 1 ∷ message (b'l' ∷ []) ∷ type_byte 1 ∷ [];
    forwarded = [];
    closes = 1;
  },
)
unfolding loop round read_packets
two_rounds = refl

loop-Delivered_example : Delivered rounds (output new_run.sent) (loop rounds new_run)
loop-Delivered_example = loop-Delivered rounds new_run

abbrev tunnel : Tunnel
tunnel = record { environment_variable = some (b'S' ∷ []); source = source_name (b'/' ∷ []) }

abbrev server_connection : Connection
server_connection = record {
  role = Connection.server;
  reader = some (reader handler (some 3));
  writer = some (writer handler (some 3));
  socket_fd = some 3;
  shutting_down = false;
  reconnecting = false;
}

-- The server with the client's connection.
abbrev joined : Server
joined = record server { client_connections = (name, 0) ∷ []; connections = server_connection ∷ [] }

abbrev failing : List Tunnel
failing = tunnel ∷ record { environment_variable = none; source = source_error (b'!' ∷ []) } ∷ []

-- The run of a client whose second tunnel fails.
abbrev failed_run : Ending × TerminalRun × Server
failed_run =
    run_terminal toy hello name 0 (ok (some terminal)) ((b'T' ∷ [], b'x' ∷ []) ∷ []) failing true
      rounds joined

run_terminal-Left_example :
    Begun (ok (some terminal)) failing failed_run.0 failed_run.1 × Left name 0 8 failed_run
unfolding client_key_exists
run_terminal-Left_example =
    run_terminal-Left toy hello name 0 8 (ok (some terminal)) ((b'T' ∷ [], b'x' ∷ []) ∷ []) failing
      true rounds joined refl refl

-- A jump host: one packet each way, then the terminal is gone.
abbrev relay : JumpHost.Round
relay = record {
  stopped = false;
  can_buffer = true;
  terminal_ready = true;
  terminal_read = from_terminal (b'a' ∷ []);
  client_ready = true;
  has_data = true;
  client_read = from_client (b'b' ∷ []) true;
}

abbrev relays : List JumpHost.Round
relays = relay ∷ record relay { terminal_read = terminal_fails } ∷ []

loop-Relayed_example : Relayed relays new_jump_host.to_client (JumpHost.loop relays new_jump_host)
loop-Relayed_example = loop-Relayed relays new_jump_host
