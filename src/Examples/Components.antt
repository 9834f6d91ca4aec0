-- ===== src/Examples/Components.antt =====
-- The theorems on the single components, applied to a small writer and a small connection.
use eternal_terminal.Reader.{reader}
use eternal_terminal.Crypto.Nonce.{advance_initial_unique}
use eternal_terminal.Session.{Session}
use eternal_terminal.Packet.{Packet, serialize}
use eternal_terminal.Connection.{Connection, connection_recover, client, WriteRound}
use eternal_terminal.Common.{
  ℕ, ◌≡◌, refl, true, false, none, some, List, [], ◌∷◌, arith, ok, throws, runtime_error, to_int32,
}
use eternal_terminal.Net.{Net, accepted, quiet, bytes}
use eternal_terminal.Writer.{Writer, success, writer, trim, send_loop, recover}
use eternal_terminal.Writer.Backup.{Trimmed, trim-Trimmed, total}
use eternal_terminal.Writer.Sending.{send_loop-success}
use eternal_terminal.Writer.Branches.{recover-to_int32_wraps}
use eternal_terminal.Connection.Coherent.{IsCoherent, reads, occurs, client_step, step-IsCoherent}
use eternal_terminal.Connection.Recovery.{Recovered, recover-Recovered, answers}
use eternal_terminal.Examples.Box.{toy, handler}

abbrev bye : Packet
bye = record { encrypted = true; header = 2; payload = 7 ∷ [] }

-- A writer without a socket that has two packets in its backup.
abbrev holding : Writer
holding = record {
  crypto = handler;
  socket_fd = none;
  backup_buffer = bye ∷ bye ∷ [];
  backup_size = 6;
  disconnected_bytes = 0;
  sequence_number = 2;
}

trim-Trimmed_example : Trimmed (bye ∷ bye ∷ []) (trim (total (bye ∷ bye ∷ [])) (bye ∷ bye ∷ []))
trim-Trimmed_example = trim-Trimmed (bye ∷ bye ∷ [])

send_loop-success_example :
    (send_loop (1 ∷ 2 ∷ 3 ∷ []) 0 quiet (accepted 1 ∷ accepted 2 ∷ [])).0 ≡ ok success
send_loop-success_example =
    send_loop-success (1 ∷ 2 ∷ 3 ∷ []) 0 quiet (accepted 1 ∷ accepted 2 ∷ []) (omega arith)
      (omega arith)

-- Three billion packets are counted as a negative int32.
recover-to_int32_wraps_example : recover holding (to_int32 3000000000) ≡ throws runtime_error
recover-to_int32_wraps_example =
    recover-to_int32_wraps holding 3000000000 refl (omega arith) (omega arith)

abbrev zero_msb : ℕ
zero_msb = 0

abbrev once : ℕ
once = 1

advance_initial_unique_example : (zero_msb ≡ zero_msb) × (once ≡ once)
advance_initial_unique_example =
    advance_initial_unique zero_msb zero_msb once once (omega arith) (omega arith) (omega arith)
      (omega arith) refl

-- A client that has lost its socket.
abbrev severed : Connection
severed = record {
  role = client;
  reader = some (reader handler none);
  writer = some holding;
  socket_fd = none;
  shutting_down = false;
  reconnecting = true;
}

severed-IsCoherent : IsCoherent severed
unfolding reader
severed-IsCoherent = record { reads = refl; writes = refl }

-- A connected one, whose next read finds the end of the stream.
abbrev connected : Connection
connected = record severed {
  reader = some (reader handler (some 3));
  writer = some (writer handler (some 3));
  socket_fd = some 3;
}

connected-IsCoherent : IsCoherent connected
unfolding reader writer
connected-IsCoherent = record { reads = refl; writes = refl }

abbrev ended : Net
ended = record quiet { reads = bytes [] ∷ [] }

step-IsCoherent_example : IsCoherent (client_step toy (occurs (reads ended)) connected)
step-IsCoherent_example =
    step-IsCoherent toy (occurs (reads ended)) connected tt connected-IsCoherent

recover-Recovered_example :
    Recovered 9
      (answers (to_int32 1) [])
      severed
      quiet
      (connection_recover 9 (answers (to_int32 1) []) severed quiet)
recover-Recovered_example = recover-Recovered 9 (answers (to_int32 1) []) severed quiet

-- Both ends of a session that has lost its socket, with two packets to recover.
abbrev cut : Session
cut = record {
  writer = holding;
  reader = reader handler none;
  wire = [];
  linked = false;
  written = [];
  delivered = [];
}

abbrev other_end : Connection
other_end = record severed { writer = some (writer handler none) }

abbrev two : List (List ℕ)
two = serialize bye ∷ serialize bye ∷ []

-- The first round finds a connection that is up, and writes when it is shut down: the writer keeps
-- the packet.
abbrev between : WriteRound (Connection × Net)
between = record {
  tested = (connected, ended);
  written = (record severed { shutting_down = true }, ended);
}
