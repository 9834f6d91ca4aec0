-- ===== src/Examples/Clients.antt =====
-- A terminal client in two rounds: the theorems at inputs that meet their hypotheses.
use eternal_terminal.Common.{none, ◌≡◌, refl, true, false, [], ◌∷◌, ◌++◌, ◌⊎◌}
use eternal_terminal.TerminalClient.{Round, TerminalClient, again, got_buffer, nothing, round, run}
use eternal_terminal.TerminalClient.Output.{shown_all, run-shown}
use eternal_terminal.TerminalClient.KeepAlive.{Missed, round-closes}

-- A client that waits for the answer to a keepalive.
abbrev waiting_client : TerminalClient
waiting_client = record {
  has_console = true;
  shutting_down = false;
  keepalive_duration = 5;
  keepalive_time = 9;
  waiting_on_keepalive = true;
  last_terminal_info = [];
  sent = [];
  shown = [];
  forwarded = [];
  keepalive_closes = 0;
}

abbrev output_comes : Round
output_comes = record {
  now = 8;
  connected = true;
  connection_ready = true;
  console_ready = false;
  from_console = again;
  packets = got_buffer (b'a' ∷ []) ∷ got_buffer (b'b' ∷ []) ∷ nothing ∷ [];
  console_takes = none;
  info = [];
  requests = [];
  data_to_send = [];
}

-- The time of the keepalive has passed and nothing came.
abbrev silence : Round
silence = record output_comes { now = 20; connection_ready = false }

shown_output : ((run (output_comes ∷ silence ∷ []) waiting_client).1).shown ≡ b'a' ∷ b'b' ∷ []
unfolding run
shown_output = refl

closes_once : ((round silence waiting_client).1).keepalive_closes ≡ 1
unfolding round
closes_once = refl

run-shown_example :
    ((run (output_comes ∷ silence ∷ []) waiting_client).1).shown
    ≡ [] ++ shown_all (output_comes ∷ silence ∷ []) waiting_client
run-shown_example = run-shown (output_comes ∷ silence ∷ []) waiting_client refl

round-closes_example :
    (((round silence waiting_client).1).keepalive_closes ≡ 0)
    ⊎ Missed silence waiting_client ((round silence waiting_client).1)
round-closes_example = round-closes silence waiting_client
