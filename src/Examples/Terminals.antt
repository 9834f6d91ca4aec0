-- ===== src/Examples/Terminals.antt =====
-- Terminals of the multiplexer and of a user: tests, and the theorems at inputs that meet their hypotheses.
use eternal_terminal.Common.{◌≡◌, refl, [], ◌∷◌, split, arith, true, false, ◌++◌, ◌≤◌, length}
use eternal_terminal.UserTerminal.{
  UserTerminalHandler, Round, output, terminal_buffer, wrote, run_user_terminal,
}
use eternal_terminal.UserTerminal.Carried.{carried, taken_all, run_user_terminal-carried}
use eternal_terminal.UserTerminal.Limited.{limit, run_user_terminal-limit}
use eternal_terminal.Terminal.{started, store, bytes, poll_user_terminal}
use eternal_terminal.Terminal.Bounded.{Bounded, poll_user_terminal-Bounded}

-- `a`, a newline, and then `b`: the kept output is one line.
newline_lost :
    (store (b'b' ∷ []) (store (b'a' ∷ b'\n' ∷ []) started)).buffer ≡ (b'a' ∷ b'b' ∷ []) ∷ []
unfolding store started split
newline_lost = refl

started-Bounded : Bounded started
unfolding started
started-Bounded = record { counted = refl; few_lines = omega arith; few_chars = omega arith }

poll_user_terminal-Bounded_example :
    Bounded ((poll_user_terminal (bytes b'a' (b'\n' ∷ b'b' ∷ []) ∷ []) started).1)
poll_user_terminal-Bounded_example =
    poll_user_terminal-Bounded (bytes b'a' (b'\n' ∷ b'b' ∷ []) ∷ []) started started-Bounded

abbrev user_terminal : UserTerminalHandler
user_terminal = record {
  noratelimit = false;
  shutting_down = false;
  last_second = 0;
  output_per_second = 0;
  pending_input = [];
  to_router = [];
  typed = [];
  sizes = [];
  ended = 0;
}

-- Three bytes of input come, and the pty takes two of them.
abbrev short_write : Round
short_write = record {
  second = 1;
  router_writable = true;
  pty_ready = true;
  router_ready = true;
  from_pty = output (b'x' ∷ []);
  goes_through = true;
  from_router = terminal_buffer (b'a' ∷ b'b' ∷ b'c' ∷ []);
  to_pty = wrote 2;
}

run_user_terminal-carried_example :
    carried (run_user_terminal (short_write ∷ []) user_terminal)
    ≡ carried user_terminal ++ taken_all (short_write ∷ []) user_terminal
run_user_terminal-carried_example = run_user_terminal-carried (short_write ∷ []) user_terminal

run_user_terminal-limit_example :
    length (run_user_terminal (short_write ∷ []) user_terminal).pending_input ≤ limit 3
run_user_terminal-limit_example =
    run_user_terminal-limit (short_write ∷ []) user_terminal 3 refl (omega arith)
