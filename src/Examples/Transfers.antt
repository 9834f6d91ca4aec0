-- ===== src/Examples/Transfers.antt =====
-- A short message across a socket: the theorems at inputs that meet their hypotheses.
use eternal_terminal.Common.{ℕ, refl, true, List, [], ◌∷◌, arith, false}
use eternal_terminal.Transfer.{
  Incoming, not_ready, holds, read_fails, Outgoing, room, write_fails, write_all_or_throw,
  write_message, read_message,
}
use eternal_terminal.Transfer.Whole.{Read}
use eternal_terminal.Transfer.Framing.{read_message-write_message}

abbrev message : List ℕ
message = 104 ∷ 105 ∷ []

abbrev header_room : List Outgoing
header_room = room 3 ∷ write_fails 11 ∷ room 9 ∷ []

abbrev pieces : List Incoming
pieces =
    holds (2 ∷ 0 ∷ 0 ∷ [])
    ∷ not_ready false
    ∷ holds (0 ∷ 0 ∷ 0 ∷ 0 ∷ 0 ∷ 104 ∷ [])
    ∷ read_fails 11
    ∷ holds (105 ∷ 9 ∷ [])
    ∷ []

abbrev start : List ℕ
start = 2 ∷ 0 ∷ []

read_message-write_message_example : Read message (9 ∷ []) (read_message true pieces)
unfolding write_message write_all_or_throw
read_message-write_message_example =
    read_message-write_message true true message (9 ∷ []) header_room (room 2 ∷ []) pieces refl
      (omega arith, (refl, (omega arith, (refl, (omega arith, tt))))) refl
