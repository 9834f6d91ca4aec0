-- ===== src/Connection/Waiting.antt =====
-- The loop of writePacket of src/base/Connection.cpp: when it returns.
use eternal_terminal.Common.{◌≡◌, Bool, true, false, List, [], ◌∷◌, ok, throws, fatal, waiting, ◌⊎◌}
use eternal_terminal.Net.{Net}
use eternal_terminal.Crypto.{Secretbox}
use eternal_terminal.Packet.{Packet}
use eternal_terminal.Connection.{Connection, Call, WriteRound, connection_write}

module _ (box : Secretbox) where
  -- A round that passed the test, and whose write did not take the packet.
  Passed : Packet → WriteRound (Connection × Net) → Type 0
  Passed p r =
      (r.tested.0.shutting_down ≡ false)
      × ((connection_write box p r.written.0 r.written.1).0 ≡ ok false)

  -- The packet was taken in one round, which passed the test, and in no round before; the write
  -- left this.
  pub Taken : Packet → List (WriteRound (Connection × Net)) → Connection × Net → Type 0
  Taken p [] out = ⊥
  Taken p (r ∷ rounds) out =
      ((r.tested.0.shutting_down ≡ false)
        × (connection_write box p r.written.0 r.written.1 ≡ (ok true, out)))
      ⊎ (Passed p r × Taken p rounds out)

  -- A test found this connection shutting down, and no round before took the packet.
  pub Refused : Packet → List (WriteRound (Connection × Net)) → Connection × Net → Type 0
  Refused p [] out = ⊥
  Refused p (r ∷ rounds) out =
      ((r.tested ≡ out) × (r.tested.0.shutting_down ≡ true)) ⊎ (Passed p r × Refused p rounds out)

  pub Waited : Packet → List (WriteRound (Connection × Net)) → Call Bool → Type 0
  Waited p rounds (ok true, out) = Taken p rounds out
  Waited p rounds (ok false, out) = Refused p rounds out
  Waited p rounds (throws e, out) = Unit
  Waited p rounds (fatal, out) = Unit
  Waited p rounds (waiting, out) = Unit
