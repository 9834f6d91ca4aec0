-- ===== src/Examples/Forwards.antt =====
-- A tunnel between two forwarders: the theorems at inputs that meet their hypotheses.
use eternal_terminal.Common.{some, List, [], ◌∷◌}
use eternal_terminal.Forward.{Got, got, ended, Forwarder, create_destination}
use eternal_terminal.Forward.Destination.{Added, create_destination-Added}

-- The far end of a tunnel with the id 7, on the socket 4, which takes nothing of the second write.
abbrev far : Forwarder
far = record {
  sources = [];
  destinations = (7, 4) ∷ [];
  socket_id_sources = [];
  written = [];
  room = 2 ∷ 0 ∷ [];
  closed_fds = [];
}

abbrev reads : List Got
reads = got (1 ∷ 2 ∷ []) ∷ got (3 ∷ []) ∷ ended ∷ []

create_destination-Added_example : Added 5 far (create_destination (some 5) (7 ∷ 8 ∷ []) far)
create_destination-Added_example = create_destination-Added 5 (7 ∷ 8 ∷ []) far
