-- ===== src/Forward/Tunnel.antt =====
-- The data path of a tunnel: what PortForwardHandler.cpp reads at one end it writes at the other.
use eternal_terminal.Common.{
  ℕ, ◌≡◌, Bool, true, false, none, some, List, [], ◌∷◌, ◌++◌, ◌==◌, take, if◌then◌else◌,
}
use eternal_terminal.Forward.{
  Got, got, would_block, ended, failed, ForwardData, Forwarder, handle_data,
}
use eternal_terminal.Forward.Table.{lookup}

-- The bytes that were written to a socket, in order.
abbrev pub stream : ℕ → List (ℕ × List ℕ) → List ℕ
stream fd [] = []
stream fd ((other, bytes) ∷ written) =
    let before = stream fd written in if other == fd then before ++ bytes else before

-- The bytes that the reads bring before the loop stops.
abbrev pub carried : List Got → List ℕ
carried [] = []
carried (would_block ∷ reads) = []
carried (ended ∷ reads) = []
carried (failed e ∷ reads) = []
carried (got bytes ∷ reads) = bytes ++ carried reads

-- What a socket takes of them, by the bytes that it takes of each buffer; behind those it takes all.
abbrev pub delivered : List Got → List ℕ → List ℕ
delivered [] room = []
delivered (would_block ∷ reads) room = []
delivered (ended ∷ reads) room = []
delivered (failed e ∷ reads) room = []
delivered (got bytes ∷ reads) [] = bytes ++ delivered reads []
delivered (got bytes ∷ reads) (n ∷ room) = take n bytes ++ delivered reads room

-- Packets that arrive one after the other, as a session delivers them.
pub handle_all : List ForwardData → Forwarder → Forwarder
handle_all [] f = f
handle_all (d ∷ messages) f = handle_all messages (handle_data d f)

-- How the far end stands after it: connected, or closed with its handler gone.
pub Carried : ℕ → ℕ → Bool → Forwarder → Type 0
Carried id fd true f = lookup id f.destinations ≡ some fd
Carried id fd false f =
    (lookup id f.destinations ≡ none) × ((before : List ℕ) × (f.closed_fds ≡ fd ∷ before))

-- What a write leaves of the room.
abbrev room_after : List ℕ → List ℕ
room_after [] = []
room_after (n ∷ room) = room
