-- ===== src/Forward.antt =====
-- src/terminal/forwarding: PortForwardHandler.cpp with the handlers of the two ends of a tunnel,
-- ForwardSourceHandler.cpp and ForwardDestinationHandler.cpp. A handler that accepts at one end
-- reads from its sockets, and the other end writes what arrives to a socket of its own.
pub mod Table
pub mod Tunnel
pub mod Destination
use eternal_terminal.Common.{
  ℕ, zero, suc, ◌+◌, Bool, true, false, not, Option, none, some, List, [], ◌∷◌, ◌++◌, ◌==◌, ltb,
  if◌then◌else◌, one_of, Outcome, ok, throws, fatal, waiting, Error, take,
}
use Table.{lookup, remove, store}

abbrev pub is_absent : Option ℕ → Bool
is_absent none = true
is_absent (some fd) = false

-- What one `read` of at most 1024 bytes brings when the socket has data.
pub data Got : Type 0 where
  got : List ℕ → Got
  would_block : Got
  ended : Got
  failed : ℕ → Got

-- PortForwardData: the buffer, or one of the flags `closed` and `error`.
pub data Content : Type 0 where
  buffer : List ℕ → Content
  closed : Content
  errored : ℕ → Content

pub record ForwardData : Type 0 where
  pub source_to_destination : Bool
  pub socket_id : ℕ
  pub content : Content

-- The loop of `update` over one socket; `hasData` is false when nothing is left to read. False
-- says that the socket was closed.
unfoldable pub pump : Bool → ℕ → List Got → List ForwardData × Bool
pump to_destination id [] = ([], true)
pump to_destination id (would_block ∷ reads) = ([], true)
pump to_destination id (ended ∷ reads) = (
  record { source_to_destination = to_destination; socket_id = id; content = closed } ∷ [],
  false,
)
pump to_destination id (failed e ∷ reads) = (
  record { source_to_destination = to_destination; socket_id = id; content = errored e } ∷ [],
  false,
)
pump to_destination id (got bytes ∷ reads) =
    let rest = pump to_destination id reads in
    (
      record { source_to_destination = to_destination; socket_id = id; content = buffer bytes }
          ∷ rest.0,
      rest.1,
    )

-- A source handler: the sockets that it has accepted, before and after the other end has given
-- them an id.
pub record Source : Type 0 where
  pub unassigned_fds : List ℕ
  pub socket_fd_map : List (ℕ × ℕ)

-- `destinations` holds the socket of each destination handler. `socket_id_sources` holds the
-- position of a source handler for each id. `written` holds what writeAllOrReturn has put out to
-- each socket and `closed_fds` the calls of close, the latest first. `room` says of the next writes
-- how many bytes each puts out before it returns; the writes behind it put out all.
pub record Forwarder : Type 0 where
  pub sources : List Source
  pub destinations : List (ℕ × ℕ)
  pub socket_id_sources : List (ℕ × ℕ)
  pub written : List (ℕ × List ℕ)
  pub room : List ℕ
  pub closed_fds : List ℕ

abbrev delete : ℕ → List ℕ → List ℕ
delete fd [] = []
delete fd (x ∷ xs) = let rest = delete fd xs in if x == fd then rest else (x ∷ rest)

unfoldable pub has_unassigned_fd : ℕ → Source → Bool
has_unassigned_fd fd s = one_of fd s.unassigned_fds

abbrev pub write_within : ℕ → List ℕ → List ℕ → Forwarder → Forwarder
write_within fd bytes [] f = record f { written = (fd, bytes) ∷ f.written }
write_within fd bytes (n ∷ room) f = record f {
  written = (fd, take n bytes) ∷ f.written;
  room = room;
}

-- The handlers do not look at the result of writeAllOrReturn: what it did not put out is lost.
abbrev pub write_to : ℕ → List ℕ → Forwarder → Forwarder
write_to fd bytes f = write_within fd bytes f.room f

abbrev pub close_to : ℕ → Forwarder → Forwarder
close_to fd f = record f { closed_fds = fd ∷ f.closed_fds }

-- `closeUnassignedFd` of the handler that has the socket; a handler without it is left as it is.
unfoldable pub close_unassigned : ℕ → List Source → List Source × Bool
close_unassigned fd [] = ([], false)
close_unassigned fd (s ∷ sources) =
    let rest = close_unassigned fd sources in
    if has_unassigned_fd fd s
    then (record s { unassigned_fds = delete fd s.unassigned_fds } ∷ sources, true)
    else (s ∷ rest.0, rest.1)

unfoldable pub close_source_fd : ℕ → Forwarder → Forwarder
close_source_fd fd f =
    let (sources, found) = close_unassigned fd f.sources in
    if found then close_to fd (record f { sources = sources }) else f

-- `addSocket` of the handler that has the socket, and the position of that handler.
unfoldable pub add_socket : ℕ → ℕ → ℕ → List Source → List Source × Option ℕ
add_socket id fd position [] = ([], none)
add_socket id fd position (s ∷ sources) =
    let rest = add_socket id fd (position + 1) sources in
    if has_unassigned_fd fd s
    then (
      record s {
        unassigned_fds = delete fd s.unassigned_fds;
        socket_fd_map = store id fd s.socket_fd_map;
      }
          ∷ sources,
      some position,
    )
    else (s ∷ rest.0, rest.1)

unfoldable pub add_source_socket_id : ℕ → ℕ → Forwarder → Forwarder
add_source_socket_id id fd f =
    let (sources, handler) = add_socket id fd 0 f.sources in
    elim handler [
      | none ↦ f
      | some p ↦ record f { sources = sources; socket_id_sources = store id p f.socket_id_sources }
    ]

abbrev at_position : {A : Type 0} → ℕ → List A → Option A
at_position p [] = none
at_position zero (x ∷ xs) = some x
at_position (suc p) (x ∷ xs) = at_position p xs

abbrev put_position : {A : Type 0} → ℕ → A → List A → List A
put_position p y [] = []
put_position zero y (x ∷ xs) = y ∷ xs
put_position (suc p) y (x ∷ xs) = x ∷ put_position p y xs

-- `closeSocket` of a source handler.
abbrev close_socket_at : ℕ → ℕ → Source → Option ℕ → Forwarder → Forwarder
close_socket_at id p s none f = f
close_socket_at id p s (some fd) f =
    let s' = record s { socket_fd_map = remove id s.socket_fd_map } in
    close_to fd (record f { sources = put_position p s' f.sources })

abbrev close_in : ℕ → ℕ → Option Source → Forwarder → Forwarder
close_in id p none f = f
close_in id p (some s) f = close_socket_at id p s (lookup id s.socket_fd_map) f

unfoldable pub close_source_socket_id : ℕ → Forwarder → Forwarder
close_source_socket_id id f = elim (lookup id f.socket_id_sources) [
  | none ↦ f
  | some p ↦
      let f' = close_in id p (at_position p f.sources) f in
      record f' { socket_id_sources = remove id f.socket_id_sources }
]

-- `sendDataOnSocket` of a source handler.
abbrev send_in : ℕ → List ℕ → Option Source → Forwarder → Forwarder
send_in id bytes none f = f
send_in id bytes (some s) f = elim (lookup id s.socket_fd_map) [
  | none ↦ f
  | some fd ↦ write_to fd bytes f
]

unfoldable pub send_data_to_source : ℕ → List ℕ → Forwarder → Forwarder
send_data_to_source id bytes f = elim (lookup id f.socket_id_sources) [
  | none ↦ f
  | some p ↦ send_in id bytes (at_position p f.sources) f
]

-- PORT_FORWARD_DATA for a destination socket, by the socket that the id finds.
unfoldable pub to_destination : ℕ → Content → Option ℕ → Forwarder → Forwarder
to_destination id content none f = f
to_destination id (buffer bytes) (some fd) f = write_to fd bytes f
to_destination id closed (some fd) f =
    close_to fd (record f { destinations = remove id f.destinations })
to_destination id (errored e) (some fd) f =
    close_to fd (record f { destinations = remove id f.destinations })

unfoldable pub to_source : ℕ → Content → Forwarder → Forwarder
to_source id (buffer bytes) f = send_data_to_source id bytes f
to_source id closed f = close_source_socket_id id f
to_source id (errored e) f = close_source_socket_id id f

-- `handlePacket` on PORT_FORWARD_DATA.
unfoldable pub handle_data : ForwardData → Forwarder → Forwarder
handle_data d f =
    if d.source_to_destination
    then to_destination d.socket_id d.content (lookup d.socket_id f.destinations) f
    else to_source d.socket_id d.content f

-- `socketId = rand()` until the id is free, at most 100000 times; the script holds the numbers.
-- None is the error that no id was found.
unfoldable pub free_id : ℕ → List ℕ → List (ℕ × ℕ) → Outcome (Option ℕ)
free_id attempts [] destinations = waiting
free_id attempts (r ∷ random) destinations =
    let rest = free_id (attempts + 1) random destinations in
    if is_absent (lookup r destinations)
    then ok (some r)
    else if ltb (attempts + 1) 100000
    then rest
    else ok none

-- The socket that `connect` brings: for a port that of ::1, or else of 127.0.0.1.
unfoldable pub connect_destination : Bool → Option ℕ → Option ℕ → Option ℕ → Option ℕ
connect_destination false ipv6 ipv4 pipe = pipe
connect_destination true (some fd) ipv4 pipe = some fd
connect_destination true none ipv4 pipe = ipv4

abbrev pub with_id : ℕ → Outcome (Option ℕ) → Forwarder → Outcome (Option ℕ) × Forwarder
with_id fd (ok (some id)) f = (ok (some id), record f { destinations = store id fd f.destinations })
with_id fd (ok none) f = (ok none, f)
with_id fd (throws e) f = (throws e, f)
with_id fd fatal f = (fatal, f)
with_id fd waiting f = (waiting, f)

-- PortForwardDestinationResponse: the id of the socket, or an error.
unfoldable pub create_destination : Option ℕ → List ℕ → Forwarder → Outcome (Option ℕ) × Forwarder
create_destination none random f = (ok none, f)
create_destination (some fd) random f = with_id fd (free_id 0 random f.destinations) f

-- `handlePacket` on PORT_FORWARD_DESTINATION_RESPONSE: the id, or none for an error, and the
-- socket that had asked.
unfoldable pub handle_response : Option ℕ → ℕ → Forwarder → Forwarder
handle_response none fd f = close_source_fd fd f
handle_response (some id) fd f = add_source_socket_id id fd f

-- `update` on one destination handler; PortForwardHandler drops a handler that closed its socket.
abbrev pub updated : ℕ → ℕ → List ForwardData × Bool → Forwarder → List ForwardData × Forwarder
updated id fd (messages, true) f = (messages, f)
updated id fd (messages, false) f =
    (messages, close_to fd (record f { destinations = remove id f.destinations }))

abbrev update_found : ℕ → List Got → Option ℕ → Forwarder → List ForwardData × Forwarder
update_found id reads none f = ([], f)
update_found id reads (some fd) f = updated id fd (pump false id reads) f

unfoldable pub update_destination : ℕ → List Got → Forwarder → List ForwardData × Forwarder
update_destination id reads f = update_found id reads (lookup id f.destinations) f

-- `update` of a source handler on one of its sockets.
unfoldable pub update_source : ℕ → ℕ → List Got → Source → List ForwardData × Source
update_source id fd reads s =
    let (messages, alive) = pump true id reads in
    (messages, if alive then s else record s { socket_fd_map = remove id s.socket_fd_map })
