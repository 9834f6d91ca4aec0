-- ===== src/Server.antt =====
-- src/base/ServerConnection.cpp and src/base/ServerClientConnection.cpp: the keys that are
-- registered, the connections by client id, and the handler of a client that connects.
pub mod Registry
pub mod Down
pub mod Removal
pub mod Sections
pub mod Steps
pub mod Handler
pub mod Removed
pub mod Passkey
use eternal_terminal.Common.{
  ℕ, zero, suc, ◌+◌, Bool, true, false, not, ◌&&◌, ◌||◌, Option, none, some, List, [], ◌∷◌, ◌++◌,
  Outcome, ok, throws, fatal, waiting, ◌>>=◌, continue, ◌==◌, ltb, if◌then◌else◌, length, find,
  erase, assign,
}
use eternal_terminal.Net.{Net, close}
use eternal_terminal.Crypto.{crypto_handler, CryptoHandler}
use eternal_terminal.Reader.{reader}
use eternal_terminal.Writer.{writer, is_some}
use eternal_terminal.Connection.{
  Connection, server, close_socket, shutdown, Exchange, Call, connection_recover,
}

abbrev pub client_server_nonce_msb : ℕ
client_server_nonce_msb = 0

abbrev pub server_client_nonce_msb : ℕ
server_client_nonce_msb = 1

abbrev pub protocol_version : ℕ
protocol_version = 6

-- `connections` holds every ServerClientConnection that was created, and a pointer is a position
-- in it: the threads of a session keep theirs after the map has lost it.
pub record Server : Type 0 where
  pub client_keys : List (List ℕ × List ℕ)
  pub client_connections : List (List ℕ × ℕ)
  pub connections : List Connection
  pub net : Net

abbrev pub is_set : {A : Type 0} → Option A → Bool
is_set none = false
is_set (some a) = true

abbrev pub at : {A : Type 0} → ℕ → List A → Option A
at p [] = none
at zero (x ∷ xs) = some x
at (suc p) (x ∷ xs) = at p xs

abbrev pub put : {A : Type 0} → ℕ → A → List A → List A
put p y [] = []
put zero y (x ∷ xs) = y ∷ xs
put (suc p) y (x ∷ xs) = x ∷ put p y xs

abbrev pub kept_at : ℕ → Server → Connection × Net → Server
kept_at p s (c, net) = record s { connections = put p c s.connections; net = net }

-- A call of a method on the object behind a pointer.
abbrev pub on_object :
    Option Connection → ℕ → (Connection → Net → Connection × Net) → Server → Server
on_object none p f s = s
on_object (some c) p f s = kept_at p s (f c s.net)

-- A call of a method on the object behind a pointer.
abbrev pub on_connection : ℕ → (Connection → Net → Connection × Net) → Server → Server
on_connection p f s = on_object (at p s.connections) p f s

abbrev pub close_fd : ℕ → Server → Server
close_fd fd s = record s { net = close fd s.net }

-- `verifyPasskey`: the loop goes over the common length whatever it meets.
abbrev mismatches : Bool → List ℕ → List ℕ → Bool
mismatches failed [] target = failed
mismatches failed (k ∷ key) [] = failed
mismatches failed (k ∷ key) (t ∷ target) = mismatches (failed || not (k == t)) key target

unfoldable pub verify_passkey : List ℕ → List ℕ → Bool
verify_passkey key target = not (mismatches (not (length key == length target)) key target)

abbrev pub on_socket : ℕ → CryptoHandler → CryptoHandler → Connection
on_socket fd incoming outgoing = record {
  role = server;
  reader = some (reader incoming (some fd));
  writer = some (writer outgoing (some fd));
  socket_fd = some fd;
  shutting_down = false;
  reconnecting = false;
}

-- The constructor of ServerClientConnection. A key of a wrong length aborts.
unfoldable pub server_client_connection : List ℕ → ℕ → Outcome Connection
server_client_connection key fd = crypto_handler key client_server_nonce_msb >>= λ incoming.
    crypto_handler key server_client_nonce_msb >>= λ outgoing. ok (on_socket fd incoming outgoing)

unfoldable pub recover_client : ℕ → Exchange → Connection → Net → Call Bool
recover_client fd x c net =
    let (c', net') = (if is_some c.socket_fd then close_socket c net else (c, net)) in
    connection_recover fd x c' net'

unfoldable pub client_key_exists : List ℕ → Server → Bool
client_key_exists id s = is_set (find id s.client_keys)

unfoldable pub add_client_key : List ℕ → List ℕ → Server → Server
add_client_key id passkey s = record s { client_keys = assign id passkey s.client_keys }

-- Shuts the connection of a client down and takes it out of the map.
unfoldable pub destroy_at : Option ℕ → List ℕ → Server → Server
destroy_at none id s = s
destroy_at (some p) id s = record (on_connection p shutdown s) {
  client_connections = erase id s.client_connections;
}

unfoldable pub destroy_partial_connection : List ℕ → Server → Server
destroy_partial_connection id s = destroy_at (find id s.client_connections) id s

unfoldable pub remove_client : List ℕ → Server → Bool × Server
remove_client id s =
    if not (client_key_exists id s)
    then (false, s)
    else (true, destroy_partial_connection id (record s { client_keys = erase id s.client_keys }))

abbrev shutdown_all : List (List ℕ × ℕ) → Server → Server
shutdown_all [] s = s
shutdown_all ((id, p) ∷ entries) s = shutdown_all entries (on_connection p shutdown s)

unfoldable pub server_shutdown : Server → Server
server_shutdown s = record (shutdown_all s.client_connections s) { client_connections = [] }

-- What the first section under `classMutex` decides for a client.
pub data Admission : Type 0 where
  refused : Admission
  created : ℕ → Admission
  returning : ℕ → Admission

unfoldable pub admit_new : List ℕ → ℕ → Option (List ℕ) → Server → Outcome Admission × Server
admit_new id fd none s = (ok refused, s)
admit_new id fd (some key) s =
    let p = length s.connections in
    continue (server_client_connection key fd) s λ c. (
      ok (created p),
      record s {
        connections = s.connections ++ (c ∷ []);
        client_connections = (id, p) ∷ s.client_connections;
      },
    )

unfoldable pub admit_at : Option ℕ → List ℕ → ℕ → Server → Outcome Admission × Server
admit_at none id fd s = admit_new id fd (find id s.client_keys) s
admit_at (some p) id fd s =
    if client_key_exists id s then (ok (returning p), s) else (ok refused, s)

unfoldable pub admit : List ℕ → ℕ → Server → Outcome Admission × Server
admit id fd s = admit_at (find id s.client_connections) id fd s

-- What the handler's calls bring: whether the response is sent, what `newClient` answers (none
-- when one throws), and the exchange of a recovery.
pub record Answers : Type 0 where
  pub sends_response : Bool
  pub new_client : Option Bool
  pub exchange : Exchange

abbrev pub after_new_client : Option Bool → List ℕ → ℕ → Server → Server
after_new_client none id fd s = destroy_partial_connection id s
after_new_client (some true) id fd s = s
after_new_client (some false) id fd s = close_fd fd (remove_client id s).1

-- An exception that `recover` lets through is caught by the handler.
abbrev pub after_recover_client : ℕ → ℕ → Call Bool → Server → Outcome (Unit {0}) × Server
after_recover_client p fd (ok b, out) s = (ok tt, kept_at p s out)
after_recover_client p fd (throws e, out) s = (ok tt, close_fd fd (kept_at p s out))
after_recover_client p fd (fatal, out) s = (fatal, kept_at p s out)
after_recover_client p fd (waiting, out) s = (waiting, kept_at p s out)

-- A pointer always finds its object.
abbrev pub recover_object :
    Option Connection → ℕ → Exchange → ℕ → Server → Outcome (Unit {0}) × Server
recover_object none p x fd s = (fatal, s)
recover_object (some c) p x fd s = after_recover_client p fd (recover_client fd x c s.net) s

unfoldable pub respond : Admission → List ℕ → Answers → ℕ → Server → Outcome (Unit {0}) × Server
respond refused id a fd s = (ok tt, close_fd fd s)
respond (created p) id a fd s =
    if a.sends_response
    then (ok tt, after_new_client a.new_client id fd s)
    else (ok tt, destroy_partial_connection id s)
respond (returning p) id a fd s =
    if a.sends_response
    then recover_object (at p s.connections) p a.exchange fd s
    else (ok tt, close_fd fd s)

-- What `readProto` brings.
pub data Request : Type 0 where
  read_fails : Request
  request : ℕ → List ℕ → Request

-- `clientHandler`, when no other thread comes between its sections.
unfoldable pub client_handler : Request → Answers → ℕ → Server → Outcome (Unit {0}) × Server
client_handler read_fails a fd s = (ok tt, close_fd fd s)
client_handler (request version id) a fd s =
    if version == protocol_version
    then (let (admission, s') = admit id fd s in continue admission s' λ m. respond m id a fd s')
    else (ok tt, close_fd fd s)
