-- ===== src/Client.antt =====
-- src/base/ClientConnection.cpp: the first connection of a client, and the thread that reconnects.
-- The connection is that of Connection.antt, in the role of a client.
pub mod Start
pub mod Reconnect
use eternal_terminal.Common.{
  ℕ, Bool, true, false, not, ◌&&◌, ◌||◌, Option, none, some, List, [], ◌∷◌, Outcome, ok, throws,
  fatal, waiting, Error, runtime_error, continue, if◌then◌else◌, ◌>>=◌,
}
use eternal_terminal.Net.{Net, close}
use eternal_terminal.Crypto.{crypto_handler, CryptoHandler}
use eternal_terminal.Reader.{reader}
use eternal_terminal.Writer.{writer, is_some}
use eternal_terminal.Connection.{Connection, Exchange, Call, connection_recover}
use eternal_terminal.Server.{
  Admission, refused, created, returning, client_server_nonce_msb, server_client_nonce_msb,
}

-- The status of a ConnectResponse.
pub data Status : Type 0 where
  new_client returning_client invalid_key mismatched_protocol : Status

-- The status with which the server's handler answers each admission.
unfoldable pub status_of : Admission → Status
status_of refused = invalid_key
status_of (created p) = new_client
status_of (returning p) = returning_client

-- What the calls of an attempt bring: the socket of `socketHandler->connect`, whether the request
-- is sent, and the status of the response. None and false stand for -1 and for a runtime_error.
pub record Attempt : Type 0 where
  pub connects : Option ℕ
  pub sends_request : Bool
  pub response : Option Status
  pub exchange : Exchange

abbrev pub established : ℕ → CryptoHandler → CryptoHandler → Connection → Connection
established fd incoming outgoing c = record c {
  socket_fd = some fd;
  reader = some (reader incoming (some fd));
  writer = some (writer outgoing (some fd));
}

-- Both handlers abort on a key of a wrong length.
unfoldable pub establish : List ℕ → ℕ → Connection → Net → Call Bool
establish key fd c net =
    continue (crypto_handler key server_client_nonce_msb) (c, net)
      λ incoming.
        continue (crypto_handler key client_server_nonce_msb) (c, net)
          λ outgoing. (ok true, (established fd incoming outgoing c, net))

-- A failure closes the socket, whose number the connection keeps.
abbrev pub connect_failed : ℕ → Connection → Net → Call Bool
connect_failed fd c net = (ok false, (c, close fd net))

unfoldable pub greeted : List ℕ → ℕ → Option Status → Connection → Net → Call Bool
greeted key fd none c net = connect_failed fd c net
greeted key fd (some new_client) c net = establish key fd c net
greeted key fd (some returning_client) c net = establish key fd c net
greeted key fd (some invalid_key) c net = connect_failed fd c net
greeted key fd (some mismatched_protocol) c net = connect_failed fd c net

unfoldable pub connect_on : List ℕ → Option ℕ → Attempt → Connection → Net → Call Bool
connect_on key none a c net = (ok false, (record c { socket_fd = none }, net))
connect_on key (some fd) a c net =
    let c' = record c { socket_fd = some fd } in
    if a.sends_request then greeted key fd a.response c' net else connect_failed fd c' net

unfoldable pub connect : List ℕ → Attempt → Connection → Net → Call Bool
connect key a c net = connect_on key a.connects a c net

-- A round of `pollReconnect` ends with `true` when the loop does.
abbrev pub after_recovery : ℕ → Call Bool → Call Bool
after_recovery fd (ok b, out) = (ok false, out)
after_recovery fd (throws runtime_error, (c, net)) = (ok false, (c, close fd net))
after_recovery fd (throws e, out) = (ok false, out)
after_recovery fd (fatal, out) = (fatal, out)
after_recovery fd (waiting, out) = (waiting, out)

unfoldable pub answered : ℕ → Option Status → Exchange → Connection → Net → Call Bool
answered fd none x c net = (ok false, (c, close fd net))
answered fd (some invalid_key) x c net =
    (ok true, (record c { shutting_down = true }, close fd net))
answered fd (some returning_client) x c net = after_recovery fd (connection_recover fd x c net)
answered fd (some new_client) x c net = (ok false, (c, close fd net))
answered fd (some mismatched_protocol) x c net = (ok false, (c, close fd net))

unfoldable pub try_reconnect : Option ℕ → Attempt → Connection → Net → Call Bool
try_reconnect none a c net = (ok false, (c, net))
try_reconnect (some fd) a c net =
    if a.sends_request
    then answered fd a.response a.exchange c net
    else (ok false, (c, close fd net))

unfoldable pub reconnect_round : Attempt → Connection → Net → Call Bool
reconnect_round a c net =
    if is_some c.socket_fd
    then (ok true, (c, net))
    else if c.shutting_down
    then (ok true, (c, net))
    else try_reconnect a.connects a c net

-- The thread, by the attempts that it makes; it still runs when they are used up.
unfoldable pub poll_reconnect : List Attempt → Connection → Net → Call Bool
poll_reconnect [] c net = (waiting, (c, net))
poll_reconnect (a ∷ attempts) c net =
    let (round, out) = reconnect_round a c net in
    let rest = poll_reconnect attempts out.0 out.1 in
    continue round out λ ended. if ended then (ok true, out) else rest
