-- ===== src/Client/Start.antt =====
-- A first connection: ClientConnection::connect (src/base/ClientConnection.cpp) and the constructor
-- of ServerClientConnection (src/base/ServerClientConnection.cpp) start a session each way.
use eternal_terminal.Session.{start}
use eternal_terminal.Net.{Net}
use eternal_terminal.Crypto.Nonce.{initial_nonce}
use eternal_terminal.Connection.{Connection}
use eternal_terminal.Common.{ℕ, ◌≡◌, refl, true, some, List, arith, length, ok}
use eternal_terminal.Crypto.{CryptoHandler, crypto_handler, key_bytes}
use eternal_terminal.Server.{server_client_connection, on_socket}
use eternal_terminal.Client.{new_client, Attempt, establish, connect, connect_on, greeted}

handler_of : List ℕ → ℕ → CryptoHandler
handler_of key msb = record { key = key; nonce = initial_nonce msb }

crypto_handler-ok :
    (key : List ℕ) (msb : ℕ)
    → length key ≡ key_bytes
    → crypto_handler key msb ≡ ok (handler_of key msb)
unfolding crypto_handler handler_of
crypto_handler-ok key msb h = ground (arith, h)

-- One session upwards, one downwards, on the two ends of a socket.
pub record Started (fd fd' : ℕ) (client there : Connection) : Type 0 where
  pub up : CryptoHandler
  pub down : CryptoHandler
  pub sends : client.writer ≡ some (start up fd fd').writer
  pub arrives : there.reader ≡ some (start up fd fd').reader
  pub sends_back : there.writer ≡ some (start down fd' fd).writer
  pub arrives_back : client.reader ≡ some (start down fd' fd).reader
  pub same_key : up.key ≡ down.key
  pub up_nonce : up.nonce ≡ initial_nonce 0
  pub down_nonce : down.nonce ≡ initial_nonce 1

-- With a key of the right length and the client accepted as a new one, both ends come up: the client's writer and the server's reader start one session, the server's writer
-- and the client's reader another, under one key with initial nonces of different top bytes.
pub connect-Started :
    (key : List ℕ) (fd fd' : ℕ) (a : Attempt) (c : Connection) (net : Net)
    → length key ≡ key_bytes
    → a.connects ≡ some fd
    → a.sends_request ≡ true
    → a.response ≡ some new_client
    → ((connect key a c net).0 ≡ ok true)
      × ((there : Connection) × (server_client_connection key fd' ≡ ok there)
          × Started fd fd' (connect key a c net).1.0 there)
unfolding server_client_connection connect connect_on greeted establish handler_of
connect-Started key fd fd' a c net h ha hs hr =
    let to_server = handler_of key 0 in
    let to_client = handler_of key 1 in
    rw (ha, hs, hr, crypto_handler-ok key 0 h, crypto_handler-ok key 1 h)
      (
        refl,
        (
          on_socket fd' to_server to_client,
          refl,
          record {
            up = to_server;
            down = to_client;
            sends = refl;
            arrives = refl;
            sends_back = refl;
            arrives_back = refl;
            same_key = refl;
            up_nonce = refl;
            down_nonce = refl;
          },
        ),
      )
