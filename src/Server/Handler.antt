-- ===== src/Server/Handler.antt =====
-- clientHandler of src/base/ServerConnection.cpp as a whole: what becomes of the socket that it was
-- given.
use eternal_terminal.Server.Removal.{destroy_some}
use eternal_terminal.Common.{
  ℕ, zero, suc, ◌≡◌, refl, ap, ◌∙◌, ◌⊎◌, inl, inr, Bool, true, false, Option, none, some, List, [],
  ◌∷◌, ◌++◌, arith, length, Outcome, ok, throws, fatal, waiting, find, same_refl, Bool-cases,
  continue, ◌==◌, one_of,
}
use eternal_terminal.Net.{Net, close}
use eternal_terminal.Crypto.{crypto_handler, CryptoHandler}
use eternal_terminal.Crypto.Nonce.{initial_nonce}
use eternal_terminal.Connection.{Connection, Call, shutdown, close_socket, Exchange}
use eternal_terminal.Connection.Recovery.{Recovered, recover-Recovered}
use eternal_terminal.Writer.{is_some}
use eternal_terminal.Server.{
  Server, at, put, client_key_exists, destroy_partial_connection, remove_client, admit, admit_at,
  admit_new, respond, Admission, refused, created, returning, Answers, after_new_client,
  after_recover_client, recover_object, recover_client, server_client_connection, client_handler,
  Request, read_fails, request, protocol_version, on_socket,
}

abbrev pub IsClosed : ℕ → Net → Type 0
IsClosed fd net = one_of fd net.closed ≡ true

abbrev pub IsHeld : ℕ → Server → Type 0
IsHeld fd s = (p : ℕ) × (c : Connection) × (at p s.connections ≡ some c) × (c.socket_fd ≡ some fd)

-- A handler that has returned has closed its socket or has left it to a connection.
pub Disposed : ℕ → Outcome (Unit {0}) × Server → Type 0
Disposed fd (ok done, s) = IsClosed fd s.net ⊎ IsHeld fd s
Disposed fd (throws e, s) = ⊥
Disposed fd (fatal, s) = Unit
Disposed fd (waiting, s) = Unit

close-IsClosed : (fd : ℕ) (net : Net) → IsClosed fd (close fd net)
close-IsClosed fd net = ground arith

at_last : {A : Type 0} (xs : List A) (x : A) → at (length xs) (xs ++ (x ∷ [])) ≡ some x
at_last [] x = refl
at_last (y ∷ xs) x = at_last xs x

at-put_same :
    {A : Type 0} (p : ℕ) (y : A) (xs : List A) {x : A}
    → at p xs ≡ some x
    → at p (put p y xs) ≡ some y
at-put_same p y [] e = absurd cc
at-put_same zero y (x ∷ xs) e = refl
at-put_same (suc p) y (x ∷ xs) e = at-put_same p y xs e

-- What the first section leaves to the second: the new object has the socket and the name.
Admitted : Admission → List ℕ → ℕ → Server → Type 0
Admitted refused id fd s = Unit
Admitted (returning p) id fd s = Unit
Admitted (created p) id fd s =
    (find id s.client_connections ≡ some p)
    × ((c : Connection) × (at p s.connections ≡ some c) × (c.socket_fd ≡ some fd))

shutdown-IsClosed :
    (fd : ℕ) (c : Connection) (net : Net) → c.socket_fd ≡ some fd → IsClosed fd (shutdown c net).1
unfolding shutdown close_socket
shutdown-IsClosed fd c net e = ground (arith, e)

destroy-IsClosed :
    (id : List ℕ) (p fd : ℕ) (s : Server)
    → Admitted (created p) id fd s
    → IsClosed fd (destroy_partial_connection id s).net
unfolding Admitted
destroy-IsClosed id p fd s (named, (c, here, e)) =
    ap (λ (x : Server). one_of fd x.net.closed) (destroy_some id s p c named here)
    ∙ shutdown-IsClosed fd c s.net e

after_new_client-Disposed :
    (answer : Option Bool) (id : List ℕ) (p fd : ℕ) (s : Server)
    → Admitted (created p) id fd s
    → Disposed fd (ok tt, after_new_client answer id fd s)
unfolding Disposed Admitted
after_new_client-Disposed none id p fd s h = inl (destroy-IsClosed id p fd s h)
after_new_client-Disposed (some true) id p fd s (named, (c, here, e)) = inr (p, c, here, e)
after_new_client-Disposed (some false) id p fd s h =
    inl (close-IsClosed fd (remove_client id s).1.net)

after_recover-Disposed :
    (p fd : ℕ) (x : Exchange) (c c' : Connection) (net : Net) (s : Server) (out : Call Bool)
    → at p s.connections ≡ some c
    → Recovered fd x c' net out
    → Disposed fd (after_recover_client p fd out s)
unfolding Disposed Recovered
after_recover-Disposed p fd x c c' net s (ok true, out) e h =
    inr (p, out.0, at-put_same p out.0 s.connections e, ap (λ o. o.0.socket_fd) h.result)
after_recover-Disposed p fd x c c' net s (ok false, out) e h =
    inl (ap (λ o. one_of fd o.1.closed) h ∙ close-IsClosed fd net)
after_recover-Disposed p fd x c c' net s (throws error, out) e h = inl (close-IsClosed fd out.1)
after_recover-Disposed p fd x c c' net s (fatal, out) e h = tt
after_recover-Disposed p fd x c c' net s (waiting, out) e h = tt

recover_client-Disposed :
    (p fd : ℕ) (x : Exchange) (c : Connection) (s : Server)
    → at p s.connections ≡ some c
    → Disposed fd (after_recover_client p fd (recover_client fd x c s.net) s)
unfolding recover_client
recover_client-Disposed p fd x c s e = elim (Bool-cases (is_some c.socket_fd)) [
  | inl up ↦
      let (c', net') = close_socket c s.net in
      rw up (after_recover-Disposed p fd x c c' net' s _ e (recover-Recovered fd x c' net'))
  | inr down ↦
      rw down (after_recover-Disposed p fd x c c s.net s _ e (recover-Recovered fd x c s.net))
]

recover_object-Disposed :
    (object : Option Connection) (p fd : ℕ) (x : Exchange) (s : Server)
    → at p s.connections ≡ object
    → Disposed fd (recover_object object p x fd s)
unfolding Disposed
recover_object-Disposed none p fd x s e = tt
recover_object-Disposed (some c) p fd x s e = recover_client-Disposed p fd x c s e

respond-Disposed :
    (m : Admission) (id : List ℕ) (a : Answers) (fd : ℕ) (s : Server)
    → Admitted m id fd s
    → Disposed fd (respond m id a fd s)
unfolding respond Disposed
respond-Disposed refused id a fd s h = inl (close-IsClosed fd s.net)
respond-Disposed (created p) id a fd s h = elim (Bool-cases a.sends_response) [
  | inl sent ↦ rw sent (after_new_client-Disposed a.new_client id p fd s h)
  | inr lost ↦ rw lost (inl (destroy-IsClosed id p fd s h))
]
respond-Disposed (returning p) id a fd s h = elim (Bool-cases a.sends_response) [
  | inl sent ↦ rw sent (recover_object-Disposed (at p s.connections) p fd a.exchange s refl)
  | inr lost ↦ rw lost (inl (close-IsClosed fd s.net))
]

crypto_handler-cases :
    (key : List ℕ) (msb : ℕ)
    → (crypto_handler key msb ≡ fatal) ⊎ ((c : CryptoHandler) × (crypto_handler key msb ≡ ok c))
unfolding crypto_handler
crypto_handler-cases key msb = elim (Bool-cases (length key == 32)) [
  | inl fits ↦ inr (record { key = key; nonce = initial_nonce msb }, rw fits refl)
  | inr wrong ↦ inl (rw wrong refl)
]

-- The constructor takes the socket or aborts.
made_on :
    (key : List ℕ) (fd : ℕ)
    → (server_client_connection key fd ≡ fatal)
      ⊎ ((c : Connection) × (server_client_connection key fd ≡ ok c) × (c.socket_fd ≡ some fd))
unfolding server_client_connection
made_on key fd = elim (crypto_handler-cases key 0) [
  | inl e ↦ inl (rw e refl)
  | inr (incoming, e) ↦ elim (crypto_handler-cases key 1) [
    | inl e' ↦ inl (rw (e, e') refl)
    | inr (outgoing, e') ↦ inr (on_socket fd incoming outgoing, rw (e, e') refl, refl)
  ]
]

-- The first section and the second, on a key that is registered or not.
new-Disposed :
    (id : List ℕ) (a : Answers) (fd : ℕ) (key : Option (List ℕ)) (s : Server)
    → Disposed fd (
        continue
          (admit_new id fd key s).0
          (admit_new id fd key s).1
          λ m. respond m id a fd (admit_new id fd key s).1)
unfolding admit_new Admitted Disposed
new-Disposed id a fd none s = respond-Disposed refused id a fd s tt
new-Disposed id a fd (some key) s = elim (made_on key fd) [
  | inl e ↦ rw e tt
  | inr (c, e, here) ↦ rw e (
      respond-Disposed (created (length s.connections)) id a fd
        (record s {
          connections = s.connections ++ (c ∷ []);
          client_connections = (id, length s.connections) ∷ s.client_connections;
        })
        (rw (same_refl id) refl, (c, at_last s.connections c, here)))
]

at-Disposed :
    (id : List ℕ) (a : Answers) (fd : ℕ) (p : Option ℕ) (s : Server)
    → Disposed fd (
        continue
          (admit_at p id fd s).0
          (admit_at p id fd s).1
          λ m. respond m id a fd (admit_at p id fd s).1)
unfolding admit_at Admitted
at-Disposed id a fd none s = new-Disposed id a fd (find id s.client_keys) s
at-Disposed id a fd (some p) s = elim (Bool-cases (client_key_exists id s)) [
  | inl known ↦ rw known (respond-Disposed (returning p) id a fd s tt)
  | inr unknown ↦ rw unknown (respond-Disposed refused id a fd s tt)
]

-- Whatever the client sends and whatever fails, a handler that returns has closed its socket or
-- left it to a connection.
pub client_handler-Disposed :
    (r : Request) (a : Answers) (fd : ℕ) (s : Server) → Disposed fd (client_handler r a fd s)
unfolding client_handler admit Disposed
client_handler-Disposed read_fails a fd s = inl (close-IsClosed fd s.net)
client_handler-Disposed (request version id) a fd s =
    elim (Bool-cases (version == protocol_version)) [
      | inl same_version ↦ rw same_version (at-Disposed id a fd (find id s.client_connections) s)
      | inr other ↦ rw other (inl (close-IsClosed fd s.net))
    ]
