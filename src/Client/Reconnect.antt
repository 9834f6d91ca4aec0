-- ===== src/Client/Reconnect.antt =====
-- pollReconnect of src/base/ClientConnection.cpp: when the thread ends, and what it does with the
-- sockets that it opens.
use eternal_terminal.Server.{Server, Admission, admit, remove_client, refused}
use eternal_terminal.Common.{
  ℕ, ◌≡◌, refl, ap, ◌∙◌, ◌⊎◌, inl, inr, Bool, true, false, Option, none, some, List, [], ◌∷◌, ok,
  throws, fatal, waiting, runtime_error, out_of_range, length_error, if◌then◌else◌, Bool-cases,
  continue,
}
use eternal_terminal.Net.{Net, close}
use eternal_terminal.Writer.{is_some}
use eternal_terminal.Connection.{Connection, Call, Exchange, connection_recover}
use eternal_terminal.Server.Removed.{admit-remove_client}
use eternal_terminal.Client.{
  Status, new_client, returning_client, invalid_key, mismatched_protocol, Attempt, after_recovery,
  answered, try_reconnect, reconnect_round, poll_reconnect, status_of,
}

-- The thread has no reason to go on.
pub IsSettled : Connection → Type 0
IsSettled c = (is_some c.socket_fd ≡ true) ⊎ (c.shutting_down ≡ true)

Settles : Call Bool → Type 0
Settles (ok true, out) = IsSettled out.0
Settles (ok false, out) = Unit
Settles (throws e, out) = ⊥
Settles (fatal, out) = Unit
Settles (waiting, out) = Unit

after_recovery-Settles : (fd : ℕ) (out : Call Bool) → Settles (after_recovery fd out)
unfolding Settles
after_recovery-Settles fd (ok b, out) = tt
after_recovery-Settles fd (throws runtime_error, out) = tt
after_recovery-Settles fd (throws out_of_range, out) = tt
after_recovery-Settles fd (throws length_error, out) = tt
after_recovery-Settles fd (fatal, out) = tt
after_recovery-Settles fd (waiting, out) = tt

answered-Settles :
    (fd : ℕ) (response : Option Status) (x : Exchange) (c : Connection) (net : Net)
    → Settles (answered fd response x c net)
unfolding Settles answered IsSettled
answered-Settles fd none x c net = tt
answered-Settles fd (some invalid_key) x c net = inr refl
answered-Settles fd (some returning_client) x c net =
    after_recovery-Settles fd (connection_recover fd x c net)
answered-Settles fd (some new_client) x c net = tt
answered-Settles fd (some mismatched_protocol) x c net = tt

try-Settles :
    (connects : Option ℕ) (a : Attempt) (c : Connection) (net : Net)
    → Settles (try_reconnect connects a c net)
unfolding try_reconnect Settles
try-Settles none a c net = tt
try-Settles (some fd) a c net = elim (Bool-cases a.sends_request) [
  | inl sent ↦ rw sent (answered-Settles fd a.response a.exchange c net)
  | inr lost ↦ rw lost tt
]

module _ (a : Attempt) (c : Connection) (net : Net) where
  by_flags :
      (up down : Bool)
      → is_some c.socket_fd ≡ up
      → c.shutting_down ≡ down
      → Settles (
          if up
          then (ok true, (c, net))
          else if down
          then (ok true, (c, net))
          else try_reconnect a.connects a c net)
  unfolding Settles IsSettled
  by_flags true down e h = inl e
  by_flags false true e h = inr h
  by_flags false false e h = try-Settles a.connects a c net

  round-Settles : Settles (reconnect_round a c net)
  unfolding reconnect_round
  round-Settles = by_flags (is_some c.socket_fd) c.shutting_down refl refl

  round_tries :
      c.socket_fd ≡ none
      → c.shutting_down ≡ false
      → reconnect_round a c net ≡ try_reconnect a.connects a c net
  unfolding reconnect_round
  round_tries e h =
      ap
        (λ fd.
          if is_some fd
          then (ok true, (c, net))
          else if c.shutting_down
          then (ok true, (c, net))
          else try_reconnect a.connects a c net)
        e
      ∙ ap (λ down. if down then (ok true, (c, net)) else try_reconnect a.connects a c net) h

-- The thread of a call that has returned has no reason to go on.
pub Returned : Call Bool → Type 0
Returned (ok b, out) = IsSettled out.0
Returned (throws e, out) = ⊥
Returned (fatal, out) = Unit
Returned (waiting, out) = Unit

after_round-Returned :
    (round : Call Bool) (rest : Call Bool)
    → Settles round
    → Returned rest
    → Returned (continue round.0 round.1 λ ended. if ended then (ok true, round.1) else rest)
unfolding Settles Returned
after_round-Returned (ok true, out) rest h k = h
after_round-Returned (ok false, out) rest h k = k
after_round-Returned (throws e, out) rest h k = h
after_round-Returned (fatal, out) rest h k = tt
after_round-Returned (waiting, out) rest h k = tt

-- The reconnect thread never throws, and returns only when the connection has a socket or has
-- been shut down.
pub poll_reconnect-Returned :
    (attempts : List Attempt) (c : Connection) (net : Net)
    → Returned (poll_reconnect attempts c net)
unfolding poll_reconnect Returned
poll_reconnect-Returned [] c net = tt
poll_reconnect-Returned (a ∷ attempts) c net =
    let out = (reconnect_round a c net).1 in
    after_round-Returned (reconnect_round a c net) (poll_reconnect attempts out.0 out.1)
      (round-Settles a c net) (poll_reconnect-Returned attempts out.0 out.1)

module _ (c : Connection) (net : Net) where
  poll_first :
      (a : Attempt) (attempts : List Attempt) (round : Call Bool)
      → reconnect_round a c net ≡ round
      → poll_reconnect (a ∷ attempts) c net
        ≡ continue round.0 round.1 (λ ended.
          if ended then (ok true, round.1) else poll_reconnect attempts round.1.0 round.1.1)
  unfolding poll_reconnect
  poll_first a attempts round e =
      ap
        (λ (r : Call Bool).
          continue r.0 r.1
            (λ ended. if ended then (ok true, r.1) else poll_reconnect attempts r.1.0 r.1.1))
        e

-- A client that has lost its socket, is not shutting down, and was removed by the server gives up
-- at its next attempt that gets an answer: the server refuses it, and the refusal shuts the
-- connection down and closes the socket of the attempt.
pub removed_client-stops :
    (id : List ℕ) (s : Server) (fd fd' : ℕ) (m : Admission) (a : Attempt) (attempts : List Attempt)
    (c : Connection) (net : Net)
    → (admit id fd' (remove_client id s).1).0 ≡ ok m
    → c.socket_fd ≡ none
    → c.shutting_down ≡ false
    → a.connects ≡ some fd
    → a.sends_request ≡ true
    → a.response ≡ some (status_of m)
    → poll_reconnect (a ∷ attempts) c net
      ≡ (ok true, (record c { shutting_down = true }, close fd net))
unfolding try_reconnect answered status_of
removed_client-stops id s fd fd' m a attempts c net e down up ha hs hp =
    let e' : m ≡ refused = cc (admit-remove_client id fd' s, e) in
    poll_first c net a attempts _ (
      round_tries a c net down up
      ∙ ap (λ o. try_reconnect o a c net) ha
      ∙ ap
          (λ sent.
            if sent then answered fd a.response a.exchange c net else (ok false, (c, close fd net)))
          hs
      ∙ ap (λ response. answered fd response a.exchange c net)
          (hp ∙ ap (λ k. some (status_of k)) e'))
