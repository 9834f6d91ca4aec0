-- ===== src/Server/Steps.antt =====
-- The steps of all threads on the server of src/base/ServerConnection.cpp, one section under
-- `classMutex` each, and the invariant that every step keeps.
use eternal_terminal.Server.Down.{down-shutdown, down-step}
use eternal_terminal.Server.Registry.{WellFormed}
use eternal_terminal.Connection.{Connection, shutdown}
use eternal_terminal.Common.{
  ℕ, ◌≡◌, refl, sym, ap, ◌∙◌, ◌⊎◌, inl, inr, true, Option, none, some, List, [], ◌∷◌, arith, find,
}
use eternal_terminal.Crypto.{Secretbox}
use eternal_terminal.Connection.Coherent.{Event}
use eternal_terminal.Connection.Coherent
use eternal_terminal.Server.{
  Server, at, on_object, on_connection, client_key_exists, add_client_key, remove_client,
  server_shutdown, admit, respond, Admission, Answers, shutdown_all,
}
use eternal_terminal.Server.Registry.Objects.{at-put}
use eternal_terminal.Server.Sections.{
  remove-WellFormed, respond-WellFormed, add_client_key-WellFormed, admit_at-WellFormed,
  put-WellFormed,
}

-- Each object is shut down, or an entry that is still to come points to it.
abbrev Covered : List (List ℕ × ℕ) → Server → Type 0
Covered entries s =
    (p : ℕ) (c : Connection)
    → at p s.connections ≡ some c
    → (c.shutting_down ≡ true) ⊎ ((id : List ℕ) × (find id entries ≡ some p))

Covered-next :
    (id : List ℕ) (p : ℕ) (entries : List (List ℕ × ℕ)) (s : Server)
    → Covered ((id, p) ∷ entries) s
    → Covered entries (on_connection p shutdown s)
Covered-next id p entries s h = by_object (at p s.connections) refl
  where
    here_or_later :
        (q : ℕ) (name : List ℕ)
        → find name ((id, p) ∷ entries) ≡ some q
        → (p ≡ q) ⊎ (find name entries ≡ some q)
    here_or_later q name f = ground (arith, f)

    by_object :
        (object : Option Connection)
        → at p s.connections ≡ object
        → Covered entries (on_object object p shutdown s)
    by_object none e q c f = elim (h q c f) [
      | inl down ↦ inl down
      | inr (name, found) ↦ elim (here_or_later q name found) [
        | inl k ↦ absurd (cc (ap (λ i. at i s.connections) k, e, f))
        | inr k ↦ inr (name, k)
      ]
    ]
    by_object (some d) e q c f = elim (at-put p (shutdown d s.net).0 s.connections q c f) [
      | inl (same_place, is_new) ↦
          inl (ap (λ (x : Connection). x.shutting_down) is_new ∙ down-shutdown d s.net)
      | inr (other, old) ↦ elim (h q c old) [
        | inl down ↦ inl down
        | inr (name, found) ↦ elim (here_or_later q name found) [
          | inl k ↦ absurd (other (sym k))
          | inr k ↦ inr (name, k)
        ]
      ]
    ]

shutdown_all-Covered :
    (entries : List (List ℕ × ℕ)) (s : Server)
    → Covered entries s
    → Covered [] (shutdown_all entries s)
shutdown_all-Covered [] s h = h
shutdown_all-Covered ((id, p) ∷ entries) s h =
    shutdown_all-Covered entries (on_connection p shutdown s) (Covered-next id p entries s h)

server_shutdown-WellFormed : (s : Server) → WellFormed s → WellFormed (server_shutdown s)
unfolding server_shutdown client_key_exists
server_shutdown-WellFormed s h = record {
  linked = record {
    valid = λ id p e. absurd cc;
    distinct = λ id id' p e f. absurd cc;
    dropped = shutdown_all-Covered s.client_connections s h.linked.dropped;
  };
  keyed = λ id p e. absurd cc;
}

-- After the shutdown of a well-formed server every connection that it ever made is shut down.
pub server_shutdown_all_down :
    (s : Server) (p : ℕ) (c : Connection)
    → WellFormed s
    → at p (server_shutdown s).connections ≡ some c
    → c.shutting_down ≡ true
unfolding server_shutdown
server_shutdown_all_down s p c h e =
    elim (shutdown_all-Covered s.client_connections s h.linked.dropped p c e) [
      | inl down ↦ down
      | inr (id, found) ↦ absurd cc
    ]

module _ (box : Secretbox) where
  -- A section of a handler, a call from outside, or a session thread's work on its connection,
  -- which meets a network of its own.
  pub data ServerEvent : Type 0 where
    registers : List ℕ → List ℕ → ServerEvent
    admits : List ℕ → ℕ → ServerEvent
    responds : Admission → List ℕ → Answers → ℕ → ServerEvent
    removes : List ℕ → ServerEvent
    shuts_down_all : ServerEvent
    acts : ℕ → Event box → ServerEvent

  unfoldable pub server_step : ServerEvent → Server → Server
  server_step (registers id passkey) s = add_client_key id passkey s
  server_step (admits id fd) s = (admit id fd s).1
  server_step (responds m id a fd) s = (respond m id a fd s).1
  server_step (removes id) s = (remove_client id s).1
  server_step shuts_down_all s = server_shutdown s
  server_step (acts p e) s = on_connection p (λ c net. (Coherent.step box e c, net)) s

  acts-WellFormed :
      (object : Option Connection) (p : ℕ) (e : Event box) (s : Server)
      → at p s.connections ≡ object
      → WellFormed s
      → WellFormed (on_object object p (λ c net. (Coherent.step box e c, net)) s)
  acts-WellFormed none p e s at_p h = h
  acts-WellFormed (some c) p e s at_p h =
      put-WellFormed p c (Coherent.step box e c, s.net) s at_p (down-step box e c) h

  -- Every step of any thread keeps the registry well formed, whatever stale pointers it holds:
  -- each client of the map is registered and has an object of its own, and every other object is
  -- shut down.
  pub step-WellFormed : (e : ServerEvent) (s : Server) → WellFormed s → WellFormed (server_step e s)
  unfolding server_step admit
  step-WellFormed (registers id passkey) s h = add_client_key-WellFormed id passkey s h
  step-WellFormed (admits id fd) s h =
      admit_at-WellFormed id fd (find id s.client_connections) s refl h
  step-WellFormed (responds m id a fd) s h = respond-WellFormed m id a fd s h
  step-WellFormed (removes id) s h = remove-WellFormed id s h
  step-WellFormed shuts_down_all s h = server_shutdown-WellFormed s h
  step-WellFormed (acts p e) s h = acts-WellFormed (at p s.connections) p e s refl h
