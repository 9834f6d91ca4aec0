-- ===== src/Server/Sections.antt =====
-- Each section of the handler of src/base/ServerConnection.cpp keeps the registry well formed.
use eternal_terminal.Server.Down.{down-recover_client}
use eternal_terminal.Net.{Net}
use eternal_terminal.Server.Registry.{WellFormed, new-Linked, put-Linked}
use eternal_terminal.Connection.{Connection, Call, Exchange}
use eternal_terminal.Common.{
  ℕ, ◌≡◌, refl, sym, ap, ◌∙◌, inl, inr, Bool, true, false, Option, none, some, List, [], ◌∷◌, ◌++◌,
  arith, length, Outcome, ok, throws, fatal, waiting, find, erase, same, same-eq, find-erase_other,
  found_erased, Bool-cases, continue, find-assign_other,
}
use eternal_terminal.Server.{
  Server, at, kept_at, is_set, client_key_exists, add_client_key, destroy_partial_connection,
  remove_client, admit_at, admit_new, respond, Admission, refused, created, returning, Answers,
  after_new_client, after_recover_client, recover_object, recover_client, close_fd,
  server_client_connection,
}
use eternal_terminal.Server.Removal.{destroy-Linked, map-destroy, keys-destroy}

is_set-some : {A : Type 0} {o : Option A} {a : A} → o ≡ some a → is_set o ≡ true
is_set-some e = ap is_set e

destroy-WellFormed :
    (id : List ℕ) (s : Server) → WellFormed s → WellFormed (destroy_partial_connection id s)
unfolding client_key_exists
destroy-WellFormed id s h = record {
  linked = destroy-Linked id s h.linked;
  keyed = λ other p e.
      ap (λ m. is_set (find other m)) (keys-destroy id s)
      ∙ h.keyed other p
          (found_erased other id s.client_connections
            (ap (λ m. find other m) (sym (map-destroy id s h.linked)) ∙ e)).1;
}

removed-WellFormed :
    (id : List ℕ) (s : Server)
    → WellFormed s
    → WellFormed (destroy_partial_connection id (record s { client_keys = erase id s.client_keys }))
unfolding client_key_exists
removed-WellFormed id s h =
    let s' = record s { client_keys = erase id s.client_keys } in
    record {
      linked = destroy-Linked id s' h.linked;
      keyed = λ other p e.
          let f =
            found_erased other id s.client_connections
              (ap (λ m. find other m) (sym (map-destroy id s' h.linked)) ∙ e) in
          ap (λ m. is_set (find other m)) (keys-destroy id s')
          ∙ ap is_set (find-erase_other other id s.client_keys f.0)
          ∙ h.keyed other p f.1;
    }

pub remove-WellFormed :
    (id : List ℕ) (s : Server) → WellFormed s → WellFormed (remove_client id s).1
unfolding remove_client
remove-WellFormed id s h = elim (Bool-cases (client_key_exists id s)) [
  | inl known ↦ rw known (removed-WellFormed id s h)
  | inr unknown ↦ rw unknown h
]

pub add_client_key-WellFormed :
    (id passkey : List ℕ) (s : Server) → WellFormed s → WellFormed (add_client_key id passkey s)
unfolding add_client_key client_key_exists
add_client_key-WellFormed id passkey s h = record {
  linked = h.linked;
  keyed = λ other p e. elim (Bool-cases (same id other)) [
    | inl k ↦ ground (arith, k)
    | inr k ↦ ap is_set (find-assign_other other id passkey s.client_keys k) ∙ h.keyed other p e
  ];
}

pub put-WellFormed :
    (p : ℕ) (c : Connection) (out : Connection × Net) (s : Server)
    → at p s.connections ≡ some c
    → (c.shutting_down ≡ true → out.0.shutting_down ≡ true)
    → WellFormed s
    → WellFormed (kept_at p s out)
unfolding client_key_exists
put-WellFormed p c (c', net) s e keeps h = record {
  linked = put-Linked p c c' e keeps h.linked;
  keyed = h.keyed;
}

close_fd-WellFormed : (fd : ℕ) (s : Server) → WellFormed s → WellFormed (close_fd fd s)
unfolding client_key_exists
close_fd-WellFormed fd s h = record { linked = h.linked; keyed = h.keyed }

created-WellFormed :
    (id : List ℕ) (c : Connection) (s : Server)
    → find id s.client_connections ≡ none
    → client_key_exists id s ≡ true
    → WellFormed s
    → WellFormed (record s {
      connections = s.connections ++ (c ∷ []);
      client_connections = (id, length s.connections) ∷ s.client_connections;
    })
unfolding client_key_exists
created-WellFormed id c s free known h = record {
  linked = new-Linked id c free h.linked;
  keyed = λ other p e. elim (Bool-cases (same id other)) [
    | inl k ↦ ap (λ name. is_set (find name s.client_keys)) (sym (same-eq id other k)) ∙ known
    | inr k ↦ h.keyed other p (rw k at e)
  ];
}

admit_new-WellFormed :
    (id : List ℕ) (fd : ℕ) (key : Option (List ℕ)) (s : Server)
    → find id s.client_connections ≡ none
    → find id s.client_keys ≡ key
    → WellFormed s
    → WellFormed (admit_new id fd key s).1
unfolding admit_new client_key_exists
admit_new-WellFormed id fd none s free e h = h
admit_new-WellFormed id fd (some key) s free e h = made-WellFormed (server_client_connection key fd)
  where
    made-WellFormed :
        (made : Outcome Connection)
        → WellFormed
            (continue made s λ c. (
              ok (created (length s.connections)),
              record s {
                connections = s.connections ++ (c ∷ []);
                client_connections = (id, length s.connections) ∷ s.client_connections;
              },
            )).1
    made-WellFormed (ok c) = created-WellFormed id c s free (is_set-some e) h
    made-WellFormed (throws error) = h
    made-WellFormed fatal = h
    made-WellFormed waiting = h

pub admit_at-WellFormed :
    (id : List ℕ) (fd : ℕ) (p : Option ℕ) (s : Server)
    → find id s.client_connections ≡ p
    → WellFormed s
    → WellFormed (admit_at p id fd s).1
unfolding admit_at
admit_at-WellFormed id fd none s e h = admit_new-WellFormed id fd (find id s.client_keys) s e refl h
admit_at-WellFormed id fd (some p) s e h = elim (Bool-cases (client_key_exists id s)) [
  | inl known ↦ rw known h
  | inr unknown ↦ rw unknown h
]

after_new_client-WellFormed :
    (answer : Option Bool) (id : List ℕ) (fd : ℕ) (s : Server)
    → WellFormed s
    → WellFormed (after_new_client answer id fd s)
after_new_client-WellFormed none id fd s h = destroy-WellFormed id s h
after_new_client-WellFormed (some true) id fd s h = h
after_new_client-WellFormed (some false) id fd s h =
    close_fd-WellFormed fd _ (remove-WellFormed id s h)

after_recover_client-WellFormed :
    (p fd : ℕ) (c : Connection) (out : Call Bool) (s : Server)
    → at p s.connections ≡ some c
    → out.1.0.shutting_down ≡ c.shutting_down
    → WellFormed s
    → WellFormed (after_recover_client p fd out s).1
after_recover_client-WellFormed p fd c (ok b, out) s e k h =
    put-WellFormed p c out s e (λ down. k ∙ down) h
after_recover_client-WellFormed p fd c (throws error, out) s e k h =
    close_fd-WellFormed fd _ (put-WellFormed p c out s e (λ down. k ∙ down) h)
after_recover_client-WellFormed p fd c (fatal, out) s e k h =
    put-WellFormed p c out s e (λ down. k ∙ down) h
after_recover_client-WellFormed p fd c (waiting, out) s e k h =
    put-WellFormed p c out s e (λ down. k ∙ down) h

recover_object-WellFormed :
    (object : Option Connection) (p : ℕ) (x : Exchange) (fd : ℕ) (s : Server)
    → at p s.connections ≡ object
    → WellFormed s
    → WellFormed (recover_object object p x fd s).1
recover_object-WellFormed none p x fd s e h = h
recover_object-WellFormed (some c) p x fd s e h =
    after_recover_client-WellFormed p fd c (recover_client fd x c s.net) s e
      (down-recover_client fd x c s.net) h

pub respond-WellFormed :
    (m : Admission) (id : List ℕ) (a : Answers) (fd : ℕ) (s : Server)
    → WellFormed s
    → WellFormed (respond m id a fd s).1
unfolding respond
respond-WellFormed refused id a fd s h = close_fd-WellFormed fd s h
respond-WellFormed (created p) id a fd s h = elim (Bool-cases a.sends_response) [
  | inl sent ↦ rw sent (after_new_client-WellFormed a.new_client id fd s h)
  | inr lost ↦ rw lost (destroy-WellFormed id s h)
]
respond-WellFormed (returning p) id a fd s h = elim (Bool-cases a.sends_response) [
  | inl sent ↦ rw sent (recover_object-WellFormed (at p s.connections) p a.exchange fd s refl h)
  | inr lost ↦ rw lost (close_fd-WellFormed fd s h)
]
