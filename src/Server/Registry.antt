-- ===== src/Server/Registry.antt =====
-- The registry of src/base/ServerConnection.cpp: what its maps and objects keep to, whatever the
-- threads of the handlers and of the sessions do, in any order.
pub mod Objects
use eternal_terminal.Common.{
  ℕ, zero, suc, ◌+◌, ◌<◌, ◌≡◌, ◌≢◌, refl, sym, ap, ◌∙◌, subst, ◌⊎◌, inl, inr, Bool, true, false,
  Option, none, some, List, [], ◌∷◌, ◌++◌, arith, length, Outcome, ok, throws, fatal, waiting, find,
  erase, assign, same, same-eq, same_refl, same-sym, find-erase, find-erase_other,
  find-assign_other, found_erased, Bool-cases, Option-cases, if◌then◌else◌, length-append,
}
use eternal_terminal.Net.{Net}
use eternal_terminal.Connection.{Connection, Call, shutdown}
use eternal_terminal.Server.{
  Server, at, put, kept_at, on_connection, is_set, client_key_exists, add_client_key,
  destroy_partial_connection, remove_client,
}
use Objects.{at-lt, lt-at, length-put, at-put, at_new}

-- Of the map of connections and the objects: each name points to an object, no two to the same
-- one, and an object that the map has lost, or never had, is shut down.
pub record Linked (m : List (List ℕ × ℕ)) (cs : List Connection) : Type 0 where
  pub valid : (id : List ℕ) (p : ℕ) → find id m ≡ some p → p < length cs
  pub distinct : (id id' : List ℕ) (p : ℕ) → find id m ≡ some p → find id' m ≡ some p → id ≡ id'
  pub dropped :
      (p : ℕ) (c : Connection)
      → at p cs ≡ some c
      → (c.shutting_down ≡ true) ⊎ ((id : List ℕ) × (find id m ≡ some p))

-- Also, every client with a connection is registered.
pub record WellFormed (s : Server) : Type 0 where
  pub linked : Linked s.client_connections s.connections
  pub keyed :
      (id : List ℕ) (p : ℕ) → find id s.client_connections ≡ some p → client_key_exists id s ≡ true

-- An object changes, and is not taken back from its shutdown.
pub put-Linked :
    {m : List (List ℕ × ℕ)} {cs : List Connection} (p : ℕ) (c c' : Connection)
    → at p cs ≡ some c
    → (c.shutting_down ≡ true → c'.shutting_down ≡ true)
    → Linked m cs
    → Linked m (put p c' cs)
put-Linked {m = m} {cs = cs} p c c' e keeps l = record {
  valid = λ id q f. omega (arith, l.valid id q f, length-put p c' cs);
  distinct = l.distinct;
  dropped = λ q d f. elim (at-put p c' cs q d f) [
    | inl (same_place, is_new) ↦ elim (l.dropped p c e) [
      | inl down ↦ inl (ap (λ (x : Connection). x.shutting_down) is_new ∙ keeps down)
      | inr (id, found) ↦ inr (id, found ∙ ap some (sym same_place))
    ]
    | inr (other, old) ↦ l.dropped q d old
  ];
}

pub erase-Linked :
    {m : List (List ℕ × ℕ)} {cs : List Connection} (id : List ℕ) (p : ℕ) (c' : Connection)
    → find id m ≡ some p
    → c'.shutting_down ≡ true
    → Linked m cs
    → Linked (erase id m) (put p c' cs)
erase-Linked {m = m} {cs = cs} id p c' found down l = record {
  valid =
      λ other q f. omega (arith, l.valid other q (found_erased other id m f).1, length-put p c' cs);
  distinct = λ a b q f g. l.distinct a b q (found_erased a id m f).1 (found_erased b id m g).1;
  dropped = λ q d f. elim (at-put p c' cs q d f) [
    | inl (same_place, is_new) ↦ inl (ap (λ (x : Connection). x.shutting_down) is_new ∙ down)
    | inr (other, old) ↦ elim (l.dropped q d old) [
      | inl h ↦ inl h
      | inr (name, there) ↦ elim (Bool-cases (same id name)) [
        | inl s ↦ absurd (other (cc (there, found, same-eq id name s)))
        | inr s ↦ inr (name, find-erase_other name id m s ∙ there)
      ]
    ]
  ];
}

pub new-Linked :
    {m : List (List ℕ × ℕ)} {cs : List Connection} (id : List ℕ) (c : Connection)
    → find id m ≡ none
    → Linked m cs
    → Linked ((id, length cs) ∷ m) (cs ++ (c ∷ []))
new-Linked {m = m} {cs = cs} id c free l = record {
  valid = λ other q f. elim (Bool-cases (same id other)) [
    | inl s ↦ ground (arith, s, length-append cs (c ∷ []))
    | inr s ↦ omega (arith, l.valid other q ((rw s at f)), length-append cs (c ∷ []))
  ];
  distinct = λ a b q f g. elim (Bool-cases (same id a)) [
    | inl s ↦ elim (Bool-cases (same id b)) [
      | inl t ↦ sym (same-eq id a s) ∙ same-eq id b t
      | inr t ↦ absurd (fresh a b q s t f g)
    ]
    | inr s ↦ elim (Bool-cases (same id b)) [
      | inl t ↦ absurd (fresh b a q t s g f)
      | inr t ↦ l.distinct a b q (rw s at f) (rw t at g)
    ]
  ];
  dropped = λ q d f. elim (at_new c cs q d f) [
    | inl old ↦ elim (l.dropped q d old) [
      | inl h ↦ inl h
      | inr (name, there) ↦ elim (Bool-cases (same id name)) [
        | inl s ↦ absurd (missing name q s there)
        | inr s ↦ inr (name, rw s there)
      ]
    ]
    | inr last ↦ inr (id, rw (same_refl id) (ap some (sym last)))
  ];
}
  where
    missing : (name : List ℕ) (q : ℕ) → same id name ≡ true → find name m ≢ some q
    missing name q s there = cc (there, free, same-eq id name s)

    fresh :
        (a b : List ℕ) (q : ℕ)
        → same id a ≡ true
        → same id b ≡ false
        → find a ((id, length cs) ∷ m) ≡ some q
        → find b ((id, length cs) ∷ m) ≢ some q
    fresh a b q s t f g = omega (arith, l.valid b q (rw t at g), last a q s f)
      where
        last :
            (a : List ℕ) (q : ℕ)
            → same id a ≡ true
            → find a ((id, length cs) ∷ m) ≡ some q
            → length cs ≡ q
        last a q s f = ground (arith, s, f)
