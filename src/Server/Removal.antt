-- ===== src/Server/Removal.antt =====
-- destroyPartialConnection of src/base/ServerConnection.cpp, on the maps and the objects.
use eternal_terminal.Server.Registry.Objects.{lt-at}
use eternal_terminal.Server.Registry.{Linked, erase-Linked}
use eternal_terminal.Common.{
  ℕ, ◌≡◌, sym, ap, ◌∙◌, subst, inl, inr, none, some, List, arith, find, erase, Option-cases,
  erase_absent,
}
use eternal_terminal.Connection.{Connection, shutdown}
use eternal_terminal.Server.{Server, at, put, on_object, destroy_at, destroy_partial_connection}
use eternal_terminal.Server.Down.{down-shutdown}

module _ (id : List ℕ) (s : Server) where
  destroy_none : find id s.client_connections ≡ none → destroy_partial_connection id s ≡ s
  unfolding destroy_partial_connection destroy_at
  destroy_none e = ap (λ o. destroy_at o id s) e

  pub destroy_some :
      (p : ℕ) (c : Connection)
      → find id s.client_connections ≡ some p
      → at p s.connections ≡ some c
      → destroy_partial_connection id s ≡ record s {
        connections = put p (shutdown c s.net).0 s.connections;
        client_connections = erase id s.client_connections;
        net = (shutdown c s.net).1;
      }
  unfolding destroy_partial_connection destroy_at
  destroy_some p c e h =
      ap (λ o. destroy_at o id s) e
      ∙ ap
          (λ o. record (on_object o p shutdown s) {
            client_connections = erase id s.client_connections;
          })
          h

  -- The map that a removal leaves.
  pub map-destroy :
      Linked s.client_connections s.connections
      → (destroy_partial_connection id s).client_connections ≡ erase id s.client_connections
  unfolding destroy_partial_connection destroy_at
  map-destroy l = elim (Option-cases (find id s.client_connections)) [
    | inl e ↦
        ap (λ (x : Server). x.client_connections) (destroy_none e)
        ∙ sym (erase_absent id s.client_connections e)
    | inr (p, e) ↦ ap (λ o. (destroy_at o id s).client_connections) e
  ]

  pub destroy-Linked :
      Linked s.client_connections s.connections
      → Linked
          (destroy_partial_connection id s).client_connections
          (destroy_partial_connection id s).connections
  destroy-Linked l = elim (Option-cases (find id s.client_connections)) [
    | inl e ↦
        subst (λ (x : Server). Linked x.client_connections x.connections) (sym (destroy_none e)) l
    | inr (p, e) ↦
        let (c, h) = lt-at p s.connections (l.valid id p e) in
        subst (λ (x : Server). Linked x.client_connections x.connections)
          (sym (destroy_some p c e h))
          (erase-Linked id p (shutdown c s.net).0 e (down-shutdown c s.net) l)
  ]

  pub keys-destroy : (destroy_partial_connection id s).client_keys ≡ s.client_keys
  unfolding destroy_partial_connection destroy_at
  keys-destroy = ground arith
