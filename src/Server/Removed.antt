-- ===== src/Server/Removed.antt =====
-- A client that was removed, when it comes back: removeClient and clientHandler of
-- src/base/ServerConnection.cpp.
use eternal_terminal.Server.Removal.{keys-destroy}
use eternal_terminal.Common.{
  ℕ, ◌≡◌, refl, ap, ◌∙◌, inl, inr, Option, none, some, List, ok, find, erase, find-erase,
  Option-cases,
}
use eternal_terminal.Server.{
  Server, client_key_exists, remove_client, admit, admit_at, admit_new, refused,
}

removed_unknown : (id : List ℕ) (s : Server) → find id (remove_client id s).1.client_keys ≡ none
unfolding remove_client client_key_exists
removed_unknown id s = elim (Option-cases (find id s.client_keys)) [
  | inl e ↦ rw e e
  | inr (key, e) ↦ rw e (
      ap (λ m. find id m) (keys-destroy id (record s { client_keys = erase id s.client_keys }))
      ∙ find-erase id s.client_keys)
]

refused_unknown :
    (id : List ℕ) (fd : ℕ) (p : Option ℕ) (s : Server)
    → find id s.client_keys ≡ none
    → (admit_at p id fd s).0 ≡ ok refused
unfolding admit_at admit_new client_key_exists
refused_unknown id fd none s e = rw e refl
refused_unknown id fd (some p) s e = rw e refl

-- A client that was removed is refused when it comes back, whatever the maps held.
pub admit-remove_client :
    (id : List ℕ) (fd : ℕ) (s : Server) → (admit id fd (remove_client id s).1).0 ≡ ok refused
unfolding admit
admit-remove_client id fd s = refused_unknown id fd _ (remove_client id s).1 (removed_unknown id s)
