-- ===== src/Router/Agrees.antt =====
-- The keys of the server and the terminals of terminal/UserTerminalRouter.cpp agree.
use eternal_terminal.Common.{
  ℕ, Bool, true, false, Option, none, some, List, ◌∷◌, ◌≡◌, ◌≢◌, refl, sym, ◌∙◌, subst, inl, inr,
  ◌==◌, if◌then◌else◌, is_empty, same, same-eq, same_refl, find, find-assign_other, Outcome, ok,
  fatal, Bool-cases, Option-cases, ◌⊎◌,
}
use eternal_terminal.Server.{Server, add_client_key, verify_passkey}
use eternal_terminal.Server.Passkey.{verify_passkey_iff}
use eternal_terminal.Htm.Placed.{found_assigned}
use eternal_terminal.Router.{
  TerminalUserInfo, Router, Arrival, nothing_there, accept_fails, no_packet, read_throws, packet,
  reject, insert_info, on_info, try_get_info_for_connection, add_key, register,
  terminal_user_info_header,
}

-- Each key of the server is the one that the terminal of that id has registered.
unfoldable pub Agrees : Router → Server → Type 0
Agrees r s =
    (id key : List ℕ)
    → find id s.client_keys ≡ some key
    → (info : TerminalUserInfo) × (find id r.id_info_map ≡ some info) × (info.passkey ≡ key)

-- A terminal that is registered stays so, and the key of its id in the server stays.
pub record Kept (r r' : Router) (s s' : Server) : Type 0 where
  pub entry :
      (id : List ℕ) (info : TerminalUserInfo)
      → find id r.id_info_map ≡ some info
      → find id r'.id_info_map ≡ some info
  pub key :
      (id : List ℕ) (info : TerminalUserInfo)
      → find id r.id_info_map ≡ some info
      → find id s'.client_keys ≡ find id s.client_keys

-- How a registration ends: both tables agree and have kept what they had, or the process aborts.
abbrev pub Registered : Router → Server → Outcome (Router × Server) → Type 0
Registered r s o =
    ((p : Router × Server) × (o ≡ ok p) × Agrees p.0 p.1 × Kept r p.0 s p.1) ⊎ (o ≡ fatal)

unchanged : (r : Router) (s : Server) → Agrees r s → Registered r s (ok (r, s))
unchanged r s h = inl ((r, s), refl, h, record { entry = λ id info e. e; key = λ id info e. refl })

reject-Registered :
    (fd : ℕ) (r : Router) (s : Server) → Agrees r s → Registered r s (add_key (reject fd r) s)
unfolding Agrees
reject-Registered fd r s h = inl (
  (record r { closed_fds = fd ∷ r.closed_fds }, s),
  refl,
  h,
  record { entry = λ id info e. e; key = λ id info e. refl },
)

-- The entry of a free id hides no other.
entry-added :
    (new id : List ℕ) (added info : TerminalUserInfo) (m : List (List ℕ × TerminalUserInfo))
    → find new m ≡ none
    → find id m ≡ some info
    → (same new id ≡ false) × (find id ((new, added) ∷ m) ≡ some info)
entry-added new id added info m free e = elim (Bool-cases (same new id)) [
  | inl at ↦ absurd (cc (same-eq new id at, free, e))
  | inr off ↦ (off, rw off e)
]

-- A free id comes in with its key.
added-Registered :
    (fd : ℕ) (tui : TerminalUserInfo) (r : Router) (s : Server)
    → find tui.id r.id_info_map ≡ none
    → Agrees r s
    → Registered r s (add_key (insert_info none fd tui r) s)
unfolding Agrees add_client_key
added-Registered fd tui r s free h = inl (
  (record r { id_info_map = (tui.id, here) ∷ r.id_info_map }, with_key (is_empty tui.id)),
  refl,
  agrees (is_empty tui.id),
  record {
    entry = λ id info e. (entry-added tui.id id here info r.id_info_map free e).1;
    key = λ id info e.
        keeps (is_empty tui.id) id (entry-added tui.id id here info r.id_info_map free e).0;
  },
)
  where
    here : TerminalUserInfo
    here = record tui { fd = fd }

    with_key : Bool → Server
    with_key b = if b then s else add_client_key tui.id tui.passkey s

    keeps :
        (b : Bool) (id : List ℕ)
        → same tui.id id ≡ false
        → find id (with_key b).client_keys ≡ find id s.client_keys
    keeps true id off = refl
    keeps false id off = find-assign_other id tui.id tui.passkey s.client_keys off

    old :
        (id key : List ℕ)
        → find id s.client_keys ≡ some key
        → (info : TerminalUserInfo) × (find id ((tui.id, here) ∷ r.id_info_map) ≡ some info)
          × (info.passkey ≡ key)
    old id key e =
        let (info, f, k) = h id key e in
        (info, (entry-added tui.id id here info r.id_info_map free f).1, k)

    agrees :
        (b : Bool)
        → (id key : List ℕ) → find id (with_key b).client_keys ≡ some key
        → (info : TerminalUserInfo) × (find id ((tui.id, here) ∷ r.id_info_map) ≡ some info)
          × (info.passkey ≡ key)
    agrees true id key e = old id key e
    agrees false id key e = elim (found_assigned id tui.id tui.passkey s.client_keys e) [
      | inl (k, v) ↦ (
        here,
        subst (λ q. find q ((tui.id, here) ∷ r.id_info_map) ≡ some here) (sym k)
            (rw (same_refl tui.id) refl),
        sym v,
      )
      | inr (_, f) ↦ old id key f
    ]

on_info-Registered :
    (fd : ℕ) (info : Option TerminalUserInfo) (r : Router) (s : Server)
    → Agrees r s
    → Registered r s (add_key (on_info fd info r) s)
on_info-Registered fd none r s h = inr refl
on_info-Registered fd (some tui) r s h = elim (Option-cases (find tui.id r.id_info_map)) [
  | inl free ↦ rw free (added-Registered fd tui r s free h)
  | inr (old, e) ↦ rw e (reject-Registered fd r s h)
]

-- Whatever arrives, a registration aborts the process or leaves the tables in agreement if they
-- were before; every terminal that was registered keeps its entry, its descriptor in it, and the
-- server's key for its id: a second terminal with the id takes neither.
pub register-Registered :
    (a : Arrival) (r : Router) (s : Server) → Agrees r s → Registered r s (register a r s)
unfolding register Agrees
register-Registered nothing_there r s h = unchanged r s h
register-Registered accept_fails r s h = inr refl
register-Registered (no_packet fd) r s h = inr refl
register-Registered (read_throws fd) r s h = reject-Registered fd r s h
register-Registered (packet fd header info) r s h = by_header (header == terminal_user_info_header)
  where
    by_header :
        (b : Bool) → Registered r s (add_key (if b then on_info fd info r else (fatal, r)) s)
    by_header true = on_info-Registered fd info r s h
    by_header false = inr refl

-- While the tables agree, a client of the server that presents an id and key that are registered
-- gets the terminal of that id, and with any other key none: the lookup aborts in neither case.
pub try_get_info_for_connection-Agrees :
    (id key other : List ℕ) (r : Router) (s : Server)
    → Agrees r s
    → find id s.client_keys ≡ some key
    → other ≢ key
    → ((info : TerminalUserInfo) × (find id r.id_info_map ≡ some info)
        × (try_get_info_for_connection id key r ≡ ok (some info)))
      × (try_get_info_for_connection id other r ≡ ok none)
unfolding try_get_info_for_connection Agrees
try_get_info_for_connection-Agrees id key other r s h e off =
    let (info, f, k) = h id key e in
    let accepted : verify_passkey key info.passkey ≡ true =
      (verify_passkey_iff key info.passkey).1 (sym k) in
    (
      (info, f, rw f (rw accepted refl)),
      elim (Bool-cases (verify_passkey other info.passkey)) [
        | inl passes ↦ absurd (off ((verify_passkey_iff other info.passkey).0 passes ∙ k))
        | inr fails ↦ rw f (rw fails refl)
      ],
    )
