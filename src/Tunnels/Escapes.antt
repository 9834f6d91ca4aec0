-- ===== src/Tunnels/Escapes.antt =====
-- Which exceptions leave the parser of base/TunnelUtils.cpp.
use eternal_terminal.Common.{
  ℕ, ◌<◌, false, List, [], ◌∷◌, ◌++◌, ◌≡◌, ◌≢◌, refl, arith, length, leb, split, Bool-cases, inl,
  inr, leb_false→lt, ◌⊎◌, ◌||◌, ltb,
}
use eternal_terminal.Tunnels.{
  Result, ok, tunnel_parse_exception, logic_error, undefined, ◌>>=◌, rethrow, et_style, ssh_style,
  process_et_style_tunnel_arg, process_all, ssh_parts, parse_elements, parse_ranges_to_requests,
  parse_ssh_tunnel_arg, PortForwardSourceRequest,
}

rethrow-ne : {A : Type 0} (r : Result A) → rethrow r ≢ logic_error
rethrow-ne (ok a) h = absurd cc
rethrow-ne tunnel_parse_exception h = absurd cc
rethrow-ne logic_error h = absurd cc
rethrow-ne undefined h = absurd cc

process_et_style_tunnel_arg-ne :
    (pfsrs : List PortForwardSourceRequest) (parts : List (List ℕ))
    → process_et_style_tunnel_arg pfsrs parts ≢ logic_error
unfolding process_et_style_tunnel_arg
process_et_style_tunnel_arg-ne pfsrs [] h = absurd cc
process_et_style_tunnel_arg-ne pfsrs (s ∷ []) h = absurd cc
process_et_style_tunnel_arg-ne pfsrs (s ∷ t ∷ rest) h =
    rethrow-ne (et_style s t >>= λ made. ok (pfsrs ++ made)) h

process_all-ne :
    (pfsrs : List PortForwardSourceRequest) (elements : List (List ℕ))
    → process_all pfsrs elements ≢ logic_error
process_all-ne pfsrs [] h = absurd cc
process_all-ne pfsrs (e ∷ elements) h =
    next (λ more. process_all-ne more elements) (process_et_style_tunnel_arg pfsrs (split e b':'))
      (process_et_style_tunnel_arg-ne pfsrs (split e b':')) h
  where
    next :
        ((more : List PortForwardSourceRequest) → process_all more elements ≢ logic_error)
        → (r : Result (List PortForwardSourceRequest)) → r ≢ logic_error
        → (r >>= λ more. process_all more elements) ≢ logic_error
    next more_ne (ok more) ne h = more_ne more h
    next more_ne tunnel_parse_exception ne h = absurd cc
    next more_ne logic_error ne h = ne refl
    next more_ne undefined ne h = absurd cc

-- What an exception of stoi tells of the elements between the commas.
abbrev pub IsSshStyle : List (List ℕ) → Type 0
IsSshStyle elements =
    (tunnel_arg : List ℕ) × (elements ≡ tunnel_arg ∷ [])
    × (2 < length (split tunnel_arg b':'))
    × (parts : List (List ℕ)) × (parse_ssh_tunnel_arg tunnel_arg ≡ ok parts)

parse_ssh_tunnel_arg-cases :
    (arg : List ℕ)
    → (parse_ssh_tunnel_arg arg ≡ tunnel_parse_exception)
      ⊎ ((parts : List (List ℕ)) × (parse_ssh_tunnel_arg arg ≡ ok parts))
unfolding parse_ssh_tunnel_arg
parse_ssh_tunnel_arg-cases arg =
    let parts = ssh_parts false [] arg in
    elim (Bool-cases (ltb (length parts) 4 || ltb 4 (length parts))) [
      | inl e ↦ inl (rw e refl)
      | inr e ↦ inr (parts, rw e refl)
    ]

parse_elements-logic_error :
    (elements : List (List ℕ)) → parse_elements elements ≡ logic_error → IsSshStyle elements
parse_elements-logic_error [] h = absurd cc
parse_elements-logic_error (arg ∷ []) h = elim (Bool-cases (leb (length (split arg b':')) 2)) [
  | inl e ↦ absurd (process_et_style_tunnel_arg-ne [] (split arg b':') (rw e at h))
  | inr e ↦ elim (parse_ssh_tunnel_arg-cases arg) [
    | inl refused ↦ absurd (no_parts refused (rw e at h))
    | inr (parts, accepted) ↦
        (arg, refl, leb_false→lt (length (split arg b':')) 2 e, parts, accepted)
  ]
]
  where
    no_parts : parse_ssh_tunnel_arg arg ≡ tunnel_parse_exception → ssh_style arg ≢ logic_error
    no_parts refused h = ground (arith, rw refused at h)
parse_elements-logic_error (a ∷ b ∷ rest) h = absurd (process_all-ne [] (a ∷ b ∷ rest) h)

-- An exception of stoi leaves the parser for one kind of argument only: one with no comma that has
-- more than two parts between colons and is accepted as an ssh-style argument of four parts. For
-- every other argument the parser returns, throws TunnelParseException or reads past a vector.
pub parse_ranges_to_requests-logic_error :
    (input : List ℕ) → parse_ranges_to_requests input ≡ logic_error → IsSshStyle (split input b',')
unfolding parse_ranges_to_requests
parse_ranges_to_requests-logic_error input h = parse_elements-logic_error (split input b',') h
