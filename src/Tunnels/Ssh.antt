-- ===== src/Tunnels/Ssh.antt =====
-- The ssh-style arguments of base/TunnelUtils.cpp: parts with colons between them, where brackets
-- keep the colons of an address.
use eternal_terminal.Common.{
  ℕ, suc, Bool, true, false, not, ◌&&◌, ◌||◌, List, [], ◌∷◌, ◌++◌, ◌≡◌, refl, ap, sym, ◌∙◌, arith,
  ◌==◌, if◌then◌else◌, all, map, length, ltb, join, append-nil, append_assoc, and-parts, not-part,
  length-map,
}
use eternal_terminal.Tunnels.{ok, tunnel_parse_exception, ssh_parts, parse_ssh_tunnel_arg}

-- A part, and whether it is written in brackets.
abbrev pub Part : Type 0
Part = Bool × List ℕ

abbrev pub written : Part → List ℕ
written (true, s) = b'[' ∷ s ++ b']' ∷ []
written (false, s) = s

abbrev pub content : Part → List ℕ
content p = p.1

-- Neither bracket is in it, and a colon only if it is written in brackets.
abbrev plain_char : Bool → ℕ → Bool
plain_char in_brackets c = not (c == b'[') && (not (c == b']') && (in_brackets || not (c == b':')))

abbrev pub is_part : Part → Bool
is_part p = all (plain_char p.0) p.1

ssh_parts-plain :
    (b : Bool) (part s rest : List ℕ)
    → all (plain_char b) s ≡ true
    → ssh_parts b part (s ++ rest) ≡ ssh_parts b (part ++ s) rest
unfolding ssh_parts
ssh_parts-plain b part [] rest h = rw (append-nil part) refl
ssh_parts-plain b part (c ∷ s) rest h =
    let (hc, hs) = and-parts (plain_char b c) (all (plain_char b) s) h in
    let (open₁, h1) = and-parts (not (c == b'[')) (not (c == b']') && (b || not (c == b':'))) hc in
    let (close₁, colon₁) = and-parts (not (c == b']')) (b || not (c == b':')) h1 in
    rw (not-part (c == b'[') open₁, not-part (c == b']') close₁, inside b (c == b':') colon₁)
      (ssh_parts-plain b (part ++ c ∷ []) s rest hs
        ∙ ap (λ p. ssh_parts b p rest) (append_assoc part (c ∷ []) s))
  where
    inside : (b colon : Bool) → b || not colon ≡ true → colon && not b ≡ false
    inside true true h = refl
    inside true false h = refl
    inside false true h = absurd cc
    inside false false h = refl

ssh_parts-written :
    (part : List ℕ) (p : Part) (rest : List ℕ)
    → is_part p ≡ true
    → ssh_parts false part (written p ++ rest) ≡ ssh_parts false (part ++ p.1) rest
unfolding ssh_parts
ssh_parts-written part (true, s) rest h =
    rw (append_assoc s (b']' ∷ []) rest) (ssh_parts-plain true part s (b']' ∷ rest) h)
ssh_parts-written part (false, s) rest h = ssh_parts-plain false part s rest h

ssh_parts-join :
    (p : Part) (ps : List Part)
    → all is_part (p ∷ ps) ≡ true
    → ssh_parts false [] (join (map written (p ∷ ps)) b':') ≡ map content (p ∷ ps)
unfolding ssh_parts
ssh_parts-join p [] h =
    let (hp, none_left) = and-parts (is_part p) true h in
    ap (ssh_parts false []) (sym (append-nil (written p))) ∙ ssh_parts-written [] p [] hp
ssh_parts-join p (q ∷ ps) h =
    let (hp, hps) = and-parts (is_part p) (all is_part (q ∷ ps)) h in
    ssh_parts-written [] p (b':' ∷ join (map written (q ∷ ps)) b':') hp
    ∙ ap (λ l. p.1 ∷ l) (ssh_parts-join q ps hps)

-- Parts without brackets inside them, with a colon only in a part that is written in brackets, are
-- read back from their text if there are four of them; any other number, from one part on, is a
-- TunnelParseException.
pub parse_ssh_tunnel_arg-join :
    (p : Part) (ps : List Part)
    → all is_part (p ∷ ps) ≡ true
    → parse_ssh_tunnel_arg (join (map written (p ∷ ps)) b':')
      ≡ (if length (p ∷ ps) == 4 then ok (map content (p ∷ ps)) else tunnel_parse_exception)
unfolding parse_ssh_tunnel_arg
parse_ssh_tunnel_arg-join p ps h =
    rw (ssh_parts-join p ps h, length-map content ps)
      (sized (suc (length ps)) (map content (p ∷ ps)))
  where
    sized :
        (n : ℕ) (parts : List (List ℕ))
        → (if ltb n 4 || ltb 4 n then tunnel_parse_exception else ok parts)
          ≡ (if n == 4 then ok parts else tunnel_parse_exception)
    sized n parts = ground arith
