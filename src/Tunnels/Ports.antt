-- ===== src/Tunnels/Ports.antt =====
-- What base/TunnelUtils.cpp makes of texts of decimal digits.
use eternal_terminal.Common.{
  ℕ, ◌^◌, ◌<◌, Bool, true, false, not, ◌&&◌, ◌||◌, List, [], ◌∷◌, ◌≡◌, refl, arith, ◌==◌, one_of,
  all, is_empty, ltb, lt→ltb, ltb→lt, is_item, and-parts, not-part, pos, number, is_digit, is_space,
  value_from, stoi,
}
use eternal_terminal.Tunnels.{ok, parse_int, ports, is_numeric, is_socket_path, et_style}

-- A text of decimal digits whose value an int holds.
abbrev pub is_port : List ℕ → Bool
is_port s = not (is_empty s) && (all is_digit s && ltb (value_from 0 s) (2 ^ 31))

abbrev pub port_of : List ℕ → ℕ
port_of s = value_from 0 s

pub is_port-parts :
    (s : List ℕ)
    → is_port s ≡ true
    → (is_empty s ≡ false) × (all is_digit s ≡ true) × (port_of s < 2 ^ 31)
is_port-parts s h =
    let (a, b) = and-parts (not (is_empty s)) (all is_digit s && ltb (port_of s) (2 ^ 31)) h in
    let (c, d) = and-parts (all is_digit s) (ltb (port_of s) (2 ^ 31)) b in
    (not-part (is_empty s) a, c, ltb→lt (port_of s) (2 ^ 31) d)

digit_other : (c x : ℕ) → is_digit c ≡ false → is_digit x ≡ true → c == x ≡ false
digit_other c x h h' = ground arith

pub one_of-digits :
    (c : ℕ) (s : List ℕ) → is_digit c ≡ false → all is_digit s ≡ true → one_of c s ≡ false
one_of-digits c [] h hs = refl
one_of-digits c (x ∷ s) h hs =
    let (hx, rest) = and-parts (is_digit x) (all is_digit s) hs in
    rw (digit_other c x h hx) (one_of-digits c s h rest)

pub is_port-is_item :
    (c : ℕ) (s : List ℕ) → is_digit c ≡ false → is_port s ≡ true → is_item c s ≡ true
is_port-is_item c s h hs =
    let (ne, ds, bound) = is_port-parts s hs in rw (ne, one_of-digits c s h ds) refl

digit_numeric : (x : ℕ) → is_digit x ≡ true → (is_digit x || x == b'-') ≡ true
digit_numeric x h = rw h refl

pub is_numeric-digits : (s : List ℕ) → all is_digit s ≡ true → is_numeric s ≡ true
is_numeric-digits [] h = refl
is_numeric-digits (x ∷ s) h =
    let (hx, rest) = and-parts (is_digit x) (all is_digit s) h in
    rw (digit_numeric x hx) (is_numeric-digits s rest)

pub is_socket_path-digits : (s : List ℕ) → all is_digit s ≡ true → is_socket_path s ≡ false
is_socket_path-digits [] h = refl
is_socket_path-digits (x ∷ s) h =
    let (hx, rest) = and-parts (is_digit x) (all is_digit s) h in ground (arith, hx)

digit-space : (c : ℕ) → is_digit c ≡ true → is_space c ≡ false
digit-space c h = ground arith

digit-plus : (c : ℕ) → is_digit c ≡ true → c == b'+' ≡ false
digit-plus c h = ground arith

digit-minus : (c : ℕ) → is_digit c ≡ true → c == b'-' ≡ false
digit-minus c h = ground arith

pub stoi-port : (s : List ℕ) → is_port s ≡ true → stoi s ≡ number (pos (port_of s))
unfolding stoi
stoi-port [] h = absurd cc
stoi-port (c ∷ s) h =
    let (ne, ds, bound) = is_port-parts (c ∷ s) h in
    let (hc, rest) = and-parts (is_digit c) (all is_digit s) ds in
    let fits : ltb (port_of (c ∷ s)) (2 ^ 31) ≡ true = lt→ltb (port_of (c ∷ s)) (2 ^ 31) bound in
    rw (digit-space c hc, digit-minus c hc, digit-plus c hc, hc) (rw (rw hc at fits) refl)

pub parse_int-port : (s : List ℕ) → is_port s ≡ true → parse_int s ≡ ok (pos (port_of s))
parse_int-port s h = rw (stoi-port s h) refl

pub et_style-ports :
    (s t : List ℕ)
    → is_port s ≡ true
    → is_port t ≡ true
    → et_style s t ≡ ok (ports (pos (port_of s)) (pos (port_of t)) ∷ [])
et_style-ports s t hs ht =
    let (ne, ds, bound) = is_port-parts s hs in
    let (ne', dt, bound') = is_port-parts t ht in
    rw
      (
        is_socket_path-digits s ds,
        is_socket_path-digits t dt,
        is_numeric-digits s ds,
        one_of-digits b'-' s refl ds,
        one_of-digits b'-' t refl dt,
      )
      (rw (parse_int-port s hs, parse_int-port t ht) refl)
