-- ===== src/Tunnels/Ranges.antt =====
-- The ranges of ports of base/TunnelUtils.cpp, and whole arguments of ports and ranges.
use eternal_terminal.Common.{
  ℕ, zero, suc, ◌+◌, ◌-◌, ◌^◌, ◌<◌, Bool, true, false, List, [], ◌∷◌, ◌++◌, ◌≡◌, refl, ap, ◌∙◌,
  arith, ◌==◌, if◌then◌else◌, one_of, all, ltb, is_item, and-parts, split-join, pos, diff, same_int,
  eq_false, Bool-cases, inl, inr,
}
use eternal_terminal.Tunnels.{
  Result, ok, tunnel_parse_exception, ports, is_numeric, is_socket_path, et_style, range_of,
  range_requests, length_requests, same_length, PortForwardSourceRequest, rethrow,
  process_et_style_tunnel_arg, ◌>>=◌,
}
use eternal_terminal.Tunnels.Ports.{
  is_port, port_of, is_port-parts, is_port-is_item, is_numeric-digits, is_socket_path-digits,
  parse_int-port,
}

-- One request for each of `n` ports from the two given.
abbrev pub consecutive : ℕ → ℕ → ℕ → List PortForwardSourceRequest
consecutive source destination zero = []
consecutive source destination (suc n) =
    ports (pos source) (pos destination) ∷ consecutive (suc source) (suc destination) n

-- What two ranges from `a` to `b` and from `c` to `d` ask for.
abbrev pub range_result : ℕ → ℕ → ℕ → ℕ → Result (List PortForwardSourceRequest)
range_result a b c d =
    if b + c == d + a
    then ok (if ltb b a then [] else consecutive a c (suc (b - a)))
    else tunnel_parse_exception

abbrev pub range_text : List ℕ → List ℕ → List ℕ
range_text a b = a ++ b'-' ∷ b

range_requests-consecutive :
    (a c i n : ℕ) → range_requests (pos a) (pos c) i n ≡ consecutive (a + i) (c + i) n
unfolding range_requests
range_requests-consecutive a c i zero = refl
range_requests-consecutive a c i (suc n) =
    let e : a + suc i ≡ suc (a + i) = omega arith in
    let e' : c + suc i ≡ suc (c + i) = omega arith in
    ap (λ l. ports (pos (a + i)) (pos (c + i)) ∷ l)
      (rw (← e, ← e') (range_requests-consecutive a c (suc i) n))

diff-same : (a b c d : ℕ) → same_int (diff b a) (diff d c) ≡ (b + c == d + a)
diff-same a b c d = ground arith

length_requests-diff :
    (a b c : ℕ)
    → suc (b - a) < 2 ^ 31
    → length_requests (pos a) (pos c) (diff b a)
      ≡ ok (if ltb b a then [] else consecutive a c (suc (b - a)))
length_requests-diff a b c h = elim (Bool-cases (ltb b a)) [
  | inl e ↦ rw e refl
  | inr e ↦
      let longest : suc (b - a) == 2 ^ 31 ≡ false = eq_false (suc (b - a)) (2 ^ 31) (omega arith) in
      rw (e, longest) (ap ok (from_zero (suc (b - a))))
]
  where
    from_zero : (n : ℕ) → range_requests (pos a) (pos c) 0 n ≡ consecutive a c n
    from_zero n =
        let e : a + 0 ≡ a = omega arith in
        let e' : c + 0 ≡ c = omega arith in range_requests-consecutive a c 0 n ∙ rw (e, e') refl

range_of-text :
    (a b : List ℕ)
    → is_port a ≡ true
    → is_port b ≡ true
    → range_of (range_text a b) ≡ ok (pos (port_of a), pos (port_of b))
unfolding range_of
range_of-text a b ha hb =
    let items : all (is_item b'-') (a ∷ b ∷ []) ≡ true =
      rw (is_port-is_item b'-' a refl ha, is_port-is_item b'-' b refl hb) refl in
    rw (split-join (a ∷ b ∷ []) b'-' items) (rw (parse_int-port a ha, parse_int-port b hb) refl)

one_of-middle : (c : ℕ) (s t : List ℕ) → one_of c (s ++ c ∷ t) ≡ true
one_of-middle c [] t = ground arith
one_of-middle c (x ∷ s) t = ground (arith, one_of-middle c s t)

all-append :
    {A : Type 0} (test : A → Bool) (s t : List A)
    → all test s ≡ true
    → all test t ≡ true
    → all test (s ++ t) ≡ true
all-append test [] t h h' = h'
all-append test (x ∷ s) t h h' =
    let (hx, rest) = and-parts (test x) (all test s) h in rw hx (all-append test s t rest h')

is_numeric-range :
    (a b : List ℕ) → is_port a ≡ true → is_port b ≡ true → is_numeric (range_text a b) ≡ true
is_numeric-range a b ha hb =
    let (ne, da, bound) = is_port-parts a ha in
    let (ne', db, bound') = is_port-parts b hb in
    all-append _ a (b'-' ∷ b) (is_numeric-digits a da) (is_numeric-digits b db)

is_socket_path-range : (a b : List ℕ) → is_port a ≡ true → is_socket_path (range_text a b) ≡ false
is_socket_path-range [] b ha = refl
is_socket_path-range (x ∷ a) b ha =
    let (ne, da, bound) = is_port-parts (x ∷ a) ha in is_socket_path-digits (x ∷ a) da

same_length-ports :
    (a b c d : ℕ)
    → suc (b - a) < 2 ^ 31
    → same_length (pos a, pos b) (pos c, pos d) ≡ range_result a b c d
same_length-ports a b c d h = rw (diff-same a b c d, length_requests-diff a b c h) refl

pub four_ports :
    (a b c d : List ℕ)
    → all is_port (a ∷ b ∷ c ∷ d ∷ []) ≡ true
    → (is_port a ≡ true) × (is_port b ≡ true) × (is_port c ≡ true) × (is_port d ≡ true)
four_ports a b c d h =
    let (ha, h1) = and-parts (is_port a) (all is_port (b ∷ c ∷ d ∷ [])) h in
    let (hb, h2) = and-parts (is_port b) (all is_port (c ∷ d ∷ [])) h1 in
    let (hc, h3) = and-parts (is_port c) (all is_port (d ∷ [])) h2 in
    let (hd, h4) = and-parts (is_port d) true h3 in (ha, hb, hc, hd)

et_style-ranges :
    (a b c d : List ℕ)
    → all is_port (a ∷ b ∷ c ∷ d ∷ []) ≡ true
    → suc (port_of b - port_of a) < 2 ^ 31
    → et_style (range_text a b) (range_text c d)
      ≡ range_result (port_of a) (port_of b) (port_of c) (port_of d)
et_style-ranges a b c d h fits =
    let (ha, hb, hc, hd) = four_ports a b c d h in
    rw
      (
        is_socket_path-range a b ha,
        is_socket_path-range c d hc,
        is_numeric-range a b ha hb,
        one_of-middle b'-' a b,
        one_of-middle b'-' c d,
      )
      (rw (range_of-text a b ha hb, range_of-text c d hc hd)
        (same_length-ports (port_of a) (port_of b) (port_of c) (port_of d) fits))

-- A range of a source and a range of a destination, all four texts of digits below 2^31, in a
-- range shorter than 2^31: with one difference they append a request for each port, none when the
-- source goes down, and with two differences they are refused.
pub process_et_style_tunnel_arg-ranges :
    (pfsrs : List PortForwardSourceRequest) (a b c d : List ℕ)
    → all is_port (a ∷ b ∷ c ∷ d ∷ []) ≡ true
    → suc (port_of b - port_of a) < 2 ^ 31
    → process_et_style_tunnel_arg pfsrs (range_text a b ∷ range_text c d ∷ []) ≡ (
        if port_of b + port_of c == port_of d + port_of a
        then ok (
            pfsrs
            ++ (if ltb (port_of b) (port_of a)
                then []
                else consecutive (port_of a) (port_of c) (suc (port_of b - port_of a))))
        else tunnel_parse_exception)
unfolding process_et_style_tunnel_arg
process_et_style_tunnel_arg-ranges pfsrs a b c d h fits = rw (et_style-ranges a b c d h fits) (
    ended (port_of b + port_of c == port_of d + port_of a) (
      if ltb (port_of b) (port_of a)
      then []
      else consecutive (port_of a) (port_of c) (suc (port_of b - port_of a))))
  where
    ended :
        (same : Bool) (made : List PortForwardSourceRequest)
        → rethrow ((if same then ok made else tunnel_parse_exception) >>= λ m. ok (pfsrs ++ m))
          ≡ (if same then ok (pfsrs ++ made) else tunnel_parse_exception)
    ended true made = refl
    ended false made = refl
