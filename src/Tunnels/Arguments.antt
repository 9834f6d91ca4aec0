-- ===== src/Tunnels/Arguments.antt =====
-- Whole arguments of ports and ranges for base/TunnelUtils.cpp.
use eternal_terminal.Common.{
  ℕ, suc, ◌+◌, ◌-◌, ◌^◌, Bool, true, false, ◌&&◌, List, [], ◌∷◌, ◌++◌, ◌≡◌, refl, ap, sym, ◌∙◌,
  arith, ◌==◌, one_of, all, map, length, ltb, leb, is_item, and-parts, split, split-join, join, pos,
  is_digit, append-nil, append_assoc, is_item-parts, leb→le, ltb→lt, le→ltb_false,
}
use eternal_terminal.Tunnels.{
  ok, ports, PortForwardSourceRequest, process_all, process_et_style_tunnel_arg,
  parse_ranges_to_requests, parse_elements,
}
use eternal_terminal.Tunnels.Ports.{is_port, port_of, is_port-is_item, et_style-ports}
use eternal_terminal.Tunnels.Ranges.{
  consecutive, range_text, process_et_style_tunnel_arg-ranges, four_ports,
}

-- One tunnel of an argument: a port for a port, or a range for a range.
pub data Tunnel : Type 0 where
  single : (source destination : List ℕ) → Tunnel
  range : (from to from' to' : List ℕ) → Tunnel

abbrev pub text : Tunnel → List ℕ
text (single s t) = s ++ b':' ∷ t
text (range a b c d) = range_text a b ++ b':' ∷ range_text c d

-- The ports are texts of digits, the ranges go up and have one length, below that of an int.
abbrev pub is_tunnel : Tunnel → Bool
is_tunnel (single s t) = is_port s && is_port t
is_tunnel (range a b c d) =
    all is_port (a ∷ b ∷ c ∷ d ∷ [])
    && (leb (port_of a) (port_of b)
        && (port_of b + port_of c == port_of d + port_of a
            && ltb (suc (port_of b - port_of a)) (2 ^ 31)))

abbrev pub asked : Tunnel → List PortForwardSourceRequest
asked (single s t) = ports (pos (port_of s)) (pos (port_of t)) ∷ []
asked (range a b c d) = consecutive (port_of a) (port_of c) (suc (port_of b - port_of a))

abbrev pub asked_all : List Tunnel → List PortForwardSourceRequest
asked_all [] = []
asked_all (t ∷ ts) = asked t ++ asked_all ts

process_single :
    (pfsrs : List PortForwardSourceRequest) (s t : List ℕ)
    → is_port s ≡ true
    → is_port t ≡ true
    → process_et_style_tunnel_arg pfsrs (s ∷ t ∷ []) ≡ ok (pfsrs ++ asked (single s t))
unfolding process_et_style_tunnel_arg
process_single pfsrs s t hs ht = rw (et_style-ports s t hs ht) refl

is_item-append :
    (delim c : ℕ) (s t : List ℕ)
    → delim == c ≡ false
    → is_item delim s ≡ true
    → is_item delim t ≡ true
    → is_item delim (s ++ c ∷ t) ≡ true
is_item-append delim c [] t h hs ht = absurd cc
is_item-append delim c (x ∷ s) t h hs ht =
    rw (absent (x ∷ s) t ((is_item-parts delim (x ∷ s) hs).1) ((is_item-parts delim t ht).1)) refl
  where
    absent :
        (s t : List ℕ)
        → one_of delim s ≡ false
        → one_of delim t ≡ false
        → one_of delim (s ++ c ∷ t) ≡ false
    absent [] t hs ht = rw (h, ht) refl
    absent (y ∷ s) t hs ht = ground (arith, absent s t)

range-parts :
    (a b c d : List ℕ)
    → is_tunnel (range a b c d) ≡ true
    → (all is_port (a ∷ b ∷ c ∷ d ∷ []) ≡ true)
      × (leb (port_of a) (port_of b) ≡ true)
      × (port_of b + port_of c == port_of d + port_of a ≡ true)
      × (ltb (suc (port_of b - port_of a)) (2 ^ 31) ≡ true)
range-parts a b c d h =
    let same = port_of b + port_of c == port_of d + port_of a in
    let short = ltb (suc (port_of b - port_of a)) (2 ^ 31) in
    let (p, q) =
      and-parts (all is_port (a ∷ b ∷ c ∷ d ∷ [])) (leb (port_of a) (port_of b) && (same && short))
        h in
    let (r, t) = and-parts (leb (port_of a) (port_of b)) (same && short) q in
    let (u, v) = and-parts same short t in (p, r, u, v)

text-is_item :
    (delim : ℕ) (t : Tunnel)
    → is_digit delim ≡ false
    → delim == b'-' ≡ false
    → delim == b':' ≡ false
    → is_tunnel t ≡ true
    → is_item delim (text t) ≡ true
text-is_item delim (single s t) h dash colon ok₁ =
    let (hs, ht) = and-parts (is_port s) (is_port t) ok₁ in
    is_item-append delim b':' s t colon (is_port-is_item delim s h hs)
      (is_port-is_item delim t h ht)
text-is_item delim (range a b c d) h dash colon ok₁ =
    let (ports₁, up, same, short) = range-parts a b c d ok₁ in
    let (ha, hb, hc, hd) = four_ports a b c d ports₁ in
    is_item-append delim b':' (range_text a b) (range_text c d) colon
      (is_item-append delim b'-' a b dash (is_port-is_item delim a h ha)
        (is_port-is_item delim b h hb))
      (is_item-append delim b'-' c d dash (is_port-is_item delim c h hc)
        (is_port-is_item delim d h hd))

halves : Tunnel → List (List ℕ)
halves (single s t) = s ∷ t ∷ []
halves (range a b c d) = range_text a b ∷ range_text c d ∷ []

range_text-is_item :
    (a b : List ℕ) → is_port a ≡ true → is_port b ≡ true → is_item b':' (range_text a b) ≡ true
range_text-is_item a b ha hb =
    is_item-append b':' b'-' a b refl (is_port-is_item b':' a refl ha)
      (is_port-is_item b':' b refl hb)

split-text : (t : Tunnel) → is_tunnel t ≡ true → split (text t) b':' ≡ halves t
unfolding halves
split-text (single s t) h =
    let (hs, ht) = and-parts (is_port s) (is_port t) h in
    split-join (s ∷ t ∷ []) b':'
      (rw (is_port-is_item b':' s refl hs, is_port-is_item b':' t refl ht) refl)
split-text (range a b c d) h =
    let (ports₁, up, same, short) = range-parts a b c d h in
    let (ha, hb, hc, hd) = four_ports a b c d ports₁ in
    split-join (range_text a b ∷ range_text c d ∷ []) b':'
      (rw (range_text-is_item a b ha hb, range_text-is_item c d hc hd) refl)

process_halves :
    (pfsrs : List PortForwardSourceRequest) (t : Tunnel)
    → is_tunnel t ≡ true
    → process_et_style_tunnel_arg pfsrs (halves t) ≡ ok (pfsrs ++ asked t)
unfolding halves
process_halves pfsrs (single s t) h =
    let (hs, ht) = and-parts (is_port s) (is_port t) h in process_single pfsrs s t hs ht
process_halves pfsrs (range a b c d) h =
    let (ports₁, up, same, short) = range-parts a b c d h in
    let down : ltb (port_of b) (port_of a) ≡ false =
      le→ltb_false (port_of b) (port_of a) (leb→le (port_of a) (port_of b) up) in
    process_et_style_tunnel_arg-ranges pfsrs a b c d ports₁
      (ltb→lt (suc (port_of b - port_of a)) (2 ^ 31) short)
    ∙ rw (same, down) refl

process_tunnel :
    (pfsrs : List PortForwardSourceRequest) (t : Tunnel)
    → is_tunnel t ≡ true
    → process_et_style_tunnel_arg pfsrs (split (text t) b':') ≡ ok (pfsrs ++ asked t)
process_tunnel pfsrs t h = rw (split-text t h) (process_halves pfsrs t h)

process_all-tunnels :
    (pfsrs : List PortForwardSourceRequest) (ts : List Tunnel)
    → all is_tunnel ts ≡ true
    → process_all pfsrs (map text ts) ≡ ok (pfsrs ++ asked_all ts)
process_all-tunnels pfsrs [] h = ap ok (sym (append-nil pfsrs))
process_all-tunnels pfsrs (t ∷ ts) h =
    let (ht, hts) = and-parts (is_tunnel t) (all is_tunnel ts) h in
    rw (process_tunnel pfsrs t ht) (
      process_all-tunnels (pfsrs ++ asked t) ts hts
      ∙ ap ok (append_assoc pfsrs (asked t) (asked_all ts)))

text_items : (ts : List Tunnel) → all is_tunnel ts ≡ true → all (is_item b',') (map text ts) ≡ true
text_items [] h = refl
text_items (t ∷ ts) h =
    let (ht, hts) = and-parts (is_tunnel t) (all is_tunnel ts) h in
    rw (text-is_item b',' t refl refl refl ht) (text_items ts hts)

two_halves : (t : Tunnel) → length (halves t) ≡ 2
unfolding halves
two_halves (single s t) = refl
two_halves (range a b c d) = refl

-- An argument of one or more tunnels with commas between them, each a port for a port or a range
-- for a range that goes up and is as long, all numbers texts of digits below 2^31, is parsed to the
-- requests of the tunnels in order: one for a port, and one for each port of a range.
pub parse_ranges_to_requests-join :
    (t : Tunnel) (ts : List Tunnel)
    → all is_tunnel (t ∷ ts) ≡ true
    → parse_ranges_to_requests (join (map text (t ∷ ts)) b',') ≡ ok (asked_all (t ∷ ts))
unfolding parse_ranges_to_requests
parse_ranges_to_requests-join t ts h =
    rw (split-join (map text (t ∷ ts)) b',' (text_items (t ∷ ts) h)) (elements t ts h)
  where
    elements :
        (t : Tunnel) (ts : List Tunnel)
        → all is_tunnel (t ∷ ts) ≡ true
        → parse_elements (map text (t ∷ ts)) ≡ ok (asked_all (t ∷ ts))
    elements t [] h =
        let (ht, none_left) = and-parts (is_tunnel t) true h in
        rw (split-text t ht, two_halves t)
          (process_halves [] t ht ∙ ap ok (sym (append-nil (asked t))))
    elements t (u ∷ ts) h = process_all-tunnels [] (t ∷ u ∷ ts) h
