-- ===== src/Hosts/Parts.antt =====
-- What the parser of terminal/HostParsing.hpp keeps of its input, and what it reads back.
use eternal_terminal.Common.{
  ℕ, suc, Bool, true, false, not, Option, none, some, List, [], ◌∷◌, ◌++◌, ◌≡◌, refl, ap, ◌⊎◌,
  one_of, length, take, drop, take-append, find_char, find_char-absent, find_char-append,
  append_assoc, append-nil, not-part, drop-append,
}
use eternal_terminal.Hosts.{
  ParsedHostString, at_sign, colon, l_bracket, r_bracket, starts_with, bracketed, plain,
  parse_remaining, parse_host_string,
}

-- A host that needs no brackets, or one that stands in them.
pub data IsHost : List ℕ → Type 0 where
  name : (s : List ℕ) → starts_with l_bracket s ≡ false → one_of colon s ≡ false → IsHost s
  address : (s : List ℕ) → one_of r_bracket s ≡ false → IsHost (l_bracket ∷ s ++ r_bracket ∷ [])

abbrev pub suffix_of : Option (List ℕ) → List ℕ
suffix_of none = []
suffix_of (some port) = colon ∷ port

-- The text before the host.
abbrev pub prefix : Option (List ℕ) → List ℕ
prefix none = []
prefix (some user) = user ++ at_sign ∷ []

abbrev pub user_of : Option (List ℕ) → List ℕ
user_of none = []
user_of (some user) = user

-- The part that ends at the first `@` is the user; with no user the rest has no `@`.
abbrev pub at_free : Option (List ℕ) → List ℕ → Bool
at_free none rest = not (one_of at_sign rest)
at_free (some user) rest = not (one_of at_sign user)

take-cut : (s t : List ℕ) (c : ℕ) → take (suc (length s)) (s ++ c ∷ t) ≡ s ++ c ∷ []
take-cut [] t c = refl
take-cut (x ∷ s) t c = ap (λ r. x ∷ r) (take-cut s t c)

drop-cut : (s t : List ℕ) (c : ℕ) → drop (suc (length s)) (s ++ c ∷ t) ≡ t
drop-cut [] t c = refl
drop-cut (x ∷ s) t c = drop-cut s t c

starts_with-append :
    (c : ℕ) (s t : List ℕ)
    → starts_with c s ≡ false
    → starts_with c t ≡ false
    → starts_with c (s ++ t) ≡ false
starts_with-append c [] t h h' = h'
starts_with-append c (x ∷ s) t h h' = h

suffix_of-start : (port : Option (List ℕ)) → starts_with l_bracket (suffix_of port) ≡ false
suffix_of-start none = refl
suffix_of-start (some port) = refl

parsed : List ℕ → List ℕ → Option (List ℕ) → ParsedHostString
parsed user host port = record { user = user; host = host; port_suffix = suffix_of port }

plain-print :
    (user host : List ℕ) (port : Option (List ℕ))
    → one_of colon host ≡ false
    → plain user (host ++ suffix_of port) (find_char colon (host ++ suffix_of port))
      ≡ parsed user host port
unfolding parsed
plain-print user host none free = rw (append-nil host, find_char-absent colon host free) refl
plain-print user host (some port) free =
    rw
      (
        find_char-append colon host port free,
        take-append host (colon ∷ port),
        drop-append host (colon ∷ port),
      )
      refl

bracketed-print :
    (user s : List ℕ) (port : Option (List ℕ))
    → one_of r_bracket s ≡ false
    → let text = l_bracket ∷ s ++ r_bracket ∷ suffix_of port in
      bracketed user text (find_char r_bracket text)
      ≡ parsed user (l_bracket ∷ s ++ r_bracket ∷ []) port
unfolding parsed
bracketed-print user s none free =
    rw
      (
        find_char-append r_bracket (l_bracket ∷ s) [] free,
        take-cut s [] r_bracket,
        drop-cut s [] r_bracket,
      )
      refl
bracketed-print user s (some port) free =
    rw
      (
        find_char-append r_bracket (l_bracket ∷ s) (colon ∷ port) free,
        take-cut s (colon ∷ port) r_bracket,
        drop-cut s (colon ∷ port) r_bracket,
      )
      refl

parse_remaining-print :
    (user host : List ℕ) (port : Option (List ℕ))
    → IsHost host
    → parse_remaining user (host ++ suffix_of port) ≡ parsed user host port
parse_remaining-print user _ port (name s start free) =
    rw (starts_with-append l_bracket s (suffix_of port) start (suffix_of-start port))
      (plain-print user s port free)
parse_remaining-print user _ port (address s free) =
    rw (append_assoc s (r_bracket ∷ []) (suffix_of port)) (bracketed-print user s port free)

-- A host with its user and its port, if it has them, is read back from its text: the host is a
-- name with no colon that does not begin with `[`, or an address with no `]` between brackets; the
-- user has no `@`, and with no user the rest has none.
pub parse_host_string-print :
    (user : Option (List ℕ)) (host : List ℕ) (port : Option (List ℕ))
    → at_free user (host ++ suffix_of port) ≡ true
    → IsHost host
    → parse_host_string (prefix user ++ (host ++ suffix_of port))
      ≡ record { user = user_of user; host = host; port_suffix = suffix_of port }
unfolding parse_host_string parsed
parse_host_string-print none host port free h =
    let rest = host ++ suffix_of port in
    rw (find_char-absent at_sign rest (not-part (one_of at_sign rest) free))
      (parse_remaining-print [] host port h)
parse_host_string-print (some user) host port free h =
    let rest = host ++ suffix_of port in
    rw
      (
        append_assoc user (at_sign ∷ []) rest,
        find_char-append at_sign user rest (not-part (one_of at_sign user) free),
        take-append user (at_sign ∷ rest),
        drop-cut user rest at_sign,
      )
      (parse_remaining-print user host port h)

-- What the parser leaves out: nothing, or the text behind `]` that is not a port.
abbrev pub IsSuffixOf : ParsedHostString → List ℕ → Type 0
IsSuffixOf p tail =
    (p.port_suffix ≡ tail)
    ⊎ ((p.port_suffix ≡ [])
        × (starts_with l_bracket p.host ≡ true)
        × (starts_with colon tail ≡ false))

abbrev HasParts : List ℕ → List ℕ → ParsedHostString → Type 0
HasParts user text p =
    (tail : List ℕ) × (p.user ≡ user) × (text ≡ p.host ++ tail) × IsSuffixOf p tail
