-- ===== src/Hosts.antt =====
-- src/terminal/HostParsing.hpp: a `[user@]host[:port]` text taken apart, with IPv6 addresses in
-- brackets. `substr` is take and drop.
pub mod Parts
use eternal_terminal.Common.{
  ℕ, suc, Bool, false, Option, none, some, List, [], ◌∷◌, ◌==◌, if◌then◌else◌, take, drop,
  find_char,
}

pub record ParsedHostString : Type 0 where
  pub user : List ℕ
  pub host : List ℕ
  pub port_suffix : List ℕ

abbrev pub at_sign : ℕ
at_sign = b'@'

abbrev pub colon : ℕ
colon = b':'

abbrev pub l_bracket : ℕ
l_bracket = b'['

abbrev pub r_bracket : ℕ
r_bracket = b']'

abbrev pub starts_with : ℕ → List ℕ → Bool
starts_with c [] = false
starts_with c (x ∷ s) = x == c

abbrev pub bracketed : List ℕ → List ℕ → Option ℕ → ParsedHostString
bracketed user remaining none = record { user = user; host = remaining; port_suffix = [] }
bracketed user remaining (some close_bracket) =
    let tail = drop (suc close_bracket) remaining in
    record {
      user = user;
      host = take (suc close_bracket) remaining;
      port_suffix = if starts_with colon tail then tail else [];
    }

abbrev pub plain : List ℕ → List ℕ → Option ℕ → ParsedHostString
plain user remaining none = record { user = user; host = remaining; port_suffix = [] }
plain user remaining (some colon_index) = record {
  user = user;
  host = take colon_index remaining;
  port_suffix = drop colon_index remaining;
}

abbrev pub parse_remaining : List ℕ → List ℕ → ParsedHostString
parse_remaining user remaining =
    if starts_with l_bracket remaining
    then bracketed user remaining (find_char r_bracket remaining)
    else plain user remaining (find_char colon remaining)

abbrev pub parse_user : List ℕ → Option ℕ → ParsedHostString
parse_user host_string none = parse_remaining [] host_string
parse_user host_string (some at_index) =
    parse_remaining (take at_index host_string) (drop (suc at_index) host_string)

unfoldable pub parse_host_string : List ℕ → ParsedHostString
unfolding find_char
parse_host_string host_string = parse_user host_string (find_char at_sign host_string)
