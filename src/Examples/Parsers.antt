-- ===== src/Examples/Parsers.antt =====
-- Host strings and tunnel arguments: tests, and the theorems at inputs that meet their hypotheses.
use Prim.Native.Char.{code}
use Prim.Native.String.{String}
use eternal_terminal.Common.{
  ℕ, ◌≡◌, refl, true, false, some, List, [], ◌∷◌, ◌++◌, pos, split, arith, stoi,
}
use eternal_terminal.Hosts.{parse_host_string}
use eternal_terminal.Hosts.Parts.{IsHost, address, prefix, suffix_of, parse_host_string-print}
use eternal_terminal.Tunnels.{
  ok, tunnel_parse_exception, logic_error, undefined, ports, parse_ranges_to_requests,
  process_et_style_tunnel_arg, parse_ssh_tunnel_arg, range_of,
}
use eternal_terminal.Tunnels.Ranges.{process_et_style_tunnel_arg-ranges}
use eternal_terminal.Tunnels.Arguments.{single, range, parse_ranges_to_requests-join}
use eternal_terminal.Tunnels.Ssh.{parse_ssh_tunnel_arg-join}
use eternal_terminal.Tunnels.Escapes.{IsSshStyle, parse_ranges_to_requests-logic_error}

abbrev codes : String → List ℕ
codes String.[] = []
codes (String.◌∷◌ c s) = code c ∷ codes s

-- The text behind the brackets is lost.
host_tail :
    parse_host_string (codes "me@[::1]x")
    ≡ record { user = codes "me"; host = codes "[::1]"; port_suffix = [] }
unfolding parse_host_string
host_tail = refl

abbrev loopback : IsHost (codes "[::1]")
loopback = address (codes "::1") refl

parse_host_string-print_example :
    parse_host_string
      (prefix (some (codes "me")) ++ (codes "[::1]" ++ suffix_of (some (codes "22"))))
    ≡ record { user = codes "me"; host = codes "[::1]"; port_suffix = codes ":22" }
parse_host_string-print_example =
    parse_host_string-print (some (codes "me")) (codes "[::1]") (some (codes "22")) refl loopback

-- An ssh-style argument whose ports are no numbers: the exception of stoi leaves the parser.
no_number : parse_ranges_to_requests (codes "a:b:c:d") ≡ logic_error
unfolding parse_ranges_to_requests parse_ssh_tunnel_arg split stoi
no_number = refl

-- A range with one number, and an empty argument.
read_past :
    (parse_ranges_to_requests (codes "5-:6-") ≡ undefined)
    × (parse_ranges_to_requests [] ≡ undefined)
unfolding parse_ranges_to_requests process_et_style_tunnel_arg split range_of stoi
read_past = (refl, refl)

-- A range of ports for one socket path is taken as its first port.
range_for_path : parse_ranges_to_requests (codes "5-6:/s") ≡ parse_ranges_to_requests (codes "5:/s")
unfolding parse_ranges_to_requests process_et_style_tunnel_arg split stoi
range_for_path = refl

process_et_style_tunnel_arg-ranges_example :
    process_et_style_tunnel_arg [] (codes "8-9" ∷ codes "5-7" ∷ []) ≡ tunnel_parse_exception
process_et_style_tunnel_arg-ranges_example =
    process_et_style_tunnel_arg-ranges [] (codes "8") (codes "9") (codes "5") (codes "7") refl
      (omega arith)

parse_ranges_to_requests-join_example :
    parse_ranges_to_requests (codes "80:8080,8-9:18-19")
    ≡ ok (ports (pos 80) (pos 8080) ∷ ports (pos 8) (pos 18) ∷ ports (pos 9) (pos 19) ∷ [])
parse_ranges_to_requests-join_example =
    parse_ranges_to_requests-join (single (codes "80") (codes "8080"))
      (range (codes "8") (codes "9") (codes "18") (codes "19") ∷ []) refl

parse_ssh_tunnel_arg-join_example :
    parse_ssh_tunnel_arg (codes "[::1]:80:h:81")
    ≡ ok (codes "::1" ∷ codes "80" ∷ codes "h" ∷ codes "81" ∷ [])
parse_ssh_tunnel_arg-join_example =
    parse_ssh_tunnel_arg-join (true, codes "::1")
      ((false, codes "80") ∷ (false, codes "h") ∷ (false, codes "81") ∷ []) refl

parse_ranges_to_requests-logic_error_example : IsSshStyle (split (codes "a:b:c:d") b',')
parse_ranges_to_requests-logic_error_example =
    parse_ranges_to_requests-logic_error (codes "a:b:c:d") no_number
