-- ===== src/Tunnels.antt =====
-- src/base/TunnelUtils.cpp: the tunnel arguments of the command line, made into requests for
-- port forwarding. An element past the end of a vector is `undefined`.
pub mod Ports
pub mod Ranges
pub mod Arguments
pub mod Ssh
pub mod Escapes
use eternal_terminal.Common.{
  ℕ, zero, suc, ◌+◌, ◌^◌, Bool, true, false, not, ◌&&◌, ◌||◌, Option, none, some, List, [], ◌∷◌,
  ◌++◌, ◌==◌, if◌then◌else◌, one_of, all, length, ltb, leb, split, ℤ, pos, negsuc, Number, number,
  invalid_argument, out_of_int_range, is_digit, ◌-ℤ◌, add, same_int, stoi,
}

-- SocketEndpoint and PortForwardSourceRequest: the fields that are set.
pub record SocketEndpoint : Type 0 where
  pub name : Option (List ℕ)
  pub port : Option ℤ

pub record PortForwardSourceRequest : Type 0 where
  pub source : Option SocketEndpoint
  pub destination : Option SocketEndpoint
  pub environment_variable : Option (List ℕ)

-- How a parser ends. TunnelParseException is no std::logic_error; the exceptions of stoi are.
pub data Result {ℓ} (A : Type ℓ) : Type ℓ where
  ok : A → Result A
  tunnel_parse_exception : Result A
  logic_error : Result A
  undefined : Result A

infixl 5 ◌>>=◌
abbrev pub ◌>>=◌ {ℓ κ} : {A : Type ℓ} {B : Type κ} → Result A → (A → Result B) → Result B
ok a >>= f = f a
tunnel_parse_exception >>= f = tunnel_parse_exception
logic_error >>= f = logic_error
undefined >>= f = undefined

abbrev from_number : Number → Result ℤ
from_number (number n) = ok n
from_number _ = logic_error

abbrev pub parse_int : List ℕ → Result ℤ
parse_int s = from_number (stoi s)

-- `v[i]` of a vector of strings.
abbrev pub element : List (List ℕ) → ℕ → Result (List ℕ)
element [] i = undefined
element (s ∷ v) zero = ok s
element (s ∷ v) (suc i) = element v i

abbrev pub is_socket_path : List ℕ → Bool
is_socket_path [] = false
is_socket_path (c ∷ s) = c == b'/'

-- `find_first_not_of("0123456789-")` is npos.
abbrev pub is_numeric : List ℕ → Bool
is_numeric s = all (λ c. is_digit c || c == b'-') s

abbrev pub localhost : List ℕ
localhost = b'l' ∷ b'o' ∷ b'c' ∷ b'a' ∷ b'l' ∷ b'h' ∷ b'o' ∷ b's' ∷ b't' ∷ []

abbrev pub request : SocketEndpoint → SocketEndpoint → PortForwardSourceRequest
request source destination = record {
  source = some source;
  destination = some destination;
  environment_variable = none;
}

-- The request of one local port for one remote port.
abbrev pub ports : ℤ → ℤ → PortForwardSourceRequest
ports source destination =
    request (record { name = some localhost; port = some source })
      (record { name = none; port = some destination })

abbrev socket_source : List ℕ → Result SocketEndpoint
socket_source s =
    if is_socket_path s
    then ok (record { name = some s; port = none })
    else (do n ← parse_int s; ok (record { name = some localhost; port = some n }))

abbrev socket_destination : List ℕ → Result SocketEndpoint
socket_destination s =
    if is_socket_path s
    then ok (record { name = some s; port = none })
    else (do n ← parse_int s; ok (record { name = none; port = some n }))

-- The branch with a socket path on one side.
abbrev pub with_socket : List ℕ → List ℕ → Result (List PortForwardSourceRequest)
with_socket source destination = do
  from ← socket_source source
  to ← socket_destination destination
  ok (request from to ∷ [])

-- The two numbers of a range, in the order in which they are read.
unfoldable pub range_of : List ℕ → Result (ℤ × ℤ)
range_of s = do
  first ← element (split s b'-') 0
  start ← parse_int first
  second ← element (split s b'-') 1
  end ← parse_int second
  ok (start, end)

-- The loop over the ports of a range, from its rounds.
unfoldable pub range_requests : ℤ → ℤ → ℕ → ℕ → List PortForwardSourceRequest
range_requests source destination i zero = []
range_requests source destination i (suc n) =
    ports (add source i) (add destination i) ∷ range_requests source destination (suc i) n

-- The int `sourcePortEnd - sourcePortStart + 1` overflows at the largest difference; a negative
-- length makes no round.
abbrev length_requests : ℤ → ℤ → ℤ → Result (List PortForwardSourceRequest)
length_requests source destination (pos d) =
    if suc d == 2 ^ 31 then undefined else ok (range_requests source destination 0 (suc d))
length_requests source destination (negsuc d) = ok []

abbrev same_length : ℤ × ℤ → ℤ × ℤ → Result (List PortForwardSourceRequest)
same_length from to =
    if same_int (from.1 -ℤ from.0) (to.1 -ℤ to.0)
    then length_requests from.0 to.0 (from.1 -ℤ from.0)
    else tunnel_parse_exception

abbrev pub ranges : List ℕ → List ℕ → Result (List PortForwardSourceRequest)
ranges source destination = do
  from ← range_of source
  to ← range_of destination
  same_length from to

abbrev pub port_to_port : List ℕ → List ℕ → Result (List PortForwardSourceRequest)
port_to_port source destination = do
  from ← parse_int source
  to ← parse_int destination
  ok (ports from to ∷ [])

-- A named pipe in an environment variable; the source is not set.
abbrev pub named_pipe : List ℕ → List ℕ → PortForwardSourceRequest
named_pipe source destination = record {
  source = none;
  destination = some (record { name = some destination; port = none });
  environment_variable = some source;
}

-- The body of the try block.
abbrev pub et_style : List ℕ → List ℕ → Result (List PortForwardSourceRequest)
et_style source destination =
    if is_socket_path source || is_socket_path destination && is_numeric source
    then with_socket source destination
    else if not (is_numeric source) && not (is_numeric destination)
    then ok (named_pipe source destination ∷ [])
    else if one_of b'-' source && one_of b'-' destination
    then ranges source destination
    else if one_of b'-' source || one_of b'-' destination
    then tunnel_parse_exception
    else port_to_port source destination

-- A logic_error becomes a TunnelParseException.
abbrev pub rethrow {ℓ} : {A : Type ℓ} → Result A → Result A
rethrow (ok a) = ok a
rethrow tunnel_parse_exception = tunnel_parse_exception
rethrow logic_error = tunnel_parse_exception
rethrow undefined = undefined

-- The requests are appended to those of the arguments before.
unfoldable pub process_et_style_tunnel_arg :
    List PortForwardSourceRequest → List (List ℕ) → Result (List PortForwardSourceRequest)
process_et_style_tunnel_arg pfsrs [] = tunnel_parse_exception
process_et_style_tunnel_arg pfsrs (source ∷ []) = tunnel_parse_exception
process_et_style_tunnel_arg pfsrs (source ∷ destination ∷ rest) =
    rethrow (do made ← et_style source destination; ok (pfsrs ++ made))

-- The loop over the characters; the parts come out in order.
unfoldable pub ssh_parts : Bool → List ℕ → List ℕ → List (List ℕ)
ssh_parts in_brackets current_part [] = current_part ∷ []
ssh_parts in_brackets current_part (c ∷ input) =
    let opened = ssh_parts true current_part input in
    let left = ssh_parts false current_part input in
    let next = ssh_parts in_brackets [] input in
    let longer = ssh_parts in_brackets (current_part ++ c ∷ []) input in
    if c == b'['
    then opened
    else if c == b']'
    then left
    else if c == b':' && not in_brackets
    then current_part ∷ next
    else longer

unfoldable pub parse_ssh_tunnel_arg : List ℕ → Result (List (List ℕ))
unfolding ssh_parts
parse_ssh_tunnel_arg input =
    let parts = ssh_parts false [] input in
    if ltb (length parts) 4 || ltb 4 (length parts) then tunnel_parse_exception else ok parts

abbrev pub named_ports : List ℕ → ℤ → List ℕ → ℤ → PortForwardSourceRequest
named_ports source from destination to =
    request (record { name = some source; port = some from })
      (record { name = some destination; port = some to })

-- No try block is around this stoi.
abbrev pub ssh_style : List ℕ → Result (List PortForwardSourceRequest)
ssh_style tunnel_arg = do
  parts ← parse_ssh_tunnel_arg tunnel_arg
  source ← element parts 0
  source_port ← element parts 1
  from ← parse_int source_port
  destination ← element parts 2
  destination_port ← element parts 3
  to ← parse_int destination_port
  ok (named_ports source from destination to ∷ [])

-- The loop over the arguments between commas.
abbrev pub process_all :
    List PortForwardSourceRequest → List (List ℕ) → Result (List PortForwardSourceRequest)
process_all pfsrs [] = ok pfsrs
process_all pfsrs (tunnel_arg ∷ elements) = do
  more ← process_et_style_tunnel_arg pfsrs (split tunnel_arg b':')
  process_all more elements

abbrev pub parse_elements : List (List ℕ) → Result (List PortForwardSourceRequest)
parse_elements [] = undefined
parse_elements (tunnel_arg ∷ []) =
    if leb (length (split tunnel_arg b':')) 2
    then process_et_style_tunnel_arg [] (split tunnel_arg b':')
    else ssh_style tunnel_arg
parse_elements (a ∷ b ∷ rest) = process_all [] (a ∷ b ∷ rest)

unfoldable pub parse_ranges_to_requests : List ℕ → Result (List PortForwardSourceRequest)
parse_ranges_to_requests input = parse_elements (split input b',')
