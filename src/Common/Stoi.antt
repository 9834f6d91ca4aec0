-- ===== src/Common/Stoi.antt =====
-- std::stoi of the C++ library: white space, a sign, then decimal digits up to the first other
-- character; and the int arithmetic of the callers on ℤ.
use Prim.Native.Nat.{ℕ, zero, suc, ◌+◌, ◌-◌, ◌*◌, ◌^◌}
use mathlib.Core.Bool.{Bool, true, false, ◌&&◌, ◌||◌}
use mathlib.Core.Option.{Option, none, some}
use mathlib.Core.List.{List, [], ◌∷◌}
use eternal_terminal.Common.Tests.{◌==◌, ltb, leb, if◌then◌else◌}
use eternal_terminal.Common.Words.{ℤ, pos, negsuc}

-- A number, or one of the two exceptions, both std::logic_error.
pub data Number : Type 0 where
  number : ℤ → Number
  invalid_argument out_of_int_range : Number

abbrev pub is_space : ℕ → Bool
is_space c = c == b' ' || leb 9 c && leb c 13

abbrev pub is_digit : ℕ → Bool
is_digit c = leb b'0' c && leb c b'9'

abbrev pub skip_space : List ℕ → List ℕ
skip_space [] = []
skip_space (c ∷ s) = let rest = skip_space s in if is_space c then rest else c ∷ s

-- The value of the digits at the front, behind those read before.
abbrev pub value_from : ℕ → List ℕ → ℕ
value_from n [] = n
value_from n (c ∷ s) =
    let more = value_from (n * 10 + (c - b'0')) s in if is_digit c then more else n

-- No digit at all is invalid.
abbrev pub digits : List ℕ → Option ℕ
digits [] = none
digits (c ∷ s) = if is_digit c then some (value_from 0 (c ∷ s)) else none

abbrev negate : ℕ → ℤ
negate zero = pos 0
negate (suc n) = negsuc n

abbrev bounded : Bool → Option ℕ → Number
bounded negative none = invalid_argument
bounded true (some n) = if leb n (2 ^ 31) then number (negate n) else out_of_int_range
bounded false (some n) = if ltb n (2 ^ 31) then number (pos n) else out_of_int_range

abbrev signed : List ℕ → Number
signed [] = invalid_argument
signed (c ∷ s) =
    if c == b'-'
    then bounded true (digits s)
    else if c == b'+'
    then bounded false (digits s)
    else bounded false (digits (c ∷ s))

unfoldable pub stoi : List ℕ → Number
stoi s = signed (skip_space s)

-- The difference of two numbers.
abbrev pub diff : ℕ → ℕ → ℤ
diff a b = if ltb a b then negsuc (b - suc a) else pos (a - b)

infixl 60 ◌-ℤ◌
abbrev pub ◌-ℤ◌ : ℤ → ℤ → ℤ
pos a -ℤ pos b = diff a b
pos a -ℤ negsuc b = pos (a + suc b)
negsuc a -ℤ pos b = negsuc (a + b)
negsuc a -ℤ negsuc b = diff b a

abbrev pub add : ℤ → ℕ → ℤ
add (pos a) n = pos (a + n)
add (negsuc a) n = diff n (suc a)

abbrev pub same_int : ℤ → ℤ → Bool
same_int (pos a) (pos b) = a == b
same_int (negsuc a) (negsuc b) = a == b
same_int _ _ = false
