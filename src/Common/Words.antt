-- ===== src/Common/Words.antt =====
-- 32-bit words in network byte order (htonl and ntohl around a memcpy of an int), and the
-- conversion to int32 with its sign.
use Prim.Native.Nat.{ℕ, ◌+◌, ◌-◌, ◌*◌, ◌/◌, ◌%◌, ◌^◌, ◌<◌}
use mathlib.Core.Path.{◌≡◌, refl}
use mathlib.Core.List.{List, [], ◌∷◌, ◌++◌}
use native.Mathlib.Omega.{arith}
use eternal_terminal.Common.Lists.{length}
use eternal_terminal.Common.Tests.{ltb, if◌then◌else◌}

pub data ℤ : Type 0 where
  pos : ℕ → ℤ
  negsuc : ℕ → ℤ

-- The low 32 bits as a two's complement integer.
unfoldable pub to_int32 : ℕ → ℤ
to_int32 n = let w = n % 2 ^ 32 in if ltb w (2 ^ 31) then pos w else negsuc (2 ^ 32 - 1 - w)

unfoldable pub encode_be32 : ℕ → List ℕ
encode_be32 n = (n / 2 ^ 24 % 256) ∷ (n / 2 ^ 16 % 256) ∷ (n / 2 ^ 8 % 256) ∷ (n % 256) ∷ []

-- The first four bytes; fewer never reach it.
unfoldable pub decode_be32 : List ℕ → ℕ
decode_be32 (a ∷ b ∷ c ∷ d ∷ _) = ((a * 256 + b) * 256 + c) * 256 + d
decode_be32 _ = 0

pub decode-encode : (n : ℕ) (rest : List ℕ) → n < 2 ^ 32 → decode_be32 (encode_be32 n ++ rest) ≡ n
unfolding decode_be32 encode_be32
decode-encode n rest h = omega arith

pub length-encode : (n : ℕ) → length (encode_be32 n) ≡ 4
unfolding encode_be32
length-encode n = refl
