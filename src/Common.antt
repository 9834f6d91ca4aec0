-- ===== src/Common.antt =====
-- The names that the modules share: the libraries', passed on, and those of the children.
mod Tests
mod Lists
mod Calls
mod Maps
mod Words
mod Strings
mod Stoi
pub use Tests.*
pub use Lists.*
pub use Calls.*
pub use Maps.*
pub use Words.{ℤ, pos, negsuc, decode-encode, length-encode}
pub use Strings.{
  find_char-absent, find_char-append, one_of-cases, join, all, is_item, is_item-parts, and-parts,
  not-part, split-part, split-join,
}
pub use Stoi.{
  Number, number, invalid_argument, out_of_int_range, is_digit, is_space, skip_space, value_from,
  digits, diff, ◌-ℤ◌, add, same_int,
}
unfoldable pub use Stoi.{stoi}
unfoldable pub use Strings.{find_char, split}
unfoldable pub use Words.{to_int32, encode_be32, decode_be32}
pub use Prim.Native.Nat.{ℕ, zero, suc, ◌+◌, ◌-◌, ◌*◌, ◌/◌, ◌%◌, ◌^◌, ◌≤◌, ◌<◌}
pub use mathlib.Core.Path.{◌≡◌, refl, sym, ap, ◌∙◌, subst, ◌≡⟨◌⟩◌, ◌∎}
pub use mathlib.Core.Logic.{◌≢◌, ◌↔◌, ◌⊎◌, inl, inr}
pub use mathlib.Core.Bool.{Bool, true, false, not, ◌&&◌, ◌||◌}
pub use mathlib.Core.Option.{Option, none, some}
pub use mathlib.Core.List.{
  List, [], ◌∷◌, ◌++◌, map, reverse, append-nil, append_assoc, map-append, reverse-append,
  reverse-reverse, reverse-cons,
}
pub use native.Mathlib.Omega.{arith}
