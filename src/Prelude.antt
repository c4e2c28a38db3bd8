-- ===== src/Prelude.antt =====
-- The names that the other modules share: the libraries', passed on, and those of the children.
mod Tests
mod Lists
mod Int
mod Bytes
mod Decimal
mod Format
pub use Tests.*
pub use Lists.*
pub use Int.*
pub use Bytes.{
  IsByte, htonl, ntohl, ntohl-htonl, c_str, until_nul, c_str-append_nul, codes, bytes_eq,
}
unfoldable pub use Bytes.{to_lower, str_case_eq}
unfoldable pub use Decimal.{decimal, show_int}
pub use Decimal.{pow10, digits_of, digits_of-decimal, decimal-eq, length-decimal}
pub use Format.{pad_left, pad_number-digits_of}
unfoldable pub use Format.{pad_number}
pub use Prim.Native.Nat.{ℕ, zero, suc, ◌+◌, ◌-◌, ◌*◌, ◌/◌, ◌%◌, ◌^◌, ◌≤◌, ◌<◌, min}
pub use mathlib.Core.Path.{◌≡◌, refl, sym, ap, subst, ◌∙◌, fun_ext}
pub use mathlib.Core.Logic.{◌≢◌, ◌↔◌, ◌⊎◌, inl, inr}
pub use mathlib.Core.Bool.{Bool, true, false, not, ◌&&◌, ◌||◌}
pub use mathlib.Core.Option.{Option, none, some}
pub use mathlib.Core.List.{
  List, [], ◌∷◌, ◌++◌, map, append-nil, append_assoc, reverse, reverse-append,
}
pub use native.Mathlib.Omega.{arith}
