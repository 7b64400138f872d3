-- ===== src/Base.antt =====
-- The names that the other modules share: the libraries', passed on, and those of the children.
mod Tests
mod Lists
mod Maps
mod Text
mod Utf8
mod Split
mod Decimal
pub use Tests.*
pub use Lists.*
unfoldable pub use Maps.{lookup, insert, delete}
pub use Maps.{
  GoMap, Fresh, IsDistinct, lookup-Fresh, lookup-insert, lookup-delete, insert-IsDistinct,
  delete-IsDistinct, length-delete-le, length-delete_present, length-delete_held,
  length-insert_absent, length-insert-le,
}
unfoldable pub use Text.{bytes_beq, split, contains_byte}
pub use Text.{Bytes, bytes_beq_iff, bytes_beq_self, bytes_eq, codes}
unfoldable pub use Split.{join}
pub use Split.{split-cons, join-split, split-join, split-Clean, contains_byte-append}
unfoldable pub use Decimal.{digits, format_uint, parse_uint, cut}
pub use Decimal.{cut-append, format_uint-cons, parse_uint-format_uint, length-format_uint}
unfoldable pub use Utf8.{valid_string}
pub use Utf8.{valid_string_ascii}
pub use Prim.Native.Nat.{ℕ, zero, suc, ◌+◌, ◌-◌, ◌*◌, ◌/◌, ◌%◌, ◌^◌, ◌≤◌, ◌<◌}
pub use Prim.Native.String.{String}
pub use mathlib.Core.Path.{◌≡◌, refl, sym, ap, ◌∙◌, subst}
pub use mathlib.Core.Logic.{◌≢◌, ◌↔◌, ◌⊎◌, inl, inr}
pub use mathlib.Core.Bool.{Bool, true, false, ◌&&◌, ◌||◌, not}
pub use mathlib.Core.Option.{Option, none, some}
pub use mathlib.Core.List.{List, [], ◌∷◌, ◌++◌, map, append_assoc, append-nil}
pub use native.Mathlib.Omega.{arith}
