-- ===== src/Prelude.antt =====
-- The names that the other modules share: the libraries', passed on, and those of four children.
pub mod Tests
pub mod Lists
pub mod Texts
pub mod Dicts
pub mod Sorting
pub mod Decimals
pub use Tests.*
pub use Lists.*
unfoldable pub use Texts.{
  Text, codes, text_eq, is_empty, is_space, lstrip, strip, lower, starts_with, mem_text, split,
  ends_with, text_lt,
}
pub use Texts.{
  text_eq_refl, text_eq_iff, starts_with-append, starts_with→append, mem_text_iff, Has, append-Has,
}
unfoldable pub use Dicts.{Dict, lookup, insert, remove}
unfoldable pub use Decimals.{show, is_digit, read_onto, read}
pub use Decimals.{all-is_digit-show, read-show, is_empty-show}
pub use Sorting.{IsOrdered, All-sort_by, sort_by-perm, sort_by-IsOrdered}
unfoldable pub use Sorting.{insert_by, sort_by}
pub use Dicts.{lookup-insert, lookup-remove, IsUnique, insert-IsUnique, remove-IsUnique}
pub use Prim.Native.Nat.{ℕ, zero, suc, ◌+◌, ◌-◌, ◌*◌, ◌/◌, ◌%◌, ◌^◌, ◌≤◌, ◌<◌, min, max}
pub use Prim.Native.String.{String}
pub use mathlib.Core.Path.{◌≡◌, refl, sym, ap, ap₂, ◌∙◌, subst, fun_ext}
pub use mathlib.Core.Logic.{◌≢◌, ◌↔◌, ◌⊎◌, inl, inr}
pub use mathlib.Core.Bool.{Bool, true, false, not, ◌&&◌, ◌||◌}
pub use mathlib.Core.Option.{Option, none, some}
pub use mathlib.Core.List.{
  List, [], ◌∷◌, ◌++◌, map, reverse, reverse-cons, reverse-reverse, append-nil, append_assoc,
}
pub use native.Mathlib.Omega.{arith}
