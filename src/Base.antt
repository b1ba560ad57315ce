-- ===== src/Base.antt =====
-- The names that the other modules share: the libraries', passed on, and those of three children.
mod Tests
mod Lists
mod Dict
mod Texts
pub use Tests.{ltb, leb, ◌==◌, if◌then◌else◌, same, Bool-cases, Option-cases}
unfoldable pub use Tests.{str_dec}
pub use Lists.{
  length, take, drop, keep, All, length-append, length-take, length-drop, take-append-drop,
  length-keep-le, keep-append,
}
unfoldable pub use Lists.{is_member}
unfoldable pub use Dict.{lookup, insert, delete}
pub use Dict.{
  lookup-insert, lookup-delete, HasKey, HasKey-insert, HasKey-delete, HasDistinctKeys,
  HasDistinctKeys-insert, HasDistinctKeys-delete, length-insert, length-delete,
  length-delete-HasKey, lookup_of_not_HasKey, delete_of_not_HasKey, length-delete_distinct,
  HasKey-of_insert, HasKey-insert_self, length-insert-HasKey, HasKey-of_lookup,
}
unfoldable pub use Texts.{join}
pub use Texts.{contains}
pub use Prim.Native.Nat.{ℕ, zero, suc, ◌+◌, ◌-◌, ◌*◌, ◌/◌, ◌%◌, ◌^◌, ◌≤◌, ◌<◌}
pub use Prim.Native.String.{String}
pub use mathlib.Core.Path.{◌≡◌, refl, sym, ap, ◌∙◌}
pub use mathlib.Core.Logic.{◌≢◌, ◌↔◌, ◌⊎◌, inl, inr, ite, if_pos, if_neg}
pub use mathlib.Core.Bool.{Bool, true, false, not, ◌&&◌, ◌||◌}
pub use mathlib.Core.Option.{Option, none, some}
pub use mathlib.Core.List.{List, [], ◌∷◌, ◌++◌, map}
pub use native.Mathlib.Omega.{arith}
