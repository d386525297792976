-- ===== src/Common.antt =====
-- The names that the other modules share: the libraries', passed on, and those of the children.
mod Tests
mod Lists
mod Methods
mod Word
mod Range
mod Int
mod Maps
pub use Tests.*
pub use Lists.*
pub use Methods.*
pub use Word.*
pub use Int.*
unfoldable pub use Maps.{Map, lookup, delete, insert}
pub use Maps.{
  Has, Has-insert, lookup-delete_self, lookup-delete_ne, lookup-insert_self, lookup-insert_ne,
}
unfoldable pub use Range.{for_below}
pub use Range.{for_below-lt}
pub use Prim.Native.Nat.{ℕ, zero, suc, ◌+◌, ◌-◌, ◌*◌, ◌/◌, ◌%◌, ◌^◌, ◌≤◌, ◌<◌}
pub use Prim.Native.Nat.{min, max, bit_and, bit_or, bit_xor}
pub use mathlib.Core.Path.{◌≡◌, refl, sym, ap, ◌∙◌}
pub use mathlib.Core.Logic.{◌≢◌, ◌↔◌, ◌⊎◌, inl, inr}
pub use mathlib.Core.Bool.{Bool, true, false, not, ◌&&◌, ◌||◌}
pub use mathlib.Core.Option.{Option, none, some}
pub use mathlib.Core.List.{List, [], ◌∷◌, ◌++◌, map, Perm}
pub use native.Mathlib.Omega.{arith}
