-- ===== src/Prelude.antt =====
-- The names that the other modules share: those of the libraries, passed on, and three children.
mod Tests
mod Lists
pub mod Int
pub use Tests.*
unfoldable pub use Lists.{modify, count, lookup, insert}
pub use Lists.{
  length, get_elem?, get_or, take, drop, length-append, length-modify, take-append-drop,
  get_elem?-some, get_elem?-modify, get_elem?-modify_other, any, any_at, all, count_if, seats_where,
  count-append, elem, lookup-insert,
}
pub use Prim.Native.Nat.{ℕ, zero, suc, ◌+◌, ◌-◌, ◌*◌, ◌/◌, ◌%◌, ◌^◌, ◌≤◌, ◌<◌, min}
pub use mathlib.Core.Path.{◌≡◌, refl, sym, ap, ◌∙◌}
pub use mathlib.Core.Logic.{◌≢◌, ◌↔◌, ◌⊎◌, inl, inr}
pub use mathlib.Core.Bool.{Bool, true, false, ◌&&◌, ◌||◌}
pub use mathlib.Core.Option.{Option, none, some}
pub use mathlib.Core.List.{List, [], ◌∷◌, ◌++◌, map}
pub use native.Mathlib.Omega.{arith}
