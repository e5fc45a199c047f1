-- ===== src/Prelude.antt =====
-- The names that the other modules share: the libraries', passed on, and those of three children.
mod Tests
mod Lists
mod Maps
pub use Tests.*
pub use Lists.*
pub use Maps.{
  Eq, ◌==◌, nat_eq, string_eq, beq_refl, beq_iff, Dict, lookup-insert, lookup-remove,
  lookup-insert_self, IsMap, insert-IsMap, remove-IsMap, length-insert_new, length-insert_old,
  All-insert, All-remove, All-lookup,
}
unfoldable pub use Maps.{lookup, insert, remove}
pub use Prim.Native.Nat.{ℕ, zero, suc, ◌+◌, ◌-◌, ◌*◌, ◌/◌, ◌%◌, ◌^◌, ◌≤◌, ◌<◌, max}
pub use Prim.Native.String.{String}
pub use mathlib.Core.Path.{◌≡◌, refl, sym, ap, subst, ◌∙◌}
pub use mathlib.Core.Logic.{◌≢◌, ◌↔◌, ◌⊎◌, inl, inr}
pub use mathlib.Core.Bool.{Bool, true, false, not, ◌&&◌, ◌||◌}
pub use mathlib.Core.Option.{Option, none, some}
pub use mathlib.Core.List.{List, [], ◌∷◌, ◌++◌, map}
pub use native.Mathlib.Omega.{arith}
