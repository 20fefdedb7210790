-- ===== src/Prelude.antt =====
-- The names that the other modules share: the libraries', passed on, and those of the children
-- below, which hold tests on numbers, lists, machine words and finite maps.
mod Tests
mod Lists
mod Words
mod Maps
mod Panics
mod Sort
pub use Tests.*
unfoldable pub use Lists.*
unfoldable pub use Words.{add_u64, sub_u64}
pub use Words.{u64_mod, add_u64_lem, sub_u64_lem}
unfoldable pub use Maps.*
pub use Panics.*
unfoldable pub use Sort.*
pub use Prim.Native.Nat.{ℕ, zero, suc, ◌+◌, ◌-◌, ◌*◌, ◌/◌, ◌%◌, ◌^◌, ◌≤◌, ◌<◌}
pub use mathlib.Core.Path.{◌≡◌, refl, ap, subst, ◌∙◌}
pub use mathlib.Core.Logic.{◌≢◌, ◌↔◌, ◌⊎◌, inl, inr}
pub use mathlib.Core.Bool.{Bool, true, false, ◌&&◌, ◌||◌, not}
pub use mathlib.Core.Option.{Option, none, some}
pub use mathlib.Core.List.{List, [], ◌∷◌, ◌++◌, map}
pub use native.Mathlib.Omega.{arith}
