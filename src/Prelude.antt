-- ===== src/Prelude.antt =====
-- What the modules share: library names passed on, Boolean tests over the native numbers, lists,
-- texts, integers and a sort.
mod Tests
mod Lists
pub mod Text
pub mod Paths
pub mod Int
pub mod Sorting
pub mod Words
pub mod Maps
pub mod Printing
pub mod Trimming
pub mod Cutting
pub use Tests.*
pub use Lists.*
pub use Prim.Native.Nat.{ℕ, zero, suc, ◌+◌, ◌-◌, ◌*◌, ◌/◌, ◌%◌, ◌^◌, ◌≤◌, ◌<◌, min, max}
pub use mathlib.Core.Path.{◌≡◌, refl, sym, ap, subst, ◌∙◌}
pub use mathlib.Core.Logic.{◌≢◌, ◌↔◌, ◌⊎◌, inl, inr}
pub use mathlib.Core.Bool.{Bool, true, false, not, ◌&&◌, ◌||◌}
pub use mathlib.Core.Option.{Option, none, some}
pub use mathlib.Core.List.{List, [], ◌∷◌, ◌++◌, map, append-nil, append_assoc, map-append}
pub use native.Mathlib.Omega.{arith}
