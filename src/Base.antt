-- ===== src/Base.antt =====
-- The names that the other modules share: the libraries', passed on, the Boolean tests on native
-- numbers, C arrays as lists, and the search loops over a fixed table that the kernel uses everywhere.
mod Tests
mod Lists
mod Slots
mod Words
pub use Tests.*
pub use Lists.*
pub use Slots.*
unfoldable pub use Slots.{find_index, count}
pub use Words.*
pub use Prim.Native.Nat.{ℕ, zero, suc, ◌+◌, ◌-◌, ◌*◌, ◌/◌, ◌%◌, ◌^◌, ◌≤◌, ◌<◌, min}
pub use mathlib.Core.Path.{◌≡◌, refl, sym, ap, ◌∙◌}
pub use mathlib.Core.Logic.{◌≢◌, ◌↔◌, ◌⊎◌, inl, inr}
pub use mathlib.Core.Bool.{Bool, true, false, not, ◌&&◌, ◌||◌}
pub use mathlib.Core.Option.{Option, none, some}
pub use mathlib.Core.List.{List, [], ◌∷◌, ◌++◌, map}
pub use native.Mathlib.Omega.{arith}
