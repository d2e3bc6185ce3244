-- ===== src/Common.antt =====
-- What every part shares: the libraries' names, tests, lists, tables, and database actions.
mod Tests
mod Lists
mod Table
mod Actions
pub mod Rows
pub mod Keys
pub mod First
pub mod Deletes
pub mod Selecting
pub use Tests.*
pub use Lists.*
pub use Table.*
pub use Actions.*
pub use Prim.Native.Nat.{ℕ, zero, suc, ◌+◌, ◌-◌, ◌*◌, ◌/◌, ◌^◌, ◌≤◌, ◌<◌, min}
pub use mathlib.Core.Path.{◌≡◌, refl, sym, ap, ◌∙◌}
pub use mathlib.Core.Logic.{◌≢◌, ◌↔◌, ◌⊎◌, inl, inr}
pub use mathlib.Core.Bool.{Bool, true, false, not, ◌&&◌, ◌||◌}
pub use mathlib.Core.Option.{Option, none, some}
pub use mathlib.Core.List.{List, [], ◌∷◌, ◌++◌, map, reverse}
pub use native.Mathlib.Omega.{arith}
