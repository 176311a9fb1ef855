-- ===== src/Base.antt =====
-- The names that the other modules share: those of the libraries, passed on, tests on numbers,
-- and lists under native indices.
mod Tests
mod Lists
mod Members
pub mod Visited
pub mod Result
mod Codes
mod Words
mod Lines
pub mod Int
pub use Tests.*
pub use Lists.*
pub use Members.*
pub use Visited.{contains, unvisited, unvisited_mono, unvisited_visit}
pub use Codes.*
pub use Words.*
pub use Lines.*
pub use Prim.Native.Nat.{ℕ, zero, suc, ◌+◌, ◌-◌, ◌*◌, ◌/◌, ◌%◌, ◌^◌, ◌≤◌, ◌<◌, min}
pub use mathlib.Core.Path.{◌≡◌, refl, sym, ap, ap₂, subst, ◌∙◌}
pub use mathlib.Core.Logic.{◌≢◌, ◌↔◌, ◌⊎◌, inl, inr}
pub use mathlib.Core.Bool.{Bool, true, false, not, ◌&&◌, ◌||◌}
pub use mathlib.Core.Option.{Option, none, some}
pub use mathlib.Core.List.{List, [], ◌∷◌, ◌++◌, map, reverse}
pub use mathlib.Core.List.{append-nil, append_assoc, reverse-cons, reverse-append, reverse-reverse}
pub use native.Mathlib.Omega.{arith}
