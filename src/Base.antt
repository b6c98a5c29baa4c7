-- ===== src/Base.antt =====
-- The names that every module shares: those of the libraries, passed on, and those of the child
-- modules (Boolean tests, lists over the native numbers, 64-bit words, byte texts, results).
mod Tests
mod Lists
mod Words
mod Texts
mod Results
pub use Results.*
pub use Tests.*
unfoldable pub use Lists.*
pub use Words.*
unfoldable pub use Texts.*
pub use Prim.Native.Nat.{ℕ, zero, suc, ◌+◌, ◌-◌, ◌*◌, ◌/◌, ◌%◌, ◌^◌, ◌≤◌, ◌<◌}
pub use mathlib.Core.Path.{◌≡◌, refl, sym, ap, ◌∙◌}
pub use mathlib.Core.Logic.{◌≢◌, ◌↔◌, ◌⊎◌, inl, inr}
pub use mathlib.Core.Bool.{Bool, true, false, not, ◌&&◌, ◌||◌}
pub use mathlib.Core.Option.{Option, none, some}
pub use mathlib.Core.List.{List, [], ◌∷◌, ◌++◌, map, reverse}
pub use native.Mathlib.Omega.{arith}
