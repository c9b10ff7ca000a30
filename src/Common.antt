-- ===== src/Common.antt =====
-- The names that the other modules share: the libraries', passed on, and those of the children.
pub mod Results
pub mod Tests
pub mod Lists
pub mod Arrays
pub mod Slices
pub mod Panics
unfoldable pub use Results.*
unfoldable pub use Tests.*
unfoldable pub use Lists.*
unfoldable pub use Arrays.*
unfoldable pub use Slices.*
unfoldable pub use Panics.*
pub use Prim.Native.Nat.{ℕ, zero, suc, ◌+◌, ◌-◌, ◌*◌, ◌/◌, ◌%◌, ◌^◌, ◌≤◌, ◌<◌}
pub use mathlib.Core.Path.{◌≡◌, refl, sym, ap, ap₂, subst, fun_ext, ◌∙◌, ◌≡⟨◌⟩◌, ◌∎}
pub use mathlib.Core.Logic.{◌≢◌, ◌↔◌, ◌⊎◌, inl, inr}
pub use mathlib.Core.Bool.{Bool, true, false, not, ◌&&◌, ◌||◌}
pub use mathlib.Core.Option.{Option, none, some}
pub use mathlib.Core.List.{List, [], ◌∷◌, ◌++◌, map, foldl, reverse}
pub use native.Mathlib.Omega.{arith}
