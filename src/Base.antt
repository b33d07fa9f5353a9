-- ===== src/Base.antt =====
-- Names that the other modules share: those of the libraries, and of the children below.
mod Equality
mod Lists
mod Results
mod Sorting
mod Contains
pub mod Dict
pub mod Keyed
pub mod Text
pub mod Int
pub mod Decimal
unfoldable pub use Equality.*
pub use Lists.*
pub use Results.*
unfoldable pub use Sorting.*
pub use Contains.*
pub use Prim.Native.Nat.{ℕ, zero, suc, ◌+◌, ◌-◌, ◌*◌, ◌/◌, ◌%◌, ◌^◌, ◌≤◌, ◌<◌, min}
pub use Prim.Native.String.{String, ◌++◌ as ◌<>◌}
pub use mathlib.Core.Path.{◌≡◌, refl, sym, ap, ap₂, ◌∙◌, subst}
pub use mathlib.Core.Logic.{◌≢◌, ◌↔◌, ◌⊎◌, inl, inr}
pub use mathlib.Core.Bool.{Bool, true, false, ◌&&◌, ◌||◌, not}
pub use mathlib.Core.Option.{Option, none, some}
pub use mathlib.Core.List.{List, [], ◌∷◌, ◌++◌, map}
pub use native.Mathlib.Omega.{arith}
