-- ===== src/Common.antt =====
-- Names that every component shares: the libraries' and those of the children.
mod Tests
mod Lists
mod Equality
mod Fallible
mod Stateful
mod Assoc
mod Text
mod Split
mod Utf8
mod Order
mod Trim
pub use Tests.*
pub use Lists.*
unfoldable pub use Equality.*
pub use Fallible.*
pub use Stateful.*
unfoldable pub use Assoc.*
unfoldable pub use Trim.{trim, trim_start, trim_end}
unfoldable pub use Utf8.{is_utf8}
pub use Split.*
unfoldable pub use Text.*
unfoldable pub use Order.*
pub use Prim.Native.Nat.{ℕ, zero, suc, ◌+◌, ◌-◌, ◌*◌, ◌/◌, ◌%◌, ◌^◌, ◌≤◌, ◌<◌, min}
pub use mathlib.Core.Path.{◌≡◌, refl, sym, ap, ◌∙◌}
pub use mathlib.Core.Logic.{◌≢◌, ◌↔◌, ◌⊎◌, inl, inr}
pub use mathlib.Core.Bool.{Bool, true, false, not, ◌&&◌, ◌||◌}
pub use mathlib.Core.Option.{Option, none, some}
pub use mathlib.Core.List.{List, [], ◌∷◌, ◌++◌, map, append-nil, append_assoc}
pub use native.Mathlib.Omega.{arith}
