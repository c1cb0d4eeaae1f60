-- ===== src/Base.antt =====
-- The names that the other modules share: numbers, tests, lists, bytes and texts.
mod Tests
mod Lists
mod Order
mod Text
mod Decimal
mod Numbers
mod CString
mod Digits
unfoldable pub use Tests.*
unfoldable pub use Lists.*
pub use Order.*
unfoldable pub use Text.*
unfoldable pub use Decimal.*
unfoldable pub use Numbers.*
unfoldable pub use CString.*
unfoldable pub use Digits.*
pub use Prim.Native.Nat.{ℕ, zero, suc, ◌+◌, ◌-◌, ◌*◌, ◌/◌, ◌%◌, ◌^◌, ◌≤◌, ◌<◌}
pub use Prim.Native.String.{String}
pub use mathlib.Core.Path.{◌≡◌, refl, sym, ap, ◌∙◌}
pub use mathlib.Core.Logic.{◌≢◌, ◌↔◌, ◌⊎◌, inl, inr}
pub use mathlib.Core.Bool.{Bool, true, false, not, ◌&&◌, ◌||◌}
pub use mathlib.Core.Option.{Option, none, some}
pub use mathlib.Core.List.{List, [], ◌∷◌, ◌++◌, map, append-nil, append_assoc}
pub use native.Mathlib.Omega.{arith}
