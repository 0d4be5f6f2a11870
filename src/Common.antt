-- ===== src/Common.antt =====
-- The names that the other modules share: the libraries' names, passed on, with tests on numbers,
-- lists under native indices, 64-bit words and the outcome of a C++ call.
mod Tests
mod Lists
mod Slices
mod Division
mod Words
mod Calls
mod Tally
mod Sort
mod Decimal
pub use Tests.*
pub use Lists.*
pub use Slices.*
pub use Division.*
pub use Words.*
pub use Calls.*
pub use Tally.*
unfoldable pub use Sort.*
unfoldable pub use Decimal.*
pub use Prim.Native.Nat.{ℕ, zero, suc, ◌+◌, ◌-◌, ◌*◌, ◌/◌, ◌%◌, ◌^◌, ◌≤◌, ◌<◌, min, max}
pub use Prim.Native.String.{String}
pub use mathlib.Core.Path.{◌≡◌, refl, sym, ap, ap₂, subst, ◌∙◌, fun_ext}
pub use mathlib.Core.Logic.{◌≢◌, ◌↔◌, ◌⊎◌, inl, inr}
pub use mathlib.Core.Bool.{Bool, true, false, not, ◌&&◌, ◌||◌}
pub use mathlib.Core.Option.{Option, none, some}
pub use mathlib.Core.List.{List, [], ◌∷◌, ◌++◌, map, append-nil, append_assoc}
pub use native.Mathlib.Omega.{arith}
unfoldable pub use native.Mathlib.Decide.{dec_lt, dec_le, ℕ_discrete}
