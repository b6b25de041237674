-- ===== src/Base.antt =====
-- Names that the other modules share: the libraries', passed on, and those of the children below
-- (Boolean tests, arrays as lists, machine words and little-endian bytes, results that may fail).
mod Compare
mod Arrays
pub mod Words
mod Fallible
pub mod Tables
mod Examples
pub use Compare.*
pub use Arrays.*
unfoldable pub use Words.*
pub use Fallible.*
pub use Prim.Native.Nat.{
  ℕ, zero, suc, ◌+◌, ◌-◌, ◌*◌, ◌/◌, ◌%◌, ◌^◌, ◌≤◌, ◌<◌, min, max, bit_and, bit_or, bit_xor,
}
pub use mathlib.Core.Path.{◌≡◌, refl, sym, ap, ◌∙◌, subst}
pub use mathlib.Core.Logic.{◌≢◌, ◌↔◌, ◌⊎◌, inl, inr}
pub use mathlib.Core.Bool.{Bool, true, false, not, ◌&&◌, ◌||◌}
pub use mathlib.Core.Option.{Option, none, some}
pub use mathlib.Core.List.{List, [], ◌∷◌, ◌++◌, map, append-nil, append_assoc}
pub use native.Mathlib.Omega.{arith}
