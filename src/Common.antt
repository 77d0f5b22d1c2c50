-- ===== src/Common.antt =====
-- The names that the other modules share: the libraries', passed on, tests on the native numbers,
-- lists measured by them, machine words and the integers of a `c_int`.
pub mod Lists
pub mod Words
pub mod Format
pub mod Loops
pub use Lists.*
pub use Words.*
pub use Loops.{loop_lem}
unfoldable pub use Format.{same, Text, codes, digit, decimal, hex4, decimal_ℤ}
pub use Prim.Native.Nat.{ℕ, zero, suc, ◌+◌, ◌-◌, ◌*◌, ◌/◌, ◌%◌, ◌^◌, ◌≤◌, ◌<◌, bit_and, bit_or}
pub use mathlib.Core.Path.{◌≡◌, refl, sym, ap, ◌∙◌, subst, fun_ext}
pub use mathlib.Core.Logic.{◌≢◌, ◌↔◌, ◌⊎◌, inl, inr}
pub use mathlib.Core.Bool.{Bool, true, false, not, ◌&&◌, ◌||◌}
pub use mathlib.Core.Option.{Option, none, some}
pub use mathlib.Core.List.{List, [], ◌∷◌, ◌++◌, map, append-nil, append_assoc}
pub use native.Mathlib.Omega.{arith}
