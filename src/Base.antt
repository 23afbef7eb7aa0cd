-- ===== src/Base.antt =====
-- The names that the modules of the library share: the libraries', passed on, the Boolean tests of
-- the C++ conditions, lists with native lengths and the machine words of the collector.
mod Tests
mod Lists
mod Words
mod Bits
pub mod BitSets
mod Integers
mod Threads
pub use Tests.*
pub use Lists.*
pub use Integers.*
pub use Threads.{
  Some, here, there, Some-le-total, IsAt-le-total, IsAt, step_in-IsAt, run_in-Inv, run_in-All,
}
unfoldable pub use Threads.{step_in, run_in}
unfoldable pub use Words.{add64, sub64, low64}
pub use Bits.{bit_or_above, bit_and_mask}
pub use Words.{uintptr_max, sub64_lem, add64_lem, words}
pub use Prim.Native.Nat.{
  bit_and, bit_or, bit_xor, ℕ, zero, suc, ◌+◌, ◌-◌, ◌*◌, ◌/◌, ◌%◌, ◌^◌, ◌≤◌, ◌<◌, min,
}
pub use mathlib.Core.Path.{◌≡◌, refl, sym, ap, ap₂, ◌∙◌, subst}
pub use mathlib.Core.Logic.{◌≢◌, ◌↔◌, ◌⊎◌, inl, inr}
pub use mathlib.Core.Bool.{Bool, true, false, not, ◌&&◌, ◌||◌}
pub use mathlib.Core.Option.{Option, none, some}
pub use mathlib.Core.List.{List, [], ◌∷◌, ◌++◌, map, append-nil, append_assoc}
pub use native.Mathlib.Omega.{arith}
unfoldable pub use native.Mathlib.Decide.{dec_lt, ℕ_discrete}
