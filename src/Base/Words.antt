-- ===== src/Base/Words.antt =====
-- `size_t` and `uintptr_t` as native numbers with the wrap of 64 bits written out.
use Prim.Native.Nat.{ℕ, ◌+◌, ◌-◌, ◌%◌, ◌^◌, ◌≤◌}
use mathlib.Core.Path.{◌≡◌}
use native.Mathlib.Omega.{arith}

-- `UINTPTR_MAX`, which is also `zoffset(UINTPTR_MAX)`, the offset that stands for "out of memory".
abbrev pub uintptr_max : ℕ
uintptr_max = 2 ^ 64 - 1

-- A value cut down to 64 bits.
abbrev pub low64 : ℕ → ℕ
low64 a = a % 2 ^ 64

unfoldable pub add64 : ℕ → ℕ → ℕ
add64 a b = low64 (a + b)

unfoldable pub sub64 : ℕ → ℕ → ℕ
sub64 a b = low64 (a + 2 ^ 64 - b)

-- Where the true result fits, the wrapped one is it.
pub add64_lem : (a b : ℕ) → a + b ≤ uintptr_max → add64 a b ≡ a + b
unfolding add64
add64_lem a b h = omega arith

pub sub64_lem : (a b : ℕ) → b ≤ a → a ≤ uintptr_max → sub64 a b ≡ a - b
unfolding sub64
sub64_lem a b h k = omega arith

pub ruleset words = (arith, add64_lem, sub64_lem)
