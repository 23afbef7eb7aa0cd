-- ===== src/Base/Integers.antt =====
-- Signed integers, `negsuc n` is -(n + 1). The components that use them show that the machine's do not
-- overflow.
use Prim.Native.Nat.{ℕ, zero, suc}
use mathlib.Core.Bool.{Bool, true, false}
use zgc_primax.Base.Tests.{◌==◌}

pub data ℤ : Type 0 where
  pos : ℕ → ℤ
  negsuc : ℕ → ℤ

abbrev pub is_negative : ℤ → Bool
is_negative (pos n) = false
is_negative (negsuc n) = true

abbrev pub eq_ℤ : ℤ → ℤ → Bool
eq_ℤ (pos n) (pos k) = n == k
eq_ℤ (pos n) (negsuc k) = false
eq_ℤ (negsuc n) (pos k) = false
eq_ℤ (negsuc n) (negsuc k) = n == k

-- count + 1
abbrev pub increment : ℤ → ℤ
increment (pos n) = pos (suc n)
increment (negsuc zero) = pos zero
increment (negsuc (suc n)) = negsuc n

-- count - 1
abbrev pub decrement : ℤ → ℤ
decrement (pos zero) = negsuc zero
decrement (pos (suc n)) = pos n
decrement (negsuc n) = negsuc (suc n)
