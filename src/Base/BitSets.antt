-- ===== src/Base/BitSets.antt =====
-- A word as a set of bits: what `|`, `&`, `ffs` and a shifted mask do to each bit.
use Prim.Native.Nat.{ℕ, zero, suc, ◌-◌, ◌/◌, ◌%◌, ◌^◌, ◌≤◌, ◌<◌, bit_and, bit_or, bit_and-bitwise}
use mathlib.Core.Path.{◌≡◌, refl, ap, ◌∙◌}
use mathlib.Core.Bool.{Bool, true, false, not, ◌&&◌, ◌||◌}
use native.Mathlib.Omega.{arith}
use native.Mathlib.Nat.{pow-suc, one-le-pow}
use zgc_primax.Base.Tests.{if_cases, ◌==◌, leb, if◌then◌else◌}
use zgc_primax.Base.Bits.{or_lowest, and_lowest}

-- The bit with that number.
unfoldable pub bit : ℕ → ℕ → Bool
bit zero w = w % 2 == 1
bit (suc i) w = bit i (w / 2)

-- `__builtin_ffsl(w) - 1`, the number of the lowest bit, in a word of at most `n` bits.
unfoldable pub ffs : ℕ → ℕ → ℕ
ffs zero w = 0
ffs (suc n) w = if w % 2 == 1 then 0 else suc (ffs n (w / 2))

pub bit-or : (i a b : ℕ) → bit i (bit_or a b) ≡ bit i a || bit i b
unfolding bit
bit-or zero a b = ground (arith, or_lowest a b)
bit-or (suc i) a b =
    let half : bit_or a b / 2 ≡ bit_or (a / 2) (b / 2) = omega (arith, or_lowest a b) in
    rw half (bit-or i (a / 2) (b / 2))

pub bit-and : (i a b : ℕ) → bit i (bit_and a b) ≡ bit i a && bit i b
unfolding bit
bit-and zero a b = ground (arith, and_lowest a b)
bit-and (suc i) a b =
    let half : bit_and a b / 2 ≡ bit_and (a / 2) (b / 2) = omega (arith, and_lowest a b) in
    rw half (bit-and i (a / 2) (b / 2))

pub bit_zero : (i : ℕ) → bit i 0 ≡ false
unfolding bit
bit_zero zero = refl
bit_zero (suc i) = bit_zero i

-- `1UL << j`.
pub bit_one : (i j : ℕ) → bit i (2 ^ j) ≡ (i == j)
unfolding bit
bit_one zero zero = refl
bit_one zero (suc j) = ground (arith, pow-suc 2 j)
bit_one (suc i) zero = bit_zero i ∙ ground arith
bit_one (suc i) (suc j) =
    let half : 2 ^ suc j / 2 ≡ 2 ^ j = omega (arith, pow-suc 2 j) in
    rw half (bit_one i j ∙ ground arith)

pub pow_mono : (j n : ℕ) → j ≤ n → 2 ^ j ≤ 2 ^ n
pow_mono zero n h = one-le-pow n 2 (omega arith)
pow_mono (suc j) zero h = absurd (omega arith)
pow_mono (suc j) (suc n) h = omega (arith, pow-suc 2 j, pow-suc 2 n, pow_mono j n (omega arith))

-- All `n` bits.
bit_ones : (n i : ℕ) → i < n → bit i (2 ^ n - 1) ≡ true
unfolding bit
bit_ones zero i h = absurd (omega arith)
bit_ones (suc n) zero h = ground (arith, pow-suc 2 n, one-le-pow n 2 (omega arith))
bit_ones (suc n) (suc i) h =
    let half : (2 ^ suc n - 1) / 2 ≡ 2 ^ n - 1 = omega (arith, pow-suc 2 n) in
    rw half (bit_ones n i (omega arith))

-- `~(1UL << j)` in `n` bits.
pub bit_but_one : (n i j : ℕ) → i < n → j < n → bit i (2 ^ n - 1 - 2 ^ j) ≡ not (i == j)
unfolding bit
bit_but_one zero i j hi hj = absurd (omega arith)
bit_but_one (suc n) zero zero hi hj =
    let even : (2 ^ suc n - 1 - 2 ^ 0) % 2 ≡ 0 =
      omega (arith, pow-suc 2 n, one-le-pow n 2 (omega arith)) in
    rw even refl
bit_but_one (suc n) zero (suc j) hi hj =
    let room : 2 ^ suc j ≤ 2 ^ n = pow_mono (suc j) n (omega arith) in
    let odd : (2 ^ suc n - 1 - 2 ^ suc j) % 2 ≡ 1 =
      omega (arith, pow-suc 2 n, pow-suc 2 j, one-le-pow n 2 (omega arith)) in
    let below : false ≡ (0 == suc j) = ground arith in rw odd (ap not below)
bit_but_one (suc n) (suc i) zero hi hj =
    let half : (2 ^ suc n - 1 - 2 ^ 0) / 2 ≡ 2 ^ n - 1 =
      omega (arith, pow-suc 2 n, one-le-pow n 2 (omega arith)) in
    let above : false ≡ (suc i == 0) = ground arith in
    rw half (bit_ones n i (omega arith) ∙ ap not above)
bit_but_one (suc n) (suc i) (suc j) hi hj =
    let half : (2 ^ suc n - 1 - 2 ^ suc j) / 2 ≡ 2 ^ n - 1 - 2 ^ j =
      omega (arith, pow-suc 2 n, pow-suc 2 j) in
    rw half (bit_but_one n i j (omega arith) (omega arith) ∙ ap not (ground arith))

-- `~0UL << j` in `n` bits.
pub bit_from : (n i j : ℕ) → i < n → bit i (2 ^ n - 2 ^ j) ≡ leb j i
unfolding bit
bit_from zero i j h = absurd (omega arith)
bit_from (suc n) i zero h = bit_ones (suc n) i h ∙ ground arith
bit_from (suc n) zero (suc j) h =
    let even : (2 ^ suc n - 2 ^ suc j) % 2 ≡ 0 = omega (arith, pow-suc 2 n, pow-suc 2 j) in
    rw even (ground arith)
bit_from (suc n) (suc i) (suc j) h =
    let half : (2 ^ suc n - 2 ^ suc j) / 2 ≡ 2 ^ n - 2 ^ j =
      omega (arith, pow-suc 2 n, pow-suc 2 j) in
    rw half (bit_from n i j (omega arith) ∙ ground arith)

-- `ffs` is the number of a bit that is set, and no lower one is.
pub ffs_lem : (n w : ℕ) → 0 < w → w < 2 ^ n → (ffs n w < n) × (bit (ffs n w) w ≡ true)
unfolding ffs bit
ffs_lem zero w p h = absurd (omega arith)
ffs_lem (suc n) w p h =
    if_cases (λ k. (k < suc n) × (bit k w ≡ true)) (w % 2 == 1) (λ odd. (omega arith, odd))
      (λ even.
        let k = ffs_lem n (w / 2) (ground arith) (omega (arith, pow-suc 2 n)) in
        (omega (arith, k.0), k.1))

-- A word with no bit is zero.
pub zero_of_bits : (n w : ℕ) → w < 2 ^ n → ((i : ℕ) → i < n → bit i w ≡ false) → w ≡ 0
unfolding bit
zero_of_bits zero w h k = omega arith
zero_of_bits (suc n) w h k =
    let rest : w / 2 ≡ 0 =
      zero_of_bits n (w / 2) (omega (arith, pow-suc 2 n)) (λ i lt. k (suc i) (omega arith)) in
    ground (arith, k 0 (omega arith), rest)

pub bit_or_fits : (n a b : ℕ) → a < 2 ^ n → b < 2 ^ n → bit_or a b < 2 ^ n
bit_or_fits zero a b h k =
    let a0 : a ≡ 0 = omega arith in let b0 : b ≡ 0 = omega arith in rw (a0, b0) (omega arith)
bit_or_fits (suc n) a b h k = omega (
  arith,
  pow-suc 2 n,
  or_lowest a b,
  bit_or_fits n (a / 2) (b / 2) (omega (arith, pow-suc 2 n)) (omega (arith, pow-suc 2 n)),
)

pub bit_and_fits : (n a b : ℕ) → a < 2 ^ n → bit_and a b < 2 ^ n
bit_and_fits zero a b h = let a0 : a ≡ 0 = omega arith in rw (a0) (omega (arith, none_and b))
  where
    none_and : (b : ℕ) → bit_and 0 b ≡ 0
    none_and b = simp bit_and-bitwise refl
bit_and_fits (suc n) a b h = omega (
  arith,
  pow-suc 2 n,
  and_lowest a b,
  bit_and_fits n (a / 2) (b / 2) (omega (arith, pow-suc 2 n)),
)
