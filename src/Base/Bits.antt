-- ===== src/Base/Bits.antt =====
-- Bit operations of the C++ code as arithmetic: `|` of fields that do not meet, and `&` with a mask.
use Prim.Native.Nat.{
  ℕ, zero, suc, ◌+◌, ◌-◌, ◌*◌, ◌/◌, ◌%◌, ◌^◌, ◌≤◌, ◌<◌, min, max, digits, bitwise, bit_and, bit_or,
  bit_and-bitwise, bit_or-bitwise,
}
use mathlib.Core.Path.{◌≡◌, refl, ap, ◌∙◌, sym}
use native.Mathlib.Omega.{arith}
use native.Mathlib.Nat.{
  pow-suc, one-le-pow, mod-lt, mod-eq_of_lt, mod-add-div', mul-add-mod_self_right, mul_assoc,
}

module _ (z : ℕ → ℕ) (f : ℕ → ℕ → ℕ) where
  -- More rounds than digits change nothing.
  surplus : (bound n a b : ℕ) → a ≤ bound → a ≤ n → digits z f n a b ≡ bitwise z f a b
  surplus bound zero zero b le enough = refl
  surplus bound (suc n) zero b le enough = refl
  surplus bound zero (suc a) b le enough = absurd (omega arith)
  surplus zero (suc n) (suc a) b le enough = absurd (omega arith)
  surplus (suc bound) (suc n) (suc a) b le enough =
      ap (λ d. d * 2 + f (suc a % 2) (b % 2))
        (surplus bound n (suc a / 2) (b / 2) (omega arith) (omega arith)
          ∙ sym (surplus bound a (suc a / 2) (b / 2) (omega arith) (omega arith)))

  lowest_digit :
      (a b : ℕ)
      → bitwise z f (suc a) b ≡ bitwise z f (suc a / 2) (b / 2) * 2 + f (suc a % 2) (b % 2)
  lowest_digit a b =
      ap (λ d. d * 2 + f (suc a % 2) (b % 2))
        (surplus a a (suc a / 2) (b / 2) (omega arith) (omega arith))

pub or_lowest : (a b : ℕ) → bit_or a b ≡ bit_or (a / 2) (b / 2) * 2 + max (a % 2) (b % 2)
or_lowest zero b = simp bit_or-bitwise (omega arith)
or_lowest (suc a) b = simp bit_or-bitwise (lowest_digit (λ y. y) max a b)

pub and_lowest : (a b : ℕ) → bit_and a b ≡ bit_and (a / 2) (b / 2) * 2 + min (a % 2) (b % 2)
and_lowest zero b = simp bit_and-bitwise (omega arith)
and_lowest (suc a) b = simp bit_and-bitwise (lowest_digit (λ y. 0) min a b)

twice_power : (q k : ℕ) → q * 2 ^ suc k ≡ q * 2 ^ k * 2
twice_power q k = omega (arith, ap (λ (t : ℕ). q * t) (pow-suc 2 k))

-- `|` of a field of `k` bits and one above it.
pub bit_or_above : (k r q : ℕ) → r < 2 ^ k → bit_or r (q * 2 ^ k) ≡ r + q * 2 ^ k
bit_or_above zero zero q fits = simp bit_or-bitwise (omega arith)
bit_or_above zero (suc r) q fits = absurd (omega arith)
bit_or_above (suc k) r q fits = ground (
  arith,
  or_lowest r (q * 2 ^ suc k),
  twice_power q k,
  pow-suc 2 k,
  bit_or_above k (r / 2) q (omega (arith, pow-suc 2 k)),
)

nothing_and : (bound a : ℕ) → a ≤ bound → bit_and a 0 ≡ 0
nothing_and bound zero le = simp bit_and-bitwise refl
nothing_and zero (suc a) le = absurd (omega arith)
nothing_and (suc bound) (suc a) le =
    omega (arith, and_lowest (suc a) 0, nothing_and bound (suc a / 2) (omega arith))

double : (q n : ℕ) → q * (n * 2) ≡ q * n * 2
double q n = sym (mul_assoc q n 2)

-- `&` with a mask of `k` ones.
pub bit_and_mask : (k a : ℕ) → bit_and a (2 ^ k - 1) ≡ a % 2 ^ k
bit_and_mask zero a = ground (arith, nothing_and a a (omega arith))
bit_and_mask (suc k) a =
    let n : ℕ = 2 ^ k in
    let q : ℕ = a / 2 / n in
    let low : ℕ = (a / 2) % n * 2 + a % 2 in
    let one : 1 ≤ n = one-le-pow k 2 (omega arith) in
    let lt : low < n * 2 = omega (arith, mod-lt (a / 2) {m = n} one) in
    let whole : q * (n * 2) + low ≡ a = omega (arith, mod-add-div' (a / 2) n, double q n) in
    let remainder : a % (n * 2) ≡ low =
      ap (λ x. x % (n * 2)) (sym whole) ∙ mul-add-mod_self_right q (n * 2) low ∙ mod-eq_of_lt lt in
    let mask : 2 ^ suc k ≡ n * 2 = omega (arith, pow-suc 2 k) in
    rw mask (ground (arith, and_lowest a (n * 2 - 1), bit_and_mask k (a / 2), remainder))
