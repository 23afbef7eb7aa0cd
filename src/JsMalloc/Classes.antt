-- ===== src/JsMalloc/Classes.antt =====
-- Size classes of JSMallocZ: get_mapping and find_block's target size. Each power of two is cut into
-- four classes.
use zgc_primax.Base.{
  ℕ, zero, suc, ◌+◌, ◌-◌, ◌*◌, ◌/◌, ◌%◌, ◌^◌, ◌≤◌, ◌<◌, ◌≡◌, refl, ap, ltb, if_cases, bit_xor,
  add64, sub64, min, arith, ◌⊎◌, inl, inr, ℕ_discrete, dec_lt,
}
use zgc_primax.Base.BitSets.{pow_mono}
use native.Mathlib.Nat.{le_trans, pow-suc, one-le-pow, mod-lt, mod-add-div'}
use zgc_primax.JsMalloc.{ilog2, get_mapping, target_size, num_lists}

pub ilog2_lem :
    (n w : ℕ) → 0 < w → w < 2 ^ n → (ilog2 n w < n) × (2 ^ ilog2 n w ≤ w) × (w < 2 * 2 ^ ilog2 n w)
unfolding ilog2
ilog2_lem zero w p h = absurd (omega arith)
ilog2_lem (suc n) w p h =
    if_cases (λ k. (k < suc n) × (2 ^ k ≤ w) × (w < 2 * 2 ^ k)) (ltb w 2) (λ small. ground arith)
      (λ large.
        let k = ilog2_lem n (w / 2) (ground arith) (omega (arith, pow-suc 2 n)) in
        (
          omega (arith, k.0),
          omega (arith, k.1, pow-suc 2 (ilog2 n (w / 2))),
          omega (arith, k.2, pow-suc 2 (ilog2 n (w / 2))),
        ))

-- The least size of a class.
abbrev pub class_floor : ℕ → ℕ
class_floor c = (4 + c % 4) * 2 ^ (c / 4 + 2)

class_floor-suc : (c : ℕ) → class_floor c ≤ class_floor (suc c)
class_floor-suc c =
    let p : ℕ = 2 ^ (c / 4 + 2) in
    let twice : 2 ^ (c / 4 + 1 + 2) ≡ 2 * p =
      omega (arith, pow-suc 2 (c / 4 + 2), ap (λ (t : ℕ). 2 ^ t) (three (c / 4))) in
    elim (lt_three_cases (c % 4) (omega arith)) [
      | inl low ↦
          let r : suc c % 4 ≡ c % 4 + 1 = omega arith in
          let k : suc c / 4 ≡ c / 4 = omega arith in rw (r, k) (more (c % 4) p)
      | inr top ↦
          let r : suc c % 4 ≡ 0 = omega arith in
          let k : suc c / 4 ≡ c / 4 + 1 = omega arith in rw (r, k, twice, top) (omega arith)
    ]
  where
    three : (k : ℕ) → k + 1 + 2 ≡ suc (k + 2)
    three k = omega arith

    lt_three_cases : (r : ℕ) → r < 4 → (r < 3) ⊎ (r ≡ 3)
    lt_three_cases r h = ground arith

    more : (r p : ℕ) → (4 + r) * p ≤ (4 + (r + 1)) * p
    more r p = grind arith

pub class_floor_mono : (c d : ℕ) → c ≤ d → class_floor c ≤ class_floor d
class_floor_mono c zero h = let e : c ≡ 0 = omega arith in rw e (omega arith)
class_floor_mono c (suc d) h = elim (ℕ_discrete c (suc d)) [
  | yes e ↦ rw e (omega arith)
  | no ne ↦ le_trans (class_floor_mono c d (ground arith)) (class_floor-suc d)
]

-- Flipping the third bit of a number from 4 to 7 takes it off.
flip : (r : ℕ) → r < 4 → bit_xor (4 + r) 4 ≡ r
flip zero h = refl
flip (suc zero) h = refl
flip (suc (suc zero)) h = refl
flip (suc (suc (suc zero))) h = refl
flip (suc (suc (suc (suc r)))) h = absurd (omega arith)

-- A size as a quarter of its power of two, times how often that fits.
record Split (s : ℕ) : Type 0 where
  e : ℕ
  r : ℕ
  fits : r < 4
  few : e < 60
  above : (4 + r) * 2 ^ (e + 2) ≤ s
  below : s < (4 + r + 1) * 2 ^ (e + 2)
  power : ilog2 64 s ≡ e + 4
  mapping : get_mapping s ≡ min 56 (e * 4 + r)

four_times : (e : ℕ) → 2 ^ (e + 4) ≡ 4 * 2 ^ (e + 2)
four_times e =
    let four : e + 4 ≡ suc (suc (e + 2)) = omega arith in
    rw four (omega (arith, pow-suc 2 (suc (e + 2)), pow-suc 2 (e + 2)))

one_more : (r g : ℕ) → (4 + r + 1) * g ≡ (4 + r) * g + g
one_more r g = grind arith

times_mono : (a b g : ℕ) → a ≤ b → a * g ≤ b * g
times_mono a b g h = grind arith

quotient : (q r g s : ℕ) → q * g + r ≡ s → r < g → 4 * g ≤ s → s < 8 * g → (4 ≤ q) × (q < 8)
quotient q r g s whole rest low high = elim (dec_lt q 4) [
  | yes lt ↦ absurd (omega (arith, times_mono q 3 g (omega arith)))
  | no ge ↦ elim (dec_lt q 8) [
    | yes lt ↦ (ground arith, lt)
    | no over ↦ absurd (omega (arith, times_mono 8 q g (ground arith)))
  ]
]

mapping_of :
    (s e r : ℕ)
    → ilog2 64 s ≡ e + 4
    → r < 4
    → e < 60
    → 4 + r ≡ s / 2 ^ (e + 2)
    → get_mapping s ≡ min 56 (e * 4 + r)
unfolding get_mapping add64 sub64
mapping_of s e r eq lt few back =
    let two : e + 4 - 2 ≡ e + 2 = omega arith in rw (eq, two, ← back, flip r lt) (ground arith)

module _ (s : ℕ) (h : 16 ≤ s) (k : s < 2 ^ 64) where
  four_le : 4 ≤ ilog2 64 s
  four_le =
      let l = ilog2_lem 64 s (omega arith) k in
      elim (dec_lt (ilog2 64 s) 4) [
        | yes lt ↦ absurd (omega (arith, l.2, pow_mono (ilog2 64 s) 3 (omega arith)))
        | no ge ↦ ground arith
      ]

  quarters : (e : ℕ) → ilog2 64 s ≡ e + 4 → (4 * 2 ^ (e + 2) ≤ s) × (s < 8 * 2 ^ (e + 2))
  quarters e eq =
      let l = ilog2_lem 64 s (omega arith) k in
      let p : 2 ^ ilog2 64 s ≡ 4 * 2 ^ (e + 2) = rw eq (four_times e) in
      (omega (arith, p, l.1), omega (arith, p, l.2))

  split : Split s
  split =
      let l = ilog2_lem 64 s (omega arith) k in
      let e : ℕ = ilog2 64 s - 4 in
      let eq : ilog2 64 s ≡ e + 4 = omega (arith, four_le) in
      let g : ℕ = 2 ^ (e + 2) in
      let one : 1 ≤ g = one-le-pow (e + 2) 2 (omega arith) in
      let w = quarters e eq in
      let whole : s / g * g + s % g ≡ s = omega (arith, mod-add-div' s g) in
      let rest : s % g < g = mod-lt s {m = g} one in
      let q = quotient (s / g) (s % g) g s whole rest w.0 w.1 in
      let r : ℕ = s / g - 4 in
      let back : 4 + r ≡ s / g = omega (arith, q.0) in
      record {
        e = e;
        r = r;
        fits = omega (arith, q.1);
        few = omega (arith, l.0, eq);
        above = rw back (omega (arith, whole));
        below = rw back (grind (arith, whole, rest));
        power = eq;
        mapping = mapping_of s e r eq (omega (arith, q.1)) (omega (arith, l.0, eq)) back;
      }

class_floor_at : (e r : ℕ) → r < 4 → class_floor (e * 4 + r) ≡ (4 + r) * 2 ^ (e + 2)
class_floor_at e r h =
    let low : (e * 4 + r) % 4 ≡ r = omega arith in
    let high : (e * 4 + r) / 4 ≡ e = omega arith in rw (low, high) refl

class_floor_next : (e r : ℕ) → r < 4 → class_floor (suc (e * 4 + r)) ≡ (4 + r + 1) * 2 ^ (e + 2)
class_floor_next e r h = elim (dec_lt r 3) [
  | yes lt ↦
      let low : suc (e * 4 + r) % 4 ≡ r + 1 = omega arith in
      let high : suc (e * 4 + r) / 4 ≡ e = omega arith in
      rw (low, high) (ap (λ (t : ℕ). t * 2 ^ (e + 2)) (omega arith))
  | no ge ↦
      let top : r ≡ 3 = ground arith in
      let low : suc (e * 4 + r) % 4 ≡ 0 = omega arith in
      let high : suc (e * 4 + r) / 4 ≡ e + 1 = omega arith in
      let three : e + 1 + 2 ≡ suc (e + 2) = omega arith in
      rw (low, high, three, top) (omega (arith, pow-suc 2 (e + 2)))
]

pub get_mapping-le : (s : ℕ) → get_mapping s ≤ num_lists
unfolding get_mapping
get_mapping-le s = ground arith

-- A size is at least the least of its class.
pub class_floor-get_mapping-le : (s : ℕ) → 16 ≤ s → s < 2 ^ 64 → class_floor (get_mapping s) ≤ s
class_floor-get_mapping-le s h k =
    let p = split s h k in
    rw (p.mapping) (
      le_trans (class_floor_mono (min 56 (p.e * 4 + p.r)) (p.e * 4 + p.r) (ground arith))
        (rw (class_floor_at p.e p.r p.fits) p.above))

-- And below the next, unless the class is the last.
pub lt-class_floor-get_mapping :
    (s : ℕ)
    → 16 ≤ s
    → s < 2 ^ 64
    → get_mapping s < num_lists
    → s < class_floor (suc (get_mapping s))
lt-class_floor-get_mapping s h k inner =
    let p = split s h k in
    let e : get_mapping s ≡ p.e * 4 + p.r = ground (arith, p.mapping) in
    rw (e, class_floor_next p.e p.r p.fits) p.below

pub get_mapping_mono : (s t : ℕ) → 16 ≤ s → s ≤ t → t < 2 ^ 64 → get_mapping s ≤ get_mapping t
get_mapping_mono s t h le k = elim (dec_lt (get_mapping t) (get_mapping s)) [
  | no ge ↦ ground arith
  | yes lt ↦ absurd (
      omega (
        arith,
        lt-class_floor-get_mapping t (omega arith) k (omega (arith, get_mapping-le s)),
        class_floor_mono (suc (get_mapping t)) (get_mapping s) (omega arith),
        class_floor-get_mapping-le s h (omega arith),
      ))
]

module _ (a : ℕ) (h : 16 ≤ a) (k : a ≤ 2 ^ 18) where
  quarter : (p : Split a) → 2 ^ (ilog2 64 a - 2) ≡ 2 ^ (p.e + 2)
  quarter p = let two : p.e + 4 - 2 ≡ p.e + 2 = omega arith in rw (p.power, two) refl

  small_quarter : (p : Split a) → 4 * 2 ^ (p.e + 2) ≤ a
  small_quarter p = le_trans (times_mono 4 (4 + p.r) (2 ^ (p.e + 2)) (omega arith)) p.above

  target_size_lem : (p : Split a) → target_size a + 1 ≡ a + 2 ^ (p.e + 2)
  unfolding target_size add64 sub64
  target_size_lem p =
      let one : 1 ≤ 2 ^ (p.e + 2) = one-le-pow (p.e + 2) 2 (omega arith) in
      rw (quarter p) (omega (arith, small_quarter p))

  pub target_size_bounds : (a ≤ target_size a) × (target_size a < 2 * a)
  target_size_bounds =
      let p = split a h (omega arith) in
      let one : 1 ≤ 2 ^ (p.e + 2) = one-le-pow (p.e + 2) 2 (omega arith) in
      (omega (arith, target_size_lem p, one), omega (arith, target_size_lem p, small_quarter p))

  below_floor : (p : Split a) (q : Split (target_size a)) → a ≤ (4 + q.r) * 2 ^ (q.e + 2)
  below_floor p q = elim (dec_lt q.e p.e) [
    | yes lt ↦ absurd (
        omega (
          arith,
          small_quarter p,
          target_size_bounds,
          q.below,
          times_mono (4 + q.r + 1) 8 (2 ^ (q.e + 2)) (omega (arith, q.fits)),
          pow_mono (suc (q.e + 2)) (p.e + 2) (omega arith),
          pow-suc 2 (q.e + 2),
        ))
    | no ge ↦ elim (dec_lt p.e q.e) [
      | yes lt ↦ omega (
        arith,
        p.below,
        times_mono (4 + p.r + 1) 8 (2 ^ (p.e + 2)) (omega (arith, p.fits)),
        pow_mono (suc (p.e + 2)) (q.e + 2) (omega arith),
        pow-suc 2 (p.e + 2),
        times_mono 4 (4 + q.r) (2 ^ (q.e + 2)) (omega arith),
      )
      | no le ↦
          let same : p.e ≡ q.e = ground arith in
          let g : ℕ = 2 ^ (q.e + 2) in
          let sum : target_size a + 1 ≡ a + g = rw (← same) (target_size_lem p) in
          omega (arith, sum, q.below, one_more q.r g)
    ]
  ]

  -- The class of the target starts at the request or above it.
  pub le-class_floor-target_size : a ≤ class_floor (get_mapping (target_size a))
  le-class_floor-target_size =
      let b = target_size_bounds in
      let p = split a h (omega arith) in
      let q = split (target_size a) (omega arith) (omega arith) in
      elim (dec_lt (q.e * 4 + q.r) 56) [
        | yes lt ↦
            let m : get_mapping (target_size a) ≡ q.e * 4 + q.r = ground (arith, q.mapping) in
            rw (m, class_floor_at q.e q.r q.fits) (below_floor p q)
        | no ge ↦ let m : get_mapping (target_size a) ≡ 56 = ground (arith, q.mapping) in rw m k
      ]

  -- A block fits the request if its class is at least the target's.
  pub le_of_get_mapping :
      (s : ℕ) → 16 ≤ s → s < 2 ^ 64 → get_mapping (target_size a) ≤ get_mapping s → a ≤ s
  le_of_get_mapping s low high le = le_trans le-class_floor-target_size (
      le_trans (class_floor_mono (get_mapping (target_size a)) (get_mapping s) le)
        (class_floor-get_mapping-le s low high))

-- For a request of 16 to 2^18 bytes, a block of 16 to 2^64 - 1 bytes holds it if the class of the
-- block is at least that of the target size. A block that has the target size is in such a class,
-- and the target size is less than twice the request.
pub get_mapping-target_size :
    (a s : ℕ)
    → 16 ≤ a
    → a ≤ 2 ^ 18
    → 16 ≤ s
    → s < 2 ^ 64
    → (get_mapping (target_size a) ≤ get_mapping s → a ≤ s)
      × (target_size a ≤ s → get_mapping (target_size a) ≤ get_mapping s)
      × (target_size a < 2 * a)
get_mapping-target_size a s h k low high =
    let bounds = target_size_bounds a h k in
    (
      le_of_get_mapping a h k s low high,
      λ le. get_mapping_mono (target_size a) s (omega (arith, bounds.0)) le high,
      bounds.1,
    )
