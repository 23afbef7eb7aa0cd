-- ===== src/JsMalloc/Pointers.antt =====
-- Pointers as halves of a word, JSMallocUtil.inline.hpp: from_offset, set_offset and
-- calculate_offset.
use zgc_primax.Base.{
  ℕ, ◌+◌, ◌-◌, ◌*◌, ◌/◌, ◌%◌, ◌^◌, ◌≤◌, ◌<◌, ◌≡◌, refl, Bool, true, false, not, Option, none, some,
  bit_and_mask, sub64, arith,
}
use zgc_primax.JsMalloc.{no_offset, get_bits, from_offset, set_offset, calculate_offset}

-- A block that 32 bits of offset reach.
abbrev pub InReach : ℕ → Option ℕ → Type 0
InReach start none = Unit {0}
InReach start (some blk) = (start ≤ blk) × (blk < start + no_offset) × (blk < 2 ^ 64)

pub calculate_offset-le : (ptr : Option ℕ) (start : ℕ) → calculate_offset ptr start ≤ no_offset
unfolding calculate_offset
calculate_offset-le none start = omega arith
calculate_offset-le (some blk) start = omega arith

pub calculate_offset_lem :
    (blk start : ℕ) → InReach start (some blk) → calculate_offset (some blk) start ≡ blk - start
unfolding calculate_offset sub64
calculate_offset_lem blk start h = omega arith

pub get_bits_lem :
    (value : ℕ) → (get_bits value true ≡ value % 2 ^ 32) × (get_bits value false ≡ value / 2 ^ 32)
unfolding get_bits
get_bits_lem value = (bit_and_mask 32 value, refl)

get_bits-set_offset :
    (lower : Bool) (offset value : ℕ)
    → offset ≤ no_offset
    → (get_bits (set_offset lower offset value) lower ≡ offset)
      × (get_bits (set_offset lower offset value) (not lower) ≡ get_bits value (not lower))
unfolding set_offset
get_bits-set_offset true offset value h =
    let w : ℕ = value / 2 ^ 32 * 2 ^ 32 + offset in
    (omega (arith, (get_bits_lem w).0), omega (arith, (get_bits_lem w).1, (get_bits_lem value).1))
get_bits-set_offset false offset value h =
    let w : ℕ = offset * 2 ^ 32 + value % 2 ^ 32 in
    (omega (arith, (get_bits_lem w).1), omega (arith, (get_bits_lem w).0, (get_bits_lem value).0))

from_offset_of :
    (start : ℕ) (lower : Bool) (value : ℕ) (ptr : Option ℕ)
    → InReach start ptr
    → get_bits value lower ≡ calculate_offset ptr start
    → from_offset start lower value ≡ ptr
unfolding from_offset calculate_offset sub64
from_offset_of start lower value none h e = ground arith
from_offset_of start lower value (some blk) h e =
    let sum : get_bits value lower ≡ blk - start =
      omega (arith, e, calculate_offset_lem blk start h) in
    ground (arith, sum, h)

-- A pointer that is null, or that 32 bits of offset reach, is read back from either half of the
-- word that `set_offset` has stored it in, and the other half of the word stays.
pub from_offset-set_offset :
    (start : ℕ) (lower : Bool) (value : ℕ) (ptr : Option ℕ)
    → InReach start ptr
    → (from_offset start lower (set_offset lower (calculate_offset ptr start) value) ≡ ptr)
      × (get_bits (set_offset lower (calculate_offset ptr start) value) (not lower)
          ≡ get_bits value (not lower))
from_offset-set_offset start lower value ptr h =
    let b =
      get_bits-set_offset lower (calculate_offset ptr start) value
        (calculate_offset-le ptr start) in
    (from_offset_of start lower _ ptr h b.0, b.1)

-- The offset that is stored is the one that was read.
pub calculate_offset-from_offset :
    (start value : ℕ)
    → value / 2 ^ 32 ≤ no_offset
    → (value / 2 ^ 32 < no_offset → start + value / 2 ^ 32 < 2 ^ 64)
    → calculate_offset (from_offset start false value) start ≡ value / 2 ^ 32
unfolding from_offset calculate_offset sub64 get_bits
calculate_offset-from_offset start value h k = ground (arith, k)
