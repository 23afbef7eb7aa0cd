-- ===== src/Forwarding/Entry.antt =====
-- An entry of a forwarding table, zForwardingEntry.hpp, in the fields of zBitField.hpp.
use zgc_primax.Base.{
  ℕ, ◌+◌, ◌-◌, ◌*◌, ◌/◌, ◌^◌, ◌<◌, ◌≡◌, refl, Bool, true, false, not, bit_and, bit_or, bit_or_above,
  bit_and_mask, low64, ◌==◌, arith, ap, ap₂, ◌∙◌,
}

-- A `ZBitField` whose container is uint64_t, and whose values are not shifted.
pub record BitField : Type 0 where
  pub field_shift : ℕ
  pub field_bits : ℕ

-- `encode`, of a value that has at most the bits of the field.
unfoldable pub encode : BitField → ℕ → ℕ
encode f value = low64 (value * 2 ^ f.field_shift)

-- `decode`
unfoldable pub decode : BitField → ℕ → ℕ
decode f container = bit_and (container / 2 ^ f.field_shift) (2 ^ f.field_bits - 1)

abbrev pub field_populated : BitField
field_populated = record { field_shift = 0; field_bits = 1 }

abbrev pub field_to_offset : BitField
field_to_offset = record { field_shift = 1; field_bits = 45 }

abbrev pub field_from_index : BitField
field_from_index = record { field_shift = 46; field_bits = 18 }

-- The constructor of `ZForwardingEntry`.
unfoldable pub new_entry : (from_index to_offset : ℕ) → ℕ
unfolding encode
new_entry from_index to_offset =
    bit_or (bit_or (encode field_populated 1) (encode field_to_offset to_offset))
      (encode field_from_index from_index)

unfoldable pub populated : ℕ → Bool
unfolding decode
populated entry = not (decode field_populated entry == 0)

unfoldable pub to_offset : ℕ → ℕ
unfolding decode
to_offset entry = decode field_to_offset entry

unfoldable pub from_index : ℕ → ℕ
unfolding decode
from_index entry = decode field_from_index entry

pub populated-zero : populated 0 ≡ false
unfolding populated decode
populated-zero = refl

-- The entry as a sum.
new_entry_sum :
    (from to : ℕ) → from < 2 ^ 18 → to < 2 ^ 45 → new_entry from to ≡ 1 + to * 2 + from * 2 ^ 46
unfolding new_entry encode
new_entry_sum from to from_fits to_fits =
    let low = bit_or_above 1 1 to (omega arith) in
    let high = bit_or_above 46 (1 + to * 2) from (omega arith) in
    let e : encode field_to_offset to ≡ to * 2 ^ 1 = omega arith in
    let f : encode field_from_index from ≡ from * 2 ^ 46 = omega arith in
    ap₂ (λ x y. bit_or (bit_or 1 x) y) e f ∙ ap (λ x. bit_or x (from * 2 ^ 46)) low ∙ high

-- The fields of a new entry are what it is made of, where the index has 18 bits and the offset 45: it
-- is populated, with that index and that offset.
pub new_entry_fields :
    (from to : ℕ)
    → from < 2 ^ 18
    → to < 2 ^ 45
    → let e = new_entry from to in (populated e ≡ true) × (from_index e ≡ from) × (to_offset e ≡ to)
unfolding populated to_offset from_index decode
new_entry_fields from to from_fits to_fits = rw (new_entry_sum from to from_fits to_fits) (
  ground (arith, bit_and_mask 1 (1 + to * 2 + from * 2 ^ 46)),
  bit_and_mask 18 ((1 + to * 2 + from * 2 ^ 46) / 2 ^ 46) ∙ omega arith,
  bit_and_mask 45 ((1 + to * 2 + from * 2 ^ 46) / 2 ^ 1) ∙ omega arith,
)
