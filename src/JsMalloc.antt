-- ===== src/JsMalloc.antt =====
-- The allocator of blocks inside a page, JSMalloc.cpp, JSMalloc.hpp and JSMallocUtil.inline.hpp, as
-- the collector configures it (JSMallocZ, ZOptimizedConfig): blocks without headers, one stack of
-- free blocks for each size class, a word of bits for the classes that have a free block. The words
-- at a free block's address hold its size and its link. A null pointer is `none` and a null head is
-- 0. What is done by one atomic operation is a function of its own.
use zgc_primax.Base.{
  ℕ, zero, suc, ◌+◌, ◌-◌, ◌*◌, ◌/◌, ◌%◌, ◌^◌, Bool, true, false, not, ◌&&◌, ◌==◌, ltb, leb,
  if◌then◌else◌, Option, none, some, bit_and, bit_or, bit_xor, add64, sub64, low64,
}
use zgc_primax.Base.BitSets.{ffs}
pub mod Allocate
pub mod Classes
pub mod Free
pub mod Insert
pub mod Lists
pub mod Operations
pub mod Pointers
pub mod Race
mod Tests
pub mod Remove

-- `std::numeric_limits<uint32_t>::max()`, the offset of no block.
abbrev pub no_offset : ℕ
no_offset = 2 ^ 32 - 1

-- `_num_lists`, 14 times 4, which is also the number of the list of large blocks.
abbrev pub num_lists : ℕ
num_lists = 56

-- `_mbs`.
abbrev pub mbs : ℕ
mbs = 16

-- `_alignment`.
abbrev pub alignment : ℕ
alignment = 8

pub record Pool : Type 0 where
  pub block_start : ℕ
  pub pool_size : ℕ
  pub fl_bitmap : ℕ
  pub blocks : ℕ → ℕ
  pub memory : ℕ → ℕ
  pub internal_fragmentation : ℕ
  pub allocated : ℕ

-- A store of one word.
unfoldable pub write : (ℕ → ℕ) → ℕ → ℕ → ℕ → ℕ
write words place value other = if place == other then value else words other

-- The words of a block at that address, of its size and of its link.
abbrev pub size_word : ℕ → ℕ
size_word blk = blk

abbrev pub link_word : ℕ → ℕ
link_word blk = blk + 8

unfoldable pub get_bits : ℕ → Bool → ℕ
get_bits value lower = if lower then bit_and value (2 ^ 32 - 1) else value / 2 ^ 32

unfoldable pub from_offset : ℕ → Bool → ℕ → Option ℕ
unfolding get_bits
from_offset base lower value =
    if get_bits value lower == no_offset then none else some (base + get_bits value lower)

-- `|` of a half that is kept and a half that is cleared.
unfoldable pub set_offset : Bool → ℕ → ℕ → ℕ
set_offset lower offset value =
    if lower then value / 2 ^ 32 * 2 ^ 32 + offset else offset * 2 ^ 32 + value % 2 ^ 32

unfoldable pub calculate_offset : Option ℕ → ℕ → ℕ
calculate_offset none start = no_offset
calculate_offset (some blk) start = sub64 blk start % 2 ^ 32

-- The two lowest bits of the word of the size are flags.
unfoldable pub get_size : ℕ → ℕ
get_size word = word - word % 4

unfoldable pub is_free : ℕ → Bool
is_free word = word % 2 == 1

unfoldable pub is_last : ℕ → Bool
is_last word = word / 2 % 2 == 1

unfoldable pub mark_free : ℕ → ℕ
mark_free word = if is_free word then word else word + 1

unfoldable pub mark_last : ℕ → ℕ
mark_last word = if is_last word then word else word + 2

unfoldable pub unmark_last : ℕ → ℕ
unmark_last word = if is_last word then word - 2 else word

unfoldable pub align_down : ℕ → ℕ → ℕ
align_down size to = size - size % to

unfoldable pub align_up : ℕ → ℕ → ℕ
align_up size to = align_down (add64 size (to - 1)) to

unfoldable pub align_size : ℕ → ℕ
unfolding align_up align_down
align_size size = align_up (if size == 0 then 1 else size) mbs

-- The number of the highest bit, of a word of at most `n` bits.
unfoldable pub ilog2 : ℕ → ℕ → ℕ
ilog2 zero number = 0
ilog2 (suc n) number = if ltb number 2 then 0 else suc (ilog2 n (number / 2))

-- The size class of a block, which is the number of its list.
unfoldable pub get_mapping : ℕ → ℕ
get_mapping size =
    let fl : ℕ = ilog2 64 size in
    let sl : ℕ = bit_xor (size / 2 ^ (fl - 2)) 4 in
    let mapping : ℕ = add64 (low64 (sub64 fl 4 * 4)) sl in
    if ltb num_lists mapping then num_lists else mapping

-- The size whose class has no block that is too small.
unfoldable pub target_size : ℕ → ℕ
target_size aligned_size = sub64 (add64 aligned_size (2 ^ (ilog2 64 aligned_size - 2))) 1

-- The first class from that one on that has a free block by the bitmap.
unfoldable pub adjust_available_mapping : ℕ → Pool → Option ℕ
adjust_available_mapping mapping p =
    let above : ℕ = bit_and p.fl_bitmap (2 ^ 64 - 2 ^ mapping) in
    if ltb num_lists mapping then none else if above == 0 then none else some (ffs 64 above)

unfoldable pub blk_get_next : ℕ → Pool → Option ℕ
unfolding from_offset
blk_get_next blk p = from_offset p.block_start true (p.memory (link_word blk))

unfoldable pub blk_set_next : ℕ → Option ℕ → Pool → Pool
unfolding set_offset write
blk_set_next blk next p = record p {
  memory =
      write p.memory (link_word blk)
        (set_offset true (calculate_offset next p.block_start) (p.memory (link_word blk)));
}

unfoldable pub ptr_in_pool : ℕ → Pool → Bool
ptr_in_pool ptr p = leb p.block_start ptr && ltb ptr (p.block_start + p.pool_size)

-- `compare_exchange_strong` on the head of a list, where `none` is a failure.
unfoldable pub exchange_head : ℕ → ℕ → ℕ → Pool → Option Pool
unfolding write
exchange_head mapping head new_head p =
    if p.blocks mapping == head
    then some (record p { blocks = write p.blocks mapping new_head })
    else none

-- `_fl_bitmap.fetch_or`, and `_fl_bitmap.fetch_and` of the complement.
unfoldable pub set_bit : ℕ → Pool → Pool
set_bit mapping p = record p { fl_bitmap = bit_or p.fl_bitmap (2 ^ mapping) }

unfoldable pub clear_bit : ℕ → Pool → Pool
clear_bit mapping p = record p { fl_bitmap = bit_and p.fl_bitmap (2 ^ 64 - 1 - 2 ^ mapping) }

-- The rest of insert_block's loop, once it has read the head: the block is linked to the head's block.
unfoldable pub link_to : ℕ → ℕ → Pool → Pool
unfolding blk_set_next from_offset
link_to blk head p =
    let offset : ℕ = if head == 0 then 2 ^ 64 - 1 else head in
    blk_set_next blk (from_offset p.block_start false offset) p

-- The new head, whose version starts at 1.
unfoldable pub inserted_head : ℕ → Pool → ℕ
unfolding set_offset
inserted_head blk p = set_offset false (calculate_offset (some blk) p.block_start) 1

-- The loop with at most that many rounds, and `none` beyond them.
unfoldable pub insert_rounds : ℕ → ℕ → ℕ → Pool → Option Pool
insert_rounds zero blk mapping p = none
insert_rounds (suc n) blk mapping p =
    let head : ℕ = p.blocks mapping in
    let linked : Pool = link_to blk head p in
    let again = insert_rounds n blk mapping linked in
    elim (exchange_head mapping head (inserted_head blk p) linked) [
      | some p' ↦ some (set_bit mapping p')
      | none ↦ again
    ]

unfoldable pub insert_block : ℕ → ℕ → Pool → Option Pool
insert_block rounds blk p =
    let word : ℕ = p.memory (size_word blk) in
    insert_rounds rounds blk (get_mapping (get_size word))
      (record p { memory = write p.memory (size_word blk) (mark_free word) })

-- What remove_block has read before it takes the head off.
pub record Loaded : Type 0 where
  pub head : ℕ
  pub actual_head : Option ℕ
  pub next_blk : Option ℕ

unfoldable pub next_of : Option ℕ → Pool → Option ℕ
next_of none p = none
next_of (some blk) p = blk_get_next blk p

unfoldable pub load_head : ℕ → Pool → Option Loaded
load_head mapping p =
    let head : ℕ = p.blocks mapping in
    let actual_head = from_offset p.block_start false head in
    if head == 0
    then none
    else some (record { head = head; actual_head = actual_head; next_blk = next_of actual_head p })

-- The head that takes its place, with the next version, which has 32 bits.
unfoldable pub removed_head : Loaded → Pool → ℕ
unfolding set_offset
removed_head l p =
    set_offset false (calculate_offset l.next_blk p.block_start)
      ((get_bits l.head true + 1) % 2 ^ 32)

unfoldable pub clear_if_last : ℕ → Option ℕ → Pool → Pool
unfolding clear_bit
clear_if_last mapping none p = clear_bit mapping p
clear_if_last mapping (some next) p = p

unfoldable pub take_loaded : ℕ → Loaded → Pool → Pool × Option ℕ
take_loaded mapping l p = elim (exchange_head mapping l.head (removed_head l p) p) [
  | none ↦ (p, none)
  | some p' ↦ (clear_if_last mapping l.next_blk p', l.actual_head)
]

unfoldable pub remove_block : ℕ → Pool → Pool × Option ℕ
remove_block mapping p = elim (load_head mapping p) [
  | none ↦ (p, none)
  | some l ↦ take_loaded mapping l p
]
