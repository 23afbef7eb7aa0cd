-- ===== src/JsMalloc/Tests.antt =====
-- Runs of JSMallocZ on a page, and the theorems about it at such inputs.
use zgc_primax.Base.{
  ℕ, ◌+◌, ◌*◌, ◌%◌, ◌^◌, inl, All, Some, here, ◌≤◌, ◌<◌, ◌≡◌, refl, ap, sym, subst, true, false,
  Option, none, some, List, [], ◌∷◌, add64, sub64, arith,
}
use zgc_primax.Base.BitSets.{ffs}
use zgc_primax.JsMalloc.{
  Pool, Loaded, write, get_bits, from_offset, set_offset, calculate_offset, get_size, is_free,
  is_last, mark_last, unmark_last, mark_free, align_down, align_up, align_size, ilog2, get_mapping,
  target_size, adjust_available_mapping, blk_get_next, blk_set_next, ptr_in_pool, exchange_head,
  set_bit, clear_bit, link_to, inserted_head, insert_rounds, insert_block, next_of, load_head,
  removed_head, clear_if_last, take_loaded, remove_block,
}
use zgc_primax.JsMalloc.Operations.{
  split_block, or_again, take_suitable, split_if_larger, split_taken, find_block, count_allocated,
  count_found, allocate, free, free_range, reset, initialize,
}
use zgc_primax.JsMalloc.Lists.{Block, Apart, Holds, first, of_class}
use zgc_primax.JsMalloc.Insert.{InsertedAs}
use zgc_primax.JsMalloc.Insert.Keeps.{insert_block-Holds}
use zgc_primax.JsMalloc.Remove.{RemovedAs}
use zgc_primax.JsMalloc.Remove.Keeps.{remove_block-Holds}
use zgc_primax.JsMalloc.Classes.{get_mapping-target_size}
use zgc_primax.JsMalloc.Free.{
  CanFree, sized, sized-Holds, sized-CanInsert, initialize_aligned, free-Holds,
}
use zgc_primax.JsMalloc.Allocate.Safe.{range, allocate_safe, allocate_null, allocate_succeeds}
use zgc_primax.JsMalloc.Race.{given_twice}

abbrev blank : Pool
blank = record {
  block_start = 0;
  pool_size = 0;
  fl_bitmap = 0;
  blocks = λ i. 0;
  memory = λ i. 0;
  internal_fragmentation = 0;
  allocated = 0;
}

abbrev or_blank : Option Pool → Pool
or_blank none = blank
or_blank (some p) = p

abbrev whole_page : Option Pool
whole_page = initialize 1 4096 4096 false blank

abbrev page : Pool
page = or_blank whole_page

abbrev pool_of : Option (Pool × Option ℕ) → Pool
pool_of none = blank
pool_of (some r) = r.0

abbrev pointer_of : Option (Pool × Option ℕ) → Option ℕ
pointer_of none = none
pointer_of (some r) = r.1

-- The whole page as one free block, and a page without one.
abbrev whole_block : Block
whole_block = record { address = 4096; size = 4096 }

holds_of :
    (r : Option Pool) (free : List Block) (q : Pool)
    → r ≡ some q
    → Holds q free
    → Holds (or_blank r) free
holds_of r free q e h = subst (λ m. Holds m free) (sym (ap or_blank e)) h

page-Holds : Holds page (whole_block ∷ [])
page-Holds =
    let (q, e, h, start, size) =
      initialize_aligned 0 false 4096 4096 blank refl refl (omega arith) (omega arith)
        (omega arith) in
    holds_of whole_page (whole_block ∷ []) q e h

abbrev full : Pool
full = or_blank (initialize 1 4096 4096 true blank)

full-Holds : Holds full []
full-Holds =
    let (q, e, h, start, size) =
      initialize_aligned 0 true 4096 4096 blank refl refl (omega arith) (omega arith)
        (omega arith) in
    holds_of (initialize 1 4096 4096 true blank) [] q e h

abbrev y : Block
y = record { address = 4224; size = 64 }

abbrev x : Block
x = record { address = 4096; size = 64 }

y-CanFree : CanFree full [] y
unfolding initialize reset align_up align_down add64 sub64
y-CanFree = record {
  least = omega arith;
  unflagged = refl;
  starts = omega arith;
  ends = omega arith;
  apart = tt;
  room = omega arith;
}

insert_block-Holds_example :
    (q : Pool) × (insert_block 1 4224 (sized full-Holds y-CanFree) ≡ some q)
    × InsertedAs (get_mapping 64) 4224 (sized full-Holds y-CanFree) q
    × Holds q (y ∷ [])
insert_block-Holds_example =
    insert_block-Holds 0 (sized full-Holds y-CanFree) [] y (sized-Holds full-Holds y-CanFree)
      (sized-CanInsert full-Holds y-CanFree)

whole_class : get_mapping 4096 ≡ 32
unfolding get_mapping ilog2 add64 sub64
whole_class = refl

remove_block-Holds_example :
    (q : Pool) × (remove_block 32 page ≡ (q, some 4096))
    × RemovedAs 32 (page.memory 4104 % 2 ^ 32) false page q
    × Holds q []
unfolding of_class
remove_block-Holds_example =
    remove_block-Holds page (whole_block ∷ []) [] whole_block 32 page-Holds (omega arith)
      (first [] whole_class)

get_mapping-target_size_example :
    (get_mapping (target_size 112) ≤ get_mapping 144 → 112 ≤ 144)
    × (target_size 112 ≤ 144 → get_mapping (target_size 112) ≤ get_mapping 144)
    × (target_size 112 < 224)
get_mapping-target_size_example =
    get_mapping-target_size 112 144 (omega arith) (omega arith) (omega arith) (omega arith)

-- A run of the allocator: the first bytes of the page are given out.
allocate_run : allocate 1 100 page ≡ some (pool_of (allocate 1 100 page), some 4096)
unfolding allocate find_block take_suitable or_again split_taken split_if_larger split_block
    count_found count_allocated free_range free reset initialize insert_block insert_rounds link_to
    inserted_head exchange_head set_bit clear_bit remove_block load_head next_of removed_head
    clear_if_last take_loaded adjust_available_mapping blk_get_next blk_set_next from_offset
    get_bits set_offset calculate_offset write get_size is_free is_last mark_free mark_last
    unmark_last align_up align_down align_size target_size get_mapping ilog2 ptr_in_pool ffs add64
    sub64
allocate_run = refl

allocate_null_run : allocate 1 8000 page ≡ some (pool_of (allocate 1 8000 page), none)
unfolding allocate find_block take_suitable or_again split_taken split_if_larger split_block
    count_found count_allocated free_range free reset initialize insert_block insert_rounds link_to
    inserted_head exchange_head set_bit clear_bit remove_block load_head next_of removed_head
    clear_if_last take_loaded adjust_available_mapping blk_get_next blk_set_next from_offset
    get_bits set_offset calculate_offset write get_size is_free is_last mark_free mark_last
    unmark_last align_up align_down align_size target_size get_mapping ilog2 ptr_in_pool ffs add64
    sub64
allocate_null_run = refl

allocate_safe_example :
    (left : List Block) × Holds (pool_of (allocate 1 100 page)) left
    × ((pool_of (allocate 1 100 page)).block_start ≡ page.block_start)
    × ((pool_of (allocate 1 100 page)).pool_size ≡ page.pool_size)
    × (page.block_start ≤ 4096)
    × (4096 + align_size 100 ≤ page.block_start + page.pool_size)
    × All (Apart (range 4096 100)) left
    × ((r : Block)
        → All (Apart r) (whole_block ∷ [])
        → Apart r (range 4096 100)
          × All (Apart r) left
          × ((word : ℕ)
              → r.address ≤ word
              → word < r.address + r.size
              → (pool_of (allocate 1 100 page)).memory word ≡ page.memory word))
allocate_safe_example =
    allocate_safe 0 page (pool_of (allocate 1 100 page)) (whole_block ∷ []) 100 4096 page-Holds
      (omega arith) allocate_run

allocate_null_example :
    (pool_of (allocate 1 8000 page) ≡ page)
    × ((b : Block) → Some b (whole_block ∷ []) → b.size < 2 * align_size 8000)
allocate_null_example =
    allocate_null 0 page (pool_of (allocate 1 8000 page)) (whole_block ∷ []) 8000 page-Holds
      (omega arith) allocate_null_run

fits_twice : 2 * align_size 100 ≤ 4096
unfolding align_size align_up align_down add64
fits_twice = omega arith

allocate_succeeds_example : (q : Pool) × (blk : ℕ) × (allocate 1 100 page ≡ some (q, some blk))
allocate_succeeds_example =
    allocate_succeeds 0 page (whole_block ∷ []) 100 whole_block page-Holds (omega arith) (here [])
      fits_twice

-- Two blocks of one class, of which x was freed last.
abbrev with_y : Option Pool
with_y = free_range 1 (some 4224) 64 full

y-Holds : Holds (or_blank with_y) (y ∷ [])
y-Holds =
    let (q, e, h, start, size, kept) = free-Holds full-Holds y-CanFree 0 in
    holds_of with_y (y ∷ []) q e h

x-CanFree : CanFree (or_blank with_y) (y ∷ []) x
unfolding allocate find_block take_suitable or_again split_taken split_if_larger split_block
    count_found count_allocated free_range free reset initialize insert_block insert_rounds link_to
    inserted_head exchange_head set_bit clear_bit remove_block load_head next_of removed_head
    clear_if_last take_loaded adjust_available_mapping blk_get_next blk_set_next from_offset
    get_bits set_offset calculate_offset write get_size is_free is_last mark_free mark_last
    unmark_last align_up align_down align_size target_size get_mapping ilog2 ptr_in_pool ffs add64
    sub64
x-CanFree = record {
  least = omega arith;
  unflagged = refl;
  starts = omega arith;
  ends = omega arith;
  apart = (inl (omega arith), tt);
  room = omega arith;
}

abbrev with_both : Option Pool
with_both = free_range 1 (some 4096) 64 (or_blank with_y)

both-Holds : Holds (or_blank with_both) (x ∷ y ∷ [])
both-Holds =
    let (q, e, h, start, size, kept) = free-Holds y-Holds x-CanFree 0 in
    holds_of with_both (x ∷ y ∷ []) q e h

small_class : get_mapping 64 ≡ 8
unfolding get_mapping ilog2 add64 sub64
small_class = refl

fresh_version : (or_blank with_both).blocks 8 % 2 ^ 32 ≡ 1
unfolding allocate find_block take_suitable or_again split_taken split_if_larger split_block
    count_found count_allocated free_range free reset initialize insert_block insert_rounds link_to
    inserted_head exchange_head set_bit clear_bit remove_block load_head next_of removed_head
    clear_if_last take_loaded adjust_available_mapping blk_get_next blk_set_next from_offset
    get_bits set_offset calculate_offset write get_size is_free is_last mark_free mark_last
    unmark_last align_up align_down align_size target_size get_mapping ilog2 ptr_in_pool ffs add64
    sub64
fresh_version = refl

given_twice_example :
    (l : Loaded) × (p1 : Pool) × (p2 : Pool) × (p3 : Pool) × (p4 : Pool) × (p5 : Pool) × (load_head
        8
        (or_blank with_both)
      ≡ some l)
    × (remove_block 8 (or_blank with_both) ≡ (p1, some 4096))
    × (remove_block 8 p1 ≡ (p2, some 4224))
    × (free 1 (some 4096) 64 p2 ≡ some p3)
    × (take_loaded 8 l p3 ≡ (p4, some 4096))
    × (remove_block 8 p4 ≡ (p5, some 4224))
given_twice_example = given_twice 0 both-Holds small_class small_class fresh_version
