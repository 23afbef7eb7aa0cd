-- ===== src/JsMalloc/Operations.antt =====
-- The operations of JSMallocZ on a page, JSMalloc.cpp: allocate, free, free_range, reset and
-- initialize. `none` as a whole result means that a loop has had more rounds than it was given.
use zgc_primax.Base.{
  ℕ, zero, suc, ◌+◌, Bool, true, false, not, ◌&&◌, leb, if◌then◌else◌, Option, none, some, add64,
  sub64,
}
use zgc_primax.JsMalloc.{
  Pool, write, size_word, get_size, is_free, is_last, mark_last, unmark_last, align_up, align_down,
  align_size, get_mapping, target_size, adjust_available_mapping, ptr_in_pool, insert_block,
  remove_block, mbs, alignment, num_lists,
}

-- The block is cut to that size, and the rest is a new block.
unfoldable pub split_block : ℕ → ℕ → Pool → Pool × ℕ
split_block blk size p =
    let word : ℕ = p.memory (size_word blk) in
    let remainder_size : ℕ = sub64 (get_size word) size in
    let remainder : ℕ = blk + get_size size in
    let shrunk : Pool = record p {
      memory = write (write p.memory (size_word blk) size) (size_word remainder) remainder_size;
    } in
    let marked : Pool = record p {
      memory =
          write (write shrunk.memory (size_word blk) (unmark_last size)) (size_word remainder)
            (mark_last remainder_size);
    } in
    ((if is_last word then marked else shrunk), remainder)

-- What a round of find_block's loop does with the result of remove_block.
unfoldable pub or_again :
    Pool × Option ℕ → (Pool → Option (Pool × Option ℕ)) → Option (Pool × Option ℕ)
or_again (p, some blk) again = some (p, some blk)
or_again (p, none) again = again p

-- The loop of find_block: until a class has none by the bitmap, or a block has been taken.
unfoldable pub take_suitable : ℕ → ℕ → Pool → Option (Pool × Option ℕ)
take_suitable zero mapping p = none
take_suitable (suc n) mapping p = elim (adjust_available_mapping mapping p) [
  | none ↦ some (p, none)
  | some adjusted ↦ or_again (remove_block adjusted p) (take_suitable n mapping)
]

-- The end of find_block, with the block that was taken.
unfoldable pub split_if_larger : ℕ → ℕ → ℕ → Pool → Option (Pool × Option ℕ)
split_if_larger rounds aligned_size blk p =
    if leb mbs (sub64 (get_size (p.memory (size_word blk))) aligned_size)
    then (let (q, remainder) = split_block blk aligned_size p in
        elim (insert_block rounds remainder q) [ none ↦ none | some r ↦ some (r, some blk) ])
    else some (p, some blk)

unfoldable pub split_taken : ℕ → ℕ → Option (Pool × Option ℕ) → Option (Pool × Option ℕ)
split_taken rounds aligned_size none = none
split_taken rounds aligned_size (some (p, none)) = some (p, none)
split_taken rounds aligned_size (some (p, some blk)) = split_if_larger rounds aligned_size blk p

unfoldable pub find_block : ℕ → ℕ → Pool → Option (Pool × Option ℕ)
find_block rounds size p =
    let aligned_size : ℕ = align_size size in
    split_taken rounds aligned_size
      (take_suitable rounds (get_mapping (target_size aligned_size)) p)

-- The two numbers of the statistics, which allocate keeps.
unfoldable pub count_allocated : ℕ → ℕ → Pool → Pool
unfolding get_size
count_allocated size blk p =
    let allocated_size : ℕ = get_size (p.memory (size_word blk)) in
    record p {
      internal_fragmentation = sub64 allocated_size size;
      allocated = add64 p.allocated allocated_size;
    }

unfoldable pub count_found : ℕ → Option (Pool × Option ℕ) → Option (Pool × Option ℕ)
count_found size none = none
count_found size (some (p, none)) = some (p, none)
count_found size (some (p, some blk)) = some (count_allocated size blk p, some blk)

unfoldable pub allocate : ℕ → ℕ → Pool → Option (Pool × Option ℕ)
allocate rounds size p = count_found size (find_block rounds size p)

unfoldable pub free : ℕ → Option ℕ → ℕ → Pool → Option Pool
free rounds none size p = some p
free rounds (some ptr) size p =
    if not (ptr_in_pool ptr p)
    then some p
    else insert_block rounds ptr (record p { memory = write p.memory (size_word ptr) size })

unfoldable pub free_range : ℕ → Option ℕ → ℕ → Pool → Option Pool
free_range rounds start_ptr size p = free rounds start_ptr size p

-- Every list is empty. The pool is one free block unless it is taken as allocated.
unfoldable pub reset : ℕ → Bool → Pool → Option Pool
reset rounds initial_block_allocated p =
    let emptied : Pool = record p {
      fl_bitmap = 0;
      blocks = λ i. if leb i num_lists then 0 else p.blocks i;
    } in
    if initial_block_allocated
    then some emptied
    else insert_block rounds p.block_start
        (record emptied { memory = write p.memory (size_word p.block_start) p.pool_size })

unfoldable pub initialize : ℕ → ℕ → ℕ → Bool → Pool → Option Pool
initialize rounds pool pool_size start_full p =
    let aligned_initial_block : ℕ = align_up pool alignment in
    let aligned_block_size : ℕ =
      align_down (sub64 pool_size (sub64 aligned_initial_block pool)) mbs in
    reset rounds start_full
      (record p { block_start = aligned_initial_block; pool_size = aligned_block_size })

-- Where the next block begins, if that is in the pool.
unfoldable pub get_next_phys_block : ℕ → Pool → Option ℕ
get_next_phys_block blk p =
    let next : ℕ = blk + get_size (p.memory (size_word blk)) in
    if ptr_in_pool next p then some next else none

-- remove_block as coalesce_blocks calls it: the block that is given is not looked at.
unfoldable pub remove_if_free : ℕ → ℕ → Pool → Pool
remove_if_free blk size p =
    if is_free (p.memory (size_word blk)) then (remove_block (get_mapping size) p).0 else p

unfoldable pub coalesce_blocks : ℕ → ℕ → Pool → Pool
coalesce_blocks blk1 blk2 p =
    let blk2_size : ℕ = get_size (p.memory (size_word blk2)) in
    let first_removed : Pool = remove_if_free blk1 (get_size (p.memory (size_word blk1))) p in
    let removed : Pool = remove_if_free blk2 blk2_size first_removed in
    let joined : ℕ = add64 (removed.memory (size_word blk1)) blk2_size in
    record removed {
      memory =
          write removed.memory (size_word blk1)
            (if is_last (removed.memory (size_word blk2)) then mark_last joined else joined);
    }

unfoldable pub both_free : ℕ → ℕ → Pool → Bool
both_free blk1 blk2 p = is_free (p.memory (size_word blk1)) && is_free (p.memory (size_word blk2))

-- The loop of aggregate from one block on, with at most that many steps.
unfoldable pub aggregate_from : ℕ → ℕ → Option ℕ → Pool → Option Pool
aggregate_from zero rounds current p = none
aggregate_from (suc steps) rounds none p = some p
aggregate_from (suc steps) rounds (some blk) p = elim (get_next_phys_block blk p) [
  | none ↦ some p
  | some next ↦
      let joined = insert_block rounds blk (coalesce_blocks blk next p) in
      elim (both_free blk next p) [
        | true ↦ elim joined [ none ↦ none | some q ↦ aggregate_from steps rounds (some blk) q ]
        | false ↦ aggregate_from steps rounds (some next) p
      ]
]

unfoldable pub aggregate : ℕ → ℕ → Pool → Option Pool
aggregate steps rounds p = aggregate_from steps rounds (some p.block_start) p
