-- ===== src/PageFreeList.antt =====
-- The free list of a page, zPage.cpp: init_free_list, which frees the ranges between the live objects, and
-- alloc_object_free_list, which relocation calls. The page's allocator is the one that
-- AllocatorWrapper.cpp selects unless ZUseBuddyAllocator is set, JSMallocZ.
pub mod Gaps
pub mod Freed
pub mod Recycled
mod Tests
use zgc_primax.Base.{
  ℕ, zero, suc, ◌+◌, ◌-◌, Bool, true, false, leb, if◌then◌else◌, Option, none, some, List, [], ◌∷◌,
  add64, sub64,
}
use zgc_primax.JsMalloc.{Pool, align_up, align_down}
use zgc_primax.JsMalloc.Lists.{Block}
use zgc_primax.JsMalloc.Operations.{allocate, free_range, reset, initialize}

-- `object_alignment()` of a small page.
abbrev pub object_alignment : ℕ
object_alignment = 8

pub record Page : Type 0 where
  pub start : ℕ
  pub size : ℕ
  pub allocator : Option Pool
  pub failed_relocation_size : ℕ
  pub exhausted : Bool
  pub bytes_freed : ℕ
  pub bytes_used : ℕ

-- The allocator, and the bytes that were freed.
pub record Freeing : Type 0 where
  pub pool : Pool
  pub bytes : ℕ

unfoldable pub note_freed : ℕ → Freeing → Option Pool → Option Freeing
note_freed free_size s none = none
note_freed free_size s (some pool) = some (record { pool = pool; bytes = add64 s.bytes free_size })

-- A range is freed if it has the least size of a free block, ZMinFreeBlockSize.
unfoldable pub free_sized : ℕ → ℕ → ℕ → ℕ → Freeing → Option Freeing
free_sized rounds min_free_block_size curr free_size s =
    if leb min_free_block_size free_size
    then note_freed free_size s (free_range rounds (some curr) free_size s.pool)
    else some s

-- The range from `curr` to the next live object or the page's end.
unfoldable pub free_gap : ℕ → ℕ → ℕ → ℕ → Freeing → Option Freeing
free_gap rounds min_free_block_size curr to s =
    free_sized rounds min_free_block_size curr (align_down (sub64 to curr) object_alignment) s

unfoldable pub and_then : Option Freeing → (Freeing → Option Freeing) → Option Freeing
and_then none f = none
and_then (some s) f = f s

-- The iteration over the live objects, by address, and the final block.
unfoldable pub free_gaps : ℕ → ℕ → ℕ → List Block → ℕ → Freeing → Option Freeing
free_gaps rounds min_free_block_size curr [] end s = free_gap rounds min_free_block_size curr end s
free_gaps rounds min_free_block_size curr (object ∷ objects) end s =
    and_then (free_gap rounds min_free_block_size curr object.address s)
      (free_gaps rounds min_free_block_size (object.address + object.size) objects end)

-- A new allocator's fields, before initialize, over the words of the memory.
unfoldable pub new_pool : (ℕ → ℕ) → Pool
new_pool memory = record {
  block_start = 0;
  pool_size = 0;
  fl_bitmap = 0;
  blocks = λ i. 0;
  memory = memory;
  internal_fragmentation = 0;
  allocated = 0;
}

-- The allocator that init_free_list begins with: the whole page is taken as allocated.
unfoldable pub filled_pool : ℕ → (ℕ → ℕ) → ℕ → ℕ → Option Pool → Option Pool
filled_pool rounds memory start size none = initialize rounds start size true (new_pool memory)
filled_pool rounds memory start size (some pool) = reset rounds true pool

unfoldable pub finish : Page → Option Freeing → Option Page
finish p none = none
finish p (some s) = some (record p {
  allocator = some s.pool;
  failed_relocation_size = 0;
  exhausted = false;
  bytes_freed = s.bytes;
  bytes_used = 0;
})

unfoldable pub free_all : ℕ → ℕ → List Block → Page → Option Pool → Option Page
free_all rounds min_free_block_size objects p none = none
free_all rounds min_free_block_size objects p (some pool) = finish p (
    free_gaps rounds min_free_block_size p.start objects (p.start + p.size)
      (record { pool = pool; bytes = 0 }))

unfoldable pub init_free_list : ℕ → (ℕ → ℕ) → ℕ → List Block → Page → Option Page
init_free_list rounds memory min_free_block_size objects p =
    free_all rounds min_free_block_size objects p
      (filled_pool rounds memory p.start p.size p.allocator)

unfoldable pub note_allocation : ℕ → Page → Option (Pool × Option ℕ) → Option (Page × Option ℕ)
note_allocation aligned_size p none = none
note_allocation aligned_size p (some (pool, none)) = some (
  record p { allocator = some pool; exhausted = true; failed_relocation_size = aligned_size },
  none,
)
note_allocation aligned_size p (some (pool, some addr)) =
    some
      (record p { allocator = some pool; bytes_used = add64 p.bytes_used aligned_size }, some addr)

unfoldable pub allocate_in : ℕ → ℕ → Page → Option Pool → Option (Page × Option ℕ)
allocate_in rounds aligned_size p none = none
allocate_in rounds aligned_size p (some pool) =
    note_allocation aligned_size p (allocate rounds aligned_size pool)

-- A page with no allocator is not asked, which the code asserts: no result.
unfoldable pub alloc_object_free_list : ℕ → ℕ → Page → Option (Page × Option ℕ)
alloc_object_free_list rounds size p =
    allocate_in rounds (align_up size object_alignment) p p.allocator
