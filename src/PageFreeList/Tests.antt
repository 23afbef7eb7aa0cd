-- ===== src/PageFreeList/Tests.antt =====
-- A page with two live objects, and the theorems about it.
use zgc_primax.Base.{
  ◌+◌, ◌*◌, ◌≤◌, ◌≡◌, refl, false, none, some, List, [], ◌∷◌, All, length, total, arith,
}
use zgc_primax.JsMalloc.{Pool}
use zgc_primax.JsMalloc.Lists.{Block, AllApart, Holds}
use zgc_primax.PageFreeList.{Page, init_free_list}
use zgc_primax.PageFreeList.Gaps.{gaps_from, with_gap}
use zgc_primax.PageFreeList.Freed.{IsPage, init_free_list-gaps}
use zgc_primax.PageFreeList.Recycled.{alloc_all, InPage, recycled_apart}

abbrev page : Page
page = record {
  start = 4096;
  size = 4096;
  allocator = none;
  failed_relocation_size = 0;
  exhausted = false;
  bytes_freed = 0;
  bytes_used = 0;
}

abbrev objects : List Block
objects = record { address = 4096; size = 40 } ∷ record { address = 4200; size = 1000 } ∷ []

page-IsPage : IsPage page
page-IsPage = record {
  aligned = refl;
  whole_blocks = refl;
  least = omega arith;
  small = omega arith;
  fits = omega arith;
  own = tt;
}

gaps_run :
    gaps_from 16 4096 objects 8192 []
    ≡ record { address = 5200; size = 2992 } ∷ record { address = 4136; size = 64 } ∷ []
unfolding gaps_from with_gap
gaps_run = refl

init_free_list-gaps_example :
    (p' : Page) × (pool : Pool) × (init_free_list 1 (λ i. 0) 16 objects page ≡ some p')
    × (p'.allocator ≡ some pool)
    × Holds pool (gaps_from 16 4096 objects 8192 [])
    × (pool.block_start ≡ 4096)
    × (pool.pool_size ≡ 4096)
    × (p'.bytes_freed ≡ total (λ b. b.size) (gaps_from 16 4096 objects 8192 []))
    × (p'.bytes_used ≡ 0)
    × (p'.exhausted ≡ false)
    × (p'.start ≡ 4096)
    × (p'.size ≡ 4096)
    × (4096 ≤ p'.bytes_freed + total (λ o. o.size) objects + (length objects + 1) * (16 + 7))
init_free_list-gaps_example =
    init_free_list-gaps 0 (λ i. 0) page page-IsPage 16 (omega arith) objects (omega arith)

recycled_apart_example :
    (fresh : Page) × (p' : Page) × (used : List Block) × (init_free_list 1 (λ i. 0) 16 objects page
      ≡ some fresh)
    × (alloc_all 1 (24 ∷ 100 ∷ 5000 ∷ []) objects fresh ≡ some (p', used))
    × AllApart used
    × All (InPage page) used
recycled_apart_example =
    recycled_apart 0 16 (λ i. 0) page objects (24 ∷ 100 ∷ 5000 ∷ []) page-IsPage (omega arith)
      (omega arith) (omega arith)
