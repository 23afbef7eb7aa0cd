-- ===== src/PageCache/Tests.antt =====
-- A page cache with two nodes, small pages of 2 and medium pages of 8.
use zgc_primax.Base.{ℕ, ◌≡◌, refl, some, [], ◌∷◌, ◌==◌, if◌then◌else◌, arith}
use zgc_primax.PageCache.{
  PageType, small, medium, large, Page, Cache, Platform, free_page, alloc_page, alloc_exact,
  alloc_oversized_page, use_oversized, alloc_small_page, alloc_small_remote, remove_first_of,
  alloc_large_page, alloc_oversized_large_page,
}
use zgc_primax.PageCache.Search.{IsWf}
use zgc_primax.PageCache.Alloc.{Outcome, alloc_page-Outcome}

abbrev platform : Platform
platform = record {
  size_small = 2;
  size_medium = 8;
  memory_id = λ start. if start == 0 then 0 else 1;
  current_id = 0;
}

abbrev page : ℕ → ℕ → PageType → Page
page start size type = record { start = start; size = size; type = type; last_used = 0 }

-- The only small page belongs to the other node.
abbrev cache : Cache
cache = record {
  small_pages = [] ∷ (page 4 2 small ∷ []) ∷ [];
  medium_pages = page 10 8 medium ∷ [];
  large_pages = page 20 12 large ∷ [];
  last_commit = 0;
}

from_remote :
    alloc_page platform small 2 cache
    ≡ some (some (page 4 2 small), record cache { small_pages = [] ∷ [] ∷ [] })
unfolding alloc_page alloc_exact alloc_small_page alloc_small_remote remove_first_of
from_remote = refl

-- A large page of 4 is split off the one of 12, and the rest is of medium size.
from_oversized :
    alloc_page platform large 4 cache
    ≡ some (
      some (page 20 4 large),
      record cache { medium_pages = page 24 8 medium ∷ page 10 8 medium ∷ []; large_pages = [] },
    )
unfolding alloc_page alloc_exact alloc_oversized_page use_oversized free_page alloc_large_page
    alloc_oversized_large_page
from_oversized = refl

cache-IsWf : IsWf platform cache
cache-IsWf = record {
  smalls = ground arith;
  mediums = ground arith;
  larges = ground arith;
  nodes = λ start. ground arith;
}

alloc_page-Outcome_example : Outcome platform large 4 cache (alloc_page platform large 4 cache)
alloc_page-Outcome_example = alloc_page-Outcome platform large 4 cache tt cache-IsWf
