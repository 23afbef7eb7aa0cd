-- ===== src/PageCache/Flush/Tests.antt =====
-- Flushing a cache with two nodes, small pages of 2 and medium pages of 8.
use zgc_primax.Base.{◌≡◌, refl, some, [], ◌∷◌, arith}
use zgc_primax.PageCache.{small, medium, large, Page, Cache, Platform, free_page}
use zgc_primax.PageCache.Search.{IsWf}
use zgc_primax.PageCache.Flush.{
  do_page, remove_last, flush_list_inner, flush_list, flush_per_numa_lists, reinsert, flush,
  flush_for_allocation, flush_for_uncommit,
}
use zgc_primax.PageCache.Flush.Outcome.{
  AllocationOutcome, UncommitOutcome, flush_for_allocation-AllocationOutcome,
  flush_for_uncommit-UncommitOutcome,
}

abbrev platform : Platform
platform = record { size_small = 2; size_medium = 8; memory_id = λ start. 0; current_id = 0 }

abbrev a : Page
a = record { start = 0; size = 2; type = small; last_used = 5 }

abbrev b : Page
b = record { start = 2; size = 2; type = small; last_used = 1 }

abbrev c : Page
c = record { start = 10; size = 8; type = medium; last_used = 1 }

abbrev d : Page
d = record { start = 20; size = 12; type = large; last_used = 1 }

abbrev cache : Cache
cache = record {
  small_pages = (a ∷ []) ∷ (b ∷ []) ∷ [];
  medium_pages = c ∷ [];
  large_pages = d ∷ [];
  last_commit = 0;
}

cache-IsWf : IsWf platform cache
cache-IsWf = record {
  smalls = ground arith;
  mediums = ground arith;
  larges = ground arith;
  nodes = λ start. omega arith;
}

-- The medium page is flushed for its last 3 bytes, and its first 5 go back.
too_much :
    flush_for_allocation platform 15 cache []
    ≡ some (
      record cache {
        medium_pages = [];
        large_pages = record { start = 10; size = 5; type = large; last_used = 0 } ∷ [];
      },
      d ∷ record { start = 15; size = 3; type = large; last_used = 0 } ∷ [],
      record { requested = 15; flushed = 15; timeout = 0 },
    )
unfolding flush_for_allocation flush flush_list flush_list_inner flush_per_numa_lists reinsert
    remove_last do_page free_page
too_much = refl

-- One small page is too young.
uncommit_all :
    flush_for_uncommit platform 7 5 100 cache []
    ≡ some (
      record {
        small_pages = (a ∷ []) ∷ [] ∷ [];
        medium_pages = [];
        large_pages = [];
        last_commit = 0;
      },
      d ∷ c ∷ b ∷ [],
      record { requested = 100; flushed = 22; timeout = 3 },
    )
unfolding flush_for_uncommit flush flush_list flush_list_inner flush_per_numa_lists reinsert
    remove_last do_page
uncommit_all = refl

flush_for_allocation-AllocationOutcome_example :
    AllocationOutcome platform 15 cache (flush_for_allocation platform 15 cache [])
flush_for_allocation-AllocationOutcome_example =
    flush_for_allocation-AllocationOutcome platform 15 cache cache-IsWf

flush_for_uncommit-UncommitOutcome_example :
    UncommitOutcome platform 100 cache (flush_for_uncommit platform 7 5 100 cache [])
flush_for_uncommit-UncommitOutcome_example =
    flush_for_uncommit-UncommitOutcome platform 7 5 100 cache cache-IsWf
