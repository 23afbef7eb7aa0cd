-- ===== src/PageAllocator/Tests.antt =====
-- An allocator of 20 with one node, small pages of 2 and medium pages of 8.
use zgc_primax.Base.{ℕ, ◌≡◌, refl, true, false, some, List, [], ◌∷◌, arith}
use zgc_primax.PageCache.{PageType, small, medium, large, Page, Platform}
use zgc_primax.PageAllocator.{young, Allocation, Allocator, create}
use zgc_primax.PageAllocator.Accounts.{CommonOutcome, alloc_page_common-CommonOutcome}
use zgc_primax.PageAllocator.Grants.{SatisfyOutcome}
use zgc_primax.PageAllocator.Returns.{IsSound, failed_base, free_pages_alloc_failed-SatisfyOutcome}
use zgc_primax.PageAllocator.Uncommits.{UncommitsSome, uncommit-UncommitsSome}
use zgc_primax.PageAllocator.Stalls.{StallOutcome, handle_alloc_stalling_for_old-StallOutcome}
use zgc_primax.PageAllocator.World.{
  Action, allocates, finalizes, frees, uncommits_some, ends_uncommit, run,
}
use zgc_primax.PageAllocator.Safety.{run-SafeSome}
use zgc_primax.PageAllocator.Start.{start, start-IsSafe}
use zgc_primax.PageAllocator.Safe.{SafeSome}
use zgc_primax.PageAllocator.Balance.{IsBalanced}
use zgc_primax.PageAllocator.Stalls.{
  notify_out_of_memory, restart_gc, handle_alloc_stalling_for_old, minor,
}
use zgc_primax.PageAllocator.Sections.{alloc_page_common, free_pages_alloc_failed, uncommit_flush}

abbrev platform : Platform
platform = record { size_small = 2; size_medium = 8; memory_id = λ start. 0; current_id = 0 }

abbrev request : PageType → ℕ → Allocation
request type size = record {
  type = type;
  size = size;
  non_blocking = false;
  young_seqnum = 1;
  old_seqnum = 1;
  pages = [];
}

abbrev small_page : Page
small_page = record { start = 0; size = 2; type = small; last_used = 0 }

-- The large request waits until the medium page is freed.
abbrev actions : List Action
actions =
    allocates 1 (request medium 8)
    ∷ finalizes 0 1 50 0 (some 0) 100 young
    ∷ allocates 2 (request large 16)
    ∷ frees 0 3
    ∷ finalizes 0 4 50 0 (some 8) 5 young
    ∷ uncommits_some 400 1 2
    ∷ ends_uncommit
    ∷ []

run-SafeSome_example : SafeSome platform (run platform actions (start platform 1 4 20))
run-SafeSome_example =
    run-SafeSome platform actions (start platform 1 4 20)
      ((refl, refl), (tt, ((tt, refl), (tt, (tt, (tt, (tt, tt)))))))
      (start-IsSafe platform 1 4 20 (λ start. omega arith) (omega arith))

abbrev created : Allocator
created = create 1 4 20

created-IsBalanced : IsBalanced platform created
created-IsBalanced = (start-IsSafe platform 1 4 20 (λ start. omega arith) (omega arith)).balanced

-- Two bytes are used by a young page and 8 by a request that has a page of 2.
abbrev busy : Allocator
busy = record created { capacity = 10; used = 10; used_young = 2 }

busy-IsSound : IsSound platform busy
unfolding create
busy-IsSound = record {
  balanced = record {
    wf = created-IsBalanced.wf;
    balance = refl;
    le_current = omega arith;
    le_max = omega arith;
    word = omega arith;
  };
  queue = tt;
  generations = omega arith;
}

alloc_page_common-CommonOutcome_example :
    CommonOutcome platform
      (request small 2)
      created
      (alloc_page_common platform 1 (request small 2) created)
alloc_page_common-CommonOutcome_example =
    alloc_page_common-CommonOutcome platform 1 (request small 2) created refl refl
      created-IsBalanced

abbrev half_done : Allocation
half_done = record (request medium 8) { pages = small_page ∷ [] }

free_pages_alloc_failed-SatisfyOutcome_example :
    SatisfyOutcome platform busy.stalled
      (failed_base platform half_done busy)
      (free_pages_alloc_failed platform 1 half_done busy)
free_pages_alloc_failed-SatisfyOutcome_example =
    free_pages_alloc_failed-SatisfyOutcome platform 1 half_done busy busy-IsSound (refl, tt)
      (omega arith) (omega arith)

uncommit-UncommitsSome_example : UncommitsSome platform busy (uncommit_flush platform 400 1 2 busy)
unfolding create
uncommit-UncommitsSome_example =
    uncommit-UncommitsSome platform 400 1 2 busy busy-IsSound.balanced (omega arith)

-- The first request fails, the second was enqueued after collection 2 has started.
abbrev queue : List Allocation
queue = request large 16 ∷ record (request small 2) { young_seqnum = 5; old_seqnum = 2 } ∷ []

handle_alloc_stalling_for_old-StallOutcome_example :
    StallOutcome true 5 2 queue (handle_alloc_stalling_for_old true 5 2 queue)
handle_alloc_stalling_for_old-StallOutcome_example =
    handle_alloc_stalling_for_old-StallOutcome true 5 2 queue

second_waits : handle_alloc_stalling_for_old true 5 2 queue ≡ (
  request large 16 ∷ [],
  record (request small 2) { young_seqnum = 5; old_seqnum = 2 } ∷ [],
  minor,
)
unfolding handle_alloc_stalling_for_old notify_out_of_memory restart_gc
second_waits = refl
