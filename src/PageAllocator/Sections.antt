-- ===== src/PageAllocator/Sections.antt =====
-- The sections of zPageAllocator.cpp that run under its lock, and their parts.
use zgc_primax.Base.{
  ℕ, ◌+◌, ◌-◌, ◌*◌, ◌/◌, ◌^◌, min, true, false, Option, none, some, List, [], ◌∷◌, ◌++◌, ltb,
  if◌then◌else◌, total, add64, sub64,
}
use zgc_primax.PageCache.{PageType, Page, Platform, alloc_page, free_page}
use zgc_primax.PageCache.Flush.{flush_for_allocation, flush_for_uncommit}
use zgc_primax.PageAllocator.{
  GenerationId, young, old, Allocation, Allocator, increase_capacity, decrease_capacity,
  increase_used, decrease_used, decrease_used_generation, is_alloc_allowed,
}

abbrev pub size_in : GenerationId → Page × GenerationId → ℕ
size_in young (p, young) = p.size
size_in old (p, old) = p.size
size_in _ _ = 0

abbrev pub pages_of : List (Page × GenerationId) → List Page
pages_of [] = []
pages_of (x ∷ xs) = x.0 ∷ pages_of xs

-- How much `uncommit` asks for, with ZGranuleSize.
unfoldable pub uncommit_size : ℕ → Allocator → ℕ
unfolding sub64
uncommit_size granule a =
    let retain = if ltb a.used a.min_capacity then a.min_capacity else a.used in
    let release = sub64 a.capacity retain in
    let limit =
      min ((a.current_max_capacity / 2 ^ 7 + granule - 1) / granule * granule) (256 * 2 ^ 20) in
    min release limit

module _ (o : Platform) where
  -- The end of `alloc_page_common_inner`, where the cache has no page.
  unfoldable pub increase_and_flush : ℕ → ℕ → List Page → Allocator → Option (List Page × Allocator)
  unfolding increase_capacity
  increase_and_flush now size pages a =
      let (increased, a') = increase_capacity now size a in
      if ltb increased size
      then elim (flush_for_allocation o (size - increased) a'.cache pages) [
        | none ↦ none
        | some (cache, pages', s) ↦ some (pages', record a' { cache = cache })
      ]
      else some (pages, a')

  -- `alloc_page_common_inner`: the pages, unless it is out of memory, and the allocator.
  unfoldable pub alloc_page_common_inner :
      ℕ → PageType → ℕ → List Page → Allocator → Option (Option (List Page) × Allocator)
  unfolding is_alloc_allowed increase_and_flush
  alloc_page_common_inner now type size pages a =
      if is_alloc_allowed size a
      then elim (alloc_page o type size a.cache) [
        | none ↦ none
        | some (some page, cache) ↦ some (some (pages ++ page ∷ []), record a { cache = cache })
        | some (none, cache) ↦
            elim (increase_and_flush now size pages (record a { cache = cache })) [
              | none ↦ none
              | some (pages', a') ↦ some (some pages', a')
            ]
      ]
      else some (none, a)

  -- `alloc_page_common`: the request with its pages, unless it is out of memory, and the allocator.
  unfoldable pub alloc_page_common :
      ℕ → Allocation → Allocator → Option (Option Allocation × Allocator)
  unfolding alloc_page_common_inner increase_used
  alloc_page_common now r a = elim (alloc_page_common_inner now r.type r.size r.pages a) [
    | none ↦ none
    | some (none, a') ↦ some (none, a')
    | some (some pages, a') ↦ some (some (record r { pages = pages }), increase_used r.size a')
  ]

  -- The section of `alloc_page_or_stall` under the lock: the request if it succeeds, and the allocator.
  unfoldable pub alloc_page_or_stall :
      ℕ → Allocation → Allocator → Option (Option Allocation × Allocator)
  unfolding alloc_page_common
  alloc_page_or_stall now r a = elim (alloc_page_common now r a) [
    | none ↦ none
    | some (some r', a') ↦ some (some r', a')
    | some (none, a') ↦
        some (none, if r.non_blocking then a' else record a' { stalled = a'.stalled ++ r ∷ [] })
  ]

  -- `satisfy_stalled`, for the requests in the queue: those that are satisfied.
  unfoldable pub satisfy_queue :
      ℕ → List Allocation → Allocator → Option (List Allocation × Allocator)
  unfolding alloc_page_common
  satisfy_queue now [] a = some ([], record a { stalled = [] })
  satisfy_queue now (r ∷ rest) a = elim (alloc_page_common now r a) [
    | none ↦ none
    | some (none, a') ↦ some ([], record a' { stalled = r ∷ rest })
    | some (some r', a') ↦ elim (satisfy_queue now rest a') [
      | none ↦ none
      | some (done, a'') ↦ some (r' ∷ done, a'')
    ]
  ]

  unfoldable pub satisfy_stalled : ℕ → Allocator → Option (List Allocation × Allocator)
  unfolding satisfy_queue
  satisfy_stalled now a = satisfy_queue now a.stalled a

  -- `recycle_page`
  unfoldable pub recycle_page : ℕ → Page → Allocator → Allocator
  recycle_page now p a = record a { cache = free_page o (record p { last_used = now }) a.cache }

  -- The loops that recycle pages.
  unfoldable pub recycle_pages : ℕ → List Page → Allocator → Allocator
  unfolding recycle_page
  recycle_pages now [] a = a
  recycle_pages now (p ∷ ps) a = recycle_pages now ps (recycle_page now p a)

  -- `free_page` of a page of a generation.
  unfoldable pub free_page_of :
      ℕ → GenerationId → Page → Allocator → Option (List Allocation × Allocator)
  unfolding decrease_used decrease_used_generation recycle_page satisfy_stalled
  free_page_of now id p a =
      satisfy_stalled now
        (recycle_page now p (decrease_used_generation id p.size (decrease_used p.size a)))

  -- `free_pages` of pages with their generations.
  unfoldable pub free_pages :
      ℕ → List (Page × GenerationId) → Allocator → Option (List Allocation × Allocator)
  unfolding decrease_used decrease_used_generation recycle_pages satisfy_stalled
  free_pages now ps a =
      let young_size = total (size_in young) ps in
      let old_size = total (size_in old) ps in
      satisfy_stalled now (
        recycle_pages now (pages_of ps) (
          decrease_used_generation old old_size
            (decrease_used_generation young young_size (decrease_used (young_size + old_size) a))))

  -- `free_pages_alloc_failed`
  unfoldable pub free_pages_alloc_failed :
      ℕ → Allocation → Allocator → Option (List Allocation × Allocator)
  unfolding decrease_used recycle_pages sub64 decrease_capacity satisfy_stalled
  free_pages_alloc_failed now r a =
      let freed = total (λ p. p.size) r.pages in
      satisfy_stalled now (
        decrease_capacity (sub64 r.size freed) true
          (recycle_pages now r.pages (decrease_used r.size a)))

  -- The first section of `uncommit` under the lock: the pages, how much they are, and the timeout.
  unfoldable pub uncommit_flush : ℕ → ℕ → ℕ → Allocator → Option (List Page × ℕ × ℕ × Allocator)
  unfolding uncommit_size add64
  uncommit_flush now delay granule a =
      elim (flush_for_uncommit o now delay (uncommit_size granule a) a.cache []) [
        | none ↦ none
        | some (cache, pages, s) ↦ some (
          pages,
          s.flushed,
          s.timeout,
          record a { cache = cache; claimed = add64 a.claimed s.flushed },
        )
      ]

-- The second one.
unfoldable pub uncommit_finish : ℕ → Allocator → Allocator
unfolding sub64 decrease_capacity
uncommit_finish flushed a =
    decrease_capacity flushed false (record a { claimed = sub64 a.claimed flushed })
