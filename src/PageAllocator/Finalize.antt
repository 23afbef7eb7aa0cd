-- ===== src/PageAllocator/Finalize.antt =====
-- The phase of zPageAllocator.cpp outside the lock that makes one page of what a request has got. The
-- answers of the virtual memory manager and of the operating system are arguments.
use zgc_primax.Base.{
  ℕ, ◌+◌, ◌-◌, ◌≤◌, ◌≡◌, refl, Bool, true, false, not, ◌&&◌, Option, none, some, List, [], ◌∷◌, ltb,
  leb, ◌==◌, if◌then◌else◌, total, All, arith, if_cases,
}
use zgc_primax.PageCache.{PageType, small, Page, Platform, type_from_size, eq_PageType}
use zgc_primax.PageCache.Search.{bytes, holds}
use zgc_primax.PageCache.Alloc.{type_from_size-Fits}
use zgc_primax.PageCache.Flush.Outcome.{IsFit}
use zgc_primax.PageAllocator.{Allocation}
use zgc_primax.PageAllocator.Grants.{IsGranted}

-- `should_defragment`, with the middle and the lowest available address of the address space.
pub should_defragment : ℕ → ℕ → Page → Bool
should_defragment middle lowest p =
    eq_PageType p.type small && leb middle p.start && ltb lowest p.start

-- `is_alloc_satisfied`
pub is_alloc_satisfied : ℕ → ℕ → PageType → ℕ → List Page → Bool
unfolding should_defragment
is_alloc_satisfied middle lowest type size [] = false
is_alloc_satisfied middle lowest type size (p ∷ []) =
    eq_PageType p.type type && (p.size == size) && not (should_defragment middle lowest p)
is_alloc_satisfied middle lowest type size (p ∷ q ∷ rest) = false

-- What `alloc_page_create` makes: the page, and how much of its memory is from pages, and how much not.
pub record Created : Type 0 where
  pub page : Page
  pub flushed : ℕ
  pub committed : ℕ

-- `alloc_page_create`, where the virtual memory starts, if there is any.
pub alloc_page_create : Option ℕ → Allocation → Option Created
alloc_page_create none r = none
alloc_page_create (some start) r =
    let flushed = total (λ p. p.size) r.pages in
    some (record {
      page = record { start = start; size = r.size; type = r.type; last_used = 0 };
      flushed = flushed;
      committed = if ltb flushed r.size then r.size - flushed else 0;
    })

module _ (o : Platform) where
  -- `split_committed`: the part of a page that has been committed, if there is one.
  pub split_committed : ℕ → Page → List Page
  split_committed committed p =
      if committed == 0
      then []
      else (record {
        start = p.start;
        size = committed;
        type = type_from_size o committed;
        last_used = 0;
      }
          ∷ [])

  -- Where the operating system commits at most `limit` of what is not from pages.
  pub commit_created : ℕ → Created → Option Page × List Page
  unfolding split_committed
  commit_created limit c =
      if leb c.committed limit
      then (some c.page, [])
      else (none, split_committed (c.flushed + limit) c.page)

  -- `alloc_page_finalize`: the page, and the pages that the request still has.
  pub alloc_page_finalize : ℕ → ℕ → Option ℕ → ℕ → Allocation → Option Page × List Page
  unfolding is_alloc_satisfied alloc_page_create commit_created
  alloc_page_finalize middle lowest start limit r =
      let slow : Option Page × List Page = elim (alloc_page_create start r) [
        | none ↦ (none, r.pages)
        | some c ↦ commit_created limit c
      ] in
      if is_alloc_satisfied middle lowest r.type r.size r.pages
      then elim r.pages [ [] ↦ (none, []) | p ∷ rest ↦ (some p, rest) ]
      else slow

  abbrev pub FinalOutcome : Allocation → Option Page × List Page → Type 0
  FinalOutcome r (some p, rest) = (p.type ≡ r.type) × (p.size ≡ r.size) × (rest ≡ [])
  FinalOutcome r (none, rest) = All (IsFit o) rest × (total (holds bytes) rest ≤ r.size)

  satisfied-FinalOutcome :
      (middle lowest : ℕ) (r : Allocation) (pages : List Page)
      → is_alloc_satisfied middle lowest r.type r.size pages ≡ true
      → FinalOutcome r (elim pages [ [] ↦ (none, []) | p ∷ rest ↦ (some p, rest) ])
  unfolding is_alloc_satisfied
  satisfied-FinalOutcome middle lowest r [] e = (tt, omega arith)
  satisfied-FinalOutcome middle lowest r (p ∷ []) e = ground arith
  satisfied-FinalOutcome middle lowest r (p ∷ q ∷ rest) e = ground arith

  split_committed-IsFit :
      (size committed : ℕ) (p : Page)
      → committed ≤ size
      → All (IsFit o) (split_committed committed p)
        × (total (holds bytes) (split_committed committed p) ≤ size)
  unfolding split_committed
  split_committed-IsFit size committed p le =
      if_cases (λ ps. All (IsFit o) ps × (total (holds bytes) ps ≤ size)) (committed == 0)
        (λ nothing. (tt, omega arith))
        (λ something. ((type_from_size-Fits o committed, tt), omega (arith, le)))

  -- For a request whose pages fit their types and are not more than its size, `alloc_page_finalize`
  -- gives a page of its type and size, and then the request has no other; or it gives none, and the
  -- pages that the request still has fit their types and are not more than its size.
  pub alloc_page_finalize-FinalOutcome :
      (middle lowest : ℕ) (start : Option ℕ) (limit : ℕ) (r : Allocation)
      → IsGranted o r
      → FinalOutcome r (alloc_page_finalize middle lowest start limit r)
  unfolding alloc_page_finalize alloc_page_create commit_created split_committed
  alloc_page_finalize-FinalOutcome middle lowest start limit r g =
      if_cases (FinalOutcome r) (is_alloc_satisfied middle lowest r.type r.size r.pages)
        (λ fast. satisfied-FinalOutcome middle lowest r r.pages fast) (λ slow. created start)
    where
      created :
          (start : Option ℕ)
          → FinalOutcome r (elim (alloc_page_create start r) [
            | none ↦ (none, r.pages)
            | some c ↦ commit_created limit c
          ])
      created none = (g.1, g.2)
      created (some start) =
          let flushed = total (λ (p : Page). p.size) r.pages in
          if_cases (FinalOutcome r) (leb (if ltb flushed r.size then r.size - flushed else 0) limit)
            (λ all. (refl, refl, refl))
            (λ part.
              split_committed-IsFit r.size (flushed + limit)
                (record { start = start; size = r.size; type = r.type; last_used = 0 })
                (ground (arith, g.2)))
