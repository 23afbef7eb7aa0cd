-- ===== src/PageAllocator/Accounts.antt =====
-- What a grant does to the accounts of zPageAllocator.cpp.
use zgc_primax.Base.{
  ℕ, ◌+◌, ◌≤◌, ◌<◌, ◌≡◌, refl, Option, none, some, List, [], ◌∷◌, ◌++◌, total, All, arith, if_cases,
  add64, sub64, ap, subst, sym,
}
use zgc_primax.PageCache.{PageType, Page, Cache, Platform, alloc_page}
use zgc_primax.PageCache.Search.{bytes, holds, held, Fits}
use zgc_primax.PageCache.Alloc.{Outcome, alloc_page-Outcome}
use zgc_primax.PageCache.Flush.Outcome.{IsFit}
use zgc_primax.PageAllocator.{Allocation, Allocator, increase_used, is_alloc_allowed}
use zgc_primax.PageAllocator.Balance.{
  Same, IsBalanced, Taken, TakenSome, increase_and_flush-TakenSome,
}
use zgc_primax.PageAllocator.Sections.{
  increase_and_flush, alloc_page_common_inner, alloc_page_common,
}

module _ (o : Platform) where
  abbrev pub InnerOutcome : ℕ → Allocator → Option (Option (List Page) × Allocator) → Type 0
  InnerOutcome size a none = ⊥
  InnerOutcome size a (some (none, a')) =
      (a' ≡ a) × (a.current_max_capacity < a.used + a.claimed + size)
  InnerOutcome size a (some (some pages, a')) = Taken o size a pages a'

  cache_same :
      (a : Allocator) (cache : Cache)
      → cache ≡ a.cache
      → IsBalanced o a
      → IsBalanced o (record a { cache = cache })
  cache_same a cache e b = record {
    wf = rw e b.wf;
    balance = omega (arith, b.balance, ap (held bytes) e);
    le_current = b.le_current;
    le_max = b.le_max;
    word = b.word;
  }

  some_pages :
      (size : ℕ) (a : Allocator) (cache : Cache)
      → cache ≡ a.cache
      → (r : Option (List Page × Allocator)) → TakenSome o size (record a { cache = cache }) r
      → InnerOutcome size a (elim r [ none ↦ none | some (pages', a') ↦ some (some pages', a') ])
  some_pages size a cache e none t = t
  some_pages size a cache e (some (pages, a')) t = record {
    wf = t.wf;
    moved = omega (arith, t.moved, ap (held bytes) e);
    taken = omega (arith, t.taken, ap (held bytes) e);
    le_current = t.le_current;
    fits = t.fits;
    within = t.within;
    used = t.used;
    same = record {
      claimed = t.same.claimed;
      current = t.same.current;
      max = t.same.max;
      young = t.same.young;
      old = t.same.old;
      stalled = t.same.stalled;
    };
  }

  alloc_page_common_inner-InnerOutcome :
      (now : ℕ) (type : PageType) (size : ℕ) (a : Allocator)
      → Fits o type size
      → IsBalanced o a
      → InnerOutcome size a (alloc_page_common_inner o now type size [] a)
  unfolding alloc_page_common_inner is_alloc_allowed sub64
  alloc_page_common_inner-InnerOutcome now type size a fits b =
      if_cases (InnerOutcome size a) (is_alloc_allowed size a)
        (λ allowed.
          elim (alloc_page o type size a.cache)
              as (λ r.
                Outcome o type size a.cache r
                → InnerOutcome size a (elim r [
                  | none ↦ none
                  | some (some page, cache) ↦
                      some (some ([] ++ page ∷ []), record a { cache = cache })
                  | some (none, cache) ↦
                      elim (increase_and_flush o now size [] (record a { cache = cache })) [
                        | none ↦ none
                        | some (pages', a') ↦ some (some pages', a')
                      ]
                ])) [
                  | none ↦ λ t. t
                  | some (some page, cache) ↦ λ t. record {
                    wf = t.2.still;
                    moved = omega (arith, t.1, t.2.conserved bytes);
                    taken = omega (arith, t.2.conserved bytes);
                    le_current = b.le_current;
                    fits = ((rw (t.0, t.1) fits), tt);
                    within = omega (arith, t.1);
                    used = refl;
                    same = record {
                      claimed = refl;
                      current = refl;
                      max = refl;
                      young = refl;
                      old = refl;
                      stalled = refl;
                    };
                  }
                  | some (none, cache) ↦ λ t.
                      let b' = cache_same a cache t.0 b in
                      some_pages size a cache t.0
                        (increase_and_flush o now size [] (record a { cache = cache }))
                        (increase_and_flush-TakenSome o now size (record a { cache = cache }) b'
                          (ground (arith, allowed, b.balance, b.le_current, b.le_max, b.word)))
                ]
            (alloc_page-Outcome o type size a.cache fits b.wf))
        (λ refused. (refl, ground (arith, refused, b.balance, b.le_current, b.le_max, b.word)))

  -- A request that is granted.
  pub record Granted (r : Allocation) (a : Allocator) (r' : Allocation) (a' : Allocator)
      : Type 0 where
    pub balanced : IsBalanced o a'
    pub used : a'.used ≡ a.used + r.size
    pub grows : a.capacity ≤ a'.capacity
    pub same : Same a a'
    pub request : record r' { pages = r.pages } ≡ r
    pub fits : All (IsFit o) r'.pages
    pub within : total (holds bytes) r'.pages ≤ r.size

  -- No assertion fails. The request is granted, with pages of at most its size, or the allocator is as
  -- before and has not that much room.
  abbrev pub CommonOutcome :
      Allocation → Allocator → Option (Option Allocation × Allocator) → Type 0
  CommonOutcome r a none = ⊥
  CommonOutcome r a (some (none, a')) =
      (a' ≡ a) × (a.current_max_capacity < a.used + a.claimed + r.size)
  CommonOutcome r a (some (some r', a')) = Granted r a r' a'

  -- Where the accounts add up, a request without pages, whose size fits its type, fails no assertion.
  -- It is granted, with pages that fit their types and are not more than its size, what is used grows
  -- by the size and the accounts add up again; or the allocator is as before and has not that much
  -- room.
  pub alloc_page_common-CommonOutcome :
      (now : ℕ) (r : Allocation) (a : Allocator)
      → Fits o r.type r.size
      → r.pages ≡ []
      → IsBalanced o a
      → CommonOutcome r a (alloc_page_common o now r a)
  unfolding alloc_page_common increase_used add64
  alloc_page_common-CommonOutcome now r a fits e b =
      elim (alloc_page_common_inner o now r.type r.size r.pages a)
          as (λ x.
            InnerOutcome r.size a x
            → CommonOutcome r a (elim x [
              | none ↦ none
              | some (none, a') ↦ some (none, a')
              | some (some pages, a') ↦
                  some (some (record r { pages = pages }), increase_used r.size a')
            ])) [
              | none ↦ λ t. t
              | some (none, a') ↦ λ t. t
              | some (some pages, a') ↦ λ t. record {
                balanced = record {
                  wf = t.wf;
                  balance = omega (
                    arith, t.moved, t.taken, t.used, t.same.claimed, t.le_current, b.balance,
                    b.le_max, b.word,
                  );
                  le_current = omega (arith, t.le_current, t.same.current);
                  le_max = omega (arith, t.same.current, t.same.max, b.le_max);
                  word = omega (arith, t.same.max, b.word);
                };
                used = omega (
                  arith, t.moved, t.taken, t.used, t.same.claimed, t.le_current, b.balance,
                  b.le_max, b.word,
                );
                grows = omega (arith, t.moved, t.taken, t.within);
                same = record {
                  claimed = t.same.claimed;
                  current = t.same.current;
                  max = t.same.max;
                  young = t.same.young;
                  old = t.same.old;
                  stalled = t.same.stalled;
                };
                request = refl;
                fits = t.fits;
                within = t.within;
              }
            ]
        (subst (λ l. InnerOutcome r.size a (alloc_page_common_inner o now r.type r.size l a))
          (sym e) (alloc_page_common_inner-InnerOutcome now r.type r.size a fits b))
