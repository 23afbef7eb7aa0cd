-- ===== src/PageAllocator/Grants.antt =====
-- What the sections of zPageAllocator.cpp that take memory back do to its accounts, with the stalled
-- requests that they satisfy.
use zgc_primax.Base.{
  ℕ, ◌+◌, ◌≤◌, ◌<◌, ◌≡◌, refl, Option, none, some, List, [], ◌∷◌, ◌++◌, total, All, arith, ap, ap₂,
  ◌∙◌, sym, map,
}
use zgc_primax.PageCache.{Page, Platform}
use zgc_primax.PageCache.Search.{bytes, holds, held, IsWf, Fits}
use zgc_primax.PageCache.Alloc.{free_page-Frees}
use zgc_primax.PageCache.Flush.Outcome.{IsFit}
use zgc_primax.PageAllocator.{Allocation, Allocator}
use zgc_primax.PageAllocator.Accounts.{Granted, CommonOutcome, alloc_page_common-CommonOutcome}
use zgc_primax.PageAllocator.Balance.{Same, Same-refl, IsBalanced}
use zgc_primax.PageAllocator.Sections.{
  alloc_page_common, satisfy_queue, recycle_page, recycle_pages,
}

-- The request without its pages.
abbrev pub bare : Allocation → Allocation
bare r = record r { pages = [] }

-- The first request of the queue does not get what it asks for.
abbrev pub IsBlocked : Allocator → List Allocation → Type 0
IsBlocked a [] = Unit
IsBlocked a (r ∷ q) = a.current_max_capacity < a.used + a.claimed + r.size

module _ (o : Platform) where
  -- A request that waits, and one that is granted.
  abbrev pub IsWaiting : Allocation → Type 0
  IsWaiting r = Fits o r.type r.size × (r.pages ≡ [])

  abbrev pub IsGranted : Allocation → Type 0
  IsGranted r =
      Fits o r.type r.size × All (IsFit o) r.pages × (total (holds bytes) r.pages ≤ r.size)

  pub record Satisfied (q : List Allocation) (a : Allocator) (done : List Allocation)
      (a' : Allocator) : Type 0 where
    pub balanced : IsBalanced o a'
    pub used : a'.used ≡ a.used + total (λ r. r.size) done
    pub grows : a.capacity ≤ a'.capacity
    pub current : a'.current_max_capacity ≡ a.current_max_capacity
    pub claimed : a'.claimed ≡ a.claimed
    pub max : a'.max_capacity ≡ a.max_capacity
    pub young : a'.used_young ≡ a.used_young
    pub old : a'.used_old ≡ a.used_old
    pub granted : All IsGranted done
    pub waiting : All IsWaiting a'.stalled
    pub order : map bare q ≡ map bare done ++ map bare a'.stalled
    pub blocked : IsBlocked a' a'.stalled

  abbrev pub SatisfyOutcome :
      List Allocation → Allocator → Option (List Allocation × Allocator) → Type 0
  SatisfyOutcome q a none = ⊥
  SatisfyOutcome q a (some (done, a')) = Satisfied q a done a'

  pub with_stalled :
      (a : Allocator) (q : List Allocation)
      → IsBalanced o a
      → IsBalanced o (record a { stalled = q })
  with_stalled a q b = record {
    wf = b.wf;
    balance = b.balance;
    le_current = b.le_current;
    le_max = b.le_max;
    word = b.word;
  }

  more-SatisfyOutcome :
      (r : Allocation) (rest : List Allocation) (a : Allocator) (r' : Allocation) (a' : Allocator)
      (x : Option (List Allocation × Allocator))
      → IsWaiting r
      → Granted o r a r' a'
      → SatisfyOutcome rest a' x
      → SatisfyOutcome
          (r ∷ rest)
          a
          (elim x [ none ↦ none | some (done, a'') ↦ some (r' ∷ done, a'') ])
  more-SatisfyOutcome r rest a r' a' none h g t = t
  more-SatisfyOutcome r rest a r' a' (some (done, a'')) h g t =
      let type = ap (λ (x : Allocation). x.type) g.request in
      let size = ap (λ (x : Allocation). x.size) g.request in
      record {
        balanced = t.balanced;
        used = omega (arith, t.used, g.used, size);
        grows = omega (arith, t.grows, g.grows);
        current = t.current ∙ g.same.current;
        claimed = t.claimed ∙ g.same.claimed;
        max = t.max ∙ g.same.max;
        young = t.young ∙ g.same.young;
        old = t.old ∙ g.same.old;
        granted = ((rw (type, size) h.0, g.fits, omega (arith, g.within, size)), t.granted);
        waiting = t.waiting;
        order = ap₂ (◌∷◌) (sym (ap bare g.request)) t.order;
        blocked = t.blocked;
      }

  pub satisfy_queue-SatisfyOutcome :
      (now : ℕ) (q : List Allocation) (a : Allocator)
      → All IsWaiting q
      → IsBalanced o a
      → SatisfyOutcome q a (satisfy_queue o now q a)
  unfolding satisfy_queue
  satisfy_queue-SatisfyOutcome now [] a h b = record {
    balanced = with_stalled a [] b;
    used = omega arith;
    grows = omega arith;
    current = refl;
    claimed = refl;
    max = refl;
    young = refl;
    old = refl;
    granted = tt;
    waiting = tt;
    order = refl;
    blocked = tt;
  }
  satisfy_queue-SatisfyOutcome now (r ∷ rest) a h b =
      elim (alloc_page_common o now r a)
          as (λ x.
            CommonOutcome o r a x
            → SatisfyOutcome (r ∷ rest) a (elim x [
              | none ↦ none
              | some (none, a') ↦ some ([], record a' { stalled = r ∷ rest })
              | some (some r', a') ↦ elim (satisfy_queue o now rest a') [
                | none ↦ none
                | some (done, a'') ↦ some (r' ∷ done, a'')
              ]
            ])) [
              | none ↦ λ t. t
              | some (none, a') ↦ λ t. rw t.0 record {
                balanced = with_stalled a (r ∷ rest) b;
                used = omega arith;
                grows = omega arith;
                current = refl;
                claimed = refl;
                max = refl;
                young = refl;
                old = refl;
                granted = tt;
                waiting = h;
                order = refl;
                blocked = t.1;
              }
              | some (some r', a') ↦ λ t.
                  more-SatisfyOutcome r rest a r' a' (satisfy_queue o now rest a') h.0 t
                    (satisfy_queue-SatisfyOutcome now rest a' h.1 t.balanced)
            ]
        (alloc_page_common-CommonOutcome o now r a h.0.0 h.0.1 b)

  -- The result for an allocator holds for another one with the same accounts.
  pub rebase :
      (q : List Allocation) (a b : Allocator) (x : Option (List Allocation × Allocator))
      → a.used ≡ b.used
      → a.capacity ≡ b.capacity
      → Same b a
      → SatisfyOutcome q a x
      → SatisfyOutcome q b x
  rebase q a b none used capacity same t = t
  rebase q a b (some (done, a')) used capacity same t = record {
    balanced = t.balanced;
    used = omega (arith, t.used, used);
    grows = omega (arith, t.grows, capacity);
    current = t.current ∙ same.current;
    claimed = t.claimed ∙ same.claimed;
    max = t.max ∙ same.max;
    young = t.young ∙ same.young;
    old = t.old ∙ same.old;
    granted = t.granted;
    waiting = t.waiting;
    order = t.order;
    blocked = t.blocked;
  }

  -- What the loops that recycle pages do.
  pub record Recycled (ps : List Page) (a a' : Allocator) : Type 0 where
    pub wf : IsWf o a'.cache
    pub more : held bytes a'.cache ≡ total (holds bytes) ps + held bytes a.cache
    pub capacity : a'.capacity ≡ a.capacity
    pub used : a'.used ≡ a.used
    pub same : Same a a'

  pub recycle_pages-Recycled :
      (now : ℕ) (ps : List Page) (a : Allocator)
      → All (IsFit o) ps
      → IsWf o a.cache
      → Recycled ps a (recycle_pages o now ps a)
  unfolding recycle_pages recycle_page
  recycle_pages-Recycled now [] a h wf = record {
    wf = wf;
    more = omega arith;
    capacity = refl;
    used = refl;
    same = Same-refl a;
  }
  recycle_pages-Recycled now (p ∷ ps) a h wf =
      let f = free_page-Frees o (record p { last_used = now }) a.cache h.0 wf in
      let t = recycle_pages-Recycled now ps (recycle_page o now p a) h.1 f.0 in
      record {
        wf = t.wf;
        more = omega (arith, t.more, f.1 bytes);
        capacity = t.capacity;
        used = t.used;
        same = record {
          claimed = t.same.claimed;
          current = t.same.current;
          max = t.same.max;
          young = t.same.young;
          old = t.same.old;
          stalled = t.same.stalled;
        };
      }
