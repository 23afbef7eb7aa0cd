-- ===== src/PageAllocator/Returns.antt =====
-- What freeing pages, the failure of a request and uncommitting do to the accounts of zPageAllocator.cpp.
use zgc_primax.Base.{
  ℕ, ◌+◌, ◌-◌, ◌≤◌, ◌≡◌, refl, true, List, [], ◌∷◌, total, All, arith, uintptr_max, sub64, subst,
  sym, ◌∙◌,
}
use zgc_primax.PageCache.{Page, Platform}
use zgc_primax.PageCache.Search.{bytes, holds, held, IsWf}
use zgc_primax.PageCache.Flush.Outcome.{IsFit}
use zgc_primax.PageAllocator.{
  GenerationId, young, old, Allocation, Allocator, decrease_used, decrease_used_generation,
  decrease_capacity,
}
use zgc_primax.PageAllocator.Grants.{
  IsWaiting, SatisfyOutcome, satisfy_queue-SatisfyOutcome, rebase, recycle_pages-Recycled,
}
use zgc_primax.PageAllocator.Balance.{Same, IsBalanced}
use zgc_primax.PageAllocator.Sections.{
  recycle_pages, satisfy_stalled, free_page_of, size_in, pages_of, free_pages,
  free_pages_alloc_failed,
}

-- The accounts without so much of both generations.
abbrev pub without : ℕ → ℕ → Allocator → Allocator
without y z a = record a {
  used = a.used - (y + z);
  used_young = a.used_young - y;
  used_old = a.used_old - z;
}

module _ (o : Platform) where
  -- The accounts add up, the requests of the queue wait, and the generations are part of what is used.
  pub record IsSound (a : Allocator) : Type 0 where
    pub balanced : IsBalanced o a
    pub queue : All (IsWaiting o) a.stalled
    pub generations : a.used_young + a.used_old ≤ a.used

  abbrev pub IsFitIn : Page × GenerationId → Type 0
  IsFitIn x = IsFit o x.0

  All-pages_of : (ps : List (Page × GenerationId)) → All IsFitIn ps → All (IsFit o) (pages_of ps)
  All-pages_of [] h = tt
  All-pages_of (x ∷ ps) h = (h.0, All-pages_of ps h.1)

  total-pages_of :
      (ps : List (Page × GenerationId))
      → total (holds bytes) (pages_of ps) ≡ total (size_in young) ps + total (size_in old) ps
  total-pages_of [] = refl
  total-pages_of ((p, young) ∷ ps) = omega (arith, total-pages_of ps)
  total-pages_of ((p, old) ∷ ps) = omega (arith, total-pages_of ps)

  -- Requests are satisfied from accounts that add up, as from others that are the same.
  satisfy_stalled-SatisfyOutcome :
      (now : ℕ) (a base : Allocator)
      → IsBalanced o a
      → All (IsWaiting o) base.stalled
      → a.used ≡ base.used
      → a.capacity ≡ base.capacity
      → Same base a
      → SatisfyOutcome o base.stalled base (satisfy_stalled o now a)
  unfolding satisfy_stalled
  satisfy_stalled-SatisfyOutcome now a base b waiting used capacity same =
      rebase o base.stalled a base (satisfy_stalled o now a) used capacity same (
        subst (λ q. SatisfyOutcome o q a (satisfy_stalled o now a)) same.stalled
          (satisfy_queue-SatisfyOutcome o now a.stalled a
            (subst (All (IsWaiting o)) (sym same.stalled) waiting) b))

  -- The same after pages are recycled that are not in the accounts any more.
  recycled-SatisfyOutcome :
      (now : ℕ) (ps : List Page) (a base : Allocator)
      → All (IsFit o) ps
      → IsWf o a.cache
      → a.capacity ≡ base.used + base.claimed + held bytes a.cache + total (holds bytes) ps
      → a.capacity ≤ base.current_max_capacity
      → base.current_max_capacity ≤ base.max_capacity
      → base.max_capacity ≤ uintptr_max
      → All (IsWaiting o) base.stalled
      → a.used ≡ base.used
      → a.capacity ≡ base.capacity
      → Same base a
      → SatisfyOutcome o base.stalled base (satisfy_stalled o now (recycle_pages o now ps a))
  recycled-SatisfyOutcome now ps a base fit wf balance current max word waiting used capacity same =
      let r = recycle_pages-Recycled o now ps a fit wf in
      satisfy_stalled-SatisfyOutcome now (recycle_pages o now ps a) base
        (record {
          wf = r.wf;
          balance =
              omega
                (arith, r.capacity, r.used, r.same.claimed, r.more, balance, used, same.claimed);
          le_current = omega (arith, r.capacity, r.same.current, same.current, current);
          le_max = omega (arith, r.same.current, r.same.max, same.current, same.max, max);
          word = omega (arith, r.same.max, same.max, word);
        })
        waiting (r.used ∙ used) (r.capacity ∙ capacity)
        (record {
          claimed = r.same.claimed ∙ same.claimed;
          current = r.same.current ∙ same.current;
          max = r.same.max ∙ same.max;
          young = r.same.young ∙ same.young;
          old = r.same.old ∙ same.old;
          stalled = r.same.stalled ∙ same.stalled;
        })

  -- Freeing pages that are in use fails no assertion. What they are leaves the accounts, the accounts add
  -- up, and then the requests of the queue that can be satisfied are.
  pub free_pages-SatisfyOutcome :
      (now : ℕ) (ps : List (Page × GenerationId)) (a : Allocator)
      → IsSound a
      → All IsFitIn ps
      → total (size_in young) ps ≤ a.used_young
      → total (size_in old) ps ≤ a.used_old
      → SatisfyOutcome o a.stalled
          (without (total (size_in young) ps) (total (size_in old) ps) a)
          (free_pages o now ps a)
  unfolding free_pages decrease_used decrease_used_generation sub64
  free_pages-SatisfyOutcome now ps a sound fit yle ole =
      let y = total (size_in young) ps in
      let z = total (size_in old) ps in
      let b = sound.balanced in
      let small : a.used ≤ uintptr_max = omega (arith, b.balance, b.le_current, b.le_max, b.word) in
      recycled-SatisfyOutcome now (pages_of ps)
        (decrease_used_generation old z
          (decrease_used_generation young y (decrease_used (y + z) a)))
        (without y z a) (All-pages_of ps fit) b.wf
        (omega (arith, total-pages_of ps, b.balance, sound.generations)) b.le_current b.le_max
        b.word sound.queue (omega (arith, sound.generations, small)) refl
        (record {
          claimed = refl;
          current = refl;
          max = refl;
          young = omega (arith, sound.generations, small);
          old = omega (arith, sound.generations, small);
          stalled = refl;
        })

  -- Where the accounts add up, freeing a page that fits its type and is not more than what its
  -- generation uses fails no assertion. It leaves what is used, the accounts add up, and then the
  -- requests at the front of the queue that can be satisfied are, in order: the first that stays has
  -- not the room it asks for.
  pub free_page_of-SatisfyOutcome :
      (now : ℕ) (id : GenerationId) (p : Page) (a : Allocator)
      → IsSound a
      → IsFit o p
      → size_in young (p, id) ≤ a.used_young
      → size_in old (p, id) ≤ a.used_old
      → SatisfyOutcome o a.stalled
          (without (size_in young (p, id)) (size_in old (p, id)) a)
          (free_page_of o now id p a)
  unfolding free_page_of decrease_used decrease_used_generation sub64 recycle_pages
  free_page_of-SatisfyOutcome now young p a sound fit yle ole =
      let b = sound.balanced in
      let small : a.used ≤ uintptr_max = omega (arith, b.balance, b.le_current, b.le_max, b.word) in
      recycled-SatisfyOutcome now (p ∷ [])
        (decrease_used_generation young p.size (decrease_used p.size a)) (without p.size 0 a)
        (fit, tt) b.wf (omega (arith, b.balance, sound.generations)) b.le_current b.le_max b.word
        sound.queue (omega (arith, sound.generations, small)) refl
        (record {
          claimed = refl;
          current = refl;
          max = refl;
          young = omega (arith, sound.generations, small);
          old = omega arith;
          stalled = refl;
        })
  free_page_of-SatisfyOutcome now old p a sound fit yle ole =
      let b = sound.balanced in
      let small : a.used ≤ uintptr_max = omega (arith, b.balance, b.le_current, b.le_max, b.word) in
      recycled-SatisfyOutcome now (p ∷ [])
        (decrease_used_generation old p.size (decrease_used p.size a)) (without 0 p.size a)
        (fit, tt) b.wf (omega (arith, b.balance, sound.generations)) b.le_current b.le_max b.word
        sound.queue (omega (arith, sound.generations, small)) refl
        (record {
          claimed = refl;
          current = refl;
          max = refl;
          young = omega arith;
          old = omega (arith, sound.generations, small);
          stalled = refl;
        })

  -- A request that fails gives its pages back, and what the capacity has grown for it leaves the capacity
  -- and the current limit.
  abbrev pub failed_base : Allocation → Allocator → Allocator
  failed_base r a =
      let capacity = a.capacity - (r.size - total (holds bytes) r.pages) in
      record a { used = a.used - r.size; capacity = capacity; current_max_capacity = capacity }

  -- Where the accounts add up, the failure of a request, whose pages fit their types and are not
  -- more than its size, which is in use, fails no assertion. Its pages go to the cache, what the
  -- capacity has grown for it leaves the capacity, the current limit becomes that capacity, so that
  -- it does not grow again, the accounts add up, and then the requests at the front of the queue
  -- that can be satisfied are, in order.
  pub free_pages_alloc_failed-SatisfyOutcome :
      (now : ℕ) (r : Allocation) (a : Allocator)
      → IsSound a
      → All (IsFit o) r.pages
      → total (holds bytes) r.pages ≤ r.size
      → r.size ≤ a.used
      → SatisfyOutcome o a.stalled (failed_base r a) (free_pages_alloc_failed o now r a)
  unfolding free_pages_alloc_failed decrease_used decrease_capacity sub64
  free_pages_alloc_failed-SatisfyOutcome now r a sound fit within le =
      let b = sound.balanced in
      let a' = decrease_used r.size a in
      let t = recycle_pages-Recycled o now r.pages a' fit b.wf in
      let freed = total (λ (p : Page). p.size) r.pages in
      let small : a.capacity ≤ uintptr_max = omega (arith, b.le_current, b.le_max, b.word) in
      satisfy_stalled-SatisfyOutcome now
        (decrease_capacity (sub64 r.size freed) true (recycle_pages o now r.pages a'))
        (failed_base r a)
        (record {
          wf = t.wf;
          balance =
              omega (arith, t.capacity, t.used, t.same.claimed, t.more, within, b.balance, small);
          le_current = omega arith;
          le_max = omega (arith, t.capacity, t.same.max, within, b.balance, b.le_current, b.le_max);
          word = omega (arith, t.same.max, b.word);
        })
        sound.queue (omega (arith, t.used, within, b.balance, small))
        (omega (arith, t.capacity, within, b.balance, small))
        (record {
          claimed = t.same.claimed;
          current = omega (arith, t.capacity, within, b.balance, small);
          max = t.same.max;
          young = t.same.young;
          old = t.same.old;
          stalled = t.same.stalled;
        })
