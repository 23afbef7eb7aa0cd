-- ===== src/PageAllocator/Balance.antt =====
-- The balance of the capacity in zPageAllocator.cpp, and what it is for pages to be taken.
use zgc_primax.Base.{
  ℕ, ◌+◌, ◌-◌, ◌≤◌, ◌≡◌, refl, min, Option, none, some, List, [], ltb, total, All, arith, if_cases,
  uintptr_max, add64, sub64, lt_of_ltb, le_of_ltb,
}
use zgc_primax.PageCache.{Page, Platform, set_last_commit}
use zgc_primax.PageCache.Search.{bytes, holds, held, IsWf}
use zgc_primax.PageCache.Flush.{flush_for_allocation}
use zgc_primax.PageCache.Flush.Outcome.{
  IsFit, AllocationOutcome, flush_for_allocation-AllocationOutcome,
}
use zgc_primax.PageAllocator.{Allocator, increase_capacity}
use zgc_primax.PageAllocator.Sections.{increase_and_flush}

-- What a grant leaves alone.
pub record Same (a a' : Allocator) : Type 0 where
  pub claimed : a'.claimed ≡ a.claimed
  pub current : a'.current_max_capacity ≡ a.current_max_capacity
  pub max : a'.max_capacity ≡ a.max_capacity
  pub young : a'.used_young ≡ a.used_young
  pub old : a'.used_old ≡ a.used_old
  pub stalled : a'.stalled ≡ a.stalled

pub Same-refl : (a : Allocator) → Same a a
Same-refl a = record {
  claimed = refl;
  current = refl;
  max = refl;
  young = refl;
  old = refl;
  stalled = refl;
}

module _ (o : Platform) where
  -- The capacity is what is used, what is claimed for uncommitting and what the cache has. It is within
  -- the current limit, and that within the one of the start.
  pub record IsBalanced (a : Allocator) : Type 0 where
    pub wf : IsWf o a.cache
    pub balance : a.capacity ≡ a.used + a.claimed + held bytes a.cache
    pub le_current : a.capacity ≤ a.current_max_capacity
    pub le_max : a.current_max_capacity ≤ a.max_capacity
    pub word : a.max_capacity ≤ uintptr_max

  -- The pages come out of the cache, and with what the capacity has grown they make the size.
  pub record Taken (size : ℕ) (a : Allocator) (pages : List Page) (a' : Allocator) : Type 0 where
    pub wf : IsWf o a'.cache
    pub moved : a'.capacity + held bytes a.cache ≡ a.capacity + held bytes a'.cache + size
    pub taken : held bytes a.cache ≡ held bytes a'.cache + total (holds bytes) pages
    pub le_current : a'.capacity ≤ a.current_max_capacity
    pub fits : All (IsFit o) pages
    pub within : total (holds bytes) pages ≤ size
    pub used : a'.used ≡ a.used
    pub same : Same a a'

  abbrev pub Increased : ℕ → Allocator → ℕ × Allocator → Type 0
  Increased size a (n, a') =
      (n ≡ min size (a.current_max_capacity - a.capacity))
      × (a'.capacity ≡ a.capacity + n)
      × IsWf o a'.cache
      × (held bytes a'.cache ≡ held bytes a.cache)
      × (a'.used ≡ a.used)
      × Same a a'

  increase_capacity-Increased :
      (now size : ℕ) (a : Allocator)
      → IsBalanced a
      → Increased size a (increase_capacity now size a)
  unfolding increase_capacity sub64 add64 set_last_commit
  increase_capacity-Increased now size a b =
      if_cases (Increased size a) (ltb 0 (min size (sub64 a.current_max_capacity a.capacity)))
        (λ some_more. (
          ground (arith, b.le_current, b.le_max, b.word),
          ground (arith, b.le_current, b.le_max, b.word),
          record {
            smalls = b.wf.smalls;
            mediums = b.wf.mediums;
            larges = b.wf.larges;
            nodes = b.wf.nodes;
          },
          refl,
          refl,
          record {
            claimed = refl;
            current = refl;
            max = refl;
            young = refl;
            old = refl;
            stalled = refl;
          },
        ))
        (λ no_more. (
          ground (arith, b.le_current, b.le_max, b.word),
          ground (arith, b.le_current, b.le_max, b.word),
          b.wf,
          refl,
          refl,
          Same-refl a,
        ))

  abbrev pub TakenSome : ℕ → Allocator → Option (List Page × Allocator) → Type 0
  TakenSome size a none = ⊥
  TakenSome size a (some (pages, a')) = Taken size a pages a'

  pub increase_and_flush-TakenSome :
      (now size : ℕ) (a : Allocator)
      → IsBalanced a
      → size + a.used + a.claimed ≤ a.current_max_capacity
      → TakenSome size a (increase_and_flush o now size [] a)
  unfolding increase_and_flush
  increase_and_flush-TakenSome now size a b room =
      let n = (increase_capacity now size a).0 in
      let a' = (increase_capacity now size a).1 in
      let i = increase_capacity-Increased now size a b in
      if_cases (TakenSome size a) (ltb n size)
        (λ more.
          elim (flush_for_allocation o (size - n) a'.cache [])
              as (λ r.
                AllocationOutcome o (size - n) a'.cache r
                → TakenSome size a (elim r [
                  | none ↦ none
                  | some (cache, pages', s) ↦ some (pages', record a' { cache = cache })
                ])) [
                  | none ↦ λ t. t
                  | some (cache, pages, s) ↦ λ t. record {
                    wf = t.0;
                    moved = ground (
                      arith,
                      t.2 bytes,
                      t.3,
                      i.0,
                      i.1,
                      i.3,
                      b.balance,
                      b.le_current,
                      lt_of_ltb more,
                    );
                    taken = omega (arith, t.2 bytes, i.3);
                    le_current = ground (arith, i.0, i.1, b.le_current);
                    fits = t.1;
                    within = ground (arith, t.3);
                    used = i.4;
                    same = record {
                      claimed = i.5.claimed;
                      current = i.5.current;
                      max = i.5.max;
                      young = i.5.young;
                      old = i.5.old;
                      stalled = i.5.stalled;
                    };
                  }
                ]
            (flush_for_allocation-AllocationOutcome o (size - n) a'.cache i.2))
        (λ enough. record {
          wf = i.2;
          moved = ground (arith, i.0, i.1, i.3, le_of_ltb enough);
          taken = omega (arith, i.3);
          le_current = ground (arith, i.0, i.1, b.le_current);
          fits = tt;
          within = omega arith;
          used = i.4;
          same = i.5;
        })
