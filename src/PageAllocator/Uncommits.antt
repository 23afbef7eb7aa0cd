-- ===== src/PageAllocator/Uncommits.antt =====
-- What the sections of `uncommit` of zPageAllocator.cpp do, and the whole.
use zgc_primax.Base.{
  ℕ, ◌+◌, ◌≤◌, ◌≡◌, refl, Option, none, some, List, [], total, arith, add64, sub64,
}
use zgc_primax.PageCache.{Page, Platform}
use zgc_primax.PageCache.Search.{bytes, holds}
use zgc_primax.PageCache.Flush.{flush_for_uncommit}
use zgc_primax.PageCache.Flush.Outcome.{UncommitOutcome, flush_for_uncommit-UncommitOutcome}
use zgc_primax.PageAllocator.{Allocator, decrease_capacity}
use zgc_primax.PageAllocator.Balance.{IsBalanced}
use zgc_primax.PageAllocator.Sections.{uncommit_size, uncommit_flush, uncommit_finish}

module _ (o : Platform) where
  -- What is claimed for uncommitting comes out of the cache.
  pub record Claimed (granule : ℕ) (a : Allocator) (pages : List Page) (flushed : ℕ)
      (a' : Allocator) : Type 0 where
    pub balanced : IsBalanced o a'
    pub is_all : total (holds bytes) pages ≡ flushed
    pub within : flushed ≤ uncommit_size granule a
    pub claimed : a'.claimed ≡ a.claimed + flushed
    pub capacity : a'.capacity ≡ a.capacity
    pub used : a'.used ≡ a.used
    pub min : a'.min_capacity ≡ a.min_capacity
    pub max : a'.max_capacity ≡ a.max_capacity
    pub young : a'.used_young ≡ a.used_young
    pub old : a'.used_old ≡ a.used_old
    pub stalled : a'.stalled ≡ a.stalled

  abbrev pub ClaimOutcome : ℕ → Allocator → Option (List Page × ℕ × ℕ × Allocator) → Type 0
  ClaimOutcome granule a none = ⊥
  ClaimOutcome granule a (some (pages, flushed, timeout, a')) = Claimed granule a pages flushed a'

  pub uncommit_flush-ClaimOutcome :
      (now delay granule : ℕ) (a : Allocator)
      → IsBalanced o a
      → ClaimOutcome granule a (uncommit_flush o now delay granule a)
  unfolding uncommit_flush add64
  uncommit_flush-ClaimOutcome now delay granule a b =
      elim (flush_for_uncommit o now delay (uncommit_size granule a) a.cache [])
          as (λ r.
            UncommitOutcome o (uncommit_size granule a) a.cache r
            → ClaimOutcome granule a (elim r [
              | none ↦ none
              | some (cache, pages, s) ↦ some (
                pages,
                s.flushed,
                s.timeout,
                record a { cache = cache; claimed = add64 a.claimed s.flushed },
              )
            ])) [
              | none ↦ λ t. t
              | some (cache, pages, s) ↦ λ t. record {
                balanced = record {
                  wf = t.0;
                  balance =
                      omega (arith, t.2 bytes, t.3, b.balance, b.le_current, b.le_max, b.word);
                  le_current = b.le_current;
                  le_max = b.le_max;
                  word = b.word;
                };
                is_all = t.3;
                within = t.4;
                claimed = omega (arith, t.2 bytes, t.3, b.balance, b.le_current, b.le_max, b.word);
                capacity = refl;
                used = refl;
                min = refl;
                max = refl;
                young = refl;
                old = refl;
                stalled = refl;
              }
            ]
        (flush_for_uncommit-UncommitOutcome o now delay (uncommit_size granule a) a.cache b.wf)

  abbrev pub Uncommitted : ℕ → Allocator → Allocator → Type 0
  Uncommitted flushed a a' =
      IsBalanced o a'
      × (a'.capacity + flushed ≡ a.capacity)
      × (a'.claimed + flushed ≡ a.claimed)
      × (a'.used ≡ a.used)

  pub uncommit_finish-Uncommitted :
      (flushed : ℕ) (a : Allocator)
      → IsBalanced o a
      → flushed ≤ a.claimed
      → Uncommitted flushed a (uncommit_finish flushed a)
  unfolding uncommit_finish decrease_capacity sub64
  uncommit_finish-Uncommitted flushed a b le = (
    record {
      wf = b.wf;
      balance = omega (arith, b.balance, b.le_current, b.le_max, b.word);
      le_current = omega (arith, b.balance, b.le_current, b.le_max, b.word);
      le_max = b.le_max;
      word = b.word;
    },
    omega (arith, b.balance, b.le_current, b.le_max, b.word),
    omega (arith, b.balance, b.le_current, b.le_max, b.word),
    refl,
  )

  uncommit_size_bound :
      (granule : ℕ) (a : Allocator)
      → IsBalanced o a
      → a.min_capacity ≤ a.capacity
      → (uncommit_size granule a + a.min_capacity ≤ a.capacity)
        × (uncommit_size granule a + a.used ≤ a.capacity)
  unfolding uncommit_size sub64
  uncommit_size_bound granule a b le = ground (arith, b.balance, b.le_current, b.le_max, b.word)

  -- The two sections of `uncommit` with nothing between them.
  abbrev pub UncommitsSome : Allocator → Option (List Page × ℕ × ℕ × Allocator) → Type 0
  UncommitsSome a none = ⊥
  UncommitsSome a (some (pages, flushed, timeout, a')) =
      let b = uncommit_finish flushed a' in
      IsBalanced o b
      × (b.used ≡ a.used)
      × (b.claimed ≡ a.claimed)
      × (b.capacity + total (holds bytes) pages ≡ a.capacity)
      × (a.min_capacity ≤ b.capacity)

  -- Where the accounts add up and the capacity is not below the minimum, `uncommit` with nothing between
  -- its two sections fails no assertion. The accounts add up after it, what is used and claimed is as
  -- before, the capacity is less by the pages that are uncommitted, and it is still not below the minimum.
  pub uncommit-UncommitsSome :
      (now delay granule : ℕ) (a : Allocator)
      → IsBalanced o a
      → a.min_capacity ≤ a.capacity
      → UncommitsSome a (uncommit_flush o now delay granule a)
  unfolding uncommit_finish decrease_capacity
  uncommit-UncommitsSome now delay granule a b le =
      elim (uncommit_flush o now delay granule a)
          as (λ r. ClaimOutcome granule a r → UncommitsSome a r) [
            | none ↦ λ t. t
            | some (pages, flushed, timeout, a') ↦ λ t.
                let u =
                  uncommit_finish-Uncommitted flushed a' t.balanced (omega (arith, t.claimed)) in
                (
                  u.0,
                  t.used,
                  omega (arith, u.2, t.claimed),
                  omega (arith, u.1, t.capacity, t.is_all),
                  omega (arith, u.1, t.capacity, t.within, uncommit_size_bound granule a b le),
                )
          ]
        (uncommit_flush-ClaimOutcome now delay granule a b)
