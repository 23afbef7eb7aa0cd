-- ===== src/PageAllocator/Start.antt =====
-- The page allocator of zPageAllocator.cpp as it is created.
use zgc_primax.Base.{ℕ, zero, suc, ◌≤◌, ◌<◌, ◌≡◌, refl, [], All, total, length, arith, uintptr_max}
use zgc_primax.PageCache.{Platform}
use zgc_primax.PageCache.Search.{Measure, bytes, holds, IsSmall}
use zgc_primax.PageAllocator.{create, empty_lists}
use zgc_primax.PageAllocator.World.{World}
use zgc_primax.PageAllocator.Safe.{IsSafe}

length-empty_lists : (n : ℕ) → length (empty_lists n) ≡ n
length-empty_lists zero = refl
length-empty_lists (suc n) = omega (arith, length-empty_lists n)

total-empty_lists : (m : Measure) (n : ℕ) → total (total (holds m)) (empty_lists n) ≡ 0
total-empty_lists m zero = refl
total-empty_lists m (suc n) = omega (arith, total-empty_lists m n)

module _ (o : Platform) where
  empty_lists-All : (n : ℕ) → All (All (IsSmall o)) (empty_lists n)
  empty_lists-All zero = tt
  empty_lists-All (suc n) = (tt, empty_lists-All n)

  abbrev pub start : (nodes min_capacity max_capacity : ℕ) → World
  start nodes min_capacity max_capacity = record {
    allocator = create nodes min_capacity max_capacity;
    granted = [];
    pages = [];
    uncommits = [];
  }

  pub start-IsSafe :
      (nodes min_capacity max_capacity : ℕ)
      → ((start : ℕ) → o.memory_id start < nodes)
      → max_capacity ≤ uintptr_max
      → IsSafe o (start nodes min_capacity max_capacity)
  unfolding create
  start-IsSafe nodes min_capacity max_capacity known word = record {
    balanced = record {
      wf = record {
        smalls = empty_lists-All nodes;
        mediums = tt;
        larges = tt;
        nodes = λ start. omega (arith, known start, length-empty_lists nodes);
      };
      balance = omega (arith, total-empty_lists bytes nodes);
      le_current = omega arith;
      le_max = omega arith;
      word = word;
    };
    queue = tt;
    granted = tt;
    pages = tt;
    used = refl;
    used_young = refl;
    used_old = refl;
    claimed = refl;
  }
