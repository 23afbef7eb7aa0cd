-- ===== src/JniCritical/Count.antt =====
-- How a step changes the numbers of threads inside and of threads that block.
use zgc_primax.Base.{ℤ, pos, negsuc, ℕ, zero, suc, ◌+◌, ◌≡◌, ◌⊎◌, arith}
use zgc_primax.JniCritical.{
  Thread, rest, enter_load, enter_wait, enter_sleep, enter_swap, inside, exit_load, exit_swap,
  exit_notify, block_load, block_wait, block_sleep, block_drain, drain_sleep, block_swap, blocked,
  Action, enter, exit, block, unblock, idle, advance,
}

-- The thread counts as one inside a critical region.
abbrev pub holds : Thread → ℕ
holds (inside n) = 1
holds exit_load = 1
holds (exit_swap c) = 1
holds _ = 0

-- The thread has inverted the count, and waits for the others to leave.
abbrev pub drains : Thread → ℕ
drains block_drain = 1
drains drain_sleep = 1
drains _ = 0

-- `block` has returned to the thread.
abbrev pub is_blocked : Thread → ℕ
is_blocked blocked = 1
is_blocked _ = 0

-- The thread is about to swap in a count that it took for one that is not negative.
abbrev pub bad_swap : Thread → ℕ
bad_swap (enter_swap (negsuc n)) = 1
bad_swap (block_swap (negsuc n)) = 1
bad_swap _ = 0

-- What ties the count to the threads: `n` threads are inside, `b` have inverted the count and wait,
-- `d` have been told that the region is blocked, and `w` have loaded a count that they must not swap.
pub record Inv (count : ℤ) (n b d w : ℕ) : Type 0 where
  pub agrees : ((b + d ≡ 0) × (count ≡ pos n)) ⊎ ((b + d ≡ 1) × (count ≡ negsuc n))
  pub empty : (d ≡ 0) ⊎ (n ≡ 0)
  pub nonnegative : w ≡ 0

-- The step of one thread, where the others make up the rest of the sums.
abbrev pub Kept : Thread → Action → ℤ → Type 0
Kept t a count =
    (n b d w : ℕ)
    → Inv count (holds t + n) (drains t + b) (is_blocked t + d) (bad_swap t + w)
    → let (t', count') = advance t a count in
      Inv count' (holds t' + n) (drains t' + b) (is_blocked t' + d) (bad_swap t' + w)

pub advance-Kept : (t : Thread) (a : Action) (count : ℤ) → Kept t a count
unfolding advance
advance-Kept rest enter count n b d w v = ground arith
advance-Kept rest block count n b d w v = ground arith
advance-Kept rest exit count n b d w v = ground arith
advance-Kept rest unblock count n b d w v = ground arith
advance-Kept rest idle count n b d w v = ground arith
advance-Kept enter_load a (pos c) n b d w v = ground arith
advance-Kept enter_load a (negsuc c) n b d w v = ground arith
advance-Kept enter_wait a (pos c) n b d w v = ground arith
advance-Kept enter_wait a (negsuc c) n b d w v = ground arith
advance-Kept enter_sleep a count n b d w v = ground arith
advance-Kept (enter_swap (pos l)) a count n b d w v = ground arith
advance-Kept (enter_swap (negsuc l)) a count n b d w v = absurd (omega (arith, v.nonnegative))
advance-Kept (inside k) enter count n b d w v = ground arith
advance-Kept (inside zero) exit count n b d w v = ground arith
advance-Kept (inside (suc k)) exit count n b d w v = ground arith
advance-Kept (inside k) block count n b d w v = ground arith
advance-Kept (inside k) unblock count n b d w v = ground arith
advance-Kept (inside k) idle count n b d w v = ground arith
advance-Kept exit_load a count n b d w v = ground arith
advance-Kept (exit_swap (pos l)) a (pos c) n b d w v = ground arith
advance-Kept (exit_swap (pos l)) a (negsuc c) n b d w v = ground arith
advance-Kept (exit_swap (negsuc l)) a (pos c) n b d w v = ground arith
advance-Kept (exit_swap (negsuc l)) a (negsuc c) n b d w v = ground arith
advance-Kept exit_notify a count n b d w v = ground arith
advance-Kept block_load a (pos c) n b d w v = ground arith
advance-Kept block_load a (negsuc c) n b d w v = ground arith
advance-Kept block_wait a (pos c) n b d w v = ground arith
advance-Kept block_wait a (negsuc c) n b d w v = ground arith
advance-Kept block_sleep a count n b d w v = ground arith
advance-Kept (block_swap (pos l)) a count n b d w v = ground arith
advance-Kept (block_swap (negsuc l)) a count n b d w v = absurd (omega (arith, v.nonnegative))
advance-Kept block_drain a count n b d w v = ground arith
advance-Kept drain_sleep a count n b d w v = ground arith
advance-Kept blocked a count n b d w v = ground arith
