-- ===== src/MarkTerminate.antt =====
-- zMarkTerminate.inline.hpp: how the marking workers agree that no work is left. A step is one access to
-- the shared counts, or one section under the lock. A waiting worker may wake at any step, since wakeups
-- can be spurious.
pub mod Kinds
pub mod Safety
mod Tests
use zgc_primax.Base.{ℕ, zero, suc, ◌+◌, ◌-◌, Bool, true, false, ltb, ◌==◌, if◌then◌else◌}

-- `ZMarkTerminate`, without the lock and `_resurrected`, which nothing here depends on.
pub record Counts : Type 0 where
  pub nworkers : ℕ
  pub nworking : ℕ
  pub nawakening : ℕ

-- Where a thread is. In `wake_up` it is remembered whether it is a worker, and what it has loaded.
pub data Thread : Type 0 where
  -- A worker that marks.
  works : Thread
  -- In `try_terminate`, behind `_lock.wait`.
  waits : Thread
  -- `try_terminate` has returned true.
  terminated : Thread
  -- `leave` has returned.
  gone : Thread
  -- A thread that is no worker, and marks as well.
  mutator : Thread
  wake_load : Bool → Thread
  wake_test : Bool → ℕ → Thread
  wake_locked : Bool → Thread

pub data Action : Type 0 where
  try_terminate leave wake_up idle : Action

-- `reset`
pub reset : ℕ → Counts
reset nworkers = record { nworkers = nworkers; nworking = nworkers; nawakening = 0 }

abbrev caller : Bool → Thread
caller true = works
caller false = mutator

-- The first locked section of `try_terminate`, up to `_lock.wait`. `_nworking` is not 0 there.
enter_termination : Counts → Thread × Counts
enter_termination c =
    (if c.nworking - 1 == 0 then terminated else waits, record c { nworking = c.nworking - 1 })

-- What `try_terminate` does when the wait ends.
wake : Counts → Thread × Counts
wake c =
    let nawakening = if ltb 0 c.nawakening then c.nawakening - 1 else c.nawakening in
    if c.nworking == 0
    then (terminated, record c { nawakening = nawakening })
    else (works, record c { nawakening = nawakening; nworking = c.nworking + 1 })

work : Action → Counts → Thread × Counts
unfolding enter_termination
work try_terminate c = enter_termination c
work leave c = (gone, record c { nworking = c.nworking - 1 })
work wake_up c = (wake_load true, c)
work idle c = (works, c)

wait_or_wake : Action → Counts → Thread × Counts
unfolding wake
wait_or_wake idle c = (waits, c)
wait_or_wake _ c = wake c

mutate : Action → Thread
mutate wake_up = wake_load false
mutate _ = mutator

-- The next step of a thread.
pub advance : Thread → Action → Counts → Thread × Counts
unfolding work wait_or_wake mutate
advance works a c = work a c
advance waits a c = wait_or_wake a c
advance mutator a c = (mutate a, c)
advance (wake_load worker) a c = (wake_test worker c.nworking, c)
advance (wake_test worker nworking) a c =
    if nworking + c.nawakening == c.nworkers
    then (caller worker, c)
    else (if nworking == 0 then (caller worker, c) else (wake_locked worker, c))
advance (wake_locked worker) a c =
    if c.nworking + c.nawakening == c.nworkers
    then (caller worker, c)
    else (caller worker, record c { nawakening = c.nawakening + 1 })
advance terminated a c = (terminated, c)
advance gone a c = (gone, c)

-- `saturated`
pub saturated : Counts → Bool
saturated c = c.nworking + c.nawakening == c.nworkers
