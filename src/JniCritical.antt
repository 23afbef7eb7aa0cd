-- ===== src/JniCritical.antt =====
-- zJNICritical.cpp: the count by which a GC thread keeps Java threads out of JNI critical regions. A
-- step is one access to the shared count by one thread, so compare-and-exchange may fail between. A loop
-- that waits reads the count and falls asleep in one step, since it has the lock. The sleeping threads
-- are woken by `notify_all` alone.
pub mod Count
pub mod Safety
pub mod Wake
mod Tests
use zgc_primax.Base.{
  ℤ, pos, negsuc, is_negative, eq_ℤ, increment, decrement, ℕ, zero, suc, Bool, true, false, List,
  [], ◌∷◌, ◌==◌, if◌then◌else◌,
}

-- -(count + 1)
abbrev pub increment_and_invert : ℤ → ℤ
increment_and_invert (pos n) = negsuc n
increment_and_invert (negsuc n) = pos n

-- Where a thread is in the code. Behind a load the loaded count is kept.
pub data Thread : Type 0 where
  -- In no operation and no critical region.
  rest : Thread
  enter_load enter_wait enter_sleep : Thread
  enter_swap : ℤ → Thread
  -- In a critical region, that many times beyond the first.
  inside : ℕ → Thread
  exit_load : Thread
  exit_swap : ℤ → Thread
  -- Out of the region as the last one, about to call `notify_all`.
  exit_notify : Thread
  block_load block_wait block_sleep block_drain drain_sleep : Thread
  block_swap : ℤ → Thread
  -- `block` has returned.
  blocked : Thread

-- What a thread that is in no operation does next.
pub data Action : Type 0 where
  enter exit block unblock idle : Action

-- `Atomic::cmpxchg(&_count, loaded, new)`, and where the thread goes on success and on failure.
abbrev swap : ℤ → ℤ → ℤ → Thread → Thread → Thread × ℤ
swap count loaded new ok failed = if eq_ℤ count loaded then (ok, new) else (failed, count)

-- `exit_inner` with a loaded count.
abbrev exited : ℤ → ℤ
exited (pos zero) = increment (pos zero)
exited (pos (suc n)) = decrement (pos (suc n))
exited (negsuc n) = increment (negsuc n)

-- Where `exit_inner` goes on.
abbrev pub after_exit : ℤ → Thread
after_exit loaded = if eq_ℤ loaded (negsuc 1) then exit_notify else rest

-- What a thread at rest begins.
begin : Action → Thread
begin enter = enter_load
begin block = block_load
begin _ = rest

-- `enter` and `exit` of a thread that is inside: only the last `exit` leaves the region.
nested : Action → ℕ → Thread
nested enter n = inside (suc n)
nested exit zero = exit_load
nested exit (suc n) = inside n
nested _ n = inside n

unblock_or_stay : Action → ℤ → Thread × ℤ
unblock_or_stay unblock count = (rest, pos 0)
unblock_or_stay _ count = (blocked, count)

-- The next step of a thread: where it is then, and the count.
pub advance : Thread → Action → ℤ → Thread × ℤ
unfolding begin nested unblock_or_stay
advance rest a count = (begin a, count)
advance enter_load a count =
    if is_negative count then (enter_wait, count) else (enter_swap count, count)
advance enter_wait a count = if is_negative count then (enter_sleep, count) else (enter_load, count)
advance enter_sleep a count = (enter_sleep, count)
advance (enter_swap loaded) a count = swap count loaded (increment loaded) (inside zero) enter_load
advance (inside n) a count = (nested a n, count)
advance exit_load a count = (exit_swap count, count)
advance (exit_swap loaded) a count = swap count loaded (exited loaded) (after_exit loaded) exit_load
advance exit_notify a count = (rest, count)
advance block_load a count =
    if is_negative count then (block_wait, count) else (block_swap count, count)
advance block_wait a count = if is_negative count then (block_sleep, count) else (block_load, count)
advance block_sleep a count = (block_sleep, count)
advance (block_swap loaded) a count =
    swap count loaded (increment_and_invert loaded)
      (if eq_ℤ loaded (pos 0) then blocked else block_drain) block_load
advance block_drain a count =
    if eq_ℤ count (negsuc 0) then (blocked, count) else (drain_sleep, count)
advance drain_sleep a count = (drain_sleep, count)
advance blocked a count = unblock_or_stay a count

-- The steps that call `notify_all`.
pub notifies : Thread → Action → Bool
notifies exit_notify a = true
notifies blocked unblock = true
notifies _ a = false

pub notifies_in : ℕ → Action → List Thread → Bool
unfolding notifies
notifies_in i a [] = false
notifies_in zero a (t ∷ ts) = notifies t a
notifies_in (suc i) a (t ∷ ts) = notifies_in i a ts

-- A sleeping thread goes back to the condition of its loop.
pub end_sleep : Thread → Thread
end_sleep enter_sleep = enter_wait
end_sleep block_sleep = block_wait
end_sleep drain_sleep = block_drain
end_sleep t = t

pub wake_all : List Thread → List Thread
unfolding end_sleep
wake_all [] = []
wake_all (t ∷ ts) = end_sleep t ∷ wake_all ts

-- The shared count, and all threads.
pub record System : Type 0 where
  pub count : ℤ
  pub threads : List Thread

-- A step of the thread with the given number, if there is one.
pub step_in : ℕ → Action → List Thread → ℤ → List Thread × ℤ
unfolding advance
step_in i a [] count = ([], count)
step_in zero a (t ∷ ts) count = let (t', count') = advance t a count in (t' ∷ ts, count')
step_in (suc i) a (t ∷ ts) count = let (ts', count') = step_in i a ts count in (t ∷ ts', count')

pub step : ℕ × Action → System → System
unfolding step_in notifies_in wake_all
step (i, a) s =
    let (ts, count) = step_in i a s.threads s.count in
    record { count = count; threads = if notifies_in i a s.threads then wake_all ts else ts }

-- Any interleaving is a list of steps.
pub run : List (ℕ × Action) → System → System
unfolding step
run [] s = s
run (x ∷ xs) s = run xs (step x s)

-- `ZJNICritical::initialize`, with so many threads at rest.
pub start : List Thread → System
start threads = record { count = pos 0; threads = threads }
