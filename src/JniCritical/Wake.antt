-- ===== src/JniCritical/Wake.antt =====
-- That no thread of zJNICritical.cpp sleeps on in `block` when the region is free.
use zgc_primax.Base.{
  total, ℤ, pos, negsuc, ℕ, zero, suc, ◌+◌, ◌≤◌, ◌<◌, ◌≡◌, refl, ap, ◌∙◌, ◌⊎◌, inl, inr, true,
  false, List, [], ◌∷◌, All, arith, if_cases, IsAt, IsAt-le-total,
}
use zgc_primax.JniCritical.{
  Thread, rest, enter_load, enter_wait, enter_sleep, enter_swap, inside, exit_load, exit_swap,
  exit_notify, block_load, block_wait, block_sleep, block_swap, block_drain, drain_sleep, blocked,
  Action, enter, exit, block, unblock, idle, advance, System, step_in, step, run, start, notifies,
  notifies_in, end_sleep, wake_all,
}
use zgc_primax.JniCritical.Count.{holds, drains, is_blocked, bad_swap, Inv}
use zgc_primax.JniCritical.Safety.{
  SystemInv, step-SystemInv, run-SystemInv, start-SystemInv, start_total,
}

-- The thread sleeps in `block` until the others have left.
abbrev sleeps : Thread → ℕ
sleeps drain_sleep = 1
sleeps _ = 0

-- The thread is about to call `notify_all`.
abbrev signals : Thread → ℕ
signals exit_notify = 1
signals _ = 0

sleeps_le : (ts : List Thread) → total sleeps ts ≤ total drains ts
sleeps_le [] = omega arith
sleeps_le (t ∷ ts) = ground (arith, sleeps_le ts)

-- Where a thread sleeps so, others are inside, or one that has left will wake it.
abbrev IsAwake : (inside sleeping signalling : ℕ) → Type 0
IsAwake h s e = (s ≡ 0) ⊎ ((0 < h) ⊎ (0 < e))

-- The step of one thread, beside so many others of each kind.
advance-IsAwake :
    (t : Thread) (a : Action) (count : ℤ) (n b d w s e : ℕ)
    → Inv count (holds t + n) (drains t + b) (is_blocked t + d) (bad_swap t + w)
    → s ≤ b
    → notifies t a ≡ false
    → IsAwake (holds t + n) (sleeps t + s) (signals t + e)
    → let t' = (advance t a count).0 in IsAwake (holds t' + n) (sleeps t' + s) (signals t' + e)
unfolding advance notifies
advance-IsAwake rest enter count n b d w s e v le q k = ground arith
advance-IsAwake rest block count n b d w s e v le q k = ground arith
advance-IsAwake rest exit count n b d w s e v le q k = ground arith
advance-IsAwake rest unblock count n b d w s e v le q k = ground arith
advance-IsAwake rest idle count n b d w s e v le q k = ground arith
advance-IsAwake enter_load a count n b d w s e v le q k = ground arith
advance-IsAwake enter_wait a count n b d w s e v le q k = ground arith
advance-IsAwake enter_sleep a count n b d w s e v le q k = ground arith
advance-IsAwake (enter_swap l) a count n b d w s e v le q k = ground arith
advance-IsAwake (inside i) enter count n b d w s e v le q k = ground arith
advance-IsAwake (inside zero) exit count n b d w s e v le q k = ground arith
advance-IsAwake (inside (suc i)) exit count n b d w s e v le q k = ground arith
advance-IsAwake (inside i) block count n b d w s e v le q k = ground arith
advance-IsAwake (inside i) unblock count n b d w s e v le q k = ground arith
advance-IsAwake (inside i) idle count n b d w s e v le q k = ground arith
advance-IsAwake exit_load a count n b d w s e v le q k = ground arith
advance-IsAwake (exit_swap (pos l)) a (pos c) n b d w s e v le q k = ground arith
advance-IsAwake (exit_swap (pos l)) a (negsuc c) n b d w s e v le q k = ground arith
advance-IsAwake (exit_swap (negsuc l)) a (pos c) n b d w s e v le q k = ground arith
advance-IsAwake (exit_swap (negsuc l)) a (negsuc c) n b d w s e v le q k = ground arith
advance-IsAwake exit_notify a count n b d w s e v le q k = ground arith
advance-IsAwake block_load a count n b d w s e v le q k = ground arith
advance-IsAwake block_wait a count n b d w s e v le q k = ground arith
advance-IsAwake block_sleep a count n b d w s e v le q k = ground arith
advance-IsAwake (block_swap l) a count n b d w s e v le q k = ground arith
advance-IsAwake block_drain a count n b d w s e v le q k = ground arith
advance-IsAwake drain_sleep a count n b d w s e v le q k = ground arith
advance-IsAwake blocked a count n b d w s e v le q k = ground arith

-- The thread whose turn it is, and the numbers of the others.
record Turn (i : ℕ) (a : Action) (ts : List Thread) (count : ℤ) : Type 0 where
  thread : Thread
  others : (Thread → ℕ) → ℕ
  before : (f : Thread → ℕ) → total f ts ≡ f thread + others f
  after :
      (f : Thread → ℕ) → total f (step_in i a ts count).0 ≡ f (advance thread a count).0 + others f
  sleepers : others sleeps ≤ others drains
  notified : notifies_in i a ts ≡ notifies thread a

turn :
    (i : ℕ) (a : Action) (ts : List Thread) (count : ℤ)
    → ((step_in i a ts count).0 ≡ ts) ⊎ Turn i a ts count
unfolding step_in notifies_in
turn i a [] count = inl refl
turn zero a (t ∷ ts) count = inr (record {
  thread = t;
  others = λ f. total f ts;
  before = λ f. refl;
  after = λ f. refl;
  sleepers = sleeps_le ts;
  notified = refl;
})
turn (suc i) a (t ∷ ts) count = elim (turn i a ts count) [
  | inl same ↦ inl (ap (λ l. t ∷ l) same)
  | inr u ↦ inr (record {
    thread = u.thread;
    others = λ f. f t + u.others f;
    before = λ f. omega (arith, u.before f);
    after = λ f. omega (arith, u.after f);
    sleepers = ground (arith, u.sleepers);
    notified = u.notified;
  })
]

abbrev AreAwake : List Thread → Type 0
AreAwake ts = IsAwake (total holds ts) (total sleeps ts) (total signals ts)

wake_all-AreAwake : (ts : List Thread) → total sleeps (wake_all ts) ≡ 0
unfolding wake_all end_sleep
wake_all-AreAwake [] = refl
wake_all-AreAwake (t ∷ ts) = ground (arith, wake_all-AreAwake ts)

step_in-AreAwake :
    (i : ℕ) (a : Action) (s : System)
    → SystemInv s
    → notifies_in i a s.threads ≡ false
    → AreAwake s.threads
    → AreAwake (step_in i a s.threads s.count).0
step_in-AreAwake i a s v quiet h = elim (turn i a s.threads s.count) [
  | inl same ↦ rw same h
  | inr u ↦
      let moved =
        advance-IsAwake u.thread a s.count (u.others holds) (u.others drains) (u.others is_blocked)
          (u.others bad_swap) (u.others sleeps) (u.others signals)
          (rw (u.before holds, u.before drains, u.before is_blocked, u.before bad_swap) at v)
          u.sleepers (rw u.notified at quiet)
          (rw (u.before holds, u.before sleeps, u.before signals) at h) in
      rw (u.after holds, u.after sleeps, u.after signals) moved
]

step-AreAwake :
    (x : ℕ × Action) (s : System) → SystemInv s → AreAwake s.threads → AreAwake (step x s).threads
unfolding step
step-AreAwake (i, a) s v h =
    if_cases AreAwake (notifies_in i a s.threads)
      (λ told. inl (wake_all-AreAwake (step_in i a s.threads s.count).0))
      (λ quiet. step_in-AreAwake i a s v quiet h)

run-AreAwake :
    (xs : List (ℕ × Action)) (s : System)
    → SystemInv s
    → AreAwake s.threads
    → AreAwake (run xs s).threads
unfolding run
run-AreAwake [] s v h = h
run-AreAwake (x ∷ xs) s v h =
    run-AreAwake xs (step x s) (step-SystemInv x s v) (step-AreAwake x s v h)

-- A thread that is about to call `notify_all`, where there is one.
some_signal : (ts : List Thread) → 0 < total signals ts → (j : ℕ) × IsAt j exit_notify ts
some_signal [] h = absurd (omega arith)
some_signal (exit_notify ∷ ts) h = (0, refl)
some_signal (t ∷ ts) h = let w = some_signal ts (omega arith) in (suc w.0, w.1)

total_of_zeros : (f : Thread → ℕ) (ts : List Thread) → All (λ t. f t ≡ 0) ts → total f ts ≡ 0
total_of_zeros f [] h = refl
total_of_zeros f (t ∷ ts) h = omega (arith, total_of_zeros f ts h.1)

step_in-drain :
    (i : ℕ) (a : Action) (ts : List Thread)
    → IsAt i block_drain ts
    → IsAt i blocked (step_in i a ts (negsuc 0)).0
unfolding step_in advance
step_in-drain i a [] at = elim at [ ]
step_in-drain zero a (t ∷ ts) at = rw at refl
step_in-drain (suc i) a (t ∷ ts) at = step_in-drain i a ts at

IsAt-wake_all :
    (i : ℕ) (t : Thread) (ts : List Thread) → IsAt i t ts → IsAt i (end_sleep t) (wake_all ts)
unfolding wake_all
IsAt-wake_all i t [] at = elim at [ ]
IsAt-wake_all zero t (x ∷ ts) at = ap end_sleep at
IsAt-wake_all (suc i) t (x ∷ ts) at = IsAt-wake_all i t ts at

step-drain :
    (i : ℕ) (a : Action) (s : System)
    → s.count ≡ negsuc 0
    → IsAt i block_drain s.threads
    → IsAt i blocked (step (i, a) s).threads
unfolding step end_sleep
step-drain i a s one at =
    let moved : IsAt i blocked (step_in i a s.threads s.count).0 =
      rw one (step_in-drain i a s.threads at) in
    if_cases (IsAt i blocked) (notifies_in i a s.threads)
      (λ e. IsAt-wake_all i blocked (step_in i a s.threads s.count).0 moved) (λ e. moved)

signal_in :
    (j : ℕ) (c : Action) (ts : List Thread) (count : ℤ)
    → IsAt j exit_notify ts
    → ((step_in j c ts count).1 ≡ count) × (notifies_in j c ts ≡ true)
unfolding step_in advance notifies_in notifies
signal_in j c [] count to = elim to [ ]
signal_in zero c (t ∷ ts) count to = rw to (refl, refl)
signal_in (suc j) c (t ∷ ts) count to = signal_in j c ts count to

-- The step of a thread that calls `notify_all`, for itself and for one that sleeps.
notify_in :
    (i j : ℕ) (c : Action) (ts : List Thread) (count : ℤ)
    → IsAt i drain_sleep ts
    → IsAt j exit_notify ts
    → IsAt i drain_sleep (step_in j c ts count).0
      × ((step_in j c ts count).1 ≡ count)
      × (notifies_in j c ts ≡ true)
unfolding step_in advance notifies_in notifies
notify_in i j c [] count at to = elim at [ ]
notify_in zero zero c (t ∷ ts) count at to = absurd (ground (arith, ap sleeps at, ap sleeps to))
notify_in zero (suc j) c (t ∷ ts) count at to =
    let told = signal_in j c ts count to in (at, told.0, told.1)
notify_in (suc i) zero c (t ∷ ts) count at to = rw to (at, refl, refl)
notify_in (suc i) (suc j) c (t ∷ ts) count at to = notify_in i j c ts count at to

step-notify :
    (i j : ℕ) (c : Action) (s : System)
    → IsAt i drain_sleep s.threads
    → IsAt j exit_notify s.threads
    → IsAt i block_drain (step (j, c) s).threads × ((step (j, c) s).count ≡ s.count)
unfolding step end_sleep
step-notify i j c s at to =
    let told = notify_in i j c s.threads s.count at to in
    (rw told.2 (IsAt-wake_all i drain_sleep (step_in j c s.threads s.count).0 told.0), told.1)

start-AreAwake : (ts : List Thread) → All (λ t. t ≡ rest) ts → AreAwake (start ts).threads
unfolding start
start-AreAwake ts resting = inl (start_total sleeps refl ts resting)

-- In every interleaving of threads that begin at rest, a thread that waits in block for the others
-- to leave, when no thread is inside. Its next step lets it return from block, or it sleeps, and
-- some thread is about to call `notify_all`, after whose step its own next step lets it return.
pub drain-IsBlocked :
    (ts : List Thread) (xs : List (ℕ × Action)) (i : ℕ) (a c : Action)
    → All (λ t. t ≡ rest) ts
    → let s = run xs (start ts) in
      All (λ t. holds t ≡ 0) s.threads
      → IsAt i block_drain s.threads ⊎ IsAt i drain_sleep s.threads
      → IsAt i blocked (step (i, a) s).threads
        ⊎ ((j : ℕ) × IsAt j exit_notify s.threads
            × IsAt i blocked (step (i, a) (step (j, c) s)).threads)
drain-IsBlocked ts xs i a c resting none_inside waits =
    let s = run xs (start ts) in
    let v = run-SystemInv xs (start ts) (start-SystemInv ts resting) in
    let awake =
      run-AreAwake xs (start ts) (start-SystemInv ts resting) (start-AreAwake ts resting) in
    let zero_inside = total_of_zeros holds s.threads none_inside in
    elim waits [
      | inl at ↦
          let one : s.count ≡ negsuc 0 =
            ground
              (arith, v.agrees, zero_inside, IsAt-le-total drains i block_drain s.threads at) in
          inl (step-drain i a s one at)
      | inr at ↦
          let one : s.count ≡ negsuc 0 =
            ground
              (arith, v.agrees, zero_inside, IsAt-le-total drains i drain_sleep s.threads at) in
          let (j, to) =
            some_signal s.threads (
              ground
                (arith, awake, zero_inside, IsAt-le-total sleeps i drain_sleep s.threads at)) in
          let told = step-notify i j c s at to in
          inr (j, to, step-drain i a (step (j, c) s) (told.1 ∙ one) told.0)
    ]
