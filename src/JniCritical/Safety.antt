-- ===== src/JniCritical/Safety.antt =====
-- What the count of zJNICritical.cpp guarantees in every interleaving of the threads.
use native.Mathlib.Nat.{zero-add}
use zgc_primax.Base.{
  total, ℤ, pos, negsuc, ℕ, zero, suc, ◌+◌, ◌≤◌, ◌<◌, ◌≡◌, refl, ◌⊎◌, inl, inr, ◌≢◌, List, [], ◌∷◌,
  All, length, arith, if_cases,
}
use zgc_primax.JniCritical.{
  Thread, rest, blocked, Action, unblock, advance, System, step_in, step, run, start, notifies_in,
  end_sleep, wake_all,
}
use zgc_primax.JniCritical.Count.{holds, drains, is_blocked, bad_swap, Inv, advance-Kept}

-- The invariant of a list of threads, of which more stand beside it.
abbrev InvOf : ℤ → List Thread → ℕ → ℕ → ℕ → ℕ → Type 0
InvOf count ts n b d w =
    Inv count (total holds ts + n) (total drains ts + b) (total is_blocked ts + d)
      (total bad_swap ts + w)

-- A thread of the list is counted with those beside it, or back.
InvOf-out :
    (count : ℤ) (t : Thread) (ts : List Thread) (n b d w : ℕ)
    → InvOf count (t ∷ ts) n b d w
    → Inv count
        (holds t + (total holds ts + n))
        (drains t + (total drains ts + b))
        (is_blocked t + (total is_blocked ts + d))
        (bad_swap t + (total bad_swap ts + w))
InvOf-out count t ts n b d w v = ground arith

InvOf-in :
    (count : ℤ) (t : Thread) (ts : List Thread) (n b d w : ℕ)
    → Inv count
        (holds t + (total holds ts + n))
        (drains t + (total drains ts + b))
        (is_blocked t + (total is_blocked ts + d))
        (bad_swap t + (total bad_swap ts + w))
    → InvOf count (t ∷ ts) n b d w
InvOf-in count t ts n b d w v = ground arith

InvOf-swap :
    (count : ℤ) (t : Thread) (ts : List Thread) (n b d w : ℕ)
    → InvOf count (t ∷ ts) n b d w
    → InvOf count ts (holds t + n) (drains t + b) (is_blocked t + d) (bad_swap t + w)
InvOf-swap count t ts n b d w v = ground arith

InvOf-swap_back :
    (count : ℤ) (t : Thread) (ts : List Thread) (n b d w : ℕ)
    → InvOf count ts (holds t + n) (drains t + b) (is_blocked t + d) (bad_swap t + w)
    → InvOf count (t ∷ ts) n b d w
InvOf-swap_back count t ts n b d w v = ground arith

step_in-InvOf :
    (i : ℕ) (a : Action) (ts : List Thread) (count : ℤ) (n b d w : ℕ)
    → InvOf count ts n b d w
    → let (ts', count') = step_in i a ts count in InvOf count' ts' n b d w
unfolding step_in
step_in-InvOf i a [] count n b d w v = v
step_in-InvOf zero a (t ∷ ts) count n b d w v = InvOf-in _ _ ts n b d w (
    advance-Kept t a count (total holds ts + n) (total drains ts + b) (total is_blocked ts + d)
      (total bad_swap ts + w) (InvOf-out count t ts n b d w v))
step_in-InvOf (suc i) a (t ∷ ts) count n b d w v = InvOf-swap_back _ t _ n b d w (
    step_in-InvOf i a ts count (holds t + n) (drains t + b) (is_blocked t + d) (bad_swap t + w)
      (InvOf-swap count t ts n b d w v))

-- Waking threads changes none of the numbers.
end_sleep-holds : (t : Thread) → holds (end_sleep t) ≡ holds t
unfolding end_sleep
end_sleep-holds t = ground arith

end_sleep-drains : (t : Thread) → drains (end_sleep t) ≡ drains t
unfolding end_sleep
end_sleep-drains t = ground arith

end_sleep-is_blocked : (t : Thread) → is_blocked (end_sleep t) ≡ is_blocked t
unfolding end_sleep
end_sleep-is_blocked t = ground arith

end_sleep-bad_swap : (t : Thread) → bad_swap (end_sleep t) ≡ bad_swap t
unfolding end_sleep
end_sleep-bad_swap t = ground arith

pub total-wake_all :
    (f : Thread → ℕ)
    → ((t : Thread) → f (end_sleep t) ≡ f t)
    → (ts : List Thread) → total f (wake_all ts) ≡ total f ts
unfolding wake_all
total-wake_all f same [] = refl
total-wake_all f same (t ∷ ts) = omega (arith, same t, total-wake_all f same ts)

abbrev pub SystemInv : System → Type 0
SystemInv s =
    Inv s.count (total holds s.threads) (total drains s.threads) (total is_blocked s.threads)
      (total bad_swap s.threads)

Inv-zeros :
    (count : ℤ) (n b d w : ℕ) → Inv count n b d w → Inv count (n + 0) (b + 0) (d + 0) (w + 0)
Inv-zeros count n b d w v = ground arith

Inv-no_zeros :
    (count : ℤ) (n b d w : ℕ) → Inv count (n + 0) (b + 0) (d + 0) (w + 0) → Inv count n b d w
Inv-no_zeros count n b d w v = ground arith

pub step-SystemInv : (x : ℕ × Action) (s : System) → SystemInv s → SystemInv (step x s)
unfolding step
step-SystemInv (i, a) s v =
    let (ts, count) = step_in i a s.threads s.count in
    let moved : SystemInv (record { count = count; threads = ts }) =
      Inv-no_zeros _ _ _ _ _
        (step_in-InvOf i a s.threads s.count 0 0 0 0 (Inv-zeros _ _ _ _ _ v)) in
    if_cases (λ ts'. SystemInv (record { count = count; threads = ts' }))
      (notifies_in i a s.threads)
      (λ e.
        rw
          (
            total-wake_all holds end_sleep-holds ts,
            total-wake_all drains end_sleep-drains ts,
            total-wake_all is_blocked end_sleep-is_blocked ts,
            total-wake_all bad_swap end_sleep-bad_swap ts,
          )
          moved)
      (λ e. moved)

pub run-SystemInv : (xs : List (ℕ × Action)) (s : System) → SystemInv s → SystemInv (run xs s)
unfolding run
run-SystemInv [] s v = v
run-SystemInv (x ∷ xs) s v = run-SystemInv xs (step x s) (step-SystemInv x s v)

pub start_total :
    (f : Thread → ℕ) → f rest ≡ 0 → (ts : List Thread) → All (λ t. t ≡ rest) ts → total f ts ≡ 0
start_total f z [] h = refl
start_total f z (t ∷ ts) h = rw (h.0, z, zero-add) (start_total f z ts h.1)

pub start-SystemInv : (ts : List Thread) → All (λ t. t ≡ rest) ts → SystemInv (start ts)
unfolding start
start-SystemInv ts h = ground (
  arith,
  start_total holds refl ts h,
  start_total drains refl ts h,
  start_total is_blocked refl ts h,
  start_total bad_swap refl ts h,
)

total_zero : (f : Thread → ℕ) (ts : List Thread) → total f ts ≡ 0 → All (λ t. f t ≡ 0) ts
total_zero f [] h = tt
total_zero f (t ∷ ts) h = (omega arith, total_zero f ts (omega arith))

-- Some thread has been told by `block` that the region is blocked.
pub data SomeBlocked : List Thread → Type 0 where
  here : (ts : List Thread) → SomeBlocked (blocked ∷ ts)
  there : {ts : List Thread} (t : Thread) → SomeBlocked ts → SomeBlocked (t ∷ ts)

total-SomeBlocked : {ts : List Thread} → SomeBlocked ts → 0 < total is_blocked ts
total-SomeBlocked (here ts) = omega arith
total-SomeBlocked (there t h) = omega (arith, total-SomeBlocked h)

total-le-length :
    (f : Thread → ℕ) → ((t : Thread) → f t ≤ 1) → (ts : List Thread) → total f ts ≤ length ts
total-le-length f one [] = omega arith
total-le-length f one (t ∷ ts) = omega (arith, one t, total-le-length f one ts)

holds_le : (t : Thread) → holds t ≤ 1
holds_le t = ground arith

module _ (ts : List Thread) (resting : All (λ t. t ≡ rest) ts) (xs : List (ℕ × Action)) where
  -- In every interleaving of threads that begin at rest, once block has returned to a thread no
  -- thread is inside a critical region, the count is -1, and block has returned to no other thread.
  pub blocked_alone :
      let s = run xs (start ts) in
      SomeBlocked s.threads
      → All (λ t. holds t ≡ 0) s.threads × (s.count ≡ negsuc 0) × (total is_blocked s.threads ≡ 1)
  blocked_alone some =
      let s = run xs (start ts) in
      let v = run-SystemInv xs (start ts) (start-SystemInv ts resting) in
      let told = total-SomeBlocked some in
      let none_inside : total holds s.threads ≡ 0 = ground arith in
      (total_zero holds s.threads none_inside, ground arith, ground arith)

  -- The count never leaves the range from -(t + 1) to t, for t threads: it does not overflow.
  pub count_bounds :
      let s = run xs (start ts) in
      ((c : ℕ) × (s.count ≡ pos c) × (c ≤ length s.threads))
      ⊎ ((c : ℕ) × (s.count ≡ negsuc c) × (c ≤ length s.threads))
  count_bounds =
      let s = run xs (start ts) in
      let v = run-SystemInv xs (start ts) (start-SystemInv ts resting) in
      let le = total-le-length holds holds_le s.threads in
      elim v.agrees [
        | inl h ↦ inl (total holds s.threads, h.1, le)
        | inr h ↦ inr (total holds s.threads, h.1, le)
      ]

advance_blocked : (a : Action) (count : ℤ) → a ≢ unblock → (advance blocked a count).0 ≡ blocked
unfolding advance
advance_blocked unblock count other = absurd (other refl)
advance_blocked _ count other = refl

step_in-SomeBlocked :
    (i : ℕ) (a : Action) {ts : List Thread} (count : ℤ)
    → a ≢ unblock
    → SomeBlocked ts
    → SomeBlocked (step_in i a ts count).0
unfolding step_in
step_in-SomeBlocked zero a count other (here ts) = rw (advance_blocked a count other) (here ts)
step_in-SomeBlocked (suc i) a count other (here ts) = here _
step_in-SomeBlocked zero a count other (there t h) = there _ h
step_in-SomeBlocked (suc i) a count other (there t h) =
    there t (step_in-SomeBlocked i a count other h)

wake_all-SomeBlocked : {ts : List Thread} → SomeBlocked ts → SomeBlocked (wake_all ts)
unfolding wake_all end_sleep
wake_all-SomeBlocked (here ts) = here (wake_all ts)
wake_all-SomeBlocked (there t h) = there (end_sleep t) (wake_all-SomeBlocked h)

-- Once a thread has blocked the region, it stays so at every step that is not an `unblock`.
pub step-SomeBlocked :
    (i : ℕ) (a : Action) (s : System)
    → a ≢ unblock
    → SomeBlocked s.threads
    → SomeBlocked (step (i, a) s).threads
unfolding step
step-SomeBlocked i a s other h =
    let moved = step_in-SomeBlocked i a s.count other h in
    if_cases SomeBlocked (notifies_in i a s.threads) (λ e. wake_all-SomeBlocked moved) (λ e. moved)
