-- ===== src/MarkTerminate/Safety.antt =====
-- What the termination of zMarkTerminate.inline.hpp guarantees in every interleaving of the threads.
use zgc_primax.Base.{
  ℕ, ◌+◌, ◌≤◌, ◌≡◌, refl, ◌≢◌, ◌⊎◌, List, [], ◌∷◌, All, total, run_in, step_in, run_in-Inv, IsAt,
  step_in-IsAt, Some, Some-le-total, arith, subst,
}
use zgc_primax.MarkTerminate.{
  Thread, works, waits, terminated, mutator, Action, idle, reset, advance,
}
use zgc_primax.MarkTerminate.Kinds.{
  Kind, working, waiting, finished, left, weight, Inv, advance-Kept, over-Kept,
}

abbrev pub number : List Thread → Kind → ℕ
number ts k = total (weight k) ts

-- Workers that mark, and other threads.
abbrev pub AreFresh : List Thread → Type 0
AreFresh ts = All (λ t. (t ≡ works) ⊎ (t ≡ mutator)) ts

fresh_lem :
    (ts : List Thread)
    → AreFresh ts
    → (number ts waiting ≡ 0) × (number ts finished ≡ 0) × (number ts left ≡ 0)
fresh_lem [] h = (refl, refl, refl)
fresh_lem (t ∷ ts) h = let rest = fresh_lem ts h.1 in ground (arith, h.0, rest.0, rest.1, rest.2)

start-Inv : (ts : List Thread) → AreFresh ts → Inv (reset (number ts working)) (number ts)
unfolding reset
start-Inv ts h = let f = fresh_lem ts h in ground (arith, f.0, f.1, f.2)

module _ (start : List Thread) (fresh : AreFresh start) (xs : List (ℕ × Action)) where
  reached :
      let (ts, c) = run_in advance xs start (reset (number start working)) in Inv c (number ts)
  reached =
      run_in-Inv advance weight Inv advance-Kept xs start (reset (number start working))
        (start-Inv start fresh)

  -- In every interleaving of workers that begin at work with other threads: once `try_terminate` has
  -- returned true to a worker, no worker is at work, now or ever.
  pub terminated_forever :
      (ys : List (ℕ × Action))
      → let (ts, c) = run_in advance xs start (reset (number start working)) in
        Some terminated ts
        → let (ts', c') = run_in advance ys ts c in
          (number ts working ≡ 0) × (number ts' working ≡ 0)
  terminated_forever ys h =
      let (ts, c) = run_in advance xs start (reset (number start working)) in
      let (ts', c') = run_in advance ys ts c in
      let v : Inv c (number ts) = reached in
      let now : number ts working ≡ 0 =
        ground (arith, Some-le-total (weight finished) terminated ts h) in
      let (w, zero_then) : Inv c' (number ts') × (c'.nworking ≡ 0) =
        run_in-Inv advance weight (λ d n. Inv d n × (d.nworking ≡ 0)) over-Kept ys ts c
          (v, ground arith) in
      (now, ground arith)

  -- In every interleaving of workers that begin at work with other threads: the count of workers at
  -- work is exact, and with those that are to awake it is at most the number of all workers, so that
  -- neither count wraps around.
  pub nworking_exact :
      let (ts, c) = run_in advance xs start (reset (number start working)) in
      (c.nworking ≡ number ts working)
      × (c.nworkers ≡ number ts working + number ts waiting + number ts finished + number ts left)
      × (c.nworking + c.nawakening ≤ c.nworkers)
  nworking_exact = let v = reached in (v.working_counted, v.all_counted, v.not_too_many)

  -- In every interleaving of workers that begin at work with other threads: when no worker is at work,
  -- a worker that waits terminates as soon as its wait ends.
  pub wait_ends :
      (i : ℕ) (a : Action)
      → a ≢ idle
      → let (ts, c) = run_in advance xs start (reset (number start working)) in
        IsAt i waits ts → number ts working ≡ 0 → IsAt i terminated (step_in advance i a ts c).0
  unfolding advance
  wait_ends i a awake at h =
      let (ts, c) = run_in advance xs start (reset (number start working)) in
      let v : Inv c (number ts) = reached in
      let zero_now : c.nworking ≡ 0 = ground arith in
      subst (λ t. IsAt i t (step_in advance i a ts c).0) (ground arith)
        (step_in-IsAt advance i a waits ts c at)
