-- ===== src/Forwarding/RefCount/Safety.antt =====
-- What the reference count of zForwarding.cpp guarantees in every interleaving of the threads.
use zgc_primax.Base.{
  Some, Some-le-total, IsAt-le-total, ℤ, pos, negsuc, ℕ, ◌+◌, ◌≤◌, ◌<◌, ◌≡◌, refl, ◌⊎◌, inl, inr,
  ◌↔◌, List, [], ◌∷◌, All, length, total, run_in, step_in, run_in-Inv, IsAt, step_in-IsAt, arith,
  subst,
}
use zgc_primax.Forwarding.RefCount.{
  Thread, outside, detach_wait, relocates, claimed, claim_wait, detached, failed, Action, advance,
}
use zgc_primax.Forwarding.RefCount.Kinds.{
  Kind, holds, waits, claims, may_claim, wrong, has_detached, weight, Inv, advance-Kept,
}

-- How many threads of the list are of the kind.
abbrev pub number : List Thread → Kind → ℕ
number ts k = total (weight k) ts

number-le-length :
    (ts : List Thread) → number ts holds + number ts waits + number ts claims ≤ length ts
number-le-length [] = omega arith
number-le-length (t ∷ ts) =
    let one : weight holds t + weight waits t + weight claims t ≤ 1 = ground arith in
    omega (arith, one, number-le-length ts)

outside-number : (ts : List Thread) → All (λ t. t ≡ outside) ts → (k : Kind) → number ts k ≡ 0
outside-number [] h k = refl
outside-number (t ∷ ts) h k =
    let zero_here : weight k t ≡ 0 = rw h.0 (ground arith) in
    omega (arith, zero_here, outside-number ts h.1 k)

start-Inv : (ts : List Thread) → All (λ t. t ≡ outside) ts → Inv (pos 1) (number (relocates ∷ ts))
start-Inv ts h = ground (
  arith,
  outside-number ts h holds,
  outside-number ts h waits,
  outside-number ts h claims,
  outside-number ts h may_claim,
  outside-number ts h wrong,
  outside-number ts h has_detached,
)

-- The threads of a list have references.
abbrev pub holders : List Thread → ℕ
holders ts = number ts holds + number ts waits + number ts claims

-- No thread finds a count of 0 and changes it.
zero-Kept :
    (t : Thread) (a : Action) (count : ℤ) (n : Kind → ℕ)
    → Inv count (λ k. weight k t + n k) × (count ≡ pos 0)
    → let (t', count') = advance t a count in Inv count' (λ k. weight k t' + n k) × (count' ≡ pos 0)
unfolding advance
zero-Kept t a count n (v, z) = (advance-Kept t a count n v, ground arith)

module _ (others : List Thread) (at_rest : All (λ t. t ≡ outside) others)
    (xs : List (ℕ × Action)) where
  reached :
      let (ts, count) = run_in advance xs (relocates ∷ others) (pos 1) in Inv count (number ts)
  reached =
      run_in-Inv advance weight Inv advance-Kept xs (relocates ∷ others) (pos 1)
        (start-Inv others at_rest)

  -- In every interleaving of a thread that relocates the page with others that begin outside: no
  -- assertion fails, and the count is 0 just if no thread has a reference.
  pub never_failed :
      let (ts, count) = run_in advance xs (relocates ∷ others) (pos 1) in
      (¬ Some failed ts) × ((holders ts ≡ 0) ↔ (count ≡ pos 0))
  never_failed =
      let v = reached in
      let ts = (run_in advance xs (relocates ∷ others) (pos 1)).0 in
      (
        λ h. omega (arith, v.sound, Some-le-total (weight wrong) failed ts h),
        (λ h. ground arith, λ h. ground arith),
      )

  -- In every interleaving of a thread that relocates the page with others that begin outside:
  -- while a thread has claimed the page, it has the only reference, and the count is -1.
  pub claimed_alone :
      let (ts, count) = run_in advance xs (relocates ∷ others) (pos 1) in
      Some claimed ts → (holders ts ≡ 1) × (count ≡ negsuc 0)
  claimed_alone h =
      let v = reached in
      let ts = (run_in advance xs (relocates ∷ others) (pos 1)).0 in
      ground (arith, Some-le-total (weight claims) claimed ts h)

  -- In every interleaving of a thread that relocates the page with others that begin outside, the
  -- absolute value of the count is at most the number of threads, so that it does not overflow.
  pub count_fits :
      let (ts, count) = run_in advance xs (relocates ∷ others) (pos 1) in
      ((c : ℕ) × (count ≡ pos c) × (c ≤ length ts))
      ⊎ ((c : ℕ) × (count ≡ negsuc c) × (c < length ts))
  count_fits =
      let v = reached in
      let ts = (run_in advance xs (relocates ∷ others) (pos 1)).0 in
      elim v.agrees [
        | inl h ↦ inl (number ts holds, h.1, omega (arith, number-le-length ts))
        | inr h ↦ inr (number ts holds, h.1, omega (arith, h.0, number-le-length ts))
      ]

  -- In every interleaving of a thread that relocates the page with others that begin outside:
  -- once a thread has detached the page, or the count is 0, it is 0 forever, and no thread gets a
  -- reference.
  pub detached_forever :
      (ys : List (ℕ × Action))
      → let (ts, count) = run_in advance xs (relocates ∷ others) (pos 1) in
        Some detached ts ⊎ (count ≡ pos 0)
        → let (ts', count') = run_in advance ys ts count in (count' ≡ pos 0) × (holders ts' ≡ 0)
  detached_forever ys now =
      let (ts, count) = run_in advance xs (relocates ∷ others) (pos 1) in
      let (ts', count') = run_in advance ys ts count in
      let v : Inv count (number ts) = reached in
      let zero_now : count ≡ pos 0 = elim now [
        | inl h ↦ ground (arith, Some-le-total (weight has_detached) detached ts h)
        | inr z ↦ z
      ] in
      let (w, zero_then) : Inv count' (number ts') × (count' ≡ pos 0) =
        run_in-Inv advance weight (λ c n. Inv c n × (c ≡ pos 0)) zero-Kept ys ts count
          (v, zero_now) in
      (zero_then, ground arith)

  -- In every interleaving of a thread that relocates the page with others that begin outside: a
  -- thread that waits to claim the page has claimed it by its next step when no other thread has
  -- a reference.
  pub claim_ends :
      (i : ℕ) (a : Action)
      → let (ts, count) = run_in advance xs (relocates ∷ others) (pos 1) in
        IsAt i claim_wait ts → holders ts ≡ 1 → IsAt i claimed (step_in advance i a ts count).0
  unfolding advance
  claim_ends i a at h =
      let (ts, count) = run_in advance xs (relocates ∷ others) (pos 1) in
      let v : Inv count (number ts) = reached in
      let one : count ≡ negsuc 0 =
        ground (arith, IsAt-le-total (weight waits) i claim_wait ts at) in
      subst (λ t. IsAt i t (step_in advance i a ts count).0) (ground arith)
        (step_in-IsAt advance i a claim_wait ts count at)

  -- In every interleaving of a thread that relocates the page with others that begin outside: a
  -- thread that waits to detach the page has detached it by its next step when no thread has a
  -- reference.
  pub detach_ends :
      (i : ℕ) (a : Action)
      → let (ts, count) = run_in advance xs (relocates ∷ others) (pos 1) in
        IsAt i detach_wait ts → holders ts ≡ 0 → IsAt i detached (step_in advance i a ts count).0
  unfolding advance
  detach_ends i a at h =
      let (ts, count) = run_in advance xs (relocates ∷ others) (pos 1) in
      let v : Inv count (number ts) = reached in
      let none_left : count ≡ pos 0 = ground arith in
      subst (λ t. IsAt i t (step_in advance i a ts count).0) (ground arith)
        (step_in-IsAt advance i a detach_wait ts count at)
