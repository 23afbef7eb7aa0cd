-- ===== src/Forwarding/RefCount/Kinds.antt =====
-- How a step changes the numbers of threads of each kind.
use zgc_primax.Base.{ℤ, pos, negsuc, ℕ, zero, ◌+◌, ◌≤◌, ◌≡◌, ◌⊎◌, true, false, arith}
use zgc_primax.Forwarding.RefCount.{
  Thread, outside, retain_load, retain_wait, retain_swap, retained, release_load, release_swap,
  relocates, claim_load, claim_wait, claim_swap, claimed, detach_wait, detached, failed, Action,
  retain, detach, advance,
}

pub data Kind : Type 0 where
  -- Has a reference, and has not inverted the count.
  holds : Kind
  -- Has inverted the count, and waits for the others to release.
  waits : Kind
  -- Has claimed the page.
  claims : Kind
  -- Relocates the page, and may claim it.
  may_claim : Kind
  -- Failed, or about to swap in a count that comes from a wrong one.
  wrong : Kind
  -- Has detached the page.
  has_detached : Kind

abbrev pub weight : Kind → Thread → ℕ
weight holds retained = 1
weight holds (release_load false) = 1
weight holds (release_swap false l) = 1
weight holds relocates = 1
weight holds claim_load = 1
weight holds (claim_swap l) = 1
weight waits claim_wait = 1
weight claims claimed = 1
weight claims (release_load true) = 1
weight claims (release_swap true l) = 1
weight may_claim relocates = 1
weight may_claim claim_load = 1
weight may_claim (claim_swap l) = 1
weight wrong (retain_swap (pos zero)) = 1
weight wrong (retain_swap (negsuc n)) = 1
weight wrong (release_swap b (pos zero)) = 1
weight wrong (claim_swap (pos zero)) = 1
weight wrong (claim_swap (negsuc n)) = 1
weight wrong failed = 1
weight has_detached detached = 1
weight _ _ = 0

-- What ties the count to the numbers of threads.
pub record Inv (count : ℤ) (n : Kind → ℕ) : Type 0 where
  pub agrees :
      ((n waits + n claims ≡ 0) × (count ≡ pos (n holds)))
      ⊎ ((n waits + n claims ≡ 1) × (count ≡ negsuc (n holds)))
  pub alone : (n claims ≡ 0) ⊎ (n holds ≡ 0)
  pub single : n may_claim + n waits + n claims ≤ 1
  pub sound : n wrong ≡ 0
  pub gone : (n has_detached ≡ 0) ⊎ (n holds + n waits + n claims ≡ 0)

abbrev pub Kept : Thread → Action → ℤ → Type 0
Kept t a count =
    (n : Kind → ℕ)
    → Inv count (λ k. weight k t + n k)
    → let (t', count') = advance t a count in Inv count' (λ k. weight k t' + n k)

pub advance-Kept : (t : Thread) (a : Action) (count : ℤ) → Kept t a count
unfolding advance
advance-Kept outside retain count n v = ground arith
advance-Kept outside detach count n v = ground arith
advance-Kept outside _ count n v = ground arith
advance-Kept retain_load a count n v = ground arith
advance-Kept retain_wait a count n v = ground arith
advance-Kept (retain_swap l) a count n v = ground arith
advance-Kept retained a count n v = ground arith
advance-Kept (release_load true) a count n v = ground arith
advance-Kept (release_load false) a count n v = ground arith
advance-Kept (release_swap true l) a count n v = ground arith
advance-Kept (release_swap false l) a count n v = ground arith
advance-Kept relocates a count n v = ground arith
advance-Kept claim_load a count n v = ground arith
advance-Kept (claim_swap l) a count n v = ground arith
advance-Kept claim_wait a count n v = ground arith
advance-Kept claimed a count n v = ground arith
advance-Kept detach_wait a count n v = ground arith
advance-Kept detached a count n v = ground arith
advance-Kept failed a count n v = ground arith
