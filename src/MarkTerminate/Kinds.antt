-- ===== src/MarkTerminate/Kinds.antt =====
-- How a step changes the numbers of marking threads of each kind.
use zgc_primax.Base.{ℕ, ◌+◌, ◌≤◌, ◌≡◌, ◌⊎◌, true, arith}
use zgc_primax.MarkTerminate.{
  Counts, Thread, works, waits, terminated, gone, wake_load, wake_test, wake_locked, Action,
  advance,
}

pub data Kind : Type 0 where
  working waiting finished left : Kind

abbrev pub weight : Kind → Thread → ℕ
weight working works = 1
weight working (wake_load true) = 1
weight working (wake_test true n) = 1
weight working (wake_locked true) = 1
weight waiting waits = 1
weight finished terminated = 1
weight left gone = 1
weight _ _ = 0

-- What ties the counts to the numbers of threads.
pub record Inv (c : Counts) (n : Kind → ℕ) : Type 0 where
  pub working_counted : c.nworking ≡ n working
  pub all_counted : c.nworkers ≡ n working + n waiting + n finished + n left
  pub not_too_many : c.nworking + c.nawakening ≤ c.nworkers
  pub over : (n finished ≡ 0) ⊎ (n working ≡ 0)

abbrev pub Kept : Thread → Action → Counts → Type 0
Kept t a c =
    (n : Kind → ℕ)
    → Inv c (λ k. weight k t + n k)
    → let (t', c') = advance t a c in Inv c' (λ k. weight k t' + n k)

pub advance-Kept : (t : Thread) (a : Action) (c : Counts) → Kept t a c
unfolding advance
advance-Kept t a c n v = ground arith

-- Once no worker works, none ever does.
pub over-Kept :
    (t : Thread) (a : Action) (c : Counts) (n : Kind → ℕ)
    → Inv c (λ k. weight k t + n k) × (c.nworking ≡ 0)
    → let (t', c') = advance t a c in Inv c' (λ k. weight k t' + n k) × (c'.nworking ≡ 0)
unfolding advance
over-Kept t a c n (v, z) = (advance-Kept t a c n v, ground arith)
