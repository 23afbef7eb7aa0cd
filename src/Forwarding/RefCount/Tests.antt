-- ===== src/Forwarding/RefCount/Tests.antt =====
-- A worker relocates a page in place while another thread uses it.
use zgc_primax.Base.{here, inr, pos, negsuc, ℕ, ◌≡◌, refl, List, [], ◌∷◌, run_in}
use zgc_primax.Forwarding.RefCount.{
  Thread, outside, relocates, retain_wait, retained, claimed, claim_wait, detach_wait, Action,
  retain, release, claim, detach, idle, advance,
}
use zgc_primax.Forwarding.RefCount.Safety.{holders, claimed_alone, detached_forever}

abbrev others : List Thread
others = outside ∷ outside ∷ []

-- Thread 1 retains the page, thread 0 claims it and waits, thread 2 cannot retain it.
abbrev contended : List (ℕ × Action)
contended =
    (1, retain)
    ∷ (1, idle)
    ∷ (1, idle)
    ∷ (0, claim)
    ∷ (0, idle)
    ∷ (0, idle)
    ∷ (2, retain)
    ∷ (2, idle)
    ∷ []

contended_lem :
    run_in advance contended (relocates ∷ others) (pos 1)
    ≡ (claim_wait ∷ retained ∷ retain_wait ∷ [], negsuc 1)
unfolding run_in advance
contended_lem = refl

-- Thread 1 releases the page, so that thread 0 may claim it.
abbrev let_go : List (ℕ × Action)
let_go =
    (1, retain)
    ∷ (1, idle)
    ∷ (1, idle)
    ∷ (0, claim)
    ∷ (0, idle)
    ∷ (0, idle)
    ∷ (1, release)
    ∷ (1, idle)
    ∷ (1, idle)
    ∷ []

let_go_lem :
    run_in advance let_go (relocates ∷ others) (pos 1)
    ≡ (claim_wait ∷ outside ∷ outside ∷ [], negsuc 0)
unfolding run_in advance
let_go_lem = refl

-- Thread 0 releases the page, and thread 1 has begun to detach it.
abbrev dropped : List (ℕ × Action)
dropped = (1, detach) ∷ (0, release) ∷ (0, idle) ∷ (0, idle) ∷ []

dropped_lem :
    run_in advance dropped (relocates ∷ others) (pos 1)
    ≡ (outside ∷ detach_wait ∷ outside ∷ [], pos 0)
unfolding run_in advance
dropped_lem = refl

-- Thread 0 has claimed the page.
abbrev alone : List (ℕ × Action)
alone = (0, claim) ∷ (0, idle) ∷ (0, idle) ∷ []

alone_lem :
    run_in advance alone (relocates ∷ others) (pos 1) ≡ (claimed ∷ outside ∷ outside ∷ [], negsuc 0)
unfolding run_in advance
alone_lem = refl

claimed_alone_example :
    let (ts, count) = run_in advance alone (relocates ∷ others) (pos 1) in
    (holders ts ≡ 1) × (count ≡ negsuc 0)
claimed_alone_example =
    claimed_alone others (refl, (refl, tt)) alone (rw alone_lem (here (outside ∷ outside ∷ [])))

detached_forever_example :
    let (ts, count) = run_in advance dropped (relocates ∷ others) (pos 1) in
    let (ts', count') = run_in advance ((2, retain) ∷ (2, idle) ∷ []) ts count in
    (count' ≡ pos 0) × (holders ts' ≡ 0)
detached_forever_example =
    detached_forever others (refl, (refl, tt)) dropped ((2, retain) ∷ (2, idle) ∷ [])
      (inr (rw dropped_lem refl))
