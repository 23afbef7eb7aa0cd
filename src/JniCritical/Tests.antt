-- ===== src/JniCritical/Tests.antt =====
-- Two Java threads and a GC thread run zJNICritical.cpp.
use zgc_primax.Base.{total, negsuc, ℕ, ◌≡◌, refl, List, [], ◌∷◌, All, inr, ◌⊎◌, IsAt}
use zgc_primax.JniCritical.{
  Thread, rest, blocked, drain_sleep, enter_wait, exit_notify, Action, enter, exit, block, idle,
  step, run, start, notifies, end_sleep,
}
use zgc_primax.JniCritical.Count.{holds, is_blocked}
use zgc_primax.JniCritical.Safety.{here, there, blocked_alone}
use zgc_primax.JniCritical.Wake.{drain-IsBlocked}

abbrev resting : List Thread
resting = rest ∷ rest ∷ rest ∷ []

-- Thread 0 enters, thread 2 blocks and falls asleep, thread 1 wants to enter and has to wait, and thread 0 leaves.
abbrev left : List (ℕ × Action)
left =
    (0, enter)
    ∷ (0, idle)
    ∷ (0, idle)
    ∷ (2, block)
    ∷ (2, idle)
    ∷ (2, idle)
    ∷ (2, idle)
    ∷ (1, enter)
    ∷ (1, idle)
    ∷ (0, exit)
    ∷ (0, idle)
    ∷ (0, idle)
    ∷ []

left_runs :
    run left (start resting)
    ≡ record { count = negsuc 0; threads = exit_notify ∷ enter_wait ∷ drain_sleep ∷ [] }
unfolding run start
left_runs = refl

-- Then thread 0 calls `notify_all`, which lets thread 2 through.
abbrev handed_over : List (ℕ × Action)
handed_over =
    (0, enter)
    ∷ (0, idle)
    ∷ (0, idle)
    ∷ (2, block)
    ∷ (2, idle)
    ∷ (2, idle)
    ∷ (2, idle)
    ∷ (1, enter)
    ∷ (1, idle)
    ∷ (0, exit)
    ∷ (0, idle)
    ∷ (0, idle)
    ∷ (0, idle)
    ∷ (2, idle)
    ∷ []

handed_over_runs :
    run handed_over (start resting)
    ≡ record { count = negsuc 0; threads = rest ∷ enter_wait ∷ blocked ∷ [] }
unfolding run start notifies end_sleep
handed_over_runs = refl

blocked_alone_example :
    let s = run handed_over (start resting) in
    All (λ t. holds t ≡ 0) s.threads × (s.count ≡ negsuc 0) × (total is_blocked s.threads ≡ 1)
blocked_alone_example =
    blocked_alone resting (refl, (refl, (refl, tt))) handed_over
      (rw handed_over_runs (there _ (there _ (here []))))

drain-IsBlocked_example :
    let s = run left (start resting) in
    IsAt 2 blocked (step (2, idle) s).threads
    ⊎ ((j : ℕ) × IsAt j exit_notify s.threads
        × IsAt 2 blocked (step (2, idle) (step (j, idle) s)).threads)
drain-IsBlocked_example =
    drain-IsBlocked resting left 2 idle idle (refl, (refl, (refl, tt)))
      (rw left_runs (refl, (refl, (refl, tt)))) (rw left_runs (inr refl))
