-- ===== src/MarkTerminate/Tests.antt =====
-- Two workers and another thread run zMarkTerminate.inline.hpp.
use zgc_primax.Base.{true, ℕ, ◌≡◌, inl, inr, refl, List, [], ◌∷◌, run_in, here, there}
use zgc_primax.MarkTerminate.{
  Thread, works, waits, terminated, mutator, Action, try_terminate, wake_up, idle, reset, advance,
  saturated,
}
use zgc_primax.MarkTerminate.Kinds.{working}
use zgc_primax.MarkTerminate.Safety.{number, terminated_forever}

abbrev start : List Thread
start = works ∷ works ∷ mutator ∷ []

-- Worker 0 waits, the other thread wakes it, and it works again.
abbrev woken : List (ℕ × Action)
woken = (0, try_terminate) ∷ (2, wake_up) ∷ (2, idle) ∷ (2, idle) ∷ (2, idle) ∷ (0, wake_up) ∷ []

woken_lem :
    run_in advance woken start (reset 2)
    ≡ (start, record { nworkers = 2; nworking = 2; nawakening = 0 })
unfolding run_in advance reset
woken_lem = refl

-- Worker 0 waits, and worker 1 terminates.
abbrev ended : List (ℕ × Action)
ended = (0, try_terminate) ∷ (1, try_terminate) ∷ []

ended_lem :
    run_in advance ended start (reset 2)
    ≡ (waits ∷ terminated ∷ mutator ∷ [], record { nworkers = 2; nworking = 0; nawakening = 0 })
unfolding run_in advance reset
ended_lem = refl

saturated-reset : saturated (reset 3) ≡ true
unfolding saturated reset
saturated-reset = refl

terminated_forever_example :
    let (ts, c) = run_in advance ended start (reset 2) in
    let (ts', c') = run_in advance ((2, wake_up) ∷ (0, wake_up) ∷ []) ts c in
    (number ts working ≡ 0) × (number ts' working ≡ 0)
terminated_forever_example =
    terminated_forever start (inl refl, (inl refl, (inr refl, tt))) ended
      ((2, wake_up) ∷ (0, wake_up) ∷ []) (rw ended_lem (there waits (here (mutator ∷ []))))
