-- ===== src/PageTop/Tests.antt =====
-- Threads that allocate in one page, run on a page of 64 bytes.
use zgc_primax.Base.{
  ℕ, ◌+◌, ◌*◌, ◌/◌, ◌≤◌, ◌<◌, ◌≡◌, ◌⊎◌, arith, List, [], ◌∷◌, map, total, leb, if◌then◌else◌, none,
  some, run_in,
}
use zgc_primax.PageTop.{reads, allocated, fails, alloc_step, alloc_object}
use zgc_primax.PageTop.Safety.{has_byte, run-OwnBytes, alone_allocates}

-- Rounded up to 8 bytes.
abbrev rounded : ℕ → ℕ
rounded size = (size + 7) / 8 * 8

-- Both threads read the top before one of them moves it.
abbrev steps : List (ℕ × Unit {0})
steps = (0, tt) ∷ (1, tt) ∷ (1, tt) ∷ (0, tt) ∷ (0, tt) ∷ []

run-OwnBytes_example :
    let (threads, top) =
      run_in (alloc_step rounded 4096 1064) steps (map reads (20 ∷ 10 ∷ [])) 1000 in
    (1000 ≤ top)
    × (top ≤ 1064)
    × ((q : ℕ)
        → (total (has_byte rounded q) threads ≤ 1)
          × ((q < 1000) ⊎ (top ≤ q) → total (has_byte rounded q) threads ≡ 0))
run-OwnBytes_example =
    run-OwnBytes rounded 4096 1000 1064 (omega arith) (omega arith) steps (20 ∷ 10 ∷ [])
      (omega arith, (omega arith, tt)) (omega arith)

alone_allocates_example :
    (run_in (alloc_step rounded 4096 1064) ((0, tt) ∷ (0, tt) ∷ []) (reads 20 ∷ []) 1040
      ≡ (if leb 1064 1064 then (allocated 20 1040 ∷ [], 1064) else (fails ∷ [], 1040)))
    × (alloc_object rounded 4096 1064 20 1040
        ≡ (if leb 1064 1064 then (some 1040, 1064) else (none, 1040)))
alone_allocates_example =
    alone_allocates rounded 4096 1000 1064 (omega arith) (omega arith) 20 1040 tt (omega arith)
      (omega arith)
