-- ===== src/PhysicalMemory/Tests.antt =====
-- The physical memory of two pages at concrete segments.
use zgc_primax.Base.{
  ℕ, ◌≡◌, refl, inl, inr, Bool, true, false, List, [], ◌∷◌, arith, min, add64, sub64,
}
use zgc_primax.PhysicalMemory.{
  Segment, add_segment, add_segments, set_loop, split_loop, split, split_committed_loop,
  split_committed, memory_size,
}
use zgc_primax.PhysicalMemory.Wf.{Above, bytes, Adds}
use zgc_primax.PhysicalMemory.Add.{add_segment-Adds}
use zgc_primax.PhysicalMemory.Commit.{Sets, set_loop-Sets}
use zgc_primax.PhysicalMemory.Split.{SplitsAt, split-SplitsAt}

abbrev seg : ℕ → ℕ → Bool → Segment
seg start end committed = record { start = start; end = end; committed = committed }

abbrev gapped : List Segment
gapped = seg 0 4 false ∷ seg 6 8 false ∷ seg 8 12 true ∷ []

added : add_segment (seg 4 6 false) gapped ≡ seg 0 8 false ∷ seg 8 12 true ∷ []
unfolding add_segment add64 sub64
added = refl

added_all : add_segments gapped [] ≡ gapped
unfolding add_segments add_segment add64 sub64
added_all = refl

added_first : add_segment (seg 0 4 true) (seg 4 6 true ∷ []) ≡ seg 0 6 true ∷ []
unfolding add_segment add64 sub64
added_first = refl

-- The backing commits at most 3 bytes.
abbrev three : ℕ → ℕ → ℕ
three start size = min 3 size

committed_part :
    set_loop three true gapped
    ≡ (seg 0 3 true ∷ seg 3 4 false ∷ seg 6 8 false ∷ seg 8 12 true ∷ [], false)
unfolding set_loop add64 sub64
committed_part = refl

abbrev all_of_it : ℕ → ℕ → ℕ
all_of_it start size = size

uncommitted :
    set_loop all_of_it false gapped ≡ (seg 0 4 false ∷ seg 6 8 false ∷ seg 8 12 false ∷ [], true)
unfolding set_loop add64 sub64
uncommitted = refl

split_off :
    split 5 gapped ≡ (seg 0 4 false ∷ seg 6 7 false ∷ [], seg 7 8 false ∷ seg 8 12 true ∷ [])
unfolding split split_loop memory_size add_segment add64 sub64
split_off = refl

split_off_committed :
    split_committed gapped ≡ (seg 8 12 true ∷ [], seg 0 4 false ∷ seg 6 8 false ∷ [])
unfolding split_committed split_committed_loop add_segment add64 sub64
split_off_committed = refl

gapped-Above : Above 100 0 gapped
gapped-Above = ground arith

add_segment-Adds_example : Adds 100 0 (seg 4 6 false) gapped (add_segment (seg 4 6 false) gapped)
add_segment-Adds_example =
    add_segment-Adds 100 (omega arith) (seg 4 6 false) (omega arith) gapped (omega arith)
      gapped-Above (inr (omega arith), (inl (omega arith), (inl (omega arith), tt)))

set_loop-Sets_example : Sets three true 100 0 gapped (set_loop three true gapped)
set_loop-Sets_example =
    set_loop-Sets three true 100 gapped (λ start size. omega arith) (omega arith) gapped-Above

split-SplitsAt_example :
    SplitsAt 100 0 gapped [] (split 5 gapped) × (bytes (split 5 gapped).0 ≡ min 5 (bytes gapped))
split-SplitsAt_example = split-SplitsAt 100 5 gapped (omega arith) gapped-Above
