-- ===== src/Memory/Tests.antt =====
-- The free list of zMemory.cpp on concrete ranges.
use zgc_primax.Base.{◌≡◌, refl, inl, inr, true, [], ◌∷◌, arith, uintptr_max, add64, sub64}
use zgc_primax.Memory.{
  Area, Callbacks, Manager, front_shrunk, back_grown, alloc_low_address, alloc_high_address, free,
}
use zgc_primax.Memory.Wf.{IsWf}
use zgc_primax.Memory.Free.{Frees, free-Frees}
use zgc_primax.Memory.Canonical.{free_comm}

abbrev all_set : Callbacks
all_set = record {
  on_create = true;
  on_destroy = true;
  on_shrink_from_front = true;
  on_shrink_from_back = true;
  on_grow_from_front = true;
  on_grow_from_back = true;
}

abbrev low_hole : Area
low_hole = record { start = 0; end = 16 }

abbrev high_hole : Area
high_hole = record { start = 32; end = 64 }

-- Free are 0 to 16 and 32 to 64, of 128 bytes.
abbrev holes : Manager
holes = record { freelist = low_hole ∷ high_hole ∷ []; callbacks = all_set; calls = [] }

alloc_low_runs : alloc_low_address 20 holes ≡ (
  32,
  record holes {
    freelist = low_hole ∷ record { start = 52; end = 64 } ∷ [];
    calls = front_shrunk high_hole 20 ∷ [];
  },
)
unfolding alloc_low_address add64 sub64
alloc_low_runs = refl

alloc_high_runs : (alloc_high_address 16 holes).0 ≡ 48
unfolding alloc_high_address add64 sub64
alloc_high_runs = refl

alloc_fails : alloc_low_address 33 holes ≡ (uintptr_max, holes)
unfolding alloc_low_address add64 sub64
alloc_fails = refl

-- The freed range joins both holes: the second area goes away with no callback of its own.
free_joins : free 16 16 holes ≡ record holes {
  freelist = record { start = 0; end = 64 } ∷ [];
  calls = back_grown low_hole 48 ∷ [];
}
unfolding free add64 sub64
free_joins = refl

holes-IsWf : IsWf 128 holes.freelist
holes-IsWf = omega arith

free-Frees_example : Frees 128 0 20 4 holes.freelist (free 20 4 holes).freelist
free-Frees_example =
    free-Frees 128 20 4 holes (omega arith) (omega arith) (omega arith) holes-IsWf
      (inr (omega arith), (inl (omega arith), tt))

-- The free list with 20 bytes taken from the second hole.
abbrev taken : Manager
taken = record holes { freelist = low_hole ∷ record { start = 52; end = 64 } ∷ [] }

free_comm_example : (free 80 8 (free 20 4 holes)).freelist ≡ (free 20 4 (free 80 8 holes)).freelist
free_comm_example =
    free_comm 128 (omega arith) 20 4 80 8 holes holes-IsWf
      (omega arith, omega arith, (inr (omega arith), (inl (omega arith), tt)))
      (omega arith, omega arith, (inr (omega arith), (inr (omega arith), tt))) (inl (omega arith))
