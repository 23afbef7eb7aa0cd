-- ===== src/PhysicalMemory/Manager/Tests.antt =====
-- Physical memory is allocated and freed at concrete sizes.
use zgc_primax.Base.{ℕ, ◌≡◌, refl, true, false, none, some, List, [], ◌∷◌, arith, add64, sub64}
use zgc_primax.Memory.{Manager, no_callbacks, init, free, alloc_low_address_at_most}
use zgc_primax.Memory.Wf.{IsWf}
use zgc_primax.PhysicalMemory.{Segment, add_segment}
use zgc_primax.PhysicalMemory.Manager.{new_manager, alloc}

abbrev holes : Manager
holes = record {
  freelist =
      record { start = 0; end = 4 }
      ∷ record { start = 6; end = 8 }
      ∷ record { start = 10; end = 20 }
      ∷ [];
  callbacks = record {
    on_create = false;
    on_destroy = false;
    on_shrink_from_front = false;
    on_shrink_from_back = false;
    on_grow_from_front = false;
    on_grow_from_back = false;
  };
  calls = [];
}

abbrev seg : ℕ → ℕ → Segment
seg start end = record { start = start; end = end; committed = false }

new_manager_areas : (new_manager 100).freelist ≡ record { start = 0; end = 100 } ∷ []
unfolding new_manager init no_callbacks free add64 sub64
new_manager_areas = refl

holes-IsWf : IsWf 100 holes.freelist
holes-IsWf = ground arith

-- Seven bytes come from three areas.
alloc_three :
    (elim (alloc 7 7 holes []) [ none ↦ [] | some (m, pmem) ↦ pmem ])
    ≡ seg 0 4 ∷ seg 6 8 ∷ seg 10 11 ∷ []
unfolding alloc add_segment alloc_low_address_at_most add64 sub64
alloc_three = refl

-- There are not so many.
alloc_too_much : (elim (alloc 20 17 holes []) [ none ↦ true | some x ↦ false ]) ≡ true
unfolding alloc add_segment alloc_low_address_at_most add64 sub64
alloc_too_much = refl

abbrev taken : List Segment
taken = seg 4 6 ∷ seg 8 9 ∷ []
