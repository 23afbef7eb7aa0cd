-- ===== src/PhysicalMemory/Manager.antt =====
-- ZPhysicalMemoryManager of zPhysicalMemory.cpp: physical memory is allocated from a free list of
-- offsets, in as few segments as the list allows, and is not committed.
pub mod Alloc
pub mod Free
mod Tests
use zgc_primax.Base.{
  ℕ, zero, suc, Bool, true, false, Option, none, some, List, [], ◌∷◌, ◌==◌, if◌then◌else◌, sub64,
  uintptr_max,
}
use zgc_primax.Memory.{Manager, init, free, alloc_low_address_at_most}
use zgc_primax.PhysicalMemory.{Segment, new_segment, size_of, add_segment}

-- The free list of a new manager, with so many bytes from 0 on.
pub new_manager : ℕ → Manager
new_manager max_capacity = free 0 max_capacity init

-- `alloc`, with so many rounds of its loop. `none` is the assertion that fails when nothing is free,
-- or a loop that has not ended.
pub alloc : ℕ → ℕ → Manager → List Segment → Option (Manager × List Segment)
unfolding add_segment
alloc zero size m pmem = if size == 0 then some (m, pmem) else none
alloc (suc rounds) size m pmem =
    let start = (alloc_low_address_at_most size m).0 in
    let allocated = (alloc_low_address_at_most size m).1 in
    let later =
      alloc rounds (sub64 size allocated) (alloc_low_address_at_most size m).2
        (add_segment (new_segment start allocated false) pmem) in
    if size == 0 then some (m, pmem) else (if start == uintptr_max then none else later)

-- `free`
pub free_segments : List Segment → Manager → Manager
free_segments [] m = m
free_segments (s ∷ rest) m = free_segments rest (free s.start (size_of s) m)
