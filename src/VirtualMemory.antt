-- ===== src/VirtualMemory.antt =====
-- zVirtualMemory.cpp and zVirtualMemory.inline.hpp: reserving address space in one piece or several, and
-- giving it out, on top of the free list of zMemory.cpp. What the operating system answers to a
-- reservation, `pd_reserve`, is a parameter.
pub mod Pieces
pub mod Reserve
pub mod RoundTrip
mod Tests
use zgc_primax.Base.{
  ℕ, zero, suc, ◌+◌, ◌-◌, ◌*◌, ◌/◌, min, Bool, true, false, ◌||◌, ◌&&◌, Option, none, some, ltb,
  leb, ◌==◌, if◌then◌else◌, uintptr_max, low64,
}
use zgc_primax.Memory.{Manager, free, alloc_low_address, alloc_high_address}

-- ZAddressOffsetMax, ZGranuleSize, the limit of the address space for the heap, ZPageSizeSmall, and
-- `pd_reserve`.
pub record Space : Type 0 where
  pub offset_max : ℕ
  pub granule : ℕ
  pub heap_limit : ℕ
  pub size_small : ℕ
  pub pd_reserve : ℕ → ℕ → Bool

-- `ZVirtualMemory`
pub record VirtualMemory : Type 0 where
  pub start : ℕ
  pub end : ℕ

pub null_memory : VirtualMemory
null_memory = record { start = uintptr_max; end = uintptr_max }

-- `ZVirtualMemory::split`: the first bytes, and the others.
pub split_memory : ℕ → VirtualMemory → VirtualMemory × VirtualMemory
split_memory size v =
    (record { start = v.start; end = v.start + size }, record v { start = v.start + size })

module _ (o : Space) where
  abbrev align_up : ℕ → ℕ
  align_up size = (size + o.granule - 1) / o.granule * o.granule

  abbrev align_down : ℕ → ℕ
  align_down size = size / o.granule * o.granule

  -- `reserve_contiguous` at an address: whether it was reserved, and the manager.
  pub reserve_at : ℕ → ℕ → Manager → Bool × Manager
  unfolding free
  reserve_at start size m =
      if o.pd_reserve start size then (true, free start size m) else (false, m)

  -- `reserve_discontiguous` of a range, with so many levels: how much was reserved. `none` is one level too
  -- many.
  pub reserve_range : ℕ → ℕ → ℕ → ℕ → Manager → Option (ℕ × Manager)
  unfolding reserve_at
  reserve_range zero start size min_range m = none
  reserve_range (suc levels) start size min_range m =
      let whole = reserve_at start size m in
      let first_part = align_down (size / 2) in
      let halves : Option (ℕ × Manager) =
        elim (reserve_range levels start first_part min_range whole.1) [
          | none ↦ none
          | some (first_size, m1) ↦
              elim (reserve_range levels (start + first_part) (size - first_part) min_range m1) [
                | none ↦ none
                | some (second_size, m2) ↦ some (first_size + second_size, m2)
              ]
        ] in
      if ltb size min_range
      then some (0, m)
      else (if whole.0
          then some (size, whole.1)
          else (if ltb (size / 2) min_range then some (0, whole.1) else halves))

  -- `calculate_min_range`, with ZMaxVirtualReservations.
  pub calculate_min_range : ℕ → ℕ
  calculate_min_range size = align_up (size / 100)

  -- The loop of `reserve_discontiguous`, with so many rounds.
  pub reserve_loop : ℕ → ℕ → ℕ → ℕ → ℕ → Manager → Option (ℕ × Manager)
  unfolding reserve_range
  reserve_loop zero size min_range start reserved m = none
  reserve_loop (suc rounds) size min_range start reserved m =
      let remaining = min (size - reserved) (o.offset_max - start) in
      let next : Option (ℕ × Manager) =
        elim (reserve_range (remaining + 1) start remaining min_range m) [
          | none ↦ none
          | some (more, m') ↦
              reserve_loop rounds size min_range (start + remaining) (reserved + more) m'
        ] in
      if ltb reserved size && ltb start o.offset_max then next else some (reserved, m)

  pub reserve_discontiguous : ℕ → Manager → Option (ℕ × Manager)
  unfolding reserve_loop calculate_min_range
  reserve_discontiguous size m =
      reserve_loop (o.offset_max + 1) size (calculate_min_range size) 0 0 m

  -- The loop of `reserve_contiguous` anywhere, with so many rounds.
  pub contiguous_loop : ℕ → ℕ → ℕ → ℕ → Manager → Option (Bool × Manager)
  unfolding reserve_at
  contiguous_loop zero size increment start m = none
  contiguous_loop (suc rounds) size increment start m =
      let r = reserve_at start size m in
      let next = contiguous_loop rounds size increment (start + increment) r.1 in
      if leb (start + size) o.offset_max
      then (if r.0 then some (true, r.1) else next)
      else some (false, m)

  pub reserve_contiguous : ℕ → Manager → Option (Bool × Manager)
  unfolding contiguous_loop
  reserve_contiguous size m =
      let unused = o.offset_max - size in
      let step = align_up (unused / 8192) in
      let increment = if ltb step o.granule then o.granule else step in
      contiguous_loop (o.offset_max + 2) size increment 0 m

  -- How much `reserve` asks for, with ZVirtualToPhysicalRatio.
  pub reserve_size : ℕ → ℕ
  reserve_size max_capacity = min (low64 (max_capacity * 16)) (min o.offset_max o.heap_limit)

  -- `reserve`: how much was reserved, whether it is enough, and the manager.
  pub reserve : ℕ → Manager → Option (ℕ × Bool × Manager)
  unfolding reserve_contiguous reserve_discontiguous reserve_size
  reserve max_capacity m =
      let size = reserve_size max_capacity in
      elim (reserve_contiguous size m) [
        | none ↦ none
        | some (true, m') ↦ some (size, leb max_capacity size, m')
        | some (false, m') ↦ elim (reserve_discontiguous size m') [
          | none ↦ none
          | some (reserved, m'') ↦ some (reserved, leb max_capacity reserved, m'')
        ]
      ]

  -- `alloc`
  pub alloc_memory : ℕ → Bool → Manager → VirtualMemory × Manager
  unfolding null_memory
  alloc_memory size force_low_address m =
      let (start, m') =
        if force_low_address || leb size o.size_small
        then alloc_low_address size m
        else alloc_high_address size m in
      (
        if start == uintptr_max then null_memory else record { start = start; end = start + size },
        m',
      )

-- `free`
pub free_memory : VirtualMemory → Manager → Manager
unfolding free
free_memory v m = free v.start (v.end - v.start) m
