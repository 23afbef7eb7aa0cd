-- ===== src/Memory.antt =====
-- zMemory.hpp, zMemory.inline.hpp and zMemory.cpp: the free list of address ranges that both the
-- virtual and the physical memory managers allocate from. The list is kept in address order, and
-- adjacent ranges are merged. A manager carries the trace of the callbacks that it has made.
pub mod Wf
pub mod Low
pub mod High
pub mod Free
pub mod Canonical
pub mod Bytes
mod Tests
use zgc_primax.Base.{
  ℕ, Bool, true, false, Option, none, some, List, [], ◌∷◌, ◌++◌, ltb, leb, ◌==◌, if◌then◌else◌,
  add64, sub64, uintptr_max, length,
}

-- `ZMemory`: the range of offsets from `start` up to `end`.
pub record Area : Type 0 where
  pub start : ℕ
  pub end : ℕ

-- `ZMemory::ZMemory`
abbrev pub new_area : ℕ → ℕ → Area
new_area start size = record { start = start; end = add64 start size }

abbrev pub size_of : Area → ℕ
size_of a = sub64 a.end a.start

-- A call of one of the function pointers in `Callbacks`, with the arguments that it gets.
pub data Call : Type 0 where
  created destroyed : Area → Call
  front_shrunk back_shrunk front_grown back_grown : Area → ℕ → Call

-- `Callbacks`: which of the six function pointers are set.
pub record Callbacks : Type 0 where
  pub on_create : Bool
  pub on_destroy : Bool
  pub on_shrink_from_front : Bool
  pub on_shrink_from_back : Bool
  pub on_grow_from_front : Bool
  pub on_grow_from_back : Bool

-- `ZMemoryManager`, with the calls made so far, oldest first.
pub record Manager : Type 0 where
  pub freelist : List Area
  pub callbacks : Callbacks
  pub calls : List Call

abbrev call_if : Bool → Call → List Call
call_if set c = if set then c ∷ [] else []

-- Each helper that resizes an area returns it with the call that it makes first.
module _ (cb : Callbacks) where
  abbrev pub create : ℕ → ℕ → Area × List Call
  create start size = (new_area start size, call_if cb.on_create (created (new_area start size)))

  abbrev pub destroy : Area → List Call
  destroy a = call_if cb.on_destroy (destroyed a)

  abbrev pub shrink_from_front : Area → ℕ → Area × List Call
  shrink_from_front a size = (
    record a { start = add64 a.start size },
    call_if cb.on_shrink_from_front (front_shrunk a size),
  )

  abbrev pub shrink_from_back : Area → ℕ → Area × List Call
  shrink_from_back a size =
      (record a { end = sub64 a.end size }, call_if cb.on_shrink_from_back (back_shrunk a size))

  abbrev pub grow_from_front : Area → ℕ → Area × List Call
  grow_from_front a size =
      (record a { start = sub64 a.start size }, call_if cb.on_grow_from_front (front_grown a size))

  abbrev pub grow_from_back : Area → ℕ → Area × List Call
  grow_from_back a size =
      (record a { end = add64 a.end size }, call_if cb.on_grow_from_back (back_grown a size))

  -- The loop of `alloc_low_address`, from the lowest area up: the offset, the list that is left and
  -- the calls made.
  pub alloc_low_loop : ℕ → List Area → ℕ × List Area × List Call
  alloc_low_loop size [] = (uintptr_max, [], [])
  alloc_low_loop size (a ∷ rest) =
      let later = alloc_low_loop size rest in
      if leb size (size_of a)
      then (if size_of a == size
          then (a.start, rest, destroy a)
          else (a.start, (shrink_from_front a size).0 ∷ rest, (shrink_from_front a size).1))
      else (later.0, a ∷ later.1, later.2)

  -- The body of `alloc_low_address_at_most`: the offset, the size that was taken, the list, the calls.
  pub alloc_low_at_most_first : ℕ → List Area → ℕ × ℕ × List Area × List Call
  alloc_low_at_most_first size [] = (uintptr_max, 0, [], [])
  alloc_low_at_most_first size (a ∷ rest) =
      if leb (size_of a) size
      then (a.start, size_of a, rest, destroy a)
      else (a.start, size, (shrink_from_front a size).0 ∷ rest, (shrink_from_front a size).1)

  -- The loop of `alloc_high_address`, from the highest area down: an area is tried when none above
  -- it was large enough.
  pub alloc_high_loop : ℕ → List Area → Option (ℕ × List Area × List Call)
  alloc_high_loop size [] = none
  alloc_high_loop size (a ∷ rest) = elim (alloc_high_loop size rest) [
    | some (offset, areas, made) ↦ some (offset, a ∷ areas, made)
    | none ↦
        if leb size (size_of a)
        then (if size_of a == size
            then some (a.start, rest, destroy a)
            else some (
              (shrink_from_back a size).0.end,
              (shrink_from_back a size).0 ∷ rest,
              (shrink_from_back a size).1,
            ))
        else none
  ]

  -- The loop of `free` past its first area, where `p` is the area before the iterator, and the code
  -- after the loop. The result is the list from `p` on, and the calls made.
  pub free_after : Area → ℕ → ℕ → List Area → List Area × List Call
  free_after p start size [] =
      if start == p.end
      then ((grow_from_back p size).0 ∷ [], (grow_from_back p size).1)
      else (p ∷ (create start size).0 ∷ [], (create start size).1)
  free_after p start size (a ∷ rest) =
      let later = free_after a start size rest in
      if ltb start a.start
      then (if start == p.end
          then (if add64 start size == a.start
              then (
                (grow_from_back p (add64 size (size_of a))).0 ∷ rest,
                (grow_from_back p (add64 size (size_of a))).1,
              )
              else ((grow_from_back p size).0 ∷ a ∷ rest, (grow_from_back p size).1))
          else (if add64 start size == a.start
              then (p ∷ (grow_from_front a size).0 ∷ rest, (grow_from_front a size).1)
              else (p ∷ (create start size).0 ∷ a ∷ rest, (create start size).1)))
      else (p ∷ later.0, later.1)

  -- The whole body of `free`. No area stands before the first one.
  pub free_loop : ℕ → ℕ → List Area → List Area × List Call
  unfolding free_after
  free_loop start size [] = ((create start size).0 ∷ [], (create start size).1)
  free_loop start size (a ∷ rest) =
      if ltb start a.start
      then (if add64 start size == a.start
          then ((grow_from_front a size).0 ∷ rest, (grow_from_front a size).1)
          else ((create start size).0 ∷ a ∷ rest, (create start size).1))
      else free_after a start size rest

-- `ZMemoryManager::ZMemoryManager`
unfoldable pub no_callbacks : Callbacks
no_callbacks = record {
  on_create = false;
  on_destroy = false;
  on_shrink_from_front = false;
  on_shrink_from_back = false;
  on_grow_from_front = false;
  on_grow_from_back = false;
}

unfoldable pub init : Manager
unfolding no_callbacks
init = record { freelist = []; callbacks = no_callbacks; calls = [] }

pub register_callbacks : Callbacks → Manager → Manager
register_callbacks cb m = record m { callbacks = cb }

pub free_is_contiguous : Manager → Bool
free_is_contiguous m = length m.freelist == 1

pub peek_low_address : Manager → ℕ
peek_low_address m = elim m.freelist [ [] ↦ uintptr_max | a ∷ rest ↦ a.start ]

abbrev commit : Manager → List Area → List Call → Manager
commit m areas made = record m { freelist = areas; calls = m.calls ++ made }

pub alloc_low_address : ℕ → Manager → ℕ × Manager
unfolding alloc_low_loop
alloc_low_address size m =
    let (offset, areas, made) = alloc_low_loop m.callbacks size m.freelist in
    (offset, commit m areas made)

unfoldable pub alloc_low_address_at_most : ℕ → Manager → ℕ × ℕ × Manager
unfolding alloc_low_at_most_first
alloc_low_address_at_most size m =
    let (offset, allocated, areas, made) = alloc_low_at_most_first m.callbacks size m.freelist in
    (offset, allocated, commit m areas made)

pub alloc_high_address : ℕ → Manager → ℕ × Manager
unfolding alloc_high_loop
alloc_high_address size m = elim (alloc_high_loop m.callbacks size m.freelist) [
  | none ↦ (uintptr_max, m)
  | some (offset, areas, made) ↦ (offset, commit m areas made)
]

unfoldable pub free : ℕ → ℕ → Manager → Manager
unfolding free_loop
free start size m =
    let (areas, made) = free_loop m.callbacks start size m.freelist in commit m areas made
