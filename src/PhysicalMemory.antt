-- ===== src/PhysicalMemory.antt =====
-- zPhysicalMemory.hpp, zPhysicalMemory.inline.hpp and zPhysicalMemory.cpp: the physical memory behind
-- a page, a list of segments in address order, and the manager that allocates and commits it. What
-- commits memory in the operating system, the backing, is a parameter.
pub mod Wf
pub mod Add
pub mod Commit
pub mod Split
pub mod Manager
mod Tests
use zgc_primax.Base.{
  ℕ, zero, suc, Bool, true, false, Option, none, some, List, [], ◌∷◌, ltb, leb, ◌==◌, if◌then◌else◌,
  add64, sub64, not, ◌&&◌,
}

-- `ZPhysicalMemorySegment`
pub record Segment : Type 0 where
  pub start : ℕ
  pub end : ℕ
  pub committed : Bool

abbrev pub new_segment : ℕ → ℕ → Bool → Segment
new_segment start size committed = record {
  start = start;
  end = add64 start size;
  committed = committed;
}

abbrev pub size_of : Segment → ℕ
size_of s = sub64 s.end s.start

-- `ZPhysicalMemory::size`
pub memory_size : List Segment → ℕ
memory_size [] = 0
memory_size (s ∷ rest) = add64 (size_of s) (memory_size rest)

abbrev pub eq_Bool : Bool → Bool → Bool
eq_Bool true b = b
eq_Bool false b = not b

abbrev pub is_mergable : Segment → Segment → Bool
is_mergable before after = before.end == after.start && eq_Bool before.committed after.committed

-- What `add_segment` does behind the segment `current`, which ends before the new one, with those
-- after it.
pub insert_after : Segment → Segment → List Segment → List Segment
insert_after s current [] =
    if is_mergable current s
    then new_segment current.start (add64 (size_of current) (size_of s)) s.committed ∷ []
    else current ∷ s ∷ []
insert_after s current (next ∷ rest) =
    if is_mergable current s
    then (if is_mergable s next
        then new_segment current.start (add64 (add64 (size_of current) (size_of s)) (size_of next))
            s.committed
          ∷ rest
        else new_segment current.start (add64 (size_of current) (size_of s)) s.committed
          ∷ next
          ∷ rest)
    else (if is_mergable s next
        then current ∷ new_segment s.start (add64 (size_of s) (size_of next)) s.committed ∷ rest
        else current ∷ new_segment s.start (size_of s) s.committed ∷ next ∷ rest)

-- The loop of `add_segment`, from the last segment down: `none` if it finds no segment to insert
-- behind.
pub add_loop : Segment → List Segment → Option (List Segment)
unfolding insert_after
add_loop s [] = none
add_loop s (current ∷ rest) = elim (add_loop s rest) [
  | some rest' ↦ some (current ∷ rest')
  | none ↦ if leb current.end s.start then some (insert_after s current rest) else none
]

insert_first : Segment → List Segment → List Segment
insert_first s [] = new_segment s.start (size_of s) s.committed ∷ []
insert_first s (first ∷ rest) =
    if is_mergable s first
    then new_segment s.start (add64 (size_of s) (size_of first)) s.committed ∷ rest
    else new_segment s.start (size_of s) s.committed ∷ first ∷ rest

-- `ZPhysicalMemory::add_segment`
pub add_segment : Segment → List Segment → List Segment
unfolding add_loop insert_first
add_segment s l = elim (add_loop s l) [ some l' ↦ l' | none ↦ insert_first s l ]

-- `ZPhysicalMemory::add_segments`
pub add_segments : List Segment → List Segment → List Segment
unfolding add_segment
add_segments [] l = l
add_segments (s ∷ rest) l = add_segments rest (add_segment s l)

-- `commit_segment` for `committed = true`, and `uncommit_segment` for false. There is no segment past
-- the end.
pub set_segment : Bool → ℕ → List Segment → ℕ → List Segment × Bool
set_segment committed i [] size = ([], false)
set_segment committed zero (s ∷ rest) size =
    if size == size_of s
    then (record s { committed = committed } ∷ rest, true)
    else (if ltb 0 size
        then (
          new_segment s.start size committed
              ∷ new_segment (add64 s.start size) (sub64 (size_of s) size) (not committed)
              ∷ rest,
          false,
        )
        else (s ∷ rest, false))
set_segment committed (suc i) (s ∷ rest) size =
    let (rest', done) = set_segment committed i rest size in (s ∷ rest', done)

-- The loop of `ZPhysicalMemoryManager::commit` for `committed = true`, and of `uncommit` for false.
-- `backing` is how many of so many bytes from an offset on the operating system commits or uncommits.
pub set_loop : (ℕ → ℕ → ℕ) → Bool → List Segment → List Segment × Bool
unfolding set_segment
set_loop backing committed [] = ([], true)
set_loop backing committed (s ∷ rest) =
    let (rest', done) = set_loop backing committed rest in
    if eq_Bool s.committed committed
    then (s ∷ rest', done)
    else (if (set_segment committed 0 (s ∷ rest) (backing s.start (size_of s))).1
        then (record s { committed = committed } ∷ rest', done)
        else set_segment committed 0 (s ∷ rest) (backing s.start (size_of s)))

-- The loop of `ZPhysicalMemory::split`, with the memory split off: that, and the segments that stay.
pub split_loop : List Segment → ℕ → List Segment → List Segment × List Segment
unfolding memory_size add_segment
split_loop [] size pmem = (pmem, [])
split_loop (s ∷ rest) size pmem =
    let whole = split_loop rest size (add_segment s pmem) in
    let split_size = sub64 size (memory_size pmem) in
    let part =
      split_loop rest size (add_segment (new_segment s.start split_size s.committed) pmem) in
    let keep = split_loop rest size pmem in
    if ltb (memory_size pmem) size
    then (if leb (add64 (memory_size pmem) (size_of s)) size then whole else (
      part.0,
      new_segment (add64 s.start split_size) (sub64 (size_of s) split_size) s.committed ∷ part.1,
    ))
    else (keep.0, s ∷ keep.1)

pub split : ℕ → List Segment → List Segment × List Segment
unfolding split_loop
split size l = split_loop l size []

-- The loop of `ZPhysicalMemory::split_committed`.
pub split_committed_loop : List Segment → List Segment → List Segment × List Segment
unfolding add_segment
split_committed_loop [] pmem = (pmem, [])
split_committed_loop (s ∷ rest) pmem =
    let transfer = split_committed_loop rest (add_segment s pmem) in
    let keep = split_committed_loop rest pmem in
    if s.committed then transfer else (keep.0, s ∷ keep.1)

pub split_committed : List Segment → List Segment × List Segment
unfolding split_committed_loop
split_committed l = split_committed_loop l []
