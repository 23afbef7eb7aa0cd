-- ===== src/PhysicalMemory/Add.antt =====
-- What `add_segment` of zPhysicalMemory.cpp guarantees.
use zgc_primax.Base.{
  ℕ, ◌≤◌, ◌<◌, List, [], ◌∷◌, arith, leb, Option, none, some, if◌then◌else◌, add64, sub64,
  uintptr_max, if_cases,
}
use zgc_primax.PhysicalMemory.{Segment, insert_after, add_loop, insert_first, add_segment}
use zgc_primax.PhysicalMemory.Wf.{Above, Adds, IsDisjoint, Above-le, Above-mono}

module _ (max : ℕ) (small : max < uintptr_max) (s : Segment) (pos : s.start < s.end) where
  insert_first-Adds :
      (l : List Segment) → Above max s.end l → Adds max s.start s l (insert_first s l)
  unfolding insert_first add64 sub64
  insert_first-Adds [] h = (ground arith, λ p. ground arith, ground arith)
  insert_first-Adds (a ∷ rest) h =
      let top = Above-le max rest h.2 in (ground arith, λ p. ground arith, ground arith)

  insert_after-Adds :
      (current : Segment) (rest : List Segment) (e : ℕ)
      → e ≤ current.start
      → current.start < current.end
      → current.end ≤ s.start
      → Above max s.end rest
      → Adds max e s (current ∷ rest) (insert_after s current rest)
  unfolding insert_after add64 sub64
  insert_after-Adds current [] e le p before h = (ground arith, λ q. ground arith, ground arith)
  insert_after-Adds current (a ∷ rest) e le p before h =
      let top = Above-le max rest h.2 in (ground arith, λ q. ground arith, ground arith)

  -- A loop that finds no segment has all of them behind the new one.
  AddsOrBehind : ℕ → List Segment → Option (List Segment) → Type 0
  AddsOrBehind e l none = Above max s.end l
  AddsOrBehind e l (some l') = Adds max e s l l'

  add_loop-AddsOrBehind :
      (l : List Segment) (e : ℕ)
      → s.end ≤ max
      → Above max e l
      → IsDisjoint s l
      → AddsOrBehind e l (add_loop s l)
  unfolding add_loop AddsOrBehind
  add_loop-AddsOrBehind [] e top h d = top
  add_loop-AddsOrBehind (current ∷ rest) e top h d =
      elim (add_loop s rest)
          as (λ o.
            AddsOrBehind current.end rest o
            → AddsOrBehind e (current ∷ rest) (elim o [
              | some rest' ↦ some (current ∷ rest')
              | none ↦ if leb current.end s.start then some (insert_after s current rest) else none
            ])) [
              | some rest' ↦
                  λ ih. ((h.0, h.1, ih.0), λ q. ground (arith, ih.1 q), omega (arith, ih.2))
              | none ↦ λ ih.
                  if_cases (AddsOrBehind e (current ∷ rest)) (leb current.end s.start)
                    (λ before. insert_after-Adds current rest e h.0 h.1 (ground arith) ih)
                    (λ after. (ground arith, h.1, h.2))
            ]
        (add_loop-AddsOrBehind rest current.end top h.2 d.1)

  -- A segment that is added to a memory in address order, and meets none of its segments, leaves it in
  -- order, with exactly the bytes of the segment added in its state, and with as many more bytes.
  pub add_segment-Adds :
      (l : List Segment)
      → s.end ≤ max
      → Above max 0 l
      → IsDisjoint s l
      → Adds max 0 s l (add_segment s l)
  unfolding add_segment AddsOrBehind
  add_segment-Adds l top h d =
      elim (add_loop s l)
          as (λ o.
            AddsOrBehind 0 l o
            → Adds max 0 s l (elim o [ some l' ↦ l' | none ↦ insert_first s l ])) [
              | some l' ↦ λ a. a
              | none ↦ λ a.
                  let r = insert_first-Adds l a in
                  (Above-mono max (insert_first s l) (omega arith) r.0, r.1, r.2)
            ]
        (add_loop-AddsOrBehind l 0 top h d)
