-- ===== src/Memory/Free.antt =====
-- `free` of zMemory.cpp: a range comes back to the free list, and is merged with its neighbours.
use zgc_primax.Base.{
  ℕ, ◌+◌, ◌≤◌, ◌<◌, ◌≡◌, ◌||◌, List, [], ◌∷◌, arith, ltb, ◌==◌, uintptr_max, add64, sub64_lem,
  add64_lem, if_cases,
}
use zgc_primax.Memory.{Area, Call, Callbacks, Manager, size_of, free_after, free_loop, free}
use zgc_primax.Memory.Wf.{Above, IsWf, covered, within, IsDisjoint, Above-le}

-- What `free` makes of a list: a well-formed one with the freed bytes in it.
abbrev pub Frees : ℕ → ℕ → ℕ → ℕ → List Area → List Area → Type 0
Frees max e start size before after =
    Above max e after × ((p : ℕ) → covered p after ≡ (within start size p || covered p before))

module _ (max : ℕ) (small : max < uintptr_max) (cb : Callbacks) (start size : ℕ) (pos : 0 < size)
    (inside : start + size ≤ max) where
  end_lem : add64 start size ≡ start + size
  end_lem = omega (arith, add64_lem start size)

  -- Both neighbours touch the range.
  merged_end :
      (p a : Area)
      → p.end ≡ start
      → start + size ≡ a.start
      → a.start < a.end
      → a.end ≤ max
      → add64 p.end (add64 size (size_of a)) ≡ a.end
  merged_end p a left right lt le = omega (
    arith,
    sub64_lem a.end a.start,
    add64_lem size (size_of a),
    add64_lem p.end (add64 size (size_of a)),
  )

  free_after-Frees :
      (e : ℕ) (p : Area) (l : List Area)
      → Above max e (p ∷ l)
      → p.end ≤ start
      → IsDisjoint start size l
      → Frees max e start size (p ∷ l) (free_after cb p start size l).0
  unfolding free_after
  free_after-Frees e p [] h le d =
      if_cases (λ (r : List Area × List Call). Frees max e start size (p ∷ []) r.0) (start == p.end)
        (λ k. rw (add64_lem p.end size (ground arith)) (ground arith, λ q. ground arith))
        (λ k. rw end_lem (ground arith, λ q. ground arith))
  free_after-Frees e p (a ∷ rest) h le d =
      if_cases F (ltb start a.start)
        (λ before.
          let room : start + size ≤ a.start = ground arith in
          if_cases F (start == p.end)
            (λ left.
              if_cases F (add64 start size == a.start)
                (λ right.
                  let right' : start + size ≡ a.start = ground (arith, end_lem) in
                  rw (merged_end p a (ground arith) right' h.2.1 top)
                    ((h.0, omega arith, h.2.2), λ q. ground arith))
                (λ apart.
                  let apart' : start + size < a.start = ground (arith, end_lem) in
                  rw (add64_lem p.end size (ground arith)) (ground arith, λ q. ground arith)))
            (λ left.
              if_cases F (add64 start size == a.start)
                (λ right.
                  let right' : start + size ≡ a.start = ground (arith, end_lem) in
                  rw (sub64_lem a.start size (omega arith) (omega arith))
                    ((h.0, h.1, (ground arith, omega arith, h.2.2)), λ q. ground arith))
                (λ apart.
                  let apart' : start + size < a.start = ground (arith, end_lem) in
                  rw end_lem (
                    (h.0, h.1, (ground arith, omega arith, (omega arith, h.2.1, h.2.2))),
                    λ q. ground arith,
                  ))))
        (λ after.
          let later = free_after-Frees (p.end + 1) a rest h.2 (ground arith) d.1 in
          ((h.0, h.1, later.0), λ q. ground (arith, later.1 q)))
    where
      F : List Area × List Call → Type 0
      F r = Frees max e start size (p ∷ a ∷ rest) r.0

      top : a.end ≤ max
      top = omega (arith, Above-le max rest h.2.2)

  free_loop-Frees :
      (l : List Area)
      → IsWf max l
      → IsDisjoint start size l
      → Frees max 0 start size l (free_loop cb start size l).0
  unfolding free_loop
  free_loop-Frees [] h d = rw end_lem (ground arith, λ q. ground arith)
  free_loop-Frees (a ∷ rest) h d =
      if_cases F (ltb start a.start)
        (λ before.
          let room : start + size ≤ a.start = ground arith in
          if_cases F (add64 start size == a.start)
            (λ right.
              let right' : start + size ≡ a.start = ground (arith, end_lem) in
              rw (sub64_lem a.start size (omega arith) (omega (arith, Above-le max rest h.2)))
                ((omega arith, omega arith, h.2), λ q. ground arith))
            (λ apart.
              let apart' : start + size < a.start = ground (arith, end_lem) in
              rw end_lem ((omega arith, omega arith, (omega arith, h.1, h.2)), λ q. ground arith)))
        (λ after. free_after-Frees 0 a rest h (ground arith) d.1)
    where
      F : List Area × List Call → Type 0
      F r = Frees max 0 start size (a ∷ rest) r.0

-- Freeing a range that overlaps no free area keeps the free list well formed (in address order, with
-- no two areas adjacent), and adds exactly the bytes of the range to it.
pub free-Frees :
    (max start size : ℕ) (m : Manager)
    → max < uintptr_max
    → 0 < size
    → start + size ≤ max
    → IsWf max m.freelist
    → IsDisjoint start size m.freelist
    → Frees max 0 start size m.freelist (free start size m).freelist
unfolding free
free-Frees max start size m small pos inside wf d =
    free_loop-Frees max small m.callbacks start size pos inside m.freelist wf d
