-- ===== src/PhysicalMemory/Manager/Alloc.antt =====
-- What allocating and freeing physical memory guarantees, in zPhysicalMemory.cpp.
use zgc_primax.Base.{
  ℕ, zero, suc, ◌+◌, ◌-◌, ◌≤◌, ◌<◌, ◌≡◌, refl, ◌⊎◌, inl, inr, true, false, List, [], ◌∷◌, arith,
  none, some, add64, sub64, uintptr_max, sub64_lem, subst,
}
use zgc_primax.Memory.{Manager, alloc_low_address_at_most}
use zgc_primax.Memory.Wf.{IsWf, covered, Takes}
use zgc_primax.Memory.Low.{alloc_low_address_at_most-Takes}
use zgc_primax.Memory.Canonical.{uncovered_of_disjoint}
use zgc_primax.Memory.Bytes.{free_bytes, free_bytes_le, alloc_low_address_at_most-TakesBytes}
use zgc_primax.PhysicalMemory.{Segment, new_segment, add_segment}
use zgc_primax.PhysicalMemory.Wf.{Above, IsDisjoint, within, state_at, bytes}
use zgc_primax.PhysicalMemory.Add.{add_segment-Adds}
use zgc_primax.PhysicalMemory.Manager.{alloc}

-- No offset is both free and in the memory.
abbrev pub AreApart : Manager → List Segment → Type 0
AreApart m pmem = (q : ℕ) → (covered q m.freelist ≡ false) ⊎ (state_at q pmem ≡ none)

-- Between the two states, the bytes that have left the free list have come into the memory, where
-- they are not committed, and nothing else has changed.
abbrev pub Moves : Manager → List Segment → Manager → List Segment → Type 0
Moves m pmem m' pmem' =
    (q : ℕ)
    → ((covered q m'.freelist ≡ covered q m.freelist) × (state_at q pmem' ≡ state_at q pmem))
      ⊎ ((covered q m.freelist ≡ true)
          × (covered q m'.freelist ≡ false)
          × (state_at q pmem' ≡ some false))

abbrev pub Allocs : ℕ → ℕ → Manager → List Segment → Manager → List Segment → Type 0
Allocs max size m pmem m' pmem' =
    IsWf max m'.freelist
    × Above max 0 pmem'
    × AreApart m' pmem'
    × Moves m pmem m' pmem'
    × (bytes pmem' ≡ bytes pmem + size)

IsDisjoint-of_states :
    (max : ℕ) (s : Segment) (l : List Segment) (e : ℕ)
    → s.start < s.end
    → Above max e l
    → ((q : ℕ) → (within s q ≡ false) ⊎ (state_at q l ≡ none))
    → IsDisjoint s l
IsDisjoint-of_states max s [] e pos h apart = tt
IsDisjoint-of_states max s (a ∷ rest) e pos h apart = (
  ground (arith, apart s.start, apart a.start),
  IsDisjoint-of_states max s rest a.end pos h.2 (λ q. ground (arith, apart q)),
)

module _ (max : ℕ) (small : max < uintptr_max) where
  -- The part that a round allocates.
  round-Allocs :
      (start n : ℕ) (m m' : Manager) (pmem : List Segment)
      → 0 < n
      → IsWf max m'.freelist
      → Takes max start n m.freelist m'.freelist
      → Above max 0 pmem
      → AreApart m pmem
      → Allocs max n m pmem m' (add_segment (new_segment start n false) pmem)
  unfolding add64
  round-Allocs start n m m' pmem pos wf t above apart =
      let s = new_segment start n false in
      let inside = t.inside in
      let s_end : s.end ≡ start + n = omega arith in
      let gone : (q : ℕ)
          → (within s q ≡ false)
            ⊎ ((covered q m'.freelist ≡ false) × (covered q m.freelist ≡ true)) =
        λ q. ground (arith, t.rest_kept q, uncovered_of_disjoint start n q m'.freelist t.gone) in
      let a = add_segment-Adds max small s (omega arith) pmem (omega arith) above (
        IsDisjoint-of_states max s pmem 0 (omega arith) above
          (λ q. ground (arith, gone q, apart q))) in
      (
        wf,
        a.0,
        λ q. ground (arith, a.1 q, apart q, gone q, t.rest_kept q),
        λ q. ground (arith, a.1 q, apart q, gone q, t.rest_kept q),
        omega (arith, a.2),
      )

  Allocs-trans :
      (n k : ℕ) (m m' m'' : Manager) (p p' p'' : List Segment)
      → Allocs max n m p m' p'
      → Allocs max k m' p' m'' p''
      → Allocs max (n + k) m p m'' p''
  Allocs-trans n k m m' m'' p p' p'' a b =
      (b.0, b.1, b.2, λ q. ground (arith, a.3 q, b.3 q), omega (arith, a.4, b.4))

  -- Allocating up to as many bytes as are free succeeds, with one round of the loop for each byte as
  -- fuel. The memory gets that many bytes, not committed, and in address order; they are exactly
  -- what leaves the free list, which stays well formed; and nothing is both free and in the memory.
  pub alloc-Allocs :
      (rounds size : ℕ) (m : Manager) (pmem : List Segment)
      → size ≤ rounds
      → size ≤ free_bytes m.freelist
      → IsWf max m.freelist
      → Above max 0 pmem
      → AreApart m pmem
      → (m' : Manager) × (pmem' : List Segment) × (alloc rounds size m pmem ≡ some (m', pmem'))
        × Allocs max size m pmem m' pmem'
  unfolding alloc
  alloc-Allocs zero size m pmem enough room wf above apart =
      (m, pmem, ground arith, (wf, above, apart, λ q. inl (refl, refl), omega arith))
  alloc-Allocs (suc rounds) zero m pmem enough room wf above apart =
      (m, pmem, refl, (wf, above, apart, λ q. inl (refl, refl), omega arith))
  alloc-Allocs (suc rounds) (suc k) m pmem enough room wf above apart =
      let start = (alloc_low_address_at_most (suc k) m).0 in
      let n = (alloc_low_address_at_most (suc k) m).1 in
      let m1 = (alloc_low_address_at_most (suc k) m).2 in
      let p1 = add_segment (new_segment start n false) pmem in
      let t = alloc_low_address_at_most-Takes max small (suc k) m wf in
      let b = alloc_low_address_at_most-TakesBytes max small (suc k) m wf in
      let le = free_bytes_le max m.freelist 0 wf in
      elim t.1 [
        | inl empty ↦ absurd (ground (arith, room))
        | inr taken ↦
            let pos : 0 < n = ground arith in
            let a = round-Allocs start n m m1 pmem pos t.0 taken.3 above apart in
            let left : sub64 (suc k) n ≡ suc k - n = sub64_lem (suc k) n taken.1 (omega arith) in
            let (m2, p2, eq, c) =
              alloc-Allocs rounds (suc k - n) m1 p1 (omega arith) (omega (arith, b.0)) t.0 a.1
                a.2 in
            (
              m2,
              p2,
              rw left (ground (arith, taken.0, eq)),
              subst (λ i. Allocs max i m pmem m2 p2) (omega (arith, taken.1))
                  (Allocs-trans n (suc k - n) m m1 m2 pmem p1 p2 a c),
            )
      ]
