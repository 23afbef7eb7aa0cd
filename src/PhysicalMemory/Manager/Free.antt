-- ===== src/PhysicalMemory/Manager/Free.antt =====
-- What freeing physical memory guarantees, in zPhysicalMemory.cpp.
use zgc_primax.Base.{
  ℕ, ◌≤◌, ◌<◌, ◌≡◌, refl, inr, Bool, true, false, ◌||◌, List, [], ◌∷◌, arith, Option, none, some,
  uintptr_max, sub64_lem,
}
use zgc_primax.Memory.{Manager, free}
use zgc_primax.Memory.Wf.{IsWf, covered}
use zgc_primax.Memory.Free.{free-Frees}
use zgc_primax.Memory.Canonical.{freelist_unique, IsDisjoint-of_uncovered}
use zgc_primax.Memory.Bytes.{free_bytes}
use zgc_primax.PhysicalMemory.{Segment, size_of}
use zgc_primax.PhysicalMemory.Wf.{Above, state_at, Above-le, state_at_below}
use zgc_primax.PhysicalMemory.Manager.{alloc, free_segments}
use zgc_primax.PhysicalMemory.Manager.Alloc.{AreApart, alloc-Allocs}

abbrev pub is_some : Option Bool → Bool
is_some none = false
is_some (some b) = true

-- The bytes of the memory have come to the free list, and nothing else.
abbrev pub FreesAll : ℕ → List Segment → Manager → Manager → Type 0
FreesAll max l m m' =
    IsWf max m'.freelist
    × ((q : ℕ) → covered q m'.freelist ≡ (covered q m.freelist || is_some (state_at q l)))

module _ (max : ℕ) (small : max < uintptr_max) where
  free_from-FreesAll :
      (l : List Segment) (m : Manager) (e : ℕ)
      → IsWf max m.freelist
      → Above max e l
      → AreApart m l
      → FreesAll max l m (free_segments l m)
  unfolding free_segments
  free_from-FreesAll [] m e wf h apart = (wf, λ q. ground arith)
  free_from-FreesAll (s ∷ rest) m e wf h apart =
      let top = Above-le max rest h.2 in
      let size = sub64_lem s.end s.start (omega (arith, h.1)) (omega arith) in
      let one =
        free-Frees max s.start (size_of s) m small (omega (arith, size)) (omega (arith, size)) wf (
          IsDisjoint-of_uncovered max s.start (size_of s) 0 m.freelist (omega (arith, size)) wf
            (λ q w. ground (arith, size, apart q))) in
      let m1 = free s.start (size_of s) m in
      let r =
        free_from-FreesAll rest m1 s.end one.0 h.2
          (λ q. ground (arith, size, one.1 q, apart q, state_at_below max q rest h.2)) in
      (r.0, λ q. ground (arith, size, r.1 q, one.1 q))

  -- Freeing a memory in address order, of which nothing is free, keeps the free list well formed, and
  -- adds exactly its bytes.
  pub free_segments-FreesAll :
      (l : List Segment) (m : Manager)
      → IsWf max m.freelist
      → Above max 0 l
      → AreApart m l
      → FreesAll max l m (free_segments l m)
  free_segments-FreesAll l m wf h apart = free_from-FreesAll l m 0 wf h apart

  -- Freeing what was allocated puts the free list back as it was.
  pub free_segments-alloc :
      (size : ℕ) (m : Manager)
      → size ≤ free_bytes m.freelist
      → IsWf max m.freelist
      → (m' : Manager) × (pmem : List Segment) × (alloc size size m [] ≡ some (m', pmem))
        × ((free_segments pmem m').freelist ≡ m.freelist)
  free_segments-alloc size m room wf =
      let (m', pmem, eq, a) =
        alloc-Allocs max small size size m [] (omega arith) room wf (omega arith) (λ q. inr refl) in
      let f = free_segments-FreesAll pmem m' a.0 a.1 a.2 in
      (
        m',
        pmem,
        eq,
        freelist_unique max (free_segments pmem m').freelist m.freelist f.0 wf
            (λ q. ground (arith, f.1 q, a.3 q)),
      )
