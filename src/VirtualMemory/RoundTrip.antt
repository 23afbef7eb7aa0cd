-- ===== src/VirtualMemory/RoundTrip.antt =====
-- That freeing what was allocated by zVirtualMemory.cpp restores the free list.
use zgc_primax.Base.{
  ℕ, ◌+◌, ◌-◌, ◌<◌, ◌≡◌, ◌≢◌, refl, ◌⊎◌, inl, inr, Bool, ◌||◌, arith, leb, ◌==◌, uintptr_max,
  if_cases, Bool-cases, if◌then◌else◌, ap, ◌∙◌,
}
use zgc_primax.Memory.{Manager, free, alloc_low_address, alloc_high_address}
use zgc_primax.Memory.Wf.{IsWf}
use zgc_primax.Memory.Canonical.{free-alloc_low_address, free-alloc_high_address}
use zgc_primax.VirtualMemory.{Space, VirtualMemory, alloc_memory, free_memory, null_memory}

-- There is no memory, or freeing it restores the free list.
abbrev pub IsRestored : Manager → VirtualMemory × Manager → Type 0
IsRestored m (v, m') = (v ≡ null_memory) ⊎ ((free_memory v m').freelist ≡ m.freelist)

module _ (max : ℕ) (below : max < uintptr_max) where
  given :
      (size start : ℕ) (m m' : Manager)
      → (start ≡ uintptr_max) ⊎ ((free start size m').freelist ≡ m.freelist)
      → IsRestored m (
        if start == uintptr_max then null_memory else record { start = start; end = start + size },
        m',
      )
  unfolding free_memory
  given size start m m' h =
      if_cases (λ v. IsRestored m (v, m')) (start == uintptr_max) (λ e. inl refl)
        (λ e. elim h [
          | inl k ↦ absurd (ground (arith, e, k))
          | inr k ↦
              let same : start + size - start ≡ size = omega arith in
              inr (ap (λ n. (free start n m').freelist) same ∙ k)
        ])

  -- From a well-formed free list, with a largest offset below UINTPTR_MAX, `alloc` of at least a byte
  -- gives no memory, or freeing what it gives restores the list.
  pub free_memory-alloc_memory :
      (o : Space) (size : ℕ) (force_low_address : Bool) (m : Manager)
      → 0 < size
      → IsWf max m.freelist
      → IsRestored m (alloc_memory o size force_low_address m)
  unfolding alloc_memory
  free_memory-alloc_memory o size force_low_address m pos wf =
      if_cases {A = ℕ × Manager}
        (λ r. IsRestored m (
          if r.0 == uintptr_max then null_memory else record { start = r.0; end = r.0 + size },
          r.1,
        ))
        (force_low_address || leb size o.size_small)
        (λ low.
          let r = alloc_low_address size m in
          given size r.0 m r.1
            (or_else r.0 (λ found. free-alloc_low_address max below size m pos wf found)))
        (λ high.
          let r = alloc_high_address size m in
          given size r.0 m r.1
            (or_else r.0 (λ found. free-alloc_high_address max below size m pos wf found)))
    where
      or_else : {P : Type 0} (start : ℕ) → (start ≢ uintptr_max → P) → (start ≡ uintptr_max) ⊎ P
      or_else start f = elim (Bool-cases (start == uintptr_max)) [
        | inl e ↦ inl (ground (arith, e))
        | inr e ↦ inr (f (ground (arith, e)))
      ]
