-- ===== src/Memory/Low.antt =====
-- `alloc_low_address` and `alloc_low_address_at_most` of zMemory.cpp: bytes from the front of the
-- lowest area that is large enough, or of the lowest area.
use zgc_primax.Base.{
  ℕ, ◌+◌, ◌≤◌, ◌<◌, ◌≡◌, refl, ap, ◌⊎◌, inl, inr, List, [], ◌∷◌, arith, leb, ◌==◌, uintptr_max,
  sub64_lem, add64_lem, if_cases,
}
use zgc_primax.Memory.{
  Area, Call, Callbacks, Manager, size_of, destroy, shrink_from_front, alloc_low_loop,
  alloc_low_at_most_first, alloc_low_address, alloc_low_address_at_most,
}
use zgc_primax.Memory.Wf.{
  Above, IsWf, NoneFits, NoneFitsBelow, Above-le, Above-mono, Above-NoneFitsBelow, Takes,
  Takes-cons, all-Takes, front-Takes,
}

module _ (max : ℕ) (small : max < uintptr_max) (cb : Callbacks) where
  low_cases {ℓ} :
      (P : ℕ × List Area × List Call → Type ℓ) (size : ℕ) (a : Area) (rest : List Area)
      → a.start < a.end
      → a.end ≤ max
      → (a.start + size ≡ a.end → P (a.start, rest, destroy cb a))
      → (a.start + size < a.end
          → P (
            a.start,
            record a { start = a.start + size } ∷ rest,
            (shrink_from_front cb a size).1,
          ))
      → (a.end < a.start + size
          → let later = alloc_low_loop cb size rest in P (later.0, a ∷ later.1, later.2))
      → P (alloc_low_loop cb size (a ∷ rest))
  unfolding alloc_low_loop
  low_cases P size a rest lt le exact part miss =
      if_cases P (leb size (size_of a))
        (λ h.
          if_cases P (size_of a == size) (λ k. exact (ground (arith, sub64_lem a.end a.start)))
            (λ k.
              let fits : a.start + size < a.end = ground (arith, sub64_lem a.end a.start) in
              rw (add64_lem a.start size (omega arith)) (part fits)))
        (λ h. miss (ground (arith, sub64_lem a.end a.start)))

  low-Above :
      (size e : ℕ) (l : List Area) → Above max e l → Above max e (alloc_low_loop cb size l).1
  unfolding alloc_low_loop
  low-Above size e [] h = h
  low-Above size e (a ∷ rest) h =
      low_cases (λ r. Above max e r.1) size a rest h.1 (omega (arith, Above-le max rest h.2))
        (λ k. Above-mono max rest (omega arith) h.2) (λ k. (omega arith, omega arith, h.2))
        (λ k. (h.0, h.1, low-Above size (a.end + 1) rest h.2))

  -- What the loop may return over a list from `e` on.
  abbrev Outcome : ℕ → ℕ → List Area → ℕ × List Area × List Call → Type 0
  Outcome e size l r =
      ((r.0 ≡ uintptr_max) × (r.1 ≡ l) × NoneFits size l)
      ⊎ ((e ≤ r.0) × NoneFitsBelow r.0 size l × Takes max r.0 size l r.1)

  Outcome-cons :
      (e size : ℕ) (a : Area) (rest : List Area) (r : ℕ × List Area × List Call)
      → e ≤ a.start
      → a.start < a.end
      → a.end < a.start + size
      → Outcome (a.end + 1) size rest r
      → Outcome e size (a ∷ rest) (r.0, a ∷ r.1, r.2)
  Outcome-cons e size a rest r above lt miss (inl h) = inl (h.0, ap (◌∷◌ a) h.1, (miss, h.2))
  Outcome-cons e size a rest r above lt miss (inr h) =
      inr (omega arith, (inr miss, h.1), Takes-cons a (inr (omega arith)) h.2)

  low-Outcome :
      (size e : ℕ) (l : List Area) → Above max e l → Outcome e size l (alloc_low_loop cb size l)
  unfolding alloc_low_loop
  low-Outcome size e [] h = inl (refl, refl, tt)
  low-Outcome size e (a ∷ rest) h =
      low_cases (λ r. Outcome e size (a ∷ rest) r) size a rest h.1
        (omega (arith, Above-le max rest h.2))
        (λ k. inr (h.0, none_below, all-Takes max size a rest h.2 k))
        (λ k. inr (h.0, none_below, front-Takes max size a rest h.2 k))
        (λ k.
          Outcome-cons e size a rest (alloc_low_loop cb size rest) h.0 h.1 k
            (low-Outcome size (a.end + 1) rest h.2))
    where
      none_below : NoneFitsBelow a.start size (a ∷ rest)
      none_below = (inl (omega arith), Above-NoneFitsBelow max a.start size rest h.2 (omega arith))

  -- What the first area gives at most.
  abbrev AtMost : ℕ → List Area → ℕ × ℕ × List Area × List Call → Type 0
  AtMost size l r =
      IsWf max r.2
      × (((r.0 ≡ uintptr_max) × (r.1 ≡ 0) × (l ≡ []) × (r.2 ≡ []))
          ⊎ ((r.0 < uintptr_max) × (r.1 ≤ size) × NoneFitsBelow r.0 1 l × Takes max r.0 r.1 l r.2))

  first-AtMost :
      (size : ℕ) (l : List Area) → IsWf max l → AtMost size l (alloc_low_at_most_first cb size l)
  unfolding alloc_low_at_most_first
  first-AtMost size [] wf = (wf, inl (refl, refl, refl, refl))
  first-AtMost size (a ∷ rest) wf =
      if_cases (λ r. AtMost size (a ∷ rest) r) (leb (size_of a) size)
        (λ h. (
          Above-mono max rest (omega arith) wf.2,
          inr (
            omega (arith, le),
            ground arith,
            lowest,
            all-Takes max (size_of a) a rest wf.2 exact,
          ),
        ))
        (λ h.
          let more : a.start + size < a.end = ground (arith, exact) in
          rw (add64_lem a.start size (omega (arith, le))) (
            (omega arith, omega arith, wf.2),
            inr (omega (arith, le), omega arith, lowest, front-Takes max size a rest wf.2 more),
          ))
    where
      le : a.end ≤ max
      le = omega (arith, Above-le max rest wf.2)

      exact : a.start + size_of a ≡ a.end
      exact = omega (arith, le, sub64_lem a.end a.start)

      lowest : NoneFitsBelow a.start 1 (a ∷ rest)
      lowest = (inl (omega arith), Above-NoneFitsBelow max a.start 1 rest wf.2 (omega arith))

module _ (max : ℕ) (small : max < uintptr_max) (size : ℕ) (m : Manager)
    (wf : IsWf max m.freelist) where
  -- `alloc_low_address` keeps the free list well formed. It returns UINTPTR_MAX, and leaves the list
  -- as it is, only if no area holds `size` bytes. Otherwise it returns the start of the lowest area
  -- that does, and takes exactly the `size` bytes from there on out of the free list.
  pub alloc_low_address-Takes :
      let (offset, m') = alloc_low_address size m in
      IsWf max m'.freelist
      × (((offset ≡ uintptr_max) × (m'.freelist ≡ m.freelist) × NoneFits size m.freelist)
          ⊎ ((offset < uintptr_max)
              × NoneFitsBelow offset size m.freelist
              × Takes max offset size m.freelist m'.freelist))
  unfolding alloc_low_address
  alloc_low_address-Takes = (
    low-Above max small m.callbacks size 0 m.freelist wf,
    elim (low-Outcome max small m.callbacks size 0 m.freelist wf) [
      | inl h ↦ inl h
      | inr h ↦ inr (omega (arith, h.2.inside), h.1, h.2)
    ],
  )

  -- `alloc_low_address_at_most` keeps the free list well formed. It returns UINTPTR_MAX and 0 only on
  -- an empty free list. Otherwise it takes as many bytes as the lowest area holds, but no more than
  -- `size`, and they are exactly what leaves the free list.
  pub alloc_low_address_at_most-Takes :
      let (offset, allocated, m') = alloc_low_address_at_most size m in
      IsWf max m'.freelist
      × (((offset ≡ uintptr_max) × (allocated ≡ 0) × (m.freelist ≡ []) × (m'.freelist ≡ []))
          ⊎ ((offset < uintptr_max)
              × (allocated ≤ size)
              × NoneFitsBelow offset 1 m.freelist
              × Takes max offset allocated m.freelist m'.freelist))
  unfolding alloc_low_address_at_most
  alloc_low_address_at_most-Takes = first-AtMost max small m.callbacks size m.freelist wf
