-- ===== src/Memory/High.antt =====
-- `alloc_high_address` of zMemory.cpp: bytes from the back of the highest area that is large enough.
use zgc_primax.Base.{
  ℕ, ◌+◌, ◌≤◌, ◌<◌, ◌≡◌, refl, ◌⊎◌, inl, inr, Option, none, some, List, [], ◌∷◌, arith, leb, ◌==◌,
  uintptr_max, sub64, sub64_lem, if_cases, Option-cases,
}
use zgc_primax.Memory.{
  Area, Call, Callbacks, Manager, size_of, destroy, shrink_from_back, alloc_high_loop,
  alloc_high_address,
}
use zgc_primax.Memory.Wf.{
  Above, IsWf, NoneFits, NoneFitsAbove, Above-le, Above-mono, NoneFits-NoneFitsAbove, Takes,
  Takes-cons, all-Takes, back-Takes,
}

module _ (max : ℕ) (small : max < uintptr_max) (cb : Callbacks) where
  high_cases {ℓ} :
      (P : Option (ℕ × List Area × List Call) → Type ℓ) (size : ℕ) (a : Area) (rest : List Area)
      → a.start < a.end
      → a.end ≤ max
      → ((r : ℕ × List Area × List Call)
          → alloc_high_loop cb size rest ≡ some r
          → P (some (r.0, a ∷ r.1, r.2)))
      → (alloc_high_loop cb size rest ≡ none
          → a.start + size ≡ a.end
          → P (some (a.start, rest, destroy cb a)))
      → ((cut : ℕ)
          → alloc_high_loop cb size rest ≡ none
          → cut + size ≡ a.end
          → a.start < cut
          → P (some (cut, record a { end = cut } ∷ rest, (shrink_from_back cb a size).1)))
      → (alloc_high_loop cb size rest ≡ none → a.end < a.start + size → P none)
      → P (alloc_high_loop cb size (a ∷ rest))
  unfolding alloc_high_loop
  high_cases P size a rest lt le above exact part miss =
      elim (Option-cases (alloc_high_loop cb size rest)) [
        | inr (r, e) ↦ rw (e, alloc_high_loop) (above r e)
        | inl e ↦
            rw (e, alloc_high_loop)
              (if_cases P (leb size (size_of a))
                (λ h.
                  if_cases P (size_of a == size)
                    (λ k. exact e (ground (arith, sub64_lem a.end a.start)))
                    (λ k.
                      part (sub64 a.end size) e
                        (ground (arith, sub64_lem a.end a.start, sub64_lem a.end size))
                        (ground (arith, sub64_lem a.end a.start, sub64_lem a.end size))))
                (λ h. miss e (ground (arith, sub64_lem a.end a.start))))
      ]

  -- What the loop may return over a list from `e` on.
  abbrev Outcome : ℕ → ℕ → List Area → Option (ℕ × List Area × List Call) → Type 0
  Outcome e size l none = NoneFits size l
  Outcome e size l (some r) =
      (e ≤ r.0) × Above max e r.1 × NoneFitsAbove (r.0 + size) size l × Takes max r.0 size l r.1

  -- One round, from what the rounds above it have found.
  high_round-Outcome :
      (size e : ℕ) (a : Area) (rest : List Area)
      → Above max e (a ∷ rest)
      → Outcome (a.end + 1) size rest (alloc_high_loop cb size rest)
      → Outcome e size (a ∷ rest) (alloc_high_loop cb size (a ∷ rest))
  high_round-Outcome size e a rest h ih =
      high_cases (λ r. Outcome e size (a ∷ rest) r) size a rest h.1
        (omega (arith, Above-le max rest h.2))
        (λ r eq.
          let (from, wf, none_above, takes) = found r eq in
          (
            omega (arith, from),
            (h.0, h.1, wf),
            (inl (omega (arith, from)), none_above),
            Takes-cons a (inr (omega (arith, from))) takes,
          ))
        (λ eq k. (
          h.0,
          Above-mono max rest (omega arith) h.2,
          (inl (omega arith), NoneFits-NoneFitsAbove _ size rest (missed eq)),
          all-Takes max size a rest h.2 k,
        ))
        (λ cut eq k lt. (
          omega arith,
          (h.0, lt, Above-mono max rest (omega arith) h.2),
          (inl (omega arith), NoneFits-NoneFitsAbove _ size rest (missed eq)),
          back-Takes max size a rest h.2 cut k lt,
        ))
        (λ eq k. (k, missed eq))
    where
      found :
          (r : ℕ × List Area × List Call)
          → alloc_high_loop cb size rest ≡ some r
          → Outcome (a.end + 1) size rest (some r)
      found r eq = rw eq at ih

      missed : alloc_high_loop cb size rest ≡ none → NoneFits size rest
      missed eq = rw eq at ih

  high-Outcome :
      (size e : ℕ) (l : List Area) → Above max e l → Outcome e size l (alloc_high_loop cb size l)
  unfolding alloc_high_loop
  high-Outcome size e [] h = tt
  high-Outcome size e (a ∷ rest) h =
      high_round-Outcome size e a rest h (high-Outcome size (a.end + 1) rest h.2)

module _ (max : ℕ) (small : max < uintptr_max) (size : ℕ) (m : Manager)
    (wf : IsWf max m.freelist) where
  -- `alloc_high_address` keeps the free list well formed. It returns UINTPTR_MAX, and leaves the
  -- manager as it is, only if no area holds `size` bytes. Otherwise it takes exactly `size` bytes out
  -- of the free list, and no area that ends above them holds `size` bytes.
  pub alloc_high_address-Takes :
      let (offset, m') = alloc_high_address size m in
      IsWf max m'.freelist
      × (((offset ≡ uintptr_max) × (m' ≡ m) × NoneFits size m.freelist)
          ⊎ ((offset < uintptr_max)
              × NoneFitsAbove (offset + size) size m.freelist
              × Takes max offset size m.freelist m'.freelist))
  unfolding alloc_high_address
  alloc_high_address-Takes = elim (Option-cases (alloc_high_loop m.callbacks size m.freelist)) [
    | inl e ↦ rw (e, alloc_high_address) (wf, inl (refl, refl, (rw e at outcome)))
    | inr (r, e) ↦
        let (from, wf', none_above, takes) = found r e in
        rw (e, alloc_high_address) (wf', inr (omega (arith, takes.inside), none_above, takes))
  ]
    where
      outcome :
          Outcome max small m.callbacks 0 size m.freelist
            (alloc_high_loop m.callbacks size m.freelist)
      outcome = high-Outcome max small m.callbacks size 0 m.freelist wf

      found :
          (r : ℕ × List Area × List Call)
          → alloc_high_loop m.callbacks size m.freelist ≡ some r
          → Outcome max small m.callbacks 0 size m.freelist (some r)
      found r e = rw e at outcome
