-- ===== src/VirtualMemory/Reserve.antt =====
-- What `reserve` of zVirtualMemory.cpp reserves.
use native.Mathlib.Nat.{mod-lt, mod-add-div'}
use zgc_primax.Base.{
  ℕ, zero, suc, ◌+◌, ◌-◌, ◌*◌, ◌/◌, min, ◌≤◌, ◌<◌, ◌≡◌, refl, inl, inr, Bool, true, false, ◌&&◌,
  Option, none, some, List, [], ◌∷◌, arith, ltb, leb, uintptr_max, if◌then◌else◌, if_cases,
  Bool-cases, le_of_ltb, le_of_leb, subst,
}
use zgc_primax.Memory.{Manager, free}
use zgc_primax.Memory.Wf.{IsWf}
use zgc_primax.VirtualMemory.{
  Space, reserve_at, reserve_range, calculate_min_range, reserve_loop, reserve_discontiguous,
  contiguous_loop, reserve_contiguous, reserve_size, reserve,
}
use zgc_primax.VirtualMemory.Pieces.{
  IsBelow, ArePieces, Reserves, nothing-Reserves, one-Reserves, Reserves-append,
}

-- Rounding to a multiple.
multiple_le : (g x : ℕ) → x / g * g ≤ x
multiple_le g x = omega (arith, mod-add-div' x g)

multiple_pos : (g x : ℕ) → 0 < g → g ≤ x → 0 < x / g * g
multiple_pos g x pos le = omega (arith, mod-add-div' x g, mod-lt x {m = g} pos)

le_multiple : (g n : ℕ) → 0 < n * g → g ≤ n * g
le_multiple g zero pos = absurd (omega arith)
le_multiple g (suc n) pos = omega arith

module _ (o : Space) (small : o.offset_max < uintptr_max) (granule : 0 < o.granule) where
  abbrev pub RangeOutcome : ℕ → ℕ → Manager → Option (ℕ × Manager) → Type 0
  RangeOutcome start end m none = ⊥
  RangeOutcome start end m (some (n, m')) = Reserves o start end m n m'

  both-RangeOutcome :
      (start mid end : ℕ) (m : Manager) (x : Option (ℕ × Manager))
      (f : Manager → Option (ℕ × Manager))
      → RangeOutcome start mid m x
      → ((n : ℕ) (m' : Manager) → Reserves o start mid m n m' → RangeOutcome mid end m' (f m'))
      → RangeOutcome start end m (elim x [
        | none ↦ none
        | some (n, m') ↦ elim (f m') [ none ↦ none | some (k, m'') ↦ some (n + k, m'') ]
      ])
  both-RangeOutcome start mid end m none f r g = r
  both-RangeOutcome start mid end m (some (n, m')) f r g =
      elim (f m')
          as (λ y.
            RangeOutcome mid end m' y
            → RangeOutcome start end m
                (elim y [ none ↦ none | some (k, m'') ↦ some (n + k, m'') ])) [
                  | none ↦ λ t. t
                  | some (k, m'') ↦ λ t. Reserves-append o start mid end n k m m' m'' r t
                ]
        (g n m' r)

  reserve_range-RangeOutcome :
      (levels start size min_range : ℕ) (m : Manager)
      → size < levels
      → o.granule ≤ min_range
      → start + size ≤ o.offset_max
      → IsWf o.offset_max m.freelist
      → IsBelow start m.freelist
      → RangeOutcome start (start + size) m (reserve_range o levels start size min_range m)
  unfolding reserve_range reserve_at
  reserve_range-RangeOutcome zero start size min_range m lt le inside wf below =
      absurd (omega arith)
  reserve_range-RangeOutcome (suc levels) start size min_range m lt le inside wf below =
      if_cases (RangeOutcome start (start + size) m) (ltb size min_range)
        (λ tiny. nothing-Reserves o start (start + size) m (omega arith) wf below)
        (λ big. elim (Bool-cases (o.pd_reserve start size)) [
          | inl yes_do ↦ rw yes_do (
              one-Reserves o start size m small (omega (arith, le_of_ltb big)) inside yes_do wf
                below)
          | inr no_do ↦ rw no_do (
              if_cases (RangeOutcome start (start + size) m) (ltb (size / 2) min_range)
                (λ tiny. nothing-Reserves o start (start + size) m (omega arith) wf below)
                (λ wide.
                  let g = o.granule in
                  let part : ℕ = size / 2 / g * g in
                  let part_le = multiple_le g (size / 2) in
                  let part_pos =
                    multiple_pos g (size / 2) granule (omega (arith, le_of_ltb wide)) in
                  let sum : start + part + (size - part) ≡ start + size = omega (arith, part_le) in
                  both-RangeOutcome start (start + part) (start + size) m
                    (reserve_range o levels start part min_range m)
                    (λ m'. reserve_range o levels (start + part) (size - part) min_range m')
                    (reserve_range-RangeOutcome levels start part min_range m
                      (omega (arith, part_le, part_pos)) le (omega (arith, part_le)) wf below)
                    (λ n m' r.
                      subst
                        (λ e.
                          RangeOutcome (start + part) e m'
                            (reserve_range o levels (start + part) (size - part) min_range m'))
                        sum
                        (reserve_range-RangeOutcome levels (start + part) (size - part) min_range m'
                          (omega (arith, part_le, part_pos)) le (omega (arith, part_le)) r.wf
                          r.below))))
        ])

  Reserves-widen :
      (start end end' n : ℕ) (m m' : Manager)
      → end ≤ end'
      → Reserves o start end m n m'
      → Reserves o start end' m n m'
  Reserves-widen start end end' n m m' le r = record {
    pieces = r.pieces;
    placed = wide start r.pieces r.placed;
    counted = r.counted;
    wf = r.wf;
    free_now = r.free_now;
    below = λ p. ground (arith, r.below p);
  }
    where
      wide : (start : ℕ) (xs : List (ℕ × ℕ)) → ArePieces o start end xs → ArePieces o start end' xs
      wide start [] h = omega (arith, h)
      wide start (x ∷ xs) h = (h.0, h.1, h.2, wide (x.0 + x.1) xs h.3)

  reserve_loop-RangeOutcome :
      (rounds size min_range start reserved : ℕ) (m0 m : Manager)
      → o.offset_max - start < rounds
      → o.granule ≤ min_range
      → start ≤ o.offset_max
      → Reserves o 0 start m0 reserved m
      → RangeOutcome 0 o.offset_max m0 (reserve_loop o rounds size min_range start reserved m)
  unfolding reserve_loop
  reserve_loop-RangeOutcome zero size min_range start reserved m0 m lt le at r =
      absurd (omega arith)
  reserve_loop-RangeOutcome (suc rounds) size min_range start reserved m0 m lt le at r =
      let remaining = min (size - reserved) (o.offset_max - start) in
      if_cases (RangeOutcome 0 o.offset_max m0) (ltb reserved size && ltb start o.offset_max)
        (λ more.
          elim (reserve_range o (remaining + 1) start remaining min_range m)
              as (λ x.
                RangeOutcome start (start + remaining) m x
                → RangeOutcome 0 o.offset_max m0 (elim x [
                  | none ↦ none
                  | some (more, m') ↦
                      reserve_loop o rounds size min_range (start + remaining) (reserved + more) m'
                ])) [
                  | none ↦ λ t. t
                  | some (n, m') ↦ λ t.
                      reserve_loop-RangeOutcome rounds size min_range (start + remaining)
                        (reserved + n) m0 m' (ground (arith, more)) le (omega (arith, at))
                        (Reserves-append o 0 start (start + remaining) reserved n m0 m m' r t)
                ]
            (reserve_range-RangeOutcome (remaining + 1) start remaining min_range m (omega arith) le
              (omega (arith, at)) r.wf r.below))
        (λ done. Reserves-widen 0 start o.offset_max reserved m0 m at r)

  abbrev pub ContiguousOutcome : ℕ → Manager → Option (Bool × Manager) → Type 0
  ContiguousOutcome size m none = ⊥
  ContiguousOutcome size m (some (true, m')) = Reserves o 0 o.offset_max m size m'
  ContiguousOutcome size m (some (false, m')) = m' ≡ m

  from_start :
      (start size : ℕ) (m m' : Manager)
      → start + size ≤ o.offset_max
      → Reserves o start (start + size) m size m'
      → Reserves o 0 o.offset_max m size m'
  from_start start size m m' le r =
      let wide = Reserves-widen start (start + size) o.offset_max size m m' le r in
      record {
        pieces = wide.pieces;
        placed = from_zero wide.pieces wide.placed;
        counted = wide.counted;
        wf = wide.wf;
        free_now = wide.free_now;
        below = wide.below;
      }
    where
      from_zero :
          (xs : List (ℕ × ℕ)) → ArePieces o start o.offset_max xs → ArePieces o 0 o.offset_max xs
      from_zero [] h = omega arith
      from_zero (x ∷ xs) h = (omega arith, h.1, h.2, h.3)

  contiguous_loop-ContiguousOutcome :
      (rounds done size increment start : ℕ) (m : Manager)
      → rounds + done ≡ o.offset_max + 2
      → done ≤ start
      → done ≤ o.offset_max + 1
      → 0 < increment
      → 0 < size
      → IsWf o.offset_max m.freelist
      → IsBelow 0 m.freelist
      → ContiguousOutcome size m (contiguous_loop o rounds size increment start m)
  unfolding contiguous_loop reserve_at
  contiguous_loop-ContiguousOutcome zero done size increment start m e at ok inc pos wf below =
      absurd (omega arith)
  contiguous_loop-ContiguousOutcome (suc rounds) done size increment start m e at ok inc pos wf
        below =
      if_cases (ContiguousOutcome size m) (leb (start + size) o.offset_max)
        (λ inside.
          let le : start + size ≤ o.offset_max = le_of_leb inside in
          elim (Bool-cases (o.pd_reserve start size)) [
            | inl yes_do ↦ rw yes_do (
                from_start start size m (free start size m) le (
                  one-Reserves o start size m small pos le yes_do wf
                    (λ p. ground (arith, below p))))
            | inr no_do ↦ rw no_do (
                contiguous_loop-ContiguousOutcome rounds (done + 1) size increment
                  (start + increment) m (omega arith) (omega arith) (omega (arith, le)) inc pos wf
                  below)
          ])
        (λ outside. refl)

  -- What `reserve` does to a manager without free memory.
  abbrev pub ReserveOutcome : ℕ → Manager → Option (ℕ × Bool × Manager) → Type 0
  ReserveOutcome max_capacity m none = ⊥
  ReserveOutcome max_capacity m (some (reserved, enough, m')) =
      Reserves o 0 o.offset_max m reserved m' × (enough ≡ leb max_capacity reserved)

  -- Where the largest offset is below UINTPTR_MAX, granules are not empty, at least 100 bytes are
  -- asked for and no memory is free, `reserve` ends, whatever the operating system answers. What it
  -- says to have reserved is the sum of pieces in address order below the largest offset, each of
  -- which the system has reserved, and just their bytes become free. It succeeds if that is the
  -- capacity.
  pub reserve-ReserveOutcome :
      (max_capacity : ℕ) (m : Manager)
      → 100 ≤ reserve_size o max_capacity
      → m.freelist ≡ []
      → ReserveOutcome max_capacity m (reserve o max_capacity m)
  unfolding reserve reserve_contiguous reserve_discontiguous calculate_min_range
  reserve-ReserveOutcome max_capacity m enough empty =
      let size = reserve_size o max_capacity in
      let g = o.granule in
      let wf : IsWf o.offset_max m.freelist = rw empty (omega arith) in
      let below : IsBelow 0 m.freelist = λ p. inr (rw empty refl) in
      let step : ℕ = ((o.offset_max - size) / 8192 + g - 1) / g * g in
      let increment : ℕ = if ltb step g then g else step in
      let min_range_le : g ≤ (size / 100 + g - 1) / g * g =
        le_multiple g ((size / 100 + g - 1) / g)
          (multiple_pos g (size / 100 + g - 1) granule (omega (arith, enough, granule))) in
      elim (contiguous_loop o (o.offset_max + 2) size increment 0 m)
          as (λ x.
            ContiguousOutcome size m x
            → ReserveOutcome max_capacity m (elim x [
              | none ↦ none
              | some (true, m') ↦ some (size, leb max_capacity size, m')
              | some (false, m') ↦ elim (reserve_discontiguous o size m') [
                | none ↦ none
                | some (reserved, m'') ↦ some (reserved, leb max_capacity reserved, m'')
              ]
            ])) [
              | none ↦ λ t. t
              | some (true, m') ↦ λ t. (t, refl)
              | some (false, m') ↦ λ t. rw t (
                  whole (reserve_discontiguous o size m) (
                    reserve_loop-RangeOutcome (o.offset_max + 1) size (calculate_min_range o size) 0
                      0 m m (omega arith) min_range_le (omega arith)
                      (nothing-Reserves o 0 0 m (omega arith) wf below)))
            ]
        (contiguous_loop-ContiguousOutcome (o.offset_max + 2) 0 size increment 0 m (omega arith)
          (omega arith) (omega arith) (ground (arith, granule)) (omega (arith, enough)) wf below)
    where
      whole :
          (x : Option (ℕ × Manager))
          → RangeOutcome 0 o.offset_max m x
          → ReserveOutcome max_capacity m (elim x [
            | none ↦ none
            | some (reserved, m'') ↦ some (reserved, leb max_capacity reserved, m'')
          ])
      whole none t = t
      whole (some (n, m'')) t = (t, refl)
