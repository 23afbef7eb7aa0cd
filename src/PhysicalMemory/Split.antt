-- ===== src/PhysicalMemory/Split.antt =====
-- What `split` and `split_committed` of zPhysicalMemory.cpp guarantee.
use zgc_primax.Base.{
  ℕ, ◌+◌, ◌-◌, ◌≤◌, ◌<◌, ◌≡◌, refl, Bool, true, false, List, [], ◌∷◌, arith, ltb, leb, Option, none,
  some, if◌then◌else◌, add64, sub64, uintptr_max, if_cases, min, subst, sym, le_of_leb, lt_of_leb,
  lt_of_ltb, le_of_ltb,
}
use zgc_primax.PhysicalMemory.{
  Segment, new_segment, size_of, memory_size, add_segment, split_loop, split, split_committed_loop,
  split_committed,
}
use zgc_primax.PhysicalMemory.Wf.{
  Above, Adds, state_at, bytes, Above-le, Above-mono, Above-widen, Above-IsDisjoint, state_at_below,
  state_at_beyond, memory_size_lem,
}
use zgc_primax.PhysicalMemory.Add.{add_segment-Adds}

abbrev pub or_else : Option Bool → Option Bool → Option Bool
or_else (some b) o = some b
or_else none o = o

-- The memory `p` has what `pmem` and `l` have below `cut`, and `r` what `l` has from there on.
abbrev pub SplitsAt : ℕ → ℕ → List Segment → List Segment → List Segment × List Segment → Type 0
SplitsAt max e l pmem pr =
    (cut : ℕ) × (e ≤ cut)
    × Above max 0 pr.0
    × Above max e pr.1
    × (bytes pr.0 + bytes pr.1 ≡ bytes pmem + bytes l)
    × ((q : ℕ)
        → (state_at q pr.0 ≡ (if ltb q cut then or_else (state_at q pmem) (state_at q l) else none))
          × (state_at q pr.1 ≡ (if ltb q cut then none else state_at q l)))

module _ (max : ℕ) (small : max < uintptr_max) (size : ℕ) where
  split_keep :
      (l pmem : List Segment) → memory_size pmem ≡ size → split_loop l size pmem ≡ (pmem, l)
  unfolding split_loop
  split_keep [] pmem eq = refl
  split_keep (s ∷ rest) pmem eq = ground (arith, split_keep rest pmem eq)

  keep-SplitsAt :
      (l pmem : List Segment) (e : ℕ)
      → Above e 0 pmem
      → Above max e l
      → SplitsAt max e l pmem (pmem, l)
  keep-SplitsAt l pmem e hp h = (
    e,
    omega arith,
    Above-widen max pmem 0 e (Above-le max l h) hp,
    h,
    refl,
    λ q. (
      ground (arith, state_at_below max q l h, state_at_beyond e q pmem 0 hp),
      ground (arith, state_at_below max q l h),
    ),
  )

  -- With the first segment moved to `pmem`, or the first part of it.
  module _ (s : Segment) (rest pmem : List Segment) (e : ℕ) (hp : Above e 0 pmem)
      (h : Above max e (s ∷ rest)) where
    abbrev SplitsFirst : List Segment × List Segment → Type 0
    SplitsFirst pr =
        SplitsAt max e (s ∷ rest) pmem pr × (bytes pr.0 ≡ min size (bytes pmem + bytes (s ∷ rest)))

    sizes : (memory_size pmem ≡ bytes pmem) × (size_of s ≡ s.end - s.start) × (bytes pmem ≤ e)
    unfolding sub64
    sizes =
        let top = Above-le max (s ∷ rest) h in
        let top' = Above-le max rest h.2 in
        let known = memory_size_lem e pmem 0 (omega arith) hp in
        (known.0, omega arith, omega (arith, known.1))

    sum_lem : add64 (memory_size pmem) (size_of s) ≡ bytes pmem + (s.end - s.start)
    unfolding add64
    sum_lem = let top = Above-le max rest h.2 in omega (arith, sizes.0, sizes.1, sizes.2)

    split_size_lem :
        bytes pmem < size
        → size < bytes pmem + (s.end - s.start)
        → sub64 size (memory_size pmem) ≡ size - bytes pmem
    unfolding sub64
    split_size_lem less more = let top = Above-le max rest h.2 in omega (arith, sizes.0, sizes.2)

    moved :
        (x : Segment)
        → x.start ≡ s.start
        → x.start < x.end
        → x.end ≤ s.end
        → Adds x.end 0 x pmem (add_segment x pmem)
    moved x same pos le =
        let top = Above-le max rest h.2 in
        add_segment-Adds x.end (omega arith) x pos pmem (omega arith)
          (Above-widen x.end pmem 0 e (omega arith) hp)
          (Above-IsDisjoint e x pmem 0 hp (omega arith))

    whole-SplitsFirst :
        (pr : List Segment × List Segment)
        → SplitsAt max s.end rest (add_segment s pmem) pr
        → bytes pr.0 ≡ min size (bytes (add_segment s pmem) + bytes rest)
        → SplitsFirst pr
    whole-SplitsFirst pr v b =
        let m = moved s refl h.1 (omega arith) in
        (
          (
            v.0,
            omega (arith, h.0, h.1, v.1),
            v.2,
            Above-mono max pr.1 (omega arith) v.3,
            omega (arith, v.4, m.2),
            λ q. (
              ground (
                arith,
                (v.5 q).0,
                m.1 q,
                state_at_below max q rest h.2,
                state_at_beyond e q pmem 0 hp,
              ),
              ground (arith, (v.5 q).1, v.1),
            ),
          ),
          omega (arith, b, m.2),
        )

    part-SplitsFirst :
        bytes pmem < size
        → size < bytes pmem + (s.end - s.start)
        → let split_size = size - bytes pmem in
          let x = new_segment s.start split_size s.committed in
          let y =
            new_segment (add64 s.start split_size) (sub64 (size_of s) split_size) s.committed in
          SplitsFirst (add_segment x pmem, y ∷ rest)
    unfolding add64 sub64
    part-SplitsFirst less more =
        let split_size = size - bytes pmem in
        let x = new_segment s.start split_size s.committed in
        let top = Above-le max rest h.2 in
        let x_end : x.end ≡ s.start + split_size = omega arith in
        let y = new_segment (add64 s.start split_size) (sub64 (size_of s) split_size) s.committed in
        let y_start : y.start ≡ x.end = omega arith in
        let y_end : y.end ≡ s.end = omega arith in
        let m = moved x refl (omega arith) (omega arith) in
        (
          (
            x.end,
            omega arith,
            Above-widen max (add_segment x pmem) 0 x.end (omega arith) m.0,
            (omega arith, omega arith, subst (λ n. Above max n rest) (sym y_end) h.2),
            omega (arith, m.2),
            λ q. (
              ground (arith, m.1 q, state_at_below max q rest h.2, state_at_beyond e q pmem 0 hp),
              ground (arith, state_at_below max q rest h.2),
            ),
          ),
          omega (arith, m.2),
        )

  split_loop-SplitsAt :
      (l pmem : List Segment) (e : ℕ)
      → Above e 0 pmem
      → Above max e l
      → bytes pmem ≤ size
      → SplitsAt max e l pmem (split_loop l size pmem)
        × (bytes (split_loop l size pmem).0 ≡ min size (bytes pmem + bytes l))
  unfolding split_loop
  split_loop-SplitsAt [] pmem e hp h le = (keep-SplitsAt [] pmem e hp h, omega arith)
  split_loop-SplitsAt (s ∷ rest) pmem e hp h le =
      let known = sizes s rest pmem e hp h in
      if_cases (SplitsFirst s rest pmem e hp h) (ltb (memory_size pmem) size)
        (λ less.
          if_cases (SplitsFirst s rest pmem e hp h)
            (leb (add64 (memory_size pmem) (size_of s)) size)
            (λ fits.
              let m = moved s rest pmem e hp h s refl h.1 (omega arith) in
              let fits' : bytes (add_segment s pmem) ≤ size =
                omega (arith, sum_lem s rest pmem e hp h, m.2, le_of_leb fits) in
              let r = split_loop-SplitsAt rest (add_segment s pmem) s.end m.0 h.2 fits' in
              whole-SplitsFirst s rest pmem e hp h (split_loop rest size (add_segment s pmem)) r.0
                r.1)
            (λ over.
              let less' : bytes pmem < size = omega (arith, known.0, lt_of_ltb less) in
              let over' : size < bytes pmem + (s.end - s.start) =
                omega (arith, sum_lem s rest pmem e hp h, lt_of_leb over) in
              let x = new_segment s.start (size - bytes pmem) s.committed in
              let v = part-SplitsFirst s rest pmem e hp h less' over' in
              let filled : memory_size (add_segment x pmem) ≡ size =
                omega (arith, memory_size_lem max (add_segment x pmem) 0 small v.0.2, v.1) in
              rw
                (
                  split_size_lem s rest pmem e hp h less' over',
                  split_keep rest (add_segment x pmem) filled,
                )
                v))
        (λ full.
          let full' : memory_size pmem ≡ size = omega (arith, known.0, le_of_ltb full) in
          rw (split_keep rest pmem full')
            (keep-SplitsAt (s ∷ rest) pmem e hp h, omega (arith, known.0)))

-- Splitting `size` bytes off a memory in address order cuts it at an address: what is below is split
-- off, in order and with its state, and is `size` bytes or all; what is above stays.
pub split-SplitsAt :
    (max size : ℕ) (l : List Segment)
    → max < uintptr_max
    → Above max 0 l
    → SplitsAt max 0 l [] (split size l) × (bytes (split size l).0 ≡ min size (bytes l))
unfolding split
split-SplitsAt max size l small h =
    let r = split_loop-SplitsAt max small size l [] 0 (omega arith) h (omega arith) in
    (r.0, omega (arith, r.1))

-- The memory `pr.0` has the committed bytes of `l` and all of `pmem`, and `pr.1` the others of `l`.
abbrev pub SplitsCommitted :
    ℕ → ℕ → List Segment → List Segment → List Segment × List Segment → Type 0
SplitsCommitted max e l pmem pr =
    Above max 0 pr.0
    × Above max e pr.1
    × ((q : ℕ)
        → (state_at q pr.0 ≡ (elim (state_at q l) [ some true ↦ some true | _ ↦ state_at q pmem ]))
          × (state_at q pr.1 ≡ (elim (state_at q l) [ some false ↦ some false | _ ↦ none ])))

split_committed_loop-SplitsCommitted :
    (max : ℕ)
    → max < uintptr_max
    → (l pmem : List Segment) (e : ℕ) → Above e 0 pmem
    → Above max e l
    → SplitsCommitted max e l pmem (split_committed_loop l pmem)
unfolding split_committed_loop
split_committed_loop-SplitsCommitted max small [] pmem e hp h =
    (Above-widen max pmem 0 e h hp, h, λ q. (refl, refl))
split_committed_loop-SplitsCommitted max small (s ∷ rest) pmem e hp h =
    let top = Above-le max rest h.2 in
    if_cases (SplitsCommitted max e (s ∷ rest) pmem) s.committed
      (λ c.
        let m =
          add_segment-Adds s.end (omega arith) s h.1 pmem (omega arith)
            (Above-widen s.end pmem 0 e (omega arith) hp)
            (Above-IsDisjoint e s pmem 0 hp (omega arith)) in
        let r =
          split_committed_loop-SplitsCommitted max small rest (add_segment s pmem) s.end m.0 h.2 in
        (
          r.0,
          Above-mono max (split_committed_loop rest (add_segment s pmem)).1 (omega arith) r.1,
          λ q. (
            ground (arith, (r.2 q).0, m.1 q, state_at_below max q rest h.2),
            ground (arith, (r.2 q).1, state_at_below max q rest h.2),
          ),
        ))
      (λ c.
        let r =
          split_committed_loop-SplitsCommitted max small rest pmem s.end
            (Above-widen s.end pmem 0 e (omega arith) hp) h.2 in
        (
          r.0,
          (h.0, h.1, r.1),
          λ q. (
            ground (arith, (r.2 q).0, state_at_below max q rest h.2, state_at_beyond e q pmem 0 hp),
            ground (arith, (r.2 q).1, state_at_below max q rest h.2),
          ),
        ))

-- Splitting the committed part off a memory in address order leaves just the bytes that are not
-- committed, both in order.
pub split_committed-SplitsCommitted :
    (max : ℕ) (l : List Segment)
    → max < uintptr_max
    → Above max 0 l
    → SplitsCommitted max 0 l [] (split_committed l)
unfolding split_committed
split_committed-SplitsCommitted max l small h =
    split_committed_loop-SplitsCommitted max small l [] 0 (omega arith) h
