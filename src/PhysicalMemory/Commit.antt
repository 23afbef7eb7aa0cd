-- ===== src/PhysicalMemory/Commit.antt =====
-- What committing and uncommitting a physical memory guarantees, in zPhysicalMemory.cpp.
use zgc_primax.Base.{
  ℕ, ◌+◌, ◌≤◌, ◌<◌, ◌≡◌, refl, ◌⊎◌, inl, inr, Bool, true, false, not, List, [], ◌∷◌, arith, ltb,
  Option, none, some, if◌then◌else◌, add64, sub64, uintptr_max, if_cases, Bool-cases, ◌==◌, subst,
  sym,
}
use zgc_primax.PhysicalMemory.{Segment, new_segment, size_of, set_loop, eq_Bool}
use zgc_primax.PhysicalMemory.Wf.{Above, within, state_at, Above-le}

-- The backing has set the byte at `q` in a call for `size` bytes from `start` on.
abbrev pub IsSetBy : (ℕ → ℕ → ℕ) → ℕ → Type 0
IsSetBy backing q = (start : ℕ) × (size : ℕ) × (start ≤ q) × (q < start + backing start size)

-- The byte has the state that it had, unless the backing has set it.
abbrev pub KeptOrSet : (ℕ → ℕ → ℕ) → Bool → ℕ → List Segment → List Segment → Type 0
KeptOrSet backing committed q l l' =
    (state_at q l' ≡ state_at q l)
    ⊎ ((state_at q l ≡ some (not committed)) × (state_at q l' ≡ some committed) × IsSetBy backing q)

-- The state that each byte has when all are set.
abbrev pub all_set : Bool → Option Bool → Option Bool
all_set committed none = none
all_set committed (some b) = some committed

abbrev pub Sets : (ℕ → ℕ → ℕ) → Bool → ℕ → ℕ → List Segment → List Segment × Bool → Type 0
Sets backing committed max e l r =
    Above max e r.0
    × ((q : ℕ) → KeptOrSet backing committed q l r.0)
    × ((r.1 ≡ false) ⊎ ((q : ℕ) → state_at q r.0 ≡ all_set committed (state_at q l)))
    × ((r.1 ≡ true) ⊎ ((start : ℕ) × (size : ℕ) × (backing start size < size)))

-- The cases of the body of the loop.
set_cases :
    (P : List Segment × Bool → Type 0) (b c : Bool) (all : List Segment) {part no : List Segment}
    {done : List Segment × Bool}
    → (b ≡ true → P done)
    → (b ≡ false → c ≡ true → P (part, false))
    → (b ≡ false → c ≡ false → P (no, false))
    → let r : List Segment × Bool =
        if b then (all, true) else (if c then (part, false) else (no, false)) in
      P (if r.1 then done else r)
set_cases P true c all f g h = f refl
set_cases P false true all f g h = g refl refl
set_cases P false false all f g h = h refl refl

module _ (backing : ℕ → ℕ → ℕ) (honest : (start size : ℕ) → backing start size ≤ size)
    (committed : Bool) (max : ℕ) (small : max < uintptr_max) where
  KeptOrSet-cons :
      (q : ℕ) (s : Segment) (rest rest' : List Segment)
      → KeptOrSet backing committed q rest rest'
      → KeptOrSet backing committed q (s ∷ rest) (s ∷ rest')
  KeptOrSet-cons q s rest rest' k = elim (Bool-cases (within s q)) [
    | inl t ↦ inl (ground arith)
    | inr f ↦ elim k [
      | inl eq ↦ inl (ground arith)
      | inr (was, is, by) ↦ inr (ground arith, ground arith, by)
    ]
  ]

  KeptOrSet-all :
      (q : ℕ) (s : Segment) (rest rest' : List Segment)
      → s.committed ≡ not committed
      → s.end ≤ s.start + backing s.start (size_of s)
      → KeptOrSet backing committed q rest rest'
      → KeptOrSet backing committed q (s ∷ rest) (record s { committed = committed } ∷ rest')
  KeptOrSet-all q s rest rest' other set k = elim (Bool-cases (within s q)) [
    | inl t ↦ inr (ground arith, ground arith, (s.start, size_of s, ground arith, ground arith))
    | inr f ↦ elim k [
      | inl eq ↦ inl (ground arith)
      | inr (was, is, by) ↦ inr (ground arith, ground arith, by)
    ]
  ]

  -- The segments that a part of `s` leaves.
  KeptOrSet-part :
      (q : ℕ) (s x y : Segment) (rest : List Segment)
      → s.committed ≡ not committed
      → (x.start ≡ s.start)
        × (y.start ≡ x.end)
        × (y.end ≡ s.end)
        × (s.start ≤ x.end)
        × (x.end ≤ s.end)
      → (x.committed ≡ committed) × (y.committed ≡ not committed)
      → x.end ≤ s.start + backing s.start (size_of s)
      → KeptOrSet backing committed q (s ∷ rest) (x ∷ y ∷ rest)
  KeptOrSet-part q s x y rest other at with_states set = elim (Bool-cases (within x q)) [
    | inl t ↦ inr (ground arith, ground arith, (s.start, size_of s, ground arith, ground arith))
    | inr f ↦ inl (ground arith)
  ]

  set_loop_on-Sets :
      (l : List Segment) (e : ℕ)
      → Above max e l
      → Sets backing committed max e l (set_loop backing committed l)
  unfolding set_loop add64 sub64
  set_loop_on-Sets [] e h = (h, λ q. inl refl, inr (λ q. refl), inl refl)
  set_loop_on-Sets (s ∷ rest) e h =
      let top = Above-le max rest h.2 in
      let rest' = (set_loop backing committed rest).0 in
      let r = set_loop_on-Sets rest s.end h.2 in
      let b = backing s.start (size_of s) in
      let x = new_segment s.start b committed in
      let y = new_segment (add64 s.start b) (sub64 (size_of s) b) (not committed) in
      let le = honest s.start (size_of s) in
      if_cases (Sets backing committed max e (s ∷ rest)) (eq_Bool s.committed committed)
        (λ same. (
          (h.0, h.1, r.0),
          λ q. KeptOrSet-cons q s rest rest' (r.1 q),
          elim r.2 [ inl f ↦ inl f | inr set ↦ inr (λ q. ground (arith, set q)) ],
          r.3,
        ))
        (λ apart.
          set_cases (Sets backing committed max e (s ∷ rest)) (b == size_of s) (ltb 0 b)
            (record s { committed = committed } ∷ rest)
            (λ all. (
              (h.0, h.1, r.0),
              λ q. KeptOrSet-all q s rest rest' (ground arith) (ground arith) (r.1 q),
              elim r.2 [ inl f ↦ inl f | inr set ↦ inr (λ q. ground (arith, set q)) ],
              r.3,
            ))
            (λ less some_set.
              let less' : b < size_of s = ground arith in
              let some_set' : 0 < b = ground arith in
              let x_end : x.end ≡ s.start + b = omega arith in
              let y_start : y.start ≡ x.end = omega arith in
              let y_end : y.end ≡ s.end = omega arith in
              (
                (
                  h.0,
                  omega arith,
                  (omega arith, omega arith, subst (λ n. Above max n rest) (sym y_end) h.2),
                ),
                λ q.
                    KeptOrSet-part q s x y rest (ground arith)
                      (refl, y_start, y_end, omega arith, omega arith) (refl, refl) (omega arith),
                inl refl,
                inr (s.start, size_of s, less'),
              ))
            (λ less none_set. (h, λ q. inl refl, inl refl, inr (s.start, size_of s, ground arith))))

-- Committing the memory of a page, or uncommitting it, keeps the segments in order. A byte keeps its
-- state unless the backing has set it, which it does only to bytes in the other state; on success
-- all bytes are set; and on failure the backing has set fewer bytes than it was asked for.
pub set_loop-Sets :
    (backing : ℕ → ℕ → ℕ) (committed : Bool) (max : ℕ) (l : List Segment)
    → ((start size : ℕ) → backing start size ≤ size)
    → max < uintptr_max
    → Above max 0 l
    → Sets backing committed max 0 l (set_loop backing committed l)
set_loop-Sets backing committed max l honest small h =
    set_loop_on-Sets backing honest committed max small l 0 h
