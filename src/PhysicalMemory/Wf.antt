-- ===== src/PhysicalMemory/Wf.antt =====
-- The invariant of the segments of zPhysicalMemory.cpp, and what they stand for.
use zgc_primax.Base.{
  ℕ, ◌+◌, ◌-◌, ◌≤◌, ◌<◌, ◌≡◌, refl, ◌⊎◌, inr, Bool, ◌&&◌, List, [], ◌∷◌, arith, ltb, leb, Option,
  none, some, if◌then◌else◌, add64, sub64, uintptr_max,
}
use zgc_primax.PhysicalMemory.{Segment, memory_size}

-- Segments in address order from `e` on, none empty, all up to `max`.
abbrev pub Above : ℕ → ℕ → List Segment → Type 0
Above max e [] = e ≤ max
Above max e (s ∷ rest) = (e ≤ s.start) × (s.start < s.end) × Above max s.end rest

abbrev pub within : Segment → ℕ → Bool
within s p = leb s.start p && ltb p s.end

-- Whether the byte at `p` is committed, and nothing if no segment has it.
abbrev pub state_at : ℕ → List Segment → Option Bool
state_at p [] = none
state_at p (s ∷ rest) = if within s p then some s.committed else state_at p rest

-- The segment meets no other.
abbrev pub IsDisjoint : Segment → List Segment → Type 0
IsDisjoint s [] = Unit
IsDisjoint s (x ∷ rest) = ((s.end ≤ x.start) ⊎ (x.end ≤ s.start)) × IsDisjoint s rest

-- The number of bytes.
abbrev pub bytes : List Segment → ℕ
bytes [] = 0
bytes (s ∷ rest) = (s.end - s.start) + bytes rest

-- The list `l'` is in order, and is `l` with the bytes of `s`.
abbrev pub Adds : ℕ → ℕ → Segment → List Segment → List Segment → Type 0
Adds max e s l l' =
    Above max e l'
    × ((p : ℕ) → state_at p l' ≡ (if within s p then some s.committed else state_at p l))
    × (bytes l' ≡ bytes l + (s.end - s.start))

module _ (max : ℕ) where
  pub Above-le : (l : List Segment) {e : ℕ} → Above max e l → e ≤ max
  Above-le [] h = h
  Above-le (a ∷ rest) h = omega (arith, Above-le rest h.2)

  pub Above-mono : (l : List Segment) {d e : ℕ} → d ≤ e → Above max e l → Above max d l
  Above-mono [] le h = omega arith
  Above-mono (a ∷ rest) le h = (omega arith, h.1, h.2)

  pub state_at_below :
      (p : ℕ) (l : List Segment) {e : ℕ} → Above max e l → p < e → state_at p l ≡ none
  state_at_below p [] h lt = refl
  state_at_below p (a ∷ rest) h lt = ground (arith, state_at_below p rest h.2)

  -- Where the segments are in order, their sizes do not overflow.
  pub memory_size_lem :
      (l : List Segment) (e : ℕ)
      → max < uintptr_max
      → Above max e l
      → (memory_size l ≡ bytes l) × (e + bytes l ≤ max)
  unfolding memory_size add64 sub64
  memory_size_lem [] e small h = (refl, omega arith)
  memory_size_lem (a ∷ rest) e small h =
      let ih = memory_size_lem rest a.end small h.2 in
      let top = Above-le rest h.2 in (omega (arith, ih.0, top), omega (arith, ih.1))

  pub Above-widen : (l : List Segment) (e m : ℕ) → m ≤ max → Above m e l → Above max e l
  Above-widen [] e m le h = omega arith
  Above-widen (a ∷ rest) e m le h = (h.0, h.1, Above-widen rest a.end m le h.2)

  -- Nothing lies beyond `max`.
  pub state_at_beyond :
      (p : ℕ) (l : List Segment) (e : ℕ) → Above max e l → max ≤ p → state_at p l ≡ none
  state_at_beyond p [] e h le = refl
  state_at_beyond p (a ∷ rest) e h le =
      let top = Above-le rest h.2 in ground (arith, state_at_beyond p rest a.end h.2)

  pub Above-IsDisjoint :
      (s : Segment) (l : List Segment) (e : ℕ) → Above max e l → max ≤ s.start → IsDisjoint s l
  Above-IsDisjoint s [] e h le = tt
  Above-IsDisjoint s (a ∷ rest) e h le =
      let top = Above-le rest h.2 in (inr (omega arith), Above-IsDisjoint s rest a.end h.2 le)
