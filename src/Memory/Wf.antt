-- ===== src/Memory/Wf.antt =====
-- The invariant of the free list of zMemory.cpp, and the set of offsets that it stands for.
use zgc_primax.Base.{
  ℕ, ◌+◌, ◌≤◌, ◌<◌, ◌≡◌, refl, ◌⊎◌, inl, inr, Bool, false, ◌&&◌, ◌||◌, List, [], ◌∷◌, arith, ltb,
  leb,
}
use zgc_primax.Memory.{Area}

-- Areas in address order from `e` on, none empty, no two adjacent, all up to `max`.
abbrev pub Above : ℕ → ℕ → List Area → Type 0
Above max e [] = e ≤ max + 1
Above max e (a ∷ rest) = (e ≤ a.start) × (a.start < a.end) × Above max (a.end + 1) rest

-- The free list as the operations leave it. `max` is ZAddressOffsetMax.
abbrev pub IsWf : ℕ → List Area → Type 0
IsWf max l = Above max 0 l

-- `p` lies in one of the areas.
abbrev pub covered : ℕ → List Area → Bool
covered p [] = false
covered p (a ∷ rest) = leb a.start p && ltb p a.end || covered p rest

-- `p` lies in the `size` bytes from `start` on.
abbrev pub within : ℕ → ℕ → ℕ → Bool
within start size p = leb start p && ltb p (start + size)

-- The `size` bytes from `start` on meet no area.
abbrev pub IsDisjoint : ℕ → ℕ → List Area → Type 0
IsDisjoint start size [] = Unit
IsDisjoint start size (a ∷ rest) =
    ((start + size ≤ a.start) ⊎ (a.end ≤ start)) × IsDisjoint start size rest

-- No area holds `size` bytes.
abbrev pub NoneFits : ℕ → List Area → Type 0
NoneFits size [] = Unit
NoneFits size (a ∷ rest) = (a.end < a.start + size) × NoneFits size rest

-- No area that starts below `offset` holds `size` bytes.
abbrev pub NoneFitsBelow : ℕ → ℕ → List Area → Type 0
NoneFitsBelow offset size [] = Unit
NoneFitsBelow offset size (a ∷ rest) =
    ((offset ≤ a.start) ⊎ (a.end < a.start + size)) × NoneFitsBelow offset size rest

-- No area that ends above `end` holds `size` bytes.
abbrev pub NoneFitsAbove : ℕ → ℕ → List Area → Type 0
NoneFitsAbove end size [] = Unit
NoneFitsAbove end size (a ∷ rest) =
    ((a.end ≤ end) ⊎ (a.end < a.start + size)) × NoneFitsAbove end size rest

module _ (max : ℕ) where
  pub Above-le : (l : List Area) {e : ℕ} → Above max e l → e ≤ max + 1
  Above-le [] h = h
  Above-le (a ∷ rest) h = omega (arith, Above-le rest h.2)

  pub Above-mono : (l : List Area) {d e : ℕ} → d ≤ e → Above max e l → Above max d l
  Above-mono [] le h = omega arith
  Above-mono (a ∷ rest) le h = (omega arith, h.1, h.2)

  pub covered_below : (p : ℕ) (l : List Area) {e : ℕ} → Above max e l → p < e → covered p l ≡ false
  covered_below p [] h lt = refl
  covered_below p (a ∷ rest) h lt = ground (arith, covered_below p rest h.2)

  pub Above-IsDisjoint :
      (start size : ℕ) (l : List Area) {e : ℕ}
      → Above max e l
      → start + size ≤ e
      → IsDisjoint start size l
  Above-IsDisjoint start size [] h le = tt
  Above-IsDisjoint start size (a ∷ rest) h le =
      (inl (omega arith), Above-IsDisjoint start size rest h.2 (omega arith))

  pub Above-NoneFitsBelow :
      (offset size : ℕ) (l : List Area) {e : ℕ}
      → Above max e l
      → offset ≤ e
      → NoneFitsBelow offset size l
  Above-NoneFitsBelow offset size [] h le = tt
  Above-NoneFitsBelow offset size (a ∷ rest) h le =
      (inl (omega arith), Above-NoneFitsBelow offset size rest h.2 (omega arith))

pub NoneFits-NoneFitsAbove :
    (end size : ℕ) (l : List Area) → NoneFits size l → NoneFitsAbove end size l
NoneFits-NoneFitsAbove end size [] h = tt
NoneFits-NoneFitsAbove end size (a ∷ rest) h = (inr h.0, NoneFits-NoneFitsAbove end size rest h.1)

-- Taking `size` bytes at `offset` out of `before` leaves `after`: the bytes were free, they are no
-- longer, and nothing else changes.
pub record Takes (max offset size : ℕ) (before after : List Area) : Type 0 where
  pub inside : offset + size ≤ max
  pub gone : IsDisjoint offset size after
  pub rest_kept : (p : ℕ) → covered p before ≡ (within offset size p || covered p after)

pub Takes-cons :
    {max offset size : ℕ} {before after : List Area} (a : Area)
    → (offset + size ≤ a.start) ⊎ (a.end ≤ offset)
    → Takes max offset size before after
    → Takes max offset size (a ∷ before) (a ∷ after)
Takes-cons a apart t = record {
  inside = t.inside;
  gone = (apart, t.gone);
  rest_kept = λ p. ground (arith, t.rest_kept p);
}

module _ (max size : ℕ) (a : Area) (rest : List Area) (h : Above max (a.end + 1) rest) where
  -- The whole of an area is taken.
  pub all-Takes : a.start + size ≡ a.end → Takes max a.start size (a ∷ rest) rest
  all-Takes eq = record {
    inside = omega (arith, Above-le max rest h);
    gone = Above-IsDisjoint max a.start size rest h (omega arith);
    rest_kept = λ p. ground arith;
  }

  -- Bytes from the front of an area are taken.
  pub front-Takes :
      a.start + size < a.end
      → Takes max a.start size (a ∷ rest) (record a { start = a.start + size } ∷ rest)
  front-Takes lt = record {
    inside = omega (arith, Above-le max rest h);
    gone = (inl (omega arith), Above-IsDisjoint max a.start size rest h (omega arith));
    rest_kept = λ p. ground arith;
  }

  -- Bytes from the back of an area are taken.
  pub back-Takes :
      (cut : ℕ)
      → cut + size ≡ a.end
      → a.start < cut
      → Takes max cut size (a ∷ rest) (record a { end = cut } ∷ rest)
  back-Takes cut eq lt = record {
    inside = omega (arith, Above-le max rest h);
    gone = (inr (omega arith), Above-IsDisjoint max cut size rest h (omega arith));
    rest_kept = λ p. ground arith;
  }
