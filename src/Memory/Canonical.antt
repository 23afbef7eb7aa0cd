-- ===== src/Memory/Canonical.antt =====
-- The free list of zMemory.cpp is determined by the set of free offsets: so nothing that happens to
-- the list depends on the order of the calls that led to it.
use zgc_primax.Base.{
  ℕ, ◌+◌, ◌≤◌, ◌<◌, ◌≡◌, refl, sym, ap₂, ◌≢◌, ◌∙◌, ◌⊎◌, inl, inr, true, false, List, [], ◌∷◌, arith,
  uintptr_max,
}
use zgc_primax.Memory.{Area, Manager, alloc_low_address, alloc_high_address, free}
use zgc_primax.Memory.Wf.{Above, IsWf, covered, within, IsDisjoint, covered_below, Takes}
use zgc_primax.Memory.Low.{alloc_low_address-Takes}
use zgc_primax.Memory.High.{alloc_high_address-Takes}
use zgc_primax.Memory.Free.{Frees, free-Frees}

abbrev SameOffsets : List Area → List Area → Type 0
SameOffsets xs ys = (p : ℕ) → covered p xs ≡ covered p ys

module _ (max : ℕ) where
  -- The first areas of two lists of the same offsets are the same.
  heads_eq :
      {d e : ℕ} (a b : Area) (xs ys : List Area)
      → Above max d (a ∷ xs)
      → Above max e (b ∷ ys)
      → SameOffsets (a ∷ xs) (b ∷ ys)
      → (a.start ≡ b.start) × (a.end ≡ b.end)
  heads_eq a b xs ys h k same = (starts, ends)
    where
      starts : a.start ≡ b.start
      starts = ground (
        arith,
        same a.start,
        same b.start,
        covered_below max a.start ys {e = b.end + 1} k.2,
        covered_below max b.start xs {e = a.end + 1} h.2,
      )

      ends : a.end ≡ b.end
      ends = ground (
        arith,
        starts,
        same a.end,
        same b.end,
        covered_below max a.end xs {e = a.end + 1} h.2,
        covered_below max b.end ys {e = b.end + 1} k.2,
      )

  -- What lies behind the first areas is the same then.
  tails_same :
      (a b : Area) (xs ys : List Area)
      → Above max (a.end + 1) xs
      → Above max (b.end + 1) ys
      → (a.start ≡ b.start) × (a.end ≡ b.end)
      → SameOffsets (a ∷ xs) (b ∷ ys)
      → SameOffsets xs ys
  tails_same a b xs ys h k eq same p =
      ground (arith, same p, covered_below max p xs h, covered_below max p ys k)

  not-SameOffsets-nil :
      {e : ℕ} (a : Area) (xs : List Area) → Above max e (a ∷ xs) → ¬ SameOffsets (a ∷ xs) []
  not-SameOffsets-nil a xs h same = ground (arith, same a.start)

  lists_eq :
      (xs ys : List Area) (d e : ℕ) → Above max d xs → Above max e ys → SameOffsets xs ys → xs ≡ ys
  lists_eq [] [] d e h k same = refl
  lists_eq [] (b ∷ ys) d e h k same = absurd (not-SameOffsets-nil b ys k (λ p. sym (same p)))
  lists_eq (a ∷ xs) [] d e h k same = absurd (not-SameOffsets-nil a xs h same)
  lists_eq (a ∷ xs) (b ∷ ys) d e h k same =
      let heads = heads_eq a b xs ys h k same in
      ap₂ ◌∷◌ (ground (arith, heads))
        (lists_eq xs ys (a.end + 1) (b.end + 1) h.2 k.2 (tails_same a b xs ys h.2 k.2 heads same))

-- Two well-formed free lists with the same free offsets are the same list.
pub freelist_unique :
    (max : ℕ) (xs ys : List Area)
    → IsWf max xs
    → IsWf max ys
    → ((p : ℕ) → covered p xs ≡ covered p ys)
    → xs ≡ ys
freelist_unique max xs ys h k same = lists_eq max xs ys 0 0 h k same

pub uncovered_of_disjoint :
    (start size p : ℕ) (l : List Area)
    → IsDisjoint start size l
    → within start size p ≡ true
    → covered p l ≡ false
uncovered_of_disjoint start size p [] d w = refl
uncovered_of_disjoint start size p (a ∷ rest) d w =
    ground (arith, uncovered_of_disjoint start size p rest d.1 w)

pub IsDisjoint-of_uncovered :
    (max start size e : ℕ) (l : List Area)
    → 0 < size
    → Above max e l
    → ((p : ℕ) → within start size p ≡ true → covered p l ≡ false)
    → IsDisjoint start size l
IsDisjoint-of_uncovered max start size e [] pos h un = tt
IsDisjoint-of_uncovered max start size e (a ∷ rest) pos h un = (
  apart,
  IsDisjoint-of_uncovered max start size (a.end + 1) rest pos h.2 (λ p w. ground (arith, un p w)),
)
  where
    apart : (start + size ≤ a.start) ⊎ (a.end ≤ start)
    apart = ground (arith, un start, un a.start)

module _ (max : ℕ) (small : max < uintptr_max) where
  -- Freeing what was just taken puts the list back as it was.
  pub free-Takes :
      (offset size : ℕ) (before : List Area) (m' : Manager)
      → 0 < size
      → IsWf max before
      → IsWf max m'.freelist
      → Takes max offset size before m'.freelist
      → (free offset size m').freelist ≡ before
  free-Takes offset size before m' pos wf wf' t =
      let back = free-Frees max offset size m' small pos t.inside wf' t.gone in
      freelist_unique max (free offset size m').freelist before back.0 wf
        (λ p. back.1 p ∙ sym (t.rest_kept p))

  module _ (size : ℕ) (m : Manager) (pos : 0 < size) (wf : IsWf max m.freelist) where
    -- What `alloc_low_address` gives, if it is not UINTPTR_MAX, `free` gives back: the free list is
    -- then as it was before.
    pub free-alloc_low_address :
        let (offset, m') = alloc_low_address size m in
        offset ≢ uintptr_max → (free offset size m').freelist ≡ m.freelist
    free-alloc_low_address found = elim (alloc_low_address-Takes max small size m wf).1 [
      | inl h ↦ absurd (found h.0)
      | inr h ↦
          free-Takes (alloc_low_address size m).0 size m.freelist (alloc_low_address size m).1 pos
            wf (alloc_low_address-Takes max small size m wf).0 h.2
    ]

    -- The same for `alloc_high_address`.
    pub free-alloc_high_address :
        let (offset, m') = alloc_high_address size m in
        offset ≢ uintptr_max → (free offset size m').freelist ≡ m.freelist
    free-alloc_high_address found = elim (alloc_high_address-Takes max small size m wf).1 [
      | inl h ↦ absurd (found h.0)
      | inr h ↦
          free-Takes (alloc_high_address size m).0 size m.freelist (alloc_high_address size m).1 pos
            wf (alloc_high_address-Takes max small size m wf).0 h.2
    ]

  -- After one range is freed, another one that meets neither it nor a free area is still apart.
  still-IsDisjoint :
      (start size start' size' : ℕ) (m : Manager)
      → 0 < size'
      → (start + size ≤ start') ⊎ (start' + size' ≤ start)
      → IsDisjoint start' size' m.freelist
      → Frees max 0 start size m.freelist (free start size m).freelist
      → IsDisjoint start' size' (free start size m).freelist
  still-IsDisjoint start size start' size' m pos' apart d f =
      IsDisjoint-of_uncovered max start' size' 0 (free start size m).freelist pos' f.0
        (λ p w. ground (arith, f.1 p, uncovered_of_disjoint start' size' p m.freelist d w))

  -- On a well-formed free list, with a largest offset below UINTPTR_MAX, two ranges of at least a
  -- byte up to that offset, which overlap neither each other nor a free area, may be freed in
  -- either order: the free list is the same.
  pub free_comm :
      (start size start' size' : ℕ) (m : Manager)
      → IsWf max m.freelist
      → (0 < size) × (start + size ≤ max) × IsDisjoint start size m.freelist
      → (0 < size') × (start' + size' ≤ max) × IsDisjoint start' size' m.freelist
      → (start + size ≤ start') ⊎ (start' + size' ≤ start)
      → (free start' size' (free start size m)).freelist
        ≡ (free start size (free start' size' m)).freelist
  free_comm start size start' size' m wf r r' apart =
      freelist_unique max _ _ first.0 second.0
        (λ p. ground (arith, one.1 p, other.1 p, first.1 p, second.1 p))
    where
      one : Frees max 0 start size m.freelist (free start size m).freelist
      one = free-Frees max start size m small r.0 r.1 wf r.2

      other : Frees max 0 start' size' m.freelist (free start' size' m).freelist
      other = free-Frees max start' size' m small r'.0 r'.1 wf r'.2

      first :
          Frees max 0 start' size'
            (free start size m).freelist
            (free start' size' (free start size m)).freelist
      first =
          free-Frees max start' size' (free start size m) small r'.0 r'.1 one.0
            (still-IsDisjoint start size start' size' m r'.0 apart r'.2 one)

      second :
          Frees max 0 start size
            (free start' size' m).freelist
            (free start size (free start' size' m)).freelist
      second =
          free-Frees max start size (free start' size' m) small r.0 r.1 other.0
            (still-IsDisjoint start' size' start size m r.0 (ground arith) r.2 other)
