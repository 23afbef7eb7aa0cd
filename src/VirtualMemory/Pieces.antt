-- ===== src/VirtualMemory/Pieces.antt =====
-- The pieces that zVirtualMemory.cpp reserves, and the free list that they make.
use zgc_primax.Base.{
  ℕ, ◌+◌, ◌-◌, ◌≤◌, ◌<◌, ◌≡◌, refl, ◌⊎◌, inr, Bool, true, false, ◌||◌, List, [], ◌∷◌, ◌++◌, total,
  total-append, arith, uintptr_max,
}
use zgc_primax.Memory.{Area, Manager, free}
use zgc_primax.Memory.Wf.{Above, IsWf, covered, within, IsDisjoint}
use zgc_primax.Memory.Free.{free-Frees}
use zgc_primax.VirtualMemory.{Space}

-- The byte is in one of the pieces, each with its start and its size.
abbrev pub in_pieces : ℕ → List (ℕ × ℕ) → Bool
in_pieces p [] = false
in_pieces p (x ∷ xs) = within x.0 x.1 p || in_pieces p xs

pub in_pieces-append :
    (p : ℕ) (xs ys : List (ℕ × ℕ)) → in_pieces p (xs ++ ys) ≡ (in_pieces p xs || in_pieces p ys)
in_pieces-append p [] ys = refl
in_pieces-append p (x ∷ xs) ys = ground (arith, in_pieces-append p xs ys)

abbrev pub sizes : List (ℕ × ℕ) → ℕ
sizes xs = total (λ x. x.1) xs

-- From `e` on no byte is free.
abbrev pub IsBelow : ℕ → List Area → Type 0
IsBelow e l = (p : ℕ) → (p < e) ⊎ (covered p l ≡ false)

IsBelow-IsDisjoint :
    (max e start size : ℕ) (l : List Area)
    → Above max e l
    → IsBelow start l
    → IsDisjoint start size l
IsBelow-IsDisjoint max e start size [] h below = tt
IsBelow-IsDisjoint max e start size (a ∷ rest) h below = (
  inr (ground (arith, below (a.end - 1), h.1)),
  IsBelow-IsDisjoint max (a.end + 1) start size rest h.2 (λ p. ground (arith, below p)),
)

module _ (o : Space) where
  -- The pieces are in order between `start` and `end`, and the system has reserved each.
  abbrev pub ArePieces : ℕ → ℕ → List (ℕ × ℕ) → Type 0
  ArePieces start end [] = start ≤ end
  ArePieces start end (x ∷ xs) =
      (start ≤ x.0) × (0 < x.1) × (o.pd_reserve x.0 x.1 ≡ true) × ArePieces (x.0 + x.1) end xs

  pub ArePieces-append :
      (start mid end : ℕ) (xs ys : List (ℕ × ℕ))
      → ArePieces start mid xs
      → ArePieces mid end ys
      → ArePieces start end (xs ++ ys)
  ArePieces-append start mid end [] [] h k = omega arith
  ArePieces-append start mid end [] (y ∷ ys) h k = (omega (arith, k.0), k.1, k.2, k.3)
  ArePieces-append start mid end (x ∷ xs) ys h k =
      (h.0, h.1, h.2, ArePieces-append (x.0 + x.1) mid end xs ys h.3 k)

  -- What reserving between `start` and `end` has done to the free list.
  pub record Reserves (start end : ℕ) (m : Manager) (reserved : ℕ) (m' : Manager) : Type 0 where
    pub pieces : List (ℕ × ℕ)
    pub placed : ArePieces start end pieces
    pub counted : reserved ≡ sizes pieces
    pub wf : IsWf o.offset_max m'.freelist
    pub free_now : (p : ℕ) → covered p m'.freelist ≡ (in_pieces p pieces || covered p m.freelist)
    pub below : IsBelow end m'.freelist

  pub nothing-Reserves :
      (start end : ℕ) (m : Manager)
      → start ≤ end
      → IsWf o.offset_max m.freelist
      → IsBelow start m.freelist
      → Reserves start end m 0 m
  nothing-Reserves start end m le wf below = record {
    pieces = [];
    placed = le;
    counted = refl;
    wf = wf;
    free_now = λ p. refl;
    below = λ p. ground (arith, below p);
  }

  pub one-Reserves :
      (start size : ℕ) (m : Manager)
      → o.offset_max < uintptr_max
      → 0 < size
      → start + size ≤ o.offset_max
      → o.pd_reserve start size ≡ true
      → IsWf o.offset_max m.freelist
      → IsBelow start m.freelist
      → Reserves start (start + size) m size (free start size m)
  one-Reserves start size m small pos inside yes_do wf below =
      let f =
        free-Frees o.offset_max start size m small pos inside wf
          (IsBelow-IsDisjoint o.offset_max 0 start size m.freelist wf below) in
      record {
        pieces = (start, size) ∷ [];
        placed = (omega arith, pos, yes_do, omega arith);
        counted = omega arith;
        wf = f.0;
        free_now = λ p. ground (arith, f.1 p);
        below = λ p. ground (arith, f.1 p, below p);
      }

  pub Reserves-append :
      (start mid end a b : ℕ) (m m' m'' : Manager)
      → Reserves start mid m a m'
      → Reserves mid end m' b m''
      → Reserves start end m (a + b) m''
  Reserves-append start mid end a b m m' m'' r s = record {
    pieces = r.pieces ++ s.pieces;
    placed = ArePieces-append start mid end r.pieces s.pieces r.placed s.placed;
    counted =
        omega (arith, r.counted, s.counted, total-append (λ (x : ℕ × ℕ). x.1) r.pieces s.pieces);
    wf = s.wf;
    free_now =
        λ p. ground (arith, r.free_now p, s.free_now p, in_pieces-append p r.pieces s.pieces);
    below = s.below;
  }
