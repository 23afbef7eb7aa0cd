-- ===== src/PageFreeList/Gaps.antt =====
-- The ranges between the live objects of a page, the last one first.
use zgc_primax.Base.{
  ℕ, suc, ◌+◌, ◌-◌, ◌*◌, ◌%◌, ◌≤◌, ◌≡◌, inl, inr, leb, if◌then◌else◌, List, [], ◌∷◌, All, All-map,
  length, total, arith, if_cases,
}
use zgc_primax.JsMalloc.Lists.{Block, Apart}

-- The range between two addresses, cut to a multiple of 8 bytes.
abbrev pub between : ℕ → ℕ → Block
between curr to = record { address = curr; size = (to - curr) - (to - curr) % 8 }

-- It is a gap if it has the least size.
unfoldable pub with_gap : ℕ → ℕ → ℕ → List Block → List Block
with_gap least curr to gaps =
    if leb least (between curr to).size then between curr to ∷ gaps else gaps

unfoldable pub gaps_from : ℕ → ℕ → List Block → ℕ → List Block → List Block
gaps_from least curr [] end gaps = with_gap least curr end gaps
gaps_from least curr (o ∷ os) end gaps =
    gaps_from least (o.address + o.size) os end (with_gap least curr o.address gaps)

-- Objects by address, from one address to another.
abbrev pub InOrder : ℕ → List Block → ℕ → Type 0
InOrder curr [] end = curr ≤ end
InOrder curr (o ∷ os) end = (curr ≤ o.address) × InOrder (o.address + o.size) os end

pub InOrder-le : (curr : ℕ) (os : List Block) (end : ℕ) → InOrder curr os end → curr ≤ end
InOrder-le curr [] end h = h
InOrder-le curr (o ∷ os) end h = omega (arith, h.0, InOrder-le (o.address + o.size) os end h.1)

abbrev pub EndBy : ℕ → List Block → Type 0
EndBy curr bs = All (λ b. b.address + b.size ≤ curr) bs

pub with_gap-All {κ} :
    (P : Block → Type κ) (least curr to : ℕ) (gaps : List Block)
    → P (between curr to)
    → All P gaps
    → All P (with_gap least curr to gaps)
unfolding with_gap
with_gap-All P least curr to gaps h k =
    if_cases (All P) (leb least (between curr to).size) (λ e. (h, k)) (λ e. k)

pub with_gap-EndBy :
    (least curr to : ℕ) (gaps : List Block)
    → curr ≤ to
    → EndBy curr gaps
    → EndBy to (with_gap least curr to gaps)
with_gap-EndBy least curr to gaps le h =
    with_gap-All (λ b. b.address + b.size ≤ to) least curr to gaps (omega arith)
      (All-map _ _ gaps (λ b k. omega arith) h)

gaps_after :
    (r : Block) (least curr : ℕ) (os : List Block) (end : ℕ) (gaps : List Block)
    → InOrder curr os end
    → r.address + r.size ≤ curr
    → All (Apart r) gaps
    → All (Apart r) (gaps_from least curr os end gaps)
unfolding gaps_from
gaps_after r least curr [] end gaps h le k = with_gap-All (Apart r) least curr end gaps (inl le) k
gaps_after r least curr (o ∷ os) end gaps h le k =
    gaps_after r least (o.address + o.size) os end (with_gap least curr o.address gaps) h.1
      (omega (arith, h.0)) (with_gap-All (Apart r) least curr o.address gaps (inl le) k)

-- No gap has a byte of a live object.
pub gaps_from-Apart :
    (least curr : ℕ) (os : List Block) (end : ℕ) (gaps : List Block)
    → InOrder curr os end
    → EndBy curr gaps
    → All (λ o. All (Apart o) (gaps_from least curr os end gaps)) os
unfolding gaps_from
gaps_from-Apart least curr [] end gaps h k = tt
gaps_from-Apart least curr (o ∷ os) end gaps h k =
    let before = with_gap-EndBy least curr o.address gaps h.0 k in
    (
      gaps_after o least (o.address + o.size) os end (with_gap least curr o.address gaps) h.1
          (omega arith) (All-map _ (Apart o) _ (λ b e. inr e) before),
      gaps_from-Apart least (o.address + o.size) os end (with_gap least curr o.address gaps) h.1
          (All-map _ _ _ (λ b e. omega arith) before),
    )

total-with_gap :
    (least curr to : ℕ) (gaps : List Block)
    → curr ≤ to
    → to - curr + total (λ b. b.size) gaps
      ≤ total (λ b. b.size) (with_gap least curr to gaps) + (least + 7)
unfolding with_gap
total-with_gap least curr to gaps le = ground arith

-- The gaps and the objects make up the page, but for less than the least size, and a rest of the alignment, at each.
pub total-gaps_from :
    (least curr : ℕ) (os : List Block) (end : ℕ) (gaps : List Block)
    → InOrder curr os end
    → end - curr + total (λ b. b.size) gaps
      ≤ total (λ b. b.size) (gaps_from least curr os end gaps)
        + total (λ o. o.size) os
        + (length os + 1) * (least + 7)
unfolding gaps_from
total-gaps_from least curr [] end gaps h = omega (arith, total-with_gap least curr end gaps h)
total-gaps_from least curr (o ∷ os) end gaps h =
    let m : ℕ = (length os + 1) * (least + 7) in
    let more : (suc (length os) + 1) * (least + 7) ≡ m + (least + 7) =
      one_more (length os) (least + 7) in
    rw more (
      omega (
        arith,
        h.0,
        InOrder-le (o.address + o.size) os end h.1,
        total-with_gap least curr o.address gaps h.0,
        total-gaps_from least (o.address + o.size) os end (with_gap least curr o.address gaps) h.1,
      ))
  where
    one_more : (a b : ℕ) → (suc a + 1) * b ≡ (a + 1) * b + b
    one_more a b = grind arith
