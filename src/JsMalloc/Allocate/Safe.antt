-- ===== src/JsMalloc/Allocate/Safe.antt =====
-- What allocate of JSMallocZ promises to those who use the rest of the page.
use zgc_primax.Base.{
  ℕ, suc, ◌+◌, ◌-◌, ◌*◌, ◌≤◌, ◌<◌, ◌≡◌, refl, subst, inl, inr, true, leb, Option, none, some, List,
  All, All-map, total, arith, Bool-cases, if_cases, Some, here, there, lt_of_leb, dec_lt,
}
use zgc_primax.JsMalloc.{Pool, get_mapping, target_size, align_size, mbs}
use zgc_primax.JsMalloc.Operations.{allocate}
use zgc_primax.JsMalloc.Classes.{get_mapping-le, get_mapping_mono, target_size_bounds}
use zgc_primax.JsMalloc.Lists.{
  Block, Apart, Holds, IsBlock, of_class, is_cons, Takes-All, Takes-AllApart, total-Takes,
}
use zgc_primax.JsMalloc.Allocate.{Found}
use zgc_primax.JsMalloc.Allocate.Split.{cut_free, remainder}
use zgc_primax.JsMalloc.Allocate.Outcome.{
  Given, Outcome, allocate-Outcome, size_limit, align_size_bounds,
}

-- The bytes that a request takes at an address.
abbrev pub range : ℕ → ℕ → Block
range blk size = record { address = blk; size = align_size size }

cut-All {κ} :
    (P : Block → Type κ) (b : Block) (a : ℕ) (rest : List Block)
    → (mbs ≤ b.size - a → P (remainder b a))
    → All P rest
    → All P (cut_free b a rest)
cut-All P b a rest f h =
    if_cases (All P) (leb mbs (b.size - a)) (λ e. (f (ground arith), h)) (λ e. h)

module _ {p : Pool} {free : List Block} {size : ℕ} {q : Pool} {blk : ℕ} (h : Holds p free)
    (g : Given p free size q blk) where
  abbrev free' : List Block
  free' = cut_free g.b (align_size size) g.rest

  apart_given : (r : Block) → All (Apart r) free → Apart r (range blk size)
  apart_given r k = elim (Takes-All (Apart r) g.c g.b g.takes_it k).0 [
    | inl le ↦ inl (omega (arith, g.address))
    | inr le ↦ inr (omega (arith, g.address, g.enough))
  ]

  apart_left : (r : Block) → All (Apart r) free → All (Apart r) free'
  apart_left r k =
      let (here', rest') = Takes-All (Apart r) g.c g.b g.takes_it k in
      cut-All (Apart r) g.b (align_size size) g.rest (λ large. cut_apart r here') rest'
    where
      cut_apart : (r : Block) → Apart r g.b → Apart r (remainder g.b (align_size size))
      cut_apart r (inl le) = inl (omega arith)
      cut_apart r (inr le) = inr (omega (arith, g.enough))

  given_left : All (Apart (range blk size)) free'
  given_left =
      let (apart', rest') = Takes-AllApart g.c g.b g.takes_it h.apart in
      cut-All (Apart (range blk size)) g.b (align_size size) g.rest
        (λ large. inl (omega (arith, g.address))) (All-map (Apart g.b) _ g.rest inside apart')
    where
      inside : (c : Block) → Apart g.b c → Apart (range blk size) c
      inside c (inl le) = inl (omega (arith, g.address, g.enough))
      inside c (inr le) = inr (omega (arith, g.address))

  words_kept :
      (r : Block)
      → All (Apart r) free
      → (word : ℕ) → r.address ≤ word
      → word < r.address + r.size
      → q.memory word ≡ p.memory word
  words_kept r k word low high = elim (Takes-All (Apart r) g.c g.b g.takes_it k).0 [
    | inl le ↦ g.kept word (inl (omega arith))
    | inr le ↦ g.kept word (inr (omega arith))
  ]

  in_pool : (p.block_start ≤ blk) × (blk + align_size size ≤ p.block_start + p.pool_size)
  in_pool =
      let is_block = (Takes-All (IsBlock p) g.c g.b g.takes_it h.blocks).0 in
      (omega (arith, g.address, is_block.starts), omega (arith, g.address, is_block.ends, g.enough))

  bytes :
      (s : ℕ) × (total (λ b. b.size) free ≡ s + total (λ b. b.size) free')
      × (align_size size ≤ s)
      × (s < align_size size + 16)
  bytes = elim (Bool-cases (leb mbs (g.b.size - align_size size))) [
    | inl large ↦ (
      align_size size,
      rw large (omega (arith, total-Takes (λ b. b.size) g.c g.b g.takes_it, g.enough)),
      omega arith,
      omega arith,
    )
    | inr small ↦ (
      g.b.size,
      rw small (total-Takes (λ b. b.size) g.c g.b g.takes_it),
      g.enough,
      omega (arith, lt_of_leb small),
    )
  ]

allocate-Given :
    (n : ℕ) (p q : Pool) (free : List Block) (size blk : ℕ)
    → Holds p free
    → size ≤ size_limit
    → allocate (suc n) size p ≡ some (q, some blk)
    → Given p free size q blk
unfolding Outcome
allocate-Given n p q free size blk h small e =
    subst (Outcome p free size) e (allocate-Outcome n p free h size small)

-- From a pool of these free blocks, for a request of at most 2^18 bytes, allocate gives out bytes
-- in the pool that no free block has afterwards. A range that no free block had a byte of has none
-- of the bytes given out, no free block has a byte of it afterwards, and none of its words has
-- changed. The pool stays well formed, in its place.
pub allocate_safe :
    (n : ℕ) (p q : Pool) (free : List Block) (size blk : ℕ)
    → Holds p free
    → size ≤ size_limit
    → allocate (suc n) size p ≡ some (q, some blk)
    → (left : List Block) × Holds q left
      × (q.block_start ≡ p.block_start)
      × (q.pool_size ≡ p.pool_size)
      × (p.block_start ≤ blk)
      × (blk + align_size size ≤ p.block_start + p.pool_size)
      × All (Apart (range blk size)) left
      × ((r : Block)
          → All (Apart r) free
          → Apart r (range blk size)
            × All (Apart r) left
            × ((word : ℕ)
                → r.address ≤ word
                → word < r.address + r.size
                → q.memory word ≡ p.memory word))
allocate_safe n p q free size blk h small e =
    let g = allocate-Given n p q free size blk h small e in
    let inside = in_pool h g in
    (
      free' h g,
      g.holds,
      g.same_start,
      g.same_size,
      inside.0,
      inside.1,
      given_left h g,
      λ r k. (apart_given h g r k, apart_left h g r k, words_kept h g r k),
    )

-- The free blocks lose the bytes that were asked for, rounded up to a multiple of 16, and less than 16
-- more. For requests of at most 2^18 bytes.
pub allocate_bytes :
    (n : ℕ) (p q : Pool) (free : List Block) (size blk : ℕ)
    → Holds p free
    → size ≤ size_limit
    → allocate (suc n) size p ≡ some (q, some blk)
    → (left : List Block) × (given : ℕ) × Holds q left
      × (total (λ b. b.size) free ≡ given + total (λ b. b.size) left)
      × (align_size size ≤ given)
      × (given < align_size size + 16)
allocate_bytes n p q free size blk h small e =
    let g = allocate-Given n p q free size blk h small e in
    let (given, sum, least, most) = bytes h g in (free' h g, given, g.holds, sum, least, most)

-- The class of a free block is not empty.
class_of :
    (b : Block) (free : List Block)
    → Some b free
    → is_cons (of_class (get_mapping b.size) free) ≡ true
unfolding of_class
class_of b free (here bs) = ground arith
class_of b free (there a s) = ground (arith, class_of b _ s)

of-Some : (P : Block → Type 0) (b : Block) (free : List Block) → Some b free → All P free → P b
of-Some P b free (here bs) h = h.0
of-Some P b free (there a s) h = of-Some P b _ s h.1

too_small :
    (p : Pool) (free : List Block) (size : ℕ) (b : Block)
    → Holds p free
    → size ≤ size_limit
    → Found (get_mapping (target_size (align_size size))) free none
    → Some b free
    → b.size < 2 * align_size size
too_small p free size b h small f s = elim (dec_lt b.size (2 * align_size size)) [
  | yes lt ↦ lt
  | no ge ↦
      let bounds = align_size_bounds size small in
      let target = target_size_bounds (align_size size) bounds.0 bounds.1 in
      let is_block = of-Some (IsBlock p) b free s h.blocks in
      let above =
        get_mapping_mono (target_size (align_size size)) b.size (omega arith) (ground arith)
          (omega (arith, is_block.ends, h.fits)) in
      let none_there = f (get_mapping b.size) above (omega (arith, get_mapping-le b.size)) in
      ground (arith, none_there, class_of b free s)
]

-- From a pool of these free blocks, for a request of at most 2^18 bytes, allocate returns null only
-- if each free block is smaller than twice the request, rounded up to a multiple of 16, and it has
-- changed nothing then.
pub allocate_null :
    (n : ℕ) (p q : Pool) (free : List Block) (size : ℕ)
    → Holds p free
    → size ≤ size_limit
    → allocate (suc n) size p ≡ some (q, none)
    → (q ≡ p) × ((b : Block) → Some b free → b.size < 2 * align_size size)
unfolding Outcome
allocate_null n p q free size h small e =
    let o = subst (Outcome p free size) e (allocate-Outcome n p free h size small) in
    (o.0, λ b s. too_small p free size b h small o.1 s)

Outcome-total :
    (p : Pool) (free : List Block) (size : ℕ) (r : Option (Pool × Option ℕ))
    → Outcome p free size r
    → (Found (get_mapping (target_size (align_size size))) free none → ⊥)
    → (q : Pool) × (blk : ℕ) × (r ≡ some (q, some blk))
unfolding Outcome
Outcome-total p free size none o f = absurd o
Outcome-total p free size (some (q, none)) o f = absurd (f o.1)
Outcome-total p free size (some (q, some blk)) o f = (q, blk, refl)

-- From a pool of these free blocks, for a request of at most 2^18 bytes, allocate returns a block
-- in one round of each loop if a free block has twice the size of the request, rounded up to a
-- multiple of 16.
pub allocate_succeeds :
    (n : ℕ) (p : Pool) (free : List Block) (size : ℕ) (b : Block)
    → Holds p free
    → size ≤ size_limit
    → Some b free
    → 2 * align_size size ≤ b.size
    → (q : Pool) × (blk : ℕ) × (allocate (suc n) size p ≡ some (q, some blk))
allocate_succeeds n p free size b h small s large =
    Outcome-total p free size (allocate (suc n) size p) (allocate-Outcome n p free h size small)
      (λ f. absurd (omega (arith, too_small p free size b h small f s)))
