-- ===== src/JsMalloc/Free.antt =====
-- free, free_range, reset and initialize of JSMallocZ.
use zgc_primax.Base.{
  ℕ, suc, ◌+◌, ◌%◌, ◌^◌, ◌≤◌, ◌<◌, ◌≡◌, ◌≢◌, refl, ◌∙◌, sym, subst, ◌⊎◌, inl, inr, Bool, true,
  false, leb, if◌then◌else◌, some, List, [], ◌∷◌, All, All-map, All-both, total, add64, sub64,
  arith,
}
use zgc_primax.Base.BitSets.{bit_zero}
use zgc_primax.JsMalloc.{
  Pool, write, size_word, link_word, mbs, align_up, align_down, ptr_in_pool, get_mapping, num_lists,
  no_offset, alignment,
}
use zgc_primax.JsMalloc.Operations.{free, free_range, reset, initialize}
use zgc_primax.JsMalloc.Lists.{Block, Apart, Holds, IsBlock, of_class}
use zgc_primax.JsMalloc.Insert.{CanInsert, InsertedAs}
use zgc_primax.JsMalloc.Insert.Keeps.{insert_block-Holds}
use zgc_primax.JsMalloc.Allocate.{Holds-same}
use zgc_primax.JsMalloc.Allocate.Split.{KeptOutside}

-- A range of the pool that is away from the free blocks and can be one.
pub record CanFree (p : Pool) (blocks : List Block) (b : Block) : Type 0 where
  pub least : mbs ≤ b.size
  pub unflagged : b.size % 4 ≡ 0
  pub starts : p.block_start ≤ b.address
  pub ends : b.address + b.size ≤ p.block_start + p.pool_size
  pub apart : All (Apart b) blocks
  pub room : b.size + total (λ a. a.size) blocks ≤ p.pool_size

module _ {p : Pool} {blocks : List Block} {b : Block} (h : Holds p blocks)
    (can : CanFree p blocks b) where
  abbrev pub sized : Pool
  sized = record p { memory = write p.memory (size_word b.address) b.size }

  sized_kept : (word : ℕ) → word ≢ b.address → sized.memory word ≡ p.memory word
  unfolding write
  sized_kept word ne = ground arith

  outside :
      (c : Block)
      → IsBlock p c × Apart b c
      → (sized.memory (size_word c.address) ≡ p.memory (size_word c.address))
        × (sized.memory (link_word c.address) ≡ p.memory (link_word c.address))
  outside c (k, inl le) =
      (sized_kept _ (ground (arith, can.least)), sized_kept _ (ground (arith, can.least)))
  outside c (k, inr le) =
      (sized_kept _ (ground (arith, k.least)), sized_kept _ (ground (arith, k.least)))

  pub sized-Holds : Holds sized blocks
  sized-Holds =
      Holds-same p sized blocks refl refl refl refl
        (All-map _ _ blocks outside (All-both (IsBlock p) (Apart b) blocks h.blocks can.apart)) h

  sized_word : sized.memory (size_word b.address) ≡ b.size
  unfolding write
  sized_word = ground arith

  pub sized-CanInsert : CanInsert sized blocks b
  sized-CanInsert = record {
    least = can.least;
    unflagged = can.unflagged;
    starts = can.starts;
    ends = can.ends;
    sized = sized_word;
    apart = can.apart;
    room = can.room;
  }

  in_pool : ptr_in_pool b.address p ≡ true
  unfolding ptr_in_pool
  in_pool = ground (arith, can.starts, can.ends, can.least)

  kept_after : (c : ℕ) (q : Pool) → InsertedAs c b.address sized q → KeptOutside b p q
  kept_after c q as' word (inl lt) =
      as'.kept word (ground arith) (ground arith) ∙ sized_kept word (ground arith)
  kept_after c q as' word (inr le) =
      as'.kept word (ground (arith, can.least)) (ground (arith, can.least))
      ∙ sized_kept word (ground (arith, can.least))

  pub free-InsertedAs :
      (n : ℕ)
      → (q : Pool) × (free (suc n) (some b.address) b.size p ≡ some q)
        × InsertedAs (get_mapping b.size) b.address sized q
        × Holds q (b ∷ blocks)
  unfolding free
  free-InsertedAs n =
      let (q, e, as', holds) = insert_block-Holds n sized blocks b sized-Holds sized-CanInsert in
      (q, rw in_pool e, as', holds)

  pub free-Holds :
      (n : ℕ)
      → (q : Pool) × (free_range (suc n) (some b.address) b.size p ≡ some q)
        × Holds q (b ∷ blocks)
        × (q.block_start ≡ p.block_start)
        × (q.pool_size ≡ p.pool_size)
        × KeptOutside b p q
  unfolding free_range
  free-Holds n =
      let (q, e, as', holds) = free-InsertedAs n in
      (q, e, holds, as'.same_start, as'.same_size, kept_after (get_mapping b.size) q as')

-- A pointer that is null or not into the pool is not freed.
pub free_outside :
    (n : ℕ) (ptr : ℕ) (size : ℕ) (p : Pool)
    → (ptr < p.block_start) ⊎ (p.block_start + p.pool_size ≤ ptr)
    → free n (some ptr) size p ≡ some p
unfolding free ptr_in_pool
free_outside n ptr size p (inl lt) = ground arith
free_outside n ptr size p (inr le) = ground arith

abbrev whole : Pool → Block
whole p = record { address = p.block_start; size = p.pool_size }

abbrev emptied : Pool → Pool
emptied p = record p { fl_bitmap = 0; blocks = λ i. if leb i num_lists then 0 else p.blocks i }

emptied-Holds :
    (p : Pool)
    → p.pool_size < no_offset
    → p.block_start + p.pool_size < 2 ^ 64
    → Holds (emptied p) []
unfolding of_class
emptied-Holds p small fits = record {
  small = small;
  fits = fits;
  chains = λ c le. ground arith;
  versions = λ c le. ground arith;
  bits = λ c lt. bit_zero c;
  bitmap = omega arith;
  blocks = tt;
  apart = tt;
  room = omega arith;
}

whole-CanFree :
    (p : Pool) → mbs ≤ p.pool_size → p.pool_size % 4 ≡ 0 → CanFree (emptied p) [] (whole p)
whole-CanFree p least unflagged = record {
  least = least;
  unflagged = unflagged;
  starts = omega arith;
  ends = omega arith;
  apart = tt;
  room = omega arith;
}

-- After reset the pool has no free block, or it is one.
pub reset-Holds :
    (n : ℕ) (full : Bool) (p : Pool)
    → p.pool_size < no_offset
    → p.block_start + p.pool_size < 2 ^ 64
    → mbs ≤ p.pool_size
    → p.pool_size % 4 ≡ 0
    → (q : Pool) × (reset (suc n) full p ≡ some q)
      × Holds q (if full then [] else whole p ∷ [])
      × (q.block_start ≡ p.block_start)
      × (q.pool_size ≡ p.pool_size)
unfolding reset
reset-Holds n true p small fits least unflagged =
    (emptied p, refl, emptied-Holds p small fits, refl, refl)
reset-Holds n false p small fits least unflagged =
    let none_free = emptied-Holds p small fits in
    let can = whole-CanFree p least unflagged in
    let (q, e, as', holds) =
      insert_block-Holds n (sized none_free can) [] (whole p) (sized-Holds none_free can)
        (sized-CanInsert none_free can) in
    (q, e, holds, as'.same_start, as'.same_size)

abbrev initial_start : ℕ → ℕ
initial_start start = align_up start alignment

abbrev initial_size : ℕ → ℕ → ℕ
initial_size start size = align_down (sub64 size (sub64 (initial_start start) start)) mbs

initial_bounds :
    (start size : ℕ)
    → size < no_offset
    → start + size + 8 < 2 ^ 64
    → 24 ≤ size
    → (start ≤ initial_start start)
      × (initial_start start < start + 8)
      × (initial_start start + initial_size start size ≤ start + size)
      × (start + size < initial_start start + initial_size start size + 16)
      × (initial_size start size % 16 ≡ 0)
unfolding align_up align_down add64 sub64
initial_bounds start size small fits least = ground arith

-- What initialize leaves of the memory that it is given: a part that begins at a multiple of 8 and is a
-- multiple of 16 bytes.
pub initialize-Holds :
    (n : ℕ) (full : Bool) (start size : ℕ) (p : Pool)
    → size < no_offset
    → start + size + 8 < 2 ^ 64
    → 24 ≤ size
    → (q : Pool) × (initialize (suc n) start size full p ≡ some q)
      × Holds q (if full then [] else whole q ∷ [])
      × (start ≤ q.block_start)
      × (q.block_start < start + 8)
      × (q.block_start + q.pool_size ≤ start + size)
      × (start + size < q.block_start + q.pool_size + 16)
unfolding initialize
initialize-Holds n full start size p small fits least =
    let i = initial_bounds start size small fits least in
    let first : Pool = record p {
      block_start = initial_start start;
      pool_size = initial_size start size;
    } in
    let (q, e, holds, same_start, same_size) =
      reset-Holds n full first (omega (arith, i)) (omega (arith, i)) (omega (arith, i))
        (omega (arith, i.4)) in
    let same : whole first ≡ whole q =
      λ j. record { address = sym same_start j; size = sym same_size j } in
    (
      q,
      e,
      subst (λ w. Holds q (if full then [] else w ∷ [])) same holds,
      omega (arith, i, same_start),
      omega (arith, i, same_start),
      omega (arith, i, same_start, same_size),
      omega (arith, i, same_start, same_size),
    )

initial_exact :
    (start size : ℕ)
    → start % 8 ≡ 0
    → size % 16 ≡ 0
    → size < no_offset
    → start + size + 8 < 2 ^ 64
    → (initial_start start ≡ start) × (initial_size start size ≡ size)
unfolding align_up align_down add64 sub64
initial_exact start size aligned whole_blocks small fits = ground arith

-- All of the memory is the pool if it begins at a multiple of 8 and is a multiple of 16 bytes.
pub initialize_aligned :
    (n : ℕ) (full : Bool) (start size : ℕ) (p : Pool)
    → start % 8 ≡ 0
    → size % 16 ≡ 0
    → size < no_offset
    → start + size + 8 < 2 ^ 64
    → 24 ≤ size
    → (q : Pool) × (initialize (suc n) start size full p ≡ some q)
      × Holds q (if full then [] else record { address = start; size = size } ∷ [])
      × (q.block_start ≡ start)
      × (q.pool_size ≡ size)
unfolding initialize
initialize_aligned n full start size p aligned whole_blocks small fits least =
    let (e, f) = initial_exact start size aligned whole_blocks small fits in
    rw (f, e)
      (reset-Holds n full (record p { block_start = start; pool_size = size }) small (omega arith)
        (omega arith) (omega arith))
