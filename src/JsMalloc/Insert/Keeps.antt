-- ===== src/JsMalloc/Insert/Keeps.antt =====
-- After insert_block of JSMallocZ the lists, the links, the bits and the sizes are those of the free
-- blocks with the new one in front.
use zgc_primax.Base.{
  ℕ, suc, ◌+◌, ◌-◌, ◌*◌, ◌/◌, ◌%◌, ◌^◌, ◌≤◌, ◌<◌, ◌≡◌, ◌≢◌, refl, ◌∙◌, inl, inr, false, ◌==◌,
  if◌then◌else◌, some, List, [], ◌∷◌, All, All-map, All-both, length, arith, ℕ_discrete,
}
use zgc_primax.Base.BitSets.{bit, bit-or, bit_one, bit_or_fits, pow_mono}
use zgc_primax.JsMalloc.{
  Pool, size_word, link_word, get_size, mark_free, is_free, get_mapping, calculate_offset,
  from_offset, insert_block, num_lists, no_offset,
}
use zgc_primax.JsMalloc.Classes.{get_mapping-le}
use zgc_primax.JsMalloc.Pointers.{calculate_offset_lem, calculate_offset-from_offset}
use zgc_primax.JsMalloc.Lists.{
  Block, Apart, Holds, IsBlock, of_class, of_class_same, of_class_other, Chain, Chain-memory,
  head_offset, is_cons, of_class-All, length-of_class, length-le-total,
}
use zgc_primax.JsMalloc.Insert.{
  CanInsert, InsertedAs, inserted, marked, inserted-InsertedAs, insert_block_lem,
}

-- A chain starts nowhere, or in the pool.
Chain-offset :
    (p : Pool) (offset : ℕ) (bs : List Block)
    → All (IsBlock p) bs
    → p.pool_size < no_offset
    → Chain p.block_start p.memory offset bs
    → (offset ≤ no_offset)
      × (offset < no_offset → p.block_start + offset < p.block_start + p.pool_size)
Chain-offset p offset [] h small k = (omega arith, λ lt. absurd (omega arith))
Chain-offset p offset (b ∷ bs) h small k =
    (omega (arith, k.0), λ lt. omega (arith, h.0.ends, h.0.least, k.1))

-- The link that insert_block writes is the offset that the head had.
linked_offset :
    (p : Pool) (head : ℕ)
    → (head_offset head ≤ no_offset)
    → (head_offset head < no_offset → p.block_start + head_offset head < 2 ^ 64)
    → calculate_offset
        (from_offset p.block_start false (if head == 0 then 2 ^ 64 - 1 else head))
        p.block_start
      ≡ head_offset head
linked_offset p head h k =
    let value : ℕ = if head == 0 then 2 ^ 64 - 1 else head in
    let e : value / 2 ^ 32 ≡ head_offset head = ground arith in
    calculate_offset-from_offset p.block_start value (rw e h) (rw e k) ∙ e

mark_even : (size : ℕ) → size % 4 ≡ 0 → mark_free size ≡ size + 1
unfolding mark_free is_free
mark_even size h = ground arith

unflagged_size : (size : ℕ) → size % 4 ≡ 0 → get_size size ≡ size
unfolding get_size
unflagged_size size h = omega arith

module _ {p : Pool} {free : List Block} {b : Block} {q : Pool} (h : Holds p free)
    (new : CanInsert p free b) (as' : InsertedAs (get_mapping b.size) b.address p q) where
  kept_words :
      (a : Block)
      → IsBlock p a × Apart b a
      → (q.memory (size_word a.address) ≡ p.memory (size_word a.address))
        × (q.memory (link_word a.address) ≡ p.memory (link_word a.address))
  kept_words a (k, inl le) = (
    as'.kept _ (omega (arith, new.least, k.least)) (omega (arith, new.least, k.least)),
    as'.kept _ (omega (arith, new.least, k.least)) (omega (arith, new.least, k.least)),
  )
  kept_words a (k, inr le) = (
    as'.kept _ (omega (arith, new.least, k.least)) (omega (arith, new.least, k.least)),
    as'.kept _ (omega (arith, new.least, k.least)) (omega (arith, new.least, k.least)),
  )

  links : All (λ a. q.memory (link_word a.address) ≡ p.memory (link_word a.address)) free
  links =
      All-map _ _ free (λ a k. (kept_words a k).1)
        (All-both (IsBlock p) (Apart b) free h.blocks new.apart)

  Chain-kept :
      (d offset : ℕ)
      → Chain p.block_start p.memory offset (of_class d free)
      → Chain q.block_start q.memory offset (of_class d free)
  Chain-kept d offset k = rw as'.same_start (
      Chain-memory p.block_start p.memory q.memory offset (of_class d free)
        (of_class-All _ d free links) k)

  block_kept : (a : Block) → IsBlock p a × Apart b a → IsBlock q a
  block_kept a k = record {
    least = k.0.least;
    unflagged = k.0.unflagged;
    starts = rw as'.same_start k.0.starts;
    ends = rw (as'.same_start, as'.same_size) k.0.ends;
    marked = (kept_words a k).0 ∙ k.0.marked;
  }

  new-IsBlock : IsBlock q b
  new-IsBlock = record {
    least = new.least;
    unflagged = new.unflagged;
    starts = rw as'.same_start new.starts;
    ends = rw (as'.same_start, as'.same_size) new.ends;
    marked = as'.mark ∙ rw new.sized (mark_even b.size new.unflagged);
  }

  new_offset : calculate_offset (some b.address) p.block_start ≡ b.address - p.block_start
  new_offset = calculate_offset_lem b.address p.block_start (
    new.starts,
    omega (arith, new.ends, new.least, h.small),
    omega (arith, new.ends, new.least, h.fits),
  )

  first_link :
      Chain q.block_start q.memory
        (q.memory (link_word b.address) % 2 ^ 32)
        (of_class (get_mapping b.size) free)
  first_link =
      let c : ℕ = get_mapping b.size in
      let old = h.chains c (get_mapping-le b.size) in
      let inside =
        Chain-offset p (head_offset (p.blocks c)) (of_class c free) (of_class-All _ c free h.blocks)
          h.small old in
      let e = linked_offset p (p.blocks c) inside.0 (λ lt. omega (arith, inside.1 lt, h.fits)) in
      rw (as'.link ∙ e) (Chain-kept c (head_offset (p.blocks c)) old)

  few : length (of_class (get_mapping b.size) free) + 2 < 2 ^ 32
  few = omega (
    arith,
    length-of_class (get_mapping b.size) free,
    length-le-total p free h.blocks,
    new.room,
    new.least,
    h.small,
  )

  new_head : q.blocks (get_mapping b.size) ≡ (b.address - p.block_start) * 2 ^ 32 + 1
  new_head = as'.heads (get_mapping b.size) ∙ rw new_offset (ground arith)

  other_head : (d : ℕ) → get_mapping b.size ≢ d → q.blocks d ≡ p.blocks d
  other_head d ne = as'.heads d ∙ ground arith

  head_after :
      Chain q.block_start q.memory
        (head_offset (q.blocks (get_mapping b.size)))
        (b ∷ of_class (get_mapping b.size) free)
  head_after =
      let offset : ℕ = b.address - p.block_start in
      let e : head_offset (offset * 2 ^ 32 + 1) ≡ offset = ground arith in
      rw (new_head, e)
        (
          omega (arith, new.ends, new.least, h.small),
          rw as'.same_start (omega (arith, new.starts)),
          first_link,
        )

  chains_after :
      (d : ℕ)
      → d ≤ num_lists
      → Chain q.block_start q.memory (head_offset (q.blocks d)) (of_class d (b ∷ free))
  chains_after d le = elim (ℕ_discrete (get_mapping b.size) d) [
    | yes e ↦ rw (← e, of_class_same b free) head_after
    | no ne ↦ rw (of_class_other d b free ne, other_head d ne) (Chain-kept d _ (h.chains d le))
  ]

  versions_after :
      (d : ℕ) → d ≤ num_lists → q.blocks d % 2 ^ 32 + length (of_class d (b ∷ free)) < 2 ^ 32
  versions_after d le = elim (ℕ_discrete (get_mapping b.size) d) [
    | yes e ↦ rw (← e, of_class_same b free, new_head) (omega (arith, few))
    | no ne ↦ rw (of_class_other d b free ne, other_head d ne) (h.versions d le)
  ]

  bits_after : (d : ℕ) → d < 64 → bit d q.fl_bitmap ≡ is_cons (of_class d (b ∷ free))
  unfolding of_class
  bits_after d lt =
      rw
        (
          as'.bitmap,
          bit-or d p.fl_bitmap (2 ^ get_mapping b.size),
          h.bits d lt,
          bit_one d (get_mapping b.size),
        )
        (ground arith)

  bitmap_after : q.fl_bitmap < 2 ^ 64
  bitmap_after = rw as'.bitmap (
      bit_or_fits 64 p.fl_bitmap (2 ^ get_mapping b.size) h.bitmap
        (omega (arith, pow_mono (get_mapping b.size) 56 (get_mapping-le b.size))))

  pub InsertedAs-Holds : Holds q (b ∷ free)
  InsertedAs-Holds = record {
    small = rw as'.same_size h.small;
    fits = rw (as'.same_start, as'.same_size) h.fits;
    chains = chains_after;
    versions = versions_after;
    bits = bits_after;
    bitmap = bitmap_after;
    blocks = (
      new-IsBlock,
      All-map _ _ free block_kept (All-both (IsBlock p) (Apart b) free h.blocks new.apart),
    );
    apart = (new.apart, h.apart);
    room = rw as'.same_size new.room;
  }

-- For a pool of these free blocks and a block that is away from them, with its size in place,
-- `insert_block` returns in one round, and the pool is that of the free blocks with the block in
-- front. It has changed only the two words of the block, the head of its list and the bit of its
-- class.
pub insert_block-Holds :
    (n : ℕ) (p : Pool) (free : List Block) (b : Block)
    → Holds p free
    → CanInsert p free b
    → (q : Pool) × (insert_block (suc n) b.address p ≡ some q)
      × InsertedAs (get_mapping b.size) b.address p q
      × Holds q (b ∷ free)
insert_block-Holds n p free b h new =
    let size : get_size (p.memory (size_word b.address)) ≡ b.size =
      rw new.sized (unflagged_size b.size new.unflagged) in
    let as' = inserted-InsertedAs (get_mapping b.size) b.address p in
    (
      inserted (get_mapping b.size) b.address (marked b.address p),
      insert_block_lem n b.address p ∙ rw size refl,
      as',
      InsertedAs-Holds h new as',
    )
