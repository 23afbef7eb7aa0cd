-- ===== src/JsMalloc/Remove/Keeps.antt =====
-- After remove_block of JSMallocZ the lists, the links and the bits are those of the other free blocks.
use zgc_primax.Base.{
  ℕ, ◌+◌, ◌-◌, ◌*◌, ◌%◌, ◌^◌, ◌≤◌, ◌<◌, ◌≡◌, ◌≢◌, refl, ap, ◌∙◌, true, false, not, ◌&&◌, ◌==◌, some,
  bit_and, List, All-map, length, arith, ℕ_discrete, if_cases, Bool-cases, inl, inr,
}
use zgc_primax.Base.BitSets.{bit, bit-and, bit_but_one, bit_and_fits}
use zgc_primax.JsMalloc.{Pool, link_word, remove_block, num_lists}
use zgc_primax.JsMalloc.Lists.{
  Block, Holds, IsBlock, Takes, of_class, Chain, head_offset, is_cons, of_class-Takes, Takes-All,
  Takes-AllApart, total-Takes,
}
use zgc_primax.JsMalloc.Remove.{
  RemovedAs, class_before, Chain-before, next, after, remove_block_lem, after-RemovedAs,
}

module _ {p : Pool} {free rest : List Block} {b : Block} {c : ℕ} (h : Holds p free)
    (le : c ≤ num_lists) (t : Takes c b free rest) where
  module _ {q : Pool} (as' : RemovedAs c (next h le t) (is_cons (of_class c rest)) p q) where
    rest_class : (d : ℕ) → c ≢ d → of_class d free ≡ of_class d rest
    rest_class d ne = of_class-Takes c d b t ∙ ground arith

    Chain-kept :
        (d offset : ℕ)
        → Chain p.block_start p.memory offset (of_class d rest)
        → Chain q.block_start q.memory offset (of_class d rest)
    Chain-kept d offset k = rw (as'.same_start, as'.same_memory) k

    version : p.blocks c % 2 ^ 32 + 1 + length (of_class c rest) < 2 ^ 32
    version = omega (arith, ap length (class_before h le t), h.versions c le)

    head_after : q.blocks c ≡ next h le t * 2 ^ 32 + (p.blocks c % 2 ^ 32 + 1)
    head_after = as'.heads c ∙ ground (arith, version)

    other_head : (d : ℕ) → c ≢ d → q.blocks d ≡ p.blocks d
    other_head d ne = as'.heads d ∙ ground arith

    chains_after :
        (d : ℕ)
        → d ≤ num_lists
        → Chain q.block_start q.memory (head_offset (q.blocks d)) (of_class d rest)
    chains_after d lt = elim (ℕ_discrete c d) [
      | yes e ↦
          let w : head_offset (q.blocks c) ≡ next h le t = ground (arith, head_after, version) in
          rw (← e, w) (Chain-kept c (next h le t) (Chain-before h le t).2)
      | no ne ↦
          rw (other_head d ne)
            (Chain-kept d (head_offset (p.blocks d)) (rw (rest_class d ne) at (h.chains d lt)))
    ]

    versions_after :
        (d : ℕ) → d ≤ num_lists → q.blocks d % 2 ^ 32 + length (of_class d rest) < 2 ^ 32
    versions_after d lt = elim (ℕ_discrete c d) [
      | yes e ↦ rw (← e, head_after) (omega (arith, version))
      | no ne ↦ rw (other_head d ne) (rw (rest_class d ne) at (h.versions d lt))
    ]

    bit_same : is_cons (of_class c rest) ≡ true → q.fl_bitmap ≡ p.fl_bitmap
    bit_same e = as'.bitmap ∙ rw e refl

    bit_cleared :
        is_cons (of_class c rest) ≡ false
        → (d : ℕ) → d < 64
        → bit d q.fl_bitmap ≡ bit d p.fl_bitmap && not (d == c)
    bit_cleared e d lt =
        let now : q.fl_bitmap ≡ bit_and p.fl_bitmap (2 ^ 64 - 1 - 2 ^ c) = as'.bitmap ∙ rw e refl in
        rw (now, bit-and d p.fl_bitmap (2 ^ 64 - 1 - 2 ^ c), bit_but_one 64 d c lt (omega arith))
          refl

    bits_after : (d : ℕ) → d < 64 → bit d q.fl_bitmap ≡ is_cons (of_class d rest)
    bits_after d lt =
        let old = h.bits d lt in
        elim (Bool-cases (is_cons (of_class c rest))) [
          | inl e ↦
              rw (bit_same e)
                (old ∙ ground (arith, of_class-Takes c d b t, ap is_cons (class_before h le t)))
          | inr e ↦ bit_cleared e d lt ∙ ground (arith, of_class-Takes c d b t, old)
        ]

    bitmap_after : q.fl_bitmap < 2 ^ 64
    bitmap_after = rw as'.bitmap (
        if_cases (λ (m : ℕ). m < 2 ^ 64) (is_cons (of_class c rest)) (λ e. h.bitmap)
          (λ e. bit_and_fits 64 p.fl_bitmap (2 ^ 64 - 1 - 2 ^ c) h.bitmap))

    block_kept : (a : Block) → IsBlock p a → IsBlock q a
    block_kept a k = record {
      least = k.least;
      unflagged = k.unflagged;
      starts = rw as'.same_start k.starts;
      ends = rw (as'.same_start, as'.same_size) k.ends;
      marked = rw as'.same_memory k.marked;
    }

    pub RemovedAs-Holds : Holds q rest
    RemovedAs-Holds = record {
      small = rw as'.same_size h.small;
      fits = rw (as'.same_start, as'.same_size) h.fits;
      chains = chains_after;
      versions = versions_after;
      bits = bits_after;
      bitmap = bitmap_after;
      blocks = All-map _ _ rest block_kept (Takes-All (IsBlock p) c b t h.blocks).1;
      apart = (Takes-AllApart c b t h.apart).1;
      room = rw as'.same_size (omega (arith, total-Takes (λ a. a.size) c b t, h.room));
    }

-- For a pool of these free blocks and the block of a class that comes first, `remove_block` returns
-- that block, and the pool is that of the other free blocks. It has changed only the head of the
-- list, whose version grows, and the bit of the class, which it clears if the class has no other
-- block.
pub remove_block-Holds :
    (p : Pool) (free rest : List Block) (b : Block) (c : ℕ)
    → Holds p free
    → c ≤ num_lists
    → Takes c b free rest
    → (q : Pool) × (remove_block c p ≡ (q, some b.address))
      × RemovedAs c (p.memory (link_word b.address) % 2 ^ 32) (is_cons (of_class c rest)) p q
      × Holds q rest
remove_block-Holds p free rest b c h le t = (
  after h le t,
  remove_block_lem h le t,
  after-RemovedAs h le t,
  RemovedAs-Holds h le t (after-RemovedAs h le t),
)
