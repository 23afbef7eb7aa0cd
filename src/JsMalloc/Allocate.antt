-- ===== src/JsMalloc/Allocate.antt =====
-- allocate of JSMallocZ, from the search in the bitmap to the split of the block.
pub mod Outcome
pub mod Safe
pub mod Split
use zgc_primax.Base.{
  ℕ, zero, suc, ◌+◌, ◌-◌, ◌*◌, ◌/◌, ◌%◌, ◌^◌, ◌≤◌, ◌<◌, ◌≡◌, ◌≢◌, refl, ap, ◌∙◌, sym, ◌⊎◌, inl, inr,
  Bool, true, false, not, ◌&&◌, ◌==◌, leb, if◌then◌else◌, Option, none, some, bit_and, List, [],
  ◌∷◌, All, All-map, total, arith, Bool-cases, Option-cases, if_cases, le→ltb, All-both,
}
use zgc_primax.Base.BitSets.{bit, bit-and, bit_from, bit_and_fits, bit_zero, ffs, ffs_lem}
use zgc_primax.JsMalloc.{
  Pool, size_word, link_word, get_size, get_mapping, adjust_available_mapping, num_lists,
}
use zgc_primax.JsMalloc.Classes.{get_mapping-le}
use zgc_primax.JsMalloc.Lists.{
  Block, Apart, Holds, IsBlock, Takes, of_class, is_cons, takes, Takes-get_mapping, Chain-memory,
  of_class-All, head_offset,
}

-- A pool that differs elsewhere than in the words of the free blocks and the lists.
pub Holds-same :
    (p q : Pool) (free : List Block)
    → q.block_start ≡ p.block_start
    → q.pool_size ≡ p.pool_size
    → q.blocks ≡ p.blocks
    → q.fl_bitmap ≡ p.fl_bitmap
    → All
        (λ a.
          (q.memory (size_word a.address) ≡ p.memory (size_word a.address))
          × (q.memory (link_word a.address) ≡ p.memory (link_word a.address)))
        free
    → Holds p free
    → Holds q free
Holds-same p q free start size lists bits words h = record {
  small = rw size h.small;
  fits = rw (start, size) h.fits;
  chains = λ c le.
      rw (start, lists)
        (Chain-memory p.block_start p.memory q.memory (head_offset (p.blocks c)) (of_class c free)
          (of_class-All _ c free (All-map _ _ free (λ a k. k.1) words)) (h.chains c le));
  versions = λ c le. rw lists (h.versions c le);
  bits = λ c lt. rw bits (h.bits c lt);
  bitmap = rw bits h.bitmap;
  blocks =
      All-map _ _ free (λ a k. same_block a k.0 k.1) (All-both (IsBlock p) _ free h.blocks words);
  apart = h.apart;
  room = rw size h.room;
}
  where
    same_block :
        (a : Block)
        → IsBlock p a
        → (q.memory (size_word a.address) ≡ p.memory (size_word a.address))
          × (q.memory (link_word a.address) ≡ p.memory (link_word a.address))
        → IsBlock q a
    same_block a k w = record {
      least = k.least;
      unflagged = k.unflagged;
      starts = rw start k.starts;
      ends = rw (start, size) k.ends;
      marked = w.0 ∙ k.marked;
    }

class_bounded : (c : ℕ) (free : List Block) → is_cons (of_class c free) ≡ true → c ≤ num_lists
class_bounded c free e =
    let (b, rest, t) = takes c free e in rw (← Takes-get_mapping c b t) (get_mapping-le b.size)

-- The search in the bitmap finds a class that has a block, or there is none from the first class on.
abbrev Found : ℕ → List Block → Option ℕ → Type 0
Found m free none = (c : ℕ) → m ≤ c → c < 64 → is_cons (of_class c free) ≡ false
Found m free (some c) = (m ≤ c) × (c ≤ num_lists) × (is_cons (of_class c free) ≡ true)

module _ (p : Pool) (free : List Block) (h : Holds p free) (m : ℕ) (le : m ≤ num_lists) where
  abbrev above : ℕ
  above = bit_and p.fl_bitmap (2 ^ 64 - 2 ^ m)

  bit_above : (c : ℕ) → c < 64 → bit c above ≡ is_cons (of_class c free) && leb m c
  bit_above c lt = rw (bit-and c p.fl_bitmap (2 ^ 64 - 2 ^ m), bit_from 64 c m lt, h.bits c lt) refl

  nothing_above : above ≡ 0 → Found m free none
  nothing_above e c le lt =
      let none_set : bit c above ≡ false = rw e (bit_zero c) in
      ground (arith, bit_above c lt, none_set)

  lowest_above : above ≢ 0 → Found m free (some (ffs 64 above))
  lowest_above ne =
      let fits = bit_and_fits 64 p.fl_bitmap (2 ^ 64 - 2 ^ m) h.bitmap in
      let (lt, set) = ffs_lem 64 above (ground arith) fits in
      let both = bit_above (ffs 64 above) lt in
      let cons : is_cons (of_class (ffs 64 above) free) ≡ true = ground (arith, both, set) in
      (ground (arith, both, set), class_bounded (ffs 64 above) free cons, cons)

  pub adjust-Found : Found m free (adjust_available_mapping m p)
  unfolding adjust_available_mapping
  adjust-Found = rw (le→ltb num_lists m le) (
      if_cases (Found m free) (above == 0) (λ e. nothing_above (ground arith))
        (λ e. lowest_above (ground arith)))
