-- ===== src/JsMalloc/Insert.antt =====
-- insert_block of JSMallocZ puts the block in front of its class.
pub mod Keeps
use zgc_primax.Base.{
  ℕ, zero, suc, ◌+◌, ◌-◌, ◌*◌, ◌/◌, ◌%◌, ◌^◌, ◌≤◌, ◌<◌, ◌≡◌, ◌≢◌, refl, ap, ◌∙◌, sym, ◌⊎◌, inl, inr,
  Bool, true, false, ◌==◌, if◌then◌else◌, Option, none, some, bit_or, List, [], ◌∷◌, map, All,
  All-map, total, length, arith, Bool-cases,
}
use zgc_primax.JsMalloc.{
  Pool, write, size_word, link_word, get_size, mark_free, get_mapping, insert_rounds, insert_block,
  calculate_offset, from_offset, exchange_head, inserted_head, link_to, set_bit, set_offset,
  num_lists, mbs, no_offset,
}
use zgc_primax.JsMalloc.Pointers.{calculate_offset-le}
use zgc_primax.JsMalloc.Lists.{Block, Apart, Holds, IsBlock, of_class}

-- The pool after the block was inserted in that class, when no other thread interferes.
abbrev pub inserted : ℕ → ℕ → Pool → Pool
inserted mapping blk p =
    let linked : Pool = link_to blk (p.blocks mapping) p in
    set_bit mapping (record linked { blocks = write linked.blocks mapping (inserted_head blk p) })

abbrev pub marked : ℕ → Pool → Pool
marked blk p = record p {
  memory = write p.memory (size_word blk) (mark_free (p.memory (size_word blk)));
}

pub exchange_head_lem :
    (mapping head new_head : ℕ) (p : Pool)
    → p.blocks mapping ≡ head
    → exchange_head mapping head new_head p
      ≡ some (record p { blocks = write p.blocks mapping new_head })
unfolding exchange_head
exchange_head_lem mapping head new_head p e = ground arith

link_to-blocks :
    (blk mapping : ℕ) (p : Pool)
    → (link_to blk (p.blocks mapping) p).blocks mapping ≡ p.blocks mapping
unfolding link_to
link_to-blocks blk mapping p = refl

insert_rounds_lem :
    (n blk mapping : ℕ) (p : Pool)
    → insert_rounds (suc n) blk mapping p ≡ some (inserted mapping blk p)
unfolding insert_rounds
insert_rounds_lem n blk mapping p =
    let linked : Pool = link_to blk (p.blocks mapping) p in
    rw
      (
        exchange_head_lem mapping (p.blocks mapping) (inserted_head blk p) linked
            (link_to-blocks blk mapping p),
        insert_rounds,
      )
      refl

-- One round is enough.
pub insert_block_lem :
    (n blk : ℕ) (p : Pool)
    → insert_block (suc n) blk p
      ≡ some (inserted (get_mapping (get_size (p.memory (size_word blk)))) blk (marked blk p))
unfolding insert_block
insert_block_lem n blk p =
    insert_rounds_lem n blk (get_mapping (get_size (p.memory (size_word blk)))) (marked blk p)

-- What insert_block relies on: the block is in the pool, away from the free ones, with its size in place.
pub record CanInsert (p : Pool) (free : List Block) (b : Block) : Type 0 where
  pub least : mbs ≤ b.size
  pub unflagged : b.size % 4 ≡ 0
  pub starts : p.block_start ≤ b.address
  pub ends : b.address + b.size ≤ p.block_start + p.pool_size
  pub sized : p.memory (size_word b.address) ≡ b.size
  pub apart : All (Apart b) free
  pub room : b.size + total (λ a. a.size) free ≤ p.pool_size

-- What insert_block has changed.
pub record InsertedAs (c blk : ℕ) (p q : Pool) : Type 0 where
  pub same_start : q.block_start ≡ p.block_start
  pub same_size : q.pool_size ≡ p.pool_size
  pub kept :
      (word : ℕ) → word ≢ size_word blk → word ≢ link_word blk → q.memory word ≡ p.memory word
  pub mark : q.memory (size_word blk) ≡ mark_free (p.memory (size_word blk))
  pub link :
      q.memory (link_word blk) % 2 ^ 32
      ≡ calculate_offset
          (from_offset p.block_start false (if p.blocks c == 0 then 2 ^ 64 - 1 else p.blocks c))
          p.block_start
  pub heads :
      (d : ℕ)
      → q.blocks d
        ≡ (if c == d then calculate_offset (some blk) p.block_start * 2 ^ 32 + 1 else p.blocks d)
  pub bitmap : q.fl_bitmap ≡ bit_or p.fl_bitmap (2 ^ c)

equal : (n : ℕ) → (n == n) ≡ true
equal n = ground arith

low_half : (a o : ℕ) → o ≤ no_offset → (a / 2 ^ 32 * 2 ^ 32 + o) % 2 ^ 32 ≡ o
low_half a o h = omega arith

module _ (c blk : ℕ) (p : Pool) where
  inserted_link :
      let q = inserted c blk (marked blk p) in
      q.memory (link_word blk) % 2 ^ 32
      ≡ calculate_offset
          (from_offset p.block_start false (if p.blocks c == 0 then 2 ^ 64 - 1 else p.blocks c))
          p.block_start
  unfolding set_bit link_to write set_offset
  inserted_link =
      let ptr =
        from_offset p.block_start false (if p.blocks c == 0 then 2 ^ 64 - 1 else p.blocks c) in
      rw (equal (link_word blk))
        (low_half _ (calculate_offset ptr p.block_start) (calculate_offset-le ptr p.block_start))

  inserted_kept :
      (word : ℕ)
      → word ≢ size_word blk
      → word ≢ link_word blk
      → (inserted c blk (marked blk p)).memory word ≡ p.memory word
  unfolding set_bit link_to write
  inserted_kept word h k = ground arith

  inserted_mark :
      (inserted c blk (marked blk p)).memory (size_word blk) ≡ mark_free (p.memory (size_word blk))
  unfolding set_bit link_to write
  inserted_mark = ground arith

  inserted-InsertedAs : InsertedAs c blk p (inserted c blk (marked blk p))
  unfolding set_bit link_to write inserted_head
  inserted-InsertedAs = record {
    same_start = refl;
    same_size = refl;
    kept = inserted_kept;
    mark = inserted_mark;
    link = inserted_link;
    heads = λ d. refl;
    bitmap = refl;
  }
