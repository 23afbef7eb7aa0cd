-- ===== src/JsMalloc/Remove.antt =====
-- remove_block of JSMallocZ takes the first block of a class, when no other thread interferes.
pub mod Keeps
use zgc_primax.Base.{
  ℕ, zero, suc, ◌+◌, ◌-◌, ◌*◌, ◌/◌, ◌%◌, ◌^◌, ◌≤◌, ◌<◌, ◌≡◌, ◌≢◌, refl, ap, ◌∙◌, sym, Bool, true,
  false, not, ◌&&◌, ◌==◌, if◌then◌else◌, Option, none, some, bit_and, List, [], ◌∷◌, All, All-map,
  total, length, arith, ℕ_discrete, sub64, if_cases, Bool-cases, ◌⊎◌, inl, inr,
}
use zgc_primax.Base.BitSets.{bit, bit-and, bit_but_one, bit_and_fits}
use zgc_primax.JsMalloc.{
  Pool, Loaded, write, size_word, link_word, get_mapping, calculate_offset, from_offset, get_bits,
  set_offset, blk_get_next, next_of, load_head, removed_head, exchange_head, clear_bit,
  clear_if_last, take_loaded, remove_block, num_lists, no_offset,
}
use zgc_primax.JsMalloc.Pointers.{get_bits_lem}
use zgc_primax.JsMalloc.Insert.{exchange_head_lem}
use zgc_primax.JsMalloc.Lists.{
  Block, AllApart, Holds, IsBlock, Takes, of_class, Chain, head_offset, is_cons, of_class-All,
  of_class-Takes, Takes-All, Takes-AllApart, Takes-get_mapping, total-Takes,
}

-- What remove_block has changed.
pub record RemovedAs (c : ℕ) (next : ℕ) (more : Bool) (p q : Pool) : Type 0 where
  pub same_start : q.block_start ≡ p.block_start
  pub same_size : q.pool_size ≡ p.pool_size
  pub same_memory : q.memory ≡ p.memory
  pub heads :
      (d : ℕ)
      → q.blocks d
        ≡ (if c == d then next * 2 ^ 32 + (p.blocks c % 2 ^ 32 + 1) % 2 ^ 32 else p.blocks d)
  pub bitmap :
      q.fl_bitmap ≡ (if more then p.fl_bitmap else bit_and p.fl_bitmap (2 ^ 64 - 1 - 2 ^ c))

unfoldable pub first_address : List Block → Option ℕ
first_address [] = none
first_address (b ∷ bs) = some b.address

next_of-Chain :
    (p : Pool) (word : ℕ) (bs : List Block)
    → Chain p.block_start p.memory (word % 2 ^ 32) bs
    → from_offset p.block_start true word ≡ first_address bs
unfolding from_offset first_address
next_of-Chain p word [] k = ground (arith, (get_bits_lem word).0)
next_of-Chain p word (b ∷ bs) k = ground (arith, (get_bits_lem word).0, k.0, k.1)

offset_of_first :
    (p : Pool) (offset : ℕ) (bs : List Block)
    → All (IsBlock p) bs
    → p.pool_size < no_offset
    → p.block_start + p.pool_size < 2 ^ 64
    → Chain p.block_start p.memory offset bs
    → calculate_offset (first_address bs) p.block_start ≡ offset
unfolding first_address calculate_offset sub64
offset_of_first p offset [] h small fits k = sym k
offset_of_first p offset (b ∷ bs) h small fits k = omega (arith, h.0.ends, h.0.least, k.0, k.1)

clear_if_last_lem :
    (c : ℕ) (bs : List Block) (m : Pool)
    → clear_if_last c (first_address bs) m ≡ (if is_cons bs then m else clear_bit c m)
unfolding first_address clear_if_last
clear_if_last_lem c [] m = refl
clear_if_last_lem c (b ∷ bs) m = refl

pub take_loaded_lem :
    (c : ℕ) (l : Loaded) (p m : Pool)
    → exchange_head c l.head (removed_head l p) p ≡ some m
    → take_loaded c l p ≡ (clear_if_last c l.next_blk m, l.actual_head)
unfolding take_loaded
take_loaded_lem c l p m e = rw (e, take_loaded) refl

abbrev pub loaded : ℕ → ℕ → Option ℕ → Loaded
loaded head blk next = record { head = head; actual_head = some blk; next_blk = next }

next_of_lem :
    (head blk : ℕ) (p : Pool)
    → head ≢ 0
    → (if head == 0 then none else some (loaded head blk (next_of (some blk) p)))
      ≡ some (loaded head blk (blk_get_next blk p))
unfolding next_of
next_of_lem head blk p ne = ground arith

pub load_some :
    (c blk : ℕ) (p : Pool)
    → p.blocks c ≢ 0
    → from_offset p.block_start false (p.blocks c) ≡ some blk
    → load_head c p ≡ some (loaded (p.blocks c) blk (blk_get_next blk p))
unfolding load_head
load_some c blk p ne e = rw (e, load_head) (next_of_lem (p.blocks c) blk p ne)

module _ {p : Pool} {free rest : List Block} {b : Block} {c : ℕ} (h : Holds p free)
    (le : c ≤ num_lists) (t : Takes c b free rest) where
  pub class_before : of_class c free ≡ b ∷ of_class c rest
  class_before = of_class-Takes c c b t ∙ ground arith

  pub Chain-before : Chain p.block_start p.memory (head_offset (p.blocks c)) (b ∷ of_class c rest)
  Chain-before = rw class_before at (h.chains c le)

  head_pos : p.blocks c ≢ 0
  head_pos = ground (arith, Chain-before.0)

  pub head_half : p.blocks c / 2 ^ 32 ≡ b.address - p.block_start
  head_half = ground (arith, head_pos, Chain-before.1)

  abbrev pub next : ℕ
  next = p.memory (link_word b.address) % 2 ^ 32

  actual : from_offset p.block_start false (p.blocks c) ≡ some b.address
  unfolding from_offset
  actual = ground (arith, head_half, Chain-before.0, Chain-before.1)

  pub load_head_lem :
      load_head c p ≡ some (loaded (p.blocks c) b.address (blk_get_next b.address p))
  load_head_lem = load_some c b.address p head_pos actual

  pub next_blk_lem : blk_get_next b.address p ≡ first_address (of_class c rest)
  unfolding blk_get_next from_offset
  next_blk_lem = next_of-Chain p (p.memory (link_word b.address)) (of_class c rest) Chain-before.2

  pub next_offset : calculate_offset (blk_get_next b.address p) p.block_start ≡ next
  next_offset = rw next_blk_lem (
      offset_of_first p next (of_class c rest)
        (of_class-All (IsBlock p) c rest (Takes-All (IsBlock p) c b t h.blocks).1) h.small h.fits
        Chain-before.2)

  abbrev pub taken : Pool
  taken = record p {
    blocks =
        write p.blocks c
          (removed_head (loaded (p.blocks c) b.address (blk_get_next b.address p)) p);
  }

  new_head :
      removed_head (loaded (p.blocks c) b.address (blk_get_next b.address p)) p
      ≡ next * 2 ^ 32 + (p.blocks c % 2 ^ 32 + 1) % 2 ^ 32
  unfolding removed_head
  new_head = rw (next_offset) (omega (arith, (get_bits_lem (p.blocks c)).0))

  pub remove_block_lem :
      remove_block c p
      ≡ ((if is_cons (of_class c rest) then taken else clear_bit c taken), some b.address)
  unfolding remove_block
  remove_block_lem =
      let l : Loaded = loaded (p.blocks c) b.address (blk_get_next b.address p) in
      let swapped = exchange_head_lem c (p.blocks c) (removed_head l p) p refl in
      let cleared =
        ap (λ o. clear_if_last c o taken) next_blk_lem
        ∙ clear_if_last_lem c (of_class c rest) taken in
      rw (load_head_lem, remove_block)
        (take_loaded_lem c l p taken swapped ∙ ap (λ m. (m, some b.address)) cleared)

  abbrev pub after : Pool
  after = if is_cons (of_class c rest) then taken else clear_bit c taken

  taken-RemovedAs : is_cons (of_class c rest) ≡ true → RemovedAs c next true p taken
  unfolding write
  taken-RemovedAs e = record {
    same_start = refl;
    same_size = refl;
    same_memory = refl;
    heads = λ d. rw new_head refl;
    bitmap = refl;
  }

  cleared-RemovedAs : RemovedAs c next false p (clear_bit c taken)
  unfolding clear_bit write
  cleared-RemovedAs = record {
    same_start = refl;
    same_size = refl;
    same_memory = refl;
    heads = λ d. rw new_head refl;
    bitmap = refl;
  }

  pub after-RemovedAs : RemovedAs c next (is_cons (of_class c rest)) p after
  after-RemovedAs = elim (Bool-cases (is_cons (of_class c rest))) [
    | inl e ↦ rw e (taken-RemovedAs e)
    | inr e ↦ rw e cleared-RemovedAs
  ]
