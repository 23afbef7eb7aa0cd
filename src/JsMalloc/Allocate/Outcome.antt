-- ===== src/JsMalloc/Allocate/Outcome.antt =====
-- What allocate of JSMallocZ returns, on each branch.
use zgc_primax.Base.{
  ℕ, suc, ◌%◌, ◌^◌, ◌≤◌, ◌≡◌, refl, ap, ◌∙◌, Option, none, some, List, [], ◌∷◌, All, add64, arith,
}
use zgc_primax.JsMalloc.{
  Pool, get_mapping, target_size, align_size, align_up, align_down, adjust_available_mapping,
  remove_block, num_lists,
}
use zgc_primax.JsMalloc.Operations.{
  or_again, split_taken, count_found, take_suitable, find_block, allocate, count_allocated,
}
use zgc_primax.JsMalloc.Classes.{get_mapping-le, le_of_get_mapping}
use zgc_primax.JsMalloc.Lists.{
  Block, Holds, IsBlock, Takes, takes, Takes-get_mapping, Takes-All, Takes-AllApart, total-Takes,
}
use zgc_primax.JsMalloc.Remove.Keeps.{remove_block-Holds}
use zgc_primax.JsMalloc.Allocate.{Found, adjust-Found, Holds-same}
use zgc_primax.JsMalloc.Allocate.Split.{IsTaken, KeptOutside, cut_free, split_if_larger-Holds}

-- The block that the loop of find_block has taken.
record TakenAs (p : Pool) (free : List Block) (m : ℕ) (q : Pool) (blk : ℕ) : Type 0 where
  c : ℕ
  b : Block
  rest : List Block
  from : m ≤ c
  takes_it : Takes c b free rest
  address : blk ≡ b.address
  same_start : q.block_start ≡ p.block_start
  same_size : q.pool_size ≡ p.pool_size
  same_memory : q.memory ≡ p.memory
  holds : Holds q rest

Taken : Pool → List Block → ℕ → Option (Pool × Option ℕ) → Type 0
Taken p free m none = ⊥
Taken p free m (some (q, none)) = (q ≡ p) × Found m free none
Taken p free m (some (q, some blk)) = TakenAs p free m q blk

take_none :
    (n m : ℕ) (p : Pool)
    → adjust_available_mapping m p ≡ none
    → take_suitable (suc n) m p ≡ some (p, none)
unfolding take_suitable
take_none n m p e = rw (e, take_suitable) refl

take_some :
    (n m c blk : ℕ) (p q : Pool)
    → adjust_available_mapping m p ≡ some c
    → remove_block c p ≡ (q, some blk)
    → take_suitable (suc n) m p ≡ some (q, some blk)
unfolding take_suitable or_again
take_some n m c blk p q e r = rw (e, take_suitable) (ap (λ x. or_again x (take_suitable n m)) r)

module _ (n : ℕ) (p : Pool) (free : List Block) (h : Holds p free) (m : ℕ)
    (le : m ≤ num_lists) where
  take-Found :
      (r : Option ℕ)
      → adjust_available_mapping m p ≡ r
      → Found m free r
      → Taken p free m (take_suitable (suc n) m p)
  unfolding Taken
  take-Found none e f = rw (take_none n m p e) (refl, f)
  take-Found (some c) e f =
      let (b, rest, t) = takes c free f.2 in
      let (q, eq, as', holds) = remove_block-Holds p free rest b c h f.1 t in
      rw (take_some n m c b.address p q e eq) (record {
        c = c;
        b = b;
        rest = rest;
        from = f.0;
        takes_it = t;
        address = refl;
        same_start = as'.same_start;
        same_size = as'.same_size;
        same_memory = as'.same_memory;
        holds = holds;
      })

  take_suitable-Taken : Taken p free m (take_suitable (suc n) m p)
  take_suitable-Taken = take-Found (adjust_available_mapping m p) refl (adjust-Found p free h m le)

-- A pool that gave out a block.
pub record Given (p : Pool) (free : List Block) (size : ℕ) (q : Pool) (blk : ℕ) : Type 0 where
  pub b : Block
  pub c : ℕ
  pub rest : List Block
  pub takes_it : Takes c b free rest
  pub from : get_mapping (target_size (align_size size)) ≤ c
  pub address : blk ≡ b.address
  pub enough : align_size size ≤ b.size
  pub holds : Holds q (cut_free b (align_size size) rest)
  pub same_start : q.block_start ≡ p.block_start
  pub same_size : q.pool_size ≡ p.pool_size
  pub kept : KeptOutside b p q

unfoldable pub Outcome : Pool → List Block → ℕ → Option (Pool × Option ℕ) → Type 0
Outcome p free size none = ⊥
Outcome p free size (some (q, none)) =
    (q ≡ p) × Found (get_mapping (target_size (align_size size))) free none
Outcome p free size (some (q, some blk)) = Given p free size q blk

-- Requests that the collector makes of a page's free blocks: up to ZMaxRelocationInFreeLists.
abbrev pub size_limit : ℕ
size_limit = 2 ^ 18

pub align_size_bounds :
    (size : ℕ)
    → size ≤ size_limit
    → (16 ≤ align_size size)
      × (align_size size ≤ size_limit)
      × (size ≤ align_size size)
      × (align_size size % 16 ≡ 0)
unfolding align_size align_up align_down add64
align_size_bounds size h = ground arith

everywhere : {P : Block → Type 0} (l : List Block) → ((b : Block) → P b) → All P l
everywhere [] f = tt
everywhere (b ∷ l) f = (f b, everywhere l f)

module _ (n : ℕ) (p : Pool) (free : List Block) (h : Holds p free) (size : ℕ)
    (small : size ≤ size_limit) where
  abbrev a : ℕ
  a = align_size size

  TakenAs-IsTaken :
      (q : Pool) (blk : ℕ) (t : TakenAs p free (get_mapping (target_size a)) q blk)
      → IsTaken q t.rest t.b a
  TakenAs-IsTaken q blk t =
      let bounds = align_size_bounds size small in
      let blocks = Takes-All (IsBlock p) t.c t.b t.takes_it h.blocks in
      let is_block = blocks.0 in
      record {
        holds = t.holds;
        marked = rw t.same_memory is_block.marked;
        unflagged = is_block.unflagged;
        starts = rw t.same_start is_block.starts;
        ends = rw (t.same_start, t.same_size) is_block.ends;
        apart = (Takes-AllApart t.c t.b t.takes_it h.apart).0;
        room = rw t.same_size (omega (arith, total-Takes (λ x. x.size) t.c t.b t.takes_it, h.room));
        least = bounds.0;
        aligned = omega (arith, bounds.3);
        enough =
            le_of_get_mapping a bounds.0 bounds.1 t.b.size is_block.least
              (omega (arith, is_block.ends, h.fits))
              (rw (Takes-get_mapping t.c t.b t.takes_it) t.from);
      }

  split_taken-Outcome :
      (r : Option (Pool × Option ℕ))
      → Taken p free (get_mapping (target_size a)) r
      → Outcome p free size (split_taken (suc n) a r)
  unfolding Taken split_taken Outcome
  split_taken-Outcome none t = t
  split_taken-Outcome (some (q, none)) t = t
  split_taken-Outcome (some (q, some blk)) t =
      let taken = TakenAs-IsTaken q blk t in
      let (r, e, holds, start, size', kept) = split_if_larger-Holds taken n in
      rw (t.address, e)
        (record {
          b = t.b;
          c = t.c;
          rest = t.rest;
          takes_it = t.takes_it;
          from = t.from;
          address = refl;
          enough = taken.enough;
          holds = holds;
          same_start = start ∙ t.same_start;
          same_size = size' ∙ t.same_size;
          kept = λ word out. kept word out ∙ ap (λ m. m word) t.same_memory;
        })

  count_found-Outcome :
      (r : Option (Pool × Option ℕ))
      → Outcome p free size r
      → Outcome p free size (count_found size r)
  unfolding Outcome count_found count_allocated
  count_found-Outcome none t = t
  count_found-Outcome (some (q, none)) t = t
  count_found-Outcome (some (q, some blk)) t = record {
    b = t.b;
    c = t.c;
    rest = t.rest;
    takes_it = t.takes_it;
    from = t.from;
    address = t.address;
    enough = t.enough;
    holds =
        Holds-same q _ (cut_free t.b a t.rest) refl refl refl refl
          (everywhere (cut_free t.b a t.rest) (λ c. (refl, refl))) t.holds;
    same_start = t.same_start;
    same_size = t.same_size;
    kept = t.kept;
  }

  find_block-Outcome : Outcome p free size (find_block (suc n) size p)
  unfolding find_block
  find_block-Outcome = split_taken-Outcome (take_suitable (suc n) (get_mapping (target_size a)) p) (
      take_suitable-Taken n p free h (get_mapping (target_size a)) (get_mapping-le (target_size a)))

  -- allocate returns in one round of each loop. It returns null where no class from the request's on has
  -- a free block, and then it has changed nothing. Otherwise it returns a free block that is large enough, ...
  pub allocate-Outcome : Outcome p free size (allocate (suc n) size p)
  unfolding allocate
  allocate-Outcome = count_found-Outcome (find_block (suc n) size p) find_block-Outcome
