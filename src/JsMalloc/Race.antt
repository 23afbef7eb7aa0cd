-- ===== src/JsMalloc/Race.antt =====
-- An interleaving of remove_block and insert_block of JSMallocZ in which the version of a head does not
-- tell that the list has changed, since insert_block starts it at 1 again.
use zgc_primax.Base.{
  ℕ, suc, ◌+◌, ◌-◌, ◌*◌, ◌%◌, ◌^◌, ◌≤◌, ◌≡◌, ◌≢◌, refl, ap, ◌∙◌, false, some, List, ◌∷◌, arith,
}
use zgc_primax.JsMalloc.{
  Pool, Loaded, write, get_mapping, from_offset, get_bits, blk_get_next, load_head, removed_head,
  clear_if_last, take_loaded, remove_block, num_lists,
}
use zgc_primax.JsMalloc.Operations.{free}
use zgc_primax.JsMalloc.Classes.{get_mapping-le}
use zgc_primax.JsMalloc.Pointers.{InReach, get_bits_lem, calculate_offset_lem}
use zgc_primax.JsMalloc.Lists.{of_class_same, Block, Holds, IsBlock, Takes, first}
use zgc_primax.JsMalloc.Insert.{InsertedAs, exchange_head_lem}
use zgc_primax.JsMalloc.Remove.{
  loaded, head_half, next_blk_lem, load_head_lem, load_some, take_loaded_lem, first_address,
}
use zgc_primax.JsMalloc.Remove.Keeps.{remove_block-Holds}
use zgc_primax.JsMalloc.Free.{CanFree, sized, free-InsertedAs}

-- The pool after take_loaded, if the head is the one that was read.
abbrev swapped : ℕ → Loaded → Pool → Pool
swapped c l p =
    clear_if_last c l.next_blk (record p { blocks = write p.blocks c (removed_head l p) })

take_unchanged :
    (c : ℕ) (l : Loaded) (p : Pool)
    → p.blocks c ≡ l.head
    → take_loaded c l p ≡ (swapped c l p, l.actual_head)
take_unchanged c l p e = take_loaded_lem c l p _ (exchange_head_lem c l.head (removed_head l p) p e)

-- remove_block returns the block that the head says.
remove_first :
    (c blk : ℕ) (p : Pool)
    → p.blocks c ≢ 0
    → from_offset p.block_start false (p.blocks c) ≡ some blk
    → (q : Pool) × (remove_block c p ≡ (q, some blk))
unfolding remove_block
remove_first c blk p ne e =
    let l : Loaded = loaded (p.blocks c) blk (blk_get_next blk p) in
    (swapped c l p, rw (load_some c blk p ne e, remove_block) (take_unchanged c l p refl))

module _ (n : ℕ) {p : Pool} {rest : List Block} {x y : Block} {c : ℕ} (h : Holds p (x ∷ y ∷ rest))
    (cx : get_mapping x.size ≡ c) (cy : get_mapping y.size ≡ c)
    (fresh : p.blocks c % 2 ^ 32 ≡ 1) where
  le : c ≤ num_lists
  le = rw (← cx) (get_mapping-le x.size)

  tx : Takes c x (x ∷ y ∷ rest) (y ∷ rest)
  tx = first (y ∷ rest) cx

  abbrev l : Loaded
  l = loaded (p.blocks c) x.address (blk_get_next x.address p)

  next_is_y : blk_get_next x.address p ≡ some y.address
  unfolding first_address
  next_is_y = next_blk_lem h le tx ∙ ap first_address (rw cy at (of_class_same y rest))

  head_is_x : p.blocks c ≡ (x.address - p.block_start) * 2 ^ 32 + 1
  head_is_x = omega (arith, head_half h le tx, fresh)

  y-IsBlock : IsBlock p y
  y-IsBlock = h.blocks.1.0

  y-InReach : InReach p.block_start (some y.address)
  y-InReach = (
    y-IsBlock.starts,
    omega (arith, y-IsBlock.ends, y-IsBlock.least, h.small),
    omega (arith, y-IsBlock.ends, y-IsBlock.least, h.fits),
  )

  -- The head that the thread puts in place.
  last_head :
      (q : Pool)
      → q.block_start ≡ p.block_start
      → removed_head l q ≡ (y.address - p.block_start) * 2 ^ 32 + 2
  unfolding removed_head
  last_head q same =
      rw (next_is_y, same)
        (omega (
          arith,
          calculate_offset_lem y.address p.block_start y-InReach,
          (get_bits_lem (p.blocks c)).0,
          fresh,
        ))

  swapped_lem :
      (q : Pool) → swapped c l q ≡ record q { blocks = write q.blocks c (removed_head l q) }
  unfolding clear_if_last
  swapped_lem q =
      ap (λ o. clear_if_last c o (record q { blocks = write q.blocks c (removed_head l q) }))
        next_is_y

  y_again :
      (q : Pool)
      → q.block_start ≡ p.block_start
      → (r : Pool) × (remove_block c (swapped c l q) ≡ (r, some y.address))
  unfolding write from_offset get_bits
  y_again q same =
      let head = last_head q same in
      let m : Pool = record q { blocks = write q.blocks c (removed_head l q) } in
      let now : m.blocks c ≡ (y.address - p.block_start) * 2 ^ 32 + 2 = ground (arith, head) in
      rw (swapped_lem q)
        (remove_first c y.address m (ground (arith, now)) (ground (arith, now, same, y-InReach)))

  x_can : (q : Pool) → q.block_start ≡ p.block_start → q.pool_size ≡ p.pool_size → CanFree q rest x
  x_can q same_start same_size =
      let x_block = h.blocks.0 in
      record {
        least = x_block.least;
        unflagged = x_block.unflagged;
        starts = rw same_start x_block.starts;
        ends = rw (same_start, same_size) x_block.ends;
        apart = h.apart.0.1;
        room = rw same_size (omega (arith, h.room));
      }

  x_head :
      (q r : Pool) (can : CanFree q rest x) (held : Holds q rest)
      → q.block_start ≡ p.block_start
      → InsertedAs (get_mapping x.size) x.address (sized held can) r
      → r.blocks c ≡ p.blocks c
  x_head q r can held same as' =
      let x_block = h.blocks.0 in
      let reach : InReach q.block_start (some x.address) = (
        can.starts,
        omega (arith, can.ends, can.least, held.small),
        omega (arith, can.ends, can.least, held.fits),
      ) in
      as'.heads c
      ∙ ground (arith, cx, head_is_x, same, calculate_offset_lem x.address q.block_start reach)

  -- From a pool of these free blocks, of which the first two are x and y, both of one class whose
  -- head has version 1: a thread reads the head, and others take x, take y, and free x. Then the
  -- exchange of the thread succeeds and gives it x, and the next `remove_block` returns y, which is
  -- in use.
  pub given_twice :
      (l : Loaded) × (p1 : Pool) × (p2 : Pool) × (p3 : Pool) × (p4 : Pool) × (p5 : Pool)
      × (load_head c p ≡ some l)
      × (remove_block c p ≡ (p1, some x.address))
      × (remove_block c p1 ≡ (p2, some y.address))
      × (free (suc n) (some x.address) x.size p2 ≡ some p3)
      × (take_loaded c l p3 ≡ (p4, some x.address))
      × (remove_block c p4 ≡ (p5, some y.address))
  given_twice =
      let (p1, e1, as1, h1) = remove_block-Holds p (x ∷ y ∷ rest) (y ∷ rest) x c h le tx in
      let (p2, e2, as2, h2) = remove_block-Holds p1 (y ∷ rest) rest y c h1 le (first rest cy) in
      let same_start = as2.same_start ∙ as1.same_start in
      let can = x_can p2 same_start (as2.same_size ∙ as1.same_size) in
      let (p3, e3, as3, h3) = free-InsertedAs h2 can n in
      let start3 = as3.same_start ∙ same_start in
      let (p5, e5) = y_again p3 start3 in
      (
        l,
        p1,
        p2,
        p3,
        swapped c l p3,
        p5,
        load_head_lem h le tx,
        e1,
        e2,
        e3,
        take_unchanged c l p3 (x_head p2 p3 can h2 same_start as3),
        e5,
      )
