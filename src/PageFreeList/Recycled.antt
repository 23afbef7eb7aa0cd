-- ===== src/PageFreeList/Recycled.antt =====
-- Relocation into the free list of a page: any number of calls of alloc_object_free_list after
-- init_free_list.
use zgc_primax.Base.{
  ℕ, suc, ◌+◌, ◌≤◌, ◌≡◌, inl, inr, refl, ap, ◌∙◌, sym, subst, Option, none, some, List, [], ◌∷◌,
  All, All-map, add64, arith,
}
use zgc_primax.JsMalloc.{Pool, align_up, align_down}
use zgc_primax.JsMalloc.Operations.{allocate}
use zgc_primax.JsMalloc.Lists.{Block, Apart, AllApart, Holds}
use zgc_primax.JsMalloc.Allocate.Outcome.{Outcome, allocate-Outcome, size_limit, align_size_bounds}
use zgc_primax.JsMalloc.Allocate.Safe.{range, allocate_safe}
use zgc_primax.PageFreeList.{
  Page, object_alignment, note_allocation, allocate_in, alloc_object_free_list, init_free_list,
}
use zgc_primax.PageFreeList.Gaps.{InOrder, InOrder-le, gaps_from, gaps_from-Apart}
use zgc_primax.PageFreeList.Freed.{IsPage, init_free_list-gaps}

-- The ranges in use, with the object that was allocated.
unfoldable pub used_by : ℕ → Option ℕ → List Block → List Block
used_by size none used = used
used_by size (some addr) used = record { address = addr; size = size } ∷ used

unfoldable pub and_more :
    ℕ
    → List Block
    → Option (Page × Option ℕ)
    → (List Block → Page → Option (Page × List Block))
    → Option (Page × List Block)
and_more size used none more = none
and_more size used (some (p, addr)) more = more (used_by size addr used) p

-- Objects of these sizes are allocated one after the other, if they fit. The ranges in use grow by them.
unfoldable pub alloc_all : ℕ → List ℕ → List Block → Page → Option (Page × List Block)
alloc_all rounds [] used p = some (p, used)
alloc_all rounds (size ∷ sizes) used p =
    and_more size used (alloc_object_free_list rounds size p) (alloc_all rounds sizes)

abbrev pub InPage : Page → Block → Type 0
InPage p b = (p.start ≤ b.address) × (b.address + b.size ≤ p.start + p.size)

-- A page whose allocator has no byte of the ranges in use.
pub record Recycles (p : Page) (used : List Block) : Type 0 where
  pub pool : Pool
  pub free : List Block
  pub own : p.allocator ≡ some pool
  pub holds : Holds pool free
  pub same_start : pool.block_start ≡ p.start
  pub same_size : pool.pool_size ≡ p.size
  pub away : All (λ r. All (Apart r) free) used
  pub apart : AllApart used
  pub inside : All (InPage p) used

abbrev pub Recycled : Page → List Block → ℕ → Option (Page × Option ℕ) → Type 0
Recycled p used size none = ⊥
Recycled p used size (some (p', addr)) =
    Recycles p' (used_by size addr used) × (p'.start ≡ p.start) × (p'.size ≡ p.size)

align_up_bounds :
    (size : ℕ)
    → size ≤ size_limit
    → (size ≤ align_up size object_alignment) × (align_up size object_alignment ≤ size_limit)
unfolding align_up align_down add64
align_up_bounds size h = ground arith

-- Ranges away from each other stay so when the first is cut.
part :
    (r b : Block)
    → Apart r b
    → {size : ℕ} → size ≤ r.size
    → Apart (record { address = r.address; size = size }) b
part r b (inl h) le = inl (omega arith)
part r b (inr h) le = inr h

turn : (a b : Block) → Apart a b → Apart b a
turn a b (inl h) = inr h
turn a b (inr h) = inl h

module _ (n size : ℕ) (p : Page) (used : List Block) (r : Recycles p used)
    (small : size ≤ size_limit) where
  abbrev a : ℕ
  a = align_up size object_alignment

  noted :
      (result : Option (Pool × Option ℕ))
      → allocate (suc n) a r.pool ≡ result
      → Outcome r.pool r.free a result
      → Recycled p used size (note_allocation a p result)
  unfolding Outcome note_allocation used_by
  noted none e o = absurd o
  noted (some (q, none)) e o = (
    record {
      pool = q;
      free = r.free;
      own = refl;
      holds = subst (λ m. Holds m r.free) (sym o.0) r.holds;
      same_start = ap (λ m. m.block_start) o.0 ∙ r.same_start;
      same_size = ap (λ m. m.pool_size) o.0 ∙ r.same_size;
      away = r.away;
      apart = r.apart;
      inside = All-map _ _ used (λ b k. k) r.inside;
    },
    refl,
    refl,
  )
  noted (some (q, some blk)) e o =
      let up = align_up_bounds size small in
      let more = align_size_bounds a up.1 in
      let (left, holds, start, size', low, high, new_away, others) =
        allocate_safe n r.pool q r.free a blk r.holds up.1 e in
      (
        record {
          pool = q;
          free = left;
          own = refl;
          holds = holds;
          same_start = start ∙ r.same_start;
          same_size = size' ∙ r.same_size;
          away = (
            All-map _ _ left (λ b k. part (range blk a) b k (omega (arith, up.0, more.2))) new_away,
            All-map _ _ used (λ b k. (others b k).1) r.away,
          );
          apart = (
            All-map _ _ used
                (λ b k.
                  part (range blk a) b (turn b (range blk a) (others b k).0)
                    (omega (arith, up.0, more.2)))
                r.away,
            r.apart,
          );
          inside = (
            (
              omega (arith, low, r.same_start),
              omega (arith, high, up.0, more.2, r.same_start, r.same_size),
            ),
            All-map _ _ used (λ b k. k) r.inside,
          );
        },
        refl,
        refl,
      )

  allocate_in_lem :
      allocate_in (suc n) a p (some r.pool) ≡ note_allocation a p (allocate (suc n) a r.pool)
  unfolding allocate_in
  allocate_in_lem = refl

  recycled : Recycled p used size (alloc_object_free_list (suc n) size p)
  unfolding alloc_object_free_list
  recycled =
      let e = ap (allocate_in (suc n) a p) r.own ∙ allocate_in_lem in
      subst (Recycled p used size) (sym e) (
        noted (allocate (suc n) a r.pool) refl
          (allocate-Outcome n r.pool r.free r.holds a (align_up_bounds size small).1))

-- A page on which alloc_all has ended.
abbrev pub AllRecycled : Page → Option (Page × List Block) → Type 0
AllRecycled p none = ⊥
AllRecycled p (some (p', used)) = Recycles p' used × (p'.start ≡ p.start) × (p'.size ≡ p.size)

same_page :
    (p p' : Page)
    → p'.start ≡ p.start
    → p'.size ≡ p.size
    → (r : Option (Page × List Block)) → AllRecycled p' r
    → AllRecycled p r
same_page p p' s z none h = h
same_page p p' s z (some (p'', used)) h = (h.0, h.1 ∙ s, h.2 ∙ z)

continued :
    (size : ℕ) (used : List Block) (p : Page) (r : Option (Page × Option ℕ))
    → Recycled p used size r
    → (more : List Block → Page → Option (Page × List Block))
    → ((u : List Block) (q : Page) → Recycles q u → AllRecycled q (more u q))
    → AllRecycled p (and_more size used r more)
unfolding and_more
continued size used p none h more rest = absurd h
continued size used p (some (q, addr)) h more rest =
    same_page p q h.1 h.2 (more (used_by size addr used) q) (rest (used_by size addr used) q h.0)

alloc_all-Recycled :
    (n : ℕ) (sizes : List ℕ) (used : List Block) (p : Page)
    → All (λ size. size ≤ size_limit) sizes
    → Recycles p used
    → AllRecycled p (alloc_all (suc n) sizes used p)
unfolding alloc_all and_more
alloc_all-Recycled n [] used p small r = (r, refl, refl)
alloc_all-Recycled n (size ∷ sizes) used p small r =
    continued size used p (alloc_object_free_list (suc n) size p) (recycled n size p used r small.0)
      (alloc_all (suc n) sizes) (λ u q rec. alloc_all-Recycled n sizes u q small.1 rec)

InOrder-inside :
    (curr : ℕ) (os : List Block) (end : ℕ)
    → InOrder curr os end
    → All (λ o. (curr ≤ o.address) × (o.address + o.size ≤ end)) os
InOrder-inside curr [] end h = tt
InOrder-inside curr (o ∷ os) end h = (
  (h.0, InOrder-le (o.address + o.size) os end h.1),
  All-map _ _ os (λ b k. (omega (arith, h.0, k.0), k.1))
      (InOrder-inside (o.address + o.size) os end h.1),
)

InOrder-AllApart : (curr : ℕ) (os : List Block) (end : ℕ) → InOrder curr os end → AllApart os
InOrder-AllApart curr [] end h = tt
InOrder-AllApart curr (o ∷ os) end h = (
  All-map _ _ os (λ b k. inl k.0) (InOrder-inside (o.address + o.size) os end h.1),
  InOrder-AllApart (o.address + o.size) os end h.1,
)

all_recycled :
    (p q : Page) (r : Option (Page × List Block))
    → p.start ≡ q.start
    → p.size ≡ q.size
    → AllRecycled p r
    → (p' : Page) × (used : List Block) × (r ≡ some (p', used))
      × AllApart used
      × All (InPage q) used
all_recycled p q none s z h = absurd h
all_recycled p q (some (p', used)) s z h = (
  p',
  used,
  refl,
  h.0.apart,
  All-map _ _ used (λ b k. (omega (arith, k.0, h.1, s), omega (arith, k.1, h.1, h.2, s, z)))
      h.0.inside,
)

-- On a page whose allocator, if it has one, is the page's, with these live objects by address and a
-- least size of free blocks from 16 on, `init_free_list` returns, and so does each call of
-- `alloc_object_free_list` after it, for any number of objects of at most 2^18 bytes each. The
-- objects that were allocated and the live ones are in the page, and no two of them have a byte in
-- common.
pub recycled_apart :
    (n least : ℕ) (memory : ℕ → ℕ) (p : Page) (objects : List Block) (sizes : List ℕ)
    → IsPage p
    → 16 ≤ least
    → InOrder p.start objects (p.start + p.size)
    → All (λ size. size ≤ size_limit) sizes
    → (fresh : Page) × (p' : Page) × (used : List Block) × (init_free_list
          (suc n)
          memory
          least
          objects
          p
        ≡ some fresh)
      × (alloc_all (suc n) sizes objects fresh ≡ some (p', used))
      × AllApart used
      × All (InPage p) used
recycled_apart n least memory p objects sizes h fits order small =
    let (fresh, pool, e, own, holds, start, size, freed, used0, more, start', size', most) =
      init_free_list-gaps n memory p h least fits objects order in
    let first : Recycles fresh objects = record {
      pool = pool;
      free = gaps_from least p.start objects (p.start + p.size) [];
      own = own;
      holds = holds;
      same_start = start ∙ sym start';
      same_size = size ∙ sym size';
      away = gaps_from-Apart least p.start objects (p.start + p.size) [] order tt;
      apart = InOrder-AllApart p.start objects (p.start + p.size) order;
      inside =
          All-map _ _ objects
            (λ b k. (omega (arith, k.0, start'), omega (arith, k.1, start', size')))
            (InOrder-inside p.start objects (p.start + p.size) order);
    } in
    let (p', used, e', apart, inside) =
      all_recycled fresh p (alloc_all (suc n) sizes objects fresh) start' size'
        (alloc_all-Recycled n sizes objects fresh small first) in
    (fresh, p', used, e, e', apart, inside)
