-- ===== src/PageFreeList/Freed.antt =====
-- What init_free_list leaves: a pool whose free blocks are the gaps between the live objects.
use zgc_primax.Base.{
  ℕ, suc, ◌+◌, ◌*◌, ◌%◌, ◌^◌, ◌≤◌, ◌<◌, ◌≡◌, inl, inr, refl, ap, ◌∙◌, true, false, leb, Option,
  none, some, List, [], ◌∷◌, All-map, length, total, add64, sub64, arith, Bool-cases, le_of_leb,
  add64_lem,
}
use zgc_primax.JsMalloc.{Pool, align_down, no_offset}
use zgc_primax.JsMalloc.Lists.{Block, Holds}
use zgc_primax.JsMalloc.Free.{CanFree, free-Holds, reset-Holds, initialize_aligned}
use zgc_primax.PageFreeList.{
  Page, Freeing, object_alignment, free_sized, note_freed, free_gap, free_gaps, and_then, new_pool,
  filled_pool, finish, free_all, init_free_list,
}
use zgc_primax.PageFreeList.Gaps.{
  between, with_gap, gaps_from, InOrder, InOrder-le, EndBy, total-gaps_from,
}

-- The loop of init_free_list when it has come to an address.
pub record Freed (start size curr : ℕ) (gaps : List Block) (s : Freeing) : Type 0 where
  pub holds : Holds s.pool gaps
  pub same_start : s.pool.block_start ≡ start
  pub same_size : s.pool.pool_size ≡ size
  pub ends : EndBy curr gaps
  pub low : total (λ b. b.size) gaps + start ≤ curr
  pub bytes : s.bytes ≡ total (λ b. b.size) gaps
  pub inside : curr ≤ start + size

Freed-later :
    {start size curr : ℕ} {gaps : List Block} {s : Freeing} (to : ℕ)
    → curr ≤ to
    → to ≤ start + size
    → Freed start size curr gaps s
    → Freed start size to gaps s
Freed-later {gaps = gaps} to le most f = record {
  holds = f.holds;
  same_start = f.same_start;
  same_size = f.same_size;
  ends = All-map _ _ gaps (λ b e. omega arith) f.ends;
  low = omega (arith, f.low);
  bytes = f.bytes;
  inside = most;
}

skipped :
    (n least curr free_size : ℕ) (s : Freeing)
    → leb least free_size ≡ false
    → free_sized n least curr free_size s ≡ some s
unfolding free_sized
skipped n least curr free_size s small = rw small refl

module _ {start size curr : ℕ} {gaps : List Block} {s : Freeing} (f : Freed start size curr gaps s)
    (least to : ℕ) (least_fits : 16 ≤ least) (le : curr ≤ to) (most : to ≤ start + size) where
  free_size : align_down (sub64 to curr) object_alignment ≡ (between curr to).size
  unfolding align_down sub64
  free_size = omega (arith, f.same_start, f.same_size, f.holds.fits)

  gap-CanFree : least ≤ (between curr to).size → CanFree s.pool gaps (between curr to)
  gap-CanFree large = record {
    least = omega arith;
    unflagged = omega arith;
    starts = omega (arith, f.same_start, f.low);
    ends = omega (arith, f.same_start, f.same_size);
    apart = All-map _ _ gaps (λ b e. inr e) f.ends;
    room = omega (arith, f.low, f.same_size);
  }

  added :
      s.bytes ≡ total (λ b. b.size) gaps
      → add64 s.bytes (between curr to).size ≡ (between curr to).size + total (λ b. b.size) gaps
  added e =
      add64_lem s.bytes (between curr to).size
        (omega (arith, e, f.low, f.same_start, f.same_size, f.holds.fits))
      ∙ omega (arith, e)

  Freed-large :
      (n : ℕ)
      → least ≤ (between curr to).size
      → (s' : Freeing) × (free_sized (suc n) least curr (between curr to).size s ≡ some s')
        × Freed start size to (between curr to ∷ gaps) s'
  unfolding free_sized note_freed
  Freed-large n large =
      let (q, e, holds, same_start, same_size, kept) = free-Holds f.holds (gap-CanFree large) n in
      let test : leb least (between curr to).size ≡ true = ground arith in
      (
        record { pool = q; bytes = add64 s.bytes (between curr to).size },
        rw (test, e) refl,
        record {
          holds = holds;
          same_start = same_start ∙ f.same_start;
          same_size = same_size ∙ f.same_size;
          ends = (omega arith, All-map _ _ gaps (λ b x. omega arith) f.ends);
          low = omega (arith, f.low);
          bytes = added f.bytes;
          inside = most;
        },
      )

  free_gap-Freed :
      (n : ℕ)
      → (s' : Freeing) × (free_gap (suc n) least curr to s ≡ some s')
        × Freed start size to (with_gap least curr to gaps) s'
  unfolding free_gap with_gap
  free_gap-Freed n = elim (Bool-cases (leb least (between curr to).size)) [
    | inr small ↦
        rw (free_size, small)
          (s, skipped (suc n) least curr (between curr to).size s small, Freed-later to le most f)
    | inl large ↦ rw (free_size, large) (Freed-large n (le_of_leb large))
  ]

pub free_gaps-Freed :
    {start size : ℕ} (n least : ℕ)
    → 16 ≤ least
    → (curr : ℕ) (os : List Block) (end : ℕ) (gaps : List Block) (s : Freeing)
    → Freed start size curr gaps s
    → InOrder curr os end
    → end ≤ start + size
    → (s' : Freeing) × (free_gaps (suc n) least curr os end s ≡ some s')
      × Freed start size end (gaps_from least curr os end gaps) s'
unfolding free_gaps gaps_from and_then
free_gaps-Freed n least fits curr [] end gaps s f h most = free_gap-Freed f least end fits h most n
free_gaps-Freed n least fits curr (o ∷ os) end gaps s f h most =
    let next : ℕ = o.address + o.size in
    let rest_le = InOrder-le next os end h.1 in
    let (s', e, f') = free_gap-Freed f least o.address fits h.0 (omega arith) n in
    let later = Freed-later next (omega arith) (omega arith) f' in
    let (s'', e'', f'') =
      free_gaps-Freed n least fits next os end (with_gap least curr o.address gaps) s' later h.1
        most in
    (s'', ap (λ r. and_then r (free_gaps (suc n) least next os end)) e ∙ e'', f'')

-- An allocator of a page.
abbrev pub OfPage : ℕ → ℕ → Option Pool → Type 0
OfPage start size none = Unit {0}
OfPage start size (some pool) = (pool.block_start ≡ start) × (pool.pool_size ≡ size)

-- A page whose allocator, if it has one, is that of the page.
pub record IsPage (p : Page) : Type 0 where
  pub aligned : p.start % 8 ≡ 0
  pub whole_blocks : p.size % 16 ≡ 0
  pub least : 24 ≤ p.size
  pub small : p.size < no_offset
  pub fits : p.start + p.size + 8 < 2 ^ 64
  pub own : OfPage p.start p.size p.allocator

module _ (n : ℕ) (memory : ℕ → ℕ) (p : Page) (h : IsPage p) where
  filled :
      (allocator : Option Pool)
      → OfPage p.start p.size allocator
      → (q : Pool) × (filled_pool (suc n) memory p.start p.size allocator ≡ some q)
        × Holds q []
        × (q.block_start ≡ p.start)
        × (q.pool_size ≡ p.size)
  unfolding filled_pool
  filled none own =
      initialize_aligned n true p.start p.size (new_pool memory) h.aligned h.whole_blocks h.small
        h.fits h.least
  filled (some pool) (same_start, same_size) =
      let (q, e, holds, s, z) =
        reset-Holds n true pool (rw same_size h.small) (omega (arith, h.fits))
          (omega (arith, h.least)) (omega (arith, h.whole_blocks)) in
      (q, e, holds, s ∙ same_start, z ∙ same_size)

  module _ (least : ℕ) (least_fits : 16 ≤ least) (objects : List Block)
      (order : InOrder p.start objects (p.start + p.size)) where
    abbrev gaps : List Block
    gaps = gaps_from least p.start objects (p.start + p.size) []

    -- On a page whose allocator, if it has one, is the page's, with these live objects by address
    -- and a least size of free blocks from 16 on, `init_free_list` returns. The free blocks of the
    -- page's allocator are just the ranges between the objects, cut to multiples of 8 bytes, that
    -- have the least size, the last one first. The bytes freed are their sum, and with the live
    -- objects they are the page but for at most the least size and 7 bytes at each object and at
    -- the end. The bytes used are 0, and the page is not exhausted.
    pub init_free_list-gaps :
        (p' : Page) × (pool : Pool) × (init_free_list (suc n) memory least objects p ≡ some p')
        × (p'.allocator ≡ some pool)
        × Holds pool gaps
        × (pool.block_start ≡ p.start)
        × (pool.pool_size ≡ p.size)
        × (p'.bytes_freed ≡ total (λ b. b.size) gaps)
        × (p'.bytes_used ≡ 0)
        × (p'.exhausted ≡ false)
        × (p'.start ≡ p.start)
        × (p'.size ≡ p.size)
        × (p.size
            ≤ p'.bytes_freed + total (λ o. o.size) objects + (length objects + 1) * (least + 7))
    unfolding init_free_list free_all finish
    init_free_list-gaps =
        let (q, e, holds, same_start, same_size) = filled p.allocator h.own in
        let first : Freed p.start p.size p.start [] (record { pool = q; bytes = 0 }) = record {
          holds = holds;
          same_start = same_start;
          same_size = same_size;
          ends = tt;
          low = omega arith;
          bytes = refl;
          inside = omega arith;
        } in
        let (s, e', f) =
          free_gaps-Freed n least least_fits p.start objects (p.start + p.size) []
            (record { pool = q; bytes = 0 }) first order (omega arith) in
        (
          record p {
            allocator = some s.pool;
            failed_relocation_size = 0;
            exhausted = false;
            bytes_freed = s.bytes;
            bytes_used = 0;
          },
          s.pool,
          ap (free_all (suc n) least objects p) e ∙ ap (finish p) e',
          refl,
          f.holds,
          f.same_start,
          f.same_size,
          f.bytes,
          refl,
          refl,
          refl,
          refl,
          omega (arith, f.bytes, total-gaps_from least p.start objects (p.start + p.size) [] order),
        )
