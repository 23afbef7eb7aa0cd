-- ===== src/PageTop/Safety.antt =====
-- That threads which allocate in a page by ZPage::alloc_object_atomic of zPage.inline.hpp get bytes of their own.
use zgc_primax.Base.{
  ℕ, ◌+◌, ◌≤◌, ◌<◌, ◌≡◌, refl, true, ◌&&◌, ◌==◌, ltb, leb, if◌then◌else◌, if_cases, Bool-cases, inl,
  inr, ◌⊎◌, Option, none, some, List, [], ◌∷◌, total, All, add64, words, arith, uintptr_max, run_in,
  step_in, run_in-Inv, map,
}
use zgc_primax.PageTop.{
  Attempt, reads, exchanges, allocated, fails, try_top, alloc_step, alloc_object,
}

module _ (align_up : ℕ → ℕ) where
  -- How often the thread's object has the byte at `q`.
  unfoldable pub has_byte : ℕ → Attempt → ℕ
  has_byte q (reads size) = 0
  has_byte q (exchanges size addr) = 0
  has_byte q (allocated size addr) = if leb addr q && ltb q (addr + align_up size) then 1 else 0
  has_byte q fails = 0

module _ (align_up : ℕ → ℕ) (address_offset_max old_top page_end : ℕ) where
  -- 1 for a thread with too large an object, or about to move the top out of the page.
  unfoldable misplaced : Attempt → ℕ
  misplaced (reads size) = if leb (align_up size) address_offset_max then 0 else 1
  misplaced (exchanges size addr) =
      if leb (align_up size) address_offset_max && leb (add64 addr (align_up size)) page_end
      then 0
      else 1
  misplaced (allocated size addr) = 0
  misplaced fails = 0

  unfoldable weight : Option ℕ → Attempt → ℕ
  weight none t = misplaced t
  weight (some q) t = has_byte align_up q t

  record Owned (top : ℕ) (count : Option ℕ → ℕ) : Type 0 where
    from_start : old_top ≤ top
    to_end : top ≤ page_end
    placed : count none ≡ 0
    once : (q : ℕ) → count (some q) ≤ 1
    free_above : (q : ℕ) → top ≤ q → count (some q) ≡ 0
    none_below : (q : ℕ) → q < old_top → count (some q) ≡ 0

  module _ (offsets : address_offset_max + address_offset_max ≤ uintptr_max)
      (end_offset : page_end ≤ address_offset_max) where
    quiet :
        (t : Attempt) (top : ℕ) (others : Option ℕ → ℕ)
        → misplaced t ≡ 0
        → ((q : ℕ) → has_byte align_up q t ≡ 0)
        → Owned top others
        → Owned top (λ k. weight k t + others k)
    unfolding weight
    quiet t top others placed no_byte h = record {
      from_start = h.from_start;
      to_end = h.to_end;
      placed = omega (arith, placed, h.placed);
      once = λ q. omega (arith, no_byte q, h.once q);
      free_above = λ q above. omega (arith, no_byte q, h.free_above q above);
      none_below = λ q below. omega (arith, no_byte q, h.none_below q below);
    }

    others_Owned :
        (t : Attempt) (top : ℕ) (others : Option ℕ → ℕ)
        → Owned top (λ k. weight k t + others k)
        → Owned top others
    others_Owned t top others h = record {
      from_start = h.from_start;
      to_end = h.to_end;
      placed = omega (arith, h.placed);
      once = λ q. omega (arith, h.once q);
      free_above = λ q above. omega (arith, h.free_above q above);
      none_below = λ q below. omega (arith, h.none_below q below);
    }

    tried :
        (size top : ℕ) (others : Option ℕ → ℕ)
        → align_up size ≤ address_offset_max
        → Owned top others
        → Owned top
            (λ k. weight k (try_top align_up address_offset_max page_end size top) + others k)
    unfolding try_top has_byte misplaced
    tried size top others small h =
        let failed = quiet fails top others refl (λ q. refl) h in
        if_cases (λ t. Owned top (λ k. weight k t + others k))
          (leb (add64 top (align_up size)) address_offset_max)
          (λ e.
            if_cases (λ t. Owned top (λ k. weight k t + others k))
              (ltb page_end (add64 top (align_up size))) (λ e'. failed)
              (λ e'. quiet (exchanges size top) top others (ground arith) (λ q. refl) h))
          (λ e. failed)

    -- The thread that moves the top gets the bytes between the old and the new one.
    moved :
        (size top : ℕ) (others : Option ℕ → ℕ)
        → align_up size ≤ address_offset_max
        → top + align_up size ≤ page_end
        → Owned top others
        → Owned (top + align_up size) (λ k. weight k (allocated size top) + others k)
    unfolding weight has_byte misplaced
    moved size top others small fits h = record {
      from_start = omega (arith, h.from_start);
      to_end = fits;
      placed = omega (arith, h.placed);
      once = λ q. ground (arith, h.once q, h.free_above q);
      free_above = λ q above. ground (arith, h.free_above q);
      none_below = λ q below. ground (arith, h.none_below q below, h.from_start);
    }

    alloc_step-Owned :
        (t : Attempt) (a : Unit {0}) (top : ℕ) (others : Option ℕ → ℕ)
        → Owned top (λ k. weight k t + others k)
        → let (t', top') = alloc_step align_up address_offset_max page_end t a top in
          Owned top' (λ k. weight k t' + others k)
    unfolding alloc_step weight misplaced
    alloc_step-Owned (reads size) a top others h =
        tried size top others (ground (arith, h.placed)) (others_Owned (reads size) top others h)
    alloc_step-Owned (exchanges size addr) a top others h =
        let small : align_up size ≤ address_offset_max = ground (arith, h.placed) in
        let rest = others_Owned (exchanges size addr) top others h in
        elim (Bool-cases (top == addr)) [
          | inl e ↦
              let same : addr ≡ top = ground arith in
              let sum : add64 addr (align_up size) ≡ top + align_up size =
                omega (words, h.to_end) in
              let fits : top + align_up size ≤ page_end = ground (arith, h.placed, sum) in
              rw (e, sum, same) (moved size top others small fits rest)
          | inr e ↦ rw e (tried size top others small rest)
        ]
    alloc_step-Owned (allocated size addr) a top others h = h
    alloc_step-Owned fails a top others h = h

    all_reads-Owned :
        (sizes : List ℕ)
        → All (λ size. align_up size ≤ address_offset_max) sizes
        → old_top ≤ page_end
        → Owned old_top (λ k. total (weight k) (map reads sizes))
    unfolding misplaced has_byte
    all_reads-Owned [] h le = record {
      from_start = omega arith;
      to_end = le;
      placed = refl;
      once = λ q. omega arith;
      free_above = λ q above. refl;
      none_below = λ q below. refl;
    }
    all_reads-Owned (size ∷ sizes) h le =
        quiet (reads size) old_top (λ k. total (weight k) (map reads sizes)) (ground arith)
          (λ q. refl) (all_reads-Owned sizes h.1 le)

    -- Threads that allocate objects of these sizes in one page by `alloc_object_atomic`, in any
    -- interleaving, where no rounded size is above the largest offset two offsets do not add up to
    -- more than a word, and the page ends at an offset. The top stays between the old top and the
    -- end of the page. A byte is in the objects of at most one thread, and no byte below the old
    -- top or from the new one on is in any.
    pub run-OwnBytes :
        (steps : List (ℕ × Unit {0})) (sizes : List ℕ)
        → All (λ size. align_up size ≤ address_offset_max) sizes
        → old_top ≤ page_end
        → let (threads, top) =
            run_in
              (alloc_step align_up address_offset_max page_end)
              steps
              (map reads sizes)
              old_top in
          (old_top ≤ top)
          × (top ≤ page_end)
          × ((q : ℕ)
              → (total (has_byte align_up q) threads ≤ 1)
                × ((q < old_top) ⊎ (top ≤ q) → total (has_byte align_up q) threads ≡ 0))
    unfolding weight
    run-OwnBytes steps sizes small le =
        let h =
          run_in-Inv (alloc_step align_up address_offset_max page_end) weight Owned alloc_step-Owned
            steps (map reads sizes) old_top (all_reads-Owned sizes small le) in
        (
          h.from_start,
          h.to_end,
          λ q. (
            h.once q,
            λ out. elim out [ inl below ↦ h.none_below q below | inr above ↦ h.free_above q above ],
          ),
        )

    try_top_fits :
        (size top : ℕ)
        → top + align_up size ≤ page_end
        → try_top align_up address_offset_max page_end size top ≡ exchanges size top
    unfolding try_top
    try_top_fits size top fits =
        let sum : add64 top (align_up size) ≡ top + align_up size = omega words in
        rw sum (ground arith)

    try_top_full :
        (size top : ℕ)
        → align_up size ≤ address_offset_max
        → top ≤ page_end
        → page_end < top + align_up size
        → try_top align_up address_offset_max page_end size top ≡ fails
    unfolding try_top
    try_top_full size top small le full =
        let sum : add64 top (align_up size) ≡ top + align_up size = omega words in
        rw sum (ground arith)

    alone_fits :
        (size top : ℕ) (a : Unit {0})
        → top + align_up size ≤ page_end
        → run_in
            (alloc_step align_up address_offset_max page_end)
            ((0, a) ∷ (0, a) ∷ [])
            (reads size ∷ [])
            top
          ≡ (allocated size top ∷ [], top + align_up size)
    unfolding run_in step_in alloc_step
    alone_fits size top a fits =
        let sum : add64 top (align_up size) ≡ top + align_up size = omega words in
        let same : (top == top) ≡ true = ground arith in
        rw (try_top_fits size top fits, same, sum) refl

    alone_full :
        (size top : ℕ) (a : Unit {0})
        → align_up size ≤ address_offset_max
        → top ≤ page_end
        → page_end < top + align_up size
        → run_in
            (alloc_step align_up address_offset_max page_end)
            ((0, a) ∷ (0, a) ∷ [])
            (reads size ∷ [])
            top
          ≡ (fails ∷ [], top)
    unfolding run_in step_in alloc_step
    alone_full size top a small le full = rw (try_top_full size top small le full) refl

    alloc_object_lem :
        (size top : ℕ)
        → align_up size ≤ address_offset_max
        → top ≤ page_end
        → alloc_object align_up address_offset_max page_end size top ≡ (
            if leb (top + align_up size) page_end
            then (some top, top + align_up size)
            else (none, top))
    unfolding alloc_object
    alloc_object_lem size top small le =
        let sum : add64 top (align_up size) ≡ top + align_up size = omega words in
        rw sum (ground arith)

    -- A thread that no other interferes with, under the same conditions, is through after two steps
    -- of `alloc_object_atomic`. It has the bytes at the top, which moves behind them, if the
    -- rounded size fits in the page, and it fails without a change if not. `alloc_object` does the
    -- same.
    pub alone_allocates :
        (size top : ℕ) (a : Unit {0})
        → align_up size ≤ address_offset_max
        → top ≤ page_end
        → (run_in
              (alloc_step align_up address_offset_max page_end)
              ((0, a) ∷ (0, a) ∷ [])
              (reads size ∷ [])
              top
            ≡ (if leb (top + align_up size) page_end
                then (allocated size top ∷ [], top + align_up size)
                else (fails ∷ [], top)))
          × (alloc_object align_up address_offset_max page_end size top ≡ (
              if leb (top + align_up size) page_end
              then (some top, top + align_up size)
              else (none, top)))
    alone_allocates size top a small le = (
      elim (Bool-cases (leb (top + align_up size) page_end)) [
        | inl e ↦ rw e (alone_fits size top a (ground arith))
        | inr e ↦ rw e (alone_full size top a small le (ground arith))
      ],
      alloc_object_lem size top small le,
    )
