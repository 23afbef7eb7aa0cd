-- ===== src/PageCache/Alloc.antt =====
-- What `alloc_page` and `free_page` of zPageCache.cpp guarantee.
use zgc_primax.Base.{
  ◌∙◌, ap, ◌≤◌, ℕ, ◌+◌, ◌-◌, ◌<◌, ◌≡◌, refl, inl, inr, Option, none, some, All, arith, ltb, ◌==◌,
  if_cases, subst, Option-cases,
}
use zgc_primax.PageCache.{
  PageType, small, medium, large, Page, Cache, Platform, type_from_size, free_page, alloc_exact,
  alloc_oversized_page, split, use_oversized, alloc_page, eq_PageType,
}
use zgc_primax.PageCache.Held.{insert_first_of_lem, none_oversized}
use zgc_primax.PageCache.Search.{
  Measure, byte, bytes, holds, held, IsSmall, IsWf, Fits, Takes, TakesSome, IsUsable,
  exact-TakesSome, oversized-TakesSome,
}

module _ (o : Platform) where
  abbrev pub Frees : Page → Cache → Cache → Type 0
  Frees p c c' = IsWf o c' × ((q : Measure) → held q c' ≡ holds q p + held q c)

  free_at-Frees :
      (start size : ℕ) (type : PageType) (used : ℕ) (c : Cache)
      → Fits o type size
      → IsWf o c
      → let p : Page = record { start = start; size = size; type = type; last_used = used } in
        Frees p c (free_page o p c)
  unfolding free_page
  free_at-Frees start size small used c fits wf =
      let p : Page = record { start = start; size = size; type = small; last_used = used } in
      let r = λ (q : Measure).
        insert_first_of_lem (holds q) (IsSmall o) (o.memory_id start) p c.small_pages
          (wf.nodes start) (refl, fits) wf.smalls in
      (
        record {
          smalls = (r bytes).0;
          mediums = wf.mediums;
          larges = wf.larges;
          nodes = λ x. omega (arith, (r bytes).2, wf.nodes x);
        },
        λ q. omega (arith, (r q).1),
      )
  free_at-Frees start size medium used c fits wf = (
    record {
      smalls = wf.smalls;
      mediums = ((refl, fits), wf.mediums);
      larges = wf.larges;
      nodes = wf.nodes;
    },
    λ q. omega arith,
  )
  free_at-Frees start size large used c fits wf = (
    record {
      smalls = wf.smalls;
      mediums = wf.mediums;
      larges = (refl, wf.larges);
      nodes = wf.nodes;
    },
    λ q. omega arith,
  )

  -- Freeing a page of a type that fits its size keeps the cache well formed, and puts just the bytes of
  -- the page into it.
  pub free_page-Frees :
      (p : Page) (c : Cache) → Fits o p.type p.size → IsWf o c → Frees p c (free_page o p c)
  free_page-Frees p c fits wf = free_at-Frees p.start p.size p.type p.last_used c fits wf

  pub type_from_size-Fits : (size : ℕ) → Fits o (type_from_size o size) size
  type_from_size-Fits size =
      if_cases (λ t. Fits o t size) (size == o.size_small) (λ h. ground arith)
        (λ h. if_cases (λ t. Fits o t size) (size == o.size_medium) (λ k. ground arith) (λ k. tt))

  -- The outcome of `alloc_page`: no assertion fails, and there is a page as asked for, or the cache is
  -- as before and has no large page of that size or more.
  abbrev pub Outcome : PageType → ℕ → Cache → Option (Option Page × Cache) → Type 0
  Outcome type size c none = ⊥
  Outcome type size c (some (none, c')) = (c' ≡ c) × All (λ p. p.size < size) c.large_pages
  Outcome type size c (some (some p, c')) = (p.type ≡ type) × (p.size ≡ size) × Takes o c p c'

  holds-retype :
      (q : Measure) (type : PageType) (p : Page) → holds q p ≡ holds q (record p { type = type })
  holds-retype (byte q) type p = refl
  holds-retype bytes type p = refl

  -- A split loses no byte.
  pub holds-split :
      (q : Measure) (type : PageType) (size : ℕ) (p : Page)
      → size ≤ p.size
      → holds q p ≡ holds q (split o type size p).0 + holds q (split o type size p).1
  holds-split (byte q) type size p le = ground arith
  holds-split bytes type size p le = ground arith

  use_oversized-Outcome :
      (type : PageType) (size : ℕ) (c : Cache) (p : Page) (c' : Cache)
      → IsUsable o type size p
      → Takes o c p c'
      → Outcome type size c (use_oversized o type size p c')
  unfolding use_oversized
  use_oversized-Outcome type size c p c' u t =
      if_cases (Outcome type size c) (ltb size p.size)
        (λ split_it.
          let rest = (split o type size p).1 in
          let f = free_page-Frees rest c' (type_from_size-Fits (p.size - size)) t.still in
          (
            refl,
            refl,
            record {
              still = f.0;
              conserved = λ q. omega (arith, t.conserved q, f.1 q, holds-split q type size p u.0);
            },
          ))
        (λ whole.
          if_cases (Outcome type size c) (eq_PageType p.type type) (λ same. ground arith)
            (λ other. (
              refl,
              ground arith,
              record {
                still = t.still;
                conserved = λ q. t.conserved q ∙ ap (λ x. x + held q c') (holds-retype q type p);
              },
            )))

  none_oversized_lem :
      (size : ℕ) (c : Cache)
      → alloc_oversized_page o size c ≡ none
      → All (λ p. p.size < size) c.large_pages
  unfolding alloc_oversized_page
  none_oversized_lem size c e =
      none_oversized (λ p. 0) (λ p. Unit) size c.large_pages (ground arith)

  -- For a size that fits its type, `alloc_page` on a well-formed cache fails no assertion. It gives a
  -- page of that type and size, with a well-formed cache such that each byte is in as many pages as
  -- before; or it gives none, the cache is as before, and has no large page of the size or more.
  pub alloc_page-Outcome :
      (type : PageType) (size : ℕ) (c : Cache)
      → Fits o type size
      → IsWf o c
      → Outcome type size c (alloc_page o type size c)
  unfolding alloc_page TakesSome
  alloc_page-Outcome type size c fits wf = elim (Option-cases (alloc_exact o type size c)) [
    | inr ((p, c'), e) ↦
        let t : TakesSome o c (λ p. (p.type ≡ type) × (p.size ≡ size)) (some (p, c')) =
          subst (TakesSome o c (λ p. (p.type ≡ type) × (p.size ≡ size))) e
            (exact-TakesSome o type size c fits wf) in
        rw (e, alloc_page) (t.0.0, t.0.1, t.1)
    | inl e ↦ elim (Option-cases (alloc_oversized_page o size c)) [
      | inl n ↦ rw (e, n, alloc_page) (refl, none_oversized_lem size c n)
      | inr ((p, c'), s) ↦
          let t : TakesSome o c (IsUsable o type size) (some (p, c')) =
            subst (TakesSome o c (IsUsable o type size)) s
              (oversized-TakesSome o type size c wf e) in
          rw (e, s, alloc_page) (use_oversized-Outcome type size c p c' t.0 t.1)
    ]
  ]
