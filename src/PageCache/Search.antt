-- ===== src/PageCache/Search.antt =====
-- What the searches of `alloc_page` in zPageCache.cpp find, exact and oversized.
use zgc_primax.Base.{
  ℕ, ◌+◌, ◌≤◌, ◌<◌, ◌≡◌, ◌≢◌, ◌⊎◌, ◌&&◌, Option, none, some, List, [], ◌∷◌, All, total, length,
  arith, ltb, leb, if◌then◌else◌, if_cases, sym, ◌∙◌, All-map, le_of_leb,
}
use zgc_primax.PageCache.{
  PageType, small, medium, large, Page, Cache, Platform, remove_first, alloc_small_page,
  alloc_large_page, alloc_oversized_large_page, alloc_exact, alloc_oversized_page, with_small,
  with_medium, with_large,
}
use zgc_primax.PageCache.Held.{
  Took, TookOf, remove_first-Took, alloc_small_page-TookOf, alloc_large_page-Took,
  alloc_oversized_large_page-Took,
}

-- What is counted in pages: a byte, or all bytes.
pub data Measure : Type 0 where
  byte : ℕ → Measure
  bytes : Measure

-- Whether the page has the byte, as a number, or how many it has.
abbrev pub holds : Measure → Page → ℕ
holds (byte q) p = if leb p.start q && ltb q (p.start + p.size) then 1 else 0
holds bytes p = p.size

-- How many pages of the cache have the byte, or how many bytes they have.
abbrev pub held : Measure → Cache → ℕ
held q c =
    total (total (holds q)) c.small_pages
    + total (holds q) c.medium_pages
    + total (holds q) c.large_pages

module _ (o : Platform) where
  -- The type fits the list, and the size the type.
  abbrev pub IsSmall : Page → Type 0
  IsSmall p = (p.type ≡ small) × (p.size ≡ o.size_small)

  abbrev pub IsMedium : Page → Type 0
  IsMedium p = (p.type ≡ medium) × (p.size ≡ o.size_medium)

  abbrev pub IsLarge : Page → Type 0
  IsLarge p = p.type ≡ large

  -- There is a list for each node.
  pub record IsWf (c : Cache) : Type 0 where
    pub smalls : All (All IsSmall) c.small_pages
    pub mediums : All IsMedium c.medium_pages
    pub larges : All IsLarge c.large_pages
    pub nodes : (start : ℕ) → o.memory_id start < length c.small_pages

  -- The size of a page that is asked for fits its type.
  abbrev pub Fits : PageType → ℕ → Type 0
  Fits small size = size ≡ o.size_small
  Fits medium size = size ≡ o.size_medium
  Fits large size = Unit

  -- The page and the cache `c'` together have the bytes of `c`, each as often, and as many.
  pub record Takes (c : Cache) (p : Page) (c' : Cache) : Type 0 where
    pub still : IsWf c'
    pub conserved : (q : Measure) → held q c ≡ holds q p + held q c'

  unfoldable pub TakesSome : Cache → (Page → Type 0) → Option (Page × Cache) → Type 0
  TakesSome c Q none = Unit
  TakesSome c Q (some (p, c')) = Q p × Takes c p c'

  medium-TakesSome :
      (c : Cache)
      → IsWf c
      → (Q : Page → Type 0) → ((p : Page) → IsMedium p → Q p)
      → TakesSome c Q (with_medium c (remove_first c.medium_pages))
  unfolding TakesSome Took
  medium-TakesSome c wf Q fit =
      elim (remove_first c.medium_pages)
          as (λ r.
            ((q : Measure) → Took (holds q) IsMedium IsMedium c.medium_pages r)
            → TakesSome c Q (with_medium c r)) [
              | none ↦ λ t. tt
              | some (p, l) ↦ λ t. (
                fit p (t bytes).0,
                record {
                  still = record {
                    smalls = wf.smalls;
                    mediums = (t bytes).1;
                    larges = wf.larges;
                    nodes = wf.nodes;
                  };
                  conserved = λ q. omega (arith, (t q).2);
                },
              )
            ]
        (λ q. remove_first-Took (holds q) IsMedium c.medium_pages wf.mediums)

  large-TakesSome :
      (c : Cache)
      → IsWf c
      → (Q : Page → Type 0) → (r : Option (Page × List Page))
      → ((q : Measure) → Took (holds q) IsLarge Q c.large_pages r)
      → TakesSome c Q (with_large c r)
  unfolding TakesSome Took
  large-TakesSome c wf Q none t = tt
  large-TakesSome c wf Q (some (p, l)) t = (
    (t bytes).0,
    record {
      still = record {
        smalls = wf.smalls;
        mediums = wf.mediums;
        larges = (t bytes).1;
        nodes = wf.nodes;
      };
      conserved = λ q. omega (arith, (t q).2);
    },
  )

  pub exact-TakesSome :
      (type : PageType) (size : ℕ) (c : Cache)
      → Fits type size
      → IsWf c
      → TakesSome c (λ p. (p.type ≡ type) × (p.size ≡ size)) (alloc_exact o type size c)
  unfolding alloc_exact TakesSome Took TookOf
  exact-TakesSome small size c fits wf =
      elim (alloc_small_page o.current_id c.small_pages)
          as (λ r.
            ((q : Measure) → TookOf (holds q) IsSmall c.small_pages r)
            → TakesSome c (λ p. (p.type ≡ small) × (p.size ≡ size)) (with_small c r)) [
              | none ↦ λ t. tt
              | some (p, ls) ↦ λ t. (
                ground (arith, (t bytes).0),
                record {
                  still = record {
                    smalls = (t bytes).1;
                    mediums = wf.mediums;
                    larges = wf.larges;
                    nodes = λ start. omega (arith, (t bytes).3, wf.nodes start);
                  };
                  conserved = λ q. omega (arith, (t q).2);
                },
              )
            ]
        (λ q. alloc_small_page-TookOf (holds q) IsSmall o.current_id c.small_pages wf.smalls)
  exact-TakesSome medium size c fits wf =
      medium-TakesSome c wf (λ p. (p.type ≡ medium) × (p.size ≡ size))
        (λ p m. (m.0, m.1 ∙ sym fits))
  exact-TakesSome large size c fits wf =
      large-TakesSome c wf (λ p. IsLarge p × (p.size ≡ size)) (alloc_large_page size c.large_pages)
        (λ q. alloc_large_page-Took (holds q) IsLarge size c.large_pages wf.larges)

  -- A large page that is not an exact one.
  abbrev IsOther : PageType → ℕ → Page → Type 0
  IsOther type size p = IsLarge p × ((type ≢ large) ⊎ (p.size ≢ size))

  others_lem :
      (type : PageType) (size : ℕ) (l : List Page)
      → All IsLarge l
      → (type ≢ large) ⊎ (alloc_large_page size l ≡ none)
      → All (IsOther type size) l
  unfolding alloc_large_page
  others_lem type size [] h e = tt
  others_lem type size (p ∷ l) h e =
      ((h.0, ground arith), others_lem type size l h.1 (ground arith))

  -- What is known of an oversized page where there is no exact one: it may be retyped if it need not be
  -- split.
  abbrev pub IsUsable : PageType → ℕ → Page → Type 0
  IsUsable type size p = (size ≤ p.size) × ((p.type ≢ type) ⊎ (size < p.size))

  no_exact_large :
      (type : PageType) (size : ℕ) (c : Cache)
      → alloc_exact o type size c ≡ none
      → (type ≢ large) ⊎ (alloc_large_page size c.large_pages ≡ none)
  unfolding alloc_exact
  no_exact_large type size c e = ground arith

  oversized-Took :
      (type : PageType) (size : ℕ) (c : Cache)
      → IsWf c
      → alloc_exact o type size c ≡ none
      → (q : Measure)
      → Took
          (holds q)
          IsLarge
          (IsUsable type size)
          c.large_pages
          (alloc_oversized_large_page size c.large_pages)
  unfolding Took
  oversized-Took type size c wf e q =
      elim (alloc_oversized_large_page size c.large_pages)
          as (λ r.
            Took (holds q) (IsOther type size) (λ p. IsOther type size p × (size ≤ p.size))
              c.large_pages r
            → Took (holds q) IsLarge (IsUsable type size) c.large_pages r) [
              | none ↦ λ t. tt
              | some (p, l) ↦ λ t.
                  (ground (arith, t.0), All-map (IsOther type size) IsLarge l (λ a b. b.0) t.1, t.2)
            ]
        (alloc_oversized_large_page-Took (holds q) (IsOther type size) size c.large_pages
          (others_lem type size c.large_pages wf.larges (no_exact_large type size c e)))

  medium-IsUsable :
      (type : PageType) (size : ℕ) (c : Cache)
      → IsWf c
      → size ≤ o.size_medium
      → alloc_exact o type size c ≡ none
      → TakesSome c (IsUsable type size) (with_medium c (remove_first c.medium_pages))
  unfolding TakesSome alloc_exact
  medium-IsUsable small size c wf le e =
      medium-TakesSome c wf (IsUsable small size) (λ p m. ground arith)
  medium-IsUsable medium size c wf le e = rw e tt
  medium-IsUsable large size c wf le e =
      medium-TakesSome c wf (IsUsable large size) (λ p m. ground arith)

  pub oversized-TakesSome :
      (type : PageType) (size : ℕ) (c : Cache)
      → IsWf c
      → alloc_exact o type size c ≡ none
      → TakesSome c (IsUsable type size) (alloc_oversized_page o size c)
  unfolding alloc_oversized_page TakesSome
  oversized-TakesSome type size c wf e =
      elim (with_large c (alloc_oversized_large_page size c.large_pages))
          as (λ r.
            TakesSome c (IsUsable type size) r
            → TakesSome c (IsUsable type size) (elim r [
              | some x ↦ some x
              | none ↦
                  if leb size o.size_medium
                  then with_medium c (remove_first c.medium_pages)
                  else none
            ])) [
              | some x ↦ λ t. t
              | none ↦ λ t.
                  if_cases (TakesSome c (IsUsable type size)) (leb size o.size_medium)
                    (λ le. medium-IsUsable type size c wf (le_of_leb le) e) (λ gt. tt)
            ]
        (large-TakesSome c wf (IsUsable type size) (alloc_oversized_large_page size c.large_pages)
          (oversized-Took type size c wf e))
