-- ===== src/PageCache/Held.antt =====
-- What the lists of zPageCache.cpp hold, and what taking a page out of them does.
use zgc_primax.Base.{
  ℕ, zero, suc, ◌+◌, ◌-◌, ◌≤◌, ◌<◌, ◌≡◌, refl, Option, none, some, List, [], ◌∷◌, All, total,
  length, arith, leb, ◌==◌, if◌then◌else◌, if_cases,
}
use zgc_primax.PageCache.{
  Page, remove_first, remove_first_of, alloc_small_remote, alloc_small_page, alloc_large_page,
  alloc_oversized_large_page, insert_first_of,
}

-- What a search that may take a page with `Q` out of a list of pages with `P` has done.
unfoldable pub Took :
    (Page → ℕ) → (Page → Type 0) → (Page → Type 0) → List Page → Option (Page × List Page) → Type 0
Took f P Q l none = Unit
Took f P Q l (some (p, l')) = Q p × All P l' × (total f l ≡ f p + total f l')

module _ (f : Page → ℕ) (P : Page → Type 0) where
  unfoldable pub TookOf : List (List Page) → Option (Page × List (List Page)) → Type 0
  TookOf ls none = Unit
  TookOf ls (some (p, ls')) =
      P p
      × All (All P) ls'
      × (total (total f) ls ≡ f p + total (total f) ls')
      × (length ls' ≡ length ls)

  pub remove_first-Took : (l : List Page) → All P l → Took f P P l (remove_first l)
  unfolding Took
  remove_first-Took [] h = tt
  remove_first-Took (p ∷ rest) h = (h.0, h.1, refl)

  remove_first_of-TookOf :
      (i : ℕ) (ls : List (List Page)) → All (All P) ls → TookOf ls (remove_first_of i ls)
  unfolding remove_first_of TookOf
  remove_first_of-TookOf i [] h = tt
  remove_first_of-TookOf zero ([] ∷ ls) h = tt
  remove_first_of-TookOf zero ((p ∷ l) ∷ ls) h = (h.0.0, (h.0.1, h.1), omega arith, refl)
  remove_first_of-TookOf (suc i) (l ∷ ls) h =
      elim (remove_first_of i ls)
          as (λ o.
            TookOf ls o
            → TookOf (l ∷ ls) (elim o [ none ↦ none | some (p, ls') ↦ some (p, l ∷ ls') ])) [
              | none ↦ λ t. tt
              | some (p, ls') ↦ λ t. (t.0, (h.0, t.1), omega (arith, t.2), omega (arith, t.3))
            ]
        (remove_first_of-TookOf i ls h.1)

  or_TookOf :
      (ls : List (List Page)) (a b : Option (Page × List (List Page)))
      → TookOf ls a
      → TookOf ls b
      → TookOf ls (elim a [ some r ↦ some r | none ↦ b ])
  or_TookOf ls none b ta tb = tb
  or_TookOf ls (some r) b ta tb = ta

  alloc_small_remote-TookOf :
      (k remote : ℕ) (ls : List (List Page))
      → All (All P) ls
      → TookOf ls (alloc_small_remote k remote ls)
  unfolding alloc_small_remote TookOf
  alloc_small_remote-TookOf zero remote ls h = tt
  alloc_small_remote-TookOf (suc k) remote ls h =
      let id = if remote == length ls then 0 else remote in
      or_TookOf ls (remove_first_of id ls) (alloc_small_remote k (id + 1) ls)
        (remove_first_of-TookOf id ls h) (alloc_small_remote-TookOf k (id + 1) ls h)

  pub alloc_small_page-TookOf :
      (id : ℕ) (ls : List (List Page)) → All (All P) ls → TookOf ls (alloc_small_page id ls)
  unfolding alloc_small_page
  alloc_small_page-TookOf id ls h =
      or_TookOf ls (remove_first_of id ls) (alloc_small_remote (length ls - 1) (id + 1) ls)
        (remove_first_of-TookOf id ls h) (alloc_small_remote-TookOf (length ls - 1) (id + 1) ls h)

  pub insert_first_of_lem :
      (i : ℕ) (p : Page) (ls : List (List Page))
      → i < length ls
      → P p
      → All (All P) ls
      → All (All P) (insert_first_of i p ls)
        × (total (total f) (insert_first_of i p ls) ≡ f p + total (total f) ls)
        × (length (insert_first_of i p ls) ≡ length ls)
  unfolding insert_first_of
  insert_first_of_lem i p [] lt pp h = absurd (omega arith)
  insert_first_of_lem zero p (l ∷ ls) lt pp h = (((pp, h.0), h.1), omega arith, refl)
  insert_first_of_lem (suc i) p (l ∷ ls) lt pp h =
      let r = insert_first_of_lem i p ls (omega arith) pp h.1 in
      ((h.0, r.0), omega (arith, r.1), omega (arith, r.2))

later_Took :
    (f : Page → ℕ) (P Q : Page → Type 0) (p : Page) (rest : List Page)
    (r : Option (Page × List Page))
    → P p
    → Took f P Q rest r
    → Took f P Q (p ∷ rest) (elim r [ none ↦ none | some (x, l) ↦ some (x, p ∷ l) ])
unfolding Took
later_Took f P Q p rest none h t = tt
later_Took f P Q p rest (some (x, l)) h t = (t.0, (h, t.1), omega (arith, t.2))

-- The searches that compare the size of a page.
module _ (f : Page → ℕ) (P : Page → Type 0) (size : ℕ) where
  pub alloc_large_page-Took :
      (l : List Page) → All P l → Took f P (λ p. P p × (p.size ≡ size)) l (alloc_large_page size l)
  unfolding alloc_large_page Took
  alloc_large_page-Took [] h = tt
  alloc_large_page-Took (p ∷ rest) h =
      if_cases (Took f P (λ q. P q × (q.size ≡ size)) (p ∷ rest)) (size == p.size)
        (λ found. ((h.0, ground arith), h.1, refl))
        (λ other.
          later_Took f P (λ q. P q × (q.size ≡ size)) p rest (alloc_large_page size rest) h.0
            (alloc_large_page-Took rest h.1))

  pub alloc_oversized_large_page-Took :
      (l : List Page)
      → All P l
      → Took f P (λ p. P p × (size ≤ p.size)) l (alloc_oversized_large_page size l)
  unfolding alloc_oversized_large_page Took
  alloc_oversized_large_page-Took [] h = tt
  alloc_oversized_large_page-Took (p ∷ rest) h =
      if_cases (Took f P (λ q. P q × (size ≤ q.size)) (p ∷ rest)) (leb size p.size)
        (λ found. ((h.0, ground arith), h.1, refl))
        (λ other.
          later_Took f P (λ q. P q × (size ≤ q.size)) p rest (alloc_oversized_large_page size rest)
            h.0 (alloc_oversized_large_page-Took rest h.1))

  -- A search for an oversized page finds nothing only if there is nothing.
  pub none_oversized :
      (l : List Page) → alloc_oversized_large_page size l ≡ none → All (λ p. p.size < size) l
  unfolding alloc_oversized_large_page
  none_oversized [] h = tt
  none_oversized (p ∷ rest) h = (ground arith, none_oversized rest (ground arith))
