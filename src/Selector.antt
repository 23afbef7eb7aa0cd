-- ===== src/Selector.antt =====
-- The selection of pages to relocate in a group of pages of one type, zRelocationSetSelector.cpp and
-- zRelocationSetSelector.inline.hpp. The two computations with floating-point numbers are arguments: the pages
-- that some bytes of objects need, and whether a candidate set frees enough more than the one selected last.
pub mod Reclaim
pub mod Register
pub mod Select
pub mod SemiSort
mod Tests
use zgc_primax.Base.{
  ℕ, zero, suc, ◌+◌, ◌-◌, ◌*◌, ◌/◌, ◌^◌, Bool, true, false, not, ◌&&◌, ◌==◌, ltb, if◌then◌else◌,
  Option, none, some, List, [], ◌∷◌, ◌++◌, length, set, sub64,
}
use zgc_primax.JsMalloc.{ilog2}
use zgc_primax.PageCache.{PageType, small, medium, large}

-- `ZPageAgeMax`, the age of an old page.
abbrev pub page_age_max : ℕ
page_age_max = 15

-- What the selection reads of a page. `nentries` is ZForwarding::nentries.
pub record Page : Type 0 where
  pub size : ℕ
  pub live_bytes : ℕ
  pub nentries : ℕ
  pub age : ℕ

unfoldable pub is_young : Page → Bool
is_young p = not (p.age == page_age_max)

pub record GroupStats : Type 0 where
  pub npages_candidates : ℕ
  pub total : ℕ
  pub live : ℕ
  pub empty : ℕ
  pub npages_selected : ℕ
  pub relocate : ℕ

pub record Group : Type 0 where
  pub page_type : PageType
  pub page_size : ℕ
  pub page_fragmentation_limit : ℕ
  pub live_pages : List Page
  pub not_selected_pages : List Page
  pub forwarding_entries : ℕ
  pub stats : ℕ → GroupStats

unfoldable pub is_large : PageType → Bool
is_large large = true
is_large small = false
is_large medium = false

-- An array of numbers, written at one place.
unfoldable pub at_put {ℓ} : {A : Type ℓ} → (ℕ → A) → ℕ → A → ℕ → A
at_put array i value j = if i == j then value else array j

unfoldable pub append_if_young : Page → List Page → List Page
append_if_young p pages = if is_young p then pages ++ p ∷ [] else pages

unfoldable pub register_live_page : Page → Group → Group
register_live_page p g =
    let garbage : ℕ = sub64 p.size p.live_bytes in
    let candidate = not (is_large g.page_type) && ltb g.page_fragmentation_limit garbage in
    let s = g.stats p.age in
    record g {
      live_pages = if candidate then g.live_pages ++ p ∷ [] else g.live_pages;
      not_selected_pages =
          if candidate then g.not_selected_pages else append_if_young p g.not_selected_pages;
      stats = at_put g.stats p.age (record s {
        npages_candidates = s.npages_candidates + 1;
        total = s.total + p.size;
        live = s.live + p.live_bytes;
      });
    }

unfoldable pub register_empty_page : Page → Group → Group
register_empty_page p g =
    let s = g.stats p.age in
    record g {
      stats = at_put g.stats p.age (record s {
        npages_candidates = s.npages_candidates + 1;
        total = s.total + p.size;
        empty = s.empty + p.size;
      });
    }

-- `npartitions`.
abbrev pub npartitions_shift : ℕ
npartitions_shift = 11

-- `live_bytes() >> partition_size_shift`.
unfoldable pub partition_of : ℕ → Page → ℕ
partition_of page_size p = p.live_bytes / 2 ^ ilog2 64 (page_size / 2 ^ npartitions_shift)

module _ (index : Page → ℕ) where
  -- The pages of each partition are counted.
  unfoldable pub count_slots : List Page → (ℕ → ℕ) → ℕ → ℕ
  count_slots [] partitions = partitions
  count_slots (p ∷ ps) partitions =
      count_slots ps (at_put partitions (index p) (partitions (index p) + 1))

  -- Each page goes to the finger of its partition, which moves on.
  unfoldable pub place_pages : List Page → (ℕ → ℕ) → List (Option Page) → List (Option Page)
  place_pages [] partitions sorted = sorted
  place_pages (p ∷ ps) partitions sorted =
      place_pages ps (at_put partitions (index p) (partitions (index p) + 1))
        (set sorted (partitions (index p)) (some p))

-- The counts of `n` partitions from `i` on become the places where they begin.
unfoldable pub set_fingers : ℕ → ℕ → ℕ → (ℕ → ℕ) → ℕ → ℕ
set_fingers zero i finger partitions = partitions
set_fingers (suc n) i finger partitions =
    set_fingers n (suc i) (finger + partitions i) (at_put partitions i finger)

unfoldable pub nulls : ℕ → List (Option Page)
nulls zero = []
nulls (suc n) = none ∷ nulls n

-- The pages of an array of pointers, or `none` if one is null.
unfoldable pub pages_of : List (Option Page) → Option (List Page)
pages_of [] = some []
pages_of (none ∷ ps) = none
pages_of (some p ∷ ps) = elim (pages_of ps) [ none ↦ none | some qs ↦ some (p ∷ qs) ]

unfoldable pub semi_sort_by : (Page → ℕ) → ℕ → List Page → List (Option Page)
semi_sort_by index npartitions pages =
    place_pages index pages (set_fingers npartitions 0 0 (count_slots index pages (λ i. 0)))
      (nulls (length pages))

unfoldable pub semi_sort : ℕ → List Page → Option (List Page)
semi_sort page_size pages =
    pages_of (semi_sort_by (partition_of page_size) (2 ^ npartitions_shift) pages)
