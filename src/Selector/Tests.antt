-- ===== src/Selector/Tests.antt =====
-- Runs of the selection of pages to relocate on concrete pages.
use zgc_primax.Base.{
  ℕ, ◌+◌, ◌-◌, ◌*◌, ◌/◌, ◌^◌, ◌<◌, ◌≡◌, refl, Bool, true, false, ltb, some, List, [], ◌∷◌, ◌++◌,
  All, total, arith,
}
use zgc_primax.JsMalloc.{ilog2}
use zgc_primax.PageCache.{small}
use zgc_primax.Selector.{
  Page, Group, GroupStats, at_put, partition_of, npartitions_shift, semi_sort,
}
use zgc_primax.Selector.SemiSort.{partitions_from, semi_sort-partitions_from}
use zgc_primax.Selector.Select.{append_young, choose, no_choice, select_inner, choose-undercounts}
use zgc_primax.Selector.Register.{Selector, register_live_pages, select_inner-register_live_pages}
use zgc_primax.Selector.Reclaim.{
  Found, register_pages, garbage_pages, concat, IsBatch, register_pages-Freed,
}

-- A small page of 2 MB with so many live bytes.
abbrev page : ℕ → ℕ → Page
page live age = record { size = 2097152; live_bytes = live; nentries = 2 * live; age = age }

abbrev two_pages : List Page
two_pages = page 5000 0 ∷ page 100 1 ∷ []

abbrev no_stats : GroupStats
no_stats = record {
  npages_candidates = 0;
  total = 0;
  live = 0;
  empty = 0;
  npages_selected = 0;
  relocate = 0;
}

abbrev small_pages : List Page → Group
small_pages pages = record {
  page_type = small;
  page_size = 2097152;
  page_fragmentation_limit = 524288;
  live_pages = pages;
  not_selected_pages = [];
  forwarding_entries = 0;
  stats = λ age. no_stats;
}

-- The pages that hold so many bytes, with objects of at most 256 KB.
abbrev pages_for : ℕ → ℕ
pages_for live = (live + 1835007) / 1835008

-- `diff_reclaimable > _fragmentation_limit` for a limit of 5 percent, with exact fractions: the pages to relocate to
-- are less than 95 percent of the pages that become free.
abbrev worth : ℕ → ℕ → ℕ → ℕ → Bool
worth from selected_from to selected_to =
    ltb (100 * to) (95 * (from - selected_from) + 100 * selected_to)

two_pages-fit : All (λ p. partition_of 2097152 p < 2 ^ npartitions_shift) two_pages
unfolding partition_of ilog2
two_pages-fit = (omega arith, (omega arith, tt))

semi_sort-partitions_from_example :
    semi_sort 2097152 two_pages
    ≡ some (partitions_from (partition_of 2097152) (2 ^ npartitions_shift) 0 two_pages)
semi_sort-partitions_from_example = semi_sort-partitions_from 2097152 two_pages two_pages-fit

choose-undercounts_example :
    let c = choose pages_for worth 1 (page 100 1 ∷ page 5000 0 ∷ []) no_choice in
    (c.selected_from ≡ 2)
    × (c.npages_selected ≡ at_put (λ i. 0) 0 1)
    × (c.selected_live_bytes ≡ at_put (λ i. 0) 0 5000)
choose-undercounts_example =
    choose-undercounts pages_for worth (page 100 1 ∷ []) (page 5000 0) (refl, tt) refl

select_inner-register_live_pages_example :
    let registered = register_live_pages two_pages (small_pages []) in
    (g' : Group) × (others : List Page) × (select_inner pages_for worth registered ≡ some g')
    × (g'.live_pages ++ others
        ≡ partitions_from (partition_of 2097152) (2 ^ npartitions_shift) 0 registered.live_pages)
    × (g'.not_selected_pages ≡ append_young others registered.not_selected_pages)
    × (g'.forwarding_entries ≡ total (λ p. p.nentries) g'.live_pages)
select_inner-register_live_pages_example =
    select_inner-register_live_pages 10 (omega arith) two_pages (small_pages []) pages_for worth
      refl refl ((refl, omega arith), ((refl, omega arith), tt))

abbrev nothing : Selector
nothing = record {
  small_group = small_pages [];
  medium_group = small_pages [];
  large_group = small_pages [];
  empty_pages = [];
}

abbrev two_found : List Found
two_found =
    record {
      registered = record { type = small; page = page 0 0 };
      is_relocatable = true;
      is_marked = false;
    }
    ∷ record {
      registered = record { type = small; page = page 100 1 };
      is_relocatable = true;
      is_marked = true;
    }
    ∷ []

register_pages-Freed_example :
    let r = register_pages two_found nothing in
    (concat r.freed ≡ garbage_pages two_found) × All IsBatch r.freed × (r.selector.empty_pages ≡ [])
register_pages-Freed_example = register_pages-Freed two_found nothing refl
