-- ===== src/Selector/Register.antt =====
-- The groups of ZRelocationSetSelector together, zRelocationSetSelector.cpp and its inline.hpp, and what
-- semi_sort relies on: each live page is in one of the partitions.
use zgc_primax.Base.{
  ℕ, suc, ◌*◌, ◌/◌, ◌^◌, ◌≤◌, ◌<◌, ◌≡◌, refl, Bool, true, false, not, ◌&&◌, ltb, leb, Option, none,
  some, List, [], ◌∷◌, ◌++◌, length, All, All-append, sub64, arith, if_cases, dec_lt, total,
}
use zgc_primax.Base.BitSets.{pow_mono}
use native.Mathlib.Nat.{pow-suc, one-le-pow, mod-add-div'}
use zgc_primax.JsMalloc.{ilog2}
use zgc_primax.JsMalloc.Classes.{ilog2_lem}
use zgc_primax.PageCache.{PageType, small, medium, large}
use zgc_primax.Selector.Select.{append_young, select_inner, select_inner-Outcome}
use zgc_primax.Selector.SemiSort.{partitions_from}
use zgc_primax.Selector.{
  Page, Group, is_large, register_live_page, register_empty_page, partition_of, npartitions_shift,
}

-- The loop over live pages, for pages of one group.
unfoldable pub register_live_pages : List Page → Group → Group
register_live_pages [] g = g
register_live_pages (p ∷ ps) g = register_live_pages ps (register_live_page p g)

-- A page with its type.
pub record Registered : Type 0 where
  pub type : PageType
  pub page : Page

pub record Selector : Type 0 where
  pub small_group : Group
  pub medium_group : Group
  pub large_group : Group
  pub empty_pages : List Registered

unfoldable pub in_group : PageType → (Group → Group) → Selector → Selector
in_group small f s = record s { small_group = f s.small_group }
in_group medium f s = record s { medium_group = f s.medium_group }
in_group large f s = record s { large_group = f s.large_group }

unfoldable pub register_live : Registered → Selector → Selector
register_live r s = in_group r.type (register_live_page r.page) s

unfoldable pub register_empty : Registered → Selector → Selector
register_empty r s =
    let s' = in_group r.type (register_empty_page r.page) s in
    record s' { empty_pages = s'.empty_pages ++ r ∷ [] }

unfoldable pub should_free_empty_pages : ℕ → Selector → Bool
should_free_empty_pages bulk s = leb bulk (length s.empty_pages) && ltb 0 (length s.empty_pages)

unfoldable pub clear_empty_pages : Selector → Selector
clear_empty_pages s = record s { empty_pages = [] }

-- The groups are selected from in this order; `none` is a read of a null page.
unfoldable pub select_all : (Group → Option Group) → Selector → Option Selector
select_all select s = elim (select s.large_group) [
  | none ↦ none
  | some l ↦ elim (select s.medium_group) [
    | none ↦ none
    | some m ↦ elim (select s.small_group) [
      | none ↦ none
      | some g ↦ some (record s { large_group = l; medium_group = m; small_group = g })
    ]
  ]
]

ilog2_power : (k : ℕ) → k < 64 → ilog2 64 (2 ^ k) ≡ k
ilog2_power k h =
    let one = one-le-pow k 2 (omega arith) in
    let l =
      ilog2_lem 64 (2 ^ k) one (omega (arith, pow_mono (suc k) 64 (omega arith), pow-suc 2 k)) in
    elim (dec_lt (ilog2 64 (2 ^ k)) k) [
      | yes lt ↦ absurd (
          omega (
            arith,
            l.2,
            pow_mono (suc (ilog2 64 (2 ^ k))) k (omega arith),
            pow-suc 2 (ilog2 64 (2 ^ k)),
          ))
      | no ge ↦ elim (dec_lt k (ilog2 64 (2 ^ k))) [
        | yes gt ↦ absurd (
            omega (arith, l.1, pow_mono (suc k) (ilog2 64 (2 ^ k)) (omega arith), pow-suc 2 k, one))
        | no le ↦ ground arith
      ]
    ]

quotient_lt : (a b g : ℕ) → 1 ≤ g → a < b * g → a / g < b
quotient_lt a b g one h = elim (dec_lt (a / g) b) [
  | yes lt ↦ lt
  | no ge ↦ absurd (omega (arith, mod-add-div' a g, times_mono b (a / g) g (ground arith)))
]
  where
    times_mono : (x y g : ℕ) → x ≤ y → x * g ≤ y * g
    times_mono x y g le = grind arith

no_garbage :
    (size live limit : ℕ) (relocatable : Bool)
    → size ≡ live
    → relocatable && ltb limit (sub64 size live) ≡ true
    → ⊥
unfolding sub64
no_garbage size live limit true e t = ground arith
no_garbage size live limit false e t = ground arith

-- A group of pages whose size has `k` bits beyond those of the partitions.
abbrev pub InPartitions : Group → Type 0
InPartitions g = All (λ p. partition_of g.page_size p < 2 ^ npartitions_shift) g.live_pages

module _ (k : ℕ) (fits : k < 52) where
  partition_bound :
      (p : Page)
      → p.live_bytes < 2 ^ npartitions_shift * 2 ^ k
      → partition_of (2 ^ npartitions_shift * 2 ^ k) p < 2 ^ npartitions_shift
  unfolding partition_of
  partition_bound p h =
      let one = one-le-pow k 2 (omega arith) in
      let size : 2 ^ npartitions_shift * 2 ^ k / 2 ^ npartitions_shift ≡ 2 ^ k = omega arith in
      rw (size, ilog2_power k (omega arith))
        (quotient_lt p.live_bytes (2 ^ npartitions_shift) (2 ^ k) one h)

  -- register_live_page on a page of the group's size, whose live bytes are no more, keeps each live page in one of the
  -- partitions of semi_sort. A page that is all live is no candidate.
  pub register_live_page-InPartitions :
      (p : Page) (g : Group)
      → g.page_size ≡ 2 ^ npartitions_shift * 2 ^ k
      → p.size ≡ g.page_size
      → p.live_bytes ≤ p.size
      → InPartitions g
      → InPartitions (register_live_page p g)
  unfolding register_live_page
  register_live_page-InPartitions p g size same le h =
      if_cases (All (λ p'. partition_of g.page_size p' < 2 ^ npartitions_shift))
        (not (is_large g.page_type) && ltb g.page_fragmentation_limit (sub64 p.size p.live_bytes))
        (λ e. elim (dec_lt p.live_bytes p.size) [
          | yes lt ↦
              All-append (λ p'. partition_of g.page_size p' < 2 ^ npartitions_shift) g.live_pages
                (p ∷ []) h (rw size (partition_bound p (omega (arith, lt, size, same))), tt)
          | no ge ↦ absurd (
              no_garbage p.size p.live_bytes g.page_fragmentation_limit (not (is_large g.page_type))
                (omega arith) e)
        ])
        (λ e. h)

  register_pages-InPartitions :
      (pages : List Page) (g : Group)
      → g.page_size ≡ 2 ^ npartitions_shift * 2 ^ k
      → All (λ p. (p.size ≡ g.page_size) × (p.live_bytes ≤ p.size)) pages
      → InPartitions g
      → InPartitions (register_live_pages pages g)
  unfolding register_live_pages register_live_page
  register_pages-InPartitions [] g size fit h = h
  register_pages-InPartitions (p ∷ ps) g size fit h =
      register_pages-InPartitions ps (register_live_page p g) size fit.1
        (register_live_page-InPartitions p g size fit.0.0 fit.0.1 h)

  register_live_pages-page_size :
      (pages : List Page) (g : Group) → (register_live_pages pages g).page_size ≡ g.page_size
  unfolding register_live_pages register_live_page
  register_live_pages-page_size [] g = refl
  register_live_pages-page_size (p ∷ ps) g =
      register_live_pages-page_size ps (register_live_page p g)

  -- The selection of a group that had no live page, after pages of its size with no more live bytes
  -- than that were registered. It reads no null page, whatever the computations with floating-point
  -- numbers give: the pages it selects, and the others, are the live pages sorted by partition. The
  -- young ones of the others are added to those not selected, in that order, and the forwarding
  -- entries are those of the pages selected.
  pub select_inner-register_live_pages :
      (pages : List Page) (g : Group) (pages_for : ℕ → ℕ)
      (worth : (from selected_from to selected_to : ℕ) → Bool)
      → g.page_size ≡ 2 ^ npartitions_shift * 2 ^ k
      → g.live_pages ≡ []
      → All (λ p. (p.size ≡ g.page_size) × (p.live_bytes ≤ p.size)) pages
      → let registered = register_live_pages pages g in
        (g' : Group) × (others : List Page) × (select_inner pages_for worth registered ≡ some g')
        × (g'.live_pages ++ others
            ≡ partitions_from
                (partition_of g.page_size)
                (2 ^ npartitions_shift)
                0
                registered.live_pages)
        × (g'.not_selected_pages ≡ append_young others registered.not_selected_pages)
        × (g'.forwarding_entries ≡ total (λ p. p.nentries) g'.live_pages)
  select_inner-register_live_pages pages g pages_for worth size none_yet fit =
      let start : InPartitions g = rw none_yet tt in
      let ok = register_pages-InPartitions pages g size fit start in
      let out = select_inner-Outcome pages_for worth (register_live_pages pages g) ok in
      let same = register_live_pages-page_size pages g in
      (out.0, out.1, out.2, rw same at (out.3), out.4, out.5)
