-- ===== src/PageCache.antt =====
-- The allocation from the cache of free pages in zPageCache.cpp, with the parts of zPage.cpp and
-- zPage.inline.hpp that split and retype a page. The sizes of pages, which start-up code chooses, and
-- the node that memory belongs to, which the operating system knows, are parameters.
pub mod Held
pub mod Search
pub mod Alloc
pub mod Flush
mod Tests
use zgc_primax.Base.{
  ℕ, zero, suc, ◌+◌, ◌-◌, Bool, true, false, Option, none, some, List, [], ◌∷◌, ltb, leb, ◌==◌,
  if◌then◌else◌, length,
}

-- `ZPageType`
pub data PageType : Type 0 where
  small medium large : PageType

-- A free page, the part of `ZPage` that the cache looks at: its virtual memory and its type.
pub record Page : Type 0 where
  pub start : ℕ
  pub size : ℕ
  pub type : PageType
  -- When the page came into the cache, in seconds.
  pub last_used : ℕ

-- `ZPageCache`: the small pages have a list for each node.
pub record Cache : Type 0 where
  pub small_pages : List (List Page)
  pub medium_pages : List Page
  pub large_pages : List Page
  -- In seconds.
  pub last_commit : ℕ

-- ZPageSizeSmall and ZPageSizeMedium, ZNUMA::memory_id and ZNUMA::id.
pub record Platform : Type 0 where
  pub size_small : ℕ
  pub size_medium : ℕ
  pub memory_id : ℕ → ℕ
  pub current_id : ℕ

abbrev pub eq_PageType : PageType → PageType → Bool
eq_PageType small small = true
eq_PageType medium medium = true
eq_PageType large large = true
eq_PageType _ _ = false

-- `ZList::remove_first`
abbrev pub remove_first : List Page → Option (Page × List Page)
remove_first [] = none
remove_first (p ∷ rest) = some (p, rest)

-- The first page of the list of a node.
pub remove_first_of : ℕ → List (List Page) → Option (Page × List (List Page))
remove_first_of i [] = none
remove_first_of zero (l ∷ ls) = elim (remove_first l) [
  | none ↦ none
  | some (p, l') ↦ some (p, l' ∷ ls)
]
remove_first_of (suc i) (l ∷ ls) = elim (remove_first_of i ls) [
  | none ↦ none
  | some (p, ls') ↦ some (p, l ∷ ls')
]

-- The loop over the remote nodes in `alloc_small_page`, with so many to try.
pub alloc_small_remote : ℕ → ℕ → List (List Page) → Option (Page × List (List Page))
unfolding remove_first_of
alloc_small_remote zero remote ls = none
alloc_small_remote (suc k) remote ls =
    let id = if remote == length ls then 0 else remote in
    elim (remove_first_of id ls) [ some r ↦ some r | none ↦ alloc_small_remote k (id + 1) ls ]

pub alloc_small_page : ℕ → List (List Page) → Option (Page × List (List Page))
unfolding remove_first_of alloc_small_remote
alloc_small_page id ls = elim (remove_first_of id ls) [
  | some r ↦ some r
  | none ↦ alloc_small_remote (length ls - 1) (id + 1) ls
]

-- The loop of `alloc_large_page`
pub alloc_large_page : ℕ → List Page → Option (Page × List Page)
alloc_large_page size [] = none
alloc_large_page size (p ∷ rest) =
    let later : Option (Page × List Page) = elim (alloc_large_page size rest) [
      | none ↦ none
      | some (x, l) ↦ some (x, p ∷ l)
    ] in
    if size == p.size then some (p, rest) else later

-- The loop of `alloc_oversized_large_page`
pub alloc_oversized_large_page : ℕ → List Page → Option (Page × List Page)
alloc_oversized_large_page size [] = none
alloc_oversized_large_page size (p ∷ rest) =
    let later : Option (Page × List Page) = elim (alloc_oversized_large_page size rest) [
      | none ↦ none
      | some (x, l) ↦ some (x, p ∷ l)
    ] in
    if leb size p.size then some (p, rest) else later

abbrev pub with_small : Cache → Option (Page × List (List Page)) → Option (Page × Cache)
with_small c none = none
with_small c (some (p, ls)) = some (p, record c { small_pages = ls })

abbrev pub with_medium : Cache → Option (Page × List Page) → Option (Page × Cache)
with_medium c none = none
with_medium c (some (p, l)) = some (p, record c { medium_pages = l })

abbrev pub with_large : Cache → Option (Page × List Page) → Option (Page × Cache)
with_large c none = none
with_large c (some (p, l)) = some (p, record c { large_pages = l })

-- The page is put in front of the list of a node. There are lists for all nodes.
pub insert_first_of : ℕ → Page → List (List Page) → List (List Page)
insert_first_of i p [] = []
insert_first_of zero p (l ∷ ls) = (p ∷ l) ∷ ls
insert_first_of (suc i) p (l ∷ ls) = l ∷ insert_first_of i p ls

module _ (o : Platform) where
  -- `ZPage::type_from_size`
  abbrev pub type_from_size : ℕ → PageType
  type_from_size size =
      if size == o.size_small then small else (if size == o.size_medium then medium else large)

  -- `free_page`
  pub free_page : Page → Cache → Cache
  unfolding insert_first_of
  free_page p c = elim p.type [
    | small ↦ record c { small_pages = insert_first_of (o.memory_id p.start) p c.small_pages }
    | medium ↦ record c { medium_pages = p ∷ c.medium_pages }
    | large ↦ record c { large_pages = p ∷ c.large_pages }
  ]

  -- The exact page that `alloc_page` tries first.
  pub alloc_exact : PageType → ℕ → Cache → Option (Page × Cache)
  unfolding alloc_small_page alloc_large_page
  alloc_exact small size c = with_small c (alloc_small_page o.current_id c.small_pages)
  alloc_exact medium size c = with_medium c (remove_first c.medium_pages)
  alloc_exact large size c = with_large c (alloc_large_page size c.large_pages)

  -- `alloc_oversized_page`, with `alloc_oversized_medium_page`
  pub alloc_oversized_page : ℕ → Cache → Option (Page × Cache)
  unfolding alloc_oversized_large_page
  alloc_oversized_page size c =
      elim (with_large c (alloc_oversized_large_page size c.large_pages)) [
        | some r ↦ some r
        | none ↦
            if leb size o.size_medium then with_medium c (remove_first c.medium_pages) else none
      ]

  -- `ZPage::split`: the new page, and what is left of the old one.
  abbrev pub split : PageType → ℕ → Page → Page × Page
  split type size p = (
    record { start = p.start; size = size; type = type; last_used = 0 },
    record {
      start = p.start + size;
      size = p.size - size;
      type = type_from_size (p.size - size);
      last_used = 0;
    },
  )

  -- What `alloc_page` does with an oversized page. `none` is the assertion of `ZPage::retype`.
  pub use_oversized : PageType → ℕ → Page → Cache → Option (Option Page × Cache)
  unfolding free_page
  use_oversized type size p c =
      if ltb size p.size
      then some (some (split type size p).0, free_page (split type size p).1 c)
      else (if eq_PageType p.type type then none else some (some (record p { type = type }), c))

  -- `alloc_page`: the page, if there is one, and the cache.
  pub alloc_page : PageType → ℕ → Cache → Option (Option Page × Cache)
  unfolding alloc_exact alloc_oversized_page use_oversized
  alloc_page type size c = elim (alloc_exact type size c) [
    | some (p, c') ↦ some (some p, c')
    | none ↦ elim (alloc_oversized_page size c) [
      | none ↦ some (none, c)
      | some (p, c') ↦ use_oversized type size p c'
    ]
  ]

-- `set_last_commit`, with the time rounded up to seconds.
unfoldable pub set_last_commit : ℕ → Cache → Cache
set_last_commit now c = record c { last_commit = now }
