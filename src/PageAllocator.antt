-- ===== src/PageAllocator.antt =====
-- The accounts of zPageAllocator.cpp: how the allocator grants, takes back and uncommits memory under its
-- lock. Here are its state and the counters; Sections has what runs under the lock. What the operating system and the
-- physical and virtual memory answer, the time and the sequence numbers of the generations are arguments.
-- `none` is an assertion that fails in the page cache.
pub mod Sections
pub mod Finalize
pub mod World
pub mod Balance
pub mod Accounts
pub mod Grants
pub mod Returns
pub mod Uncommits
pub mod Safe
pub mod Safety
pub mod Start
pub mod Stalls
mod Tests
use zgc_primax.Base.{
  ℕ, zero, suc, ◌+◌, ◌-◌, ◌*◌, ◌/◌, ◌^◌, min, Bool, true, false, not, ◌&&◌, Option, none, some,
  List, [], ◌∷◌, ◌++◌, ltb, leb, ◌==◌, if◌then◌else◌, total, add64, sub64,
}
use zgc_primax.PageCache.{PageType, Page, Cache, Platform, alloc_page, free_page, set_last_commit}
use zgc_primax.PageCache.Flush.{flush_for_allocation, flush_for_uncommit}

-- `ZGenerationId`
pub data GenerationId : Type 0 where
  young old : GenerationId

-- A request, `ZPageAllocation`, with the pages that it has got.
pub record Allocation : Type 0 where
  pub type : PageType
  pub size : ℕ
  pub non_blocking : Bool
  pub young_seqnum : ℕ
  pub old_seqnum : ℕ
  pub pages : List Page

-- The `_collection_stats` of a generation.
pub record CollectionStats : Type 0 where
  pub used_high : ℕ
  pub used_low : ℕ

-- `ZPageAllocator`
pub record Allocator : Type 0 where
  pub cache : Cache
  pub min_capacity : ℕ
  pub max_capacity : ℕ
  pub current_max_capacity : ℕ
  pub capacity : ℕ
  pub claimed : ℕ
  pub used : ℕ
  pub used_young : ℕ
  pub used_old : ℕ
  pub young_stats : CollectionStats
  pub old_stats : CollectionStats
  pub stalled : List Allocation

abbrev pub empty_lists : ℕ → List (List Page)
empty_lists zero = []
empty_lists (suc n) = [] ∷ empty_lists n

-- The constructor: nothing has been allocated. There is a list of small pages for each of the nodes.
pub create : (nodes : ℕ) → (min_capacity max_capacity : ℕ) → Allocator
create nodes min_capacity max_capacity = record {
  cache = record {
    small_pages = empty_lists nodes;
    medium_pages = [];
    large_pages = [];
    last_commit = 0;
  };
  min_capacity = min_capacity;
  max_capacity = max_capacity;
  current_max_capacity = max_capacity;
  capacity = 0;
  claimed = 0;
  used = 0;
  used_young = 0;
  used_old = 0;
  young_stats = record { used_high = 0; used_low = 0 };
  old_stats = record { used_high = 0; used_low = 0 };
  stalled = [];
}

-- `soft_max_capacity`, with SoftMaxHeapSize.
pub soft_max_capacity : ℕ → Allocator → ℕ
soft_max_capacity soft a = min soft a.current_max_capacity

-- `unused`, with the signed numbers written out.
pub unused : Allocator → ℕ
unused a = a.capacity - a.used - a.claimed

-- `reset_statistics`
pub reset_statistics : GenerationId → Allocator → Allocator
reset_statistics young a = record a {
  young_stats = record { used_high = a.used; used_low = a.used };
}
reset_statistics old a = record a { old_stats = record { used_high = a.used; used_low = a.used } }

-- `increase_capacity` at the time `now`: how much, and the allocator.
pub increase_capacity : ℕ → ℕ → Allocator → ℕ × Allocator
unfolding sub64 add64 set_last_commit
increase_capacity now size a =
    let increased = min size (sub64 a.current_max_capacity a.capacity) in
    if ltb 0 increased
    then (
      increased,
      record a { capacity = add64 a.capacity increased; cache = set_last_commit now a.cache },
    )
    else (increased, a)

-- `decrease_capacity`
pub decrease_capacity : ℕ → Bool → Allocator → Allocator
unfolding sub64
decrease_capacity size set_max_capacity a =
    let capacity = sub64 a.capacity size in
    if set_max_capacity
    then record a { capacity = capacity; current_max_capacity = capacity }
    else record a { capacity = capacity }

abbrev raise_high : ℕ → CollectionStats → CollectionStats
raise_high used s = if ltb s.used_high used then record s { used_high = used } else s

abbrev lower_low : ℕ → CollectionStats → CollectionStats
lower_low used s = if ltb used s.used_low then record s { used_low = used } else s

-- `increase_used`
pub increase_used : ℕ → Allocator → Allocator
unfolding add64
increase_used size a =
    let used = add64 a.used size in
    record a {
      used = used;
      young_stats = raise_high used a.young_stats;
      old_stats = raise_high used a.old_stats;
    }

-- `decrease_used`
pub decrease_used : ℕ → Allocator → Allocator
unfolding sub64
decrease_used size a =
    let used = sub64 a.used size in
    record a {
      used = used;
      young_stats = lower_low used a.young_stats;
      old_stats = lower_low used a.old_stats;
    }

-- `increase_used_generation`
pub increase_used_generation : GenerationId → ℕ → Allocator → Allocator
unfolding add64
increase_used_generation young size a = record a { used_young = add64 a.used_young size }
increase_used_generation old size a = record a { used_old = add64 a.used_old size }

-- `decrease_used_generation`
pub decrease_used_generation : GenerationId → ℕ → Allocator → Allocator
unfolding sub64
decrease_used_generation young size a = record a { used_young = sub64 a.used_young size }
decrease_used_generation old size a = record a { used_old = sub64 a.used_old size }

-- `promote_used`
pub promote_used : ℕ → Allocator → Allocator
unfolding increase_used_generation decrease_used_generation
promote_used size a = increase_used_generation old size (decrease_used_generation young size a)

-- `is_alloc_allowed`
pub is_alloc_allowed : ℕ → Allocator → Bool
unfolding sub64
is_alloc_allowed size a = leb size (sub64 (sub64 a.current_max_capacity a.used) a.claimed)
