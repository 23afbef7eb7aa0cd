-- ===== src/PageAllocator/World.antt =====
-- The runs of zPageAllocator.cpp: what threads have got from the allocator, and the sections that they
-- run under its lock, in any order.
use zgc_primax.Base.{
  ℕ, zero, suc, Option, none, some, List, [], ◌∷◌, ◌++◌, extract, ◌==◌, if◌then◌else◌,
}
use zgc_primax.PageCache.{Page, Platform}
use zgc_primax.PageAllocator.{
  GenerationId, young, old, Allocation, Allocator, increase_used_generation, promote_used,
}
use zgc_primax.PageAllocator.Finalize.{alloc_page_finalize}
use zgc_primax.PageAllocator.Stalls.{notify_out_of_memory}
use zgc_primax.PageAllocator.Sections.{
  alloc_page_or_stall, free_page_of, free_pages, free_pages_alloc_failed, uncommit_flush,
  uncommit_finish,
}

-- The allocator, the requests that are granted and not yet finalized, the pages that are in use with
-- their generations, and how much is being uncommitted.
pub record World : Type 0 where
  pub allocator : Allocator
  pub granted : List Allocation
  pub pages : List (Page × GenerationId)
  pub uncommits : List ℕ

-- What a thread does. A number at the front says with which request or page; the others are the time and
-- the answers of the system.
pub data Action : Type 0 where
  allocates : (now : ℕ) → Allocation → Action
  finalizes : ℕ → (now middle lowest : ℕ) → (start : Option ℕ) → (limit : ℕ) → GenerationId → Action
  frees : ℕ → (now : ℕ) → Action
  frees_several : ℕ → (now : ℕ) → Action
  promotes : ℕ → Action
  uncommits_some : (now delay granule : ℕ) → Action
  ends_uncommit : Action
  fails_stalled : (old_seqnum : ℕ) → Action

-- What happens to the requests that a section has satisfied.
abbrev pub with_done : World → Option (List Allocation × Allocator) → Option World
with_done w none = none
with_done w (some (done, a)) = some (record w { allocator = a; granted = done ++ w.granted })

-- The end of `alloc_page`: the page is handed out, or the request gives back what it has and starts anew.
unfoldable pub handed_out :
    Platform → ℕ → GenerationId → Allocation → Option Page × List Page → World → Option World
unfolding increase_used_generation free_pages_alloc_failed
handed_out o now id r (some p, rest) w = some (record w {
  allocator = increase_used_generation id r.size w.allocator;
  pages = (record p { last_used = 0 }, id) ∷ w.pages;
})
handed_out o now id r (none, rest) w =
    with_done w (free_pages_alloc_failed o now (record r { pages = rest }) w.allocator)

-- The first pages, and the others.
abbrev pub split_at :
    ℕ → List (Page × GenerationId) → List (Page × GenerationId) × List (Page × GenerationId)
split_at zero ps = ([], ps)
split_at (suc n) [] = ([], [])
split_at (suc n) (p ∷ ps) = (p ∷ (split_at n ps).0, (split_at n ps).1)

module _ (o : Platform) where
  abbrev pub allocated : World → Option (Option Allocation × Allocator) → Option World
  allocated w none = none
  allocated w (some (none, a)) = some (record w { allocator = a })
  allocated w (some (some r, a)) = some (record w { allocator = a; granted = r ∷ w.granted })

  abbrev pub uncommitted : World → Option (List Page × ℕ × ℕ × Allocator) → Option World
  uncommitted w none = none
  uncommitted w (some (pages, flushed, timeout, a)) = some (record w {
    allocator = a;
    uncommits = if flushed == 0 then w.uncommits else (flushed ∷ w.uncommits);
  })

  abbrev pub finalized :
      ℕ
      → ℕ
      → ℕ
      → Option ℕ
      → ℕ
      → GenerationId
      → World
      → Option (Allocation × List Allocation)
      → Option World
  finalized now middle lowest start limit id w none = some w
  finalized now middle lowest start limit id w (some (r, rest)) =
      handed_out o now id r (alloc_page_finalize o middle lowest start limit r)
        (record w { granted = rest })

  abbrev pub freed :
      ℕ → World → Option ((Page × GenerationId) × List (Page × GenerationId)) → Option World
  freed now w none = some w
  freed now w (some ((p, id), rest)) =
      with_done (record w { pages = rest }) (free_page_of o now id p w.allocator)

  abbrev pub promoted :
      World → Option ((Page × GenerationId) × List (Page × GenerationId)) → Option World
  promoted w none = some w
  promoted w (some ((p, old), rest)) = some w
  promoted w (some ((p, young), rest)) =
      some (record w { allocator = promote_used p.size w.allocator; pages = (p, old) ∷ rest })

  abbrev pub finished : World → List ℕ → Option World
  finished w [] = some w
  finished w (flushed ∷ rest) =
      some (record w { allocator = uncommit_finish flushed w.allocator; uncommits = rest })

  -- `none` is an assertion that fails.
  unfoldable pub advance : Action → World → Option World
  unfolding alloc_page_or_stall handed_out free_page_of free_pages promote_used uncommit_flush
      uncommit_finish notify_out_of_memory
  advance (allocates now r) w = allocated w (alloc_page_or_stall o now r w.allocator)
  advance (finalizes i now middle lowest start limit id) w =
      finalized now middle lowest start limit id w (extract i w.granted)
  advance (frees i now) w = freed now w (extract i w.pages)
  advance (frees_several n now) w =
      with_done (record w { pages = (split_at n w.pages).1 })
        (free_pages o now (split_at n w.pages).0 w.allocator)
  advance (promotes i) w = promoted w (extract i w.pages)
  advance (uncommits_some now delay granule) w =
      uncommitted w (uncommit_flush o now delay granule w.allocator)
  advance ends_uncommit w = finished w w.uncommits
  advance (fails_stalled old_seqnum) w = some (record w {
    allocator = record w.allocator {
      stalled = (notify_out_of_memory old_seqnum w.allocator.stalled).1;
    };
  })

  unfoldable pub run : List Action → World → Option World
  unfolding advance
  run [] w = some w
  run (x ∷ xs) w = elim (advance x w) [ none ↦ none | some w' ↦ run xs w' ]
