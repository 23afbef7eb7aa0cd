-- ===== src/PageAllocator/Safety.antt =====
-- That the accounts of zPageAllocator.cpp add up in every run.
use zgc_primax.Base.{refl, none, some, List, [], ◌∷◌, All, extract, Extracted, extract-Extracted}
use zgc_primax.PageCache.{Platform}
use zgc_primax.PageAllocator.Finalize.{alloc_page_finalize, alloc_page_finalize-FinalOutcome}
use zgc_primax.PageAllocator.Grants.{IsWaiting, IsGranted, with_stalled}
use zgc_primax.PageAllocator.Returns.{IsFitIn}
use zgc_primax.PageAllocator.World.{
  World, Action, allocates, finalizes, frees, frees_several, promotes, uncommits_some,
  ends_uncommit, fails_stalled, advance, run, finalized,
}
use zgc_primax.PageAllocator.Safe.{
  IsSafe, SafeSome, allocates-SafeSome, finalizes-SafeSome, frees-SafeSome, frees_several-SafeSome,
  promotes-SafeSome, uncommits-SafeSome, ends_uncommit-SafeSome, notify_out_of_memory-All,
}
use zgc_primax.PageAllocator.Uncommits.{uncommit_flush-ClaimOutcome}
use zgc_primax.PageAllocator.Sections.{uncommit_flush}

module _ (o : Platform) where
  -- The requests that come in have no pages, and a size that fits their type.
  abbrev pub IsLegal : Action → Type 0
  IsLegal (allocates now r) = IsWaiting o r
  IsLegal _ = Unit

  pub advance-SafeSome :
      (x : Action) (w : World) → IsLegal x → IsSafe o w → SafeSome o (advance o x w)
  unfolding advance
  advance-SafeSome (allocates now r) w legal h = allocates-SafeSome o now r w legal h
  advance-SafeSome (finalizes i now middle lowest start limit id) w legal h =
      elim (extract i w.granted)
          as (λ x.
            Extracted (IsGranted o) w.granted x
            → SafeSome o (finalized o now middle lowest start limit id w x)) [
              | none ↦ λ t. h
              | some (r, rest) ↦ λ t.
                  finalizes-SafeSome o now id r rest
                    (alloc_page_finalize o middle lowest start limit r) w h t.0 t.1
                    (t.2 (λ r. r.size))
                    (alloc_page_finalize-FinalOutcome o middle lowest start limit r t.0)
            ]
        (extract-Extracted (IsGranted o) i w.granted h.granted)
  advance-SafeSome (frees i now) w legal h =
      frees-SafeSome o now w (extract i w.pages) h (extract-Extracted (IsFitIn o) i w.pages h.pages)
  advance-SafeSome (frees_several n now) w legal h = frees_several-SafeSome o n now w h
  advance-SafeSome (promotes i) w legal h =
      promotes-SafeSome o w (extract i w.pages) h (extract-Extracted (IsFitIn o) i w.pages h.pages)
  advance-SafeSome (uncommits_some now delay granule) w legal h =
      uncommits-SafeSome o now delay granule w (uncommit_flush o now delay granule w.allocator) h
        (uncommit_flush-ClaimOutcome o now delay granule w.allocator h.balanced)
  advance-SafeSome ends_uncommit w legal h = ends_uncommit-SafeSome o w w.uncommits refl h
  advance-SafeSome (fails_stalled old_seqnum) w legal h = record {
    balanced = with_stalled o w.allocator _ h.balanced;
    queue = notify_out_of_memory-All o (IsWaiting o) old_seqnum w.allocator.stalled h.queue;
    granted = h.granted;
    pages = h.pages;
    used = h.used;
    used_young = h.used_young;
    used_old = h.used_old;
    claimed = h.claimed;
  }

  -- In every run in which the requests that come in have no pages and a size that fits their type, no
  -- assertion fails, and if the accounts add up in the beginning then they do in the end: the capacity
  -- is what is used, what is claimed and what the cache has, it is within the current limit and that
  -- within the one of the start; what is used is what is handed out and granted, for each generation
  -- what its pages have, and what is claimed is what is being uncommitted.
  pub run-SafeSome :
      (xs : List Action) (w : World) → All IsLegal xs → IsSafe o w → SafeSome o (run o xs w)
  unfolding run
  run-SafeSome [] w legal h = h
  run-SafeSome (x ∷ xs) w legal h =
      elim (advance o x w)
          as (λ r. SafeSome o r → SafeSome o (elim r [ none ↦ none | some w' ↦ run o xs w' ])) [
            | none ↦ λ t. t
            | some w' ↦ λ t. run-SafeSome xs w' legal.1 t
          ]
        (advance-SafeSome x w legal.0 h)
