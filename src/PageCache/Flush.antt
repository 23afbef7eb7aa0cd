-- ===== src/PageCache/Flush.antt =====
-- The flushing of zPageCache.cpp: pages leave the cache, the large ones first, then the medium ones, and
-- then the small ones of all nodes in turn, until a closure has what it asks for.
pub mod Lists
pub mod Nodes
pub mod Outcome
pub mod Ends
mod Tests
use zgc_primax.Base.{
  ℕ, zero, suc, ◌+◌, ◌-◌, ◌*◌, min, Bool, true, false, Option, none, some, List, [], ◌∷◌, ◌++◌, ltb,
  leb, ◌==◌, if◌then◌else◌, length, total, get_or, set,
}
use zgc_primax.PageCache.{Page, Cache, Platform, type_from_size, split, free_page}

-- The classes derived from `ZPageCacheFlushClosure`; the second with the time and ZUncommitDelay.
pub data Closure : Type 0 where
  for_allocation : Closure
  for_uncommit : ℕ → ℕ → Closure

-- The fields of such a closure that its calls read and change.
pub record FlushState : Type 0 where
  pub requested : ℕ
  pub flushed : ℕ
  pub timeout : ℕ

-- `do_page`
pub do_page : Closure → Page → FlushState → Bool × FlushState
do_page for_allocation p s =
    if ltb s.flushed s.requested
    then (true, record s { flushed = s.flushed + p.size })
    else (false, s)
do_page (for_uncommit now delay) p s =
    if ltb now (p.last_used + delay)
    then (false, record s { timeout = min s.timeout (p.last_used + delay - now) })
    else (if leb s.requested s.flushed
        then (false, s)
        else (true, record s { flushed = s.flushed + p.size }))

-- The last page of a list, and the others.
pub remove_last : List Page → Option (Page × List Page)
remove_last [] = none
remove_last (p ∷ rest) = elim (remove_last rest) [
  | none ↦ some (p, [])
  | some (last, l) ↦ some (last, p ∷ l)
]

-- Whether a page was flushed, the lists that pages leave and come to, and the closure.
pub record Progress : Type 0 where
  pub done : Bool
  pub from : List Page
  pub to : List Page
  pub state : FlushState

pub flush_list_inner : Closure → List Page → List Page → FlushState → Progress
unfolding remove_last do_page
flush_list_inner cl from to s = elim (remove_last from) [
  | none ↦ record { done = false; from = from; to = to; state = s }
  | some (page, rest) ↦
      if (do_page cl page s).0
      then record { done = true; from = rest; to = to ++ page ∷ []; state = (do_page cl page s).1 }
      else record { done = false; from = from; to = to; state = (do_page cl page s).1 }
]

-- `flush_list`, with so many rounds.
pub flush_list : ℕ → Closure → List Page → List Page → FlushState → Progress
unfolding flush_list_inner
flush_list zero cl from to s = record { done = false; from = from; to = to; state = s }
flush_list (suc rounds) cl from to s =
    let r = flush_list_inner cl from to s in
    let again = flush_list rounds cl r.from r.to r.state in if r.done then again else r

-- `flush_per_numa_lists`, with so many rounds.
pub flush_per_numa_lists :
    ℕ
    → Closure
    → ℕ
    → ℕ
    → List (List Page)
    → List Page
    → FlushState
    → List (List Page) × List Page × FlushState
unfolding flush_list_inner
flush_per_numa_lists zero cl numa_done numa_next ls to s = (ls, to, s)
flush_per_numa_lists (suc rounds) cl numa_done numa_next ls to s =
    let r = flush_list_inner cl (get_or ls numa_next []) to s in
    let again =
      flush_per_numa_lists rounds cl (if r.done then 0 else numa_done + 1)
        (if numa_next + 1 == length ls then 0 else numa_next + 1) (set ls numa_next r.from) r.to
        r.state in
    if ltb numa_done (length ls) then again else (ls, to, s)

-- The rounds that are enough.
abbrev pub rounds_for : List (List Page) → ℕ
rounds_for ls = total length ls * length ls + length ls + 1

module _ (o : Platform) where
  -- The end of `flush`, which puts back what was flushed too much. `none` is an assertion of `split`, or
  -- a page that is not there.
  pub reinsert : Cache → List Page → FlushState → Option (Cache × List Page × FlushState)
  unfolding remove_last
  reinsert c to s =
      let overflushed = s.flushed - s.requested in
      if ltb s.requested s.flushed
      then elim (remove_last to) [
        | none ↦ none
        | some (last, rest) ↦
            if ltb overflushed last.size
            then some (
              free_page o (split o (type_from_size o overflushed) overflushed last).0 c,
              rest ++ (split o (type_from_size o overflushed) overflushed last).1 ∷ [],
              record s { flushed = s.flushed - overflushed },
            )
            else none
      ]
      else some (c, to, s)

  pub flush : Closure → Cache → List Page → FlushState → Option (Cache × List Page × FlushState)
  unfolding flush_list flush_per_numa_lists reinsert
  flush cl c to s =
      let l = flush_list (length c.large_pages + 1) cl c.large_pages to s in
      let m = flush_list (length c.medium_pages + 1) cl c.medium_pages l.to l.state in
      let (small, to', s') =
        flush_per_numa_lists (rounds_for c.small_pages) cl 0 0 c.small_pages m.to m.state in
      reinsert (record c { small_pages = small; medium_pages = m.from; large_pages = l.from }) to'
        s'

  pub flush_for_allocation : ℕ → Cache → List Page → Option (Cache × List Page × FlushState)
  unfolding flush
  flush_for_allocation requested c to =
      flush for_allocation c to (record { requested = requested; flushed = 0; timeout = 0 })

  -- `flush_for_uncommit` at the time `now`, with ZUncommitDelay.
  pub flush_for_uncommit : ℕ → ℕ → ℕ → Cache → List Page → Option (Cache × List Page × FlushState)
  unfolding flush
  flush_for_uncommit now delay requested c to =
      let none_yet : ℕ → FlushState =
        λ timeout. record { requested = requested; flushed = 0; timeout = timeout } in
      if ltb now (c.last_commit + delay)
      then some (c, to, none_yet (c.last_commit + delay - now))
      else (if requested == 0
          then some (c, to, none_yet delay)
          else flush (for_uncommit now delay) c to (none_yet delay))
