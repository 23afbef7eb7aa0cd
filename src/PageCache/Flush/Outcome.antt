-- ===== src/PageCache/Flush/Outcome.antt =====
-- What `flush` of zPageCache.cpp guarantees, with the two closures that it is called with.
use zgc_primax.Base.{
  ℕ, suc, ◌+◌, ◌-◌, ◌≤◌, ◌<◌, ◌≡◌, refl, ◌⊎◌, inl, inr, Option, none, some, List, [], ◌∷◌, ◌++◌,
  ltb, ◌==◌, length, total, get_or, arith, All, if_cases, ap, total-append, All-append, min,
  lt_of_ltb, le_of_ltb, ◌∙◌, lt→ltb, subst,
}
use zgc_primax.PageCache.{Page, Cache, Platform, type_from_size, split, free_page}
use zgc_primax.PageCache.Search.{
  Measure, bytes, holds, held, IsWf, Fits, IsSmall, IsMedium, IsLarge,
}
use zgc_primax.PageCache.Alloc.{free_page-Frees, type_from_size-Fits, holds-split}
use zgc_primax.PageCache.Flush.{
  Closure, for_allocation, for_uncommit, FlushState, flush_list, flush_per_numa_lists, rounds_for,
  reinsert, flush, flush_for_allocation, flush_for_uncommit,
}
use zgc_primax.PageCache.Flush.Lists.{
  LastOf, remove_last-LastOf, Moves, HasEnough, flush_list-Flushed,
}
use zgc_primax.PageCache.Flush.Nodes.{
  in_lists, Seen-flushed, HasEnough-later, flush_per_numa_lists-FlushedNodes, Nat_cases,
}

-- A closure for allocation leaves pages only when it has enough.
abbrev pub LeavesEnough : Closure → Cache → FlushState → Type 0
LeavesEnough for_allocation c s = (held bytes c ≡ 0) ⊎ (s.requested ≤ s.flushed)
LeavesEnough (for_uncommit now delay) c s = Unit

empty_list :
    (l : List Page) (s : FlushState)
    → s.flushed < s.requested
    → HasEnough for_allocation l s
    → total (holds bytes) l ≡ 0
empty_list l s lt (inl e) = rw e refl
empty_list l s lt (inr le) = absurd (omega (arith, le, lt))

empty_lists :
    (ls : List (List Page)) (s : FlushState)
    → s.flushed < s.requested
    → ((i : ℕ) → (length ls ≤ i) ⊎ HasEnough for_allocation (get_or ls i []) s)
    → in_lists ls bytes ≡ 0
empty_lists [] s lt f = refl
empty_lists (l ∷ ls) s lt f = omega (
  arith,
  first,
  empty_lists ls s lt (λ i. elim (f (suc i)) [ inl le ↦ inl (omega (arith, le)) | inr h ↦ inr h ]),
)
  where
    first : total (holds bytes) l ≡ 0
    first = elim (f 0) [ inl le ↦ absurd (omega (arith, le)) | inr h ↦ empty_list l s lt h ]

leaves_enough :
    (cl : Closure) (c : Cache) (s : FlushState)
    → HasEnough cl c.large_pages s
    → HasEnough cl c.medium_pages s
    → ((i : ℕ) → (length c.small_pages ≤ i) ⊎ HasEnough cl (get_or c.small_pages i []) s)
    → LeavesEnough cl c s
leaves_enough (for_uncommit now delay) c s l m f = tt
leaves_enough for_allocation c s l m f = elim (Nat_cases s.flushed s.requested) [
  | inr le ↦ inr le
  | inl lt ↦ inl (
      omega (
        arith,
        empty_list c.large_pages s lt l,
        empty_list c.medium_pages s lt m,
        empty_lists c.small_pages s lt f,
      ))
]

module _ (o : Platform) where
  abbrev pub IsFit : Page → Type 0
  IsFit p = Fits o p.type p.size

  small-IsFit : (p : Page) → IsSmall o p → IsFit p
  small-IsFit p h = rw h.0 h.1

  medium-IsFit : (p : Page) → IsMedium o p → IsFit p
  medium-IsFit p h = rw h.0 h.1

  large-IsFit : (p : Page) → IsLarge o p → IsFit p
  large-IsFit p h = rw h tt

  -- The pages that leave the cache fit their types, and together with the cache they have the bytes that
  -- there were. The closure counts them, and has not more than it asks for.
  pub record FlushedOut (cl : Closure) (c : Cache) (to : List Page) (s : FlushState) (c' : Cache)
      (to' : List Page) (s' : FlushState) : Type 0 where
    pub still : IsWf o c'
    pub gone : All IsFit to'
    pub conserved : (m : Measure) → held m c + total (holds m) to ≡ held m c' + total (holds m) to'
    pub counted : s'.flushed + total (holds bytes) to ≡ s.flushed + total (holds bytes) to'
    pub bound : s'.flushed ≤ s.requested
    pub same : s'.requested ≡ s.requested
    pub enough : LeavesEnough cl c' s'

  abbrev pub FlushOutcome :
      Closure → Cache → List Page → FlushState → Option (Cache × List Page × FlushState) → Type 0
  FlushOutcome cl c to s none = ⊥
  FlushOutcome cl c to s (some (c', to', s')) = FlushedOut cl c to s c' to' s'

  enough_exact :
      (cl : Closure) (c : Cache) (s : FlushState) → s.flushed ≡ s.requested → LeavesEnough cl c s
  enough_exact for_allocation c s e = inr (omega (arith, e))
  enough_exact (for_uncommit now delay) c s e = tt

  reinsert-FlushOutcome :
      (cl : Closure) (c c' : Cache) (to to' : List Page) (s s' : FlushState)
      → IsWf o c'
      → All IsFit to'
      → Moves (λ m. held m c) (λ m. held m c') to to' s s'
      → LeavesEnough cl c' s'
      → FlushOutcome cl c to s (reinsert o c' to' s')
  unfolding reinsert
  reinsert-FlushOutcome cl c c' to to' s s' wf gone v enough =
      if_cases (FlushOutcome cl c to s) (ltb s'.requested s'.flushed)
        (λ over. elim v.tight [
          | inl le ↦ absurd (omega (arith, lt_of_ltb over))
          | inr (p, rest, e, lt) ↦
              let n = s'.flushed - s'.requested in
              let le : n < p.size = omega (arith, lt, lt_of_ltb over) in
              let q : LastOf IsFit to' (some (p, rest)) =
                subst (LastOf IsFit to') e (remove_last-LastOf IsFit to' gone) in
              let halves = split o (type_from_size o n) n p in
              let f = free_page-Frees o halves.0 c' (type_from_size-Fits o n) wf in
              let moved : (m : Measure)
                  → held m c' + total (holds m) to'
                    ≡ held m (free_page o halves.0 c') + total (holds m) (rest ++ halves.1 ∷ []) =
                λ m. omega (
                  arith,
                  f.1 m,
                  holds-split o m (type_from_size o n) n p (omega (arith, le)),
                  ap (total (holds m)) q.0,
                  total-append (holds m) rest (p ∷ []),
                  total-append (holds m) rest (halves.1 ∷ []),
                ) in
              let left : total (holds bytes) to' ≡ n + total (holds bytes) (rest ++ halves.1 ∷ []) =
                omega (
                  arith,
                  le,
                  ap (total (holds bytes)) q.0,
                  total-append (holds bytes) rest (p ∷ []),
                  total-append (holds bytes) rest (halves.1 ∷ []),
                ) in
              rw (e, lt→ltb n p.size le, reinsert)
                record {
                  still = f.0;
                  gone =
                      All-append IsFit rest (halves.1 ∷ []) q.2
                        (type_from_size-Fits o (p.size - n), tt);
                  conserved = λ m. v.conserved m ∙ moved m;
                  counted = omega (arith, left, v.counted, lt_of_ltb over);
                  bound = omega (arith, lt_of_ltb over, v.same);
                  same = v.same;
                  enough =
                      enough_exact cl (free_page o halves.0 c')
                        (record s' { flushed = s'.flushed - n }) (omega (arith, lt_of_ltb over));
                }
        ])
        (λ fits. record {
          still = wf;
          gone = gone;
          conserved = v.conserved;
          counted = v.counted;
          bound = omega (arith, le_of_ltb fits, v.same);
          same = v.same;
          enough = enough;
        })

  -- `flush` on a well-formed cache fails no assertion and has always enough rounds.
  pub flush-FlushOutcome :
      (cl : Closure) (c : Cache) (to : List Page) (s : FlushState)
      → IsWf o c
      → All IsFit to
      → s.flushed ≤ s.requested
      → FlushOutcome cl c to s (flush o cl c to s)
  unfolding flush
  flush-FlushOutcome cl c to s wf out le =
      let n = length c.small_pages in
      let l = flush_list (length c.large_pages + 1) cl c.large_pages to s in
      let fl =
        flush_list-Flushed (IsLarge o) IsFit large-IsFit cl (length c.large_pages + 1) c.large_pages
          to s (omega arith) wf.larges out (inl le) in
      let m = flush_list (length c.medium_pages + 1) cl c.medium_pages l.to l.state in
      let fm =
        flush_list-Flushed (IsMedium o) IsFit medium-IsFit cl (length c.medium_pages + 1)
          c.medium_pages l.to l.state (omega arith) wf.mediums fl.2 fl.0.tight in
      let r = flush_per_numa_lists (rounds_for c.small_pages) cl 0 0 c.small_pages m.to m.state in
      let fs =
        flush_per_numa_lists-FlushedNodes (IsSmall o) IsFit small-IsFit cl n
          (rounds_for c.small_pages) 0 0 c.small_pages m.to m.state refl (omega arith) (omega arith)
          (omega (arith, wf.nodes 0)) wf.smalls fm.2 fm.0.tight
          (Seen-flushed (IsSmall o) IsFit small-IsFit cl n 0 c.small_pages m.state) in
      reinsert-FlushOutcome cl c
        (record c { small_pages = r.0; medium_pages = m.from; large_pages = l.from }) to r.1 s r.2
        (record {
          smalls = fs.1;
          mediums = fm.1;
          larges = fl.1;
          nodes = λ start. omega (arith, fs.3, wf.nodes start);
        })
        fs.2
        (record {
          conserved = λ q. omega (arith, fl.0.conserved q, fm.0.conserved q, fs.0.conserved q);
          counted = omega (arith, fl.0.counted, fm.0.counted, fs.0.counted);
          same = omega (arith, fl.0.same, fm.0.same, fs.0.same);
          grows = omega (arith, fl.0.grows, fm.0.grows, fs.0.grows);
          tight = fs.0.tight;
        })
        (leaves_enough cl
          (record c { small_pages = r.0; medium_pages = m.from; large_pages = l.from }) r.2
          (HasEnough-later cl l.from l.state r.2 (omega (arith, fm.0.same, fs.0.same))
            (omega (arith, fm.0.grows, fs.0.grows)) fl.3)
          (HasEnough-later cl m.from m.state r.2 fs.0.same fs.0.grows fm.3)
          (λ i. elim (fs.4 i) [ inl le ↦ inl (omega (arith, le, fs.3)) | inr h ↦ inr h ]))

  -- What is asked for leaves the cache, or all that it has.
  abbrev pub AllocationOutcome : ℕ → Cache → Option (Cache × List Page × FlushState) → Type 0
  AllocationOutcome requested c none = ⊥
  AllocationOutcome requested c (some (c', to', s')) =
      IsWf o c'
      × All IsFit to'
      × ((m : Measure) → held m c ≡ held m c' + total (holds m) to')
      × (total (holds bytes) to' ≡ min requested (held bytes c))

  -- `flush_for_allocation` on a well-formed cache fails no assertion. The pages that leave fit their
  -- types, each byte is in as many pages as before, and they have just as many bytes as are asked for,
  -- or all of the cache where that is less.
  pub flush_for_allocation-AllocationOutcome :
      (requested : ℕ) (c : Cache)
      → IsWf o c
      → AllocationOutcome requested c (flush_for_allocation o requested c [])
  unfolding flush_for_allocation
  flush_for_allocation-AllocationOutcome requested c wf =
      let s : FlushState = record { requested = requested; flushed = 0; timeout = 0 } in
      elim (flush o for_allocation c [] s)
          as (λ r. FlushOutcome for_allocation c [] s r → AllocationOutcome requested c r) [
            | none ↦ λ f. f
            | some (c', to', s') ↦ λ f. (
              f.still,
              f.gone,
              λ m. omega (arith, f.conserved m),
              ground (arith, f.enough, f.conserved bytes, f.counted, f.bound, f.same),
            )
          ]
        (flush-FlushOutcome for_allocation c [] s wf tt (omega arith))

  abbrev pub UncommitOutcome : ℕ → Cache → Option (Cache × List Page × FlushState) → Type 0
  UncommitOutcome requested c none = ⊥
  UncommitOutcome requested c (some (c', to', s')) =
      IsWf o c'
      × All IsFit to'
      × ((m : Measure) → held m c ≡ held m c' + total (holds m) to')
      × (total (holds bytes) to' ≡ s'.flushed)
      × (s'.flushed ≤ requested)

  -- `flush_for_uncommit` on a well-formed cache fails no assertion. The pages that leave fit their
  -- types, each byte is in as many pages as before, and the result counts the bytes that have left,
  -- which are not more than asked for.
  pub flush_for_uncommit-UncommitOutcome :
      (now delay requested : ℕ) (c : Cache)
      → IsWf o c
      → UncommitOutcome requested c (flush_for_uncommit o now delay requested c [])
  unfolding flush_for_uncommit
  flush_for_uncommit-UncommitOutcome now delay requested c wf =
      if_cases (UncommitOutcome requested c) (ltb now (c.last_commit + delay))
        (λ early. (wf, tt, λ m. omega arith, refl, omega arith))
        (λ late.
          if_cases (UncommitOutcome requested c) (requested == 0)
            (λ nothing. (wf, tt, λ m. omega arith, refl, omega arith))
            (λ something.
              let s : FlushState = record { requested = requested; flushed = 0; timeout = delay } in
              elim (flush o (for_uncommit now delay) c [] s)
                  as (λ r.
                    FlushOutcome (for_uncommit now delay) c [] s r
                    → UncommitOutcome requested c r) [
                      | none ↦ λ f. f
                      | some (c', to', s') ↦ λ f. (
                        f.still,
                        f.gone,
                        λ m. omega (arith, f.conserved m),
                        omega (arith, f.counted),
                        f.bound,
                      )
                    ]
                (flush-FlushOutcome (for_uncommit now delay) c [] s wf tt (omega arith))))
