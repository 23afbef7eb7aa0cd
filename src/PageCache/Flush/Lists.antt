-- ===== src/PageCache/Flush/Lists.antt =====
-- What the flushing of one list does in zPageCache.cpp.
use zgc_primax.Base.{
  ℕ, zero, suc, ◌+◌, ◌≤◌, ◌<◌, ◌≡◌, refl, ◌⊎◌, inl, inr, true, false, Option, none, some, List, [],
  ◌∷◌, ◌++◌, if◌then◌else◌, length, total, arith, All, if_cases, ap, total-append, All-append,
}
use zgc_primax.PageCache.{Page}
use zgc_primax.PageCache.Search.{Measure, bytes, holds}
use zgc_primax.PageCache.Flush.{
  Closure, for_allocation, for_uncommit, FlushState, do_page, remove_last, Progress,
  flush_list_inner, flush_list,
}

-- What the last page and the others are of a list.
abbrev pub LastOf : (Page → Type 0) → List Page → Option (Page × List Page) → Type 0
LastOf P l none = l ≡ []
LastOf P l (some (p, rest)) =
    (l ≡ rest ++ p ∷ []) × P p × All P rest × (length l ≡ suc (length rest))

pub remove_last-LastOf : (P : Page → Type 0) (l : List Page) → All P l → LastOf P l (remove_last l)
unfolding remove_last
remove_last-LastOf P [] h = refl
remove_last-LastOf P (p ∷ rest) h =
    elim (remove_last rest)
        as (λ r.
          LastOf P rest r
          → LastOf P (p ∷ rest)
              (elim r [ none ↦ some (p, []) | some (last, l) ↦ some (last, p ∷ l) ])) [
                | none ↦ λ e. (rw e refl, h.0, tt, rw e refl)
                | some (last, l) ↦ λ t. (rw t.0 refl, t.1, (h.0, t.2), omega (arith, t.3))
              ]
      (remove_last-LastOf P rest h.1)

pub remove_last-append : (l : List Page) (p : Page) → remove_last (l ++ p ∷ []) ≡ some (p, l)
unfolding remove_last
remove_last-append [] p = refl
remove_last-append (x ∷ l) p = rw (remove_last-append l p) refl

-- What is flushed is more than what was asked for by less than the last page.
abbrev pub IsTight : FlushState → List Page → Type 0
IsTight s to =
    (s.flushed ≤ s.requested)
    ⊎ ((p : Page) × (rest : List Page) × (remove_last to ≡ some (p, rest))
        × (s.flushed < s.requested + p.size))

-- Between two states of the flushing: what pages hold has only moved, and the closure counts it.
pub record Moves (before after : Measure → ℕ) (to to' : List Page) (s s' : FlushState)
    : Type 0 where
  pub conserved : (m : Measure) → before m + total (holds m) to ≡ after m + total (holds m) to'
  pub counted : s'.flushed + total (holds bytes) to ≡ s.flushed + total (holds bytes) to'
  pub same : s'.requested ≡ s.requested
  pub grows : s.flushed ≤ s'.flushed
  pub tight : IsTight s' to'

pub Moves-trans :
    {a b c : Measure → ℕ} {to to' to'' : List Page} {s s' s'' : FlushState}
    → Moves a b to to' s s'
    → Moves b c to' to'' s' s''
    → Moves a c to to'' s s''
Moves-trans v w = record {
  conserved = λ m. omega (arith, v.conserved m, w.conserved m);
  counted = omega (arith, v.counted, w.counted);
  same = omega (arith, v.same, w.same);
  grows = omega (arith, v.grows, w.grows);
  tight = w.tight;
}

-- What the closure does to its counts.
do_page_lem :
    (cl : Closure) (p : Page) (s : FlushState)
    → let (yes_do, s') = do_page cl p s in
      (s'.requested ≡ s.requested)
      × (((yes_do ≡ true) × (s.flushed < s.requested) × (s'.flushed ≡ s.flushed + p.size))
          ⊎ ((yes_do ≡ false) × (s'.flushed ≡ s.flushed)))
unfolding do_page
do_page_lem for_allocation p s = ground arith
do_page_lem (for_uncommit now delay) p s = ground arith

-- A closure for allocation refuses a page only when it has enough.
abbrev pub HasEnough : Closure → List Page → FlushState → Type 0
HasEnough for_allocation l s = (l ≡ []) ⊎ (s.requested ≤ s.flushed)
HasEnough (for_uncommit now delay) l s = Unit

refuses-HasEnough :
    (cl : Closure) (p : Page) (l : List Page) (s : FlushState)
    → (do_page cl p s).0 ≡ false
    → HasEnough cl l (do_page cl p s).1
unfolding do_page
refuses-HasEnough for_allocation p l s e = ground arith
refuses-HasEnough (for_uncommit now delay) p l s e = tt

empty-HasEnough : (cl : Closure) (s : FlushState) → HasEnough cl [] s
empty-HasEnough for_allocation s = inl refl
empty-HasEnough (for_uncommit now delay) s = tt

-- The pages that are there have `P`, and those that have left have `Q`.
module _ (P Q : Page → Type 0) (fit : (p : Page) → P p → Q p) (cl : Closure) where
  pub record Flushed (from to : List Page) (s : FlushState) (r : Progress) : Type 0 where
    pub moves : Moves (λ m. total (holds m) from) (λ m. total (holds m) r.from) to r.to s r.state
    pub typed : All P r.from
    pub gone : All Q r.to
    pub shorter :
        ((r.done ≡ true) × (length from ≡ suc (length r.from)))
        ⊎ ((r.done ≡ false)
            × (r.from ≡ from)
            × (r.state.flushed ≡ s.flushed)
            × HasEnough cl r.from r.state)

  pub flush_list_inner-Flushed :
      (from to : List Page) (s : FlushState)
      → All P from
      → All Q to
      → IsTight s to
      → Flushed from to s (flush_list_inner cl from to s)
  unfolding flush_list_inner
  flush_list_inner-Flushed from to s h out tight =
      elim (remove_last from)
          as (λ r.
            LastOf P from r
            → Flushed from to s (elim r [
              | none ↦ record { done = false; from = from; to = to; state = s }
              | some (page, rest) ↦
                  if (do_page cl page s).0
                  then record {
                    done = true;
                    from = rest;
                    to = to ++ page ∷ [];
                    state = (do_page cl page s).1;
                  }
                  else record { done = false; from = from; to = to; state = (do_page cl page s).1 }
            ])) [
              | none ↦ λ e. record {
                moves = stays s refl refl;
                typed = h;
                gone = out;
                shorter = inr (refl, refl, refl, rw e (empty-HasEnough cl s));
              }
              | some (page, rest) ↦ λ t.
                  if_cases (Flushed from to s) (do_page cl page s).0
                    (λ yes_do. record {
                      moves = record {
                        conserved = λ m. omega (
                          arith,
                          ap (total (holds m)) t.0,
                          total-append (holds m) rest (page ∷ []),
                          total-append (holds m) to (page ∷ []),
                        );
                        counted = ground (
                          arith,
                          do_page_lem cl page s,
                          total-append (holds bytes) to (page ∷ []),
                        );
                        same = (do_page_lem cl page s).0;
                        grows = ground (arith, do_page_lem cl page s);
                        tight = inr (
                          page,
                          to,
                          remove_last-append to page,
                          ground (arith, do_page_lem cl page s),
                        );
                      };
                      typed = t.2;
                      gone = All-append Q to (page ∷ []) out (fit page t.1, tt);
                      shorter = inl (refl, t.3);
                    })
                    (λ no_do. record {
                      moves =
                          stays (do_page cl page s).1 (do_page_lem cl page s).0
                            (ground (arith, do_page_lem cl page s));
                      typed = h;
                      gone = out;
                      shorter = inr (
                        refl,
                        refl,
                        ground (arith, do_page_lem cl page s),
                        refuses-HasEnough cl page from s no_do,
                      );
                    })
            ]
        (remove_last-LastOf P from h)
    where
      stays :
          (s' : FlushState)
          → s'.requested ≡ s.requested
          → s'.flushed ≡ s.flushed
          → Moves (λ m. total (holds m) from) (λ m. total (holds m) from) to to s s'
      stays s' same flushed = record {
        conserved = λ m. refl;
        counted = omega (arith, flushed);
        same = same;
        grows = omega (arith, flushed);
        tight = elim tight [
          | inl le ↦ inl (omega (arith, le, same, flushed))
          | inr (p, rest, e, lt) ↦ inr (p, rest, e, omega (arith, lt, same, flushed))
        ];
      }

  abbrev pub FlushedList : List Page → List Page → FlushState → Progress → Type 0
  FlushedList from to s r =
      Moves (λ m. total (holds m) from) (λ m. total (holds m) r.from) to r.to s r.state
      × All P r.from
      × All Q r.to
      × HasEnough cl r.from r.state

  -- With a round for each page and one more, the list is empty in the end or a page was refused.
  pub flush_list-Flushed :
      (rounds : ℕ) (from to : List Page) (s : FlushState)
      → length from < rounds
      → All P from
      → All Q to
      → IsTight s to
      → FlushedList from to s (flush_list rounds cl from to s)
  unfolding flush_list
  flush_list-Flushed zero from to s lt h out tight = absurd (omega arith)
  flush_list-Flushed (suc rounds) from to s lt h out tight =
      let r = flush_list_inner cl from to s in
      let f = flush_list_inner-Flushed from to s h out tight in
      if_cases (FlushedList from to s) r.done
        (λ again.
          let ih =
            flush_list-Flushed rounds r.from r.to r.state (ground (arith, f.shorter, again)) f.typed
              f.gone f.moves.tight in
          (Moves-trans f.moves ih.0, ih.1, ih.2, ih.3))
        (λ stop. (f.moves, f.typed, f.gone, elim f.shorter [ inl x ↦ cc | inr x ↦ x.3 ]))
