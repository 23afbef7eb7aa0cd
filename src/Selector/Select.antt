-- ===== src/Selector/Select.antt =====
-- select of ZRelocationSetSelectorGroup and of ZRelocationSetSelector, zRelocationSetSelector.cpp.
use native.Mathlib.Nat.{zero-add}
use zgc_primax.Base.{
  ℕ, zero, suc, ◌+◌, ◌^◌, ◌≤◌, ◌<◌, ◌≡◌, refl, ap, ◌∙◌, sym, Bool, true, false, not, ◌==◌, leb,
  if◌then◌else◌, Option, none, some, List, [], ◌∷◌, ◌++◌, length, All, total, arith, append_assoc,
  append-nil, length-append, total-append, if_cases,
}
use zgc_primax.PageCache.{small, medium, large}
use zgc_primax.Selector.{
  Page, Group, is_large, at_put, append_if_young, partition_of, npartitions_shift, semi_sort,
  page_age_max,
}
use zgc_primax.Selector.SemiSort.{partitions_from, semi_sort-partitions_from}

abbrev pub take : ℕ → List Page → List Page
take zero pages = []
take (suc n) [] = []
take (suc n) (p ∷ ps) = p ∷ take n ps

abbrev pub drop : ℕ → List Page → List Page
drop zero pages = pages
drop (suc n) [] = []
drop (suc n) (p ∷ ps) = drop n ps

-- The variables of the loop of select_inner.
pub record Choice : Type 0 where
  pub selected_from : ℕ
  pub selected_to : ℕ
  pub npages_selected : ℕ → ℕ
  pub selected_live_bytes : ℕ → ℕ
  pub selected_forwarding_entries : ℕ
  pub from_live_bytes : ℕ
  pub from_forwarding_entries : ℕ

abbrev pub no_choice : Choice
no_choice = record {
  selected_from = 0;
  selected_to = 0;
  npages_selected = λ i. 0;
  selected_live_bytes = λ i. 0;
  selected_forwarding_entries = 0;
  from_live_bytes = 0;
  from_forwarding_entries = 0;
}

-- The young pages, in their order, behind those that are there.
unfoldable pub append_young : List Page → List Page → List Page
append_young [] pages = pages
append_young (p ∷ ps) pages = append_young ps (append_if_young p pages)

unfoldable pub finalize : List Page → Choice → Group → Group
finalize sorted c g = record g {
  not_selected_pages = append_young (drop c.selected_from sorted) g.not_selected_pages;
  live_pages = take c.selected_from sorted;
  forwarding_entries = c.selected_forwarding_entries;
  stats = λ i.
      if leb i page_age_max
      then (let s = g.stats i in
          record s { relocate = c.selected_live_bytes i; npages_selected = c.npages_selected i })
      else g.stats i;
}

unfoldable pub is_disabled : Group → Bool
is_disabled g = elim g.page_type [ small ↦ false | medium ↦ g.page_size == 0 | large ↦ false ]

unfoldable pub is_selectable : Group → Bool
is_selectable g = not (is_large g.page_type)

-- How many pages some bytes of objects need at most, and whether the candidate set of so many pages, which need so many,
-- frees more than the fragmentation limit beyond the set selected last.
module _ (pages_for : ℕ → ℕ) (worth : (from selected_from to selected_to : ℕ) → Bool) where
  unfoldable pub consider : ℕ → Page → Choice → Choice
  consider from p c =
      let live : ℕ = c.from_live_bytes + p.live_bytes in
      let entries : ℕ = c.from_forwarding_entries + p.nentries in
      let seen : Choice = record c { from_live_bytes = live; from_forwarding_entries = entries } in
      if worth from c.selected_from (pages_for live) c.selected_to
      then record seen {
        selected_from = from;
        selected_to = pages_for live;
        selected_live_bytes =
            at_put c.selected_live_bytes p.age (c.selected_live_bytes p.age + p.live_bytes);
        npages_selected = at_put c.npages_selected p.age (c.npages_selected p.age + 1);
        selected_forwarding_entries = entries;
      }
      else seen

  -- The loop from the given number of pages on.
  unfoldable pub choose : ℕ → List Page → Choice → Choice
  choose from [] c = c
  choose from (p ∷ ps) c = choose (suc from) ps (consider from p c)

  unfoldable pub select_inner : Group → Option Group
  select_inner g = elim (semi_sort g.page_size g.live_pages) [
    | none ↦ none
    | some sorted ↦ some (finalize sorted (choose 1 sorted no_choice) g)
  ]

  unfoldable pub select : Group → Option Group
  select g =
      if is_disabled g
      then some g
      else if is_selectable g
      then select_inner g
      else some (record g { not_selected_pages = g.not_selected_pages ++ g.live_pages })

-- What the loop has chosen, when it has seen these pages.
record Chosen (seen : List Page) (c : Choice) : Type 0 where
  seen_entries : c.from_forwarding_entries ≡ total (λ p. p.nentries) seen
  within : c.selected_from ≤ length seen
  entries : c.selected_forwarding_entries ≡ total (λ p. p.nentries) (take c.selected_from seen)

take-append : (n : ℕ) (xs ys : List Page) → n ≤ length xs → take n (xs ++ ys) ≡ take n xs
take-append zero xs ys h = refl
take-append (suc n) [] ys h = absurd (omega arith)
take-append (suc n) (x ∷ xs) ys h = ap (λ l. x ∷ l) (take-append n xs ys (omega arith))

take_all : (xs : List Page) → take (length xs) xs ≡ xs
take_all [] = refl
take_all (x ∷ xs) = ap (λ l. x ∷ l) (take_all xs)

pub take-append-drop : (n : ℕ) (xs : List Page) → take n xs ++ drop n xs ≡ xs
take-append-drop zero xs = refl
take-append-drop (suc n) [] = refl
take-append-drop (suc n) (x ∷ xs) = ap (λ l. x ∷ l) (take-append-drop n xs)

total-snoc : (f : Page → ℕ) (xs : List Page) (x : Page) → total f (xs ++ x ∷ []) ≡ total f xs + f x
total-snoc f xs x = total-append f xs (x ∷ []) ∙ omega arith

at_put_zero : (age v : ℕ) → at_put (λ i. 0) age (0 + v) ≡ at_put (λ i. 0) age v
at_put_zero age v = ap (at_put (λ i. 0) age) (omega arith)

module _ (pages_for : ℕ → ℕ) (worth : (from selected_from to selected_to : ℕ) → Bool) where
  consider-Chosen :
      (seen : List Page) (p : Page) (c : Choice)
      → Chosen seen c
      → Chosen (seen ++ p ∷ []) (consider pages_for worth (suc (length seen)) p c)
  unfolding consider
  consider-Chosen seen p c h =
      if_cases (Chosen (seen ++ p ∷ []))
        (worth (suc (length seen)) c.selected_from (pages_for (c.from_live_bytes + p.live_bytes))
          c.selected_to)
        (λ e.
          let seen_all : c.from_forwarding_entries + p.nentries
              ≡ total (λ q. q.nentries) (seen ++ p ∷ []) =
            omega (arith, h.seen_entries, total-snoc (λ q. q.nentries) seen p) in
          let long : suc (length seen) ≡ length (seen ++ p ∷ []) =
            omega (arith, length-append seen (p ∷ [])) in
          record {
            seen_entries = seen_all;
            within = omega (arith, long);
            entries =
                seen_all
                ∙ ap (total (λ q. q.nentries))
                    (sym (ap (λ n. take n (seen ++ p ∷ [])) long ∙ take_all (seen ++ p ∷ [])));
          })
        (λ e. record {
          seen_entries = omega (arith, h.seen_entries, total-snoc (λ q. q.nentries) seen p);
          within = omega (arith, h.within, length-append seen (p ∷ []));
          entries = rw (take-append c.selected_from seen (p ∷ []) h.within) h.entries;
        })

  choose-Chosen :
      (seen ps : List Page) (c : Choice)
      → Chosen seen c
      → Chosen (seen ++ ps) (choose pages_for worth (suc (length seen)) ps c)
  unfolding choose
  choose-Chosen seen [] c h = rw (append-nil seen) h
  choose-Chosen seen (p ∷ ps) c h =
      let long : length (seen ++ p ∷ []) ≡ suc (length seen) =
        length-append seen (p ∷ []) ∙ omega arith in
      let next = consider-Chosen seen p c h in
      let rest =
        choose-Chosen (seen ++ p ∷ []) ps (consider pages_for worth (suc (length seen)) p c) next in
      rw (long, append_assoc seen (p ∷ []) ps) at rest

  -- select_inner on pages that are each in one of the partitions. The pages selected are the first ones of the live
  -- pages in the order of semi_sort, and the young ones of the others are added to those not selected, in that order. The
  -- forwarding entries are just those of the pages selected.
  pub select_inner-Outcome :
      (g : Group)
      → All (λ p. partition_of g.page_size p < 2 ^ npartitions_shift) g.live_pages
      → (g' : Group) × (others : List Page) × (select_inner pages_for worth g ≡ some g')
        × (g'.live_pages ++ others
            ≡ partitions_from (partition_of g.page_size) (2 ^ npartitions_shift) 0 g.live_pages)
        × (g'.not_selected_pages ≡ append_young others g.not_selected_pages)
        × (g'.forwarding_entries ≡ total (λ p. p.nentries) g'.live_pages)
  unfolding select_inner finalize
  select_inner-Outcome g h =
      let sorted : List Page =
        partitions_from (partition_of g.page_size) (2 ^ npartitions_shift) 0 g.live_pages in
      let c : Choice = choose pages_for worth 1 sorted no_choice in
      let first : Chosen [] no_choice = record {
        seen_entries = refl;
        within = omega arith;
        entries = refl;
      } in
      let chosen = choose-Chosen [] sorted no_choice first in
      (
        finalize sorted c g,
        drop c.selected_from sorted,
        rw (semi_sort-partitions_from g.page_size g.live_pages h, select_inner) refl,
        take-append-drop c.selected_from sorted,
        refl,
        chosen.entries,
      )

  -- The loop rejects the sets of these pages, from the given number on, with so many live bytes before them,
  -- while it has selected none.
  abbrev pub Rejects : ℕ → ℕ → List Page → Type 0
  Rejects from live [] = Unit
  Rejects from live (p ∷ ps) =
      (worth from 0 (pages_for (live + p.live_bytes)) 0 ≡ false)
      × Rejects (suc from) (live + p.live_bytes) ps

  -- A loop that has rejected all sets so far, of so many live bytes, with statistics that say so.
  abbrev Rejecting : ℕ → Choice → Type 0
  Rejecting live c =
      (c.from_live_bytes ≡ live)
      × (c.selected_from ≡ 0)
      × (c.selected_to ≡ 0)
      × (c.npages_selected ≡ (λ i. 0))
      × (c.selected_live_bytes ≡ (λ i. 0))

  consider_rejected :
      (from live : ℕ) (p : Page) (c : Choice)
      → worth from 0 (pages_for (live + p.live_bytes)) 0 ≡ false
      → Rejecting live c
      → Rejecting (live + p.live_bytes) (consider pages_for worth from p c)
  unfolding consider
  consider_rejected from live p c w r =
      let test : worth from c.selected_from (pages_for (c.from_live_bytes + p.live_bytes))
            c.selected_to
          ≡ false =
        rw (r.0, r.1, r.2) w in
      rw test (rw r.0 refl, r.1, r.2, r.3, r.4)

  consider_accepted :
      (from live : ℕ) (p : Page) (c : Choice)
      → worth from 0 (pages_for (live + p.live_bytes)) 0 ≡ true
      → Rejecting live c
      → let c' = consider pages_for worth from p c in
        (c'.selected_from ≡ from)
        × (c'.npages_selected ≡ at_put (λ i. 0) p.age 1)
        × (c'.selected_live_bytes ≡ at_put (λ i. 0) p.age p.live_bytes)
  unfolding consider
  consider_accepted from live p c a r =
      let test : worth from c.selected_from (pages_for (c.from_live_bytes + p.live_bytes))
            c.selected_to
          ≡ true =
        rw (r.0, r.1, r.2) a in
      rw test (
        refl,
        ap (λ f. at_put f p.age (f p.age + 1)) r.3,
        ap (λ f. at_put f p.age (f p.age + p.live_bytes)) r.4 ∙ at_put_zero p.age p.live_bytes,
      )

  choose_rejected :
      (skipped : List Page) (p : Page) (from live : ℕ) (c : Choice)
      → Rejects from live skipped
      → worth
          (from + length skipped)
          0
          (pages_for (live + total (λ q. q.live_bytes) (skipped ++ p ∷ [])))
          0
        ≡ true
      → Rejecting live c
      → let c' = choose pages_for worth from (skipped ++ p ∷ []) c in
        (c'.selected_from ≡ from + length skipped)
        × (c'.npages_selected ≡ at_put (λ i. 0) p.age 1)
        × (c'.selected_live_bytes ≡ at_put (λ i. 0) p.age p.live_bytes)
  unfolding choose
  choose_rejected [] p from live c w a r =
      let same : from + 0 ≡ from = omega arith in
      let bytes : live + (p.live_bytes + 0) ≡ live + p.live_bytes = omega arith in
      rw same (consider_accepted from live p c (rw (same, bytes) at a) r)
  choose_rejected (q ∷ skipped) p from live c w a r =
      let next : from + suc (length skipped) ≡ suc from + length skipped = omega arith in
      let bytes : live + (q.live_bytes + total (λ q. q.live_bytes) (skipped ++ p ∷ []))
          ≡ live + q.live_bytes + total (λ q. q.live_bytes) (skipped ++ p ∷ []) =
        omega arith in
      rw next (
        choose_rejected skipped p (suc from) (live + q.live_bytes)
          (consider pages_for worth from q c) w.1 (rw (next, bytes) at a)
          (consider_rejected from live q c w.0 r))

  -- Where the loop of `select_inner` rejects the sets of the first pages, each with the number of
  -- pages that its live bytes need, and accepts that with the next page, these pages are all
  -- selected, but the statistics count only the last of them and its live bytes.
  pub choose-undercounts :
      (skipped : List Page) (p : Page)
      → Rejects 1 0 skipped
      → worth (1 + length skipped) 0 (pages_for (total (λ q. q.live_bytes) (skipped ++ p ∷ []))) 0
        ≡ true
      → let c = choose pages_for worth 1 (skipped ++ p ∷ []) no_choice in
        (c.selected_from ≡ 1 + length skipped)
        × (c.npages_selected ≡ at_put (λ i. 0) p.age 1)
        × (c.selected_live_bytes ≡ at_put (λ i. 0) p.age p.live_bytes)
  choose-undercounts skipped p w a =
      let bytes = zero-add (total (λ q. q.live_bytes) (skipped ++ p ∷ [])) in
      choose_rejected skipped p 1 0 no_choice w (rw bytes a) (refl, refl, refl, refl, refl)
