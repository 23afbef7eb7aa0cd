-- ===== src/PageCache/Flush/Ends.antt =====
-- That the loops of the flushing in zPageCache.cpp end.
use zgc_primax.Base.{
  ℕ, zero, suc, ◌+◌, ◌-◌, ◌*◌, ◌≤◌, ◌<◌, ◌≡◌, refl, ◌⊎◌, inl, inr, true, false, none, some, List,
  [], ◌∷◌, ◌++◌, ltb, ◌==◌, if◌then◌else◌, length, total, get_or, set, arith, All, if_cases, ap,
  Bool-cases, ◌∙◌, length-set, total-set,
}
use zgc_primax.PageCache.{Page}
use zgc_primax.PageCache.Flush.{
  Closure, FlushState, do_page, remove_last, Progress, flush_list_inner, flush_list,
  flush_per_numa_lists, rounds_for,
}
use zgc_primax.PageCache.Flush.Lists.{LastOf, remove_last-LastOf}
use zgc_primax.PageCache.Flush.Nodes.{next_lt, one_less, total_same}

abbrev Any : Page → Type 0
Any p = Unit

All-pages : (l : List Page) → All Any l
All-pages [] = tt
All-pages (p ∷ l) = (tt, All-pages l)

-- A round takes a page from the list or changes nothing of it.
abbrev Shorter : List Page → Progress → Type 0
Shorter from r =
    ((r.done ≡ true) × (length from ≡ suc (length r.from))) ⊎ ((r.done ≡ false) × (r.from ≡ from))

flush_list_inner-Shorter :
    (cl : Closure) (from to : List Page) (s : FlushState)
    → Shorter from (flush_list_inner cl from to s)
unfolding flush_list_inner
flush_list_inner-Shorter cl from to s =
    elim (remove_last from)
        as (λ r.
          LastOf Any from r
          → Shorter from (elim r [
            | none ↦ record { done = false; from = from; to = to; state = s }
            | some (page, rest) ↦
                if (do_page cl page s).0
                then record {
                  done = true;
                  from = rest;
                  to = to ++ page ∷ [];
                  state = (do_page cl page s).1;
                }
                else record { done = false; from = from; to = to; state = (do_page cl page s).1 }
          ])) [
            | none ↦ λ e. inr (refl, refl)
            | some (page, rest) ↦ λ t.
                if_cases (Shorter from) (do_page cl page s).0 (λ yes_do. inl (refl, t.3))
                  (λ no_do. inr (refl, refl))
          ]
      (remove_last-LastOf Any from (All-pages from))

flush_list_same :
    (a b : ℕ) (cl : Closure) (from to : List Page) (s : FlushState)
    → length from < a
    → length from < b
    → flush_list a cl from to s ≡ flush_list b cl from to s
unfolding flush_list
flush_list_same zero b cl from to s lt lt' = absurd (omega arith)
flush_list_same (suc a) zero cl from to s lt lt' = absurd (omega arith)
flush_list_same (suc a) (suc b) cl from to s lt lt' =
    let r = flush_list_inner cl from to s in
    elim (flush_list_inner-Shorter cl from to s) [
      | inl (yes_do, shorter) ↦
          rw yes_do (flush_list_same a b cl r.from r.to r.state (omega arith) (omega arith))
      | inr (no_do, same) ↦ rw no_do refl
    ]

flush_per_numa_lists_same :
    (a b n : ℕ) (cl : Closure) (back next : ℕ) (ls : List (List Page)) (to : List Page)
    (s : FlushState)
    → length ls ≡ n
    → next < n
    → back ≤ n
    → total length ls * n + (n - back) < a
    → total length ls * n + (n - back) < b
    → flush_per_numa_lists a cl back next ls to s ≡ flush_per_numa_lists b cl back next ls to s
unfolding flush_per_numa_lists
flush_per_numa_lists_same zero b n cl back next ls to s e at le lt lt' = absurd (omega arith)
flush_per_numa_lists_same (suc a) zero n cl back next ls to s e at le lt lt' = absurd (omega arith)
flush_per_numa_lists_same (suc a) (suc b) n cl back next ls to s e at le lt lt' =
    let l = get_or ls next [] in
    let r = flush_list_inner cl l to s in
    let ls' = set ls next r.from in
    let next' = if next + 1 == n then 0 else next + 1 in
    let e' : length ls' ≡ n = length-set ls next r.from ∙ e in
    let pages = total-set length ls next r.from [] (omega (arith, e)) in
    elim (Bool-cases (ltb back (length ls))) [
      | inr all ↦ rw all refl
      | inl more ↦
          rw (more, e)
            (elim (flush_list_inner-Shorter cl l to s) [
              | inl (yes_do, shorter) ↦
                  let k = ap (λ (t : ℕ). t * n) (one_less ls' ls r.from l pages shorter) in
                  rw yes_do (
                    flush_per_numa_lists_same a b n cl 0 next' ls' r.to r.state e'
                      (next_lt n next at) (omega arith) (ground (arith, k)) (ground (arith, k)))
              | inr (no_do, same) ↦
                  let k =
                    ap (λ (t : ℕ). t * n) (total_same ls' ls r.from l pages (ap length same)) in
                  rw no_do (
                    flush_per_numa_lists_same a b n cl (back + 1) next' ls' r.to r.state e'
                      (next_lt n next at) (ground arith) (ground (arith, k)) (ground (arith, k)))
            ])
    ]

-- The results of the two loops, with so many rounds each and with the rounds that `flush` gives them.
abbrev pub Ends : Closure → List Page → List (List Page) → List Page → FlushState → ℕ → ℕ → Type 0
Ends cl from ls to s a b =
    (flush_list a cl from to s ≡ flush_list (length from + 1) cl from to s)
    × (flush_per_numa_lists b cl 0 0 ls to s ≡ flush_per_numa_lists (rounds_for ls) cl 0 0 ls to s)

-- The loop over a list and the loop over the lists of the nodes, of which there is one at least, end
-- within the rounds that `flush` gives them: with more rounds the results are the same.
pub flush-Ends :
    (cl : Closure) (from : List Page) (ls : List (List Page)) (to : List Page) (s : FlushState)
    (a b : ℕ)
    → 0 < length ls
    → length from < a
    → rounds_for ls ≤ b
    → Ends cl from ls to s a b
flush-Ends cl from ls to s a b node lt le = (
  flush_list_same a (length from + 1) cl from to s lt (omega arith),
  flush_per_numa_lists_same b (rounds_for ls) (length ls) cl 0 0 ls to s refl node (omega arith)
      (omega arith) (omega arith),
)
