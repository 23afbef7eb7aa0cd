-- ===== src/PageCache/Flush/Nodes.antt =====
-- What the flushing of the lists of all nodes in turn does in zPageCache.cpp.
use zgc_primax.Base.{
  ℕ, zero, suc, ◌+◌, ◌-◌, ◌*◌, ◌≤◌, ◌<◌, ◌≡◌, refl, ◌⊎◌, inl, inr, List, [], ltb, ◌==◌,
  if◌then◌else◌, length, total, get_or, set, arith, All, if_cases, length-set, total-set,
  get_or-set, All-set, All-get_or, ap, ◌∙◌, Bool-cases, ◌≢◌, le_of_ltb,
}
use zgc_primax.PageCache.{Page}
use zgc_primax.PageCache.Search.{Measure, holds}
use zgc_primax.PageCache.Flush.{
  Closure, for_allocation, for_uncommit, FlushState, flush_list_inner, flush_per_numa_lists,
}
use zgc_primax.PageCache.Flush.Lists.{
  IsTight, Moves, Moves-trans, HasEnough, Flushed, flush_list_inner-Flushed,
}

-- The list `i` is not one of the last `back` before the position, of `n` in a circle.
abbrev IsFar : ℕ → ℕ → ℕ → ℕ → Type 0
IsFar n back next i = ((i < next) × (i + back < next)) ⊎ ((next ≤ i) × (i + back < next + n))

IsFar-zero : (n next i : ℕ) → i < n → IsFar n 0 next i
IsFar-zero n next i h = ground arith

IsFar-next :
    (n back next i : ℕ)
    → i < n
    → i ≢ next
    → IsFar n back next i
    → IsFar n (back + 1) (if next + 1 == n then 0 else next + 1) i
IsFar-next n back next i h apart far = ground arith

all_seen : (n next i : ℕ) → next < n → IsFar n n next i → n ≤ i
all_seen n next i lt far = ground arith

pub next_lt : (n next : ℕ) → next < n → (if next + 1 == n then 0 else next + 1) < n
next_lt n next h = ground arith

abbrev pub in_lists : List (List Page) → Measure → ℕ
in_lists ls m = total (total (holds m)) ls

pub HasEnough-later :
    (cl : Closure) (l : List Page) (s s' : FlushState)
    → s'.requested ≡ s.requested
    → s.flushed ≤ s'.flushed
    → HasEnough cl l s
    → HasEnough cl l s'
HasEnough-later for_allocation l s s' same grows h = ground arith
HasEnough-later (for_uncommit now delay) l s s' same grows h = tt

pub Nat_cases : (a b : ℕ) → (a < b) ⊎ (b ≤ a)
Nat_cases a b = omega arith

pub one_less :
    (ls' ls : List (List Page)) (l' l : List Page)
    → total length ls' + length l ≡ total length ls + length l'
    → length l ≡ suc (length l')
    → total length ls ≡ suc (total length ls')
one_less ls' ls l' l e shorter = omega arith

pub total_same :
    (ls' ls : List (List Page)) (l' l : List Page)
    → total length ls' + length l ≡ total length ls + length l'
    → length l' ≡ length l
    → total length ls' ≡ total length ls
total_same ls' ls l' l e same = omega arith

module _ (P Q : Page → Type 0) (fit : (p : Page) → P p → Q p) (cl : Closure) (n : ℕ) where
  -- The lists in the end.
  abbrev pub FlushedNodes :
      List (List Page) → List Page → FlushState → List (List Page) × List Page × FlushState → Type 0
  FlushedNodes ls to s r =
      Moves (in_lists ls) (in_lists r.0) to r.1 s r.2
      × All (All P) r.0
      × All Q r.1
      × (length r.0 ≡ n)
      × ((i : ℕ) → (n ≤ i) ⊎ HasEnough cl (get_or r.0 i []) r.2)

  FlushedNodes-trans :
      (ls ls' : List (List Page)) (to to' : List Page) (s s' : FlushState)
      (r : List (List Page) × List Page × FlushState)
      → Moves (in_lists ls) (in_lists ls') to to' s s'
      → FlushedNodes ls' to' s' r
      → FlushedNodes ls to s r
  FlushedNodes-trans ls ls' to to' s s' r v f = (Moves-trans v f.0, f.1, f.2, f.3, f.4)

  -- Each list has been refused, unless it is beyond the end or was not tried again yet.
  abbrev Seen : ℕ → ℕ → List (List Page) → FlushState → Type 0
  Seen back next ls s = (i : ℕ) → (n ≤ i) ⊎ IsFar n back next i ⊎ HasEnough cl (get_or ls i []) s

  -- After a round that flushes a page, after one that does not, and in the end.
  pub Seen-flushed : (next : ℕ) (ls : List (List Page)) (s : FlushState) → Seen 0 next ls s
  Seen-flushed next ls s i = elim (Nat_cases i n) [
    | inl lt ↦ inr (inl (IsFar-zero n next i lt))
    | inr le ↦ inl le
  ]

  Seen-refused :
      (back next : ℕ) (ls : List (List Page)) (l : List Page) (s s' : FlushState)
      → length ls ≡ n
      → next < n
      → s'.requested ≡ s.requested
      → s.flushed ≤ s'.flushed
      → HasEnough cl l s'
      → Seen back next ls s
      → Seen (back + 1) (if next + 1 == n then 0 else next + 1) (set ls next l) s'
  Seen-refused back next ls l s s' e lt same grows enough seen i = elim (Bool-cases (next == i)) [
    | inl here ↦ inr (inr (rw (get_or-set ls next i l [] (omega (arith, e)), here) enough))
    | inr there ↦
        rw (get_or-set ls next i l [] (omega (arith, e)), there)
          (elim (seen i) [
            | inl le ↦ inl le
            | inr (inl far) ↦ elim (Nat_cases i n) [
              | inl in_range ↦ inr (inl (IsFar-next n back next i in_range (ground arith) far))
              | inr le ↦ inl le
            ]
            | inr (inr h) ↦ inr (inr (HasEnough-later cl (get_or ls i []) s s' same grows h))
          ])
  ]

  Seen-all :
      (back next : ℕ) (ls : List (List Page)) (s : FlushState)
      → n ≤ back
      → back ≤ n
      → next < n
      → Seen back next ls s
      → (i : ℕ) → (n ≤ i) ⊎ HasEnough cl (get_or ls i []) s
  Seen-all back next ls s all at lt seen i = elim (seen i) [
    | inl le ↦ inl le
    | inr (inl far) ↦ inl (ground arith)
    | inr (inr h) ↦ inr h
  ]

  flush_list_inner-Moves :
      (ls : List (List Page)) (next : ℕ) (to : List Page) (s : FlushState)
      → next < length ls
      → Flushed P Q fit cl (get_or ls next []) to s (flush_list_inner cl (get_or ls next []) to s)
      → let r = flush_list_inner cl (get_or ls next []) to s in
        Moves (in_lists ls) (in_lists (set ls next r.from)) to r.to s r.state
  flush_list_inner-Moves ls next to s here f =
      let r = flush_list_inner cl (get_or ls next []) to s in
      record {
        conserved = λ m.
            omega (arith, f.moves.conserved m, total-set (total (holds m)) ls next r.from [] here);
        counted = f.moves.counted;
        same = f.moves.same;
        grows = f.moves.grows;
        tight = f.moves.tight;
      }

  pub flush_per_numa_lists-FlushedNodes :
      (rounds back next : ℕ) (ls : List (List Page)) (to : List Page) (s : FlushState)
      → length ls ≡ n
      → total length ls * n + (n - back) < rounds
      → back ≤ n
      → next < n
      → All (All P) ls
      → All Q to
      → IsTight s to
      → Seen back next ls s
      → FlushedNodes ls to s (flush_per_numa_lists rounds cl back next ls to s)
  unfolding flush_per_numa_lists
  flush_per_numa_lists-FlushedNodes zero back next ls to s e lt b at h out tight seen =
      absurd (omega arith)
  flush_per_numa_lists-FlushedNodes (suc rounds) back next ls to s e lt b at h out tight seen =
      let l = get_or ls next [] in
      let r = flush_list_inner cl l to s in
      let f =
        flush_list_inner-Flushed P Q fit cl l to s (All-get_or (All P) ls next [] h tt) out tight in
      let ls' = set ls next r.from in
      let next' = if next + 1 == n then 0 else next + 1 in
      let here : next < length ls = omega (arith, e) in
      let e' : length ls' ≡ n = length-set ls next r.from ∙ e in
      let h' = All-set (All P) ls next r.from h f.typed in
      let pages = total-set length ls next r.from [] here in
      let one = flush_list_inner-Moves ls next to s here f in
      if_cases (FlushedNodes ls to s) (ltb back (length ls))
        (λ more. rw e (elim f.shorter [
          | inl (yes_do, shorter) ↦
              let k = ap (λ (t : ℕ). t * n) (one_less ls' ls r.from l pages shorter) in
              rw yes_do (
                FlushedNodes-trans ls ls' to r.to s r.state
                  (flush_per_numa_lists rounds cl 0 next' ls' r.to r.state) one
                  (flush_per_numa_lists-FlushedNodes rounds 0 next' ls' r.to r.state e'
                    (ground (arith, k)) (omega arith) (next_lt n next at) h' f.gone f.moves.tight
                    (Seen-flushed next' ls' r.state)))
          | inr (no_do, same, count, enough) ↦
              let k = ap (λ (t : ℕ). t * n) (total_same ls' ls r.from l pages (ap length same)) in
              rw no_do (
                FlushedNodes-trans ls ls' to r.to s r.state
                  (flush_per_numa_lists rounds cl (back + 1) next' ls' r.to r.state) one
                  (flush_per_numa_lists-FlushedNodes rounds (back + 1) next' ls' r.to r.state e'
                    (ground (arith, k)) (ground arith) (next_lt n next at) h' f.gone f.moves.tight
                    (Seen-refused back next ls r.from s r.state e at f.moves.same f.moves.grows
                      enough seen)))
        ]))
        (λ all. (
          record {
            conserved = λ m. refl;
            counted = refl;
            same = refl;
            grows = omega arith;
            tight = tight;
          },
          h,
          out,
          e,
          Seen-all back next ls s (omega (arith, le_of_ltb all)) b at seen,
        ))
