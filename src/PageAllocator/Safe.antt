-- ===== src/PageAllocator/Safe.antt =====
-- What it is for the accounts of zPageAllocator.cpp to add up, and that each section keeps it.
use zgc_primax.Base.{
  ℕ, zero, suc, ◌+◌, ◌≤◌, ◌≡◌, Option, none, some, List, [], ◌∷◌, ◌++◌, total, All, arith,
  uintptr_max, add64, sub64, ap, subst, sym, ◌∙◌, Extracted, All-append, total-append, if_cases,
  if◌then◌else◌,
}
use zgc_primax.PageCache.{Page, Platform}
use zgc_primax.PageAllocator.{
  GenerationId, young, old, Allocation, Allocator, increase_used_generation,
  decrease_used_generation, promote_used, decrease_capacity,
}
use zgc_primax.PageAllocator.Finalize.{FinalOutcome}
use zgc_primax.PageAllocator.Accounts.{CommonOutcome, alloc_page_common-CommonOutcome}
use zgc_primax.PageAllocator.Grants.{IsWaiting, IsGranted, SatisfyOutcome, with_stalled}
use zgc_primax.PageAllocator.Returns.{
  IsSound, IsFitIn, without, failed_base, free_pages-SatisfyOutcome, free_page_of-SatisfyOutcome,
  free_pages_alloc_failed-SatisfyOutcome,
}
use zgc_primax.PageAllocator.World.{
  World, handed_out, split_at, with_done, allocated, uncommitted, freed, promoted, finished,
}
use zgc_primax.PageAllocator.Uncommits.{ClaimOutcome, uncommit_finish-Uncommitted}
use zgc_primax.PageAllocator.Balance.{IsBalanced}
use zgc_primax.PageAllocator.Stalls.{notify_out_of_memory, has_alloc_seen_old}
use zgc_primax.PageAllocator.Sections.{
  alloc_page_common, alloc_page_or_stall, free_page_of, free_pages, free_pages_alloc_failed,
  uncommit_finish, size_in,
}

abbrev pub sizes : List Allocation → ℕ
sizes l = total (λ r. r.size) l

module _ (o : Platform) where
  -- What is used is what is handed out and what is granted, what is used by a generation is what its pages
  -- have, and what is claimed is what is being uncommitted.
  pub record IsSafe (w : World) : Type 0 where
    pub balanced : IsBalanced o w.allocator
    pub queue : All (IsWaiting o) w.allocator.stalled
    pub granted : All (IsGranted o) w.granted
    pub pages : All (IsFitIn o) w.pages
    pub used :
        w.allocator.used
        ≡ total (size_in young) w.pages + total (size_in old) w.pages + sizes w.granted
    pub used_young : w.allocator.used_young ≡ total (size_in young) w.pages
    pub used_old : w.allocator.used_old ≡ total (size_in old) w.pages
    pub claimed : w.allocator.claimed ≡ total (λ n. n) w.uncommits

  abbrev pub SafeSome : Option World → Type 0
  SafeSome none = ⊥
  SafeSome (some w) = IsSafe w

  sound : (w : World) → IsSafe w → IsSound o w.allocator
  sound w h = record {
    balanced = h.balanced;
    queue = h.queue;
    generations = omega (arith, h.used, h.used_young, h.used_old);
  }

  -- The requests that are satisfied join those that are granted.
  with_done-SafeSome :
      (w : World) (base : Allocator) (q : List Allocation)
      (x : Option (List Allocation × Allocator))
      → SatisfyOutcome o q base x
      → All (IsGranted o) w.granted
      → All (IsFitIn o) w.pages
      → base.used ≡ total (size_in young) w.pages + total (size_in old) w.pages + sizes w.granted
      → base.used_young ≡ total (size_in young) w.pages
      → base.used_old ≡ total (size_in old) w.pages
      → base.claimed ≡ total (λ n. n) w.uncommits
      → SafeSome (with_done w x)
  with_done-SafeSome w base q none t g p used y z c = t
  with_done-SafeSome w base q (some (done, a)) t g p used y z c = record {
    balanced = t.balanced;
    queue = t.waiting;
    granted = All-append (IsGranted o) done w.granted t.granted g;
    pages = p;
    used = omega (arith, t.used, used, total-append (λ (r : Allocation). r.size) done w.granted);
    used_young = t.young ∙ y;
    used_old = t.old ∙ z;
    claimed = t.claimed ∙ c;
  }

  -- A request that has to wait joins the queue.
  waits_lem :
      (r : Allocation) (w : World)
      → IsWaiting o r
      → IsSafe w
      → IsSafe (record w {
        allocator =
            if r.non_blocking
            then w.allocator
            else record w.allocator { stalled = w.allocator.stalled ++ r ∷ [] };
      })
  waits_lem r w waits h =
      if_cases (λ a. IsSafe (record w { allocator = a })) r.non_blocking (λ not_blocking. h)
        (λ blocking. record {
          balanced = with_stalled o w.allocator (w.allocator.stalled ++ r ∷ []) h.balanced;
          queue = All-append (IsWaiting o) w.allocator.stalled (r ∷ []) h.queue (waits, tt);
          granted = h.granted;
          pages = h.pages;
          used = h.used;
          used_young = h.used_young;
          used_old = h.used_old;
          claimed = h.claimed;
        })

  pub allocates-SafeSome :
      (now : ℕ) (r : Allocation) (w : World)
      → IsWaiting o r
      → IsSafe w
      → SafeSome (allocated o w (alloc_page_or_stall o now r w.allocator))
  unfolding alloc_page_or_stall
  allocates-SafeSome now r w waits h =
      elim (alloc_page_common o now r w.allocator)
          as (λ x.
            CommonOutcome o r w.allocator x
            → SafeSome (
                allocated o w (elim x [
                  | none ↦ none
                  | some (some r', a') ↦ some (some r', a')
                  | some (none, a') ↦ some (
                    none,
                    if r.non_blocking then a' else record a' { stalled = a'.stalled ++ r ∷ [] },
                  )
                ]))) [
                  | none ↦ λ t. t
                  | some (none, a') ↦ λ t. rw t.0 (waits_lem r w waits h)
                  | some (some r', a') ↦ λ t.
                      let type = ap (λ (x : Allocation). x.type) t.request in
                      let size = ap (λ (x : Allocation). x.size) t.request in
                      record {
                        balanced = t.balanced;
                        queue = subst (All (IsWaiting o)) (sym t.same.stalled) h.queue;
                        granted = (
                          (rw (type, size) waits.0, t.fits, omega (arith, t.within, size)),
                          h.granted,
                        );
                        pages = h.pages;
                        used = omega (arith, t.used, h.used, size);
                        used_young = t.same.young ∙ h.used_young;
                        used_old = t.same.old ∙ h.used_old;
                        claimed = t.same.claimed ∙ h.claimed;
                      }
                ]
        (alloc_page_common-CommonOutcome o now r w.allocator waits.0 waits.1 h.balanced)

  pub finalizes-SafeSome :
      (now : ℕ) (id : GenerationId) (r : Allocation) (rest : List Allocation)
      (x : Option Page × List Page) (w : World)
      → IsSafe w
      → IsGranted o r
      → All (IsGranted o) rest
      → sizes w.granted ≡ r.size + sizes rest
      → FinalOutcome o r x
      → SafeSome (handed_out o now id r x (record w { granted = rest }))
  unfolding handed_out increase_used_generation add64
  finalizes-SafeSome now id r rest (none, pages) w h g gs e t =
      let b = h.balanced in
      let r' : Allocation = record r { pages = pages } in
      with_done-SafeSome (record w { granted = rest }) (failed_base o r' w.allocator)
        w.allocator.stalled (free_pages_alloc_failed o now r' w.allocator)
        (free_pages_alloc_failed-SatisfyOutcome o now r' w.allocator (sound w h) t.0 t.1
          (omega (arith, h.used, e)))
        gs h.pages (omega (arith, h.used, e)) h.used_young h.used_old h.claimed
  finalizes-SafeSome now young r rest (some p, pages) w h g gs e t =
      let b = h.balanced in
      let small : w.allocator.used ≤ uintptr_max =
        omega (arith, b.balance, b.le_current, b.le_max, b.word) in
      record {
        balanced = record {
          wf = b.wf;
          balance = b.balance;
          le_current = b.le_current;
          le_max = b.le_max;
          word = b.word;
        };
        queue = h.queue;
        granted = gs;
        pages = ((rw (t.0, t.1) g.0), h.pages);
        used = omega (arith, t.1, e, h.used);
        used_young = omega (arith, t.1, e, h.used, h.used_young, small);
        used_old = omega (arith, h.used_old);
        claimed = h.claimed;
      }
  finalizes-SafeSome now old r rest (some p, pages) w h g gs e t =
      let b = h.balanced in
      let small : w.allocator.used ≤ uintptr_max =
        omega (arith, b.balance, b.le_current, b.le_max, b.word) in
      record {
        balanced = record {
          wf = b.wf;
          balance = b.balance;
          le_current = b.le_current;
          le_max = b.le_max;
          word = b.word;
        };
        queue = h.queue;
        granted = gs;
        pages = ((rw (t.0, t.1) g.0), h.pages);
        used = omega (arith, t.1, e, h.used);
        used_young = omega (arith, h.used_young);
        used_old = omega (arith, t.1, e, h.used, h.used_old, small);
        claimed = h.claimed;
      }

  pub frees-SafeSome :
      (now : ℕ) (w : World) (x : Option ((Page × GenerationId) × List (Page × GenerationId)))
      → IsSafe w
      → Extracted (IsFitIn o) w.pages x
      → SafeSome (freed o now w x)
  frees-SafeSome now w none h t = h
  frees-SafeSome now w (some ((p, id), rest)) h t =
      with_done-SafeSome (record w { pages = rest })
        (without (size_in young (p, id)) (size_in old (p, id)) w.allocator) w.allocator.stalled
        (free_page_of o now id p w.allocator)
        (free_page_of-SatisfyOutcome o now id p w.allocator (sound w h) t.0
          (omega (arith, t.2 (size_in young), h.used_young))
          (omega (arith, t.2 (size_in old), h.used_old)))
        h.granted t.1 (omega (arith, t.2 (size_in young), t.2 (size_in old), h.used))
        (omega (arith, t.2 (size_in young), h.used_young))
        (omega (arith, t.2 (size_in old), h.used_old)) h.claimed

  split_at_lem :
      (n : ℕ) (ps : List (Page × GenerationId))
      → All (IsFitIn o) ps
      → All (IsFitIn o) (split_at n ps).0
        × All (IsFitIn o) (split_at n ps).1
        × ((f : Page × GenerationId → ℕ)
            → total f ps ≡ total f (split_at n ps).0 + total f (split_at n ps).1)
  split_at_lem zero ps h = (tt, h, λ f. omega arith)
  split_at_lem (suc n) [] h = (tt, tt, λ f. omega arith)
  split_at_lem (suc n) (p ∷ ps) h =
      let t = split_at_lem n ps h.1 in ((h.0, t.0), t.1, λ f. omega (arith, t.2 f))

  pub frees_several-SafeSome :
      (n now : ℕ) (w : World)
      → IsSafe w
      → SafeSome (
          with_done
            (record w { pages = (split_at n w.pages).1 })
            (free_pages o now (split_at n w.pages).0 w.allocator))
  frees_several-SafeSome n now w h =
      let t = split_at_lem n w.pages h.pages in
      let ps = (split_at n w.pages).0 in
      with_done-SafeSome (record w { pages = (split_at n w.pages).1 })
        (without (total (size_in young) ps) (total (size_in old) ps) w.allocator)
        w.allocator.stalled (free_pages o now ps w.allocator)
        (free_pages-SatisfyOutcome o now ps w.allocator (sound w h) t.0
          (omega (arith, t.2 (size_in young), h.used_young))
          (omega (arith, t.2 (size_in old), h.used_old)))
        h.granted t.1 (omega (arith, t.2 (size_in young), t.2 (size_in old), h.used))
        (omega (arith, t.2 (size_in young), h.used_young))
        (omega (arith, t.2 (size_in old), h.used_old)) h.claimed

  pub promotes-SafeSome :
      (w : World) (x : Option ((Page × GenerationId) × List (Page × GenerationId)))
      → IsSafe w
      → Extracted (IsFitIn o) w.pages x
      → SafeSome (promoted o w x)
  unfolding promote_used increase_used_generation decrease_used_generation add64 sub64
  promotes-SafeSome w none h t = h
  promotes-SafeSome w (some ((p, old), rest)) h t = h
  promotes-SafeSome w (some ((p, young), rest)) h t =
      let b = h.balanced in
      let y = t.2 (size_in young) in
      let z = t.2 (size_in old) in
      let small : w.allocator.used ≤ uintptr_max =
        omega (arith, b.balance, b.le_current, b.le_max, b.word) in
      record {
        balanced = record {
          wf = b.wf;
          balance = b.balance;
          le_current = b.le_current;
          le_max = b.le_max;
          word = b.word;
        };
        queue = h.queue;
        granted = h.granted;
        pages = (t.0, t.1);
        used = omega (arith, y, z, h.used);
        used_young = omega (arith, y, z, h.used, h.used_young, small);
        used_old = omega (arith, y, z, h.used, h.used_old, small);
        claimed = h.claimed;
      }

  pub uncommits-SafeSome :
      (now delay granule : ℕ) (w : World) (x : Option (List Page × ℕ × ℕ × Allocator))
      → IsSafe w
      → ClaimOutcome o granule w.allocator x
      → SafeSome (uncommitted o w x)
  uncommits-SafeSome now delay granule w none h t = t
  uncommits-SafeSome now delay granule w (some (pages, flushed, timeout, a)) h t = record {
    balanced = t.balanced;
    queue = subst (All (IsWaiting o)) (sym t.stalled) h.queue;
    granted = h.granted;
    pages = h.pages;
    used = t.used ∙ h.used;
    used_young = t.young ∙ h.used_young;
    used_old = t.old ∙ h.used_old;
    claimed = ground (arith, t.claimed, h.claimed);
  }

  pub ends_uncommit-SafeSome :
      (w : World) (l : List ℕ) → w.uncommits ≡ l → IsSafe w → SafeSome (finished o w l)
  unfolding uncommit_finish decrease_capacity
  ends_uncommit-SafeSome w [] e h = h
  ends_uncommit-SafeSome w (flushed ∷ rest) e h =
      let c = ap (total (λ (n : ℕ). n)) e in
      let t =
        uncommit_finish-Uncommitted o flushed w.allocator h.balanced
          (omega (arith, c, h.claimed)) in
      record {
        balanced = t.0;
        queue = h.queue;
        granted = h.granted;
        pages = h.pages;
        used = h.used;
        used_young = h.used_young;
        used_old = h.used_old;
        claimed = omega (arith, t.2, c, h.claimed);
      }

  pub notify_out_of_memory-All :
      (P : Allocation → Type 0) (n : ℕ) (q : List Allocation)
      → All P q
      → All P (notify_out_of_memory n q).1
  unfolding notify_out_of_memory
  notify_out_of_memory-All P n [] h = tt
  notify_out_of_memory-All P n (r ∷ rest) h =
      if_cases {A = List Allocation × List Allocation} (λ x. All P x.1) (has_alloc_seen_old n r)
        (λ seen. notify_out_of_memory-All P n rest h.1) (λ new. h)
