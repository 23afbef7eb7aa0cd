-- ===== src/Selector/Reclaim.antt =====
-- The loop of ZGeneration::select_relocation_set over the pages, and free_empty_pages, zGeneration.cpp. The pages
-- that are given to ZHeap::free_empty_pages are kept, one list for each call.
use zgc_primax.Base.{
  ℕ, ◌≤◌, ◌<◌, ◌≡◌, refl, ap, ◌∙◌, sym, Bool, true, false, not, ◌&&◌, ltb, leb, if◌then◌else◌, List,
  [], ◌∷◌, ◌++◌, length, All, All-append, arith, append_assoc, append-nil, length-append, if_cases,
}
use zgc_primax.PageCache.{PageType, small, medium, large}
use zgc_primax.Selector.{Group, register_live_page, register_empty_page}
use zgc_primax.Selector.Register.{
  Registered, Selector, in_group, register_live, register_empty, should_free_empty_pages,
  clear_empty_pages,
}

-- A page of the page table, as the loop sees it.
pub record Found : Type 0 where
  pub registered : Registered
  pub is_relocatable : Bool
  pub is_marked : Bool

pub record Reclaiming : Type 0 where
  pub selector : Selector
  pub freed : List (List Registered)

unfoldable pub free_empty_pages : ℕ → Reclaiming → Reclaiming
free_empty_pages bulk r =
    if should_free_empty_pages bulk r.selector
    then record {
      selector = clear_empty_pages r.selector;
      freed = r.freed ++ r.selector.empty_pages ∷ [];
    }
    else r

unfoldable pub visit : Found → Reclaiming → Reclaiming
visit p r =
    if not p.is_relocatable
    then r
    else if p.is_marked
    then record r { selector = register_live p.registered r.selector }
    else free_empty_pages 64 (record r { selector = register_empty p.registered r.selector })

unfoldable pub visit_all : List Found → Reclaiming → Reclaiming
visit_all [] r = r
visit_all (p ∷ ps) r = visit_all ps (visit p r)

unfoldable pub register_pages : List Found → Selector → Reclaiming
register_pages pages s = free_empty_pages 0 (visit_all pages (record { selector = s; freed = [] }))

-- The pages that can be reclaimed as they are.
unfoldable pub garbage_pages : List Found → List Registered
garbage_pages [] = []
garbage_pages (p ∷ ps) =
    if p.is_relocatable && not p.is_marked
    then p.registered ∷ garbage_pages ps
    else garbage_pages ps

unfoldable pub concat : List (List Registered) → List Registered
concat [] = []
concat (b ∷ bs) = b ++ concat bs

concat-append : (xs ys : List (List Registered)) → concat (xs ++ ys) ≡ concat xs ++ concat ys
unfolding concat
concat-append [] ys = refl
concat-append (x ∷ xs) ys =
    ap (λ l. x ++ l) (concat-append xs ys) ∙ sym (append_assoc x (concat xs) (concat ys))

abbrev pub IsBatch : List Registered → Type 0
IsBatch b = (1 ≤ length b) × (length b ≤ 64)

-- The batches, and the pages that wait for the next one.
record Frees (garbage : List Registered) (r : Reclaiming) : Type 0 where
  few : length r.selector.empty_pages < 64
  batches : All IsBatch r.freed
  all : concat r.freed ++ r.selector.empty_pages ≡ garbage

in_group-empty_pages :
    (t : PageType) (f : Group → Group) (s : Selector) → (in_group t f s).empty_pages ≡ s.empty_pages
unfolding in_group
in_group-empty_pages small f s = refl
in_group-empty_pages medium f s = refl
in_group-empty_pages large f s = refl

free_empty_pages-Frees :
    (garbage : List Registered) (r : Reclaiming) (bulk : ℕ)
    → length r.selector.empty_pages ≤ 64
    → bulk ≤ 64
    → All IsBatch r.freed
    → concat r.freed ++ r.selector.empty_pages ≡ garbage
    → Frees garbage (free_empty_pages bulk r)
unfolding free_empty_pages should_free_empty_pages clear_empty_pages concat
free_empty_pages-Frees garbage r bulk few le batches all =
    if_cases (Frees garbage) (should_free_empty_pages bulk r.selector)
      (λ e. record {
        few = omega arith;
        batches =
            All-append IsBatch r.freed (r.selector.empty_pages ∷ []) batches
              ((ground arith, few), tt);
        all =
            rw
              (
                concat-append r.freed (r.selector.empty_pages ∷ []),
                append-nil r.selector.empty_pages,
                append-nil (concat r.freed ++ r.selector.empty_pages),
              )
              all;
      })
      (λ e. record { few = ground arith; batches = batches; all = all })

found-Frees :
    (garbage : List Registered) (q : Registered) (relocatable marked : Bool) (r : Reclaiming)
    → Frees garbage r
    → let p : Found = record { registered = q; is_relocatable = relocatable; is_marked = marked } in
      Frees (garbage ++ garbage_pages (p ∷ [])) (visit p r)
unfolding visit garbage_pages register_live register_empty
found-Frees garbage q false marked r h = rw (append-nil garbage) h
found-Frees garbage q true true r h =
    let same = in_group-empty_pages q.type (register_live_page q.page) r.selector in
    rw (append-nil garbage)
      (record { few = rw same h.few; batches = h.batches; all = rw same h.all })
found-Frees garbage q true false r h =
    let empty = r.selector.empty_pages in
    let same = in_group-empty_pages q.type (register_empty_page q.page) r.selector in
    free_empty_pages-Frees (garbage ++ q ∷ []) (record r { selector = register_empty q r.selector })
      64 (rw same (omega (arith, h.few, length-append empty (q ∷ [])))) (omega arith) h.batches
      (rw same (sym (append_assoc (concat r.freed) empty (q ∷ [])) ∙ ap (λ l. l ++ q ∷ []) h.all))

garbage_pages-cons :
    (p : Found) (ps : List Found)
    → garbage_pages (p ∷ ps) ≡ garbage_pages (p ∷ []) ++ garbage_pages ps
unfolding garbage_pages
garbage_pages-cons p ps =
    if_cases
      (λ l.
        (if p.is_relocatable && not p.is_marked
          then p.registered ∷ garbage_pages ps
          else garbage_pages ps)
        ≡ l ++ garbage_pages ps)
      (p.is_relocatable && not p.is_marked) (λ e. rw e refl) (λ e. rw e refl)

visit_all-Frees :
    (garbage : List Registered) (ps : List Found) (r : Reclaiming)
    → Frees garbage r
    → Frees (garbage ++ garbage_pages ps) (visit_all ps r)
unfolding visit_all garbage_pages
visit_all-Frees garbage [] r h = rw (append-nil garbage) h
visit_all-Frees garbage (p ∷ ps) r h =
    let rest =
      visit_all-Frees (garbage ++ garbage_pages (p ∷ [])) ps (visit p r)
        (found-Frees garbage p.registered p.is_relocatable p.is_marked r h) in
    rw (garbage_pages-cons p ps)
      (rw (append_assoc garbage (garbage_pages (p ∷ [])) (garbage_pages ps)) at rest)

none_left : (l : List Registered) → leb 0 (length l) && ltb 0 (length l) ≡ false → l ≡ []
none_left [] e = refl
none_left (x ∷ l) e = ground arith

free_empty_pages_all : (r : Reclaiming) → (free_empty_pages 0 r).selector.empty_pages ≡ []
unfolding free_empty_pages should_free_empty_pages clear_empty_pages
free_empty_pages_all r =
    if_cases (λ (r' : Reclaiming). r'.selector.empty_pages ≡ [])
      (should_free_empty_pages 0 r.selector) (λ e. refl) (none_left r.selector.empty_pages)

-- The loop of `select_relocation_set` over the pages, and the call behind it, started with no empty
-- page registered. The pages handed to ZHeap::`free_empty_pages` are just the relocatable pages
-- that are not marked, each once and in their order, in batches of one page to 64, and the selector
-- keeps none of them.
pub register_pages-Freed :
    (pages : List Found) (s : Selector)
    → s.empty_pages ≡ []
    → let r = register_pages pages s in
      (concat r.freed ≡ garbage_pages pages) × All IsBatch r.freed × (r.selector.empty_pages ≡ [])
unfolding register_pages concat
register_pages-Freed pages s e =
    let start : Frees [] (record { selector = s; freed = [] }) = record {
      few = rw e (omega arith);
      batches = tt;
      all = e;
    } in
    let h = visit_all-Frees [] pages (record { selector = s; freed = [] }) start in
    let r = visit_all pages (record { selector = s; freed = [] }) in
    let done =
      free_empty_pages-Frees (garbage_pages pages) r 0 (omega (arith, h.few)) (omega arith)
        h.batches h.all in
    let nil : (free_empty_pages 0 r).selector.empty_pages ≡ [] = free_empty_pages_all r in
    (
      sym (append-nil (concat (register_pages pages s).freed)) ∙ (rw nil at (done.all)),
      done.batches,
      nil,
    )
