-- ===== src/Selector/SemiSort.antt =====
-- semi_sort of ZRelocationSetSelectorGroup is a stable sort by partition.
use zgc_primax.Base.{
  ℕ, zero, suc, ◌+◌, ◌^◌, ◌≤◌, ◌<◌, ◌≡◌, refl, ap, ap₂, ◌∙◌, sym, true, false, ◌==◌, if◌then◌else◌,
  Option, none, some, List, [], ◌∷◌, ◌++◌, map, length, set, All, arith, Bool-cases, ℕ_discrete,
  length-append, append-nil, append_assoc, inl, inr,
}
use mathlib.Core.Path.{fun_ext}
use mathlib.Core.List.{map-append}
use native.Mathlib.Nat.{zero-add}
use zgc_primax.Selector.{
  Page, at_put, count_slots, place_pages, set_fingers, nulls, pages_of, semi_sort_by, semi_sort,
  partition_of, npartitions_shift,
}

module _ (index : Page → ℕ) where
  -- The pages of a partition, in their order.
  unfoldable pub partition : ℕ → List Page → List Page
  partition i [] = []
  partition i (p ∷ ps) = if index p == i then p ∷ partition i ps else partition i ps

  -- The pages of `n` partitions from `i` on, one partition after the other.
  unfoldable pub partitions_from : ℕ → ℕ → List Page → List Page
  partitions_from zero i pages = []
  partitions_from (suc n) i pages = partition i pages ++ partitions_from n (suc i) pages

-- The sum of `n` entries from `i` on.
sum_from : ℕ → ℕ → (ℕ → ℕ) → ℕ
sum_from zero i f = 0
sum_from (suc n) i f = f i + sum_from n (suc i) f

sum_from-at_put : (n i j v : ℕ) (f : ℕ → ℕ) → j < i → sum_from n i (at_put f j v) ≡ sum_from n i f
unfolding sum_from at_put
sum_from-at_put zero i j v f h = refl
sum_from-at_put (suc n) i j v f h = ground (arith, sum_from-at_put n (suc i) j v f)

set_fingers_before : (n i finger k : ℕ) (f : ℕ → ℕ) → k < i → set_fingers n i finger f k ≡ f k
unfolding set_fingers at_put
set_fingers_before zero i finger k f h = refl
set_fingers_before (suc n) i finger k f h =
    set_fingers_before n (suc i) (finger + f i) k (at_put f i finger) (omega arith) ∙ ground arith

-- A finger is where the partitions before it end.
set_fingers_lem :
    (n i finger k : ℕ) (f : ℕ → ℕ)
    → k < n
    → set_fingers n i finger f (i + k) ≡ finger + sum_from k i f
unfolding set_fingers sum_from at_put
set_fingers_lem zero i finger k f h = absurd (omega arith)
set_fingers_lem (suc n) i finger zero f h =
    let e : i + 0 ≡ i = omega arith in
    rw e (
      set_fingers_before n (suc i) (finger + f i) i (at_put f i finger) (omega arith)
      ∙ ground arith)
set_fingers_lem (suc n) i finger (suc k) f h =
    let e : i + suc k ≡ suc i + k = omega arith in
    rw e (
      set_fingers_lem n (suc i) (finger + f i) k (at_put f i finger) (omega arith)
      ∙ omega (arith, sum_from-at_put k (suc i) i finger f))

-- A write behind a list, and at the first null of a block.
set-append {ℓ} :
    {A : Type ℓ} (xs ys : List A) (k : ℕ) (v : A)
    → set (xs ++ ys) (length xs + k) v ≡ xs ++ set ys k v
set-append [] ys k v = rw (zero-add k) refl
set-append (x ∷ xs) ys k v =
    let e : suc (length xs) + k ≡ suc (length xs + k) = omega arith in
    rw e (ap (λ l. x ∷ l) (set-append xs ys k v))

length-map-some : (xs : List Page) → length (map {B = Option Page} some xs) ≡ length xs
length-map-some [] = refl
length-map-some (x ∷ xs) = ap suc (length-map-some xs)

set-block :
    (block : List Page) (p : Page) (free : List (Option Page)) (m : ℕ) (rest : List (Option Page))
    → free ≡ none ∷ nulls m
    → set ((map some block ++ free) ++ rest) (length block) (some p)
      ≡ (map some block ++ some p ∷ nulls m) ++ rest
set-block [] p free m rest e = rw e refl
set-block (b ∷ block) p free m rest e = ap (λ l. some b ∷ l) (set-block block p free m rest e)

some_last :
    (xs : List Page) (p : Page) (ys : List (Option Page))
    → map some xs ++ some p ∷ ys ≡ map some (xs ++ p ∷ []) ++ ys
some_last [] p ys = refl
some_last (x ∷ xs) p ys = ap (λ l. some x ∷ l) (some_last xs p ys)

length-nulls : (m : ℕ) → length (nulls m) ≡ m
unfolding nulls
length-nulls zero = refl
length-nulls (suc m) = ap suc (length-nulls m)

nulls-append : (a b : ℕ) → nulls a ++ nulls b ≡ nulls (a + b)
unfolding nulls
nulls-append zero b = rw (zero-add b) refl
nulls-append (suc a) b =
    let e : suc a + b ≡ suc (a + b) = omega arith in rw e (ap (λ l. none ∷ l) (nulls-append a b))

sum_zero : (n i : ℕ) → sum_from n i (λ x. 0) ≡ 0
unfolding sum_from
sum_zero zero i = refl
sum_zero (suc n) i = omega (arith, sum_zero n (suc i))

abbrev bumped : ℕ → (ℕ → ℕ) → ℕ → ℕ
bumped j f x = if j == x then suc (f x) else f x

sum_from_after : (n i j : ℕ) (f : ℕ → ℕ) → j < i → sum_from n i (bumped j f) ≡ sum_from n i f
unfolding sum_from
sum_from_after zero i j f h = refl
sum_from_after (suc n) i j f h = ground (arith, sum_from_after n (suc i) j f)

sum_from-bumped :
    (n i j : ℕ) (f : ℕ → ℕ) → i ≤ j → j < i + n → sum_from n i (bumped j f) ≡ suc (sum_from n i f)
unfolding sum_from
sum_from-bumped zero i j f h k = absurd (omega arith)
sum_from-bumped (suc n) i j f h k = elim (ℕ_discrete j i) [
  | yes e ↦ ground (arith, sum_from_after n (suc i) j f)
  | no ne ↦ ground (arith, sum_from-bumped n (suc i) j f)
]

module _ (index : Page → ℕ) where
  count_slots_lem :
      (pages : List Page) (f : ℕ → ℕ) (i : ℕ)
      → count_slots index pages f i ≡ f i + length (partition index i pages)
  unfolding count_slots partition at_put
  count_slots_lem [] f i = omega arith
  count_slots_lem (p ∷ ps) f i =
      count_slots_lem ps (at_put f (index p) (f (index p) + 1)) i ∙ ground arith

  abbrev held : List Page → ℕ → ℕ
  held pages i = length (partition index i pages)

  -- The array when the pages `done` are in their places and the pages `left` are not.
  layout : ℕ → ℕ → List Page → List Page → List (Option Page)
  layout zero i done left = []
  layout (suc n) i done left =
      (map some (partition index i done) ++ nulls (held left i)) ++ layout n (suc i) done left

  partition-snoc :
      (i : ℕ) (done : List Page) (p : Page)
      → partition index i (done ++ p ∷ [])
        ≡ (if index p == i then partition index i done ++ p ∷ [] else partition index i done)
  unfolding partition
  partition-snoc i [] p = refl
  partition-snoc i (d ∷ done) p = ground (arith, partition-snoc i done p)

  held_cons :
      (i : ℕ) (p : Page) (ps : List Page)
      → held (p ∷ ps) i ≡ (if index p == i then suc (held ps i) else held ps i)
  unfolding partition
  held_cons i p ps = ground arith

  block_other :
      (i : ℕ) (done : List Page) (p : Page) (left : List Page)
      → (index p == i) ≡ false
      → map some (partition index i done) ++ nulls (held (p ∷ left) i)
        ≡ map some (partition index i (done ++ p ∷ [])) ++ nulls (held left i)
  block_other i done p left h = rw (held_cons i p left, partition-snoc i done p, h) refl

  -- The partitions of other pages are laid out as before.
  layout_other :
      (n i : ℕ) (done : List Page) (p : Page) (left : List Page)
      → index p < i
      → layout n i done (p ∷ left) ≡ layout n i (done ++ p ∷ []) left
  unfolding layout
  layout_other zero i done p left h = refl
  layout_other (suc n) i done p left h =
      let apart' : (index p == i) ≡ false = ground arith in
      let block = block_other i done p left apart' in
      ap₂ (◌++◌) block (layout_other n (suc i) done p left (omega arith))

  held_here :
      (i : ℕ) (p : Page) (left : List Page)
      → (index p == i) ≡ true
      → nulls (held (p ∷ left) i) ≡ none ∷ nulls (held left i)
  unfolding nulls
  held_here i p left h = rw (held_cons i p left, h) refl

  block_here :
      (i : ℕ) (done : List Page) (p : Page) (left : List Page)
      → (index p == i) ≡ true
      → map some (partition index i done) ++ some p ∷ nulls (held left i)
        ≡ map some (partition index i (done ++ p ∷ [])) ++ nulls (held left i)
  block_here i done p left h =
      rw (partition-snoc i done p, h) (some_last (partition index i done) p (nulls (held left i)))

  layout-set :
      (n i k : ℕ) (done : List Page) (p : Page) (left : List Page)
      → index p ≡ i + k
      → k < n
      → set
          (layout n i done (p ∷ left))
          (sum_from k i (λ x. held done x + held (p ∷ left) x) + held done (i + k))
          (some p)
        ≡ layout n i (done ++ p ∷ []) left
  unfolding layout sum_from
  layout-set zero i k done p left e h = absurd (omega arith)
  layout-set (suc n) i zero done p left e h =
      let here' : (index p == i) ≡ true = ground arith in
      let same : i + 0 ≡ i = omega arith in
      let zero' : 0 + held done (i + 0) ≡ held done i =
        zero-add (held done (i + 0)) ∙ ap (λ x. held done x) same in
      let rest = layout_other n (suc i) done p left (omega arith) in
      rw (zero') (
        set-block (partition index i done) p (nulls (held (p ∷ left) i)) (held left i)
          (layout n (suc i) done (p ∷ left)) (held_here i p left here')
        ∙ ap₂ (◌++◌) (block_here i done p left here') rest)
  layout-set (suc n) i (suc k) done p left e h =
      let apart' : (index p == i) ≡ false = ground arith in
      let next : i + suc k ≡ suc i + k = omega arith in
      let c : ℕ → ℕ = λ x. held done x + held (p ∷ left) x in
      let block : List (Option Page) =
        map some (partition index i done) ++ nulls (held (p ∷ left) i) in
      let size : length block ≡ c i =
        length-append (map some (partition index i done)) (nulls (held (p ∷ left) i))
        ∙ ap₂ (◌+◌) (length-map-some (partition index i done)) (length-nulls (held (p ∷ left) i)) in
      let place : sum_from (suc k) i c + held done (i + suc k)
          ≡ length block + (sum_from k (suc i) c + held done (suc i + k)) =
        rw next (omega (arith, size)) in
      rw place (
        set-append block (layout n (suc i) done (p ∷ left))
          (sum_from k (suc i) c + held done (suc i + k)) (some p)
        ∙ ap₂ (◌++◌) (block_other i done p left apart')
            (layout-set n (suc i) k done p left (omega arith) (omega arith)))

  held-snoc :
      (i : ℕ) (done : List Page) (p : Page)
      → held (done ++ p ∷ []) i ≡ (if index p == i then held done i + 1 else held done i)
  held-snoc i done p = ap length (partition-snoc i done p) ∙ elim (Bool-cases (index p == i)) [
    | inl e ↦ rw e (length-append (partition index i done) (p ∷ []))
    | inr e ↦ rw e refl
  ]

  -- The number of pages of a partition, in place or not.
  abbrev counts : List Page → List Page → ℕ → ℕ
  counts done left i = held done i + held left i

  moved :
      (done : List Page) (p : Page) (left : List Page)
      → counts (done ++ p ∷ []) left ≡ counts done (p ∷ left)
  moved done p left = fun_ext (λ x. ground (arith, held-snoc x done p, held_cons x p left))

  layout_done :
      (n i : ℕ) (pages : List Page)
      → layout n i pages [] ≡ map some (partitions_from index n i pages)
  unfolding layout partitions_from partition nulls
  layout_done zero i pages = refl
  layout_done (suc n) i pages =
      ap₂ (◌++◌) (append-nil (map some (partition index i pages))) (layout_done n (suc i) pages)
      ∙ sym (map-append some (partition index i pages) (partitions_from index n (suc i) pages))

  moved_finger :
      (done : List Page) (p : Page) (left : List Page) (fingers : ℕ → ℕ) (k : ℕ)
      → fingers k ≡ sum_from k 0 (counts done (p ∷ left)) + held done k
      → fingers (index p) ≡ sum_from (index p) 0 (counts done (p ∷ left)) + held done (index p)
      → at_put fingers (index p) (fingers (index p) + 1) k
        ≡ sum_from k 0 (counts done (p ∷ left)) + held (done ++ p ∷ []) k
  unfolding at_put
  moved_finger done p left fingers k f g = elim (ℕ_discrete (index p) k) [
    | yes e ↦ rw (← e) (ground (arith, held-snoc (index p) done p, g))
    | no ne ↦ ground (arith, held-snoc k done p, f)
  ]

  place_pages_lem :
      (n : ℕ) (left done : List Page) (fingers : ℕ → ℕ)
      → All (λ p. index p < n) left
      → ((k : ℕ) → k < n → fingers k ≡ sum_from k 0 (counts done left) + held done k)
      → place_pages index left fingers (layout n 0 done left)
        ≡ map some (partitions_from index n 0 (done ++ left))
  unfolding place_pages at_put
  place_pages_lem n [] done fingers h f =
      layout_done n 0 done
      ∙ ap (λ l. map some (partitions_from index n 0 l)) (sym (append-nil done))
  place_pages_lem n (p ∷ left) done fingers h f =
      let j : ℕ = index p in
      let done' : List Page = done ++ p ∷ [] in
      let same : index p ≡ 0 + index p = omega arith in
      let step = layout-set n 0 (index p) done p left same h.0 in
      let place : fingers (index p)
          ≡ sum_from (index p) 0 (counts done (p ∷ left)) + held done (0 + index p) =
        f (index p) h.0
        ∙ ap (λ x. sum_from (index p) 0 (counts done (p ∷ left)) + held done x) same in
      let fingers' : (k : ℕ)
          → k < n
          → (if index p == k then fingers (index p) + 1 else fingers k)
            ≡ sum_from k 0 (counts done' left) + held done' k =
        λ k lt.
          rw (moved done p left) (moved_finger done p left fingers k (f k lt) (f (index p) h.0)) in
      let whole : (done ++ p ∷ []) ++ left ≡ done ++ p ∷ left = append_assoc done (p ∷ []) left in
      let put = ap (λ x. set (layout n 0 done (p ∷ left)) x (some p)) place ∙ step in
      ap (place_pages index left (at_put fingers (index p) (fingers (index p) + 1))) put
      ∙ place_pages_lem n left done' _ h.1 fingers'
      ∙ ap (λ l. map some (partitions_from index n 0 l)) whole

  layout_none :
      (n i : ℕ) (pages : List Page) → layout n i [] pages ≡ nulls (sum_from n i (held pages))
  unfolding layout partition nulls sum_from
  layout_none zero i pages = refl
  layout_none (suc n) i pages =
      ap (λ l. nulls (held pages i) ++ l) (layout_none n (suc i) pages)
      ∙ nulls-append (held pages i) (sum_from n (suc i) (held pages))

  sum_held :
      (n : ℕ) (pages : List Page)
      → All (λ p. index p < n) pages
      → sum_from n 0 (held pages) ≡ length pages
  unfolding partition
  sum_held n [] h = sum_zero n 0
  sum_held n (p ∷ ps) h =
      let e : held (p ∷ ps) ≡ bumped (index p) (held ps) = fun_ext (λ x. held_cons x p ps) in
      rw e (
        sum_from-bumped n 0 (index p) (held ps) (omega arith) (omega (arith, h.0))
        ∙ ap suc (sum_held n ps h.1))

  first_finger :
      (n : ℕ) (pages : List Page) (k : ℕ)
      → k < n
      → set_fingers n 0 0 (count_slots index pages (λ i. 0)) k
        ≡ sum_from k 0 (counts [] pages) + held [] k
  unfolding partition
  first_finger n pages k lt =
      let same : 0 + k ≡ k = omega arith in
      let slots : count_slots index pages (λ i. 0) ≡ counts [] pages =
        fun_ext (λ i. count_slots_lem pages (λ i. 0) i) in
      ap (set_fingers n 0 0 (count_slots index pages (λ i. 0))) (sym same)
      ∙ set_fingers_lem n 0 0 k (count_slots index pages (λ i. 0)) lt
      ∙ rw slots (omega arith)

  semi_sort_by_lem :
      (n : ℕ) (pages : List Page)
      → All (λ p. index p < n) pages
      → semi_sort_by index n pages ≡ map some (partitions_from index n 0 pages)
  unfolding semi_sort_by
  semi_sort_by_lem n pages h =
      let empty : nulls (length pages) ≡ layout n 0 [] pages =
        sym (layout_none n 0 pages ∙ ap nulls (sum_held n pages h)) in
      rw empty (place_pages_lem n pages [] _ h (λ k lt. first_finger n pages k lt))

pages_of-map-some : (pages : List Page) → pages_of (map some pages) ≡ some pages
unfolding pages_of
pages_of-map-some [] = refl
pages_of-map-some (p ∷ ps) = rw (pages_of-map-some ps, pages_of) refl

-- If each page is in one of the partitions then `semi_sort` leaves no null, and the pages are the
-- partitions' pages, one partition after the other, in their old order within a partition.
pub semi_sort-partitions_from :
    (page_size : ℕ) (pages : List Page)
    → All (λ p. partition_of page_size p < 2 ^ npartitions_shift) pages
    → semi_sort page_size pages
      ≡ some (partitions_from (partition_of page_size) (2 ^ npartitions_shift) 0 pages)
unfolding semi_sort
semi_sort-partitions_from page_size pages h =
    ap pages_of (semi_sort_by_lem (partition_of page_size) (2 ^ npartitions_shift) pages h)
    ∙ pages_of-map-some _
