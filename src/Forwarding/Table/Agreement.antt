-- ===== src/Forwarding/Table/Agreement.antt =====
-- That the threads that relocate the same object with the forwarding table of zForwarding.inline.hpp get
-- the same offset.
use zgc_primax.Base.{
  ℕ, zero, suc, ◌^◌, ◌<◌, ◌≡◌, ◌≢◌, refl, ◌⊎◌, inl, inr, true, false, List, [], ◌∷◌, ◌==◌, arith,
  ap, ◌∙◌, subst, length, set, length-set, get_or-set, if◌then◌else◌, if_cases, All, Bool-cases,
  IsAt, run_in, run_in-All,
}
use zgc_primax.Forwarding.Entry.{
  new_entry, populated, from_index, to_offset, new_entry_fields, populated-zero,
}
use zgc_primax.Forwarding.Table.{
  at, next, Relocation, finds, exchanges, searches, forwarded, find_read, exchange, insert_read,
  relocate_step, relocates,
}
use zgc_primax.Forwarding.Table.Probe.{
  probe, first-probe, next-probe, IsTable, probe_in_bounds, IsPassed, HasEntry, HasEntry_unique,
  Grows, Grows-IsPassed, Grows-HasEntry, Grows-refl,
}

pub eq_of_test : {a b : ℕ} → (a == b) ≡ true → a ≡ b
eq_of_test h = ground arith

pub same_test : (a x y : ℕ) → (if a == a then x else y) ≡ x
same_test a x y = ground arith

pub full_test : (x : ℕ) → populated x ≡ true → (x == 0) ≡ false
full_test x full = elim (Bool-cases (x == 0)) [
  | inr e ↦ e
  | inl e ↦
      let zero_here : populated x ≡ false = ap populated (eq_of_test e) ∙ populated-zero in
      absurd (ground (arith, zero_here, full))
]

All-IsAt :
    {A : Type 0} (P : A → Type 0) (i : ℕ) (t : A) (ts : List A) → All P ts → IsAt i t ts → P t
All-IsAt P i t [] h at_t = elim at_t [ ]
All-IsAt P zero t (x ∷ ts) h at_t = subst P at_t h.0
All-IsAt P (suc i) t (x ∷ ts) h at_t = All-IsAt P i t ts h.1 at_t

-- An index and an offset that fit an entry.
abbrev pub IsJob : ℕ × ℕ → Type 0
IsJob job = (job.0 < 2 ^ 18) × (job.1 < 2 ^ 45)

-- A thread for each object.
abbrev pub start_all : List ℕ → List (ℕ × ℕ) → List Relocation
start_all e [] = []
start_all e (job ∷ jobs) = relocates e job.0 job.1 ∷ start_all e jobs

module _ (b : ℕ) where
  abbrev n : ℕ
  n = 2 ^ b

  -- The thread has passed the entries before its cursor, and its key and offset have enough bits.
  pub record IsProbing (e : List ℕ) (key offset cursor : ℕ) : Type 0 where
    pub rounds : ℕ
    pub here : cursor ≡ probe n key rounds
    pub passed : IsPassed n e key rounds
    pub key_fits : key < 2 ^ 18
    pub offset_fits : offset < 2 ^ 45

  abbrev pub Rely : List ℕ → Relocation → Type 0
  Rely e (finds key offset cursor) = IsProbing e key offset cursor
  Rely e (exchanges key offset cursor) = IsProbing e key offset cursor
  Rely e (searches key offset cursor) = IsProbing e key offset cursor
  Rely e (forwarded key offset) = HasEntry n e key offset

  IsProbing-stable :
      (e e' : List ℕ) (key offset cursor : ℕ)
      → Grows n e e'
      → IsProbing e key offset cursor
      → IsProbing e' key offset cursor
  IsProbing-stable e e' key offset cursor g h = record {
    rounds = h.rounds;
    here = h.here;
    passed = Grows-IsPassed n e e' key h.rounds g h.passed;
    key_fits = h.key_fits;
    offset_fits = h.offset_fits;
  }

  pub Rely-stable : (e e' : List ℕ) → Grows n e e' → (t : Relocation) → Rely e t → Rely e' t
  Rely-stable e e' g (finds key offset cursor) h = IsProbing-stable e e' key offset cursor g h
  Rely-stable e e' g (exchanges key offset cursor) h = IsProbing-stable e e' key offset cursor g h
  Rely-stable e e' g (searches key offset cursor) h = IsProbing-stable e e' key offset cursor g h
  Rely-stable e e' g (forwarded key offset) h = Grows-HasEntry n e e' key offset g h

  -- A populated entry at the cursor: it is of the key, or it is passed.
  found :
      (e : List ℕ) (key offset cursor : ℕ)
      → IsProbing e key offset cursor
      → populated (at e cursor) ≡ true
      → from_index (at e cursor) ≡ key
      → HasEntry n e key (to_offset (at e cursor))
  found e key offset cursor h x y = rw h.here (
    h.rounds,
    h.passed,
    subst (λ c. populated (at e c) ≡ true) h.here x,
    subst (λ c. from_index (at e c) ≡ key) h.here y,
    refl,
  )

  passes :
      (e : List ℕ) (key offset cursor : ℕ)
      → IsTable b e
      → IsProbing e key offset cursor
      → populated (at e cursor) ≡ true
      → from_index (at e cursor) ≢ key
      → IsProbing e key offset (next e cursor)
  passes e key offset cursor t h x y = record {
    rounds = suc h.rounds;
    here =
        ap (next e) h.here
        ∙ subst (λ k. next e (probe k key h.rounds) ≡ probe k key (suc h.rounds)) t.size
            (next-probe e key h.rounds);
    passed = (
      h.passed,
      (
        subst (λ c. populated (at e c) ≡ true) h.here x,
        subst (λ c. from_index (at e c) ≢ key) h.here y,
      ),
    );
    key_fits = h.key_fits;
    offset_fits = h.offset_fits;
  }

  -- An exchange at an entry that is not populated.
  pub stores :
      (e : List ℕ) (key offset cursor : ℕ)
      → IsTable b e
      → IsProbing e key offset cursor
      → at e cursor ≡ 0
      → let e' = set e cursor (new_entry key offset) in
        IsTable b e' × HasEntry n e' key offset × Grows n e e'
  stores e key offset cursor t h zero_here =
      let v = new_entry key offset in
      let e' = set e cursor v in
      let fields = new_entry_fields key offset h.key_fits h.offset_fits in
      let bound : cursor < length e =
        omega (arith, h.here, t.size, probe_in_bounds b key h.rounds) in
      let read : (p : ℕ) → at e' p ≡ (if cursor == p then v else at e p) =
        λ p. get_or-set e cursor p v 0 bound in
      let empty : populated (at e cursor) ≡ false = ap populated zero_here ∙ populated-zero in
      let grows : Grows n e e' = record {
        size = length-set e cursor v;
        kept = λ p. rw (read p) (
            if_cases (λ x. (populated (at e p) ≡ false) ⊎ (x ≡ at e p)) (cursor == p)
              (λ same. inl (subst (λ c. populated (at e c) ≡ false) (eq_of_test same) empty))
              (λ apart. inr refl));
      } in
      let here : at e' (probe n key h.rounds) ≡ v =
        read (probe n key h.rounds) ∙ rw (← h.here) (same_test cursor v (at e cursor)) in
      (
        record {
          size = length-set e cursor v ∙ t.size;
          whole = λ p. rw (read p) (
              if_cases (λ x. (x ≡ 0) ⊎ (populated x ≡ true)) (cursor == p) (λ same. inr fields.0)
                (λ apart. t.whole p));
        },
        (
          h.rounds,
          Grows-IsPassed n e e' key h.rounds grows h.passed,
          ap populated here ∙ fields.0,
          ap from_index here ∙ fields.1,
          ap to_offset here ∙ fields.2,
        ),
        grows,
      )

  -- What a step does to the table and to the thread that takes it.
  abbrev pub Stepped : List ℕ → Relocation × List ℕ → Type 0
  Stepped e (t', e') = IsTable b e' × Rely e' t' × Grows n e e'

  read_lem :
      (e : List ℕ) (key offset cursor : ℕ) (onward : Relocation)
      → IsTable b e
      → IsProbing e key offset cursor
      → (IsProbing e key offset (next e cursor) → Rely e onward)
      → Rely e (
          if populated (at e cursor)
          then (if from_index (at e cursor) == key
              then forwarded key (to_offset (at e cursor))
              else onward)
          else exchanges key offset cursor)
  read_lem e key offset cursor onward t h go =
      if_cases (Rely e) (populated (at e cursor))
        (λ full.
          if_cases (Rely e) (from_index (at e cursor) == key)
            (λ same. found e key offset cursor h full (eq_of_test same))
            (λ other. go (passes e key offset cursor t h full (ground arith))))
        (λ empty. h)

  pub relocate_step-Stepped :
      (r : Relocation) (u : Unit {0}) (e : List ℕ)
      → IsTable b e
      → Rely e r
      → Stepped e (relocate_step r u e)
  unfolding relocate_step find_read exchange insert_read
  relocate_step-Stepped (finds key offset cursor) u e t h = (
    t,
    read_lem e key offset cursor (finds key offset (next e cursor)) t h (λ p. p),
    Grows-refl n e,
  )
  relocate_step-Stepped (exchanges key offset cursor) u e t h = elim (t.whole cursor) [
    | inl empty ↦
        let s = stores e key offset cursor t h empty in
        rw (ap populated empty ∙ populated-zero, empty) s
    | inr full ↦ rw (full, full_test (at e cursor) full) (t, h, Grows-refl n e)
  ]
  relocate_step-Stepped (searches key offset cursor) u e t h = (
    t,
    read_lem e key offset cursor (searches key offset (next e cursor)) t h (λ p. p),
    Grows-refl n e,
  )
  relocate_step-Stepped (forwarded key offset) u e t h = (t, h, Grows-refl n e)

  pub start_all-Rely :
      (e : List ℕ) (jobs : List (ℕ × ℕ))
      → IsTable b e
      → All IsJob jobs
      → All (Rely e) (start_all e jobs)
  unfolding relocates
  start_all-Rely e [] t h = tt
  start_all-Rely e (job ∷ jobs) t h = (
    record {
      rounds = 0;
      here = first-probe e job.0 ∙ ap (λ k. probe k job.0 0) t.size;
      passed = tt;
      key_fits = h.0.0;
      offset_fits = h.0.1;
    },
    start_all-Rely e jobs t h.1,
  )

  -- The table and the threads in the end.
  abbrev pub in_the_end : List (ℕ × Unit {0}) → List ℕ → List (ℕ × ℕ) → List Relocation × List ℕ
  in_the_end xs e jobs = run_in relocate_step xs (start_all e jobs) e

  all_in_the_end :
      (xs : List (ℕ × Unit {0})) (e : List ℕ) (jobs : List (ℕ × ℕ))
      → IsTable b e
      → All IsJob jobs
      → let (ts, e') = in_the_end xs e jobs in IsTable b e' × All (Rely e') ts
  all_in_the_end xs e jobs t h =
      run_in-All relocate_step (IsTable b) Rely (Grows n) (Grows-refl n) Rely-stable
        relocate_step-Stepped xs (start_all e jobs) e t (start_all-Rely e jobs t h)

  -- In every interleaving of threads that relocate objects with a table, whose size is a power of two
  -- and whose entries are populated or zero, with indices of 18 bits and offsets of 45 bits, two
  -- threads that are done with the same object have got the same offset.
  pub relocations_agree :
      (xs : List (ℕ × Unit {0})) (e : List ℕ) (jobs : List (ℕ × ℕ)) (i j key a c : ℕ)
      → IsTable b e
      → All IsJob jobs
      → IsAt i (forwarded key a) (in_the_end xs e jobs).0
      → IsAt j (forwarded key c) (in_the_end xs e jobs).0
      → a ≡ c
  relocations_agree xs e jobs i j key a c t h at_i at_j =
      let r = in_the_end xs e jobs in
      let all = all_in_the_end xs e jobs t h in
      HasEntry_unique n r.1 key a c (All-IsAt (Rely r.1) i (forwarded key a) r.0 all.1 at_i)
        (All-IsAt (Rely r.1) j (forwarded key c) r.0 all.1 at_j)
