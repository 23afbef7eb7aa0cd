-- ===== src/Forwarding/Table/Chained.antt =====
-- That each entry of the table of zForwarding.inline.hpp stays where the probe sequence of its key leads.
use zgc_primax.Base.{
  ℕ, ◌^◌, ◌<◌, ◌≡◌, sym, inl, inr, true, List, ◌==◌, arith, ap, ◌∙◌, length, set, get_or-set,
  if◌then◌else◌, Bool-cases, All, run_in-All,
}
use zgc_primax.Forwarding.Entry.{new_entry, populated, from_index, new_entry_fields, populated-zero}
use zgc_primax.Forwarding.Table.{
  at, Relocation, finds, exchanges, searches, forwarded, exchange, relocate_step,
}
use zgc_primax.Forwarding.Table.Probe.{
  probe, IsTable, probe_in_bounds, IsPassed, Grows, Grows-IsPassed, Grows-refl,
}
use zgc_primax.Forwarding.Table.Agreement.{
  eq_of_test, full_test, IsJob, start_all, IsProbing, Rely, Rely-stable, stores,
  relocate_step-Stepped, start_all-Rely, in_the_end,
}

module _ (b : ℕ) where
  abbrev n : ℕ
  n = 2 ^ b

  -- The probe sequence of the key comes to the entry, with none of the key and no free one before.
  abbrev IsReached : List ℕ → ℕ → ℕ → Type 0
  IsReached e key p = (i : ℕ) × IsPassed n e key i × (probe n key i ≡ p)

  abbrev pub IsChained : List ℕ → Type 0
  IsChained e = (p : ℕ) → populated (at e p) ≡ true → IsReached e (from_index (at e p)) p

  -- An entry that is stored at the cursor of a thread.
  stores-IsChained :
      (e : List ℕ) (key offset cursor : ℕ)
      → IsTable b e
      → IsProbing b e key offset cursor
      → at e cursor ≡ 0
      → IsChained e
      → IsChained (set e cursor (new_entry key offset))
  stores-IsChained e key offset cursor t h empty c p full =
      let v = new_entry key offset in
      let e' = set e cursor v in
      let grows : Grows n e e' = (stores b e key offset cursor t h empty).2 in
      let bound : cursor < length e =
        omega (arith, h.here, t.size, probe_in_bounds b key h.rounds) in
      let read : at e' p ≡ (if cursor == p then v else at e p) = get_or-set e cursor p v 0 bound in
      let fields = new_entry_fields key offset h.key_fits h.offset_fits in
      elim (Bool-cases (cursor == p)) [
        | inl same ↦
            let here : at e' p ≡ v = (rw same at read) in
            rw (here, fields.1)
              (
                h.rounds,
                Grows-IsPassed n e e' key h.rounds grows h.passed,
                sym h.here ∙ eq_of_test same,
              )
        | inr apart ↦
            let here : at e' p ≡ at e p = (rw apart at read) in
            let old = c p (rw here at full) in
            rw here (old.0, Grows-IsPassed n e e' (from_index (at e p)) old.0 grows old.1, old.2)
      ]

  relocate_step-IsChained :
      (r : Relocation) (u : Unit {0}) (e : List ℕ)
      → IsTable b e
      → Rely b e r
      → IsChained e
      → IsChained (relocate_step r u e).1
  unfolding relocate_step exchange
  relocate_step-IsChained (finds key offset cursor) u e t h c = c
  relocate_step-IsChained (exchanges key offset cursor) u e t h c = elim (t.whole cursor) [
    | inl empty ↦ rw empty (stores-IsChained e key offset cursor t h empty c)
    | inr full ↦ rw (full_test (at e cursor) full) c
  ]
  relocate_step-IsChained (searches key offset cursor) u e t h c = c
  relocate_step-IsChained (forwarded key offset) u e t h c = c

  pub no_entries-IsChained : (e : List ℕ) → ((p : ℕ) → at e p ≡ 0) → IsChained e
  no_entries-IsChained e none p full =
      absurd (ground (arith, full, ap populated (none p) ∙ populated-zero))

  -- In every interleaving of threads that relocate objects.
  pub in_the_end-IsChained :
      (xs : List (ℕ × Unit {0})) (e : List ℕ) (jobs : List (ℕ × ℕ))
      → IsTable b e
      → All IsJob jobs
      → IsChained e
      → let e' = (in_the_end b xs e jobs).1 in IsTable b e' × IsChained e'
  in_the_end-IsChained xs e jobs t h c =
      (run_in-All relocate_step (λ e'. IsTable b e' × IsChained e') (Rely b) (Grows n)
        (Grows-refl n) (Rely-stable b)
        (λ r u e' v rely.
          let s = relocate_step-Stepped b r u e' v.0 rely in
          ((s.0, relocate_step-IsChained r u e' v.0 rely v.1), s.1, s.2))
        xs (start_all e jobs) e (t, c) (start_all-Rely b e jobs t h)).0
