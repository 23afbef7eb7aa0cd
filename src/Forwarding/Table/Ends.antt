-- ===== src/Forwarding/Table/Ends.antt =====
-- That `find` of zForwarding.inline.hpp ends while an entry is free, and what it finds.
use native.Mathlib.Nat.{mod-lt, mod-eq_of_lt, mod-add-mod, add-mod-mod, add-mod_right, one-le-pow}
use zgc_primax.Base.{
  ℕ, zero, suc, ◌+◌, ◌-◌, ◌%◌, ◌^◌, ◌≤◌, ◌<◌, ◌≡◌, ◌≢◌, refl, ◌⊎◌, inl, inr, Bool, true, false,
  List, ◌==◌, arith, ap, ◌∙◌, sym, subst, length, if_cases, bit_and_mask,
}
use zgc_primax.Forwarding.Entry.{populated, from_index, to_offset}
use zgc_primax.Forwarding.Table.{at, first, next, find_loop, find}
use zgc_primax.Forwarding.Table.Chained.{IsChained}
use zgc_primax.Forwarding.Table.Probe.{
  probe, first-probe, next-probe, IsTable, probe_in_bounds, IsPassed, IsPassed-at, HasEntry,
}

module _ (b : ℕ) where
  abbrev n : ℕ
  n = 2 ^ b

  positive : 1 ≤ n
  positive = one-le-pow b 2 (omega arith)

  probe_sum : (key i : ℕ) → probe n key i ≡ (probe n key 0 + i) % n
  unfolding probe
  probe_sum key zero = sym (mod-eq_of_lt (probe_in_bounds b key 0)) ∙ ap (λ x. x % n) (omega arith)
  probe_sum key (suc i) =
      bit_and_mask b (probe n key i + 1)
      ∙ ap (λ x. (x + 1) % n) (probe_sum key i)
      ∙ mod-add-mod (probe n key 0 + i) n 1
      ∙ ap (λ x. x % n) (omega arith)

  -- The sequence comes to every entry within a round for each.
  round_of : ℕ → ℕ → ℕ
  round_of key p = (p + n - probe n key 0) % n

  probe-round_of : (key p : ℕ) → p < n → probe n key (round_of key p) ≡ p
  unfolding round_of
  probe-round_of key p lt =
      probe_sum key (round_of key p)
      ∙ add-mod-mod (probe n key 0) (p + n - probe n key 0) n
      ∙ ap (λ x. x % n) (omega (arith, probe_in_bounds b key 0))
      ∙ add-mod_right p n
      ∙ mod-eq_of_lt lt

  round_of_lt : (key p : ℕ) → round_of key p < n
  unfolding round_of
  round_of_lt key p = mod-lt (p + n - probe n key 0) {m = n} positive

  -- `find` ends at the entry of the key, or at an entry that is not populated, and then no entry of the table
  -- is of the key.
  abbrev pub HasNone : List ℕ → ℕ → Type 0
  HasNone e key = (p : ℕ) → populated (at e p) ≡ true → from_index (at e p) ≢ key

  abbrev pub FindOutcome : List ℕ → ℕ → ℕ × Bool → Type 0
  FindOutcome e key (cursor, ended) =
      (ended ≡ true)
      × ((HasEntry n e key (to_offset (at e cursor))
            × (populated (at e cursor) ≡ true)
            × (from_index (at e cursor) ≡ key))
          ⊎ ((populated (at e cursor) ≡ false) × HasNone e key))

  no_entry :
      (e : List ℕ) (key i : ℕ)
      → IsPassed n e key i
      → populated (at e (probe n key i)) ≡ false
      → (offset : ℕ) → ¬ HasEntry n e key offset
  no_entry e key i h empty offset (j, p, x, y, z) = elim order [
    | inl (inl lt) ↦ absurd (ground (arith, (IsPassed-at n e key j i p lt).0, empty))
    | inl (inr gt) ↦ absurd ((IsPassed-at n e key i j h gt).1 y)
    | inr same ↦
        let full : populated (at e (probe n key i)) ≡ true =
          subst (λ k. populated (at e (probe n key k)) ≡ true) (sym same) x in
        absurd (ground (arith, full, empty))
  ]
    where
      order : ((i < j) ⊎ (j < i)) ⊎ (i ≡ j)
      order = omega arith

  none_of_key :
      (e : List ℕ) (key i : ℕ)
      → IsPassed n e key i
      → populated (at e (probe n key i)) ≡ false
      → IsChained b e
      → HasNone e key
  none_of_key e key i h empty chained p full same =
      let reached = chained p full in
      no_entry e key i h empty (to_offset (at e p)) (
        reached.0,
        subst (λ k. IsPassed n e k reached.0) same reached.1,
        subst (λ k. populated (at e (probe n k reached.0)) ≡ true) same (rw reached.2 full),
        subst (λ k. from_index (at e (probe n k reached.0)) ≡ key) same (rw reached.2 same),
        subst (λ k. to_offset (at e (probe n k reached.0)) ≡ to_offset (at e p)) same
            (rw reached.2 refl),
      )

  find_loop-FindOutcome :
      (rounds i m : ℕ) (e : List ℕ) (key : ℕ)
      → length e ≡ n
      → populated (at e (probe n key m)) ≡ false
      → m < rounds + i
      → IsPassed n e key i
      → IsChained b e
      → FindOutcome e key (find_loop rounds e key (probe n key i))
  unfolding find_loop
  find_loop-FindOutcome zero i m e key size empty lt h chained =
      absurd (ground (arith, (IsPassed-at n e key i m h (omega arith)).0, empty))
  find_loop-FindOutcome (suc rounds) i m e key size empty lt h chained =
      let c = probe n key i in
      let onward : next e c ≡ probe n key (suc i) =
        subst (λ k. next e (probe k key i) ≡ probe k key (suc i)) size (next-probe e key i) in
      if_cases (FindOutcome e key) (populated (at e c))
        (λ full.
          if_cases (FindOutcome e key) (from_index (at e c) == key)
            (λ same.
              let k : from_index (at e c) ≡ key = ground (arith, same) in
              (refl, inl ((i, h, full, k, refl), full, k)))
            (λ other. rw onward (
              find_loop-FindOutcome rounds (suc i) m e key size empty (omega (arith, lt))
                (h, (full, ground (arith, other))) chained)))
        (λ free. (refl, inr (free, none_of_key e key i h free chained)))

  -- In a table whose size is a power of two, whose entries are zero or populated, each populated
  -- one where the probe sequence of its key comes to, and which has an entry that is not populated,
  -- find ends within a round for each entry. It ends at an entry of the key, or at one that is not
  -- populated where no entry of the table is of the key.
  pub find-FindOutcome :
      (e : List ℕ) (key p : ℕ)
      → IsTable b e
      → p < length e
      → populated (at e p) ≡ false
      → IsChained b e
      → FindOutcome e key (find e key)
  unfolding find
  find-FindOutcome e key p t lt free chained =
      let inside : p < n = omega (arith, t.size, lt) in
      let start : first e key ≡ probe n key 0 =
        first-probe e key ∙ ap (λ k. probe k key 0) t.size in
      rw start (
        find_loop-FindOutcome (length e) 0 (round_of key p) e key t.size
          (subst (λ c. populated (at e c) ≡ false) (sym (probe-round_of key p inside)) free)
          (omega (arith, t.size, round_of_lt key p)) tt chained)
