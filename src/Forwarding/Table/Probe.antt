-- ===== src/Forwarding/Table/Probe.antt =====
-- The probe sequences of the forwarding table of zForwarding.inline.hpp.
use native.Mathlib.Nat.{mod-lt, one-le-pow}
use zgc_primax.Base.{
  ℕ, zero, suc, ◌+◌, ◌-◌, ◌^◌, ◌<◌, ◌≡◌, ◌≢◌, refl, ◌⊎◌, inl, inr, true, false, List, bit_and,
  bit_and_mask, arith, ap, ◌∙◌, sym, subst, length,
}
use zgc_primax.Forwarding.Entry.{populated, from_index, to_offset}
use zgc_primax.Forwarding.Table.{uint32_to_uint32, at, first, next, low32}

-- The cursor after so many rounds, in a table of `n` entries.
unfoldable pub probe : (n key i : ℕ) → ℕ
probe n key zero = bit_and (uint32_to_uint32 (low32 key)) (n - 1)
probe n key (suc i) = bit_and (probe n key i + 1) (n - 1)

pub first-probe : (e : List ℕ) (key : ℕ) → first e key ≡ probe (length e) key 0
unfolding first probe
first-probe e key = refl

pub next-probe :
    (e : List ℕ) (key i : ℕ) → next e (probe (length e) key i) ≡ probe (length e) key (suc i)
unfolding next probe
next-probe e key i = refl

-- The size of the table is a power of two, and an entry that is not populated is zero.
pub record IsTable (b : ℕ) (e : List ℕ) : Type 0 where
  pub size : length e ≡ 2 ^ b
  pub whole : (p : ℕ) → (at e p ≡ 0) ⊎ (populated (at e p) ≡ true)

pub probe_in_bounds : (b key i : ℕ) → probe (2 ^ b) key i < 2 ^ b
unfolding probe
probe_in_bounds b key zero =
    let k = uint32_to_uint32 (low32 key) in
    omega (arith, bit_and_mask b k, mod-lt k {m = 2 ^ b} (one-le-pow b 2 (omega arith)))
probe_in_bounds b key (suc i) =
    let k = probe (2 ^ b) key i + 1 in
    omega (arith, bit_and_mask b k, mod-lt k {m = 2 ^ b} (one-le-pow b 2 (omega arith)))

module _ (n : ℕ) where
  -- The entry is of another key.
  abbrev pub IsOther : List ℕ → ℕ → ℕ → Type 0
  IsOther e key p = (populated (at e p) ≡ true) × (from_index (at e p) ≢ key)

  -- The entries before the round are of other keys.
  abbrev pub IsPassed : List ℕ → ℕ → ℕ → Type 0
  IsPassed e key zero = Unit
  IsPassed e key (suc i) = IsPassed e key i × IsOther e key (probe n key i)

  pub IsPassed-at :
      (e : List ℕ) (key i j : ℕ) → IsPassed e key i → j < i → IsOther e key (probe n key j)
  IsPassed-at e key zero j h lt = absurd (omega arith)
  IsPassed-at e key (suc i) j h lt = elim cases [
    | inl e' ↦ subst (λ x. IsOther e key (probe n key x)) (sym e') h.1
    | inr lt' ↦ IsPassed-at e key i j h.0 lt'
  ]
    where
      cases : (j ≡ i) ⊎ (j < i)
      cases = omega arith

  -- The key has its entry at the end of such a sequence, with the offset.
  abbrev pub HasEntry : List ℕ → ℕ → ℕ → Type 0
  HasEntry e key offset =
      (i : ℕ) × IsPassed e key i
      × (populated (at e (probe n key i)) ≡ true)
      × (from_index (at e (probe n key i)) ≡ key)
      × (to_offset (at e (probe n key i)) ≡ offset)

  -- A table has at most one offset of a key.
  pub HasEntry_unique : (e : List ℕ) (key a b : ℕ) → HasEntry e key a → HasEntry e key b → a ≡ b
  HasEntry_unique e key a b (i, p, x, y, z) (j, q, u, v, w) = elim order [
    | inl (inl lt) ↦ absurd ((IsPassed-at e key j i q lt).1 y)
    | inl (inr gt) ↦ absurd ((IsPassed-at e key i j p gt).1 v)
    | inr same ↦ sym z ∙ ap (λ k. to_offset (at e (probe n key k))) same ∙ w
  ]
    where
      order : ((i < j) ⊎ (j < i)) ⊎ (i ≡ j)
      order = omega arith

  -- Entries are only added.
  pub record Grows (e e' : List ℕ) : Type 0 where
    pub size : length e' ≡ length e
    pub kept : (p : ℕ) → (populated (at e p) ≡ false) ⊎ (at e' p ≡ at e p)

  Grows-IsOther : (e e' : List ℕ) (key p : ℕ) → Grows e e' → IsOther e key p → IsOther e' key p
  Grows-IsOther e e' key p g h = elim (g.kept p) [
    | inl empty ↦ absurd (ground (arith, h.0))
    | inr same ↦ (rw same h.0, rw same h.1)
  ]

  pub Grows-IsPassed :
      (e e' : List ℕ) (key i : ℕ) → Grows e e' → IsPassed e key i → IsPassed e' key i
  Grows-IsPassed e e' key zero g h = tt
  Grows-IsPassed e e' key (suc i) g h =
      (Grows-IsPassed e e' key i g h.0, Grows-IsOther e e' key (probe n key i) g h.1)

  pub Grows-HasEntry :
      (e e' : List ℕ) (key offset : ℕ) → Grows e e' → HasEntry e key offset → HasEntry e' key offset
  Grows-HasEntry e e' key offset g (i, p, x, y, z) = elim (g.kept (probe n key i)) [
    | inl empty ↦ absurd (ground (arith, x))
    | inr same ↦ (i, Grows-IsPassed e e' key i g p, rw same x, rw same y, rw same z)
  ]

pub Grows-refl : (n : ℕ) (e : List ℕ) → Grows n e e
Grows-refl n e = record { size = refl; kept = λ p. inr refl }
