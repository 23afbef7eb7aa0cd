-- ===== src/Base/Lists.antt =====
-- Lists measured by native numbers, under the library's names.
use Prim.Native.Nat.{ℕ, zero, suc, ◌+◌, ◌<◌}
use mathlib.Core.Path.{◌≡◌, refl}
use mathlib.Core.List.{List, [], ◌∷◌, ◌++◌}
use mathlib.Core.Option.{Option, none, some}
use native.Mathlib.Omega.{arith}
use zgc_primax.Base.Tests.{◌==◌, if◌then◌else◌}

module _ {ℓ} {A : Type ℓ} where
  abbrev pub length : List A → ℕ
  length [] = 0
  length (x ∷ xs) = suc (length xs)

  pub length-append : (xs ys : List A) → length (xs ++ ys) ≡ length xs + length ys
  length-append [] ys = omega arith
  length-append (x ∷ xs) ys = omega (arith, length-append xs ys)

-- A predicate of every element.
abbrev pub All {ℓ κ} : {A : Type ℓ} → (A → Type κ) → List A → Type κ
All P [] = Unit
All P (x ∷ xs) = P x × All P xs

-- The sum of a measure over a list.
abbrev pub total {ℓ} : {A : Type ℓ} → (A → ℕ) → List A → ℕ
total f [] = 0
total f (x ∷ xs) = f x + total f xs

pub All-map {ℓ κ ι} :
    {A : Type ℓ} (P : A → Type κ) (Q : A → Type ι) (l : List A)
    → ((a : A) → P a → Q a)
    → All P l
    → All Q l
All-map P Q [] f h = tt
All-map P Q (a ∷ l) f h = (f a h.0, All-map P Q l f h.1)

module _ {ℓ} {A : Type ℓ} where
  abbrev pub get_or : List A → ℕ → A → A
  get_or [] i d = d
  get_or (x ∷ xs) zero d = x
  get_or (x ∷ xs) (suc i) d = get_or xs i d

  -- A write out of bounds changes nothing.
  abbrev pub set : List A → ℕ → A → List A
  set [] i v = []
  set (x ∷ xs) zero v = v ∷ xs
  set (x ∷ xs) (suc i) v = x ∷ set xs i v

  pub length-set : (xs : List A) (i : ℕ) (v : A) → length (set xs i v) ≡ length xs
  length-set [] i v = refl
  length-set (x ∷ xs) zero v = refl
  length-set (x ∷ xs) (suc i) v = omega (arith, length-set xs i v)

  pub total-set :
      (f : A → ℕ) (xs : List A) (i : ℕ) (v d : A)
      → i < length xs
      → total f (set xs i v) + f (get_or xs i d) ≡ total f xs + f v
  total-set f [] i v d h = absurd (omega arith)
  total-set f (x ∷ xs) zero v d h = omega arith
  total-set f (x ∷ xs) (suc i) v d h = omega (arith, total-set f xs i v d (omega arith))

  pub get_or-set :
      (xs : List A) (i j : ℕ) (v d : A)
      → i < length xs
      → get_or (set xs i v) j d ≡ (if i == j then v else get_or xs j d)
  get_or-set [] i j v d h = absurd (omega arith)
  get_or-set (x ∷ xs) zero zero v d h = refl
  get_or-set (x ∷ xs) zero (suc j) v d h = ground arith
  get_or-set (x ∷ xs) (suc i) zero v d h = ground arith
  get_or-set (x ∷ xs) (suc i) (suc j) v d h = ground (arith, get_or-set xs i j v d)

  pub All-set {κ} :
      (P : A → Type κ) (xs : List A) (i : ℕ) (v : A) → All P xs → P v → All P (set xs i v)
  All-set P [] i v h p = tt
  All-set P (x ∷ xs) zero v h p = (p, h.1)
  All-set P (x ∷ xs) (suc i) v h p = (h.0, All-set P xs i v h.1 p)

  pub All-get_or {κ} :
      (P : A → Type κ) (xs : List A) (i : ℕ) (d : A) → All P xs → P d → P (get_or xs i d)
  All-get_or P [] i d h p = p
  All-get_or P (x ∷ xs) zero d h p = h.0
  All-get_or P (x ∷ xs) (suc i) d h p = All-get_or P xs i d h.1 p

-- The element at that place and the others.
abbrev pub extract {ℓ} : {A : Type ℓ} → ℕ → List A → Option (A × List A)
extract i [] = none
extract zero (x ∷ xs) = some (x, xs)
extract (suc i) (x ∷ xs) = elim (extract i xs) [ none ↦ none | some (y, ys) ↦ some (y, x ∷ ys) ]

module _ {ℓ κ} {A : Type ℓ} (P : A → Type κ) where
  -- What it is to have taken an element with `P` out of a list of such.
  abbrev pub Extracted : List A → Option (A × List A) → Type (ℓ ⊔ κ)
  Extracted l none = Unit
  Extracted l (some (x, rest)) = P x × All P rest × ((f : A → ℕ) → total f l ≡ f x + total f rest)

  pub extract-Extracted : (i : ℕ) (l : List A) → All P l → Extracted l (extract i l)
  extract-Extracted i [] h = tt
  extract-Extracted zero (x ∷ xs) h = (h.0, h.1, λ f. refl)
  extract-Extracted (suc i) (x ∷ xs) h =
      elim (extract i xs)
          as (λ r.
            Extracted xs r
            → Extracted (x ∷ xs) (elim r [ none ↦ none | some (y, ys) ↦ some (y, x ∷ ys) ])) [
              | none ↦ λ t. tt
              | some (y, ys) ↦ λ t. (t.0, (h.0, t.1), λ f. omega (arith, t.2 f))
            ]
        (extract-Extracted i xs h.1)

pub All-append {ℓ κ} :
    {A : Type ℓ} (P : A → Type κ) (xs ys : List A) → All P xs → All P ys → All P (xs ++ ys)
All-append P [] ys h k = k
All-append P (x ∷ xs) ys h k = (h.0, All-append P xs ys h.1 k)

pub total-append {ℓ} :
    {A : Type ℓ} (f : A → ℕ) (xs ys : List A) → total f (xs ++ ys) ≡ total f xs + total f ys
total-append f [] ys = omega arith
total-append f (x ∷ xs) ys = omega (arith, total-append f xs ys)

pub All-both {ℓ κ ι} :
    {A : Type ℓ} (P : A → Type κ) (Q : A → Type ι) (l : List A)
    → All P l
    → All Q l
    → All (λ a. P a × Q a) l
All-both P Q [] h k = tt
All-both P Q (a ∷ l) h k = ((h.0, k.0), All-both P Q l h.1 k.1)
