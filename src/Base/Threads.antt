-- ===== src/Base/Threads.antt =====
-- Threads that take turns on a value that they share: any interleaving is a list of steps, each of
-- one thread. An invariant on the number of threads of each kind is kept if each step of one thread
-- keeps it.
use Prim.Native.Nat.{ℕ, zero, suc, ◌+◌, ◌≤◌}
use mathlib.Core.Path.{◌≡◌, ap, subst, fun_ext}
use mathlib.Core.List.{List, [], ◌∷◌}
use native.Mathlib.Omega.{arith}
use zgc_primax.Base.Lists.{total, All, All-map}

-- The thread with that number is at `t`.
abbrev pub IsAt : {A : Type 0} → ℕ → A → List A → Type 0
IsAt i t [] = ⊥
IsAt zero t (x ∷ ts) = x ≡ t
IsAt (suc i) t (x ∷ ts) = IsAt i t ts

-- Some thread of the list is at `t`.
pub data Some {A : Type 0} (t : A) : List A → Type 0 where
  here : (ts : List A) → Some t (t ∷ ts)
  there : {ts : List A} (u : A) → Some t ts → Some t (u ∷ ts)

pub Some-le-total : {A : Type 0} (f : A → ℕ) (t : A) (ts : List A) → Some t ts → f t ≤ total f ts
Some-le-total f t ts (here us) = omega arith
Some-le-total f t (u ∷ ts) (there w h) = omega (arith, Some-le-total f t ts h)

pub IsAt-le-total :
    {A : Type 0} (f : A → ℕ) (i : ℕ) (t : A) (ts : List A) → IsAt i t ts → f t ≤ total f ts
IsAt-le-total f i t [] at = elim at [ ]
IsAt-le-total f zero t (x ∷ ts) at = rw (← at) (omega arith)
IsAt-le-total f (suc i) t (x ∷ ts) at = omega (arith, IsAt-le-total f i t ts at)

module _ {Thread Action Shared : Type 0}
    (advance : Thread → Action → Shared → Thread × Shared) where
  -- A step of the thread with the given number, if there is one.
  unfoldable pub step_in : ℕ → Action → List Thread → Shared → List Thread × Shared
  step_in i a [] s = ([], s)
  step_in zero a (t ∷ ts) s = let (t', s') = advance t a s in (t' ∷ ts, s')
  step_in (suc i) a (t ∷ ts) s = let (ts', s') = step_in i a ts s in (t ∷ ts', s')

  unfoldable pub run_in : List (ℕ × Action) → List Thread → Shared → List Thread × Shared
  unfolding step_in
  run_in [] ts s = (ts, s)
  run_in (x ∷ xs) ts s = let (ts', s') = step_in x.0 x.1 ts s in run_in xs ts' s'

  pub step_in-IsAt :
      (i : ℕ) (a : Action) (t : Thread) (ts : List Thread) (s : Shared)
      → IsAt i t ts
      → IsAt i (advance t a s).0 (step_in i a ts s).0
  unfolding step_in
  step_in-IsAt i a t [] s at = elim at [ ]
  step_in-IsAt zero a t (x ∷ ts) s at = ap (λ y. (advance y a s).0) at
  step_in-IsAt (suc i) a t (x ∷ ts) s at = step_in-IsAt i a t ts s at

  module _ {Kind : Type 0} (weight : Kind → Thread → ℕ) (Inv : Shared → (Kind → ℕ) → Type 0)
      (kept : (t : Thread) (a : Action) (s : Shared) (others : Kind → ℕ)
        → Inv s (λ k. weight k t + others k)
        → let (t', s') = advance t a s in Inv s' (λ k. weight k t' + others k)) where
    -- With threads of those numbers beside the list.
    step_in-Inv :
        (i : ℕ) (a : Action) (ts : List Thread) (s : Shared) (others : Kind → ℕ)
        → Inv s (λ k. total (weight k) ts + others k)
        → let (ts', s') = step_in i a ts s in Inv s' (λ k. total (weight k) ts' + others k)
    unfolding step_in
    step_in-Inv i a [] s others v = v
    step_in-Inv zero a (t ∷ ts) s others v =
        let rest : Kind → ℕ = λ k. total (weight k) ts + others k in
        subst (Inv _) (fun_ext (λ k. omega arith))
          (kept t a s rest (subst (Inv s) (fun_ext (λ k. omega arith)) v))
    step_in-Inv (suc i) a (t ∷ ts) s others v =
        let rest : Kind → ℕ = λ k. weight k t + others k in
        subst (Inv _) (fun_ext (λ k. omega arith))
          (step_in-Inv i a ts s rest (subst (Inv s) (fun_ext (λ k. omega arith)) v))

    pub run_in-Inv :
        (xs : List (ℕ × Action)) (ts : List Thread) (s : Shared)
        → Inv s (λ k. total (weight k) ts)
        → let (ts', s') = run_in xs ts s in Inv s' (λ k. total (weight k) ts')
    unfolding run_in
    run_in-Inv [] ts s v = v
    run_in-Inv (x ∷ xs) ts s v = run_in-Inv xs _ _ (
        subst (Inv _) (fun_ext (λ k. omega arith))
          (step_in-Inv x.0 x.1 ts s (λ k. 0) (subst (Inv s) (fun_ext (λ k. omega arith)) v)))

  -- What each thread relies on is kept if a step gives it to the thread that takes it, and no step takes it
  -- from the others.
  module _ (Inv : Shared → Type 0) (Rely : Shared → Thread → Type 0)
      (Grows : Shared → Shared → Type 0) (idle : (s : Shared) → Grows s s)
      (stable : (s s' : Shared) → Grows s s' → (t : Thread) → Rely s t → Rely s' t)
      (kept : (t : Thread) (a : Action) (s : Shared)
        → Inv s
        → Rely s t
        → let (t', s') = advance t a s in Inv s' × Rely s' t' × Grows s s') where
    step_in-All :
        (i : ℕ) (a : Action) (ts : List Thread) (s : Shared)
        → Inv s
        → All (Rely s) ts
        → let (ts', s') = step_in i a ts s in Inv s' × All (Rely s') ts' × Grows s s'
    unfolding step_in
    step_in-All i a [] s v h = (v, tt, idle s)
    step_in-All zero a (t ∷ ts) s v h =
        let k = kept t a s v h.0 in
        (k.0, (k.1, All-map (Rely s) (Rely _) ts (stable s _ k.2) h.1), k.2)
    step_in-All (suc i) a (t ∷ ts) s v h =
        let k = step_in-All i a ts s v h.1 in (k.0, (stable s _ k.2 t h.0, k.1), k.2)

    pub run_in-All :
        (xs : List (ℕ × Action)) (ts : List Thread) (s : Shared)
        → Inv s
        → All (Rely s) ts
        → let (ts', s') = run_in xs ts s in Inv s' × All (Rely s') ts'
    unfolding run_in
    run_in-All [] ts s v h = (v, h)
    run_in-All (x ∷ xs) ts s v h = let k = step_in-All x.0 x.1 ts s v h in run_in-All xs _ _ k.0 k.1
