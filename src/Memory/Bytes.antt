-- ===== src/Memory/Bytes.antt =====
-- How many bytes of the free list of zMemory.cpp `alloc_low_address_at_most` takes.
use zgc_primax.Base.{
  ◌⊎◌, ℕ, ◌+◌, ◌-◌, ◌≤◌, ◌<◌, ◌≡◌, List, [], ◌∷◌, arith, uintptr_max, sub64, add64,
}
use zgc_primax.Memory.{Area, Callbacks, Manager, alloc_low_at_most_first, alloc_low_address_at_most}
use zgc_primax.Memory.Wf.{Above, IsWf, Above-le}

-- The number of free bytes.
abbrev pub free_bytes : List Area → ℕ
free_bytes [] = 0
free_bytes (a ∷ rest) = (a.end - a.start) + free_bytes rest

pub free_bytes_le : (max : ℕ) (l : List Area) (e : ℕ) → Above max e l → e + free_bytes l ≤ max + 1
free_bytes_le max [] e h = omega arith
free_bytes_le max (a ∷ rest) e h = omega (arith, free_bytes_le max rest (a.end + 1) h.2)

-- It takes what it reports, and takes something if it can.
abbrev pub TakesBytes : ℕ → ℕ → List Area → List Area → Type 0
TakesBytes size allocated l l' =
    (allocated + free_bytes l' ≡ free_bytes l)
    × (allocated ≤ size)
    × ((free_bytes l ≡ 0) ⊎ (size ≡ 0) ⊎ (0 < allocated))

first-TakesBytes :
    (max : ℕ)
    → max < uintptr_max
    → (cb : Callbacks) (size : ℕ) (l : List Area) → IsWf max l
    → let (offset, allocated, l', made) = alloc_low_at_most_first cb size l in
      TakesBytes size allocated l l'
unfolding alloc_low_at_most_first sub64 add64
first-TakesBytes max small cb size [] wf = ground arith
first-TakesBytes max small cb size (a ∷ rest) wf = let top = Above-le max rest wf.2 in ground arith

pub alloc_low_address_at_most-TakesBytes :
    (max : ℕ)
    → max < uintptr_max
    → (size : ℕ) (m : Manager) → IsWf max m.freelist
    → let (offset, allocated, m') = alloc_low_address_at_most size m in
      TakesBytes size allocated m.freelist m'.freelist
unfolding alloc_low_address_at_most
alloc_low_address_at_most-TakesBytes max small size m wf =
    first-TakesBytes max small m.callbacks size m.freelist wf
