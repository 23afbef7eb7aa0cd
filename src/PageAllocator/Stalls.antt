-- ===== src/PageAllocator/Stalls.antt =====
-- The requests of zPageAllocator.cpp that wait: which of them fail, and which collection the others get.
use zgc_primax.Base.{
  ◌==◌, not, if◌then◌else◌, ◌&&◌, ℕ, ◌≡◌, ◌≢◌, refl, ◌⊎◌, inl, inr, Bool, true, false, List, [],
  ◌∷◌, ◌++◌, All, arith, if_cases, ap,
}
use zgc_primax.PageAllocator.{Allocation}

-- `has_alloc_seen_young` and `has_alloc_seen_old`, with the sequence number of the generation.
abbrev pub has_alloc_seen_young : ℕ → Allocation → Bool
has_alloc_seen_young seqnum r = not (r.young_seqnum == seqnum)

abbrev pub has_alloc_seen_old : ℕ → Allocation → Bool
has_alloc_seen_old seqnum r = not (r.old_seqnum == seqnum)

-- `is_alloc_stalling_for_old`
pub is_alloc_stalling_for_old : ℕ → ℕ → List Allocation → Bool
is_alloc_stalling_for_old young_seqnum old_seqnum [] = false
is_alloc_stalling_for_old young_seqnum old_seqnum (r ∷ rest) =
    has_alloc_seen_young young_seqnum r && not (has_alloc_seen_old old_seqnum r)

-- `notify_out_of_memory`: the requests that fail, and those that stay in the queue.
unfoldable pub notify_out_of_memory : ℕ → List Allocation → List Allocation × List Allocation
notify_out_of_memory old_seqnum [] = ([], [])
notify_out_of_memory old_seqnum (r ∷ rest) =
    let (failed, kept) = notify_out_of_memory old_seqnum rest in
    if has_alloc_seen_old old_seqnum r then (r ∷ failed, kept) else ([], r ∷ rest)

-- The collection that `restart_gc` asks for.
pub data Collection : Type 0 where
  no_collection minor major : Collection

unfoldable pub restart_gc : ℕ → List Allocation → Collection
restart_gc young_seqnum [] = no_collection
restart_gc young_seqnum (r ∷ rest) = if has_alloc_seen_young young_seqnum r then major else minor

-- `handle_alloc_stalling_for_old`: the requests that fail, those that stay, and the collection.
unfoldable pub handle_alloc_stalling_for_old :
    Bool → ℕ → ℕ → List Allocation → List Allocation × List Allocation × Collection
unfolding notify_out_of_memory restart_gc
handle_alloc_stalling_for_old cleared_soft_refs young_seqnum old_seqnum q =
    if cleared_soft_refs
    then (
      (notify_out_of_memory old_seqnum q).0,
      (notify_out_of_memory old_seqnum q).1,
      restart_gc young_seqnum (notify_out_of_memory old_seqnum q).1,
    )
    else ([], q, restart_gc young_seqnum q)

abbrev HasSeenOld : ℕ → Allocation → Type 0
HasSeenOld n r = has_alloc_seen_old n r ≡ true

-- The first request that stays was enqueued after the last major collection has started.
abbrev IsFresh : ℕ → List Allocation → Type 0
IsFresh n [] = Unit
IsFresh n (r ∷ q) = r.old_seqnum ≡ n

abbrev Notified : ℕ → List Allocation → List Allocation × List Allocation → Type 0
Notified n q (failed, kept) = (q ≡ failed ++ kept) × All (HasSeenOld n) failed × IsFresh n kept

notify_out_of_memory-Notified :
    (n : ℕ) (q : List Allocation) → Notified n q (notify_out_of_memory n q)
unfolding notify_out_of_memory
notify_out_of_memory-Notified n [] = (refl, tt, tt)
notify_out_of_memory-Notified n (r ∷ rest) =
    let t = notify_out_of_memory-Notified n rest in
    if_cases (Notified n (r ∷ rest)) (has_alloc_seen_old n r)
      (λ seen. (ap (◌∷◌ r) t.0, (seen, t.1), t.2)) (λ new. (refl, tt, ground arith))

-- No request stays without a collection, which is a major one just if the first of them has seen a young one.
abbrev IsServed : ℕ → List Allocation → Collection → Type 0
IsServed y [] c = c ≡ no_collection
IsServed y (r ∷ q) c = ((r.young_seqnum ≡ y) × (c ≡ minor)) ⊎ ((r.young_seqnum ≢ y) × (c ≡ major))

restart_gc-IsServed : (y : ℕ) (q : List Allocation) → IsServed y q (restart_gc y q)
unfolding restart_gc
restart_gc-IsServed y [] = refl
restart_gc-IsServed y (r ∷ q) = ground arith

abbrev pub StallOutcome :
    Bool → ℕ → ℕ → List Allocation → List Allocation × List Allocation × Collection → Type 0
StallOutcome cleared y n q (failed, kept, c) =
    (q ≡ failed ++ kept)
    × All (HasSeenOld n) failed
    × (((cleared ≡ false) × (failed ≡ [])) ⊎ ((cleared ≡ true) × IsFresh n kept))
    × IsServed y kept c

-- `handle_alloc_stalling_for_old` splits the queue into the requests that fail and those that stay,
-- in order. Where soft references are not cleared, none fails. Where they are, those that fail were
-- enqueued before the last major collection has started, and the first that stays was not. If a
-- request stays then a collection is started, which is a minor one if the first request was
-- enqueued after the last young one has started, and a major one if not.
pub handle_alloc_stalling_for_old-StallOutcome :
    (cleared : Bool) (y n : ℕ) (q : List Allocation)
    → StallOutcome cleared y n q (handle_alloc_stalling_for_old cleared y n q)
unfolding handle_alloc_stalling_for_old
handle_alloc_stalling_for_old-StallOutcome true y n q =
    let t = notify_out_of_memory-Notified n q in
    (t.0, t.1, inr (refl, t.2), restart_gc-IsServed y (notify_out_of_memory n q).1)
handle_alloc_stalling_for_old-StallOutcome false y n q =
    (refl, tt, inl (refl, refl), restart_gc-IsServed y q)
