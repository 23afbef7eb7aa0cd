-- ===== src/Forwarding/RefCount.antt =====
-- The reference count of zForwarding.cpp, by which threads keep a page alive while they use it, and by
-- which one thread claims it for relocation in place. A step is one access of one thread to the
-- count, so compare-and-exchange may fail between.
pub mod Kinds
pub mod Safety
mod Tests
use zgc_primax.Base.{
  ℤ, pos, negsuc, is_negative, eq_ℤ, increment, decrement, ℕ, zero, suc, Bool, true, false,
  if◌then◌else◌,
}

-- Where a thread is in the code. Behind a load the loaded count is kept, and in `release_page`
-- whether the thread had claimed the page, which the code does not look at.
pub data Thread : Type 0 where
  -- In no operation, and without a reference.
  outside : Thread
  retain_load retain_wait : Thread
  retain_swap : ℤ → Thread
  -- `retain_page` has returned true.
  retained : Thread
  release_load : Bool → Thread
  release_swap : Bool → ℤ → Thread
  -- The worker that relocates the page, for which the count starts at 1.
  relocates : Thread
  claim_load claim_wait : Thread
  claim_swap : ℤ → Thread
  -- `in_place_relocation_claim_page` has returned.
  claimed : Thread
  detach_wait : Thread
  -- `detach_page` has returned.
  detached : Thread
  -- An assertion has failed.
  failed : Thread

-- What a thread that is in no operation does next.
pub data Action : Type 0 where
  retain release claim detach idle : Action

-- -ref_count
abbrev pub negate : ℤ → ℤ
negate (pos zero) = pos zero
negate (pos (suc n)) = negsuc n
negate (negsuc n) = pos (suc n)

abbrev pub is_positive : ℤ → Bool
is_positive (pos (suc n)) = true
is_positive _ = false

-- `Atomic::cmpxchg(&_ref_count, loaded, new)`, and where the thread goes on success and on failure.
abbrev swap : ℤ → ℤ → ℤ → Thread → Thread → Thread × ℤ
swap count loaded new ok again = if eq_ℤ count loaded then (ok, new) else (again, count)

-- `release_page` with a loaded count.
abbrev released : ℤ → ℤ
released count = if is_positive count then decrement count else increment count

begin : Action → Thread
begin retain = retain_load
begin detach = detach_wait
begin _ = outside

-- `ZRelocateQueue::add_and_wait` returns when the queue lets it.
await_queue : Action → Thread
await_queue idle = retain_wait
await_queue _ = outside

release_or_stay : Action → Thread → Bool → Thread
release_or_stay release t claims = release_load claims
release_or_stay _ t claims = t

relocate_or_claim : Action → Thread
relocate_or_claim claim = claim_load
relocate_or_claim release = release_load false
relocate_or_claim _ = relocates

-- The next step of a thread: where it is then, and the count.
pub advance : Thread → Action → ℤ → Thread × ℤ
unfolding begin await_queue release_or_stay relocate_or_claim
advance outside a count = (begin a, count)
advance retain_load a count =
    if eq_ℤ count (pos 0)
    then (outside, count)
    else (if is_negative count then (retain_wait, count) else (retain_swap count, count))
advance retain_wait a count = (await_queue a, count)
advance (retain_swap loaded) a count = swap count loaded (increment loaded) retained retain_load
advance retained a count = (release_or_stay a retained false, count)
advance (release_load claims) a count =
    if eq_ℤ count (pos 0) then (failed, count) else (release_swap claims count, count)
advance (release_swap claims loaded) a count =
    swap count loaded (released loaded) outside (release_load claims)
advance relocates a count = (relocate_or_claim a, count)
advance claim_load a count =
    if is_positive count then (claim_swap count, count) else (failed, count)
advance (claim_swap loaded) a count =
    swap count loaded (negate loaded) (if eq_ℤ loaded (pos 1) then claimed else claim_wait)
      claim_load
advance claim_wait a count = if eq_ℤ count (negsuc 0) then (claimed, count) else (claim_wait, count)
advance claimed a count = (release_or_stay a claimed true, count)
advance detach_wait a count = if eq_ℤ count (pos 0) then (detached, count) else (detach_wait, count)
advance detached a count = (detached, count)
advance failed a count = (failed, count)
