-- ===== src/DriverPort/Ack.antt =====
-- What `ack` of zDriverPort.cpp satisfies, and what it leaves queued.
use zgc_primax.Base.{
  ℕ, ◌<◌, ◌≡◌, refl, ◌⊎◌, inl, inr, true, false, List, [], ◌∷◌, ◌++◌, All, arith, if_cases,
}
use zgc_primax.DriverPort.{Request, Entry, Port, is_due, ack_loop, satisfy, ack, post_first}

-- `kept` and `done`, each in its order, make up `queue`.
pub data Splits : List Entry → List Entry → List Entry → Type 0 where
  none_left : Splits [] [] []
  keeps :
      {kept done queue : List Entry} (e : Entry)
      → Splits kept done queue
      → Splits (e ∷ kept) done (e ∷ queue)
  takes :
      {kept done queue : List Entry} (e : Entry)
      → Splits kept done queue
      → Splits kept (e ∷ done) (e ∷ queue)

abbrev pub IsDue : Request → ℕ → Entry → Type 0
IsDue message seqnum e = (e.message.cause ≡ message.cause) × (e.seqnum < seqnum)

abbrev pub IsNotDue : Request → ℕ → Entry → Type 0
IsNotDue message seqnum e = ¬ IsDue message seqnum e

module _ (message : Request) (seqnum : ℕ) where
  ack_loop-Splits :
      (queue : List Entry)
      → let (kept, done) = ack_loop message seqnum queue in
        Splits kept done queue
        × All (IsDue message seqnum) done
        × All (IsNotDue message seqnum) kept
  unfolding ack_loop
  ack_loop-Splits [] = (none_left, tt, tt)
  ack_loop-Splits (e ∷ rest) =
      let (split, due, not_due) = ack_loop-Splits rest in
      if_cases
        (λ (r : List Entry × List Entry).
          Splits r.0 r.1 (e ∷ rest)
          × All (IsDue message seqnum) r.1
          × All (IsNotDue message seqnum) r.0)
        (is_due message seqnum e) (λ h. (takes e split, (ground arith, due), not_due))
        (λ h. (keeps e split, due, (λ d. ground arith, not_due)))

-- What `ack` may make of a port with a message.
abbrev pub Acked : Port → Port → Type 0
Acked p p' =
    (done : List Entry) × Splits p'.queue done p.queue
    × All (IsDue p.message p.seqnum) done
    × All (IsNotDue p.message p.seqnum) p'.queue
    × (p'.results ≡ p.results ++ satisfy p.message done)
    × (p'.seqnum ≡ p.seqnum)
    × (((p'.queue ≡ []) × (p'.has_message ≡ false))
        ⊎ ((e : Entry) × (rest : List Entry) × (p'.queue ≡ e ∷ rest)
            × (p'.message ≡ e.message)
            × (p'.has_message ≡ true)))

module _ (p : Port) (posted : p.has_message ≡ true) where
  post_first-Acked :
      (kept done : List Entry)
      → Splits kept done p.queue
      → All (IsDue p.message p.seqnum) done
      → All (IsNotDue p.message p.seqnum) kept
      → Acked p
          (post_first (record p { queue = kept; results = p.results ++ satisfy p.message done }))
  unfolding post_first
  post_first-Acked [] done split due not_due =
      (done, split, due, not_due, refl, refl, inl (refl, refl))
  post_first-Acked (e ∷ rest) done split due not_due =
      (done, split, due, not_due, refl, refl, inr (e, rest, refl, refl, posted))

  -- With a message posted, `ack` gives exactly those queued requests their result that have the cause
  -- of the message and were queued before it was last received. The others stay queued in their
  -- order, and the port is busy afterwards exactly if there are any, with the first of them as its
  -- message.
  pub ack-Acked : Acked p (ack p)
  unfolding ack
  ack-Acked =
      let (split, due, not_due) = ack_loop-Splits p.message p.seqnum p.queue in
      if_cases (Acked p) p.has_message (λ h. post_first-Acked _ _ split due not_due) (λ h. cc)
