-- ===== src/DriverPort/Queue.antt =====
-- Where a request stands in the queue of zDriverPort.cpp while other threads send and `ack` dequeues.
use zgc_primax.Base.{
  ℕ, zero, suc, ◌≤◌, ◌≡◌, refl, sym, ap, ◌∙◌, ◌⊎◌, inl, inr, true, List, [], ◌∷◌, ◌++◌, All,
  append-nil, append_assoc, arith, if_cases,
}
use zgc_primax.DriverPort.{
  Request, Entry, Port, Send, sync, async, send_sync, send_async, sends, satisfy,
}
use zgc_primax.DriverPort.Ack.{Splits, none_left, keeps, takes, IsDue, IsNotDue}

-- `e` is one of the first `k` entries.
abbrev pub At : ℕ → Entry → List Entry → Type 0
At k e [] = ⊥
At zero e (x ∷ queue) = ⊥
At (suc k) e (x ∷ queue) = (e ≡ x) ⊎ At k e queue

abbrev pub Has : Entry → List Entry → Type 0
Has e [] = ⊥
Has e (x ∷ entries) = (e ≡ x) ⊎ Has e entries

-- `e` has its result.
abbrev pub HasResult : Entry → List (Entry × Request) → Type 0
HasResult e [] = ⊥
HasResult e (x ∷ results) = (e ≡ x.0) ⊎ HasResult e results

pub At-append : (k : ℕ) (e : Entry) (q more : List Entry) → At k e q → At k e (q ++ more)
At-append k e [] more h = elim h [ ]
At-append zero e (x ∷ q) more h = elim h [ ]
At-append (suc k) e (x ∷ q) more (inl h) = inl h
At-append (suc k) e (x ∷ q) more (inr h) = inr (At-append k e q more h)

At-suc : (k : ℕ) (e : Entry) (q : List Entry) → At k e q → At (suc k) e q
At-suc k e [] h = elim h [ ]
At-suc zero e (x ∷ q) h = elim h [ ]
At-suc (suc k) e (x ∷ q) (inl h) = inl h
At-suc (suc k) e (x ∷ q) (inr h) = inr (At-suc k e q h)

pub Splits-At :
    (k : ℕ) (e : Entry) {kept done queue : List Entry}
    → Splits kept done queue
    → At k e queue
    → Has e done ⊎ At k e kept
Splits-At k e none_left h = elim h [ ]
Splits-At zero e (keeps x s) h = elim h [ ]
Splits-At (suc k) e (keeps x s) (inl h) = inr (inl h)
Splits-At (suc k) e (keeps x s) (inr h) = elim (Splits-At k e s h) [
  | inl d ↦ inl d
  | inr a ↦ inr (inr a)
]
Splits-At zero e (takes x s) h = elim h [ ]
Splits-At (suc k) e (takes x s) (inl h) = inl (inl h)
Splits-At (suc k) e (takes {kept = kept} x s) (inr h) = elim (Splits-At k e s h) [
  | inl d ↦ inl (inr d)
  | inr a ↦ inr (At-suc k e kept a)
]

-- Where the first entry goes, the others move up.
pub Splits-At_first :
    (message : Request) (seqnum k : ℕ) (e x : Entry) {kept done queue : List Entry} (q : List Entry)
    → Splits kept done queue
    → queue ≡ x ∷ q
    → IsDue message seqnum x
    → All (IsNotDue message seqnum) kept
    → At (suc k) e queue
    → Has e done ⊎ At k e kept
Splits-At_first message seqnum k e x q none_left eq due not_due h = elim h [ ]
Splits-At_first message seqnum k e x q (keeps y s) eq due not_due h =
    absurd (not_due.0 (ground arith))
Splits-At_first message seqnum k e x q (takes y s) eq due not_due (inl h) = inl (inl h)
Splits-At_first message seqnum k e x q (takes y s) eq due not_due (inr h) =
    elim (Splits-At k e s h) [ inl d ↦ inl (inr d) | inr a ↦ inr a ]

pub Splits-All :
    (P : Entry → Type 0) {kept done queue : List Entry}
    → Splits kept done queue
    → All P queue
    → All P kept
Splits-All P none_left h = tt
Splits-All P (keeps x s) h = (h.0, Splits-All P s h.1)
Splits-All P (takes x s) h = Splits-All P s h.1

pub HasResult-satisfy :
    (message : Request) (e : Entry) (done : List Entry)
    → Has e done
    → HasResult e (satisfy message done)
HasResult-satisfy message e [] h = elim h [ ]
HasResult-satisfy message e (x ∷ done) (inl h) = inl h
HasResult-satisfy message e (x ∷ done) (inr h) = inr (HasResult-satisfy message e done h)

pub HasResult-append_left :
    (e : Entry) (xs ys : List (Entry × Request)) → HasResult e xs → HasResult e (xs ++ ys)
HasResult-append_left e [] ys h = elim h [ ]
HasResult-append_left e (x ∷ xs) ys (inl h) = inl h
HasResult-append_left e (x ∷ xs) ys (inr h) = inr (HasResult-append_left e xs ys h)

pub HasResult-append_right :
    (e : Entry) (xs ys : List (Entry × Request)) → HasResult e ys → HasResult e (xs ++ ys)
HasResult-append_right e [] ys h = h
HasResult-append_right e (x ∷ xs) ys h = inr (HasResult-append_right e xs ys h)

-- What sends can do to a port.
pub record Sent (p p' : Port) : Type 0 where
  pub more : List Entry
  pub queued : p'.queue ≡ p.queue ++ more
  pub queued_now : All (λ e. e.seqnum ≤ p.seqnum) more
  pub seqnum_kept : p'.seqnum ≡ p.seqnum
  pub results_kept : p'.results ≡ p.results
  pub message_kept : p.has_message ≡ true → (p'.has_message ≡ true) × (p'.message ≡ p.message)

Sent-refl : (p : Port) → Sent p p
Sent-refl p = record {
  more = [];
  queued = sym (append-nil p.queue);
  queued_now = tt;
  seqnum_kept = refl;
  results_kept = refl;
  message_kept = λ h. (h, refl);
}

send_sync-Sent : (sender : ℕ) (message : Request) (p : Port) → Sent p (send_sync sender message p)
unfolding send_sync
send_sync-Sent sender message p = record {
  more = record { sender = sender; message = message; seqnum = p.seqnum } ∷ [];
  queued = refl;
  queued_now = (omega arith, tt);
  seqnum_kept = refl;
  results_kept = refl;
  message_kept = λ h. (h, refl);
}

send_async-Sent : (message : Request) (p : Port) → Sent p (send_async message p)
unfolding send_async
send_async-Sent message p =
    if_cases (Sent p) p.has_message (λ h. Sent-refl p)
      (λ h. record {
        more = [];
        queued = sym (append-nil p.queue);
        queued_now = tt;
        seqnum_kept = refl;
        results_kept = refl;
        message_kept = λ k. cc;
      })

pub All-append : (P : Entry → Type 0) (xs ys : List Entry) → All P xs → All P ys → All P (xs ++ ys)
All-append P [] ys h k = k
All-append P (x ∷ xs) ys h k = (h.0, All-append P xs ys h.1 k)

Sent-trans : (p q r : Port) → Sent p q → Sent q r → Sent p r
Sent-trans p q r s t = record {
  more = s.more ++ t.more;
  queued = t.queued ∙ (ap (λ l. l ++ t.more) s.queued ∙ append_assoc p.queue s.more t.more);
  queued_now = All-append _ s.more t.more s.queued_now (rw s.seqnum_kept at t.queued_now);
  seqnum_kept = t.seqnum_kept ∙ s.seqnum_kept;
  results_kept = t.results_kept ∙ s.results_kept;
  message_kept = λ h.
      let (posted, same) = s.message_kept h in
      let (posted', same') = t.message_kept posted in (posted', same' ∙ same);
}

pub sends-Sent : (ss : List Send) (p : Port) → Sent p (sends ss p)
unfolding sends
sends-Sent [] p = Sent-refl p
sends-Sent (sync sender message ∷ rest) p =
    Sent-trans p (send_sync sender message p) (sends rest (send_sync sender message p))
      (send_sync-Sent sender message p) (sends-Sent rest (send_sync sender message p))
sends-Sent (async message ∷ rest) p =
    Sent-trans p (send_async message p) (sends rest (send_async message p))
      (send_async-Sent message p) (sends-Sent rest (send_async message p))
