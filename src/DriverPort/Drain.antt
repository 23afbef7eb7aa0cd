-- ===== src/DriverPort/Drain.antt =====
-- Rounds of `receive` and `ack` of zDriverPort.cpp: every queued request is satisfied in the end.
use zgc_primax.Base.{
  ℕ, zero, suc, ◌+◌, ◌≤◌, ◌<◌, ◌≡◌, refl, sym, ap, ◌∙◌, append_assoc, ◌⊎◌, inl, inr, true, some,
  List, [], ◌∷◌, ◌++◌, All, length, arith, uintptr_max, add64_lem, Bool-cases, add64, Option-cases,
}
use zgc_primax.DriverPort.{Request, Entry, Port, Send, satisfy, ack, sends, receive, round, rounds}
use zgc_primax.DriverPort.Ack.{Acked, ack-Acked}
use zgc_primax.DriverPort.Queue.{
  At, At-append, Has, HasResult, Splits-At, Splits-At_first, Splits-All, sends-Sent, All-append,
  HasResult-satisfy, HasResult-append_left, HasResult-append_right,
}

-- A queued entry carries the number of a receive that has been made.
abbrev pub IsWf : Port → Type 0
IsWf p = All (λ e. e.seqnum ≤ p.seqnum) p.queue

-- What `receive` returns while `x` is the first entry.
record Received (p : Port) (x : Entry) (r : Port) : Type 0 where
  posted : r.has_message ≡ true
  queued : r.queue ≡ p.queue
  counted : r.seqnum ≡ add64 p.seqnum 1
  results_kept : r.results ≡ p.results
  follows :
      p.has_message ≡ true → p.message.cause ≡ x.message.cause → r.message.cause ≡ x.message.cause

receive-Received :
    (p : Port) (x : Entry) (q : List Entry)
    → p.queue ≡ x ∷ q
    → (r : Port) × (receive p ≡ some (r.message, r)) × Received p x r
unfolding receive
receive-Received p x q e = elim (Bool-cases p.has_message) [
  | inl h ↦ (
    record p { seqnum = add64 p.seqnum 1 },
    ground arith,
    record { posted = h; queued = refl; counted = refl; results_kept = refl; follows = λ _ k. k },
  )
  | inr h ↦ (
    record p { seqnum = add64 p.seqnum 1; message = x.message; has_message = true },
    ground arith,
    record {
      posted = refl;
      queued = refl;
      counted = refl;
      results_kept = refl;
      follows = λ _ _. refl;
    },
  )
]

-- The port that `ack` finds at the end of a round that began at `p` with `x` first in the queue.
record AtAck (p : Port) (x : Entry) (r : Port) : Type 0 where
  posted : r.has_message ≡ true
  more : List Entry
  queued : r.queue ≡ p.queue ++ more
  queued_now : All (λ e. e.seqnum ≤ p.seqnum + 1) more
  counted : r.seqnum ≡ p.seqnum + 1
  results_kept : r.results ≡ p.results
  follows :
      p.has_message ≡ true → p.message.cause ≡ x.message.cause → r.message.cause ≡ x.message.cause

All-le-suc : (n : ℕ) (l : List Entry) → All (λ e. e.seqnum ≤ n) l → All (λ e. e.seqnum ≤ n + 1) l
All-le-suc n [] h = tt
All-le-suc n (x ∷ l) h = (omega arith, All-le-suc n l h.1)

round-AtAck :
    (w : List Send × List Send) (p : Port) (x : Entry) (q : List Entry)
    → p.queue ≡ x ∷ q
    → p.seqnum < uintptr_max
    → (r : Port) × (round w p ≡ ack r) × AtAck p x r
unfolding round
round-AtAck (waiting, collecting) p x q e small =
    let s = sends-Sent waiting p in
    let (r, run, got) =
      receive-Received (sends waiting p) x (q ++ s.more) (s.queued ∙ ap (λ l. l ++ s.more) e) in
    let t = sends-Sent collecting r in
    let count : r.seqnum ≡ p.seqnum + 1 =
      got.counted ∙ (ap (λ n. add64 n 1) s.seqnum_kept ∙ add64_lem p.seqnum 1 (omega arith)) in
    (
      sends collecting r,
      rw (run, round),
      record {
        posted = (t.message_kept got.posted).0;
        more = s.more ++ t.more;
        queued =
            t.queued
            ∙ (ap (λ l. l ++ t.more) (got.queued ∙ s.queued) ∙ append_assoc p.queue s.more t.more);
        queued_now =
            All-append _ s.more t.more (All-le-suc p.seqnum s.more s.queued_now)
              (rw count at t.queued_now);
        counted = t.seqnum_kept ∙ count;
        results_kept = t.results_kept ∙ (got.results_kept ∙ s.results_kept);
        follows = λ h k.
            let (h', same) = s.message_kept h in
            ap (λ m. m.cause) (t.message_kept got.posted).1
            ∙ got.follows h' (ap (λ m. m.cause) same ∙ k);
      },
    )

-- The next round is for the first entry.
record IsReady (p : Port) : Type 0 where
  first : Entry
  others : List Entry
  queued : p.queue ≡ first ∷ others
  posted : p.has_message ≡ true
  same_cause : p.message.cause ≡ first.message.cause

-- `e` has its result, or is one of the first `k` entries, with a message posted for the first one.
abbrev Served : ℕ → ℕ → Entry → Port → Type 0
Served k n e p = HasResult e p.results ⊎ (IsReady p × At k e p.queue × IsWf p × (p.seqnum ≡ n))

-- What `ack` leaves is ready, if it leaves anything.
Acked-IsReady : (r p' : Port) (k : ℕ) (e : Entry) → Acked r p' → At k e p'.queue → IsReady p'
Acked-IsReady r p' k e a at = elim a.6 [
  | inl (empty, idle) ↦ elim (rw empty at at) [ ]
  | inr (x, rest, eq, same, posted) ↦ record {
    first = x;
    others = rest;
    queued = eq;
    posted = posted;
    same_cause = ap (λ m. m.cause) same;
  }
]

module _ (p r : Port) (x : Entry) (wf : IsWf p) (a : AtAck p x r) where
  r-IsWf : All (λ e. e.seqnum ≤ p.seqnum + 1) r.queue
  r-IsWf = rw a.queued (All-append _ p.queue a.more (All-le-suc p.seqnum p.queue wf) a.queued_now)

  -- Where the loop of `ack` puts `e`, the port that it leaves serves it.
  ack-Served :
      (k : ℕ) (e : Entry) (c : Acked r (ack r))
      → Has e c.0 ⊎ At k e (ack r).queue
      → Served k (p.seqnum + 1) e (ack r)
  ack-Served k e c (inl h) =
      inl (rw c.4 (HasResult-append_right e r.results _ (HasResult-satisfy r.message e c.0 h)))
  ack-Served k e c (inr h) = inr (
    Acked-IsReady r (ack r) k e c h,
    h,
    rw (c.5 ∙ a.counted) (Splits-All _ c.1 r-IsWf),
    c.5 ∙ a.counted,
  )

  -- Any round ends with a message for the first entry.
  ack-Served_any : (k : ℕ) (e : Entry) → At k e p.queue → Served k (p.seqnum + 1) e (ack r)
  ack-Served_any k e at =
      let c = ack-Acked r a.posted in
      ack-Served k e c (Splits-At k e c.1 (rw a.queued (At-append k e p.queue a.more at)))

  -- A round for the first entry takes it out of the queue.
  ack-Served_next :
      (k : ℕ) (e : Entry) (q : List Entry)
      → p.queue ≡ x ∷ q
      → p.has_message ≡ true
      → p.message.cause ≡ x.message.cause
      → At (suc k) e p.queue
      → Served k (p.seqnum + 1) e (ack r)
  ack-Served_next k e q eq posted same at =
      let c = ack-Acked r a.posted in
      ack-Served k e c (
        Splits-At_first r.message r.seqnum k e x (q ++ a.more) c.1
          (a.queued ∙ ap (λ l. l ++ a.more) eq) (sym (a.follows posted same), rw a.counted oldest)
          c.3 (rw a.queued (At-append (suc k) e p.queue a.more at)))
    where
      oldest : x.seqnum < p.seqnum + 1
      oldest = omega (arith, (rw eq at wf).0)

receive-results :
    (p : Port) {message : Request} {r : Port}
    → receive p ≡ some (message, r)
    → (r.results ≡ p.results) × (r.has_message ≡ true)
unfolding receive
receive-results p e = ground arith

ack-HasResult :
    (r : Port) (e : Entry)
    → r.has_message ≡ true
    → HasResult e r.results
    → HasResult e (ack r).results
ack-HasResult r e posted h =
    let c = ack-Acked r posted in
    rw c.4 (HasResult-append_left e r.results (satisfy r.message c.0) h)

-- A result, once given, stays.
round-HasResult :
    (w : List Send × List Send) (p : Port) (e : Entry)
    → HasResult e p.results
    → HasResult e (round w p).results
unfolding round
round-HasResult (waiting, collecting) p e h = elim (Option-cases (receive (sends waiting p))) [
  | inl idle ↦ rw (idle, round) (rw (sends-Sent waiting p).results_kept h)
  | inr ((message, r), got) ↦
      let (same, posted) = receive-results (sends waiting p) got in
      let t = sends-Sent collecting r in
      rw (got, round)
        (ack-HasResult (sends collecting r) e (t.message_kept posted).0
          (rw (t.results_kept ∙ (same ∙ (sends-Sent waiting p).results_kept)) h))
]

round-Served :
    (w : List Send × List Send) (p : Port) (k n : ℕ) (e : Entry)
    → n < uintptr_max
    → Served (suc k) n e p
    → Served k (n + 1) e (round w p)
round-Served w p k n e small (inl h) = inl (round-HasResult w p e h)
round-Served w p k n e small (inr (ready, at, wf, count)) =
    let (r, run, a) = round-AtAck w p ready.first ready.others ready.queued (rw count small) in
    rw (run, ← count)
      (ack-Served_next p r ready.first wf a k e ready.others ready.queued ready.posted
        ready.same_cause at)

rounds-Served :
    (k n : ℕ) (ws : List (List Send × List Send)) (p : Port) (e : Entry)
    → k ≤ length ws
    → n + length ws ≤ uintptr_max
    → Served k n e p
    → HasResult e (rounds ws p).results
unfolding rounds
rounds-Served zero n [] p e le small (inl h) = h
rounds-Served zero n [] p e le small (inr (ready, at, wf, count)) = elim (rw ready.queued at at) [ ]
rounds-Served (suc k) n [] p e le small s = absurd (omega arith)
rounds-Served zero n (w ∷ ws) p e le small (inl h) =
    rounds-Served zero (n + 1) ws (round w p) e (omega arith) (omega arith)
      (inl (round-HasResult w p e h))
rounds-Served zero n (w ∷ ws) p e le small (inr (ready, at, wf, count)) =
    elim (rw ready.queued at at) [ ]
rounds-Served (suc k) n (w ∷ ws) p e le small s =
    rounds-Served k (n + 1) ws (round w p) e (omega arith) (omega arith)
      (round-Served w p k n e (omega arith) s)

first_round-Served :
    (w : List Send × List Send) (p : Port) (k : ℕ) (e : Entry) (q : List Entry)
    → p.queue ≡ q
    → IsWf p
    → p.seqnum < uintptr_max
    → At k e q
    → Served k (p.seqnum + 1) e (round w p)
first_round-Served w p k e [] eq wf small at = elim at [ ]
first_round-Served w p k e (x ∷ q) eq wf small at =
    let (r, run, a) = round-AtAck w p x q eq small in
    rw run (ack-Served_any p r x wf a k e (rw eq at))

-- From a port with no entry in the queue that is numbered ahead of the port, whatever other threads
-- send meanwhile, a request that is one of the first k in the queue has its result after k + 1
-- rounds of the driver, if the sequence number does not wrap.
pub rounds-HasResult :
    (k : ℕ) (w : List Send × List Send) (ws : List (List Send × List Send)) (p : Port) (e : Entry)
    → IsWf p
    → At k e p.queue
    → k ≤ length ws
    → p.seqnum + length (w ∷ ws) ≤ uintptr_max
    → HasResult e (rounds (w ∷ ws) p).results
unfolding rounds
rounds-HasResult k w ws p e wf at le small =
    rounds-Served k (p.seqnum + 1) ws (round w p) e le (omega arith)
      (first_round-Served w p k e p.queue refl wf (omega arith) at)
