-- ===== src/DriverPort.antt =====
-- zDriverPort.hpp and zDriverPort.cpp: the mailbox by which Java threads ask a GC driver thread for
-- collections. The lock makes each operation one step. A wait is a step that is not enabled.
pub mod Ack
pub mod Queue
pub mod Drain
mod Tests
use zgc_primax.Base.{
  ℕ, Bool, true, false, ◌&&◌, Option, none, some, List, [], ◌∷◌, ◌++◌, ltb, ◌==◌, if◌then◌else◌,
  add64,
}

-- `ZDriverRequest`. A GCCause is a number.
pub record Request : Type 0 where
  pub cause : ℕ
  pub young_nworkers : ℕ
  pub old_nworkers : ℕ

-- `ZDriverRequest::operator==`
abbrev pub same_request : Request → Request → Bool
same_request a b = a.cause == b.cause

-- `ZDriverPortEntry`, with the thread whose stack it is on, which waits for it.
pub record Entry : Type 0 where
  pub sender : ℕ
  pub message : Request
  pub seqnum : ℕ

-- `ZDriverPort`. `results` are the futures that have been set, the newest last.
pub record Port : Type 0 where
  pub has_message : Bool
  pub message : Request
  pub seqnum : ℕ
  pub queue : List Entry
  pub results : List (Entry × Request)

-- `ZDriverRequest::ZDriverRequest` with `GCCause::_no_gc`, whose number is the argument.
abbrev no_request : ℕ → Request
no_request no_gc = record { cause = no_gc; young_nworkers = 0; old_nworkers = 0 }

-- `ZDriverPort::ZDriverPort`
pub init : ℕ → Port
init no_gc = record {
  has_message = false;
  message = no_request no_gc;
  seqnum = 0;
  queue = [];
  results = [];
}

pub is_busy : Port → Bool
is_busy p = p.has_message

-- The first locked part of `send_sync`. The thread then waits until its entry has a result.
pub send_sync : ℕ → Request → Port → Port
send_sync sender message p = record p {
  queue = p.queue ++ record { sender = sender; message = message; seqnum = p.seqnum } ∷ [];
}

pub send_async : Request → Port → Port
send_async message p =
    if p.has_message then p else record p { message = message; has_message = true }

-- The part of `receive` after the wait, which needs a message or a queued entry.
pub receive : Port → Option (Request × Port)
receive p =
    if p.has_message
    then some (p.message, record p { seqnum = add64 p.seqnum 1 })
    else elim p.queue [
      | [] ↦ none
      | e ∷ rest ↦ some (
        e.message,
        record p { seqnum = add64 p.seqnum 1; message = e.message; has_message = true },
      )
    ]

-- An entry that `ack` satisfies: its request is that of the collection that has just been done, and
-- it was queued before that collection was received.
abbrev pub is_due : Request → ℕ → Entry → Bool
is_due message seqnum e = same_request e.message message && ltb e.seqnum seqnum

-- The loop of `ack`: the entries that stay queued, and those that are satisfied.
pub ack_loop : Request → ℕ → List Entry → List Entry × List Entry
ack_loop message seqnum [] = ([], [])
ack_loop message seqnum (e ∷ rest) =
    let (kept, done) = ack_loop message seqnum rest in
    if is_due message seqnum e then (kept, e ∷ done) else (e ∷ kept, done)

-- `entry->satisfy(_message)` for each of them.
abbrev pub satisfy : Request → List Entry → List (Entry × Request)
satisfy message [] = []
satisfy message (e ∷ rest) = (e, message) ∷ satisfy message rest

-- The end of `ack`, once the loop is over.
pub post_first : Port → Port
post_first p = elim p.queue [
  | [] ↦ record p { has_message = false }
  | e ∷ rest ↦ record p { message = e.message }
]

pub ack : Port → Port
unfolding ack_loop post_first
ack p =
    let (kept, done) = ack_loop p.message p.seqnum p.queue in
    if p.has_message
    then post_first (record p { queue = kept; results = p.results ++ satisfy p.message done })
    else p

-- What other threads do to the port.
pub data Send : Type 0 where
  sync : ℕ → Request → Send
  async : Request → Send

pub sends : List Send → Port → Port
unfolding send_sync send_async
sends [] p = p
sends (sync sender message ∷ rest) p = sends rest (send_sync sender message p)
sends (async message ∷ rest) p = sends rest (send_async message p)

-- A round of a driver's `run_thread`, with what is sent while it waits in `receive`, and what is sent
-- while it collects. With nothing to receive it goes on waiting.
pub round : List Send × List Send → Port → Port
unfolding sends receive ack
round (waiting, collecting) p =
    let q = sends waiting p in
    elim (receive q) [ none ↦ q | some (message, r) ↦ ack (sends collecting r) ]

pub rounds : List (List Send × List Send) → Port → Port
unfolding round
rounds [] p = p
rounds (w ∷ ws) p = rounds ws (round w p)
