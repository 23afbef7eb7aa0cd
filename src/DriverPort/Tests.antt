-- ===== src/DriverPort/Tests.antt =====
-- The mailbox of zDriverPort.cpp on concrete requests.
use zgc_primax.Base.{ℕ, ◌≡◌, refl, inl, inr, true, none, List, [], ◌∷◌, arith}
use zgc_primax.DriverPort.{Request, Entry, Port, Send, sync, async, init, receive, ack, rounds}
use zgc_primax.DriverPort.Queue.{HasResult}
use zgc_primax.DriverPort.Drain.{rounds-HasResult}

abbrev request : ℕ → Request
request cause = record { cause = cause; young_nworkers = 2; old_nworkers = 1 }

abbrev entry : ℕ → ℕ → Entry
entry sender cause = record { sender = sender; message = request cause; seqnum = 0 }

-- A collection for cause 7 has been received, and three requests are queued: one of them came later.
abbrev collecting_port : Port
collecting_port = record {
  has_message = true;
  message = request 7;
  seqnum = 1;
  queue = entry 10 7 ∷ entry 11 3 ∷ record { sender = 12; message = request 7; seqnum = 1 } ∷ [];
  results = [];
}

ack_runs : ack collecting_port ≡ record collecting_port {
  message = request 3;
  queue = entry 11 3 ∷ record { sender = 12; message = request 7; seqnum = 1 } ∷ [];
  results = (entry 10 7, request 7) ∷ [];
}
unfolding ack
ack_runs = refl

receive_waits : receive (init 0) ≡ none
unfolding receive init
receive_waits = refl

-- While nothing but asynchronous requests come in, and one more synchronous one.
abbrev busy_round : List Send × List Send
busy_round = (async (request 5) ∷ [], sync 20 (request 9) ∷ async (request 6) ∷ [])

rounds-HasResult_example :
    HasResult
      (entry 11 3)
      (rounds (busy_round ∷ busy_round ∷ busy_round ∷ []) collecting_port).results
rounds-HasResult_example =
    rounds-HasResult 2 busy_round (busy_round ∷ busy_round ∷ []) collecting_port (entry 11 3)
      (omega arith) (inr (inl refl)) (omega arith) (omega arith)
