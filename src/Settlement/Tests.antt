-- ===== src/Settlement/Tests.antt =====
-- Runs of the worker, and the theorems of the settlement side at a concrete request.
use cpfbuddies.Prelude.{◌≡◌, refl, none, List, [], arith}
use cpfbuddies.Errors.{ok}
use cpfbuddies.Models.Audit.{settled}
use cpfbuddies.Settlement.Models.{QueueMessage, SettlementInstruction, SettlementReceipt}
use cpfbuddies.Settlement.Queue.{SettlementQueue, new_queue, publish}
use cpfbuddies.Settlement.Queue.Redrive.{publishes, done, next, IsBounded, reachable-IsBounded}
use cpfbuddies.Settlement.Worker.{WorkerPorts, WorkerState, process_once}
use cpfbuddies.Settlement.Worker.Attempts.{Attempted, process_once-attempts}
use cpfbuddies.Settlement.Worker.Release.{process_once-releases}
use cpfbuddies.Settlement.Queue.Fates.{IsTaken, IsReleased}
use cpfbuddies.Samples.{settlement_request, charge_1}

abbrev queue : SettlementQueue
queue = (publish (settlement_request 2) (publish (settlement_request 9) (new_queue 3)).1).1

reachable-IsBounded_example : IsBounded 3 queue
reachable-IsBounded_example = reachable-IsBounded 3 (omega arith) queue (
    next _ _ _ (publishes (settlement_request 9) (new_queue 3))
      (next _ _ _ (publishes (settlement_request 2) _) (done _)))

-- A rail that settles whatever it is handed.
abbrev receipt_for : SettlementInstruction → SettlementReceipt
receipt_for i = record {
  mandate_id = i.mandate_id;
  rail = "x402-onchain";
  status = settled;
  reference = none;
  explorer_url = none;
  reason_code = none;
}

abbrev worker : WorkerPorts
worker = record {
  rail_name = "x402-onchain";
  rail = λ n i. ok (receipt_for i);
  actor = "settlement-worker";
  time = λ n. 1_000_000_000;
  random = λ n. charge_1;
}

abbrev start : WorkerState
start = record { queue = queue; audit = []; attempts = []; reads = 0; draws = 0 }

process_once-attempts_example : Attempted start.queue.pending start (process_once worker 2 start).1
process_once-attempts_example = process_once-attempts worker 2 start

process_once-releases_example :
    (taken left : List QueueMessage) × (rs : List SettlementReceipt) × (s' : WorkerState)
    × (process_once worker 2 start ≡ (ok rs, s'))
    × IsTaken 2 start.queue.pending taken left
    × IsReleased taken left rs start.queue s'.queue
unfolding publish
process_once-releases_example =
    process_once-releases worker (λ n i. (receipt_for i, refl)) 2 start refl
