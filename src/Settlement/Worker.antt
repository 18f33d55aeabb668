-- ===== src/Settlement/Worker.antt =====
-- `SettlementWorker` of src/trustrail/settlement/worker.py. The rail that is configured is a parameter: it
-- answers the n-th instruction with a receipt, or raises.
pub mod Attempts
pub mod Release
use cpfbuddies.Prelude.{
  ℕ, ◌+◌, String, Bool, true, false, none, some, List, [], ◌∷◌, ◌++◌, length, if◌then◌else◌,
}
use cpfbuddies.Errors.{Result, ok, err}
use cpfbuddies.Models.Mandate.{Timestamp}
use cpfbuddies.Models.Audit.{
  AuditEntry, AuditEventType, SettlementOutcome, settled, refused, error, settlement_settled,
  settlement_refused, settlement_failed,
}
use cpfbuddies.Settlement.Models.{
  SettlementRequest, SettlementInstruction, SettlementReceipt, QueueMessage, settleable, retryable,
  from_request,
}
use cpfbuddies.Settlement.Queue.{SettlementQueue, receive, ack, nack}

pub record WorkerPorts : Type 0 where
  pub rail_name : String
  pub rail : ℕ → SettlementInstruction → Result SettlementReceipt
  pub actor : String
  pub time : ℕ → Timestamp
  pub random : ℕ → String

-- `attempts` is what the rail was handed, in order.
pub record WorkerState : Type 0 where
  pub queue : SettlementQueue
  pub audit : List AuditEntry
  pub attempts : List SettlementInstruction
  pub reads : ℕ
  pub draws : ℕ

-- `_EVENT_TYPES`
abbrev pub event_types : SettlementOutcome → AuditEventType
event_types settled = settlement_settled
event_types refused = settlement_refused
event_types error = settlement_failed

module _ (ports : WorkerPorts) where
  abbrev pub refusal : SettlementRequest → SettlementReceipt
  refusal r = record {
    mandate_id = r.verdict.mandate_id;
    rail = ports.rail_name;
    status = refused;
    reference = none;
    explorer_url = none;
    reason_code = none;
  }

  -- `self.rail.settle(instruction)`
  unfoldable pub call_rail :
      Result SettlementInstruction → WorkerState → Result SettlementReceipt × WorkerState
  call_rail (err e) s = (err e, s)
  call_rail (ok i) s =
      (ports.rail (length s.attempts) i, record s { attempts = s.attempts ++ (i ∷ []) })

  -- `_settle`
  unfoldable pub settle : SettlementRequest → WorkerState → Result SettlementReceipt × WorkerState
  settle r s = if settleable r then call_rail (from_request r) s else (ok (refusal r), s)

  -- `_entry_for`
  unfoldable pub entry_for : SettlementReceipt → WorkerState → AuditEntry
  entry_for receipt s = record {
    event_id = ports.random s.draws;
    mandate_id = receipt.mandate_id;
    event_type = event_types receipt.status;
    occurred_at = ports.time s.reads;
    actor = ports.actor;
    verdict = none;
    evaluation = none;
    settlement = some (record {
      rail = receipt.rail;
      outcome = receipt.status;
      reference = receipt.reference;
      explorer_url = receipt.explorer_url;
      reason_code = receipt.reason_code;
    });
  }

  -- The rest of `_handle`, once the rail has answered: the audit entry, then the queue.
  unfoldable pub finish :
      QueueMessage → Result SettlementReceipt → WorkerState → Result SettlementReceipt × WorkerState
  finish m (err e) s = (err e, s)
  finish m (ok receipt) s = (
    ok receipt,
    record s {
      queue = if retryable receipt.status then nack m s.queue else ack m s.queue;
      audit = s.audit ++ (entry_for receipt s ∷ []);
      reads = s.reads + 1;
      draws = s.draws + 1;
    },
  )

  -- `_handle`
  unfoldable pub handle : QueueMessage → WorkerState → Result SettlementReceipt × WorkerState
  handle m s = let (answer, s') = settle m.request s in finish m answer s'

  -- One message's result, and that of those after it: an exception ends the comprehension.
  abbrev pub collected :
      Result SettlementReceipt × WorkerState
      → Result (List SettlementReceipt) × WorkerState
      → Result (List SettlementReceipt) × WorkerState
  collected (err e, s) rest = (err e, s)
  collected (ok receipt, s) (err e, s') = (err e, s')
  collected (ok receipt, s) (ok receipts, s') = (ok (receipt ∷ receipts), s')

  -- The comprehension of `process_once`
  unfoldable pub handle_all :
      List QueueMessage → WorkerState → Result (List SettlementReceipt) × WorkerState
  handle_all [] s = (ok [], s)
  handle_all (m ∷ ms) s =
      let first = handle m s in let rest = handle_all ms first.1 in collected first rest

  unfoldable pub process_once : ℕ → WorkerState → Result (List SettlementReceipt) × WorkerState
  process_once limit s =
      let (taken, queue) = receive limit s.queue in handle_all taken (record s { queue = queue })
