-- ===== src/Orchestrator/Office.antt =====
-- The state that the Purchase Orchestrator works on, and the shopping agents, which answer from outside.
use cpfbuddies.Prelude.{ℕ, ◌+◌, String, Option}
use cpfbuddies.Errors.{Result, ok}
use cpfbuddies.Models.Money.{Money}
use cpfbuddies.Models.Mandate.{MandateRecord}
use cpfbuddies.Models.Charge.{Charge, PurchaseCandidate}
use cpfbuddies.Models.Evaluation.{SignedEvaluatorOutput}
use cpfbuddies.Models.Config.{VerifierConfig}
use cpfbuddies.Models.Review.{ReviewHold}
use cpfbuddies.Models.Verdict.{Verdict}
use cpfbuddies.Stores.Directories.{MerchantDirectory, AgentDirectory}
use cpfbuddies.Stores.Holds.{ReviewHoldStore}
use cpfbuddies.Mandates.Rail.{Ports, Rail, Action}
use cpfbuddies.Settlement.Queue.{SettlementQueue}

-- `ShoppingResult` of src/trustrail/orchestrator/ports.py
pub record ShoppingResult : Type 0 where
  pub candidate : PurchaseCandidate
  pub evaluation : SignedEvaluatorOutput

-- What the orchestrator is built with. `shop n` is the agents' answer to the n-th request, which may be
-- `NoCandidate`.
pub record OfficePorts : Type 0 where
  pub mandates : Ports
  pub config : VerifierConfig
  pub shop : ℕ → String → Money → String → Result ShoppingResult

pub record Office : Type 0 where
  pub rail : Rail
  pub merchants : MerchantDirectory
  pub agents : AgentDirectory
  pub holds : ReviewHoldStore
  pub queue : SettlementQueue
  pub shops : ℕ

abbrev pub Task : Type 0 → Type 0
Task A = Office → Result A × Office

-- A call of the Mandate Service.
unfoldable pub on_rail : {A : Type 0} → Action A → Task A
on_rail m s = let (answer, rail) = m s.rail in (answer, record s { rail = rail })

unfoldable pub read_office : {A : Type 0} → (Office → A) → Task A
read_office f s = (ok (f s), s)

-- `self._holds.put`
unfoldable pub write_holds : (ReviewHoldStore → ReviewHoldStore) → Task (Unit {0})
write_holds f s = (ok tt, record s { holds = f s.holds })

-- `self._queue.publish`
unfoldable pub write_queue : {A : Type 0} → (SettlementQueue → A × SettlementQueue) → Task A
write_queue f s = let (answer, queue) = f s.queue in (ok answer, record s { queue = queue })

unfoldable pub call_shop : OfficePorts → String → Money → String → Task ShoppingResult
call_shop ports intent max_amount mandate_id s =
    (ports.shop s.shops intent max_amount mandate_id, record s { shops = s.shops + 1 })

-- `PurchaseOutcome`
pub record PurchaseOutcome : Type 0 where
  pub verdict : Verdict
  pub charge : Charge
  pub mandate : MandateRecord
  pub hold : Option ReviewHold
  pub queued_message_id : Option String
