-- ===== src/Orchestrator/Purchase.antt =====
-- `PurchaseOrchestrator`
use cpfbuddies.Prelude.{ℕ, String, not, Option, none, some, List, leb, if◌then◌else◌}
use cpfbuddies.Errors.{
  Result, ok, err, ◌>>=◌, ◌>>◌, pure, raise, validation_error, review_not_found, review_not_pending,
}
use cpfbuddies.Models.Money.{Money}
use cpfbuddies.Models.Mandate.{Timestamp, MandateRecord, record_id}
use cpfbuddies.Models.Charge.{Charge, PurchaseCandidate}
use cpfbuddies.Models.Evaluation.{SignedEvaluatorOutput}
use cpfbuddies.Models.Config.{seconds}
use cpfbuddies.Models.Registry.{MerchantRecord, AgentRecord}
use cpfbuddies.Models.Review.{
  ReviewHold, HumanApproval, pending, approved, killed, expired, describes_one_purchase, approvable,
  deadline_for, resolve,
}
use cpfbuddies.Models.Verdict.{Verdict, Decision, review, VerificationRequest}
use cpfbuddies.Stores.Mandates
use cpfbuddies.Stores.Directories.{get_merchant, get_agent}
use cpfbuddies.Stores.Holds.{get_hold, put_hold, list_pending, is_pending}
use cpfbuddies.Mandates.Rail.{now, new_hex32}
use cpfbuddies.Mandates.Service
use cpfbuddies.Settlement.Models.{SettlementRequest, new_request, settleable}
use cpfbuddies.Settlement.Queue.{publish}
use cpfbuddies.Verifier.Service.{verify}
use cpfbuddies.Orchestrator.Office.{
  Office, OfficePorts, Task, PurchaseOutcome, ShoppingResult, on_rail, read_office, write_holds,
  write_queue, call_shop,
}

abbrev default_actor : String
default_actor = "purchase-orchestrator"

-- `agent.address if agent else None`
abbrev pub address_of : Option AgentRecord → Option String
address_of none = none
address_of (some agent) = some agent.address

-- `_charge_for`, with the id that is drawn
unfoldable pub charge_for : PurchaseCandidate → String → String → Charge
charge_for c mandate_id charge_id = record {
  charge_id = charge_id;
  mandate_id = mandate_id;
  merchant_id = c.merchant_id;
  payout_address = c.payout_address;
  amount = c.amount;
  basket_hash = c.basket_hash;
  quote_id = c.quote_id;
  sku = c.sku;
  title = c.title;
  quantity = c.quantity;
}

-- The lookups of `_verify`
unfoldable pub gathered :
    MandateRecord → Charge → SignedEvaluatorOutput → Timestamp → Office → VerificationRequest
gathered r charge evidence at s = record {
  signed_mandate = r.signed;
  charge = charge;
  evaluation = evidence;
  mandate_state = record {
    status = r.status;
    nonce_claimed_by = Mandates.nonce_owner r.signed.mandate.nonce s.rail.store;
  };
  merchant = get_merchant charge.merchant_id s.merchants;
  evaluator = get_agent evidence.evaluation.evaluator_id s.agents;
  kill_switch_active = Service.is_halted r.signed.mandate.principal s.rail;
  now = at;
}

-- The constructor of a hold, which runs the hold's validator
unfoldable pub new_hold : ReviewHold → Task ReviewHold
new_hold h = if describes_one_purchase h then pure h else raise validation_error

-- The first part of `_pending_or_raise`: the hold, if it is there and unanswered
unfoldable pub open_hold : Option ReviewHold → Task ReviewHold
open_hold none = raise review_not_found
open_hold (some h) = if is_pending h.outcome then pure h else raise review_not_pending

unfoldable pub require_merchant : Option MerchantRecord → Task MerchantRecord
require_merchant none = raise review_not_pending
require_merchant (some m) = pure m

unfoldable pub constructed : {A : Type 0} → Result A → Task A
constructed (ok a) = pure a
constructed (err e) = raise e

module _ (ports : OfficePorts) where
  abbrev pub judged : VerificationRequest → Verdict
  judged = verify ports.mandates.lib ports.config

  abbrev pub clock : Task Timestamp
  clock = on_rail (now ports.mandates)

  -- `_verify`
  unfoldable pub verify_charge : MandateRecord → Charge → SignedEvaluatorOutput → Task Verdict
  verify_charge r charge evidence = do
    at ← clock
    request ← read_office (gathered r charge evidence at)
    on_rail (Service.record_verdict ports.mandates (judged request))
    pure (judged request)

  -- `_hold`
  unfoldable pub hold_charge :
      MandateRecord → Charge → SignedEvaluatorOutput → Verdict → Task ReviewHold
  hold_charge r charge evidence verdict = do
    at ← clock
    hold ← new_hold (record {
      charge_id = charge.charge_id;
      mandate_id = record_id r;
      verdict = verdict;
      charge = charge;
      evaluation = evidence;
      outcome = pending;
      held_at = at;
      deadline =
          deadline_for at r.signed.mandate.expires_at (seconds ports.config.review_hold_seconds);
      resolved_by = none;
    })
    write_holds (put_hold hold)
    pure hold

  -- `_enqueue`
  unfoldable pub publish_if_settleable : SettlementRequest → Task (Option String)
  publish_if_settleable request =
      if not (settleable request)
      then pure none
      else do message_id ← write_queue (publish request); pure (some message_id)

  unfoldable pub enqueue :
      MandateRecord → Charge → Verdict → Option HumanApproval → Task (Option String)
  enqueue r charge verdict approval = do
    request ← constructed (new_request verdict charge r.signed approval)
    publish_if_settleable request

  -- `_dispatch`, of the decision
  unfoldable pub dispatch :
      MandateRecord → Charge → SignedEvaluatorOutput → Verdict → Decision → Task PurchaseOutcome
  dispatch r charge evidence verdict review = do
    hold ← hold_charge r charge evidence verdict
    pure (record {
      verdict = verdict;
      charge = charge;
      mandate = r;
      hold = some hold;
      queued_message_id = none;
    })
  dispatch r charge evidence verdict _ = do
    message_id ← enqueue r charge verdict none
    pure (record {
      verdict = verdict;
      charge = charge;
      mandate = r;
      hold = none;
      queued_message_id = message_id;
    })

  -- `_record_agent_work`
  unfoldable pub record_agent_work : String → String → ShoppingResult → Task Unit
  record_agent_work mandate_id agent_id found = do
    on_rail (Service.record_candidate_selected ports.mandates mandate_id agent_id)
    on_rail (Service.record_evaluation ports.mandates mandate_id found.evaluation.evaluation)

  unfoldable pub purchase : String → String → String → Money → ℕ → Task PurchaseOutcome
  purchase principal agent_id intent max_amount ttl = do
    agent ← read_office (λ s. get_agent agent_id s.agents)
    r ←
        on_rail
          (Service.mint ports.mandates principal agent_id max_amount intent ttl (address_of agent))
    found ← call_shop ports intent max_amount (record_id r)
    charge_id ← on_rail (new_hex32 ports.mandates)
    let charge = charge_for found.candidate (record_id r) charge_id
    record_agent_work (record_id r) agent_id found
    verdict ← verify_charge r charge found.evaluation
    dispatch r charge found.evaluation verdict verdict.decision

  -- The deadline and the facts, in `_pending_or_raise`
  unfoldable pub answerable : ReviewHold → Timestamp → Task ReviewHold
  answerable h at =
      if leb h.deadline at
      then (do write_holds (put_hold (resolve h expired default_actor)); raise review_not_pending)
      else if not (approvable h)
      then raise review_not_pending
      else pure h

  -- `_pending_or_raise`
  unfoldable pub pending_or_raise : String → Task ReviewHold
  pending_or_raise charge_id = do
    stored ← read_office (λ s. get_hold charge_id s.holds)
    h ← open_hold stored
    at ← clock
    answerable h at

  unfoldable pub approve_review : String → String → Task PurchaseOutcome
  approve_review charge_id approved_by = do
    h ← pending_or_raise charge_id
    listed ← read_office (λ s. get_merchant h.charge.merchant_id s.merchants)
    merchant ← require_merchant listed
    r ← on_rail (
        Service.bind ports.mandates h.mandate_id
          (record {
            merchant_address = merchant.payout_address;
            basket_hash = h.charge.basket_hash;
          })
          approved_by)
    verdict ← verify_charge r h.charge h.evaluation
    at ← clock
    let approval : HumanApproval = record {
      charge_id = charge_id;
      approved_by = approved_by;
      approved_at = at;
    }
    write_holds (put_hold (resolve h approved approved_by))
    message_id ← enqueue r h.charge verdict (some approval)
    pure (record {
      verdict = verdict;
      charge = h.charge;
      mandate = r;
      hold = some (resolve h approved approved_by);
      queued_message_id = message_id;
    })

  unfoldable pub kill_review : String → String → Task PurchaseOutcome
  kill_review charge_id killed_by = do
    h ← pending_or_raise charge_id
    r ← on_rail (Service.revoke ports.mandates h.mandate_id killed_by)
    write_holds (put_hold (resolve h killed killed_by))
    pure (record {
      verdict = h.verdict;
      charge = h.charge;
      mandate = r;
      hold = some (resolve h killed killed_by);
      queued_message_id = none;
    })

-- `pending_reviews`, which reads the clock
unfoldable pub pending_reviews : OfficePorts → Task (List ReviewHold)
pending_reviews ports = do at ← clock ports; read_office (λ s. list_pending at s.holds)
