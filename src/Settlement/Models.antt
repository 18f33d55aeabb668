-- ===== src/Settlement/Models.antt =====
-- src/trustrail/settlement/models.py and src/trustrail/settlement/queue/base.py
use cpfbuddies.Prelude.{
  ℕ, String, Bool, true, false, ◌&&◌, Option, none, some, ◌==◌, is_some, if◌then◌else◌,
}
use cpfbuddies.Errors.{Result, ok, err, validation_error}
use cpfbuddies.Models.Money.{Money}
use cpfbuddies.Models.Mandate.{SignedMandate}
use cpfbuddies.Models.Charge.{Charge}
use cpfbuddies.Models.Verdict.{Verdict, Decision, pass, review, fail, ReasonCode}
use cpfbuddies.Models.Review.{HumanApproval}
use cpfbuddies.Models.Audit.{SettlementOutcome, error}

pub record SettlementRequest : Type 0 where
  pub verdict : Verdict
  pub charge : Charge
  pub signed_mandate : SignedMandate
  pub human_approval : Option HumanApproval

-- The approval, if there is one, answers this charge.
abbrev pub approves : Option HumanApproval → Charge → Bool
approves none c = true
approves (some a) c = a.charge_id == c.charge_id

-- The validator `_ids_must_agree`, which runs when a request is constructed
unfoldable pub ids_agree : SettlementRequest → Bool
ids_agree q =
    let mandate_id = q.signed_mandate.mandate.mandate_id in
    q.charge.mandate_id == mandate_id
    && q.verdict.mandate_id == mandate_id
    && q.verdict.charge_id == q.charge.charge_id
    && approves q.human_approval q.charge

-- The constructor
unfoldable pub new_request :
    Verdict → Charge → SignedMandate → Option HumanApproval → Result SettlementRequest
new_request verdict charge signed_mandate human_approval =
    let q : SettlementRequest = record {
      verdict = verdict;
      charge = charge;
      signed_mandate = signed_mandate;
      human_approval = human_approval;
    } in
    if ids_agree q then ok q else err validation_error

abbrev pub may_settle : Decision → Option HumanApproval → Bool
may_settle pass approval = true
may_settle review approval = is_some approval
may_settle fail approval = false

unfoldable pub settleable : SettlementRequest → Bool
settleable q = may_settle q.verdict.decision q.human_approval

pub record SettlementInstruction : Type 0 where
  pub mandate_id : String
  pub charge_id : String
  pub principal : String
  pub merchant_id : String
  pub payout_address : String
  pub amount : Money
  pub basket_hash : String
  pub quote_id : String
  pub sku : String
  pub quantity : ℕ

abbrev pub instruction_of : SettlementRequest → SettlementInstruction
instruction_of q = record {
  mandate_id = q.charge.mandate_id;
  charge_id = q.charge.charge_id;
  principal = q.signed_mandate.mandate.principal;
  merchant_id = q.charge.merchant_id;
  payout_address = q.charge.payout_address;
  amount = q.charge.amount;
  basket_hash = q.charge.basket_hash;
  quote_id = q.charge.quote_id;
  sku = q.charge.sku;
  quantity = q.charge.quantity;
}

-- `SettlementInstruction.from_request`
unfoldable pub from_request : SettlementRequest → Result SettlementInstruction
from_request q = if settleable q then ok (instruction_of q) else err validation_error

pub record SettlementReceipt : Type 0 where
  pub mandate_id : String
  pub rail : String
  pub status : SettlementOutcome
  pub reference : Option String
  pub explorer_url : Option String
  pub reason_code : Option ReasonCode

abbrev pub retryable : SettlementOutcome → Bool
retryable error = true
retryable _ = false

-- src/trustrail/settlement/queue/base.py
pub record QueueMessage : Type 0 where
  pub message_id : String
  pub request : SettlementRequest
  pub receive_count : ℕ
  pub receipt_handle : Option String
