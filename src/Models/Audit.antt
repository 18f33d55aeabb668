-- ===== src/Models/Audit.antt =====
-- src/trustrail/models/audit.py. The prose of `summary` and of a settlement's `detail` is not
-- modelled: nothing reads it back.
use Prim.Native.String.{String}
use cpfbuddies.Prelude.{Option}
use cpfbuddies.Models.Mandate.{Timestamp}
use cpfbuddies.Models.Evaluation.{EvaluatorOutput}
use cpfbuddies.Models.Verdict.{Verdict, ReasonCode}

pub data AuditEventType : Type 0 where
  mandate_minted mandate_bound mandate_revoked mandate_consumed kill_switch_set : AuditEventType
  candidate_selected evaluation_complete verdict_issued : AuditEventType
  settlement_settled settlement_refused settlement_failed : AuditEventType

pub data SettlementOutcome : Type 0 where
  settled refused error : SettlementOutcome

pub record SettlementRecord : Type 0 where
  pub rail : String
  pub outcome : SettlementOutcome
  pub reference : Option String
  pub explorer_url : Option String
  pub reason_code : Option ReasonCode

pub record AuditEntry : Type 0 where
  pub event_id : String
  pub mandate_id : String
  pub event_type : AuditEventType
  pub occurred_at : Timestamp
  pub actor : String
  pub verdict : Option Verdict
  pub evaluation : Option EvaluatorOutput
  pub settlement : Option SettlementRecord
