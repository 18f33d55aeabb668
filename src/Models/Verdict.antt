-- ===== src/Models/Verdict.antt =====
-- src/trustrail/models/verdict.py and src/trustrail/models/verification.py. The prose of a check's
-- `detail` is not modelled: nothing reads it.
use Prim.Native.String.{String}
use cpfbuddies.Prelude.{ℕ, Bool, true, false, ◌&&◌, ◌||◌, Option, List, [], ◌∷◌, ltb, if◌then◌else◌}
use cpfbuddies.Models.Mandate.{Timestamp, SignedMandate, MandateState}
use cpfbuddies.Models.Charge.{Charge}
use cpfbuddies.Models.Evaluation.{SignedEvaluatorOutput}
use cpfbuddies.Models.Registry.{MerchantRecord, AgentRecord}

pub data Decision : Type 0 where
  pass review fail : Decision

-- `_SEVERITY`
abbrev pub severity : Decision → ℕ
severity pass = 0
severity review = 1
severity fail = 2

-- Python's `max` with a key keeps the first of the greatest.
abbrev pub worst_from : Decision → List Decision → Decision
worst_from best [] = best
worst_from best (d ∷ ds) = worst_from (if ltb (severity best) (severity d) then d else best) ds

-- `Decision.worst`
unfoldable pub worst : List Decision → Decision
worst [] = pass
worst (d ∷ ds) = worst_from d ds

pub data CheckKind : Type 0 where
  deterministic judgement : CheckKind

pub data ReasonCode : Type 0 where
  mandate_digest_mismatch mandate_signature_invalid mandate_expired mandate_revoked : ReasonCode
  mandate_already_consumed kill_switch_active nonce_replayed : ReasonCode
  charge_mandate_mismatch currency_mismatch currency_not_settleable charge_over_cap : ReasonCode
  merchant_not_registered merchant_inactive payout_address_mismatch : ReasonCode
  merchant_binding_mismatch basket_binding_mismatch : ReasonCode
  evaluator_not_registered evaluator_signature_invalid evaluator_subject_mismatch : ReasonCode
  risk_score_critical risk_score_review_band intent_mismatch_suspected : ReasonCode
  injection_suspected suspicious_seller_pricing : ReasonCode

pub record CheckResult : Type 0 where
  pub name : String
  pub kind : CheckKind
  pub decision : Decision
  pub reason : Option ReasonCode

pub record Verdict : Type 0 where
  pub decision : Decision
  pub reason_codes : List ReasonCode
  pub checks : List CheckResult
  pub mandate_id : String
  pub charge_id : String
  pub risk_score : ℕ
  pub evaluated_at : Timestamp
  pub verifier_version : String
  pub config_version : String

abbrev pub is_fail : Decision → Bool
is_fail fail = true
is_fail _ = false

abbrev pub is_deterministic : CheckKind → Bool
is_deterministic deterministic = true
is_deterministic judgement = false

abbrev pub any_check : (CheckResult → Bool) → List CheckResult → Bool
any_check test [] = false
any_check test (c ∷ cs) = test c || any_check test cs

-- The computed field: a fact, not a threshold, rejected the charge.
unfoldable pub failed_deterministically : Verdict → Bool
failed_deterministically v = any_check (λ c. is_fail c.decision && is_deterministic c.kind) v.checks

pub record VerificationRequest : Type 0 where
  pub signed_mandate : SignedMandate
  pub charge : Charge
  pub evaluation : SignedEvaluatorOutput
  pub mandate_state : MandateState
  pub merchant : Option MerchantRecord
  pub evaluator : Option AgentRecord
  pub kill_switch_active : Bool
  pub now : Timestamp
