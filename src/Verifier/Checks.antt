-- ===== src/Verifier/Checks.antt =====
-- src/trustrail/verifier/checks.py: the checks, in the order in which they run. A check gives `none`
-- where it is satisfied.
use cpfbuddies.Prelude.{
  ◌+◌, String, Bool, true, false, not, ◌&&◌, ◌||◌, Option, none, some, List, [], ◌∷◌, ◌==◌, ltb,
  if◌then◌else◌,
}
use cpfbuddies.Models.Money.{same_currency, gt_money, same_money}
use cpfbuddies.Models.Mandate.{Mandate, revoked, consumed, same_status}
use cpfbuddies.Models.Charge.{Charge}
use cpfbuddies.Models.Evaluation.{EvaluatorOutput}
use cpfbuddies.Models.Registry.{AgentRole, evaluator, browser}
use cpfbuddies.Models.Verdict.{Decision, fail, review, ReasonCode, VerificationRequest}
use cpfbuddies.Models.Config.{VerifierConfig, seconds}
use cpfbuddies.Signing.Libraries.{Libraries}
use cpfbuddies.Signing.Crypto.{to_bytes, signed_by}
use cpfbuddies.Signing.Eip712.{mandate_digest}
use cpfbuddies.Signing.Evidence.{evaluation_digest}

pub record Rejection : Type 0 where
  pub reason : ReasonCode
  pub decision : Decision

pub record VerificationContext : Type 0 where
  pub request : VerificationRequest
  pub config : VerifierConfig

-- The properties of the context.
abbrev pub mandate_of : VerificationContext → Mandate
mandate_of ctx = ctx.request.signed_mandate.mandate

abbrev pub charge_of : VerificationContext → Charge
charge_of ctx = ctx.request.charge

abbrev pub evaluation_of : VerificationContext → EvaluatorOutput
evaluation_of ctx = ctx.request.evaluation.evaluation

unfoldable pub recomputed_digest : Libraries → VerificationContext → String
recomputed_digest lib ctx = mandate_digest lib (mandate_of ctx) ctx.config.domain

-- `Rejection(reason)`, whose decision is FAIL by default, if the test holds.
abbrev pub reject_if : Bool → ReasonCode → Option Rejection
reject_if test reason = if test then some (record { reason = reason; decision = fail }) else none

abbrev pub review_if : Bool → ReasonCode → Option Rejection
review_if test reason = if test then some (record { reason = reason; decision = review }) else none

unfoldable pub check_mandate_digest : Libraries → VerificationContext → Option Rejection
check_mandate_digest lib ctx =
    reject_if (not (ctx.request.signed_mandate.digest == recomputed_digest lib ctx))
      ReasonCode.mandate_digest_mismatch

unfoldable pub check_issuer_signature : Libraries → VerificationContext → Option Rejection
check_issuer_signature lib ctx =
    reject_if
      (not (
        signed_by lib (to_bytes (recomputed_digest lib ctx)) ctx.request.signed_mandate.signature
          ctx.config.issuer_address))
      ReasonCode.mandate_signature_invalid

unfoldable pub check_charge_targets_mandate : VerificationContext → Option Rejection
check_charge_targets_mandate ctx =
    reject_if (not ((charge_of ctx).mandate_id == (mandate_of ctx).mandate_id))
      ReasonCode.charge_mandate_mismatch

unfoldable pub check_not_expired : VerificationContext → Option Rejection
check_not_expired ctx =
    let effective_now = ctx.request.now + seconds ctx.config.clock_skew_seconds in
    reject_if (ltb (mandate_of ctx).expires_at effective_now) ReasonCode.mandate_expired

unfoldable pub check_not_revoked : VerificationContext → Option Rejection
check_not_revoked ctx =
    reject_if (same_status ctx.request.mandate_state.status revoked) ReasonCode.mandate_revoked

unfoldable pub check_not_already_consumed : VerificationContext → Option Rejection
check_not_already_consumed ctx =
    reject_if (same_status ctx.request.mandate_state.status consumed)
      ReasonCode.mandate_already_consumed

unfoldable pub check_kill_switch : VerificationContext → Option Rejection
check_kill_switch ctx = reject_if ctx.request.kill_switch_active ReasonCode.kill_switch_active

-- `value is not None and value != expected`
abbrev pub is_other : Option String → String → Bool
is_other none expected = false
is_other (some value) expected = not (value == expected)

unfoldable pub check_nonce_not_reused : VerificationContext → Option Rejection
check_nonce_not_reused ctx =
    reject_if (is_other ctx.request.mandate_state.nonce_claimed_by (mandate_of ctx).mandate_id)
      ReasonCode.nonce_replayed

unfoldable pub check_currency_matches : VerificationContext → Option Rejection
check_currency_matches ctx =
    reject_if
      (not (same_currency (charge_of ctx).amount.currency (mandate_of ctx).max_amount.currency))
      ReasonCode.currency_mismatch

unfoldable pub check_currency_is_settleable : VerificationContext → Option Rejection
check_currency_is_settleable ctx =
    reject_if
      (not (same_currency (mandate_of ctx).max_amount.currency ctx.config.settlement_currency))
      ReasonCode.currency_not_settleable

unfoldable pub check_within_cap : VerificationContext → Option Rejection
check_within_cap ctx =
    reject_if (gt_money (charge_of ctx).amount (mandate_of ctx).max_amount)
      ReasonCode.charge_over_cap

unfoldable pub check_merchant_registered : VerificationContext → Option Rejection
check_merchant_registered ctx = elim ctx.request.merchant [
  | none ↦ reject_if true ReasonCode.merchant_not_registered
  | some merchant ↦ none
]

unfoldable pub check_merchant_active : VerificationContext → Option Rejection
check_merchant_active ctx = elim ctx.request.merchant [
  | none ↦ none
  | some merchant ↦ reject_if (not merchant.is_active) ReasonCode.merchant_inactive
]

unfoldable pub check_payout_address : VerificationContext → Option Rejection
check_payout_address ctx = elim ctx.request.merchant [
  | none ↦ none
  | some merchant ↦
      reject_if (not ((charge_of ctx).payout_address == merchant.payout_address))
        ReasonCode.payout_address_mismatch
]

unfoldable pub check_merchant_binding : VerificationContext → Option Rejection
check_merchant_binding ctx = elim ctx.request.merchant [
  | none ↦ none
  | some merchant ↦
      reject_if (is_other (mandate_of ctx).merchant_address merchant.payout_address)
        ReasonCode.merchant_binding_mismatch
]

unfoldable pub check_basket_binding : VerificationContext → Option Rejection
check_basket_binding ctx =
    reject_if (is_other (mandate_of ctx).basket_hash (charge_of ctx).basket_hash)
      ReasonCode.basket_binding_mismatch

abbrev pub is_evaluator : AgentRole → Bool
is_evaluator evaluator = true
is_evaluator browser = false

unfoldable pub check_evaluator_registered : VerificationContext → Option Rejection
check_evaluator_registered ctx = elim ctx.request.evaluator [
  | none ↦ reject_if true ReasonCode.evaluator_not_registered
  | some agent ↦
      reject_if
        (not (agent.agent_id == (evaluation_of ctx).evaluator_id)
          || not (is_evaluator agent.role)
          || not agent.is_active)
        ReasonCode.evaluator_not_registered
]

unfoldable pub check_evaluator_signature : Libraries → VerificationContext → Option Rejection
check_evaluator_signature lib ctx = elim ctx.request.evaluator [
  | none ↦ none
  | some agent ↦
      let signed = ctx.request.evaluation in
      let recomputed = evaluation_digest lib (evaluation_of ctx) in
      reject_if
        (not (signed.digest == recomputed)
          || not (signed_by lib (to_bytes recomputed) signed.signature agent.address))
        ReasonCode.evaluator_signature_invalid
]

unfoldable pub check_evaluator_subject : VerificationContext → Option Rejection
check_evaluator_subject ctx =
    let subject = (evaluation_of ctx).subject in
    let charge = charge_of ctx in
    reject_if
      (not (subject.mandate_id == charge.mandate_id)
        || not (subject.basket_hash == charge.basket_hash)
        || not (same_money subject.amount charge.amount))
      ReasonCode.evaluator_subject_mismatch

unfoldable pub check_risk_score : VerificationContext → Option Rejection
check_risk_score ctx =
    let score = (evaluation_of ctx).risk_score in
    if ltb ctx.config.review_score_max score
    then some (record { reason = ReasonCode.risk_score_critical; decision = fail })
    else review_if (ltb ctx.config.pass_score_max score) ReasonCode.risk_score_review_band

unfoldable pub check_intent_match : VerificationContext → Option Rejection
check_intent_match ctx =
    review_if (not (evaluation_of ctx).flags.intent_match) ReasonCode.intent_mismatch_suspected

unfoldable pub check_injection : VerificationContext → Option Rejection
check_injection ctx =
    review_if (evaluation_of ctx).flags.injection_suspected ReasonCode.injection_suspected

unfoldable pub check_seller_pricing : VerificationContext → Option Rejection
check_seller_pricing ctx =
    let flags = (evaluation_of ctx).flags in
    review_if (flags.price_far_below_market && flags.seller_is_new)
      ReasonCode.suspicious_seller_pricing

-- A check with the name that the trace shows for it.
pub record Check : Type 0 where
  pub name : String
  pub run : VerificationContext → Option Rejection

-- Facts. Run first, and short-circuit on the first failure.
unfoldable pub deterministic_checks : Libraries → List Check
deterministic_checks lib =
    record { name = "mandate_digest"; run = check_mandate_digest lib }
    ∷ record { name = "issuer_signature"; run = check_issuer_signature lib }
    ∷ record { name = "charge_targets_mandate"; run = check_charge_targets_mandate }
    ∷ record { name = "not_expired"; run = check_not_expired }
    ∷ record { name = "not_revoked"; run = check_not_revoked }
    ∷ record { name = "not_already_consumed"; run = check_not_already_consumed }
    ∷ record { name = "kill_switch"; run = check_kill_switch }
    ∷ record { name = "nonce_not_reused"; run = check_nonce_not_reused }
    ∷ record { name = "currency_matches"; run = check_currency_matches }
    ∷ record { name = "currency_is_settleable"; run = check_currency_is_settleable }
    ∷ record { name = "within_cap"; run = check_within_cap }
    ∷ record { name = "merchant_registered"; run = check_merchant_registered }
    ∷ record { name = "merchant_active"; run = check_merchant_active }
    ∷ record { name = "payout_address"; run = check_payout_address }
    ∷ record { name = "merchant_binding"; run = check_merchant_binding }
    ∷ record { name = "basket_binding"; run = check_basket_binding }
    ∷ record { name = "evaluator_registered"; run = check_evaluator_registered }
    ∷ record { name = "evaluator_signature"; run = check_evaluator_signature lib }
    ∷ record { name = "evaluator_subject"; run = check_evaluator_subject }
    ∷ []

-- Judgement calls. Run only once every fact holds; every reason is collected.
unfoldable pub judgement_checks : List Check
judgement_checks =
    record { name = "risk_score"; run = check_risk_score }
    ∷ record { name = "intent_match"; run = check_intent_match }
    ∷ record { name = "injection"; run = check_injection }
    ∷ record { name = "seller_pricing"; run = check_seller_pricing }
    ∷ []
