-- ===== src/Agents/Evidence.antt =====
-- src/backend/app/evidence.py: the evaluator's findings as evidence for the Verifier.
use Prim.Native.String.{String}
use cpfbuddies.Prelude.{ℕ, zero, suc, true, false, ◌≡◌, ◌≢◌, sym, ◌∙◌, ap, arith, List, [], ◌∷◌}
use cpfbuddies.Models.Money.{Money}
use cpfbuddies.Models.Config.{VerifierConfig, config_accepted}
use cpfbuddies.Models.Evaluation.{SignedEvaluatorOutput}
use cpfbuddies.Models.Evaluation as Wire
use cpfbuddies.Models.Verdict.{VerificationRequest, pass}
use cpfbuddies.Marketplace.Contracts.{Listing}
use cpfbuddies.Signing.Libraries.{Libraries}
use cpfbuddies.Signing.Crypto.{to_bytes}
use cpfbuddies.Signing.Evidence.{evaluation_digest}
use cpfbuddies.Verifier.Service.{verify}
use cpfbuddies.Verifier.Decision.{verify-eq-pass_iff}
use cpfbuddies.Agents.Evaluator.{
  EvaluatorOutput, EvaluationSecurityEvent, RiskReason, suspiciously_low_price,
  new_or_unrated_seller, ModelAnswer, has_code, codes_of, evaluate, has_injection,
}
use cpfbuddies.Agents.Evaluator.Scores.{evaluate-injected}

-- `MAX_REASONS`
abbrev max_reasons : ℕ
max_reasons = 10

-- `[reason.detail[:MAX_REASON_LENGTH] for reason in reasons[:n]]`: every detail of `_REASON_DETAILS` is shorter than
-- the 280 characters that a reason may have.
details : ℕ → List RiskReason → List String
details zero reasons = []
details (suc n) [] = []
details (suc n) (r ∷ rs) = r.detail ∷ details n rs

unfoldable pub to_evidence : EvaluatorOutput → String → String → Money → Wire.EvaluatorOutput
unfolding details
to_evidence output mandate_id basket_hash amount = record {
  evaluator_id = output.evaluator_id;
  subject = record { mandate_id = mandate_id; basket_hash = basket_hash; amount = amount };
  risk_score = output.risk_score;
  flags = record {
    intent_match = output.intent_match;
    injection_suspected = output.injection_detected;
    price_far_below_market = has_code suspiciously_low_price (codes_of output.reasons);
    seller_is_new = has_code new_or_unrated_seller (codes_of output.reasons);
  };
  reasons = details max_reasons output.reasons;
}

module _ (lib : Libraries) (sign : List ℕ → String) where
  unfoldable pub sign_evidence : Wire.EvaluatorOutput → SignedEvaluatorOutput
  sign_evidence evaluation =
      let digest = evaluation_digest lib evaluation in
      record { evaluation = evaluation; digest = digest; signature = sign (to_bytes digest) }

  unfoldable pub to_signed_evidence :
      EvaluatorOutput → String → String → Money → SignedEvaluatorOutput
  to_signed_evidence output mandate_id basket_hash amount =
      sign_evidence (to_evidence output mandate_id basket_hash amount)

-- A charge whose evidence the evaluator made of a listing with an injection in it is never passed, whatever the
-- model answered, and whatever else is asked of the Verifier.
pub injected-verify :
    (lib : Libraries) (sign : List ℕ → String) (config : VerifierConfig)
    (request : VerificationRequest) (answer : ModelAnswer) (listing : Listing) (intent : String)
    (max_amount : Money) (events : List EvaluationSecurityEvent) (mandate_id basket_hash : String)
    (amount : Money)
    → config_accepted config ≡ true
    → has_injection listing ≡ true
    → request.evaluation
      ≡ to_signed_evidence lib sign
          (evaluate answer listing intent max_amount events).0
          mandate_id
          basket_hash
          amount
    → (verify lib config request).decision ≢ pass
unfolding to_signed_evidence sign_evidence to_evidence
injected-verify lib sign config request answer listing intent max_amount events mandate_id
      basket_hash amount ok h e passed =
    let clean = ((verify-eq-pass_iff lib config request ok).0 passed).1 in
    let flagged = (evaluate-injected answer listing intent max_amount events h).0 in
    let suspected : request.evaluation.evaluation.flags.injection_suspected ≡ true =
      ap (λ x. x.evaluation.flags.injection_suspected) e ∙ flagged in
    let contradiction : false ≡ true = sym clean.no_injection ∙ suspected in ground arith
