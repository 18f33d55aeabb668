-- ===== src/Verifier/Decision.antt =====
-- What the three decisions of `VerifierService.verify` (src/trustrail/verifier/service.py) mean.
use cpfbuddies.Prelude.{
  ◌≤◌, ◌<◌, Bool, true, false, ◌&&◌, ◌||◌, not, ◌≡◌, ◌∙◌, ap, ◌↔◌, ◌⊎◌, none, List, [], ◌∷◌, arith,
  All, ltb,
}
use mathlib.Core.Path.{ap₂}
use cpfbuddies.Models.Verdict.{
  Decision, pass, review, fail, CheckResult, VerificationRequest, is_fail,
}
use cpfbuddies.Models.Config.{VerifierConfig, config_accepted}
use cpfbuddies.Signing.Libraries.{Libraries}
use cpfbuddies.Verifier.Checks
use cpfbuddies.Verifier.Checks.{
  Check, VerificationContext, evaluation_of, deterministic_checks, judgement_checks,
}
use cpfbuddies.Verifier.Service.{
  contains_failure, run_deterministic, run_judgement, assemble, trace, verify,
}
use cpfbuddies.Verifier.Authority.{Authorised}
use cpfbuddies.Verifier.Facts.{facts_hold, facts_checked}
use cpfbuddies.Verifier.Worst.{
  is_pass, all_pass, accepts, fail-worst, pass-worst, contains_failure-trace, all_pass-trace,
  contains_failure-run_deterministic, all_pass-run_deterministic,
}

abbrev pub context : VerifierConfig → VerificationRequest → VerificationContext
context config request = record { request = request; config = config }

-- The evidence raises no question: the risk is low, the product fits, nothing is injected, and the
-- seller is not both new and cheap.
pub record IsClean (ctx : VerificationContext) : Type 0 where
  pub low_risk : (evaluation_of ctx).risk_score ≤ ctx.config.pass_score_max
  pub fits : (evaluation_of ctx).flags.intent_match ≡ true
  pub no_injection : (evaluation_of ctx).flags.injection_suspected ≡ false
  pub ordinary :
      ((evaluation_of ctx).flags.price_far_below_market && (evaluation_of ctx).flags.seller_is_new)
      ≡ false

accepts_iff :
    (ctx : VerificationContext) (cs : List Check)
    → (accepts ctx cs ≡ true) ↔ All (λ c. c.run ctx ≡ none) cs
accepts_iff ctx [] = ground arith
accepts_iff ctx (c ∷ cs) = ground (arith, accepts_iff ctx cs)

module _ (lib : Libraries) (config : VerifierConfig) (request : VerificationRequest) where
  ctx : VerificationContext
  ctx = context config request

  unfoldable pub facts : Bool
  facts = accepts (context config request) (deterministic_checks lib)

  det : List CheckResult
  det = run_deterministic (context config request) (deterministic_checks lib)

  jud : List CheckResult
  jud = run_judgement (context config request) judgement_checks

  critical : Bool
  critical = ltb config.review_score_max request.evaluation.evaluation.risk_score

  judgement_fails : contains_failure jud ≡ critical
  unfolding jud critical contains_failure run_judgement judgement_checks Checks.check_risk_score
      Checks.check_intent_match Checks.check_injection Checks.check_seller_pricing
  judgement_fails = ground arith

  judgement_passes_iff :
      config_accepted config ≡ true → (all_pass jud ≡ true) ↔ IsClean (context config request)
  unfolding jud run_judgement judgement_checks config_accepted Checks.check_risk_score
      Checks.check_intent_match Checks.check_injection Checks.check_seller_pricing
  judgement_passes_iff ok = ground arith

  -- Some result of the trace is a FAIL exactly where a fact does not hold or the risk is critical.
  failure-trace : contains_failure (trace lib config request) ≡ not facts || critical
  unfolding trace facts jud
  failure-trace =
      contains_failure-trace _ _
      ∙ ap₂ ◌||◌
          (contains_failure-run_deterministic (context config request) (deterministic_checks lib))
          judgement_fails

  pass-trace : all_pass (trace lib config request) ≡ facts && all_pass jud
  unfolding trace facts jud
  pass-trace =
      all_pass-trace _ _
      ∙ ap (λ b. b && all_pass jud)
          (all_pass-run_deterministic (context config request) (deterministic_checks lib))

  decision : Decision
  decision = (verify lib config request).decision

  fail-verify : is_fail decision ≡ not facts || critical
  unfolding decision verify assemble
  fail-verify = fail-worst (trace lib config request) ∙ failure-trace

  pass-verify : is_pass decision ≡ facts && all_pass jud
  unfolding decision verify assemble
  pass-verify = pass-worst (trace lib config request) ∙ pass-trace

  pub Authorised-iff : (facts ≡ true) ↔ Authorised lib (context config request)
  unfolding facts
  Authorised-iff = (
    λ e. facts_hold lib _ ((accepts_iff _ _).0 e),
    λ h. (accepts_iff _ _).1 (facts_checked lib _ h),
  )

  -- PASS exactly where the charge is authorised and the evidence raises no question.
  pub verify-eq-pass_iff :
      config_accepted config ≡ true
      → ((verify lib config request).decision ≡ pass)
        ↔ (Authorised lib (context config request) × IsClean (context config request))
  unfolding decision
  verify-eq-pass_iff ok = ground (arith, pass-verify, Authorised-iff, judgement_passes_iff ok)

  -- FAIL exactly where the charge is not authorised, or its risk is above the review band.
  pub verify-eq-fail_iff : ((verify lib config request).decision ≡ fail) ↔ (
      (¬ Authorised lib (context config request))
      ⊎ (config.review_score_max < request.evaluation.evaluation.risk_score))
  unfolding decision critical
  verify-eq-fail_iff = ground (arith, fail-verify, Authorised-iff)

  -- REVIEW exactly where the charge is authorised, its risk is not critical, and the evidence raises a
  -- question.
  pub verify-eq-review_iff :
      config_accepted config ≡ true
      → ((verify lib config request).decision ≡ review) ↔ (
          Authorised lib (context config request)
          × (request.evaluation.evaluation.risk_score ≤ config.review_score_max)
          × (¬ IsClean (context config request)))
  unfolding decision critical
  verify-eq-review_iff ok =
      ground (arith, fail-verify, pass-verify, Authorised-iff, judgement_passes_iff ok)
