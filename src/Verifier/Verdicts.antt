-- ===== src/Verifier/Verdicts.antt =====
-- The trace and the reason codes of a verdict (src/trustrail/verifier/service.py), and the computed
-- field of src/trustrail/models/verdict.py.
use cpfbuddies.Prelude.{
  true, false, not, ◌≡◌, refl, ◌∙◌, ◌↔◌, List, [], ◌∷◌, ◌++◌, arith, ap, String, Option, none, some,
}
use cpfbuddies.Models.Verdict.{
  CheckResult, CheckKind, judgement, VerificationRequest, any_check, failed_deterministically,
}
use cpfbuddies.Models.Config.{VerifierConfig}
use cpfbuddies.Signing.Libraries.{Libraries}
use cpfbuddies.Verifier.Checks
use cpfbuddies.Verifier.Checks.{
  Check, Rejection, VerificationContext, deterministic_checks, judgement_checks,
}
use cpfbuddies.Verifier.Service.{
  contains_failure, run_deterministic, run_judgement, record_check, reasons, assemble, trace,
  verify,
}
use cpfbuddies.Verifier.Authority.{Authorised}
use cpfbuddies.Verifier.Worst.{accepts, contains_failure-run_deterministic}
use cpfbuddies.Verifier.Decision.{context, facts, Authorised-iff}
use cpfbuddies.Verifier.Trace.{
  questions, by_fact, by_fact-if, by_fact-run_deterministic, by_fact-run_judgement, FirstRejection,
  first_rejection, reasons_stop, reasons-run_deterministic, reasons-append,
}

-- The names that a trace shows
abbrev pub names : List CheckResult → List String
names [] = []
names (r ∷ rs) = r.name ∷ names rs

abbrev pub fact_names : List String
fact_names =
    "mandate_digest" ∷ "issuer_signature" ∷ "charge_targets_mandate" ∷ "not_expired" ∷ "not_revoked"
    ∷ "not_already_consumed" ∷ "kill_switch" ∷ "nonce_not_reused" ∷ "currency_matches"
    ∷ "currency_is_settleable" ∷ "within_cap" ∷ "merchant_registered" ∷ "merchant_active"
    ∷ "payout_address" ∷ "merchant_binding" ∷ "basket_binding" ∷ "evaluator_registered"
    ∷ "evaluator_signature" ∷ "evaluator_subject" ∷ []

abbrev pub question_names : List String
question_names = "risk_score" ∷ "intent_match" ∷ "injection" ∷ "seller_pricing" ∷ []

names-append : (xs ys : List CheckResult) → names (xs ++ ys) ≡ names xs ++ names ys
names-append [] ys = refl
names-append (x ∷ xs) ys = ap (λ ns. x.name ∷ ns) (names-append xs ys)

names_of : List Check → List String
names_of [] = []
names_of (c ∷ cs) = c.name ∷ names_of cs

record_check-name :
    (c : Check) (kind : CheckKind) (r : Option Rejection) → (record_check c kind r).name ≡ c.name
unfolding record_check
record_check-name c kind none = refl
record_check-name c kind (some r) = refl

names-run_judgement :
    (ctx : VerificationContext) (cs : List Check) → names (run_judgement ctx cs) ≡ names_of cs
unfolding run_judgement names_of
names-run_judgement ctx [] = refl
names-run_judgement ctx (c ∷ cs) =
    rw (record_check-name c judgement (c.run ctx))
      (ap (λ ns. c.name ∷ ns) (names-run_judgement ctx cs))

names-run_deterministic :
    (ctx : VerificationContext) (cs : List Check)
    → accepts ctx cs ≡ true
    → names (run_deterministic ctx cs) ≡ names_of cs
unfolding run_deterministic record_check names_of
names-run_deterministic ctx [] h = refl
names-run_deterministic ctx (c ∷ cs) h = ground (arith, names-run_deterministic ctx cs)

module _ (lib : Libraries) (config : VerifierConfig) (request : VerificationRequest) where
  det : List CheckResult
  det = run_deterministic (context config request) (deterministic_checks lib)

  contains_failure-det : contains_failure det ≡ not (facts lib config request)
  unfolding det facts
  contains_failure-det = contains_failure-run_deterministic _ _

  by_fact-trace : any_check by_fact (trace lib config request) ≡ not (facts lib config request)
  unfolding trace det
  by_fact-trace =
      by_fact-if det (run_judgement (context config request) judgement_checks)
        (by_fact-run_judgement _ judgement_checks)
      ∙ by_fact-run_deterministic _ _
      ∙ contains_failure-det

  trace_stops : facts lib config request ≡ false → trace lib config request ≡ det
  unfolding trace det
  trace_stops h = rw (contains_failure-det, h)

  -- The computed field is true exactly where the charge is not authorised.
  pub failed_deterministically-verify :
      (failed_deterministically (verify lib config request) ≡ true)
      ↔ (¬ Authorised lib (context config request))
  unfolding failed_deterministically verify assemble
  failed_deterministically-verify = ground (arith, by_fact-trace, Authorised-iff lib config request)

  -- The verdict on a charge that is not authorised shows the facts that hold up to the first that does
  -- not, that one, and nothing behind it; its reason is the only reason code.
  pub verify_stops :
      ¬ Authorised lib (context config request)
      → (f : FirstRejection
          (context config request)
          (deterministic_checks lib)
          (verify lib config request).checks)
        × ((verify lib config request).reason_codes ≡ f.rejection.reason ∷ [])
  unfolding verify assemble
  verify_stops h =
      let no : facts lib config request ≡ false =
        ground (arith, Authorised-iff lib config request) in
      rw (trace_stops no) (
        unfold det facts in
        let f : FirstRejection (context config request) (deterministic_checks lib) det =
          first_rejection _ _ no in
        (f, reasons_stop _ f))

  jud : List CheckResult
  jud = run_judgement (context config request) judgement_checks

  reasons-run_judgement :
      (reasons jud ≡ questions config request.evaluation.evaluation) × (names jud ≡ question_names)
  unfolding jud run_judgement judgement_checks record_check Checks.check_risk_score
      Checks.check_intent_match Checks.check_injection Checks.check_seller_pricing
  reasons-run_judgement = (
    ground arith,
    names-run_judgement (context config request) judgement_checks ∙ (unfold names_of in refl),
  )

  trace_goes_on : facts lib config request ≡ true → trace lib config request ≡ det ++ jud
  unfolding trace det jud
  trace_goes_on h = rw (contains_failure-det, h)

  det_holds : facts lib config request ≡ true → (reasons det ≡ []) × (names det ≡ fact_names)
  unfolding facts det
  det_holds h = (
    reasons-run_deterministic _ _ h,
    names-run_deterministic _ _ h ∙ (unfold deterministic_checks names_of in refl),
  )

  -- The verdict on an authorised charge shows the 19 facts and the 4 questions by their names, in the order of the
  -- checks, and its reason codes are the questions that the evidence raises.
  pub verify_asks :
      Authorised lib (context config request)
      → (names (verify lib config request).checks ≡ fact_names ++ question_names)
        × ((verify lib config request).reason_codes
            ≡ questions config request.evaluation.evaluation)
  unfolding verify assemble
  verify_asks h =
      let holds : facts lib config request ≡ true = (Authorised-iff lib config request).1 h in
      let (no_reason, named) = det_holds holds in
      rw (trace_goes_on holds) (
        (names-append det jud ∙ rw (named, reasons-run_judgement.1) refl),
        (reasons-append det jud ∙ rw no_reason reasons-run_judgement.0),
      )
