-- ===== src/Verifier/Trace.antt =====
-- The lists of results that the two loops of src/trustrail/verifier/service.py leave.
use cpfbuddies.Prelude.{
  Bool, true, false, ◌&&◌, ◌||◌, ◌≡◌, refl, ◌∙◌, ap, none, some, List, [], ◌∷◌, ◌++◌, map, arith,
  All, ltb, Option-cases, inl, inr, if◌then◌else◌, ltb,
}
use cpfbuddies.Models.Verdict.{
  ReasonCode, deterministic, CheckResult, is_fail, any_check, is_deterministic,
}
use cpfbuddies.Models.Evaluation.{EvaluatorOutput}
use cpfbuddies.Models.Config.{VerifierConfig}
use cpfbuddies.Verifier.Checks.{Check, Rejection, VerificationContext}
use cpfbuddies.Verifier.Service.{
  contains_failure, run_deterministic, run_judgement, record_check, reasons,
}
use cpfbuddies.Verifier.Worst.{accepts}

abbrev pub by_fact : CheckResult → Bool
by_fact r = is_fail r.decision && is_deterministic r.kind

any_check-append :
    (p : CheckResult → Bool) (xs ys : List CheckResult)
    → any_check p (xs ++ ys) ≡ any_check p xs || any_check p ys
any_check-append p [] ys = refl
any_check-append p (x ∷ xs) ys = ground (arith, any_check-append p xs ys)

-- The results of satisfied facts.
abbrev pub satisfied : List Check → List CheckResult
satisfied = map (λ c. record_check c deterministic none)

-- The questions that a human is asked about an authorised charge, in the order of the trace.
abbrev pub questions : VerifierConfig → EvaluatorOutput → List ReasonCode
questions config e =
    (if ltb config.review_score_max e.risk_score
      then ReasonCode.risk_score_critical ∷ []
      else if ltb config.pass_score_max e.risk_score
      then ReasonCode.risk_score_review_band ∷ []
      else [])
    ++ (if e.flags.intent_match then [] else ReasonCode.intent_mismatch_suspected ∷ [])
    ++ (if e.flags.injection_suspected then ReasonCode.injection_suspected ∷ [] else [])
    ++ (if e.flags.price_far_below_market && e.flags.seller_is_new
        then ReasonCode.suspicious_seller_pricing ∷ []
        else [])

module _ (ctx : VerificationContext) where
  pub by_fact-run_deterministic :
      (cs : List Check)
      → any_check by_fact (run_deterministic ctx cs) ≡ contains_failure (run_deterministic ctx cs)
  unfolding contains_failure run_deterministic
  by_fact-run_deterministic [] = refl
  by_fact-run_deterministic (c ∷ cs) = ground (arith, by_fact-run_deterministic cs)

  pub by_fact-run_judgement : (cs : List Check) → any_check by_fact (run_judgement ctx cs) ≡ false
  unfolding run_judgement
  by_fact-run_judgement [] = refl
  by_fact-run_judgement (c ∷ cs) = ground (arith, by_fact-run_judgement cs)

  -- The first check of the list that rejects, with the results that it leaves in the trace.
  pub record FirstRejection (cs : List Check) (results : List CheckResult) : Type 0 where
    pub before : List Check
    pub check : Check
    pub after : List Check
    pub rejection : Rejection
    pub split : cs ≡ before ++ (check ∷ after)
    pub held : All (λ c. c.run ctx ≡ none) before
    pub rejects : check.run ctx ≡ some rejection
    pub results_eq :
        results ≡ satisfied before ++ (record_check check deterministic (some rejection) ∷ [])

  pub first_rejection :
      (cs : List Check) → accepts ctx cs ≡ false → FirstRejection cs (run_deterministic ctx cs)
  unfolding run_deterministic
  first_rejection [] h = cc
  first_rejection (c ∷ cs) h = elim (Option-cases (c.run ctx)) [
    | inl e ↦
        let rest : FirstRejection cs (run_deterministic ctx cs) =
          first_rejection cs (ground arith) in
        record {
          before = c ∷ rest.before;
          check = rest.check;
          after = rest.after;
          rejection = rest.rejection;
          split = ap (λ l. c ∷ l) rest.split;
          held = (e, rest.held);
          rejects = rest.rejects;
          results_eq = rw e (ap (λ l. record_check c deterministic none ∷ l) rest.results_eq);
        }
    | inr (r, e) ↦ record {
      before = [];
      check = c;
      after = cs;
      rejection = r;
      split = refl;
      held = tt;
      rejects = e;
      results_eq = rw e;
    }
  ]

pub reasons-run_deterministic :
    (ctx : VerificationContext) (cs : List Check)
    → accepts ctx cs ≡ true
    → reasons (run_deterministic ctx cs) ≡ []
unfolding run_deterministic
reasons-run_deterministic ctx [] h = refl
reasons-run_deterministic ctx (c ∷ cs) h = ground (arith, reasons-run_deterministic ctx cs)

pub reasons-append : (xs ys : List CheckResult) → reasons (xs ++ ys) ≡ reasons xs ++ reasons ys
reasons-append [] ys = refl
reasons-append (x ∷ xs) ys = ground (arith, reasons-append xs ys)

pub reasons-satisfied : (cs : List Check) → reasons (satisfied cs) ≡ []
unfolding record_check
reasons-satisfied [] = refl
reasons-satisfied (c ∷ cs) = reasons-satisfied cs

pub by_fact-if :
    (xs ys : List CheckResult)
    → any_check by_fact ys ≡ false
    → any_check by_fact (if contains_failure xs then xs else xs ++ ys) ≡ any_check by_fact xs
by_fact-if xs ys h = ground (arith, any_check-append by_fact xs ys)

pub reasons_stop :
    (ctx : VerificationContext) {cs : List Check} {results : List CheckResult}
    (f : FirstRejection ctx cs results)
    → reasons results ≡ f.rejection.reason ∷ []
unfolding record_check
reasons_stop ctx f =
    ap reasons f.results_eq
    ∙ reasons-append (satisfied f.before) _
    ∙ ap (λ l. l ++ (f.rejection.reason ∷ [])) (reasons-satisfied f.before)
