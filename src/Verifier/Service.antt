-- ===== src/Verifier/Service.antt =====
-- src/trustrail/verifier/service.py: the pipeline.
use cpfbuddies.Prelude.{String, Bool, Option, none, some, List, [], ◌∷◌, ◌++◌, map, if◌then◌else◌}
use cpfbuddies.Models.Verdict.{
  Decision, pass, fail, worst, CheckKind, deterministic, judgement, ReasonCode, CheckResult,
  Verdict, VerificationRequest, is_fail, any_check,
}
use cpfbuddies.Models.Config.{VerifierConfig}
use cpfbuddies.Signing.Libraries.{Libraries}
use cpfbuddies.Signing.Crypto.{hash_bytes}
use cpfbuddies.Verifier.Checks.{
  Rejection, VerificationContext, Check, deterministic_checks, judgement_checks,
}
use Prim.Native.String.{slice}

-- A fact is a FAIL whatever the check asked for.
abbrev recorded_decision : CheckKind → Rejection → Decision
recorded_decision deterministic r = fail
recorded_decision judgement r = r.decision

-- `_record`
unfoldable pub record_check : Check → CheckKind → Option Rejection → CheckResult
record_check c kind none = record { name = c.name; kind = kind; decision = pass; reason = none }
record_check c kind (some r) = record {
  name = c.name;
  kind = kind;
  decision = recorded_decision kind r;
  reason = some r.reason;
}

-- `_run_deterministic`: the loop, which stops behind the first check that rejects.
unfoldable pub run_deterministic : VerificationContext → List Check → List CheckResult
unfolding record_check
run_deterministic ctx [] = []
run_deterministic ctx (c ∷ cs) =
    let rest = run_deterministic ctx cs in
    record_check c deterministic (c.run ctx) ∷ (elim (c.run ctx) [ none ↦ rest | some r ↦ [] ])

-- `_run_judgement`
unfoldable pub run_judgement : VerificationContext → List Check → List CheckResult
unfolding record_check
run_judgement ctx [] = []
run_judgement ctx (c ∷ cs) = record_check c judgement (c.run ctx) ∷ run_judgement ctx cs

-- `_contains_failure`
unfoldable pub contains_failure : List CheckResult → Bool
contains_failure = any_check (λ r. is_fail r.decision)

-- `[r.reason for r in results if r.reason is not None]`
abbrev pub reasons : List CheckResult → List ReasonCode
reasons [] = []
reasons (r ∷ rs) = elim r.reason [ none ↦ reasons rs | some reason ↦ reason ∷ reasons rs ]

-- `trustrail.__version__`
abbrev version : String
version = "0.1.0"

module _ (lib : Libraries) (config : VerifierConfig) where
  -- `VerifierConfig.version`: eight hexadecimal digits of the hash, behind its "0x".
  unfoldable pub config_version : String
  config_version = slice (hash_bytes lib (lib.config_json config)) 2 10

  -- `_assemble`
  unfoldable pub assemble : VerificationRequest → List CheckResult → Verdict
  assemble request results = record {
    decision = worst (map (λ r. r.decision) results);
    reason_codes = reasons results;
    checks = results;
    mandate_id = request.signed_mandate.mandate.mandate_id;
    charge_id = request.charge.charge_id;
    risk_score = request.evaluation.evaluation.risk_score;
    evaluated_at = request.now;
    verifier_version = version;
    config_version = config_version;
  }

  unfoldable pub trace : VerificationRequest → List CheckResult
  trace request =
      let context : VerificationContext = record { request = request; config = config } in
      let results = run_deterministic context (deterministic_checks lib) in
      if contains_failure results
      then results
      else results ++ run_judgement context judgement_checks

  unfoldable pub verify : VerificationRequest → Verdict
  unfolding trace
  verify request = assemble request (trace request)
