-- ===== src/Verifier/Worst.antt =====
-- The worst of the decisions in a trace, by Boolean equations.
use cpfbuddies.Prelude.{
  Bool, true, false, ◌&&◌, ◌||◌, not, ◌≡◌, refl, List, [], ◌∷◌, ◌++◌, map, arith, is_some,
  if◌then◌else◌,
}
use cpfbuddies.Models.Verdict.{
  Decision, pass, review, fail, worst, worst_from, CheckResult, is_fail,
}
use cpfbuddies.Verifier.Checks.{Check, VerificationContext}
use cpfbuddies.Verifier.Service.{contains_failure, run_deterministic}

abbrev pub is_pass : Decision → Bool
is_pass pass = true
is_pass _ = false

abbrev pub all_pass : List CheckResult → Bool
all_pass [] = true
all_pass (r ∷ rs) = is_pass r.decision && all_pass rs

-- No check of the list rejects.
abbrev pub accepts : VerificationContext → List Check → Bool
accepts ctx [] = true
accepts ctx (c ∷ cs) = not (is_some (c.run ctx)) && accepts ctx cs

abbrev decisions : List CheckResult → List Decision
decisions = map (λ r. r.decision)

worst_from-fail :
    (d : Decision) (rs : List CheckResult)
    → is_fail (worst_from d (decisions rs)) ≡ is_fail d || contains_failure rs
unfolding contains_failure
worst_from-fail d [] = ground arith
worst_from-fail pass (x ∷ rs) =
    ground (arith, worst_from-fail pass rs, worst_from-fail x.decision rs)
worst_from-fail review (x ∷ rs) =
    ground (arith, worst_from-fail review rs, worst_from-fail x.decision rs)
worst_from-fail fail (x ∷ rs) =
    ground (arith, worst_from-fail fail rs, worst_from-fail x.decision rs)

pub fail-worst : (rs : List CheckResult) → is_fail (worst (decisions rs)) ≡ contains_failure rs
unfolding worst contains_failure
fail-worst [] = refl
fail-worst (x ∷ rs) = worst_from-fail x.decision rs

worst_from-pass :
    (d : Decision) (rs : List CheckResult)
    → is_pass (worst_from d (decisions rs)) ≡ is_pass d && all_pass rs
worst_from-pass d [] = ground arith
worst_from-pass pass (x ∷ rs) =
    ground (arith, worst_from-pass pass rs, worst_from-pass x.decision rs)
worst_from-pass review (x ∷ rs) =
    ground (arith, worst_from-pass review rs, worst_from-pass x.decision rs)
worst_from-pass fail (x ∷ rs) =
    ground (arith, worst_from-pass fail rs, worst_from-pass x.decision rs)

pub pass-worst : (rs : List CheckResult) → is_pass (worst (decisions rs)) ≡ all_pass rs
unfolding worst
pass-worst [] = refl
pass-worst (x ∷ rs) = worst_from-pass x.decision rs

contains_failure-append :
    (xs ys : List CheckResult)
    → contains_failure (xs ++ ys) ≡ contains_failure xs || contains_failure ys
unfolding contains_failure
contains_failure-append [] ys = refl
contains_failure-append (x ∷ xs) ys = ground (arith, contains_failure-append xs ys)

all_pass-append : (xs ys : List CheckResult) → all_pass (xs ++ ys) ≡ all_pass xs && all_pass ys
all_pass-append [] ys = refl
all_pass-append (x ∷ xs) ys = ground (arith, all_pass-append xs ys)

-- The second part of a trace is there only where the first has no failure.
pub contains_failure-trace :
    (xs ys : List CheckResult)
    → contains_failure (if contains_failure xs then xs else xs ++ ys)
      ≡ contains_failure xs || contains_failure ys
contains_failure-trace xs ys = ground (arith, contains_failure-append xs ys)

not_pass_of_failure : (xs : List CheckResult) → contains_failure xs ≡ true → all_pass xs ≡ false
unfolding contains_failure
not_pass_of_failure [] h = cc
not_pass_of_failure (x ∷ xs) h = ground (arith, not_pass_of_failure xs)

pub all_pass-trace :
    (xs ys : List CheckResult)
    → all_pass (if contains_failure xs then xs else xs ++ ys) ≡ all_pass xs && all_pass ys
all_pass-trace xs ys = ground (arith, all_pass-append xs ys, not_pass_of_failure xs)

module _ (ctx : VerificationContext) where
  -- A trace of facts contains a failure exactly where a fact does not hold, and passes otherwise.
  pub contains_failure-run_deterministic :
      (cs : List Check) → contains_failure (run_deterministic ctx cs) ≡ not (accepts ctx cs)
  unfolding contains_failure run_deterministic
  contains_failure-run_deterministic [] = refl
  contains_failure-run_deterministic (c ∷ cs) =
      ground (arith, contains_failure-run_deterministic cs)

  pub all_pass-run_deterministic :
      (cs : List Check) → all_pass (run_deterministic ctx cs) ≡ accepts ctx cs
  unfolding run_deterministic
  all_pass-run_deterministic [] = refl
  all_pass-run_deterministic (c ∷ cs) = ground (arith, all_pass-run_deterministic cs)
