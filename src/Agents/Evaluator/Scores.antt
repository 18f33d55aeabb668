-- ===== src/Agents/Evaluator/Scores.antt =====
-- The scores of the evaluator.
use cpfbuddies.Prelude.{false, not, ◌&&◌, ℕ, ◌≤◌, ◌≡◌, refl, true, Bool, String, List, arith}
use cpfbuddies.Models.Money.{Money}
use cpfbuddies.Marketplace.Contracts.{Listing}
use cpfbuddies.Agents.Evaluator.{
  ModelAnswer, no_model, failed, assessed, EvaluatorOutput, EvaluationSecurityEvent, score,
  evaluate_rules, merge, model_unavailable, with_model, evaluate, has_injection,
}

-- A score that `EvaluatorOutput` admits
abbrev pub IsScore : ℕ → Type 0
IsScore n = (1 ≤ n) × (n ≤ 10)

-- The model's answer was validated.
abbrev pub IsValid : ModelAnswer → Type 0
IsValid no_model = Unit
IsValid failed = Unit
IsValid (assessed assessment) = IsScore assessment.risk_score

score-IsScore : (a b c d e : Bool) → IsScore (score a b c d e)
unfolding score
score-IsScore a b c d e = ground arith

with_model-IsScore :
    (answer : ModelAnswer) (rules : EvaluatorOutput)
    → IsValid answer
    → IsScore rules.risk_score
    → IsScore (with_model answer rules).risk_score
unfolding merge model_unavailable
with_model-IsScore no_model rules h k = k
with_model-IsScore failed rules h k = ground arith
with_model-IsScore (assessed a) rules h k = ground arith

-- With or without a model, the evaluator's risk score is from 1 to 10, where the model's is.
pub evaluate-IsScore :
    (answer : ModelAnswer) (listing : Listing) (intent : String) (max_amount : Money)
    (events : List EvaluationSecurityEvent)
    → IsValid answer
    → IsScore (evaluate answer listing intent max_amount events).0.risk_score
unfolding evaluate evaluate_rules
evaluate-IsScore answer listing intent max_amount events h =
    with_model-IsScore answer (evaluate_rules listing intent max_amount) h (score-IsScore _ _ _ _ _)

-- The output finds nothing better than the rules did.
abbrev pub IsNoBetter : EvaluatorOutput → EvaluatorOutput → Type 0
IsNoBetter output rules =
    (rules.risk_score ≤ output.risk_score)
    × (output.price_within_cap ≡ rules.price_within_cap)
    × ((output.intent_match && not rules.intent_match) ≡ false)
    × ((rules.injection_detected && not output.injection_detected) ≡ false)

with_model-IsNoBetter :
    (answer : ModelAnswer) (rules : EvaluatorOutput)
    → IsScore rules.risk_score
    → IsNoBetter (with_model answer rules) rules
unfolding merge model_unavailable
with_model-IsNoBetter no_model rules h = (omega arith, refl, ground arith, ground arith)
with_model-IsNoBetter failed rules h = (ground arith, refl, ground arith, ground arith)
with_model-IsNoBetter (assessed a) rules h = (ground arith, refl, ground arith, ground arith)

-- A model, whatever it answers, lowers no risk score of the rules, leaves their price test, and takes back neither a
-- mismatch of the intent nor an injection that they found.
pub evaluate-IsNoBetter :
    (answer : ModelAnswer) (listing : Listing) (intent : String) (max_amount : Money)
    (events : List EvaluationSecurityEvent)
    → IsNoBetter
        (evaluate answer listing intent max_amount events).0
        (evaluate_rules listing intent max_amount)
unfolding evaluate evaluate_rules
evaluate-IsNoBetter answer listing intent max_amount events =
    with_model-IsNoBetter answer (evaluate_rules listing intent max_amount)
      (score-IsScore _ _ _ _ _)

with_model-injected :
    (answer : ModelAnswer) (rules : EvaluatorOutput)
    → rules.injection_detected ≡ true
    → rules.risk_score ≡ 10
    → ((with_model answer rules).injection_detected ≡ true)
      × ((with_model answer rules).risk_score ≡ 10)
unfolding merge model_unavailable
with_model-injected no_model rules h k = (h, k)
with_model-injected failed rules h k = (h, ground arith)
with_model-injected (assessed a) rules h k = (ground arith, ground arith)

-- A listing whose text matches one of the injection patterns is scored 10 and flagged, whatever the model answers.
pub evaluate-injected :
    (answer : ModelAnswer) (listing : Listing) (intent : String) (max_amount : Money)
    (events : List EvaluationSecurityEvent)
    → has_injection listing ≡ true
    → ((evaluate answer listing intent max_amount events).0.injection_detected ≡ true)
      × ((evaluate answer listing intent max_amount events).0.risk_score ≡ 10)
unfolding evaluate evaluate_rules score
evaluate-injected answer listing intent max_amount events h =
    with_model-injected answer (evaluate_rules listing intent max_amount) h (rw h refl)
