-- ===== src/Agents/Bedrock/Signals.antt =====
-- What the evaluator makes of the signals of Bedrock.
use cpfbuddies.Prelude.{Bool, false, not, ◌&&◌, ◌||◌, ◌≡◌, ◌≤◌, Option, none, some, eqb, leb}
use cpfbuddies.Models.Money.{Money}
use cpfbuddies.Agents.Evaluator.{EvaluatorOutput}
use cpfbuddies.Agents.Bedrock.{Value, text, array, object, end, item, closed, field, ModelSignals}

-- The output adds the signals to what the rules found; without signals it keeps what they found, with a score of at
-- least 7.
abbrev pub Follows : Option ModelSignals → EvaluatorOutput → EvaluatorOutput → Type 0
Follows none rules output =
    (7 ≤ output.risk_score)
    × (rules.risk_score ≤ output.risk_score)
    × (output.intent_match ≡ rules.intent_match)
    × (output.injection_detected ≡ rules.injection_detected)
Follows (some s) rules output =
    (rules.risk_score ≤ output.risk_score)
    × (output.intent_match ≡ (rules.intent_match && s.intent_match && not s.substitution_suspected))
    × (output.injection_detected ≡ (rules.injection_detected || s.injection_detected))
    × ((s.injection_detected && not (eqb output.risk_score 10)) ≡ false)
    × (((not s.intent_match || s.substitution_suspected) && not (leb 5 output.risk_score)) ≡ false)

-- An answer with one use of the tool, whose input has these three values
abbrev pub answer_with : Value → Value → Value → Value
answer_with intent_match injection_detected substitution_suspected =
    let payload = field "intent_match" intent_match (
      field "injection_detected" injection_detected
        (field "substitution_suspected" substitution_suspected closed)) in
    let tool_use =
      field "name" (text "ListingRiskAssessment") (field "input" (object payload) closed) in
    let block = object (field "toolUse" (object tool_use) closed) in
    let message = object (field "content" (array (item block end)) closed) in
    object (field "output" (object (field "message" message closed)) closed)

-- The call raised and there are no signals, or it was answered with these three.
abbrev pub Signals : (Value → Option Bool) → Option Value → Option ModelSignals → Type 0
Signals as_bool response none = response ≡ none
Signals as_bool response (some s) =
    (matches injection substitution : Value) × (response
      ≡ some (answer_with matches injection substitution))
    × (as_bool matches ≡ some s.intent_match)
    × (as_bool injection ≡ some s.injection_detected)
    × (as_bool substitution ≡ some s.substitution_suspected)
