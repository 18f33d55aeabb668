-- ===== src/Agents/Bedrock.antt =====
-- src/backend/app/agents/bedrock.py: what the evaluator's model makes of an answer of Bedrock.
pub mod Signals
mod Tests
use cpfbuddies.Prelude.{
  ℕ, String, ◌==◌, Bool, true, false, not, ◌&&◌, ◌||◌, Option, none, some, List, [], ◌∷◌, ◌++◌,
  if◌then◌else◌,
}
use cpfbuddies.Models.Money.{Money}
use cpfbuddies.Marketplace.Contracts.{Listing}
use cpfbuddies.Agents.Evaluator.{
  ModelAssessment, ModelAnswer, failed, assessed, code_if, intent_mismatch, prompt_injection,
  product_substitution,
}

-- A response of Bedrock: Python's values of a JSON document
mutual
  pub data Value : Type 0 where
    null : Value
    boolean : Bool → Value
    text number : String → Value
    array : Values → Value
    object : Fields → Value

  pub data Values : Type 0 where
    end : Values
    item : Value → Values → Values

  pub data Fields : Type 0 where
    closed : Fields
    field : String → Value → Fields → Fields

pub record ModelSignals : Type 0 where
  pub intent_match : Bool
  pub injection_detected : Bool
  pub substitution_suspected : Bool

-- The calls that the model makes: `converse`, without an answer where it raises BotoCoreError or ClientError; the JSON of
-- its message; and pydantic's reading of a field that is a bool.
pub record Runtime : Type 0 where
  pub converse : String → Option Value
  pub message : Listing → String → Money → String
  pub as_bool : Value → Option Bool

abbrev tool_name : String
tool_name = "ListingRiskAssessment"

abbrev and_then : {A B : Type 0} → Option A → (A → Option B) → Option B
and_then none f = none
and_then (some a) f = f a

-- `d.get(key)`, where there may be no such key
abbrev get_field : String → Fields → Option Value
get_field key closed = none
get_field key (field k v fs) = let rest = get_field key fs in if k == key then some v else rest

-- `value[key]`; what is no object raises TypeError, and a missing key KeyError.
unfoldable pub at_key : String → Value → Option Value
at_key key (object fs) = get_field key fs
at_key key _ = none

abbrev put_first : Option Value → List Value → List Value
put_first none vs = vs
put_first (some v) vs = v ∷ vs

-- `tool_uses`
unfoldable pub tool_uses : Values → List Value
unfolding at_key
tool_uses end = []
tool_uses (item v vs) = put_first (at_key "toolUse" v) (tool_uses vs)

-- `isinstance(content, list)`
abbrev as_list : Value → Option Values
as_list (array vs) = some vs
as_list _ = none

abbrev the_only : List Value → Option Value
the_only (v ∷ []) = some v
the_only _ = none

abbrev names_tool : Option Value → Bool
names_tool (some (text name)) = name == tool_name
names_tool _ = false

-- The input of a use of the tool
unfoldable pub input_of : Value → Option Fields
input_of (object tool_use) =
    if names_tool (get_field "name" tool_use)
    then (elim (get_field "input" tool_use) [ some (object payload) ↦ some payload | _ ↦ none ])
    else none
input_of _ = none

-- `extra="forbid"`
abbrev only_signals : Fields → Bool
only_signals closed = true
only_signals (field k v fs) =
    (k == "intent_match" || k == "injection_detected" || k == "substitution_suspected")
    && only_signals fs

-- `ModelSignals.model_validate`, without a result where it raises ValidationError
unfoldable pub validate_signals : (Value → Option Bool) → Fields → Option ModelSignals
validate_signals as_bool payload =
    if only_signals payload
    then and_then (and_then (get_field "intent_match" payload) as_bool) (λ matches.
      and_then (and_then (get_field "injection_detected" payload) as_bool) (λ injection.
        and_then (and_then (get_field "substitution_suspected" payload) as_bool) (λ substitution.
          some (record {
            intent_match = matches;
            injection_detected = injection;
            substitution_suspected = substitution;
          }))))
    else none

-- The signals of a response, if it holds exactly one use of the tool, and nothing on the way to it raises
unfoldable pub signals_of : (Value → Option Bool) → Value → Option ModelSignals
unfolding tool_uses input_of validate_signals
signals_of as_bool response = and_then (at_key "output" response) (λ output.
    and_then (at_key "message" output) (λ message. and_then (at_key "content" message) (λ content.
      and_then (as_list content) (λ blocks.
        and_then (the_only (tool_uses blocks))
          (λ tool_use. and_then (input_of tool_use) (validate_signals as_bool))))))

-- The assessment that the signals are mapped to
unfoldable pub assessment_of : ModelSignals → ModelAssessment
assessment_of s = record {
  intent_match = s.intent_match;
  injection_detected = s.injection_detected;
  substitution_suspected = s.substitution_suspected;
  risk_score =
      if s.injection_detected
      then 9
      else if not s.intent_match || s.substitution_suspected
      then 5
      else 1;
  reason_codes =
      code_if (not s.intent_match) intent_mismatch
      ++ code_if s.injection_detected prompt_injection
      ++ code_if s.substitution_suspected product_substitution;
}

abbrev pub answer_of : Option ModelSignals → ModelAnswer
answer_of none = failed
answer_of (some s) = assessed (assessment_of s)

-- The signals that a call of Bedrock ends in
unfoldable pub received : Runtime → Listing → String → Money → Option ModelSignals
unfolding signals_of
received runtime listing intent max_amount =
    and_then (runtime.converse (runtime.message listing intent max_amount))
      (signals_of runtime.as_bool)

-- `assess`: every error of the block is raised as EvaluationModelError.
unfoldable pub assess : Runtime → Listing → String → Money → ModelAnswer
unfolding received assessment_of
assess runtime listing intent max_amount = answer_of (received runtime listing intent max_amount)
