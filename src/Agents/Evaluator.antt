-- ===== src/Agents/Evaluator.antt =====
-- `EvaluatorAgent` of src/backend/app/agents/evaluator.py, and the shapes of src/backend/app/contracts.py and security.py
-- that it speaks in.
pub mod Scores
use cpfbuddies.Prelude.{
  ℕ, ◌+◌, ◌*◌, String, ◌<>◌, ◌==◌, Bool, true, false, not, ◌&&◌, ◌||◌, Option, none, some, List, [],
  ◌∷◌, ◌++◌, leb, ltb, if◌then◌else◌,
}
use cpfbuddies.Prelude.Text.{lower}
use cpfbuddies.Models.Money.{Money, minor_units}
use cpfbuddies.Marketplace.Contracts.{Listing}
use cpfbuddies.Marketplace.Catalog.{words, one_of, meets, is_empty}
use cpfbuddies.Agents.Patterns.{is_injection}

-- In the order of their values, by which `_reasons` sorts
pub data RiskReasonCode : Type 0 where
  evaluator_unavailable intent_mismatch new_or_unrated_seller price_over_cap : RiskReasonCode
  product_substitution prompt_injection suspiciously_low_price : RiskReasonCode

-- The codes that a model may give are the first of `INTENT_MISMATCH`, `PROMPT_INJECTION` and
-- `PRODUCT_SUBSTITUTION`.
pub record ModelAssessment : Type 0 where
  pub intent_match : Bool
  pub injection_detected : Bool
  pub substitution_suspected : Bool
  pub risk_score : ℕ
  pub reason_codes : List RiskReasonCode

pub record RiskReason : Type 0 where
  pub code : RiskReasonCode
  pub detail : String

pub record EvaluatorOutput : Type 0 where
  pub evaluator_id : String
  pub risk_score : ℕ
  pub intent_match : Bool
  pub price_within_cap : Bool
  pub injection_detected : Bool
  pub reasons : List RiskReason

pub record EvaluationSecurityEvent : Type 0 where
  pub evaluator_id : String
  pub sku : String
  pub seller_id : String
  pub risk_score : ℕ
  pub reason_codes : List RiskReasonCode

abbrev rules_evaluator_id : String
rules_evaluator_id = "evaluator-rules-v1"

abbrev hybrid_evaluator_id : String
hybrid_evaluator_id = "evaluator-hybrid-nova-v1"

-- `_REASON_DETAILS`
abbrev reason_details : RiskReasonCode → String
reason_details intent_mismatch = "Listing does not match the purchase intent."
reason_details price_over_cap = "Listing price exceeds the mandate cap."
reason_details prompt_injection = "Listing contains instructions directed at an agent."
reason_details product_substitution = "Listing appears to substitute another product."
reason_details suspiciously_low_price = "Price is at most 20% of the approved budget."
reason_details new_or_unrated_seller = "Seller is new or has fewer than five ratings."
reason_details evaluator_unavailable = "Model evaluator was unavailable or returned invalid output."

abbrev same_code : RiskReasonCode → RiskReasonCode → Bool
same_code evaluator_unavailable evaluator_unavailable = true
same_code intent_mismatch intent_mismatch = true
same_code new_or_unrated_seller new_or_unrated_seller = true
same_code price_over_cap price_over_cap = true
same_code product_substitution product_substitution = true
same_code prompt_injection prompt_injection = true
same_code suspiciously_low_price suspiciously_low_price = true
same_code _ _ = false

abbrev pub has_code : RiskReasonCode → List RiskReasonCode → Bool
has_code code [] = false
has_code code (c ∷ cs) = same_code c code || has_code code cs

-- `code` as a list of one, or of none
abbrev pub code_if : Bool → RiskReasonCode → List RiskReasonCode
code_if true code = code ∷ []
code_if false code = []

-- The sorted codes that are in a set
abbrev in_order : List RiskReasonCode → List RiskReasonCode → List RiskReasonCode
in_order codes [] = []
in_order codes (c ∷ order) = code_if (has_code c codes) c ++ in_order codes order

abbrev with_details : List RiskReasonCode → List RiskReason
with_details [] = []
with_details (c ∷ cs) = record { code = c; detail = reason_details c } ∷ with_details cs

-- `_reasons`: the distinct codes, sorted by value
unfoldable pub reasons_of : List RiskReasonCode → List RiskReason
reasons_of codes = with_details (
    in_order codes (
      evaluator_unavailable ∷ intent_mismatch ∷ new_or_unrated_seller ∷ price_over_cap
      ∷ product_substitution ∷ prompt_injection ∷ suspiciously_low_price ∷ []))

-- `{reason.code for reason in reasons}`
abbrev pub codes_of : List RiskReason → List RiskReasonCode
codes_of [] = []
codes_of (r ∷ rs) = r.code ∷ codes_of rs

-- `_STOP_WORDS`
abbrev stop_words : List String
stop_words =
    "a" ∷ "an" ∷ "and" ∷ "buy" ∷ "for" ∷ "get" ∷ "me" ∷ "of" ∷ "please" ∷ "the" ∷ "to" ∷ "under"
    ∷ "with" ∷ []

abbrev without : List String → List String → List String
without stops [] = []
without stops (w ∷ ws) = let rest = without stops ws in if one_of w stops then rest else w ∷ rest

unfoldable pub matches_intent : Listing → String → Bool
matches_intent listing intent =
    let intent_tokens = without stop_words (words (lower intent)) in
    not (is_empty intent_tokens) && meets intent_tokens (words (lower listing.title))

unfoldable pub has_injection : Listing → Bool
has_injection listing = is_injection (listing.title <> "\n" <> listing.description)

abbrev plus_if : Bool → ℕ → ℕ
plus_if true n = n
plus_if false n = 0

-- `min(a, b)` and `max(a, b)`
abbrev smaller : ℕ → ℕ → ℕ
smaller a b = if ltb b a then b else a

abbrev pub larger : ℕ → ℕ → ℕ
larger a b = if ltb a b then b else a

-- `_score`
unfoldable pub score : Bool → Bool → Bool → Bool → Bool → ℕ
score intent_match price_within_cap injection_detected suspicious_price new_or_unrated =
    if injection_detected
    then 10
    else if not price_within_cap
    then 9
    else smaller
        (1 + plus_if (not intent_match) 7 + plus_if suspicious_price 2 + plus_if new_or_unrated 2)
        10

-- `_evaluate_rules`
unfoldable pub evaluate_rules : Listing → String → Money → EvaluatorOutput
evaluate_rules listing intent max_amount =
    let intent_match = matches_intent listing intent in
    let price_within_cap = leb (minor_units listing.price) (minor_units max_amount) in
    let injection_detected = has_injection listing in
    let suspicious_price = leb (minor_units listing.price * 5) (minor_units max_amount) in
    let new_or_unrated =
      ltb listing.seller_account_age_days 30 || ltb listing.seller_rating_count 5 in
    record {
      evaluator_id = rules_evaluator_id;
      risk_score =
          score intent_match price_within_cap injection_detected suspicious_price new_or_unrated;
      intent_match = intent_match;
      price_within_cap = price_within_cap;
      injection_detected = injection_detected;
      reasons = reasons_of (
          code_if (not intent_match) intent_mismatch
          ++ code_if (not price_within_cap) price_over_cap
          ++ code_if injection_detected prompt_injection
          ++ code_if suspicious_price suspiciously_low_price
          ++ code_if new_or_unrated new_or_unrated_seller);
    }

-- `_merge`
unfoldable pub merge : EvaluatorOutput → ModelAssessment → EvaluatorOutput
merge rules assessment =
    let intent_match =
      rules.intent_match && assessment.intent_match && not assessment.substitution_suspected in
    let injection_detected = rules.injection_detected || assessment.injection_detected in
    let risk_score = larger rules.risk_score assessment.risk_score in
    record {
      evaluator_id = hybrid_evaluator_id;
      risk_score =
          if injection_detected
          then 10
          else if not intent_match || assessment.substitution_suspected
          then larger risk_score 4
          else risk_score;
      intent_match = intent_match;
      price_within_cap = rules.price_within_cap;
      injection_detected = injection_detected;
      reasons = reasons_of (
          codes_of rules.reasons
          ++ assessment.reason_codes
          ++ code_if (not intent_match) intent_mismatch
          ++ code_if injection_detected prompt_injection
          ++ code_if assessment.substitution_suspected product_substitution);
    }

-- `_model_unavailable`
unfoldable pub model_unavailable : EvaluatorOutput → EvaluatorOutput
model_unavailable rules = record rules {
  evaluator_id = hybrid_evaluator_id;
  risk_score = larger rules.risk_score 7;
  reasons = reasons_of (codes_of rules.reasons ++ (evaluator_unavailable ∷ []));
}

-- The model that is configured, if one is, answers with an assessment, or raises `EvaluationModelError`.
pub data ModelAnswer : Type 0 where
  no_model failed : ModelAnswer
  assessed : ModelAssessment → ModelAnswer

abbrev pub with_model : ModelAnswer → EvaluatorOutput → EvaluatorOutput
with_model no_model output = output
with_model failed output = model_unavailable output
with_model (assessed assessment) output = merge output assessment

-- `_emit_security_event`
abbrev emit_security_event :
    Listing → EvaluatorOutput → List EvaluationSecurityEvent → List EvaluationSecurityEvent
emit_security_event listing output events = elim output.reasons [
  | [] ↦ events
  | r ∷ rs ↦
      events
      ++ (record {
        evaluator_id = output.evaluator_id;
        sku = listing.sku;
        seller_id = listing.seller_id;
        risk_score = output.risk_score;
        reason_codes = codes_of output.reasons;
      }
          ∷ [])
]

-- `evaluate`, with what the sink was sent so far
unfoldable pub evaluate :
    ModelAnswer
    → Listing
    → String
    → Money
    → List EvaluationSecurityEvent
    → EvaluatorOutput × List EvaluationSecurityEvent
evaluate answer listing intent max_amount events =
    let output = with_model answer (evaluate_rules listing intent max_amount) in
    (output, emit_security_event listing output events)
