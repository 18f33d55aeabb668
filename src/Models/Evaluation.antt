-- ===== src/Models/Evaluation.antt =====
-- src/trustrail/models/evaluation.py
use Prim.Native.String.{String}
use cpfbuddies.Prelude.{ℕ, Bool, List}
use cpfbuddies.Models.Money.{Money}

abbrev pub min_risk_score : ℕ
min_risk_score = 1

abbrev pub max_risk_score : ℕ
max_risk_score = 10

pub record EvaluationSubject : Type 0 where
  pub mandate_id : String
  pub basket_hash : String
  pub amount : Money

pub record EvaluatorFlags : Type 0 where
  pub intent_match : Bool
  pub injection_suspected : Bool
  pub price_far_below_market : Bool
  pub seller_is_new : Bool

pub record EvaluatorOutput : Type 0 where
  pub evaluator_id : String
  pub subject : EvaluationSubject
  pub risk_score : ℕ
  pub flags : EvaluatorFlags
  pub reasons : List String

pub record SignedEvaluatorOutput : Type 0 where
  pub evaluation : EvaluatorOutput
  pub digest : String
  pub signature : String
