-- ===== src/Models/Review.antt =====
-- src/trustrail/models/review.py
use Prim.Native.String.{String}
use cpfbuddies.Prelude.{ℕ, ◌+◌, Bool, not, Option, some, ◌==◌, ◌&&◌, leb, if◌then◌else◌}
use cpfbuddies.Models.Mandate.{Timestamp}
use cpfbuddies.Models.Charge.{Charge}
use cpfbuddies.Models.Evaluation.{SignedEvaluatorOutput}
use cpfbuddies.Models.Verdict.{Verdict, failed_deterministically}

pub data ReviewOutcome : Type 0 where
  pending approved killed expired : ReviewOutcome

pub record HumanApproval : Type 0 where
  pub charge_id : String
  pub approved_by : String
  pub approved_at : Timestamp

pub record ReviewHold : Type 0 where
  pub charge_id : String
  pub mandate_id : String
  pub verdict : Verdict
  pub charge : Charge
  pub evaluation : SignedEvaluatorOutput
  pub outcome : ReviewOutcome
  pub held_at : Timestamp
  pub deadline : Timestamp
  pub resolved_by : Option String

-- The validator `_parts_must_describe_one_purchase`, which runs when a hold is constructed.
unfoldable pub describes_one_purchase : ReviewHold → Bool
describes_one_purchase h =
    h.charge.charge_id == h.charge_id
    && h.charge.mandate_id == h.mandate_id
    && h.verdict.charge_id == h.charge_id

unfoldable pub approvable : ReviewHold → Bool
approvable h = not (failed_deterministically h.verdict)

-- The earlier of the two, as Python's `min` gives it.
unfoldable pub deadline_for : Timestamp → Timestamp → ℕ → Timestamp
deadline_for now mandate_expires_at review_window =
    if leb (now + review_window) mandate_expires_at then now + review_window else mandate_expires_at

unfoldable pub resolve : ReviewHold → ReviewOutcome → String → ReviewHold
resolve h outcome by = record h { outcome = outcome; resolved_by = some by }
