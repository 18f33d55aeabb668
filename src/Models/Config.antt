-- ===== src/Models/Config.antt =====
-- The settings: src/trustrail/verifier/config.py, and the domain of src/trustrail/signing/eip712.py.
use Prim.Native.String.{String}
use cpfbuddies.Prelude.{ℕ, ◌*◌, Bool, ◌&&◌, ltb, leb}
use cpfbuddies.Models.Money.{Currency}
use cpfbuddies.Models.Mandate.{Timestamp}
use cpfbuddies.Models.Evaluation.{min_risk_score, max_risk_score}

-- `Eip712Domain`
pub record Domain : Type 0 where
  pub name : String
  pub version : String
  pub chain_id : ℕ
  pub verifying_contract : String

pub record VerifierConfig : Type 0 where
  pub issuer_address : String
  pub settlement_currency : Currency
  pub domain : Domain
  pub pass_score_max : ℕ
  pub review_score_max : ℕ
  pub clock_skew_seconds : ℕ
  pub review_hold_seconds : ℕ

-- `timedelta(seconds=n)`
abbrev pub seconds : ℕ → Timestamp
seconds n = n * 1_000_000

abbrev is_risk_score : ℕ → Bool
is_risk_score n = leb min_risk_score n && leb n max_risk_score

-- The constraints of the fields, and the validator `_check_bands_are_ordered`.
unfoldable pub config_accepted : VerifierConfig → Bool
config_accepted c =
    is_risk_score c.pass_score_max
    && is_risk_score c.review_score_max
    && leb c.clock_skew_seconds 3600
    && leb 1 c.review_hold_seconds
    && ltb c.pass_score_max c.review_score_max
