-- ===== src/X402/PublicSpec.antt =====
-- src/trustrail/x402/public_spec.py: what a merchant asks for in a 402 challenge.
use cpfbuddies.Prelude.{ℕ, String, not, Option, none, some, List, [], ◌∷◌, ◌==◌, if◌then◌else◌}
use cpfbuddies.Prelude.Integers.{ℤ, int, exceeds}
use cpfbuddies.Errors.{Result, ok, err, unsupported_requirements, quoted_too_much, value_error}
use cpfbuddies.Models.Money.{Money, xsgd, same_currency, minor_units}
use cpfbuddies.Models.Config.{Domain}

abbrev pub exact_scheme : String
exact_scheme = "exact"

abbrev pub eip3009_method : String
eip3009_method = "eip3009"

pub record TokenExtra : Type 0 where
  pub asset_transfer_method : String
  pub name : String
  pub version : String

-- `amount` is a text of the merchant's.
pub record PaymentRequirements : Type 0 where
  pub scheme : String
  pub network : String
  pub amount : String
  pub asset : String
  pub pay_to : String
  pub chain_id : ℕ
  pub max_timeout_seconds : ℕ
  pub extra : TokenExtra

pub record PaymentRequired : Type 0 where
  pub x402_version : ℕ
  pub accepts : List PaymentRequirements
  pub error : Option String

abbrev read_int : Option ℤ → Result ℤ
read_int none = err value_error
read_int (some n) = ok n

-- `PaymentRequirements.minor_units`
unfoldable pub asked_units : PaymentRequirements → Result ℤ
asked_units r = read_int (int r.amount)

-- `PaymentRequirements.token_domain`
unfoldable pub token_domain : PaymentRequirements → Domain
token_domain r = record {
  name = r.extra.name;
  version = r.extra.version;
  chain_id = r.chain_id;
  verifying_contract = r.asset;
}

unfoldable pub assert_supported : PaymentRequirements → Result (Unit {0})
assert_supported r =
    if not (r.scheme == exact_scheme)
    then err unsupported_requirements
    else if not (r.extra.asset_transfer_method == eip3009_method)
    then err unsupported_requirements
    else ok tt

unfoldable pub assert_affordable : PaymentRequirements → Money → Result (Unit {0})
assert_affordable r approved =
    if not (same_currency approved.currency xsgd)
    then err quoted_too_much
    else elim (asked_units r) [
      | err e ↦ err e
      | ok asked ↦ if exceeds asked (minor_units approved) then err quoted_too_much else ok tt
    ]

-- The first of the offers that can be satisfied. `assert_supported` raises nothing but
-- `UnsupportedRequirements`, which goes on to the next.
first_of : List PaymentRequirements → Result PaymentRequirements
first_of [] = err unsupported_requirements
first_of (r ∷ rs) = elim (assert_supported r) [ ok done ↦ ok r | err e ↦ first_of rs ]

unfoldable pub first_supported : PaymentRequired → Result PaymentRequirements
unfolding first_of
first_supported required = first_of required.accepts

-- `decode_requirements_header` and `parse_requirements`, over the base64 decoding, and the JSON parsing
-- and validation, which the repository does not hold
abbrev parsed : Option PaymentRequired → Result PaymentRequired
parsed none = err value_error
parsed (some required) = ok required

unfoldable pub parse_requirements :
    (String → Option PaymentRequired) → String → Result PaymentRequired
parse_requirements parse body = parsed (parse body)

unfoldable pub decode_requirements_header :
    (String → Option String) → (String → Option PaymentRequired) → String → Result PaymentRequired
decode_requirements_header b64decode parse header_value = elim (b64decode header_value) [
  | none ↦ err unsupported_requirements
  | some raw ↦ parse_requirements parse raw
]
