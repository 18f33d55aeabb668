-- ===== src/Samples.antt =====
-- Data that the tests and the witnesses share: a mandate for 5.00 XSGD, a charge of 4.20 against it,
-- and stand-ins for the hash and for the recovery of a signer.
use cpfbuddies.Prelude.{
  ℕ, ◌+◌, ◌%◌, String, true, false, Option, none, some, List, [], ◌∷◌, eqb, if◌then◌else◌,
}
use cpfbuddies.Prelude.Text.{encode}
use cpfbuddies.Models.Money.{Money, xsgd}
use cpfbuddies.Models.Mandate.{Mandate, SignedMandate, MandateRecord, minted, bound}
use cpfbuddies.Models.Charge.{Charge}
use cpfbuddies.Models.Evaluation.{EvaluatorOutput, SignedEvaluatorOutput}
use cpfbuddies.Models.Registry.{MerchantRecord, AgentRecord, evaluator}
use cpfbuddies.Models.Verdict.{VerificationRequest}
use cpfbuddies.Models.Config.{Domain, VerifierConfig}
use cpfbuddies.Signing.Libraries.{Libraries}
use cpfbuddies.Signing.Eip712.{mandate_digest}
use cpfbuddies.Signing.Evidence.{evaluation_digest}
use cpfbuddies.Verifier.Service.{verify}
use cpfbuddies.Stores.Mandates.{empty}
use cpfbuddies.Mandates.Rail.{Ports, Rail}
use cpfbuddies.Settlement.Models.{SettlementRequest}

abbrev pub issuer_address : String
issuer_address = "0x1111111111111111111111111111111111111111"

abbrev pub evaluator_address : String
evaluator_address = "0x2222222222222222222222222222222222222222"

abbrev pub buyer : String
buyer = "0xabababababababababababababababababababab"

abbrev pub shop_address : String
shop_address = "0x5dc6ebd1745c4c58f73d846952e5d4a8858763cc"

abbrev pub mandate_1 : String
mandate_1 = "0x0000000000000000000000000000000000000000000000000000000000000001"

abbrev pub nonce_1 : String
nonce_1 = "0x00000000000000000000000000000000000000000000000000000000000000a1"

abbrev pub charge_1 : String
charge_1 = "0x00000000000000000000000000000000000000000000000000000000000000c1"

abbrev pub basket_1 : String
basket_1 = "0x00000000000000000000000000000000000000000000000000000000000000b1"

-- r is 1 in the issuer's signatures and 2 in the evaluator's; s is 1 and v is 27.
abbrev pub issuer_signature : String
issuer_signature =
    "0x000000000000000000000000000000000000000000000000000000000000000100000000000000000000000000000000000000000000000000000000000000011b"

abbrev pub evaluator_signature : String
evaluator_signature =
    "0x000000000000000000000000000000000000000000000000000000000000000200000000000000000000000000000000000000000000000000000000000000011b"

abbrev sum_bytes : List ℕ → ℕ
sum_bytes [] = 0
sum_bytes (b ∷ bs) = b + sum_bytes bs

abbrev signer_of : ℕ → Option String
signer_of r =
    if eqb r 1 then some issuer_address else if eqb r 2 then some evaluator_address else none

abbrev pub toy : Libraries
toy = record {
  keccak = λ bytes. sum_bytes bytes % 256 ∷ [];
  recover = λ v r s digest. signer_of r;
  evaluation_json = λ e. encode e.evaluator_id;
  config_json = λ c. encode c.issuer_address;
}

abbrev pub domain : Domain
domain = record {
  name = "TrustRail";
  version = "1";
  chain_id = 43113;
  verifying_contract = "0x0000000000000000000000000000000000000000";
}

abbrev pub config : VerifierConfig
config = record {
  issuer_address = issuer_address;
  settlement_currency = xsgd;
  domain = domain;
  pass_score_max = 3;
  review_score_max = 7;
  clock_skew_seconds = 30;
  review_hold_seconds = 600;
}

abbrev pub five : Money
five = record { currency = xsgd; amount = "5.00" }

abbrev pub four_twenty : Money
four_twenty = record { currency = xsgd; amount = "4.20" }

abbrev pub mandate : Mandate
mandate = record {
  mandate_id = mandate_1;
  principal = buyer;
  agent_id = "browser-agent-1";
  max_amount = five;
  expires_at = 2_000_000_000;
  intent = "toothbrush under $5";
  merchant_address = none;
  basket_hash = none;
  nonce = nonce_1;
}

abbrev pub signed_mandate : SignedMandate
signed_mandate = record {
  mandate = mandate;
  digest = mandate_digest toy mandate domain;
  signature = issuer_signature;
}

abbrev pub charge : Charge
charge = record {
  charge_id = charge_1;
  mandate_id = mandate_1;
  merchant_id = "mrc_stub_sg";
  payout_address = shop_address;
  amount = four_twenty;
  basket_hash = basket_1;
  quote_id = "q_1";
  sku = "TB-SOFT-2PK";
  title = "Soft bristle toothbrush, 2 pack";
  quantity = 1;
}

-- The evaluator's findings on the charge, at a risk score.
abbrev pub findings : ℕ → EvaluatorOutput
findings score = record {
  evaluator_id = "evaluator-rules-v1";
  subject = record { mandate_id = mandate_1; basket_hash = basket_1; amount = four_twenty };
  risk_score = score;
  flags = record {
    intent_match = true;
    injection_suspected = false;
    price_far_below_market = false;
    seller_is_new = true;
  };
  reasons = [];
}

abbrev pub evidence : ℕ → SignedEvaluatorOutput
evidence score = record {
  evaluation = findings score;
  digest = evaluation_digest toy (findings score);
  signature = evaluator_signature;
}

abbrev pub merchant : MerchantRecord
merchant = record {
  merchant_id = "mrc_stub_sg";
  name = "CPF Buddies Demo Marketplace";
  payout_address = shop_address;
  is_active = true;
}

abbrev pub agent : AgentRecord
agent = record {
  agent_id = "evaluator-rules-v1";
  role = evaluator;
  address = evaluator_address;
  is_active = true;
}

abbrev pub request : ℕ → VerificationRequest
request score = record {
  signed_mandate = signed_mandate;
  charge = charge;
  evaluation = evidence score;
  mandate_state = record { status = minted; nonce_claimed_by = some mandate_1 };
  merchant = some merchant;
  evaluator = some agent;
  kill_switch_active = false;
  now = 1_000_000_000;
}

-- The ports of a Mandate Service with no ledger, at a clock that stands still. The first two identifiers
-- drawn are those of the mandate.
abbrev drawn : ℕ → String
drawn n = if eqb n 0 then mandate_1 else if eqb n 1 then nonce_1 else charge_1

abbrev pub ports : Ports
ports = record {
  lib = toy;
  domain = domain;
  signer_address = issuer_address;
  sign = λ digest. issuer_signature;
  time = λ n. 1_000_000_000;
  random = drawn;
  registrar = none;
}

abbrev pub empty_rail : Rail
empty_rail = record {
  store = empty;
  kill_switch = [];
  audit = [];
  chain_calls = [];
  reads = 0;
  draws = 0;
}

-- The sample mandate, stored and bound.
abbrev pub bound_mandate : MandateRecord
bound_mandate = record {
  signed = signed_mandate;
  status = bound;
  created_at = 1_000_000;
  updated_at = 1_000_000;
}

abbrev pub stored_rail : Rail
stored_rail = record empty_rail {
  store = record {
    records = (mandate_1, bound_mandate) ∷ [];
    nonce_owners = (nonce_1, mandate_1) ∷ [];
  };
}

abbrev pub settlement_request : ℕ → SettlementRequest
settlement_request score = record {
  verdict = verify toy config (request score);
  charge = charge;
  signed_mandate = signed_mandate;
  human_approval = none;
}
