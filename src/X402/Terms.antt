-- ===== src/X402/Terms.antt =====
-- src/trustrail/x402/terms.py: the terms that the repository's own marketplace asks for.
use cpfbuddies.Prelude.{ℕ, String, Bool, not, ◌==◌, leb, if◌then◌else◌}
use cpfbuddies.Errors.{Result, ok, err, terms_mismatch}
use cpfbuddies.Models.Money.{Money, same_currency, gt_money}
use cpfbuddies.Models.Mandate.{Timestamp}
use cpfbuddies.Models.Charge.{Charge}

abbrev pub own_scheme : String
own_scheme = "x402-xsgd-avalanche"

pub record PaymentTerms : Type 0 where
  pub scheme : String
  pub network : String
  pub chain_id : ℕ
  pub asset : String
  pub pay_to : String
  pub amount : Money
  pub basket_hash : String
  pub quote_id : String
  pub expires_at : Timestamp
  pub nonce : String

pub record PaymentProof : Type 0 where
  pub scheme : String
  pub quote_id : String
  pub basket_hash : String
  pub mandate_id : String
  pub amount : Money
  pub payer : String
  pub reference : String
  pub settled_at : Timestamp

abbrev pub is_expired : PaymentTerms → Timestamp → Bool
is_expired terms now = leb terms.expires_at now

unfoldable pub assert_matches : PaymentTerms → Charge → Result (Unit {0})
assert_matches terms charge =
    if not (terms.scheme == own_scheme)
    then err terms_mismatch
    else if not (terms.pay_to == charge.payout_address)
    then err terms_mismatch
    else if not (terms.basket_hash == charge.basket_hash)
    then err terms_mismatch
    else if not (terms.quote_id == charge.quote_id)
    then err terms_mismatch
    else if not (same_currency terms.amount.currency charge.amount.currency)
    then err terms_mismatch
    else if gt_money terms.amount charge.amount
    then err terms_mismatch
    else ok tt
