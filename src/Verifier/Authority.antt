-- ===== src/Verifier/Authority.antt =====
-- What authorises a charge: the facts behind the deterministic checks of
-- src/trustrail/verifier/checks.py, said without them.
use cpfbuddies.Prelude.{
  ◌+◌, ◌≤◌, ◌<◌, String, true, false, ◌≡◌, ◌↔◌, ◌⊎◌, Option, none, some, ◌==◌, not, eq_iff, arith,
}
use cpfbuddies.Models.Money.{gt_money, same_money, Money, Currency, same_currency, minor_units}
use cpfbuddies.Models.Mandate.{minted, bound}
use cpfbuddies.Models.Registry.{evaluator, MerchantRecord, AgentRecord}
use cpfbuddies.Models.Verdict.{ReasonCode}
use cpfbuddies.Models.Config.{seconds}
use cpfbuddies.Prelude.Text.{lower}
use cpfbuddies.Signing.Libraries.{Libraries}
use cpfbuddies.Signing.Crypto.{to_bytes, recover_address, same_address}
use cpfbuddies.Signing.Evidence.{evaluation_digest}
use cpfbuddies.Verifier.Checks.{
  VerificationContext, mandate_of, charge_of, evaluation_of, recomputed_digest, reject_if, is_other,
}

-- The text is absent or is the expected one.
abbrev pub IsUnsetOr : Option String → String → Type 0
IsUnsetOr o b = (o ≡ none) ⊎ (o ≡ some b)

-- The signature over the digest recovers to the address, which is compared in lower case.
abbrev pub IsSignedBy : Libraries → String → String → String → Type 0
IsSignedBy lib digest signature address =
    recover_address lib (to_bytes digest) signature ≡ some (lower address)

-- The registered counterparty: it is active, the charge pays out to its address, and a mandate that
-- names a merchant names this one.
abbrev pub MerchantHolds : VerificationContext → Type 0
MerchantHolds ctx =
    (m : MerchantRecord) × (ctx.request.merchant ≡ some m)
    × (m.is_active ≡ true)
    × ((charge_of ctx).payout_address ≡ m.payout_address)
    × IsUnsetOr (mandate_of ctx).merchant_address m.payout_address

-- The evidence: it names an active registered evaluator, and its digest, recomputed, is signed by that
-- evaluator's key.
abbrev pub EvaluatorHolds : Libraries → VerificationContext → Type 0
EvaluatorHolds lib ctx =
    (a : AgentRecord) × (ctx.request.evaluator ≡ some a)
    × (a.agent_id ≡ (evaluation_of ctx).evaluator_id)
    × (a.role ≡ evaluator)
    × (a.is_active ≡ true)
    × (ctx.request.evaluation.digest ≡ evaluation_digest lib (evaluation_of ctx))
    × IsSignedBy lib (evaluation_digest lib (evaluation_of ctx)) ctx.request.evaluation.signature
        a.address

-- Everything that a charge must satisfy, whatever the evaluator thinks of it.
pub record Authorised (lib : Libraries) (ctx : VerificationContext) : Type 0 where
  pub digest : ctx.request.signed_mandate.digest ≡ recomputed_digest lib ctx
  pub issuer :
      IsSignedBy lib
        (recomputed_digest lib ctx)
        ctx.request.signed_mandate.signature
        ctx.config.issuer_address
  pub target : (charge_of ctx).mandate_id ≡ (mandate_of ctx).mandate_id
  pub alive : ctx.request.now + seconds ctx.config.clock_skew_seconds ≤ (mandate_of ctx).expires_at
  pub spendable :
      (ctx.request.mandate_state.status ≡ minted) ⊎ (ctx.request.mandate_state.status ≡ bound)
  pub running : ctx.request.kill_switch_active ≡ false
  pub nonce : IsUnsetOr ctx.request.mandate_state.nonce_claimed_by (mandate_of ctx).mandate_id
  pub currency : (charge_of ctx).amount.currency ≡ (mandate_of ctx).max_amount.currency
  pub settleable : (mandate_of ctx).max_amount.currency ≡ ctx.config.settlement_currency
  pub capped :
      (minor_units (charge_of ctx).amount < minor_units (mandate_of ctx).max_amount)
      ⊎ ((charge_of ctx).amount ≡ (mandate_of ctx).max_amount)
  pub merchant : MerchantHolds ctx
  pub basket : IsUnsetOr (mandate_of ctx).basket_hash (charge_of ctx).basket_hash
  pub evidence : EvaluatorHolds lib ctx
  pub same_mandate : (evaluation_of ctx).subject.mandate_id ≡ (charge_of ctx).mandate_id
  pub same_basket : (evaluation_of ctx).subject.basket_hash ≡ (charge_of ctx).basket_hash
  pub same_amount : (evaluation_of ctx).subject.amount ≡ (charge_of ctx).amount

pub reject_text : (a b : String) (r : ReasonCode) → (reject_if (not (a == b)) r ≡ none) ↔ (a ≡ b)
reject_text a b r = ground (arith, eq_iff a b)

pub reject_other :
    (o : Option String) (b : String) (r : ReasonCode)
    → (reject_if (is_other o b) r ≡ none) ↔ IsUnsetOr o b
reject_other none b r = ground arith
reject_other (some a) b r = ground (arith, eq_iff a b)

pub same_address_iff : (o : Option String) (b : String) → (same_address o b ≡ true) ↔ (o ≡ some b)
same_address_iff none b = ground arith
same_address_iff (some a) b = ground (arith, eq_iff a b)

pub same_currency_iff : (a b : Currency) → (same_currency a b ≡ true) ↔ (a ≡ b)
same_currency_iff a b = ground arith

pub same_money_iff : (a b : Money) → (same_money a b ≡ true) ↔ (a ≡ b)
same_money_iff a b = ground (arith, eq_iff a.amount b.amount)

pub gt_money_iff :
    (a b : Money) → (gt_money a b ≡ false) ↔ ((minor_units a < minor_units b) ⊎ (a ≡ b))
gt_money_iff a b = ground (arith, same_money_iff a b)
