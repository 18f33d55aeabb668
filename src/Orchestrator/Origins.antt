-- ===== src/Orchestrator/Origins.antt =====
-- Where the charge that the orchestrator verifies comes from.
use cpfbuddies.Prelude.{String, ◌≡◌, refl, ap, Option, some}
use cpfbuddies.Errors.{ok}
use cpfbuddies.Models.Money.{Money}
use cpfbuddies.Models.Mandate.{MandateRecord, record_id}
use cpfbuddies.Models.Charge.{Charge}
use cpfbuddies.Models.Evaluation.{SignedEvaluatorOutput}
use cpfbuddies.Models.Registry.{AgentRecord}
use cpfbuddies.Models.Review.{ReviewHold}
use cpfbuddies.Stores.Holds.{get_hold}
use cpfbuddies.Mandates.Rail.{Action}
use cpfbuddies.Orchestrator.Office.{
  ShoppingResult, Office, OfficePorts, Task, on_rail, read_office, call_shop,
}
use cpfbuddies.Orchestrator.Purchase.{charge_for}

-- The charge is what the shopping agents chose for this intent and price, and the evidence is theirs.
pub record IsShopped (ports : OfficePorts) (s : Office) (intent : String) (max_amount : Money)
    (charge : Charge) (evidence : SignedEvaluatorOutput) : Type 0 where
  pub found : ShoppingResult
  pub answered : ports.shop s.shops intent max_amount charge.mandate_id ≡ ok found
  pub evaluated : evidence ≡ found.evaluation
  pub merchant : charge.merchant_id ≡ found.candidate.merchant_id
  pub payee : charge.payout_address ≡ found.candidate.payout_address
  pub amount : charge.amount ≡ found.candidate.amount
  pub basket : charge.basket_hash ≡ found.candidate.basket_hash
  pub quote : charge.quote_id ≡ found.candidate.quote_id
  pub item : charge.sku ≡ found.candidate.sku
  pub quantity : charge.quantity ≡ found.candidate.quantity

-- The charge and the evidence are those that were held under this id.
abbrev pub IsHeld : String → Office → Charge → SignedEvaluatorOutput → Type 0
IsHeld charge_id s charge evidence =
    (h : ReviewHold) × (get_hold charge_id s.holds ≡ some h)
    × (charge ≡ h.charge)
    × (evidence ≡ h.evaluation)

module _ (ports : OfficePorts) where
  -- What returned, returned from the state that it left.
  pub returned :
      {A : Type 0} (m : Task A) (s : Office) (a : A) → (m s).0 ≡ ok a → m s ≡ (ok a, (m s).1)
  returned m s a e = ap (λ x. (x, (m s).1)) e

  pub on_rail-returned :
      {A : Type 0} (m : Action A) (s : Office) (a : A)
      → (on_rail m s).0 ≡ ok a
      → m s.rail ≡ (ok a, (on_rail m s).1.rail)
  unfolding on_rail
  on_rail-returned m s a e = ap (λ x. (x, (m s.rail).1)) e

  -- The answer of the agents after the mint is that of the state before it.
  pub shopped :
      (s : Office) (intent : String) (max_amount : Money) (charge_id : String) (r : MandateRecord)
      (found : ShoppingResult) (m : Action MandateRecord) (f : Office → Option AgentRecord)
      → (call_shop ports intent max_amount (record_id r) (on_rail m (read_office f s).1).1).0
        ≡ ok found
      → IsShopped ports s intent max_amount
          (charge_for found.candidate (record_id r) charge_id)
          found.evaluation
  unfolding charge_for call_shop on_rail read_office
  shopped s intent max_amount charge_id r found m f e = record {
    found = found;
    answered = e;
    evaluated = refl;
    merchant = refl;
    payee = refl;
    amount = refl;
    basket = refl;
    quote = refl;
    item = refl;
    quantity = refl;
  }
