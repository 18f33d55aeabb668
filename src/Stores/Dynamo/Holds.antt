-- ===== src/Stores/Dynamo/Holds.antt =====
-- `DynamoReviewHoldStore` of src/trustrail/stores/dynamo.py
use cpfbuddies.Prelude.{◌/◌, String, Option, List, [], ◌∷◌}
use cpfbuddies.Errors.{Result}
use cpfbuddies.Models.Mandate.{Timestamp}
use cpfbuddies.Models.Review.{ReviewHold, ReviewOutcome, pending, approved, killed, expired}
use cpfbuddies.Stores.Dynamo.Table.{Item, Attribute}
use cpfbuddies.Stores.Dynamo.Mandates.{Json, read_model, read_models}

-- A table with the partition key `charge_id`: `get_item`; `put_item`, which may raise; and one page of a `scan` for
-- the items with this outcome whose deadline is a text above this one.
pub record HoldTable (S : Type 0) : Type 0 where
  pub get_item : String → S → Option Item
  pub put_item : Item → S → Result (Unit {0}) × S
  pub scan_open : String → String → S → List Item

abbrev pub outcome_value : ReviewOutcome → String
outcome_value pending = "PENDING"
outcome_value approved = "APPROVED"
outcome_value killed = "KILLED"
outcome_value expired = "EXPIRED"

module _ {S : Type 0} (table : HoldTable S) (json : Json ReviewHold)
    (isoformat : Timestamp → String) where
  unfoldable pub hold_item : ReviewHold → Item
  hold_item h =
      ("charge_id", Attribute.text h.charge_id)
      ∷ ("outcome", Attribute.text (outcome_value h.outcome))
      ∷ ("deadline", Attribute.text (isoformat h.deadline))
      ∷ ("ttl", Attribute.number (h.deadline / 1_000_000))
      ∷ ("hold", Attribute.text (json.dump h))
      ∷ []

  unfoldable pub put_hold : ReviewHold → S → Result (Unit {0}) × S
  put_hold h s = table.put_item (hold_item h) s

  unfoldable pub get_hold : String → S → Result (Option ReviewHold)
  get_hold charge_id s = read_model json "hold" (table.get_item charge_id s)

  unfoldable pub list_pending : Timestamp → S → Result (List ReviewHold)
  list_pending now s =
      read_models json "hold" (table.scan_open (outcome_value pending) (isoformat now) s)
