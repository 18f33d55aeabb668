-- ===== src/Stores/Dynamo/Mandates.antt =====
-- `DynamoMandateStore` of src/trustrail/stores/dynamo.py
pub mod Calls
pub mod Represents
pub mod Creation
pub mod Refines
use cpfbuddies.Prelude.{
  ℕ, zero, suc, String, ◌<>◌, Bool, true, false, not, Option, none, some, List, [], ◌∷◌, ◌==◌,
  if◌then◌else◌,
}
use cpfbuddies.Prelude.Dict
use cpfbuddies.Errors.{
  Error, Result, ok, err, mandate_not_found, mandate_already_exists, nonce_already_claimed,
  mandate_status_conflict, client_error, validation_error,
}
use cpfbuddies.Models.Mandate.{
  Timestamp, MandateRecord, MandateStatus, minted, bound, consumed, revoked, record_id,
  record_principal,
}
use cpfbuddies.Stores.Mandates.{nonce_of}
use cpfbuddies.Stores.Dynamo.Table.{
  Item, Attribute, Table, ClientError, item_text, condition_failed_request, condition_failed_item,
  transaction_cancelled,
}

-- The JSON text of a model, and the model that a text is read as; `none` is a `ValidationError`.
pub record Json (M : Type 0) : Type 0 where
  pub dump : M → String
  pub validate : String → Option M

abbrev pub status_value : MandateStatus → String
status_value minted = "MINTED"
status_value bound = "BOUND"
status_value consumed = "CONSUMED"
status_value revoked = "REVOKED"

abbrev pub mandate_prefix : String
mandate_prefix = "mandate#"

abbrev pub nonce_prefix : String
nonce_prefix = "nonce#"

unfoldable pub nonce_item : MandateRecord → Item
nonce_item r =
    ("pk", Attribute.text (nonce_prefix <> nonce_of r))
    ∷ ("mandate_id", Attribute.text (record_id r))
    ∷ []

-- `_failed(reasons, index)`
abbrev failed : List (Option String) → ℕ → Bool
failed [] index = false
failed (none ∷ reasons) zero = false
failed (some code ∷ reasons) zero = code == condition_failed_item
failed (r ∷ reasons) (suc index) = failed reasons index

unfoldable pub explain_failed_creation : ClientError → Error
explain_failed_creation e =
    if not (e.code == transaction_cancelled)
    then client_error
    else if failed e.reasons 0
    then mandate_already_exists
    else if failed e.reasons 1
    then nonce_already_claimed
    else client_error

-- `model_validate_json`
abbrev validated : {M : Type 0} → Json M → Result String → Result M
validated json (err e) = err e
validated json (ok s) = elim (json.validate s) [ none ↦ err validation_error | some m ↦ ok m ]

abbrev found : {M : Type 0} → Result M → Result (Option M)
found (err e) = err e
found (ok m) = ok (some m)

-- `Model.model_validate_json(item[name]) if item else None`
abbrev pub read_model : {M : Type 0} → Json M → String → Option Item → Result (Option M)
read_model json name none = ok none
read_model json name (some item) = found (validated json (item_text name item))

abbrev pub owner_of : Option Item → Result (Option String)
owner_of none = ok none
owner_of (some item) = found (item_text "mandate_id" item)

-- One model of each item of a response
abbrev appended : {M : Type 0} → Result M → Result (List M) → Result (List M)
appended (err e) rest = err e
appended (ok m) (err e) = err e
appended (ok m) (ok ms) = ok (m ∷ ms)

abbrev pub read_models : {M : Type 0} → Json M → String → List Item → Result (List M)
read_models json name [] = ok []
read_models json name (item ∷ items) =
    appended (validated json (item_text name item)) (read_models json name items)

module _ (json : Json MandateRecord) (isoformat : Timestamp → String) where
  unfoldable pub mandate_item : MandateRecord → Item
  mandate_item r =
      ("pk", Attribute.text (mandate_prefix <> record_id r))
      ∷ ("principal", Attribute.text (record_principal r))
      ∷ ("created_at", Attribute.text (isoformat r.created_at))
      ∷ ("status", Attribute.text (status_value r.status))
      ∷ ("record", Attribute.text (json.dump r))
      ∷ []

module _ {S : Type 0} (table : Table S) (json : Json MandateRecord)
    (isoformat : Timestamp → String) where
  abbrev pub created : Option ClientError × S → Result (Unit {0}) × S
  created (none, s) = (ok tt, s)
  created (some e, s) = (err (explain_failed_creation e), s)

  unfoldable pub save_new : MandateRecord → S → Result (Unit {0}) × S
  save_new r s =
      created (table.transact_write_items (mandate_item json isoformat r ∷ nonce_item r ∷ []) s)

  unfoldable pub get : String → S → Result (Option MandateRecord)
  get mandate_id s = read_model json "record" (table.get_item (mandate_prefix <> mandate_id) s)

  unfoldable pub nonce_owner : String → S → Result (Option String)
  nonce_owner nonce s = owner_of (table.get_item (nonce_prefix <> nonce) s)

  -- Which error a failed condition is, once the store has been asked again
  abbrev pub missing_or_moved : Result (Option MandateRecord) → Error
  missing_or_moved (err e) = e
  missing_or_moved (ok none) = mandate_not_found
  missing_or_moved (ok (some r)) = mandate_status_conflict

  unfoldable pub explain_failed_replace : ClientError → MandateRecord → S → Error
  explain_failed_replace e r s =
      if not (e.code == condition_failed_request)
      then client_error
      else missing_or_moved (get (record_id r) s)

  abbrev pub replaced : MandateRecord → Option ClientError × S → Result (Unit {0}) × S
  replaced r (none, s) = (ok tt, s)
  replaced r (some e, s) = (err (explain_failed_replace e r s), s)

  unfoldable pub replace : MandateRecord → MandateStatus → S → Result (Unit {0}) × S
  replace r expected_status s =
      replaced r
        (table.put_item (mandate_item json isoformat r) "status" (status_value expected_status) s)

  unfoldable pub list_by_principal : String → S → Result (List MandateRecord)
  list_by_principal principal s = read_models json "record" (table.query principal s)
