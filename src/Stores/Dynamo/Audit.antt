-- ===== src/Stores/Dynamo/Audit.antt =====
-- `DynamoAuditLog` of src/trustrail/stores/dynamo.py
pub mod Entries
use Prim.Native.Nat.{Ordering}
use Prim.Native.String.{compare}
use cpfbuddies.Prelude.{
  ℕ, zero, suc, String, ◌<>◌, Bool, true, false, ◌&&◌, ◌||◌, Option, none, some, List, [], ◌∷◌,
  ◌++◌, eqb, ltb, if◌then◌else◌,
}
use cpfbuddies.Errors.{Result, ok, err}
use cpfbuddies.Models.Mandate.{Timestamp}
use cpfbuddies.Models.Audit.{
  AuditEntry, AuditEventType, mandate_minted, mandate_bound, mandate_revoked, mandate_consumed,
  kill_switch_set, candidate_selected, evaluation_complete, verdict_issued, settlement_settled,
  settlement_refused, settlement_failed,
}
use cpfbuddies.Stores.Dynamo.Table.{Item, Attribute}
use cpfbuddies.Stores.Dynamo.Mandates.{Json, read_models}

-- One response of a scan: the items, and `LastEvaluatedKey` if there are more
pub record Page : Type 0 where
  pub items : List Item
  pub last_evaluated_key : Option Item

-- A table with a partition key and a range key: `put_item`, which may raise; `query` for one partition, in the order
-- of the range key; and `scan` from an `ExclusiveStartKey`.
pub record LogTable (S : Type 0) : Type 0 where
  pub put_item : Item → S → Result (Unit {0}) × S
  pub query : String → S → List Item
  pub scan : Option Item → S → Page

abbrev pub event_type_value : AuditEventType → String
event_type_value mandate_minted = "MANDATE_MINTED"
event_type_value mandate_bound = "MANDATE_BOUND"
event_type_value mandate_revoked = "MANDATE_REVOKED"
event_type_value mandate_consumed = "MANDATE_CONSUMED"
event_type_value kill_switch_set = "KILL_SWITCH_SET"
event_type_value candidate_selected = "CANDIDATE_SELECTED"
event_type_value evaluation_complete = "EVALUATION_COMPLETE"
event_type_value verdict_issued = "VERDICT_ISSUED"
event_type_value settlement_settled = "SETTLEMENT_SETTLED"
event_type_value settlement_refused = "SETTLEMENT_REFUSED"
event_type_value settlement_failed = "SETTLEMENT_FAILED"

-- `(a.occurred_at, a.event_id) < (b.occurred_at, b.event_id)`
unfoldable pub precedes : AuditEntry → AuditEntry → Bool
precedes a b =
    ltb a.occurred_at b.occurred_at
    || (eqb a.occurred_at b.occurred_at
        && (elim (compare a.event_id b.event_id) [ Ordering.lt ↦ true | _ ↦ false ]))

-- `sorted(entries, key=…)` is stable: an entry goes before those that it does not follow.
unfoldable pub insert_entry : AuditEntry → List AuditEntry → List AuditEntry
insert_entry e [] = e ∷ []
insert_entry e (x ∷ xs) =
    let rest = insert_entry e xs in if precedes x e then x ∷ rest else e ∷ x ∷ xs

unfoldable pub sort_entries : List AuditEntry → List AuditEntry
sort_entries [] = []
sort_entries (e ∷ es) = insert_entry e (sort_entries es)

module _ {S : Type 0} (table : LogTable S) (json : Json AuditEntry)
    (isoformat : Timestamp → String) where
  unfoldable pub entry_item : AuditEntry → Item
  entry_item e =
      ("mandate_id", Attribute.text e.mandate_id)
      ∷ ("occurred_at_event", Attribute.text (isoformat e.occurred_at <> ("#" <> e.event_id)))
      ∷ ("event_type", Attribute.text (event_type_value e.event_type))
      ∷ ("entry", Attribute.text (json.dump e))
      ∷ []

  unfoldable pub record_entry : AuditEntry → S → Result (Unit {0}) × S
  record_entry e s = table.put_item (entry_item e) s

  unfoldable pub list_for_mandate : String → S → Result (List AuditEntry)
  list_for_mandate mandate_id s = read_models json "entry" (table.query mandate_id s)

  -- What one round of the loop does with a page, if `next` is the rest of the loop
  abbrev pub round :
      Option Item
      → List AuditEntry
      → Result (List AuditEntry)
      → (Item → List AuditEntry → Option (Result (List AuditEntry)))
      → Option (Result (List AuditEntry))
  round last entries (err e) next = some (err e)
  round none entries (ok more) next = some (ok (sort_entries (entries ++ more)))
  round (some key) entries (ok more) next = next key (entries ++ more)

  -- The loop of `all_entries`, with fuel for its rounds; `none` means that the fuel ran out.
  unfoldable pub scan_from :
      ℕ → Option Item → List AuditEntry → S → Option (Result (List AuditEntry))
  scan_from zero start entries s = none
  scan_from (suc fuel) start entries s =
      let page = table.scan start s in
      round page.last_evaluated_key entries (read_models json "entry" page.items)
        (λ key more. scan_from fuel (some key) more s)

  unfoldable pub all_entries : ℕ → S → Option (Result (List AuditEntry))
  all_entries fuel s = scan_from fuel none [] s
