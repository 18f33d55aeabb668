-- ===== src/Stores/Dynamo/Tests.antt =====
-- A table of DynamoDB as an association list of items, and a run over it.
use cpfbuddies.Prelude.{
  String, ◌≡◌, refl, Option, none, some, List, [], ◌∷◌, ◌||◌, ◌==◌, is_some, arith, ℕ,
  if◌then◌else◌,
}
use cpfbuddies.Prelude.Dict
use cpfbuddies.Prelude.Dict.{Dict, get-set}
use cpfbuddies.Models.Mandate.{MandateRecord, minted}
use cpfbuddies.Stores.Mandates as Memory
use cpfbuddies.Stores.Dynamo.Table.{
  Item, Attribute, Table, item_text, text_of, IsTable, ClientError, has_text, key_of,
  condition_failed, cancelled,
}
use cpfbuddies.Stores.Dynamo.Mandates.{Json}
use cpfbuddies.Stores.Dynamo.Mandates.Calls.{Call, in_memory, in_dynamo}
use cpfbuddies.Stores.Dynamo.Mandates.Refines.{in_dynamo-empty}
use cpfbuddies.Models.Audit.{AuditEntry, mandate_minted}
use cpfbuddies.Stores.Dynamo.Audit.{LogTable, all_entries}
use cpfbuddies.Stores.Dynamo.Audit.Entries.{IsSorted, concat, all_entries-Scans}
use cpfbuddies.Errors.{ok}
use mathlib.Core.List.{Perm}
use cpfbuddies.Samples.{bound_mandate, mandate_1}

put : Item → String → String → Dict Item → Option ClientError × Dict Item
put item name value s =
    if has_text name value (Dict.get (key_of item) s)
    then (none, Dict.set (key_of item) item s)
    else (some condition_failed, s)

put_both : Item → Item → Dict Item → Option ClientError × Dict Item
put_both a b s =
    let x = Dict.get (key_of a) s in
    let y = Dict.get (key_of b) s in
    if is_some x || is_some y
    then (some (cancelled x y), s)
    else (none, Dict.set (key_of a) a (Dict.set (key_of b) b s))

transact : List Item → Dict Item → Option ClientError × Dict Item
transact (a ∷ b ∷ []) s = put_both a b s
transact items s = (none, s)

-- The index of principals is not asked in the run.
abbrev table : Table (Dict Item)
table = record {
  get_item = Dict.get;
  put_item = put;
  transact_write_items = transact;
  query = λ principal s. [];
}

abbrev held : Dict Item → String → Option Item
held s k = Dict.get k s

table-IsTable : IsTable table held
unfolding put put_both transact
table-IsTable = record {
  put_stored = λ item name value s h. (rw h refl, λ k. rw h (get-set (key_of item) k item s));
  put_refused = λ item name value s h. (rw h refl, λ k. rw h refl);
  transact_stored = λ a b s ne x y. (
    rw (x, y) refl,
    λ k.
        rw (x, y)
          (ground
            (arith, get-set (key_of a) k a (Dict.set (key_of b) b s), get-set (key_of b) k b s)),
  );
  transact_cancelled = λ a b s ne h. (rw h refl, λ k. rw h refl);
}

-- Two mandates and their texts
abbrev minted_mandate : MandateRecord
minted_mandate = record bound_mandate { status = minted }

abbrev json : Json MandateRecord
json = record {
  dump = λ r. elim r.status [ minted ↦ "minted" | _ ↦ "bound" ];
  validate = λ s. if s == "minted" then some minted_mandate else some bound_mandate;
}

-- Minted, refused as a duplicate, bound, refused as it has moved, and read
abbrev calls : List Call
calls =
    Call.save_new minted_mandate
    ∷ Call.save_new bound_mandate
    ∷ Call.replace bound_mandate minted
    ∷ Call.replace bound_mandate minted
    ∷ Call.get mandate_1
    ∷ []

in_dynamo-empty_example : in_dynamo table json (λ at. "") calls [] ≡ in_memory calls Memory.empty
unfolding Dict.get
in_dynamo-empty_example =
    in_dynamo-empty table held table-IsTable json (λ at. "") (λ k s. refl) calls []
      (refl, (refl, (refl, (refl, (tt, tt))))) (λ k. refl)

abbrev entry : String → ℕ → AuditEntry
entry event_id at = record {
  event_id = event_id;
  mandate_id = mandate_1;
  event_type = mandate_minted;
  occurred_at = at;
  actor = "mandate-service";
  verdict = none;
  evaluation = none;
  settlement = none;
}

abbrev entry_json : Json AuditEntry
entry_json = record {
  dump = λ e. e.event_id;
  validate = λ text. some (entry text (if text == "e1" then 5 else 7));
}

abbrev start_of_second : Item
start_of_second = ("mandate_id", Attribute.text mandate_1) ∷ []

abbrev entry_item_of : String → Item
entry_item_of event_id = ("entry", Attribute.text event_id) ∷ []

-- A table whose scan has two pages, the later entry on the first
abbrev log : LogTable (Unit {0})
log = record {
  put_item = λ item s. (ok tt, s);
  query = λ mandate_id s. [];
  scan = λ start s. elim start [
    | none ↦ record { items = entry_item_of "e2" ∷ []; last_evaluated_key = some start_of_second }
    | some key ↦ record { items = entry_item_of "e1" ∷ []; last_evaluated_key = none }
  ];
}

all_entries-Scans_example :
    (entries : List AuditEntry) × (all_entries log entry_json (λ at. "") 2 tt ≡ some (ok entries))
    × Perm entries (concat ((entry "e2" 7 ∷ []) ∷ (entry "e1" 5 ∷ []) ∷ []))
    × IsSorted entries
unfolding item_text text_of Dict.get
all_entries-Scans_example =
    all_entries-Scans log entry_json (λ at. "") tt 2
      ((entry "e2" 7 ∷ []) ∷ (entry "e1" 5 ∷ []) ∷ []) (refl, (start_of_second, refl, (refl, refl)))
      (omega arith)
