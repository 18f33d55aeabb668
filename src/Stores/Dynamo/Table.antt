-- ===== src/Stores/Dynamo/Table.antt =====
-- What src/trustrail/stores/dynamo.py uses of DynamoDB: a table is a parameter of the stores, with the documented
-- behaviour of conditional writes as laws.
use cpfbuddies.Prelude.{
  ℕ, String, Bool, true, false, ◌≡◌, ◌≢◌, Option, none, some, List, [], ◌∷◌, ◌||◌, ◌==◌, is_some,
  if◌then◌else◌,
}
use cpfbuddies.Prelude.Dict
use cpfbuddies.Prelude.Dict.{Dict}
use cpfbuddies.Errors.{Result, ok, err, key_error}

pub data Attribute : Type 0 where
  text : String → Attribute
  flag : Bool → Attribute
  number : ℕ → Attribute

abbrev pub Item : Type 0
Item = Dict Attribute

abbrev text_value : Option Attribute → Option String
text_value (some (text s)) = some s
text_value _ = none

-- The text that an item has under a name
unfoldable pub text_of : String → Item → Option String
text_of name item = text_value (Dict.get name item)

abbrev or_key_error : Option String → Result String
or_key_error none = err key_error
or_key_error (some s) = ok s

-- `item[name]`, where a text is read
unfoldable pub item_text : String → Item → Result String
item_text name item = or_key_error (text_of name item)

-- `error.response`: the code, and the codes of `CancellationReasons`
pub record ClientError : Type 0 where
  pub code : String
  pub reasons : List (Option String)

abbrev pub condition_failed_request : String
condition_failed_request = "ConditionalCheckFailedException"

abbrev pub condition_failed_item : String
condition_failed_item = "ConditionalCheckFailed"

abbrev pub transaction_cancelled : String
transaction_cancelled = "TransactionCanceledException"

-- A table with the partition key `pk`: `get_item` on a key; `put_item` where the attribute has the text; and
-- `transact_write_items` of puts, each with the condition `attribute_not_exists(pk)`. A write answers with the
-- error that it raises, if any. `query` asks the index of principals, newest first.
pub record Table (S : Type 0) : Type 0 where
  pub get_item : String → S → Option Item
  pub put_item : Item → String → String → S → Option ClientError × S
  pub transact_write_items : List Item → S → Option ClientError × S
  pub query : String → S → List Item

abbrev or_empty : Option String → String
or_empty none = ""
or_empty (some s) = s

-- The key of an item that is written
abbrev pub key_of : Item → String
key_of item = or_empty (text_of "pk" item)

-- The code in `CancellationReasons` of a put, on what stood under its key
abbrev reason : Option Item → Option String
reason none = some "None"
reason (some item) = some condition_failed_item

abbrev pub cancelled : Option Item → Option Item → ClientError
cancelled a b = record { code = transaction_cancelled; reasons = reason a ∷ reason b ∷ [] }

abbrev pub condition_failed : ClientError
condition_failed = record { code = condition_failed_request; reasons = [] }

abbrev is_text : String → Option String → Bool
is_text value none = false
is_text value (some s) = s == value

-- `Attr(name).eq(value)` on what stands under the key; an item that is not there meets no such condition.
abbrev pub has_text : String → String → Option Item → Bool
has_text name value none = false
has_text name value (some item) = is_text value (text_of name item)

-- The table answers, and what it holds under each key changes as the documentation of conditional writes says:
-- a put whose condition fails writes nothing; of a transaction all is written or nothing.
pub record IsTable {S : Type 0} (t : Table S) (contents : S → String → Option Item) : Type 0 where
  pub put_stored :
      (item : Item) (name value : String) (s : S)
      → has_text name value (contents s (key_of item)) ≡ true
      → ((t.put_item item name value s).0 ≡ none)
        × ((k : String)
            → contents (t.put_item item name value s).1 k
              ≡ (if key_of item == k then some item else contents s k))
  pub put_refused :
      (item : Item) (name value : String) (s : S)
      → has_text name value (contents s (key_of item)) ≡ false
      → ((t.put_item item name value s).0 ≡ some condition_failed)
        × ((k : String) → contents (t.put_item item name value s).1 k ≡ contents s k)
  pub transact_stored :
      (a b : Item) (s : S)
      → key_of a ≢ key_of b
      → contents s (key_of a) ≡ none
      → contents s (key_of b) ≡ none
      → ((t.transact_write_items (a ∷ b ∷ []) s).0 ≡ none)
        × ((k : String)
            → contents (t.transact_write_items (a ∷ b ∷ []) s).1 k
              ≡ (if key_of a == k then some a else if key_of b == k then some b else contents s k))
  pub transact_cancelled :
      (a b : Item) (s : S)
      → key_of a ≢ key_of b
      → (is_some (contents s (key_of a)) || is_some (contents s (key_of b))) ≡ true
      → ((t.transact_write_items (a ∷ b ∷ []) s).0
          ≡ some (cancelled (contents s (key_of a)) (contents s (key_of b))))
        × ((k : String) → contents (t.transact_write_items (a ∷ b ∷ []) s).1 k ≡ contents s k)
