-- ===== src/Stores/Dynamo/Control.antt =====
-- `DynamoKillSwitchStore` of src/trustrail/stores/dynamo.py
use cpfbuddies.Prelude.{String, Bool, true, false, Option, none, some, [], ◌∷◌}
use cpfbuddies.Prelude.Text.{lower}
use cpfbuddies.Prelude.Dict
use cpfbuddies.Errors.{Result, ok, err, key_error}
use cpfbuddies.Stores.KillSwitch.{global_scope}
use cpfbuddies.Stores.Dynamo.Table.{Item, Attribute}

-- A table with the partition key `scope`: `get_item`, and `put_item`, which may raise.
pub record ControlTable (S : Type 0) : Type 0 where
  pub get_item : String → S → Option Item
  pub put_item : Item → S → Result (Unit {0}) × S

-- The truth of an attribute in Python
abbrev is_truthy : Option Attribute → Result Bool
is_truthy none = err key_error
is_truthy (some (Attribute.flag b)) = ok b
is_truthy (some (Attribute.text String.[])) = ok false
is_truthy (some (Attribute.text (String.◌∷◌ c s))) = ok true
is_truthy (some (Attribute.number n)) = ok true

-- `bool(item and item["active"])`
unfoldable pub is_set : Option Item → Result Bool
is_set none = ok false
is_set (some item) = is_truthy (Dict.get "active" item)

abbrev or_else : Result Bool → Result Bool → Result Bool
or_else (ok true) rest = ok true
or_else (ok false) rest = rest
or_else (err e) rest = err e

module _ {S : Type 0} (table : ControlTable S) where
  unfoldable pub read_scope : String → S → Result Bool
  read_scope scope s = is_set (table.get_item scope s)

  unfoldable pub write_scope : String → Bool → S → Result (Unit {0}) × S
  write_scope scope active s =
      table.put_item (("scope", Attribute.text scope) ∷ ("active", Attribute.flag active) ∷ []) s

  unfoldable pub is_active : String → S → Result Bool
  is_active principal s = or_else (read_scope global_scope s) (read_scope (lower principal) s)

  unfoldable pub set_global : Bool → S → Result (Unit {0}) × S
  set_global active s = write_scope global_scope active s

  unfoldable pub set_for_principal : String → Bool → S → Result (Unit {0}) × S
  set_for_principal principal active s = write_scope (lower principal) active s
