-- ===== src/Settlement/Chain/Reverts.antt =====
-- Reverts, from src/trustrail/settlement/chain/registry_client.py: which error of the contract a node's exception
-- stands for.
use Prim.Native.Char.{code}
use Prim.Native.String.{slice, len, count, find}
use cpfbuddies.Prelude.{
  ℕ, zero, suc, String, ◌<>◌, ◌==◌, Bool, true, false, ◌&&◌, ◌||◌, Option, none, some, List, [],
  ◌∷◌, leb, if◌then◌else◌,
}
use cpfbuddies.Prelude.Dict.{Dict, get, set, values}
use cpfbuddies.Prelude.Text.{lower, to_hex, encode}
use cpfbuddies.Models.Verdict.{ReasonCode}
use cpfbuddies.Signing.Crypto.{take}
use cpfbuddies.Signing.Libraries.{Libraries}
use cpfbuddies.Settlement.Chain.Node.{Fault, Payload}

-- An entry of the contract's ABI: its `type`, its `name` and the types of its inputs
pub record AbiItem : Type 0 where
  pub kind : String
  pub name : String
  pub inputs : List String

pub record RevertInfo : Type 0 where
  pub error_name : Option String
  pub reason_code : Option ReasonCode

-- `ERROR_TO_REASON.get(name)`
unfoldable pub error_to_reason : String → Option ReasonCode
error_to_reason name =
    if name == "MandateIsRevoked"
    then some ReasonCode.mandate_revoked
    else if name == "MandateExpired"
    then some ReasonCode.mandate_expired
    else if name == "MandateAlreadyConsumed"
    then some ReasonCode.mandate_already_consumed
    else if name == "MerchantMismatch"
    then some ReasonCode.merchant_binding_mismatch
    else if name == "AmountExceedsCap"
    then some ReasonCode.charge_over_cap
    else none

-- `",".join(inputs)`
comma_separated : List String → String
comma_separated [] = ""
comma_separated (x ∷ []) = x
comma_separated (x ∷ y ∷ xs) = x <> "," <> comma_separated (y ∷ xs)

module _ (lib : Libraries) where
  -- `"0x" + keccak(text=signature)[:4].hex()`
  unfoldable pub selector_of : AbiItem → String
  unfolding comma_separated
  selector_of item =
      "0x"
      <> to_hex
          (take 4 (lib.keccak (encode (item.name <> "(" <> comma_separated item.inputs <> ")"))))

  selectors_from : List AbiItem → Dict String → Dict String
  selectors_from [] selectors = selectors
  selectors_from (item ∷ abi) selectors =
      selectors_from abi
        (if item.kind == "error" then set (selector_of item) item.name selectors else selectors)

  -- `_error_selectors`
  unfoldable pub error_selectors : List AbiItem → Dict String
  unfolding selectors_from
  error_selectors abi = selectors_from abi []

-- The text that a payload stands for, if it is one, bytes or not
abbrev as_text : Payload → Option String
as_text (Payload.text payload) = some payload
as_text (Payload.raw payload) = some ("0x" <> to_hex payload)
as_text _ = none

abbrev nested : Payload → Payload
nested (Payload.object field) = field "data"
nested payload = payload

abbrev first_ten : Option String → Option String
first_ten none = none
first_ten (some payload) =
    if slice payload 0 2 == "0x" && leb 10 (count payload)
    then some (lower (slice payload 0 10))
    else none

-- `_selector_from`
unfoldable pub selector_from : Payload → Option String
selector_from payload = first_ten (as_text (nested payload))

-- `_rpc_error_data`, of the attribute `rpc_response`
unfoldable pub rpc_error_data : Payload → Payload
rpc_error_data (Payload.object response) = elim (response "error") [
  | Payload.object inner ↦ inner "data"
  | _ ↦ Payload.nothing
]
rpc_error_data _ = Payload.nothing

abbrev is_hex : ℕ → Bool
is_hex c = (leb b'0' c && leb c b'9') || (leb b'a' c && leb c b'f') || (leb b'A' c && leb c b'F')

-- The text begins with n hexadecimal digits.
begins_hex : ℕ → String → Bool
begins_hex zero s = true
begins_hex (suc n) String.[] = false
begins_hex (suc n) (String.◌∷◌ c s) = let rest = begins_hex n s in is_hex (code c) && rest

-- `_HEX_PAYLOAD.search(text)`: the first `0x` that at least eight hexadecimal digits follow, and eight of them
hex_payload : String → Option String
unfolding begins_hex
hex_payload String.[] = none
hex_payload (String.◌∷◌ c s) =
    let rest = hex_payload s in
    let here = String.◌∷◌ c s in
    if slice here 0 2 == "0x" && begins_hex 8 (slice here 2 10)
    then some (slice here 0 10)
    else rest

abbrev or_else : Option String → Option String → Option String
or_else none other = other
or_else (some x) other = some x

abbrev lowered : Option String → Option String
lowered none = none
lowered (some x) = some (lower x)

-- `_revert_selector`
unfoldable pub revert_selector : Fault → Option String
unfolding hex_payload
revert_selector error = or_else (selector_from error.payload) (
    or_else (selector_from (rpc_error_data error.rpc_response)) (lowered (hex_payload error.shown)))

-- `f"{name}(" in message`
abbrev is_called_in : String → String → Bool
is_called_in name message = leb (find message (name <> "(")) (len message)

first_called : List String → String → Option String
first_called [] message = none
first_called (name ∷ names) message =
    let rest = first_called names message in if is_called_in name message then some name else rest

-- `_error_name_in_message`, where the client's selectors are given
unfoldable pub error_name_in_message : Dict String → Fault → Option String
unfolding first_called
error_name_in_message selectors error =
    first_called (values selectors) (if error.message == "" then error.shown else error.message)

-- `self._selectors.get(selector) if selector else None`
abbrev named_by : Dict String → Option String → Option String
named_by selectors none = none
named_by selectors (some selector) = get selector selectors

abbrev info_of : Option String → RevertInfo
info_of none = record { error_name = none; reason_code = none }
info_of (some name) = record { error_name = some name; reason_code = error_to_reason name }

-- `_decode_revert`
unfoldable pub decode_revert : Dict String → Fault → RevertInfo
decode_revert selectors error =
    info_of
      (or_else (named_by selectors (revert_selector error)) (error_name_in_message selectors error))
