-- ===== src/Settlement/Chain/Registrar.antt =====
-- `ChainMandateRegistrar` of src/trustrail/settlement/chain/registrar.py
use cpfbuddies.Prelude.{ℕ, ◌/◌, String, Option, none, some, if◌then◌else◌}
use cpfbuddies.Models.Mandate.{Timestamp}
use cpfbuddies.Settlement.Chain.Node.{Fault, Kind, Payload, Action, ◌then◌, return, throw}
use cpfbuddies.Settlement.Chain.Registry.{Client, is_confirmed, register_mandate, revoke_onchain}
use cpfbuddies.Settlement.Chain.Explorer.{hex_prefixed}

-- `MandateRegistrationFailed`
abbrev registration_failed : Fault
registration_failed = record {
  kind = Kind.other_error;
  payload = Payload.nothing;
  rpc_response = Payload.nothing;
  message = "";
  shown = "could not register mandate onchain";
}

-- `_hex`, on the hash that a confirmed transaction has
abbrev hash_of : Option String → Option String
hash_of none = none
hash_of (some tx_hash) = some (hex_prefixed tx_hash)

module _ (client : Client) where
  unfoldable pub register :
      String → String → String → ℕ → Timestamp → String → Action (Option String)
  register mandate_id principal agent_address cap_minor_units expires_at digest =
      register_mandate client mandate_id principal agent_address none cap_minor_units
        (expires_at / 1_000_000) digest
      then λ result.
          if is_confirmed result then return (hash_of result.tx_hash) else throw registration_failed

  unfoldable pub revoke : String → Action (Option String)
  revoke mandate_id = revoke_onchain client mandate_id then λ result.
      if is_confirmed result then return (hash_of result.tx_hash) else return none
