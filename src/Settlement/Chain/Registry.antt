-- ===== src/Settlement/Chain/Registry.antt =====
-- `MandateRegistryClient` of src/trustrail/settlement/chain/registry_client.py
pub mod Broadcasts
use cpfbuddies.Prelude.{ℕ, String, Bool, true, false, Option, none, some, eqb, ◌||◌, if◌then◌else◌}
use cpfbuddies.Prelude.Dict.{Dict}
use cpfbuddies.Signing.Crypto.{to_bytes}
use cpfbuddies.Signing.Eip712.{zero_address}
use cpfbuddies.Settlement.Chain.Node.{
  Fault, Kind, Answer, Call, Node, Action, Receipt, BlockIdentifier, latest, block, ◌then◌, return,
  throw, ask, attempt, broadcast,
}
use cpfbuddies.Settlement.Chain.Transactions.{
  Signer, with_buffer, build_transaction, sign_transaction,
}
use cpfbuddies.Settlement.Chain.Reverts.{RevertInfo, decode_revert}

pub data Status : Type 0 where
  confirmed reverted : Status

-- What a transaction came to. `tx_hash` is `none` where the node refused to broadcast it.
pub record ChainResult : Type 0 where
  pub tx_hash : Option String
  pub status : Status
  pub block_number : ℕ
  pub gas_used : ℕ
  pub revert : Option RevertInfo

-- `ChainResult.confirmed`
abbrev pub is_confirmed : ChainResult → Bool
is_confirmed r = elim r.status [ confirmed ↦ true | reverted ↦ false ]

pub record Client : Type 0 where
  pub node : Node
  pub signer : Signer
  pub mandate_registry : String
  pub chain_id : ℕ
  pub selectors : Dict String

abbrev unknown : RevertInfo
unknown = record { error_name = none; reason_code = none }

-- `revert or RevertInfo(error_name=None)`
abbrev or_unknown : Option RevertInfo → RevertInfo
or_unknown none = unknown
or_unknown (some r) = r

abbrev pub is_contract_logic_error : Kind → Bool
is_contract_logic_error Kind.contract_logic_error = true
is_contract_logic_error _ = false

abbrev pub is_value_error : Kind → Bool
is_value_error Kind.value_error = true
is_value_error _ = false

module _ (client : Client) where
  abbrev pub caller : String
  caller = client.node.to_checksum_address client.signer.address

  -- `_simulate`
  unfoldable pub simulate : Call → BlockIdentifier → Action (Option RevertInfo)
  simulate call at =
      attempt (ask (λ n. client.node.call n call at)) (λ done. return none)
        (λ error.
          if is_contract_logic_error error.kind
          then return (some (decode_revert client.selectors error))
          else return (some unknown))

  -- `_estimate_or_default`
  unfoldable pub estimate_or_default : Call → Action ℕ
  estimate_or_default call =
      attempt (ask (λ n. client.node.estimate_gas n call))
        (λ estimate. return (with_buffer estimate))
        (λ error.
          if is_contract_logic_error error.kind || is_value_error error.kind
          then return 200_000
          else throw error)

  -- The end of `_send`, for a receipt
  unfoldable pub report : Call → String → Receipt → Action ChainResult
  report call tx_hash receipt =
      if eqb receipt.status 1
      then return (record {
        tx_hash = some tx_hash;
        status = confirmed;
        block_number = receipt.block_number;
        gas_used = receipt.gas_used;
        revert = none;
      })
      else simulate call (block receipt.block_number) then λ revert. return (record {
        tx_hash = some tx_hash;
        status = reverted;
        block_number = receipt.block_number;
        gas_used = receipt.gas_used;
        revert = some (or_unknown revert);
      })

  -- What `_send` makes of a node that refuses to broadcast
  abbrev pub refused_broadcast : Fault → Action ChainResult
  refused_broadcast error =
      let revert : RevertInfo = decode_revert client.selectors error in
      elim revert.error_name [
        | none ↦ throw error
        | some name ↦ return (record {
          tx_hash = none;
          status = reverted;
          block_number = 0;
          gas_used = 0;
          revert = some revert;
        })
      ]

  -- `_send`
  unfoldable pub send_call : Call → Action ChainResult
  send_call call = estimate_or_default call then λ gas.
      build_transaction client.node caller client.mandate_registry (client.node.encode_abi call)
        client.chain_id gas
      then λ transaction. sign_transaction client.node transaction client.signer then λ signed.
          attempt (broadcast client.node signed)
            (λ tx_hash.
              ask (λ n. client.node.wait n tx_hash) then λ receipt. report call tx_hash receipt)
            refused_broadcast

  -- `_spend_call`
  abbrev pub spend_call : String → String → ℕ → String → Call
  spend_call mandate_id merchant amount basket_hash =
      Call.spend (to_bytes mandate_id) (client.node.to_checksum_address merchant) amount
        (to_bytes basket_hash)

  unfoldable pub preflight_spend : String → String → ℕ → String → Action (Option RevertInfo)
  preflight_spend mandate_id merchant amount basket_hash =
      simulate (spend_call mandate_id merchant amount basket_hash) latest

  unfoldable pub spend : String → String → ℕ → String → Action ChainResult
  spend mandate_id merchant amount basket_hash =
      send_call (spend_call mandate_id merchant amount basket_hash)

  abbrev merchant_or_zero : Option String → String
  merchant_or_zero none = zero_address
  merchant_or_zero (some merchant) = client.node.to_checksum_address merchant

  unfoldable pub register_mandate :
      String → String → String → Option String → ℕ → ℕ → String → Action ChainResult
  register_mandate mandate_id principal agent merchant cap expires_at mandate_digest = send_call (
      Call.register_mandate (to_bytes mandate_id) (client.node.to_checksum_address principal)
        (client.node.to_checksum_address agent) (merchant_or_zero merchant) cap expires_at
        (to_bytes mandate_digest))

  unfoldable pub revoke_onchain : String → Action ChainResult
  revoke_onchain mandate_id = send_call (Call.revoke (to_bytes mandate_id))
