-- ===== src/Settlement/Chain/Transactions.antt =====
-- src/trustrail/settlement/chain/transactions.py: building, signing and sending a transaction.
use cpfbuddies.Prelude.{
  ℕ, ◌+◌, ◌*◌, ◌/◌, String, not, ◌||◌, Option, none, some, List, length, eqb, ltb, if◌then◌else◌,
}
use cpfbuddies.Signing.Crypto.{to_bytes, take, drop, big_endian, last_byte, recovery_id}
use cpfbuddies.Settlement.Chain.Node.{
  Fault, Kind, Payload, Answer, returned, raised, Transaction, SignedTransaction, Node, Action,
  ◌then◌, return, ask,
}

-- What signs for the client: `Signer` of src/trustrail/ports.py
pub record Signer : Type 0 where
  pub address : String
  pub sign : List ℕ → String

abbrev pub min_priority_fee_wei : ℕ
min_priority_fee_wei = 1_000_000_000

abbrev pub base_fee_headroom : ℕ
base_fee_headroom = 4

-- `int(estimate * GAS_BUFFER)`; the product with the float 1.25 is exact below 2 ^ 50.
abbrev pub with_buffer : ℕ → ℕ
with_buffer estimate = estimate * 5 / 4

-- `max(a, b)`
abbrev pub larger : ℕ → ℕ → ℕ
larger a b = if ltb a b then b else a

-- `latest.get("baseFeePerGas", 0) or 0`
abbrev pub or_zero : Option ℕ → ℕ
or_zero none = 0
or_zero (some n) = n

abbrev refusal : Fault
refusal = record {
  kind = Kind.value_error;
  payload = Payload.nothing;
  rpc_response = Payload.nothing;
  message = "";
  shown = "not a signature";
}

-- `(y_parity, r, s)`
pub record Vrs : Type 0 where
  pub y_parity : ℕ
  pub r : ℕ
  pub s : ℕ

unfoldable pub to_y_parity_vrs : String → Answer Vrs
to_y_parity_vrs signature =
    let bytes = to_bytes signature in
    let y_parity = recovery_id (last_byte (drop 64 bytes)) in
    if not (eqb (length bytes) 65)
    then raised refusal
    else if not (eqb y_parity 0 || eqb y_parity 1)
    then raised refusal
    else returned (record {
      y_parity = y_parity;
      r = big_endian 0 (take 32 bytes);
      s = big_endian 0 (take 32 (drop 32 bytes));
    })

-- The transaction with the signature's three numbers
abbrev pub with_vrs : Transaction → Answer Vrs → Answer SignedTransaction
with_vrs tx (returned vrs) =
    returned (record { transaction = tx; y_parity = vrs.y_parity; r = vrs.r; s = vrs.s })
with_vrs tx (raised e) = raised e

module _ (node : Node) where
  -- `build_transaction`, with the gas that the client has settled on
  unfoldable pub build_transaction : String → String → List ℕ → ℕ → ℕ → Action Transaction
  build_transaction sender to input chain_id gas = ask node.base_fee then λ base_fee.
      ask node.max_priority_fee then λ suggested.
      ask (λ n. node.transaction_count n (node.to_checksum_address sender)) then λ nonce.
      let priority_fee = larger suggested min_priority_fee_wei in
      return (record {
        chain_id = chain_id;
        nonce = nonce;
        to = node.to_checksum_address to;
        input = input;
        max_priority_fee_per_gas = priority_fee;
        max_fee_per_gas = or_zero base_fee * base_fee_headroom + priority_fee;
        gas = gas;
      })

  -- `sign_transaction`, short of the encoding
  unfoldable pub sign_transaction : Transaction → Signer → Action SignedTransaction
  sign_transaction tx signer s =
      (with_vrs tx (to_y_parity_vrs (signer.sign (node.transaction_hash tx))), s)
