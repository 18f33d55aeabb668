-- ===== src/Settlement/Chain/Node.antt =====
-- What the chain client calls outside this repository: a node behind web3, the ABI encoding and the coding of
-- transactions; and the errors that these raise.
pub mod Rules
use cpfbuddies.Prelude.{ℕ, ◌+◌, String, Option, List, [], ◌∷◌, ◌++◌}

-- A value in what a node reports: a text, bytes, or an object with the fields that `get` gives.
pub data Payload : Type 0 where
  nothing other : Payload
  text : String → Payload
  raw : List ℕ → Payload
  object : (String → Payload) → Payload

-- `isinstance(error, ContractLogicError)`, `isinstance(error, ValueError)`, or neither
pub data Kind : Type 0 where
  contract_logic_error value_error other_error : Kind

-- An exception, with the attributes that are read from it: `data`, `rpc_response`, `message`, and its text
pub record Fault : Type 0 where
  pub kind : Kind
  pub payload : Payload
  pub rpc_response : Payload
  pub message : String
  pub shown : String

pub data Answer (A : Type 0) : Type 0 where
  returned : A → Answer A
  raised : Fault → Answer A

-- A call of a function of the contract: its name and its arguments, where an address is a text
pub data Call : Type 0 where
  spend : List ℕ → String → ℕ → List ℕ → Call
  register_mandate : List ℕ → String → String → String → ℕ → ℕ → List ℕ → Call
  revoke : List ℕ → Call

-- A type-2 transaction. Its type is 2, its value 0 and its access list empty.
pub record Transaction : Type 0 where
  pub chain_id : ℕ
  pub nonce : ℕ
  pub to : String
  pub input : List ℕ
  pub max_priority_fee_per_gas : ℕ
  pub max_fee_per_gas : ℕ
  pub gas : ℕ

pub record SignedTransaction : Type 0 where
  pub transaction : Transaction
  pub y_parity : ℕ
  pub r : ℕ
  pub s : ℕ

pub record Receipt : Type 0 where
  pub status : ℕ
  pub block_number : ℕ
  pub gas_used : ℕ

-- Which state of the chain a call is simulated on: `"latest"`, or a block
pub data BlockIdentifier : Type 0 where
  latest : BlockIdentifier
  block : ℕ → BlockIdentifier

-- The n-th question to the node is answered by the environment. `base_fee` is `baseFeePerGas` of the latest
-- block, if it has one; `send_raw` and `wait` speak of the text `tx_hash.hex()`.
pub record Node : Type 0 where
  pub base_fee : ℕ → Answer (Option ℕ)
  pub max_priority_fee : ℕ → Answer ℕ
  pub transaction_count : ℕ → String → Answer ℕ
  pub estimate_gas : ℕ → Call → Answer ℕ
  pub call : ℕ → Call → BlockIdentifier → Answer (Unit {0})
  pub send_raw : ℕ → SignedTransaction → Answer String
  pub wait : ℕ → String → Answer Receipt
  pub to_checksum_address : String → String
  pub encode_abi : Call → List ℕ
  pub transaction_hash : Transaction → List ℕ

-- What was asked for so far, and the transactions that were broadcast, in order. A broadcast that the node
-- refuses is one too.
pub record Chain : Type 0 where
  pub asked : ℕ
  pub sent : List SignedTransaction

-- An action on the chain: it may raise.
abbrev pub Action : Type 0 → Type 0
Action A = Chain → Answer A × Chain

infixl 5 ◌then◌
unfoldable pub ◌then◌ : {A B : Type 0} → Action A → (A → Action B) → Action B
m then f = λ s. let (r, s') = m s in elim r [ returned a ↦ f a s' | raised e ↦ (raised e, s') ]

unfoldable pub return : {A : Type 0} → A → Action A
return a s = (returned a, s)

unfoldable pub throw : {A : Type 0} → Fault → Action A
throw e s = (raised e, s)

-- A question to the node
unfoldable pub ask : {A : Type 0} → (ℕ → Answer A) → Action A
ask question s = (question s.asked, record s { asked = s.asked + 1 })

-- `try m except Exception as e: handler(e)`
unfoldable pub attempt : {A B : Type 0} → Action A → (A → Action B) → (Fault → Action B) → Action B
attempt m f handler s =
    let (r, s') = m s in elim r [ returned a ↦ f a s' | raised e ↦ handler e s' ]

-- `w3.eth.send_raw_transaction`
unfoldable pub broadcast : Node → SignedTransaction → Action String
broadcast node tx s =
    (node.send_raw s.asked tx, record s { asked = s.asked + 1; sent = s.sent ++ (tx ∷ []) })
