-- ===== src/Settlement/Rails/Onchain.antt =====
-- `X402OnchainRail` of src/trustrail/settlement/rails/x402_onchain.py
pub mod Settles
use cpfbuddies.Prelude.{ℕ, String, not, Option, none, some, ltb, if◌then◌else◌}
use cpfbuddies.Models.Money.{xsgd, same_currency, minor_units}
use cpfbuddies.Models.Audit.{SettlementOutcome, settled, refused, error}
use cpfbuddies.Models.Verdict.{ReasonCode}
use cpfbuddies.Settlement.Models.{SettlementInstruction, SettlementReceipt}
use cpfbuddies.Settlement.Chain.Node.{
  Fault, Kind, Payload, Answer, Action, ◌then◌, return, throw, ask, attempt,
}
use cpfbuddies.Settlement.Chain.Reverts.{RevertInfo}
use cpfbuddies.Settlement.Chain.Registry.{Client, ChainResult, is_confirmed, spend}
use cpfbuddies.Settlement.Chain.Explorer.{transaction_url}

abbrev rail_name : String
rail_name = "x402-onchain"

-- The two reads of `TokenClient`, in src/trustrail/settlement/chain/token.py, that the preflight makes: the n-th
-- question to the node for a balance, and for an allowance to the contract
pub record TokenClient : Type 0 where
  pub balance_of : ℕ → String → Answer ℕ
  pub allowance : ℕ → String → String → Answer ℕ

-- `UnsettleableCurrency`
abbrev pub unsettleable_currency : Fault
unsettleable_currency = record {
  kind = Kind.value_error;
  payload = Payload.nothing;
  rpc_response = Payload.nothing;
  message = "";
  shown = "cannot settle onchain; only XSGD can";
}

abbrev pub receipt :
    SettlementInstruction
    → SettlementOutcome
    → Option String
    → Option String
    → Option ReasonCode
    → SettlementReceipt
receipt i status reference explorer_url reason_code = record {
  mandate_id = i.mandate_id;
  rail = rail_name;
  status = status;
  reference = reference;
  explorer_url = explorer_url;
  reason_code = reason_code;
}

-- `revert.reason_code if revert else None`
abbrev reason_of : Option RevertInfo → Option ReasonCode
reason_of none = none
reason_of (some revert) = revert.reason_code

-- Why the buyer's side would fail: the text is not modelled.
pub data FundingProblem : Type 0 where
  short_balance short_allowance : FundingProblem

module _ (client : Client) where
  -- `_funding_problem`, with a token client
  unfoldable pub short_of : TokenClient → SettlementInstruction → Action (Option FundingProblem)
  short_of t i =
      let needed = minor_units i.amount in
      ask (λ n. t.balance_of n i.principal) then λ balance.
      if ltb balance needed
      then return (some FundingProblem.short_balance)
      else ask
          (λ n. t.allowance n i.principal (client.node.to_checksum_address client.mandate_registry))
        then λ allowance.
            if ltb allowance needed
            then return (some FundingProblem.short_allowance)
            else return none

module _ (client : Client) (chain_id : ℕ) (token : Option TokenClient) where
  abbrev explorer_of : Option String → Option String
  explorer_of none = none
  explorer_of (some tx_hash) = transaction_url chain_id tx_hash

  -- The receipt of a transaction that was broadcast, or refused
  unfoldable pub receipt_of : SettlementInstruction → ChainResult → SettlementReceipt
  receipt_of i result =
      let explorer = explorer_of result.tx_hash in
      if is_confirmed result
      then receipt i settled result.tx_hash explorer none
      else receipt i refused result.tx_hash explorer (reason_of result.revert)

  -- And without: there is no preflight.
  unfoldable pub funding_problem : SettlementInstruction → Action (Option FundingProblem)
  funding_problem i = elim token [ none ↦ return none | some t ↦ short_of client t i ]

  -- The end of `settle`: the spend, and what came of it
  unfoldable pub spend_for : SettlementInstruction → Action SettlementReceipt
  spend_for i =
      attempt (spend client i.mandate_id i.payout_address (minor_units i.amount) i.basket_hash)
        (λ result. return (receipt_of i result)) (λ e. return (receipt i error none none none))

  -- What `settle` does once the preflight has answered
  abbrev pub after_preflight :
      SettlementInstruction → Option FundingProblem → Action SettlementReceipt
  after_preflight i none = spend_for i
  after_preflight i (some problem) = return (receipt i refused none none none)

  unfoldable pub settle : SettlementInstruction → Action SettlementReceipt
  settle i =
      if not (same_currency i.amount.currency xsgd)
      then throw unsettleable_currency
      else funding_problem i then after_preflight i
