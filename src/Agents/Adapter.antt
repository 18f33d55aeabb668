-- ===== src/Agents/Adapter.antt =====
-- `BrowserAndEvaluator` of src/backend/app/agents/rail_adapter.py: the two agents behind the orchestrator's port. The
-- answers of the merchants and of the model are parameters.
pub mod Bound
use cpfbuddies.Prelude.{ℕ, String, Option, List}
use cpfbuddies.Errors.{Error, Result, ok, err, no_candidate_found, no_candidate}
use cpfbuddies.Models.Money.{Money}
use cpfbuddies.Models.Charge.{PurchaseCandidate}
use cpfbuddies.Marketplace.Contracts.{Listing}
use cpfbuddies.Signing.Libraries.{Libraries}
use cpfbuddies.Orchestrator.Office.{ShoppingResult}
use cpfbuddies.Agents.Evaluator.{EvaluationSecurityEvent, ModelAnswer, evaluate}
use cpfbuddies.Agents.Evidence.{to_signed_evidence}
use cpfbuddies.Agents.Browser.{CandidateSelection, Fetched, find_candidate}

-- `_candidate_for`
unfoldable pub candidate_for : CandidateSelection → PurchaseCandidate
candidate_for selection = record {
  merchant_id = selection.merchant.id;
  payout_address = selection.merchant.address;
  amount = selection.listing.price;
  basket_hash = selection.basket_hash;
  quote_id = selection.quote_id;
  sku = selection.listing.sku;
  title = selection.listing.title;
  quantity = 1;
}

-- `except NoCandidateFound`
abbrev pub translated : Error → Error
translated no_candidate_found = no_candidate
translated e = e

-- The adapter's parts: the hash of a basket, the libraries and the key of the evaluator, the pinned SKU. What the
-- merchants answer to a search, and the model on a listing, comes from outside.
pub record Agents : Type 0 where
  pub calculate_basket_hash : List Listing → String
  pub lib : Libraries
  pub sign : List ℕ → String
  pub preferred_sku : Option String
  pub fetched : String → Money → List Fetched
  pub assess : Listing → String → Money → ModelAnswer

module _ (agents : Agents) where
  abbrev pub judged :
      String
      → Money
      → String
      → List EvaluationSecurityEvent
      → Result CandidateSelection
      → Result ShoppingResult × List EvaluationSecurityEvent
  judged intent max_amount mandate_id events (err e) = (err (translated e), events)
  judged intent max_amount mandate_id events (ok selection) =
      let (findings, events') =
        evaluate (agents.assess selection.listing intent max_amount) selection.listing intent
          max_amount events in
      (
        ok (record {
          candidate = candidate_for selection;
          evaluation =
              to_signed_evidence agents.lib agents.sign findings mandate_id selection.basket_hash
                selection.listing.price;
        }),
        events',
      )

  -- `shop`, with the events that the evaluator's sink was sent so far
  unfoldable pub shop :
      String
      → Money
      → String
      → List EvaluationSecurityEvent
      → Result ShoppingResult × List EvaluationSecurityEvent
  shop intent max_amount mandate_id events = judged intent max_amount mandate_id events (
      find_candidate agents.calculate_basket_hash intent max_amount agents.preferred_sku
        (agents.fetched intent max_amount))
