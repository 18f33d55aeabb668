-- ===== src/Agents/Browser.antt =====
-- `BrowserAgent` of src/backend/app/agents/browser.py. The merchants' answers are parameters.
pub mod Offers
pub mod Every
pub mod Choice
use Prim.Native.Nat.{Ordering}
use Prim.Native.String.{String, count, compare}
use cpfbuddies.Prelude.{
  ℕ, Bool, true, false, not, ◌&&◌, ◌||◌, ◌==◌, Option, none, some, List, [], ◌∷◌, ◌++◌, eqb, leb,
  ltb, if◌then◌else◌,
}
use cpfbuddies.Errors.{Result, ok, err, value_error, no_candidate_found}
use cpfbuddies.Models.Money.{Money, minor_units}
use cpfbuddies.Models.Mandate.{Timestamp}
use cpfbuddies.Marketplace.Contracts.{
  Merchant, Listing, Availability, in_stock, out_of_stock, ListingsResponse,
}
use cpfbuddies.Marketplace.Catalog.{strip}

-- `CandidateSelection`
pub record CandidateSelection : Type 0 where
  pub quote_id : String
  pub expires_at : Timestamp
  pub merchant : Merchant
  pub listing : Listing
  pub basket_hash : String

-- What came of asking one merchant, and when it did: `none` where the request failed, was late, or was refused by the
-- model
abbrev pub Fetched : Type 0
Fetched = Timestamp × Option ListingsResponse

abbrev pub Candidate : Type 0
Candidate = ListingsResponse × Listing

abbrev pub is_in_stock : Availability → Bool
is_in_stock in_stock = true
is_in_stock out_of_stock = false

-- The items in stock of one response
unfoldable pub stocked : ListingsResponse → List Listing → List Candidate
stocked response [] = []
stocked response (item ∷ items) =
    let rest = stocked response items in
    if is_in_stock item.availability then (response, item) ∷ rest else rest

-- `candidates`
unfoldable pub candidates_of : List ListingsResponse → List Candidate
candidates_of [] = []
candidates_of (r ∷ rs) = stocked r r.items ++ candidates_of rs

-- The key that `min` compares by: the price, the merchant's id, the SKU
unfoldable pub before : Candidate → Candidate → Bool
before (r, item) (r', item') =
    ltb (minor_units item.price) (minor_units item'.price)
    || (eqb (minor_units item.price) (minor_units item'.price)
        && (elim (compare r.merchant.id r'.merchant.id) [
          | Ordering.lt ↦ true
          | Ordering.gt ↦ false
          | Ordering.eq ↦ elim (compare item.sku item'.sku) [ Ordering.lt ↦ true | _ ↦ false ]
        ]))

-- `min(candidates, key=…)`, where `best` is the first of the least so far
unfoldable pub least : Candidate → List Candidate → Candidate
least best [] = best
least best (c ∷ cs) = least (if before c best then c else best) cs

unfoldable pub with_sku : String → List Candidate → Option Candidate
with_sku sku [] = none
with_sku sku (c ∷ cs) = if c.1.sku == sku then some c else with_sku sku cs

abbrev pub found : Option Candidate → Result Candidate
found none = err no_candidate_found
found (some c) = ok c

-- `_select`
unfoldable pub select : List Candidate → Option String → Result Candidate
select candidates (some preferred_sku) = found (with_sku preferred_sku candidates)
select [] none = err no_candidate_found
select (c ∷ cs) none = ok (least c cs)

abbrev pub unless_empty : List ListingsResponse → Result (List ListingsResponse)
unless_empty [] = err no_candidate_found
unless_empty (r ∷ rs) = ok (r ∷ rs)

module _ (calculate_basket_hash : List Listing → String) where
  -- `fetch`, once a merchant has answered
  abbrev pub accepted : Timestamp → Option ListingsResponse → List ListingsResponse
  accepted now none = []
  accepted now (some response) =
      if leb response.expires_at now
      then []
      else if not (response.basket_hash == calculate_basket_hash response.items)
      then []
      else response ∷ []

  -- The responses of `_fetch_all`
  unfoldable pub responses_of : List Fetched → List ListingsResponse
  responses_of [] = []
  responses_of ((now, answer) ∷ rest) = accepted now answer ++ responses_of rest

  -- `_fetch_all`
  unfoldable pub fetch_all : List Fetched → Result (List ListingsResponse)
  fetch_all fetched = unless_empty (responses_of fetched)

  abbrev pub selection_of : Result Candidate → Result CandidateSelection
  selection_of (err e) = err e
  selection_of (ok (response, selected)) = ok (record {
    quote_id = response.quote_id;
    expires_at = response.expires_at;
    merchant = response.merchant;
    listing = selected;
    basket_hash = response.basket_hash;
  })

  abbrev pub chosen_from :
      Option String → Result (List ListingsResponse) → Result CandidateSelection
  chosen_from preferred_sku (err e) = err e
  chosen_from preferred_sku (ok responses) =
      selection_of (select (candidates_of responses) preferred_sku)

  -- `find_candidate`, where the merchants have answered
  unfoldable pub find_candidate :
      String → Money → Option String → List Fetched → Result CandidateSelection
  find_candidate intent max_price preferred_sku fetched =
      let normalized_intent = strip intent in
      if normalized_intent == "" || ltb 200 (count normalized_intent)
      then err value_error
      else if eqb (minor_units max_price) 0
      then err value_error
      else chosen_from preferred_sku (fetch_all fetched)
