-- ===== src/Marketplace/Service.antt =====
-- `MarketplaceService` of src/backend/app/marketplace/service.py
pub mod Receipts
pub mod Terms
use Prim.Native.String.{slice}
use cpfbuddies.Prelude.{
  ℕ, ◌+◌, ◌-◌, ◌*◌, String, ◌<>◌, ◌==◌, Bool, not, Option, none, some, List, [], ◌∷◌, leb,
  if◌then◌else◌,
}
use cpfbuddies.Prelude.Text.{encode, decimal}
use cpfbuddies.Errors.{
  Result, ok, err, ◌>>=◌, pure, raise, unknown_quote, expired_quote, sku_not_in_quote,
  out_of_stock_error, quote_integrity_failure, quote_already_consumed,
}
use cpfbuddies.Models.Money.{Money, xsgd, minor_units}
use cpfbuddies.Models.Amounts.{from_minor_units}
use cpfbuddies.Models.Mandate.{Timestamp}
use cpfbuddies.Signing.Libraries.{Libraries}
use cpfbuddies.Signing.Crypto.{hash_bytes}
use cpfbuddies.X402.Terms.{PaymentTerms, own_scheme}
use cpfbuddies.Marketplace.Contracts.{
  Merchant, Listing, Availability, in_stock, out_of_stock, ListingsResponse, PurchaseRequest,
  PurchaseReceipt, Reply, payment_required, bought, same_receipt,
}
use cpfbuddies.Marketplace.Catalog.{search_catalog}
use cpfbuddies.Marketplace.Repository.{
  Quotes, save, get_quote, delete_expired, save_receipt_if_absent,
}

pub record SettlementProfile : Type 0 where
  pub chain_id : ℕ
  pub network : String
  pub asset : String

-- What the service is built with. `calculate_basket_hash` of src/backend/app/integrity.py is SHA-256 of the items'
-- JSON.
pub record Shop : Type 0 where
  pub lib : Libraries
  pub calculate_basket_hash : List Listing → String
  pub merchant : Merchant
  pub settlement : SettlementProfile
  pub catalog : List Listing
  pub quote_ttl : Timestamp
  pub expired_retention : Timestamp

abbrev pub Task : Type 0 → Type 0
Task A = Quotes → Result A × Quotes

-- `next((c for c in items if c.sku == sku), None)`
unfoldable pub find_sku : String → List Listing → Option Listing
find_sku sku [] = none
find_sku sku (item ∷ items) = if item.sku == sku then some item else find_sku sku items

abbrev pub is_in_stock : Availability → Bool
is_in_stock in_stock = Bool.true
is_in_stock out_of_stock = Bool.false

module _ (shop : Shop) where
  -- `_terms_nonce`
  unfoldable pub terms_nonce : String → String → ℕ → String
  terms_nonce quote_id sku quantity =
      slice (hash_bytes shop.lib (encode (quote_id <> ":" <> sku <> ":" <> decimal quantity))) 2 34

  abbrev saved : ListingsResponse → Result Quotes → Quotes → Result ListingsResponse × Quotes
  saved response (ok s) t = (ok response, s)
  saved response (err e) t = (err e, t)

  -- `list_items`, at a time and with the id that the generator draws
  unfoldable pub list_items :
      Timestamp → String → Option String → Option Money → String → Task ListingsResponse
  list_items now new_id q max_price currency s =
      let kept = (delete_expired (now - shop.expired_retention) s).1 in
      let items = search_catalog shop.catalog q max_price currency in
      let response : ListingsResponse = record {
        quote_id = new_id;
        expires_at = now + shop.quote_ttl;
        merchant = shop.merchant;
        items = items;
        basket_hash = shop.calculate_basket_hash items;
      } in
      saved response (save response kept) kept

  -- The 402 of a purchase without proof
  abbrev pub terms_of : ListingsResponse → Listing → ℕ → Money → PaymentTerms
  terms_of quote item quantity total = record {
    scheme = own_scheme;
    network = shop.settlement.network;
    chain_id = shop.settlement.chain_id;
    asset = shop.settlement.asset;
    pay_to = quote.merchant.address;
    amount = total;
    basket_hash = quote.basket_hash;
    quote_id = quote.quote_id;
    expires_at = quote.expires_at;
    nonce = terms_nonce quote.quote_id item.sku quantity;
  }

  abbrev pub receipt_of : ListingsResponse → Listing → ℕ → Money → String → PurchaseReceipt
  receipt_of quote item quantity total payment_proof = record {
    quote_id = quote.quote_id;
    sku = item.sku;
    quantity = quantity;
    amount = total;
    basket_hash = quote.basket_hash;
    payment_proof = payment_proof;
  }

  -- `existing is None or existing == receipt`
  abbrev pub answered : PurchaseReceipt → Option PurchaseReceipt × Quotes → Result Reply × Quotes
  answered receipt (none, s) = (ok (bought receipt), s)
  answered receipt (some existing, s) =
      if same_receipt existing receipt
      then (ok (bought receipt), s)
      else (err quote_already_consumed, s)

  -- The end of `purchase`: the receipt is filed unless another one is.
  unfoldable pub file_receipt : PurchaseReceipt → Task Reply
  file_receipt receipt s = answered receipt (save_receipt_if_absent receipt s)

  -- `purchase`, once the item of the quote is found
  unfoldable pub answer_for :
      ListingsResponse → Listing → ℕ → Option String → Result Money → Task Reply
  answer_for quote item quantity payment_proof (err e) = raise e
  answer_for quote item quantity none (ok total) =
      pure (payment_required (terms_of quote item quantity total))
  answer_for quote item quantity (some proof) (ok total) =
      file_receipt (receipt_of quote item quantity total proof)

  abbrev pub sell : ListingsResponse → PurchaseRequest → Option String → Option Listing → Task Reply
  sell quote request payment_proof none = raise sku_not_in_quote
  sell quote request payment_proof (some item) =
      if not (is_in_stock item.availability)
      then raise out_of_stock_error
      else answer_for quote item request.quantity payment_proof
          (from_minor_units (minor_units item.price * request.quantity) xsgd)

  -- `purchase`, once the quote is found
  unfoldable pub purchase_from :
      Timestamp → PurchaseRequest → Option String → Option ListingsResponse → Task Reply
  purchase_from now request payment_proof none = raise unknown_quote
  purchase_from now request payment_proof (some quote) =
      if leb quote.expires_at now
      then raise expired_quote
      else if not (quote.basket_hash == shop.calculate_basket_hash quote.items)
      then raise quote_integrity_failure
      else sell quote request payment_proof (find_sku request.sku quote.items)

  unfoldable pub purchase : Timestamp → PurchaseRequest → Option String → Task Reply
  purchase now request payment_proof s =
      purchase_from now request payment_proof (get_quote request.quote_id s) s
