-- ===== src/Marketplace/Service/Terms.antt =====
-- What the marketplace asks for, and that its buyer's client agrees.
use cpfbuddies.Prelude.{
  if_post, ◌*◌, ◌<◌, ◌≡◌, refl, subst, inl, inr, String, not, ◌==◌, eq_iff, Option, none, some, leb,
  arith, Bool-cases,
}
use cpfbuddies.Errors.{Result, ok, err, pure, raise}
use cpfbuddies.Models.Charge.{Charge}
use cpfbuddies.Models.Money.{Money, xsgd, minor_units}
use cpfbuddies.Models.Amounts.{from_minor_units}
use cpfbuddies.Models.Money.RoundTrip.{from_minor_units-value}
use cpfbuddies.Models.Mandate.{Timestamp}
use cpfbuddies.X402.Terms.{PaymentTerms}
use cpfbuddies.Marketplace.Contracts.{
  Listing, in_stock, ListingsResponse, PurchaseRequest, PurchaseReceipt, Reply, payment_required,
  bought, same_receipt,
}
use cpfbuddies.Marketplace.Repository.{Quotes, get_quote}
use cpfbuddies.Marketplace.Service.{
  Shop, is_in_stock, find_sku, answered, file_receipt, answer_for, sell, purchase_from, purchase,
}

-- The quote is live and unaltered, and the terms ask for its item's price times the quantity, for its merchant.
pub record IsAsked (shop : Shop) (now : Timestamp) (request : PurchaseRequest)
    (quote : ListingsResponse) (terms : PaymentTerms) : Type 0 where
  pub live : now < quote.expires_at
  pub unaltered : quote.basket_hash ≡ shop.calculate_basket_hash quote.items
  pub item : Listing
  pub listed : find_sku request.sku quote.items ≡ some item
  pub stocked : item.availability ≡ in_stock
  pub total : Money
  pub priced : from_minor_units (minor_units item.price * request.quantity) xsgd ≡ ok total
  pub worth : minor_units terms.amount ≡ minor_units item.price * request.quantity
  pub amount : terms.amount ≡ total
  pub scheme : terms.scheme ≡ "x402-xsgd-avalanche"
  pub network : terms.network ≡ shop.settlement.network
  pub chain : terms.chain_id ≡ shop.settlement.chain_id
  pub asset : terms.asset ≡ shop.settlement.asset
  pub payee : terms.pay_to ≡ quote.merchant.address
  pub basket : terms.basket_hash ≡ quote.basket_hash
  pub of_quote : terms.quote_id ≡ quote.quote_id
  pub until : terms.expires_at ≡ quote.expires_at

-- The terms that a reply holds, if any, are asked for.
abbrev Asks : Shop → Timestamp → PurchaseRequest → ListingsResponse → Result Reply → Type 0
Asks shop now request quote (ok (payment_required terms)) = IsAsked shop now request quote terms
Asks shop now request quote (ok (bought receipt)) = Unit
Asks shop now request quote (err e) = Unit

module _ (shop : Shop) (now : Timestamp) (request : PurchaseRequest)
    (quote : ListingsResponse) where
  answered-Asks :
      (receipt : PurchaseReceipt) (p : Option PurchaseReceipt × Quotes)
      → Asks shop now request quote (answered shop receipt p).0
  answered-Asks receipt (none, s) = tt
  answered-Asks receipt (some existing, s) = elim (Bool-cases (same_receipt existing receipt)) [
    | inl b ↦ rw b tt
    | inr b ↦ rw b tt
  ]

  answer_for-Asks :
      (item : Listing) (proof : Option String) (total : Result Money) (s : Quotes)
      → now < quote.expires_at
      → quote.basket_hash ≡ shop.calculate_basket_hash quote.items
      → find_sku request.sku quote.items ≡ some item
      → item.availability ≡ in_stock
      → from_minor_units (minor_units item.price * request.quantity) xsgd ≡ total
      → Asks shop now request quote (answer_for shop quote item request.quantity proof total s).0
  unfolding answer_for raise pure file_receipt
  answer_for-Asks item proof (err e) s live unaltered listed stocked priced = tt
  answer_for-Asks item none (ok total) s live unaltered listed stocked priced = record {
    live = live;
    unaltered = unaltered;
    item = item;
    listed = listed;
    stocked = stocked;
    total = total;
    priced = priced;
    worth =
        (from_minor_units-value (minor_units item.price * request.quantity) xsgd total priced).1;
    amount = refl;
    scheme = refl;
    network = refl;
    chain = refl;
    asset = refl;
    payee = refl;
    basket = refl;
    of_quote = refl;
    until = refl;
  }
  answer_for-Asks item (some proof) (ok total) s live unaltered listed stocked priced =
      answered-Asks _ _

  abbrev Replied : Result Reply × Quotes → Type 0
  Replied p = Asks shop now request quote p.0

  sell-Asks :
      (proof : Option String) (item : Option Listing) (s : Quotes)
      → now < quote.expires_at
      → quote.basket_hash ≡ shop.calculate_basket_hash quote.items
      → find_sku request.sku quote.items ≡ item
      → Asks shop now request quote (sell shop quote request proof item s).0
  unfolding raise
  sell-Asks proof none s live unaltered listed = tt
  sell-Asks proof (some item) s live unaltered listed =
      if_post Replied (not (is_in_stock item.availability)) _ _ s (λ b. tt)
        (λ b. answer_for-Asks item proof _ s live unaltered listed (ground arith) refl)

  purchase_from-Asks :
      (proof : Option String) (s : Quotes)
      → Asks shop now request quote (purchase_from shop now request proof (some quote) s).0
  unfolding purchase_from raise
  purchase_from-Asks proof s =
      if_post Replied (leb quote.expires_at now) _ _ s (λ b. tt)
        (λ live.
          if_post Replied (not (quote.basket_hash == shop.calculate_basket_hash quote.items)) _ _ s
            (λ b. tt)
            (λ same.
              sell-Asks proof (find_sku request.sku quote.items) s (ground arith)
                (ground (arith, eq_iff quote.basket_hash (shop.calculate_basket_hash quote.items)))
                refl))

from_quote :
    (shop : Shop) (now : Timestamp) (request : PurchaseRequest) (proof : Option String) (s : Quotes)
    (terms : PaymentTerms) (found : Option ListingsResponse)
    → (purchase_from shop now request proof found s).0 ≡ ok (payment_required terms)
    → (quote : ListingsResponse) × (found ≡ some quote) × IsAsked shop now request quote terms
unfolding purchase_from raise
from_quote shop now request proof s terms none h = ground arith
from_quote shop now request proof s terms (some quote) h = (
  quote,
  refl,
  subst (Asks shop now request quote) h (purchase_from-Asks shop now request quote proof s),
)

-- A 402 of the marketplace is for a quote that it has issued, that has not expired and was not altered, and for an
-- item of that quote in stock: it asks for the item's price times the quantity, to the minor unit, to be paid to the
-- quote's merchant until the quote expires, on the network and in the asset of the shop.
pub purchase-IsAsked :
    (shop : Shop) (now : Timestamp) (request : PurchaseRequest) (proof : Option String) (s : Quotes)
    (terms : PaymentTerms)
    → (purchase shop now request proof s).0 ≡ ok (payment_required terms)
    → (quote : ListingsResponse) × (get_quote request.quote_id s ≡ some quote)
      × IsAsked shop now request quote terms
unfolding purchase
purchase-IsAsked shop now request proof s terms h =
    from_quote shop now request proof s terms (get_quote request.quote_id s) h
