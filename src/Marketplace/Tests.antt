-- ===== src/Marketplace/Tests.antt =====
-- Runs of the marketplace.
use cpfbuddies.Prelude.{◌≡◌, refl, none, some, [], ◌∷◌}
use cpfbuddies.Prelude.Dict.{get, set}
use cpfbuddies.Errors.{ok, pure}
use cpfbuddies.Models.Money.{minor_units}
use cpfbuddies.Models.Amounts.{
  from_minor_units, parse_decimal, normalise_amount, format_amount, padded, without_zeros,
  two_places,
}
use cpfbuddies.Prelude.Text.{decimal, lower}
use cpfbuddies.X402.Terms.{PaymentTerms}
use cpfbuddies.Marketplace.Contracts.{
  Listing, in_stock, ListingsResponse, PurchaseRequest, PurchaseReceipt, payment_required, bought,
  same_receipt,
}
use cpfbuddies.Marketplace.Catalog.{search_catalog, strip, or_empty}
use cpfbuddies.Marketplace.Catalog.Matches.{
  exact_or, admitted, item_of_sku, search_catalog-admitted,
}
use cpfbuddies.Marketplace.Repository.{Quotes, get_quote, save_receipt_if_absent, delete_expired}
use cpfbuddies.Marketplace.Repository.Expiry.{HasUniqueKeys, unexpired, get_quote-delete_expired}
use cpfbuddies.Marketplace.Service.{
  Shop, find_sku, file_receipt, answer_for, purchase_from, purchase, terms_of,
}
use cpfbuddies.Agents.Browser.{CandidateSelection}
use cpfbuddies.Marketplace.Service.Receipts.{purchase-purchase}
use cpfbuddies.Marketplace.Service.Terms.{IsAsked, purchase-IsAsked}
use cpfbuddies.Samples.{toy, shop_address, basket_1, four_twenty, five, charge_1}

abbrev toothbrush : Listing
toothbrush = record {
  sku = "TB-SOFT-2PK";
  title = "Soft bristle toothbrush, 2 pack";
  description = "Two gentle soft-bristle toothbrushes for everyday dental care.";
  price = four_twenty;
  availability = in_stock;
  seller_id = "seller-dental-sg";
  seller_account_age_days = 1825;
  seller_rating_count = 4812;
  seller_rating = some "4.8";
}

abbrev shop : Shop
shop = record {
  lib = toy;
  calculate_basket_hash = λ items. basket_1;
  merchant = record { id = "mrc_stub_sg"; address = shop_address; name = "Demo" };
  settlement = record { chain_id = 43113; network = "avalanche-fuji"; asset = shop_address };
  catalog = toothbrush ∷ [];
  quote_ttl = 600_000_000;
  expired_retention = 3_600_000_000;
}

abbrev quote : ListingsResponse
quote = record {
  quote_id = "q_1";
  expires_at = 2_000;
  merchant = shop.merchant;
  items = toothbrush ∷ [];
  basket_hash = basket_1;
}

abbrev stored : Quotes
stored = record { quotes = ("q_1", quote) ∷ []; receipts = [] }

abbrev request : PurchaseRequest
request = record { sku = "TB-SOFT-2PK"; quantity = 1; quote_id = "q_1" }

abbrev receipt : PurchaseReceipt
receipt = record {
  quote_id = "q_1";
  sku = "TB-SOFT-2PK";
  quantity = 1;
  amount = four_twenty;
  basket_hash = basket_1;
  payment_proof = charge_1;
}

search_catalog-admitted_example :
    search_catalog (toothbrush ∷ []) (some " Toothbrush ") (some five) "XSGD"
    ≡ exact_or
        (some five)
        (admitted (strip (lower (or_empty (some " Toothbrush ")))) (some five) (toothbrush ∷ []))
        (item_of_sku (strip (lower (or_empty (some " Toothbrush ")))) (toothbrush ∷ []))
search_catalog-admitted_example =
    search_catalog-admitted (toothbrush ∷ []) (some " Toothbrush ") (some five) "XSGD"

buys : (purchase shop 1000 request (some charge_1) stored).0 ≡ ok (bought receipt)
unfolding purchase purchase_from get_quote get set find_sku file_receipt save_receipt_if_absent
    answer_for from_minor_units parse_decimal normalise_amount format_amount padded without_zeros
    two_places decimal minor_units
buys = refl

-- The same request again, with the same proof, and once more
purchase-purchase_example : receipt ≡ receipt
unfolding purchase purchase_from get_quote get set find_sku file_receipt save_receipt_if_absent
    answer_for from_minor_units parse_decimal normalise_amount format_amount padded without_zeros
    two_places decimal minor_units same_receipt pure
purchase-purchase_example =
    purchase-purchase shop 1000 1500 request request (some charge_1) (some charge_1)
      ((1200, request, none) ∷ []) stored receipt receipt buys refl refl

abbrev asked : PaymentTerms
asked = terms_of shop quote toothbrush 1 four_twenty

asks : (purchase shop 1000 request none stored).0 ≡ ok (payment_required asked)
unfolding purchase purchase_from get_quote get set find_sku answer_for pure from_minor_units
    parse_decimal normalise_amount format_amount padded without_zeros two_places decimal minor_units
asks = refl

purchase-IsAsked_example :
    (found : ListingsResponse) × (get_quote "q_1" stored ≡ some found)
    × IsAsked shop 1000 request found asked
purchase-IsAsked_example = purchase-IsAsked shop 1000 request none stored asked asks

-- What a buyer's agents choose from the quote.
abbrev chosen : CandidateSelection
chosen = record {
  quote_id = quote.quote_id;
  expires_at = quote.expires_at;
  merchant = quote.merchant;
  listing = toothbrush;
  basket_hash = quote.basket_hash;
}

-- One quote that has expired for long, and one that has not
abbrev two_quotes : Quotes
two_quotes = record {
  quotes = ("q_1", quote) ∷ ("q_2", record quote { quote_id = "q_2"; expires_at = 9_000 }) ∷ [];
  receipts = [];
}

two_quotes-HasUniqueKeys : HasUniqueKeys two_quotes.quotes
unfolding get
two_quotes-HasUniqueKeys = (refl, (refl, tt))

get_quote-delete_expired_example :
    (get_quote "q_2" (delete_expired 5_000 two_quotes).1
      ≡ unexpired 5_000 (get_quote "q_2" two_quotes))
    × HasUniqueKeys (delete_expired 5_000 two_quotes).1.quotes
get_quote-delete_expired_example =
    get_quote-delete_expired 5_000 "q_2" two_quotes two_quotes-HasUniqueKeys
