-- ===== src/Marketplace/Repository.antt =====
-- `InMemoryQuoteRepository` of src/backend/app/marketplace/repository.py
pub mod Expiry
use cpfbuddies.Prelude.{
  ℕ, String, Option, none, some, List, [], ◌∷◌, leb, length, is_some, if◌then◌else◌,
}
use cpfbuddies.Prelude.Dict.{Dict, get, set, remove}
use cpfbuddies.Errors.{Result, ok, err, value_error}
use cpfbuddies.Models.Mandate.{Timestamp}
use cpfbuddies.Marketplace.Contracts.{ListingsResponse, PurchaseReceipt}

pub record Quotes : Type 0 where
  pub quotes : Dict ListingsResponse
  pub receipts : Dict PurchaseReceipt

unfoldable pub save : ListingsResponse → Quotes → Result Quotes
save quote s =
    if is_some (get quote.quote_id s.quotes)
    then err value_error
    else ok (record s { quotes = set quote.quote_id quote s.quotes })

unfoldable pub get_quote : String → Quotes → Option ListingsResponse
get_quote quote_id s = get quote_id s.quotes

-- The ids of the quotes that expired by a time
unfoldable expired_ids : Timestamp → Dict ListingsResponse → List String
expired_ids before [] = []
expired_ids before ((quote_id, quote) ∷ rest) =
    let others = expired_ids before rest in
    if leb quote.expires_at before then quote_id ∷ others else others

-- The loop that pops each of them from both dicts
unfoldable pop_all : List String → Quotes → Quotes
pop_all [] s = s
pop_all (quote_id ∷ ids) s =
    pop_all ids
      (record { quotes = remove quote_id s.quotes; receipts = remove quote_id s.receipts })

unfoldable pub delete_expired : Timestamp → Quotes → ℕ × Quotes
unfolding expired_ids pop_all
delete_expired before s = let ids = expired_ids before s.quotes in (length ids, pop_all ids s)

abbrev pub filed :
    Option PurchaseReceipt → PurchaseReceipt → Quotes → Option PurchaseReceipt × Quotes
filed (some existing) receipt s = (some existing, s)
filed none receipt s = (none, record s { receipts = set receipt.quote_id receipt s.receipts })

unfoldable pub save_receipt_if_absent : PurchaseReceipt → Quotes → Option PurchaseReceipt × Quotes
save_receipt_if_absent receipt s = filed (get receipt.quote_id s.receipts) receipt s
