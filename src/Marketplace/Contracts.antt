-- ===== src/Marketplace/Contracts.antt =====
-- The shapes of src/backend/app/contracts.py that the marketplace speaks in.
use cpfbuddies.Prelude.{ℕ, String, Bool, ◌&&◌, ◌==◌, eqb, Option, List}
use cpfbuddies.Models.Money.{Money, same_money}
use cpfbuddies.Models.Mandate.{Timestamp}
use cpfbuddies.X402.Terms.{PaymentTerms}

pub record Merchant : Type 0 where
  pub id : String
  pub address : String
  pub name : String

pub data Availability : Type 0 where
  in_stock out_of_stock : Availability

-- `seller_rating` is a float, which is only tested for its presence: its text stands for it.
pub record Listing : Type 0 where
  pub sku : String
  pub title : String
  pub description : String
  pub price : Money
  pub availability : Availability
  pub seller_id : String
  pub seller_account_age_days : ℕ
  pub seller_rating_count : ℕ
  pub seller_rating : Option String

pub record ListingsResponse : Type 0 where
  pub quote_id : String
  pub expires_at : Timestamp
  pub merchant : Merchant
  pub items : List Listing
  pub basket_hash : String

-- The credential and the signature of a request are not read by the marketplace.
pub record PurchaseRequest : Type 0 where
  pub sku : String
  pub quantity : ℕ
  pub quote_id : String

pub record PurchaseReceipt : Type 0 where
  pub quote_id : String
  pub sku : String
  pub quantity : ℕ
  pub amount : Money
  pub basket_hash : String
  pub payment_proof : String

-- `PaymentRequired | PurchaseReceipt`
pub data Reply : Type 0 where
  payment_required : PaymentTerms → Reply
  bought : PurchaseReceipt → Reply

-- `==` on receipts
unfoldable pub same_receipt : PurchaseReceipt → PurchaseReceipt → Bool
same_receipt a b =
    a.quote_id == b.quote_id
    && a.sku == b.sku
    && eqb a.quantity b.quantity
    && same_money a.amount b.amount
    && a.basket_hash == b.basket_hash
    && a.payment_proof == b.payment_proof
