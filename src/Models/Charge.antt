-- ===== src/Models/Charge.antt =====
-- src/trustrail/models/charge.py and src/trustrail/models/candidate.py
use Prim.Native.String.{String}
use cpfbuddies.Prelude.{ℕ}
use cpfbuddies.Models.Money.{Money}

pub record Charge : Type 0 where
  pub charge_id : String
  pub mandate_id : String
  pub merchant_id : String
  pub payout_address : String
  pub amount : Money
  pub basket_hash : String
  pub quote_id : String
  pub sku : String
  pub title : String
  pub quantity : ℕ

-- What the Browser Agent selected: all of it is claimed by the listing.
pub record PurchaseCandidate : Type 0 where
  pub merchant_id : String
  pub payout_address : String
  pub amount : Money
  pub basket_hash : String
  pub quote_id : String
  pub sku : String
  pub title : String
  pub quantity : ℕ
