-- ===== src/Models/Mandate.antt =====
-- src/trustrail/models/mandate.py
use Prim.Native.String.{String}
use cpfbuddies.Prelude.{ℕ, Bool, true, false, Option, none, some, is_some, ◌&&◌}
use cpfbuddies.Models.Money.{Money}

-- An aware datetime, as microseconds since the epoch; a `timedelta` is such a number too.
abbrev pub Timestamp : Type 0
Timestamp = ℕ

pub data MandateStatus : Type 0 where
  minted bound consumed revoked : MandateStatus

-- `a is b`
abbrev pub same_status : MandateStatus → MandateStatus → Bool
same_status minted minted = true
same_status bound bound = true
same_status consumed consumed = true
same_status revoked revoked = true
same_status _ _ = false

pub record Mandate : Type 0 where
  pub mandate_id : String
  pub principal : String
  pub agent_id : String
  pub max_amount : Money
  pub expires_at : Timestamp
  pub intent : String
  pub merchant_address : Option String
  pub basket_hash : Option String
  pub nonce : String

unfoldable pub is_bound : Mandate → Bool
is_bound m = is_some m.merchant_address && is_some m.basket_hash

pub record SignedMandate : Type 0 where
  pub mandate : Mandate
  pub digest : String
  pub signature : String

pub record MandateState : Type 0 where
  pub status : MandateStatus
  pub nonce_claimed_by : Option String

pub record MandateBinding : Type 0 where
  pub merchant_address : String
  pub basket_hash : String

pub record MandateRecord : Type 0 where
  pub signed : SignedMandate
  pub status : MandateStatus
  pub created_at : Timestamp
  pub updated_at : Timestamp

-- The property `MandateRecord.mandate_id`.
abbrev pub record_id : MandateRecord → String
record_id r = r.signed.mandate.mandate_id

-- The property `MandateRecord.principal`.
abbrev pub record_principal : MandateRecord → String
record_principal r = r.signed.mandate.principal

-- `signed or self.signed`
abbrev new_signed : Option SignedMandate → SignedMandate → SignedMandate
new_signed none old = old
new_signed (some new) old = new

unfoldable pub evolve :
    MandateRecord → MandateStatus → Timestamp → Option SignedMandate → MandateRecord
evolve r status at signed = record r {
  signed = new_signed signed r.signed;
  status = status;
  updated_at = at;
}
