-- ===== src/Stores/Mandates/Later.antt =====
-- What may become of a stored mandate (src/trustrail/models/mandate.py).
use cpfbuddies.Prelude.{String, ◌≡◌, refl, ◌∙◌, ◌≢◌, ◌⊎◌, inr, Option, none, arith}
use cpfbuddies.Models.Mandate.{
  MandateRecord, MandateStatus, minted, bound, consumed, revoked, record_id,
}
use cpfbuddies.Stores.Mandates.{nonce_of}

-- The edges of the lifecycle, and staying put.
abbrev pub MovesTo : MandateStatus → MandateStatus → Type 0
MovesTo minted b = Unit
MovesTo bound b = b ≢ minted
MovesTo consumed b = b ≡ consumed
MovesTo revoked b = b ≡ revoked

-- A field that may be filled in once.
abbrev pub IsFilled : Option String → Option String → Type 0
IsFilled old new = (old ≡ none) ⊎ (new ≡ old)

MovesTo-refl : (a : MandateStatus) → MovesTo a a
MovesTo-refl minted = tt
MovesTo-refl bound = λ e. cc
MovesTo-refl consumed = refl
MovesTo-refl revoked = refl

MovesTo-trans : (a b c : MandateStatus) → MovesTo a b → MovesTo b c → MovesTo a c
MovesTo-trans minted b c p q = tt
MovesTo-trans bound minted c p q = absurd (p refl)
MovesTo-trans bound bound c p q = q
MovesTo-trans bound consumed c p q = λ e. cc
MovesTo-trans bound revoked c p q = λ e. cc
MovesTo-trans consumed b c p q = ground arith
MovesTo-trans revoked b c p q = ground arith

IsFilled-trans : (a b c : Option String) → IsFilled a b → IsFilled b c → IsFilled a c
IsFilled-trans a b c p q = ground arith

-- What may become of a stored mandate: its cap, its expiry and all that the buyer agreed to stay.
pub record Later (r r' : MandateRecord) : Type 0 where
  pub id : record_id r' ≡ record_id r
  pub principal : r'.signed.mandate.principal ≡ r.signed.mandate.principal
  pub agent : r'.signed.mandate.agent_id ≡ r.signed.mandate.agent_id
  pub cap : r'.signed.mandate.max_amount ≡ r.signed.mandate.max_amount
  pub expiry : r'.signed.mandate.expires_at ≡ r.signed.mandate.expires_at
  pub intent : r'.signed.mandate.intent ≡ r.signed.mandate.intent
  pub nonce : nonce_of r' ≡ nonce_of r
  pub created : r'.created_at ≡ r.created_at
  pub merchant : IsFilled r.signed.mandate.merchant_address r'.signed.mandate.merchant_address
  pub basket : IsFilled r.signed.mandate.basket_hash r'.signed.mandate.basket_hash
  pub status : MovesTo r.status r'.status

pub Later-refl : (r : MandateRecord) → Later r r
Later-refl r = record {
  id = refl;
  principal = refl;
  agent = refl;
  cap = refl;
  expiry = refl;
  intent = refl;
  nonce = refl;
  created = refl;
  merchant = inr refl;
  basket = inr refl;
  status = MovesTo-refl r.status;
}

pub Later-trans : (a b c : MandateRecord) → Later a b → Later b c → Later a c
Later-trans a b c p q = record {
  id = q.id ∙ p.id;
  principal = q.principal ∙ p.principal;
  agent = q.agent ∙ p.agent;
  cap = q.cap ∙ p.cap;
  expiry = q.expiry ∙ p.expiry;
  intent = q.intent ∙ p.intent;
  nonce = q.nonce ∙ p.nonce;
  created = q.created ∙ p.created;
  merchant = IsFilled-trans _ _ _ p.merchant q.merchant;
  basket = IsFilled-trans _ _ _ p.basket q.basket;
  status = MovesTo-trans a.status b.status c.status p.status q.status;
}
