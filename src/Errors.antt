-- ===== src/Errors.antt =====
-- src/trustrail/errors.py and the two errors of src/trustrail/orchestrator/purchase.py; a call returns,
-- or raises one of them.

use cpfbuddies.Prelude.{Bool, true, false}
pub mod Success

pub data Error : Type 0 where
  mandate_not_found mandate_already_exists nonce_already_claimed mandate_status_conflict : Error
  mandate_registration_failed illegal_binding review_not_found review_not_pending : Error
  -- a Pydantic model that refuses its fields
  validation_error : Error
  -- of the marketplace: `out_of_stock_error` is its `OutOfStock`
  unknown_quote expired_quote sku_not_in_quote out_of_stock_error : Error
  quote_integrity_failure quote_already_consumed : Error
  -- of the browser agent
  no_candidate_found : Error
  -- of the shopping agents, as the orchestrator knows them
  no_candidate : Error
  -- `botocore.exceptions.ClientError`, and what a missing key or index raises
  client_error key_error index_error : Error
  -- of the rails and of the purchase protocol
  unsettleable_currency unsupported_requirements quoted_too_much terms_mismatch : Error
  -- `httpx.HTTPError`, and Python's own
  transport_error value_error overflow_error runtime_error : Error

-- `isinstance(error, ValueError)`, for the errors that a rail may see
unfoldable pub is_value_error : Error → Bool
is_value_error validation_error = true
is_value_error unsettleable_currency = true
is_value_error unsupported_requirements = true
is_value_error quoted_too_much = true
is_value_error terms_mismatch = true
is_value_error value_error = true
is_value_error _ = false

-- `isinstance(error, httpx.HTTPError)`
unfoldable pub is_http_error : Error → Bool
is_http_error transport_error = true
is_http_error _ = false

pub data Result (A : Type 0) : Type 0 where
  ok : A → Result A
  err : Error → Result A

-- A call works on a state: it may raise, and what it wrote before that stays written.
infixl 5 ◌>>=◌ ◌>>◌
unfoldable pub ◌>>=◌ :
    {S A B : Type 0} → (S → Result A × S) → (A → S → Result B × S) → S → Result B × S
◌>>=◌ m f s = let (r, s') = m s in elim r [ ok a ↦ f a s' | err e ↦ (err e, s') ]

abbrev pub ◌>>◌ : {S A B : Type 0} → (S → Result A × S) → (S → Result B × S) → S → Result B × S
m >> k = m >>= λ _. k

unfoldable pub pure : {S A : Type 0} → A → S → Result A × S
pure a s = (ok a, s)

unfoldable pub raise : {S A : Type 0} → Error → S → Result A × S
raise e s = (err e, s)
