-- ===== src/X402/Client.antt =====
-- `X402Client` of src/trustrail/x402/client.py: ask, pay once, ask again with the proof.
pub mod Payments
use cpfbuddies.Prelude.{
  ℕ, ◌+◌, String, Bool, false, ◌&&◌, Option, none, some, List, [], ◌∷◌, ◌++◌, eqb, leb, ltb, length,
  if◌then◌else◌,
}
use cpfbuddies.Errors.{Result, ok, err, ◌>>=◌, pure, raise, value_error, runtime_error}
use cpfbuddies.Models.Charge.{Charge}
use cpfbuddies.Models.Mandate.{Timestamp}
use cpfbuddies.X402.Terms.{PaymentTerms, PaymentProof, is_expired, assert_matches}

abbrev pub payment_required_status : ℕ
payment_required_status = 402

pub record Response : Type 0 where
  pub status_code : ℕ
  pub content : String

-- A request to the merchant, with the proof that goes into the header `X-Payment`.
pub record Post : Type 0 where
  pub url : String
  pub payload : String
  pub proof : Option PaymentProof

pub record PurchaseResult : Type 0 where
  pub status_code : ℕ
  pub body : String
  pub terms : Option PaymentTerms
  pub proof : Option PaymentProof

-- `PurchaseResult.paid`
unfoldable pub paid : PurchaseResult → Bool
paid r = elim r.proof [ none ↦ false | some proof ↦ leb 200 r.status_code && ltb r.status_code 300 ]

-- The merchant's answer to the n-th request, the parsing of a body into terms, the callable that pays
-- (its n-th call), and the clock.
pub record ClientPorts : Type 0 where
  pub post : ℕ → Post → Result Response
  pub parse_terms : String → Option PaymentTerms
  pub pay : ℕ → PaymentTerms → Result PaymentProof
  pub time : ℕ → Timestamp

-- What was sent to the merchant, and what was paid, in order.
pub record Exchange : Type 0 where
  pub posts : List Post
  pub payments : List PaymentTerms

abbrev pub Task : Type 0 → Type 0
Task A = Exchange → Result A × Exchange

-- An expression that may raise and changes nothing
unfoldable pub checked : {A : Type 0} → Result A → Task A
checked r s = (r, s)

abbrev parsed : Option PaymentTerms → Result PaymentTerms
parsed none = err value_error
parsed (some terms) = ok terms

module _ (ports : ClientPorts) where
  unfoldable pub send : Post → Task Response
  send request s =
      (ports.post (length s.posts) request, record s { posts = s.posts ++ (request ∷ []) })

  unfoldable pub settle_terms : PaymentTerms → Task PaymentProof
  settle_terms terms s =
      (ports.pay (length s.payments) terms, record s { payments = s.payments ++ (terms ∷ []) })

  -- The end of `purchase`: the request again, with the proof.
  unfoldable pub retry_with_proof :
      String → String → PaymentTerms → PaymentProof → Task PurchaseResult
  retry_with_proof url payload terms proof =
      send (record { url = url; payload = payload; proof = some proof }) >>= λ second.
      if eqb second.status_code payment_required_status
      then raise runtime_error
      else pure (record {
        status_code = second.status_code;
        body = second.content;
        terms = some terms;
        proof = some proof;
      })

  -- The merchant's terms, which are checked against the charge before they are paid.
  unfoldable pub pay_and_retry : String → String → Charge → String → Task PurchaseResult
  pay_and_retry url payload charge content =
      checked (parsed (ports.parse_terms content)) >>= λ terms.
      checked (assert_matches terms charge) >>= λ matched.
      if is_expired terms (ports.time 0)
      then raise value_error
      else settle_terms terms >>= λ proof. retry_with_proof url payload terms proof

  unfoldable pub purchase : String → String → Charge → Task PurchaseResult
  purchase url payload charge =
      send (record { url = url; payload = payload; proof = none }) >>= λ first.
      if eqb first.status_code payment_required_status
      then pay_and_retry url payload charge first.content
      else pure (record {
        status_code = first.status_code;
        body = first.content;
        terms = none;
        proof = none;
      })
