-- ===== src/Settlement/Rails/Card.antt =====
-- `StraitsXCardRail` of src/trustrail/settlement/rails/straitsx_card.py: buys a one-time card for the approved
-- amount. The card API, the JSON and base64 codings and the signer are parameters.
pub mod Signed
pub mod Receipts
use cpfbuddies.Prelude.{
  ℕ, ◌+◌, ◌/◌, ◌%◌, String, Bool, true, false, not, ◌&&◌, ◌||◌, ◌==◌, Option, none, some, List, [],
  ◌∷◌, ◌++◌, eqb, leb, length, if◌then◌else◌,
}
use cpfbuddies.Prelude.Integers.{ℤ}
use cpfbuddies.Errors.{
  Error, Result, ok, err, ◌>>=◌, pure, raise, is_value_error, is_http_error, value_error,
}
use cpfbuddies.Models.Money.{Money, xsgd, same_currency, minor_units}
use cpfbuddies.Models.Mandate.{Timestamp}
use cpfbuddies.Models.Audit.{SettlementOutcome, settled, refused, error}
use cpfbuddies.Signing.Libraries.{Libraries}
use cpfbuddies.Signing.Eip3009.{TransferAuthorization, create_authorization, sign_authorization}
use cpfbuddies.Settlement.Models.{SettlementInstruction, SettlementReceipt}
use cpfbuddies.X402.PublicSpec.{
  PaymentRequirements, PaymentRequired, asked_units, token_domain, assert_supported,
  assert_affordable, first_supported, parse_requirements, decode_requirements_header,
}

abbrev rail_name : String
rail_name = "straitsx-card"

abbrev pub minor_units_per_sgd : ℕ
minor_units_per_sgd = 1_000_000

abbrev pub min_card_sgd : ℕ
min_card_sgd = 5

abbrev pub max_card_sgd : ℕ
max_card_sgd = 30

abbrev payment_required_status : ℕ
payment_required_status = 402

-- A request to the card API; `header` is the text of `PAYMENT-SIGNATURE`.
pub record Post : Type 0 where
  pub amount_sgd : ℕ
  pub cardholder_name : String
  pub header : Option String

pub record Response : Type 0 where
  pub status_code : ℕ
  pub requirements_header : Option String
  pub content : String

-- What the rail calls. The n-th request's answer, the n-th nonce and the n-th reading of the clock are those
-- of the environment. `issued_tx` is `settlement_tx` of the JSON of a response, or what reading it raises.
pub record CardPorts : Type 0 where
  pub lib : Libraries
  pub address : String
  pub sign : List ℕ → String
  pub cardholder_name : String
  pub post : ℕ → Post → Result Response
  pub time : ℕ → Timestamp
  pub random : ℕ → String
  pub b64decode : String → Option String
  pub parse : String → Option PaymentRequired
  pub signature_header : PaymentRequirements → TransferAuthorization → String → String
  pub issued_tx : String → Result (Option String)

-- What was sent to the card API, and the authorisations that the signer was given, in order.
pub record CardState : Type 0 where
  pub posts : List Post
  pub signed : List TransferAuthorization
  pub reads : ℕ

abbrev pub Task : Type 0 → Type 0
Task A = CardState → Result A × CardState

-- An expression that may raise and changes nothing
unfoldable pub checked : {A : Type 0} → Result A → Task A
checked r s = (r, s)

-- `_card_value`
unfoldable pub card_value : SettlementInstruction → Result ℕ
card_value i =
    let whole = minor_units i.amount / minor_units_per_sgd in
    let remainder = minor_units i.amount % minor_units_per_sgd in
    if not (eqb remainder 0)
    then err value_error
    else if not (leb min_card_sgd whole && leb whole max_card_sgd)
    then err value_error
    else ok whole

-- `_receipt`
unfoldable pub card_receipt :
    SettlementInstruction → SettlementOutcome → Option String → SettlementReceipt
card_receipt i status reference = record {
  mandate_id = i.mandate_id;
  rail = rail_name;
  status = status;
  reference = reference;
  explorer_url = none;
  reason_code = none;
}

-- `_issued_receipt`, from the `settlement_tx` of the card API's answer
unfoldable pub issued_receipt : SettlementInstruction → Option String → Result SettlementReceipt
issued_receipt i none = err value_error
issued_receipt i (some tx) =
    if tx == "" then err value_error else ok (card_receipt i settled (some tx))

-- `if header`: the header is there, and is not empty
abbrev given : Option String → Option String
given none = none
given (some header) = if header == "" then none else some header

module _ (ports : CardPorts) where
  unfoldable pub send : Post → Task Response
  send request s =
      (ports.post (length s.posts) request, record s { posts = s.posts ++ (request ∷ []) })

  -- The call of the signer at the end of `_authorise`
  unfoldable pub sign : PaymentRequirements → TransferAuthorization → Task String
  sign requirements a s = (
    sign_authorization ports.lib a (token_domain requirements) ports.address ports.sign,
    record s { signed = s.signed ++ (a ∷ []) },
  )

  -- `_requirements`
  unfoldable pub requirements_of : Response → Result PaymentRequirements
  requirements_of response =
      let required : Result PaymentRequired = elim (given response.requirements_header) [
        | some header ↦ decode_requirements_header ports.b64decode ports.parse header
        | none ↦ parse_requirements ports.parse response.content
      ] in
      elim required [ err e ↦ err e | ok r ↦ first_supported r ]

  -- `_authorise`
  unfoldable pub authorise : PaymentRequirements → Timestamp → Task String
  authorise requirements now = checked (asked_units requirements) >>= λ value. (λ s.
      let a =
        create_authorization ports.address requirements.pay_to value now
          (ports.random (length s.signed)) in
      (sign requirements a >>= λ signature. pure (ports.signature_header requirements a signature))
        s)

  -- `self._clock.now()`
  unfoldable pub now : Task Timestamp
  now s = (ok (ports.time s.reads), record s { reads = s.reads + 1 })

  -- The end of `_settle`: the request again, with the signed authorisation.
  unfoldable pub issue : SettlementInstruction → ℕ → String → Task SettlementReceipt
  issue i card_sgd header =
      send (record {
        amount_sgd = card_sgd;
        cardholder_name = ports.cardholder_name;
        header = some header;
      })
      >>= λ issued.
          if leb 400 issued.status_code
          then raise value_error
          else checked (ports.issued_tx issued.content) >>= λ tx. checked (issued_receipt i tx)

  -- The middle of `_settle`: what is asked for, and whether to sign it.
  unfoldable pub authorised : SettlementInstruction → Response → Task String
  authorised i challenge = checked (requirements_of challenge) >>= λ requirements.
      checked (assert_supported requirements) >>= λ supported.
      checked (assert_affordable requirements i.amount) >>= λ affordable.
      now >>= λ t. authorise requirements t

  -- `_settle`, once the value of the card is known
  unfoldable pub buy : SettlementInstruction → ℕ → Task SettlementReceipt
  buy i card_sgd =
      send
        (record { amount_sgd = card_sgd; cardholder_name = ports.cardholder_name; header = none })
      >>= λ challenge.
          if not (eqb challenge.status_code payment_required_status)
          then raise value_error
          else authorised i challenge >>= λ header. issue i card_sgd header

  -- `_settle`
  unfoldable pub settle_card : SettlementInstruction → Task SettlementReceipt
  settle_card i =
      if not (same_currency i.amount.currency xsgd)
      then raise value_error
      else checked (card_value i) >>= λ card_sgd. buy i card_sgd

  -- The two `except` clauses of `settle`
  abbrev pub caught :
      SettlementInstruction
      → Result SettlementReceipt × CardState
      → Result SettlementReceipt × CardState
  caught i (ok receipt, s) = (ok receipt, s)
  caught i (err e, s) =
      if is_value_error e
      then (ok (card_receipt i refused none), s)
      else if is_http_error e
      then (ok (card_receipt i error none), s)
      else (err e, s)

  unfoldable pub settle : SettlementInstruction → Task SettlementReceipt
  settle i s = caught i (settle_card i s)
