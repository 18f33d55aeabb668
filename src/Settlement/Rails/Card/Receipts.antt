-- ===== src/Settlement/Rails/Card/Receipts.antt =====
-- What the card rail answers.
use cpfbuddies.Prelude.{◌≡◌, false, ◌⊎◌, none, some, ◌==◌, String, ◌<◌, List, [], ◌∷◌, ◌++◌, length}
use cpfbuddies.Errors.{Result, ok, err, is_value_error, is_http_error}
use cpfbuddies.Models.Audit.{settled, refused, error}
use cpfbuddies.Settlement.Models.{SettlementInstruction, SettlementReceipt}
use cpfbuddies.Settlement.Rails.Card.{CardPorts, CardState, Post, Response}

module _ (ports : CardPorts) where
  -- The last request to the card API carries a signed authorisation, and its answer, which is no error, names the
  -- transaction.
  pub record IsIssued (s : CardState) (tx : String) : Type 0 where
    pub before : List Post
    pub last : Post
    pub posted : s.posts ≡ before ++ (last ∷ [])
    pub authorised : (header : String) × (last.header ≡ some header)
    pub response : Response
    pub answered : ports.post (length before) last ≡ ok response
    pub no_error : response.status_code < 400
    pub named : ports.issued_tx response.content ≡ ok (some tx)

  -- The receipt is the instruction's: a settled one names the transaction that the card API named, and the others name
  -- none.
  abbrev pub Reports : SettlementInstruction → CardState → SettlementReceipt → Type 0
  Reports i s r =
      (r.mandate_id ≡ i.mandate_id)
      × (((r.status ≡ settled)
            × ((tx : String) × (r.reference ≡ some tx) × ((tx == "") ≡ false) × IsIssued s tx))
          ⊎ ((r.status ≡ refused) × (r.reference ≡ none))
          ⊎ ((r.status ≡ error) × (r.reference ≡ none)))

  -- What is returned is such a receipt.
  abbrev Returned : SettlementInstruction → Result SettlementReceipt × CardState → Type 0
  Returned i p = elim p.0 [ ok r ↦ Reports i p.1 r | err e ↦ Unit ]

  -- And what is raised is neither a `ValueError` nor an `HTTPError`.
  abbrev pub Answered : SettlementInstruction → Result SettlementReceipt × CardState → Type 0
  Answered i p = elim p.0 [
    | ok r ↦ Reports i p.1 r
    | err e ↦ (is_value_error e ≡ false) × (is_http_error e ≡ false)
  ]
