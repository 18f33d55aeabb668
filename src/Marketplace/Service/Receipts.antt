-- ===== src/Marketplace/Service/Receipts.antt =====
-- A quote is bought at most once.
use cpfbuddies.Prelude.{
  if_post, ℕ, ◌≡◌, refl, sym, subst, ◌∙◌, ap, inl, inr, String, not, true, ◌==◌, eq_iff, Option,
  none, some, List, [], ◌∷◌, leb, arith, Bool-cases, if◌then◌else◌,
}
use cpfbuddies.Prelude.Dict.{get, set, get-set, get-set_self}
use cpfbuddies.Errors.{Result, ok, err, pure, raise}
use cpfbuddies.Models.Money.{Money}
use cpfbuddies.Models.Mandate.{Timestamp}
use cpfbuddies.Verifier.Authority.{same_money_iff}
use cpfbuddies.Marketplace.Contracts.{
  Listing, ListingsResponse, PurchaseRequest, PurchaseReceipt, Reply, bought, same_receipt,
}
use cpfbuddies.Marketplace.Repository.{Quotes, get_quote, filed, save_receipt_if_absent}
use cpfbuddies.Marketplace.Service.{
  Shop, find_sku, is_in_stock, answered, file_receipt, answer_for, sell, purchase_from, purchase,
  receipt_of,
}

same_receipt-eq : (a b : PurchaseReceipt) → same_receipt a b ≡ true → a ≡ b
unfolding same_receipt
same_receipt-eq a b h = ground (
  arith,
  eq_iff a.quote_id b.quote_id,
  eq_iff a.sku b.sku,
  same_money_iff a.amount b.amount,
  eq_iff a.basket_hash b.basket_hash,
  eq_iff a.payment_proof b.payment_proof,
)

-- The receipts of before are those of after, but for one that may have been filed under its quote, where none was;
-- and a receipt that is answered is the one that is filed.
abbrev pub Files : Quotes → Result Reply × Quotes → Type 0
Files s p =
    ((id : String) (r : PurchaseReceipt)
      → get id s.receipts ≡ some r
      → get id p.1.receipts ≡ some r)
    × (p.1.quotes ≡ s.quotes)
    × ((r : PurchaseReceipt) → p.0 ≡ ok (bought r) → get r.quote_id p.1.receipts ≡ some r)

bought-eq : (a b : PurchaseReceipt) → ◌≡◌ {A = Result Reply} (ok (bought a)) (ok (bought b)) → a ≡ b
bought-eq a b h = ground arith

some-eq : (a b : PurchaseReceipt) → some a ≡ some b → a ≡ b
some-eq a b h = ground arith

kept_at :
    (receipt : PurchaseReceipt) (id : String) (s : Quotes) (r : PurchaseReceipt)
    → get receipt.quote_id s.receipts ≡ none
    → get id s.receipts ≡ some r
    → (if receipt.quote_id == id then some receipt else get id s.receipts) ≡ some r
kept_at receipt id s r h e = elim (Bool-cases (receipt.quote_id == id)) [
  | inl same ↦
      let found : none ≡ some r =
        sym h ∙ ap (λ k. get k s.receipts) ((eq_iff receipt.quote_id id).0 same) ∙ e in
      ground arith
  | inr other ↦ rw other e
]

module _ (shop : Shop) where
  answered-Files :
      (receipt : PurchaseReceipt) (s : Quotes) (existing : Option PurchaseReceipt)
      → get receipt.quote_id s.receipts ≡ existing
      → Files s (answered shop receipt (filed existing receipt s))
  answered-Files receipt s none h = (
    λ id r e. get-set receipt.quote_id id receipt s.receipts ∙ kept_at receipt id s r h e,
    refl,
    λ r e.
        subst (λ x. get x.quote_id (set receipt.quote_id receipt s.receipts) ≡ some x)
          (bought-eq receipt r e) (get-set_self receipt.quote_id receipt s.receipts),
  )
  answered-Files receipt s (some other) h = elim (Bool-cases (same_receipt other receipt)) [
    | inl same ↦ rw same (
      λ id r e. e,
      refl,
      λ r e.
          subst (λ x. get x.quote_id s.receipts ≡ some x) (bought-eq receipt r e)
            (h ∙ ap some (same_receipt-eq other receipt same)),
    )
    | inr differs ↦ rw differs (λ id r e. e, refl, λ r e. ground arith)
  ]

  file_receipt-Files :
      (receipt : PurchaseReceipt) (s : Quotes) → Files s (file_receipt shop receipt s)
  unfolding file_receipt save_receipt_if_absent
  file_receipt-Files receipt s = answered-Files receipt s _ refl

  -- Nothing is filed where nothing is bought.
  answer_for-Files :
      (quote : ListingsResponse) (item : Listing) (quantity : ℕ) (payment_proof : Option String)
      (total : Result Money) (s : Quotes)
      → Files s (answer_for shop quote item quantity payment_proof total s)
  unfolding answer_for pure raise
  answer_for-Files quote item quantity payment_proof (err e) s =
      (λ id r e. e, refl, λ r e. ground arith)
  answer_for-Files quote item quantity none (ok total) s = (λ id r e. e, refl, λ r e. ground arith)
  answer_for-Files quote item quantity (some proof) (ok total) s =
      file_receipt-Files (receipt_of shop quote item quantity total proof) s

  sell-Files :
      (quote : ListingsResponse) (request : PurchaseRequest) (payment_proof : Option String)
      (item : Option Listing) (s : Quotes)
      → Files s (sell shop quote request payment_proof item s)
  unfolding raise
  sell-Files quote request payment_proof none s = (λ id r e. e, refl, λ r e. ground arith)
  sell-Files quote request payment_proof (some item) s =
      if_post (Files s) (not (is_in_stock item.availability)) _ _ s
        (λ b. (λ id r e. e, refl, λ r e. ground arith))
        (λ b. answer_for-Files quote item request.quantity payment_proof _ s)

  purchase_from-Files :
      (now : Timestamp) (request : PurchaseRequest) (payment_proof : Option String)
      (quote : Option ListingsResponse) (s : Quotes)
      → Files s (purchase_from shop now request payment_proof quote s)
  unfolding purchase_from raise
  purchase_from-Files now request payment_proof none s = (λ id r e. e, refl, λ r e. ground arith)
  purchase_from-Files now request payment_proof (some quote) s =
      if_post (Files s) (leb quote.expires_at now) _ _ s
        (λ b. (λ id r e. e, refl, λ r e. ground arith))
        (λ b.
          if_post (Files s) (not (quote.basket_hash == shop.calculate_basket_hash quote.items)) _ _
            s (λ b. (λ id r e. e, refl, λ r e. ground arith))
            (λ b. sell-Files quote request payment_proof (find_sku request.sku quote.items) s))

  purchase-Files :
      (now : Timestamp) (request : PurchaseRequest) (payment_proof : Option String) (s : Quotes)
      → Files s (purchase shop now request payment_proof s)
  unfolding purchase
  purchase-Files now request payment_proof s =
      purchase_from-Files now request payment_proof (get_quote request.quote_id s) s

  -- Purchases, one after the other
  abbrev pub purchases : List (Timestamp × PurchaseRequest × Option String) → Quotes → Quotes
  purchases [] s = s
  purchases ((now, request, payment_proof) ∷ rest) s =
      purchases rest (purchase shop now request payment_proof s).1

  purchases-kept :
      (calls : List (Timestamp × PurchaseRequest × Option String)) (s : Quotes) (id : String)
      (r : PurchaseReceipt)
      → get id s.receipts ≡ some r
      → get id (purchases calls s).receipts ≡ some r
  purchases-kept [] s id r h = h
  purchases-kept ((now, request, payment_proof) ∷ rest) s id r h =
      purchases-kept rest _ id r ((purchase-Files now request payment_proof s).0 id r h)

  -- A quote is bought at most once: after a purchase that returned a receipt, and any purchases in between, a
  -- purchase that returns a receipt for the same quote returns that one.
  pub purchase-purchase :
      (now later : Timestamp) (request again : PurchaseRequest) (proof proof' : Option String)
      (calls : List (Timestamp × PurchaseRequest × Option String)) (s : Quotes)
      (r r' : PurchaseReceipt)
      → (purchase shop now request proof s).0 ≡ ok (bought r)
      → (purchase shop later again proof' (purchases calls (purchase shop now request proof s).1)).0
        ≡ ok (bought r')
      → r'.quote_id ≡ r.quote_id
      → r' ≡ r
  purchase-purchase now later request again proof proof' calls s r r' first second same =
      let t : Quotes = (purchase shop now request proof s).1 in
      let (kept, unchanged, filed_first) = purchase-Files now request proof s in
      let (kept', unchanged', filed_second) =
        purchase-Files later again proof' (purchases calls t) in
      let old : get r.quote_id (purchase shop later again proof' (purchases calls t)).1.receipts
          ≡ some r =
        kept' _ r (purchases-kept calls t _ r (filed_first r first)) in
      let last : Quotes = (purchase shop later again proof' (purchases calls t)).1 in
      let new = filed_second r' second in
      some-eq r' r (sym new ∙ ap (λ id. get id last.receipts) same ∙ old)
