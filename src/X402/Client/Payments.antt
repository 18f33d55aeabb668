-- ===== src/X402/Client/Payments.antt =====
-- What the x402 client pays for.
use cpfbuddies.Prelude.{
  if_post, ℕ, ◌+◌, ◌≤◌, ◌<◌, ◌≡◌, refl, ◌⊎◌, inl, inr, true, false, String, List, [], ◌∷◌, ◌++◌,
  length, eqb, ap, ◌∙◌, length-append, arith, eq_iff, ◌==◌, none, some,
}
use cpfbuddies.Errors.{Result, ok, ◌>>=◌, pure, raise, value_error}
use cpfbuddies.Errors.Success.{bind_post}
use cpfbuddies.Models.Charge.{Charge}
use cpfbuddies.Models.Money.{minor_units, same_currency, gt_money}
use cpfbuddies.Verifier.Authority.{same_currency_iff, gt_money_iff}
use cpfbuddies.X402.Terms.{PaymentTerms, PaymentProof, is_expired, assert_matches, own_scheme}
use cpfbuddies.X402.Client.{
  ClientPorts, Exchange, Post, payment_required_status, checked, send, settle_terms,
  retry_with_proof, pay_and_retry, purchase,
}

-- The terms are those of the charge, and ask for no more.
pub record Agreed (terms : PaymentTerms) (charge : Charge) : Type 0 where
  pub scheme : terms.scheme ≡ own_scheme
  pub payee : terms.pay_to ≡ charge.payout_address
  pub basket : terms.basket_hash ≡ charge.basket_hash
  pub quote : terms.quote_id ≡ charge.quote_id
  pub currency : terms.amount.currency ≡ charge.amount.currency
  pub affordable : minor_units terms.amount ≤ minor_units charge.amount

assert_matches-Agreed :
    (terms : PaymentTerms) (charge : Charge)
    → assert_matches terms charge ≡ ok tt
    → Agreed terms charge
unfolding assert_matches
assert_matches-Agreed terms charge h =
    let facts : ((terms.scheme == own_scheme) ≡ true)
        × ((terms.pay_to == charge.payout_address) ≡ true)
        × ((terms.basket_hash == charge.basket_hash) ≡ true)
        × ((terms.quote_id == charge.quote_id) ≡ true)
        × (same_currency terms.amount.currency charge.amount.currency ≡ true)
        × (gt_money terms.amount charge.amount ≡ false) =
      ground arith in
    record {
      scheme = ground (arith, eq_iff terms.scheme own_scheme);
      payee = ground (arith, eq_iff terms.pay_to charge.payout_address);
      basket = ground (arith, eq_iff terms.basket_hash charge.basket_hash);
      quote = ground (arith, eq_iff terms.quote_id charge.quote_id);
      currency = ground (arith, same_currency_iff terms.amount.currency charge.amount.currency);
      affordable = elim ((gt_money_iff terms.amount charge.amount).0 facts.5) [
        | inl below ↦ omega arith
        | inr same ↦ omega (arith, ap minor_units same)
      ];
    }

module _ (ports : ClientPorts) where
  -- One more request, and no payment
  abbrev Asked : {A : Type 0} → Exchange → Result A × Exchange → Type 0
  Asked s p = (p.1.payments ≡ s.payments) × (length p.1.posts ≡ length s.posts + 1)

  send-Asked : (request : Post) (s : Exchange) → Asked s (send ports request s)
  unfolding send
  send-Asked request s = (refl, length-append s.posts (request ∷ []))

  retry_with_proof-Asked :
      (url payload : String) (terms : PaymentTerms) (proof : PaymentProof) (s : Exchange)
      → Asked s (retry_with_proof ports url payload terms proof s)
  unfolding retry_with_proof pure raise
  retry_with_proof-Asked url payload terms proof s =
      let request : Post = record { url = url; payload = payload; proof = some proof } in
      bind_post (Asked s) (send ports request) _ s (λ e h. send-Asked request s)
        (λ second h. ground (arith, send-Asked request s))

  -- Nothing was paid, or terms that are agreed and not expired, once.
  abbrev pub Paid : Charge → List PaymentTerms → List PaymentTerms → Type 0
  Paid charge before after =
      (after ≡ before)
      ⊎ ((terms : PaymentTerms) × (after ≡ before ++ (terms ∷ []))
          × Agreed terms charge
          × (ports.time 0 < terms.expires_at))

  Paid-from :
      (charge : Charge) (before middle after : List PaymentTerms)
      → middle ≡ before
      → Paid charge middle after
      → Paid charge before after
  Paid-from charge before middle after h (inl e) = inl (e ∙ h)
  Paid-from charge before middle after h (inr (terms, e, agreed, fresh)) =
      inr (terms, e ∙ ap (λ l. l ++ (terms ∷ [])) h, agreed, fresh)

  -- So it was, and at most n requests were sent.
  abbrev pub Fair : {A : Type 0} → ℕ → Charge → Exchange → Result A × Exchange → Type 0
  Fair n charge s p = Paid charge s.payments p.1.payments × (length p.1.posts ≤ length s.posts + n)

  settle_and_retry-Fair :
      (url payload : String) (charge : Charge) (terms : PaymentTerms) (s : Exchange)
      → Agreed terms charge
      → ports.time 0 < terms.expires_at
      → Fair 1 charge s
          ((settle_terms ports terms >>= λ proof. retry_with_proof ports url payload terms proof) s)
  unfolding settle_terms
  settle_and_retry-Fair url payload charge terms s agreed fresh =
      bind_post (Fair 1 charge s) _ _ s (λ e h. (inr (terms, refl, agreed, fresh), omega arith))
        (λ proof h.
          let (same, one) = retry_with_proof-Asked url payload terms proof _ in
          (inr (terms, same, agreed, fresh), omega (arith, one)))

  pay_and_retry-Fair :
      (url payload : String) (charge : Charge) (content : String) (s : Exchange)
      → Fair 1 charge s (pay_and_retry ports url payload charge content s)
  unfolding pay_and_retry checked raise
  pay_and_retry-Fair url payload charge content s =
      bind_post (Fair 1 charge s) _ _ s (λ e h. (inl refl, omega arith))
        (λ terms h.
          bind_post (Fair 1 charge s) _ _ s (λ e h. (inl refl, omega arith))
            (λ done matched.
              if_post (Fair 1 charge s) (is_expired terms (ports.time 0)) (raise value_error) _ s
                (λ late. (inl refl, omega arith))
                (λ fresh.
                  settle_and_retry-Fair url payload charge terms s
                    (assert_matches-Agreed terms charge matched) (ground arith))))

  -- A purchase asks the merchant at most twice, and pays for nothing, or once for terms that agree with the
  -- charge, ask for no more than it, and have not expired; so also where it raises.
  pub purchase-Fair :
      (url payload : String) (charge : Charge) (s : Exchange)
      → Fair 2 charge s (purchase ports url payload charge s)
  unfolding purchase pure
  purchase-Fair url payload charge s =
      let request : Post = record { url = url; payload = payload; proof = none } in
      let (unpaid, one) = send-Asked request s in
      bind_post (Fair 2 charge s) (send ports request) _ s (λ e h. (inl unpaid, omega (arith, one)))
        (λ first h.
          if_post (Fair 2 charge s) (eqb first.status_code payment_required_status) _ _ _
            (λ asked.
              let (paid, again) =
                pay_and_retry-Fair url payload charge first.content (send ports request s).1 in
              (Paid-from charge s.payments _ _ unpaid paid, omega (arith, one, again)))
            (λ done. (inl unpaid, omega (arith, one))))
