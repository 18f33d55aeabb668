-- ===== src/Settlement/Rails/Onchain/Settles.antt =====
-- What the onchain rail broadcasts, and what its receipts say.
use cpfbuddies.Prelude.{
  if_post, Option-cases, ◌≡◌, refl, subst, ◌∙◌, ap, ◌⊎◌, inl, inr, ℕ, ltb, String, not, Option,
  none, some, [], ◌∷◌, ◌++◌,
}
use cpfbuddies.Models.Money.{xsgd, minor_units, same_currency}
use cpfbuddies.Models.Audit.{settled, refused, error}
use cpfbuddies.Signing.Crypto.{to_bytes}
use cpfbuddies.Settlement.Models.{SettlementInstruction, SettlementReceipt}
use cpfbuddies.Settlement.Chain.Node.{
  Answer, returned, Call, SignedTransaction, Receipt, Chain, return, throw, ask,
}
use cpfbuddies.Settlement.Chain.Node.Rules.{then_post, attempt_post, Returns}
use cpfbuddies.Settlement.Chain.Registry.{Client, ChainResult, reverted, spend, send_call}
use cpfbuddies.Settlement.Chain.Registry.Broadcasts.{
  Silent, Makes, IsMined, Landed, Sends, send_call-Sends,
}
use cpfbuddies.Settlement.Rails.Onchain.{
  TokenClient, FundingProblem, receipt, short_of, receipt_of, funding_problem, spend_for,
  after_preflight, settle,
}

module _ (client : Client) (chain_id : ℕ) (token : Option TokenClient) where
  abbrev pub call_for : SettlementInstruction → Call
  call_for i =
      Call.spend (to_bytes i.mandate_id) (client.node.to_checksum_address i.payout_address)
        (minor_units i.amount) (to_bytes i.basket_hash)

  abbrev pub IsUnsettled : SettlementInstruction → SettlementReceipt → Type 0
  IsUnsettled i r = (r.mandate_id ≡ i.mandate_id) × ((r.status ≡ refused) ⊎ (r.status ≡ error))

  -- The receipt names the hash of the transaction, whose own receipt had status 1.
  abbrev pub IsPaid : SettlementInstruction → SignedTransaction → SettlementReceipt → Type 0
  IsPaid i tx r =
      (r.mandate_id ≡ i.mandate_id)
      × (r.status ≡ settled)
      × ((tx_hash : String) × (receipt : Receipt) × (r.reference ≡ some tx_hash)
          × IsMined client tx tx_hash receipt
          × (receipt.status ≡ 1))

  -- Nothing was broadcast, and nothing is settled; or one transaction was, which spends the charge's amount for
  -- its merchant and basket, the rail returned, and what it calls settled was mined with status 1.
  abbrev pub Settles : SettlementInstruction → Chain → Answer SettlementReceipt × Chain → Type 0
  Settles i s p =
      (Silent s p × Returns (IsUnsettled i) p.0)
      ⊎ ((tx : SignedTransaction) × (r : SettlementReceipt) × (p.1.sent ≡ s.sent ++ (tx ∷ []))
          × Makes client (call_for i) tx.transaction
          × (p.0 ≡ returned r)
          × (IsPaid i tx r ⊎ IsUnsettled i r))

  receipt_of-reported :
      (i : SettlementInstruction) (tx : SignedTransaction) (result : ChainResult)
      → Landed client tx result
      → IsPaid i tx (receipt_of client chain_id token i result)
        ⊎ IsUnsettled i (receipt_of client chain_id token i result)
  unfolding receipt_of
  receipt_of-reported i tx result (inl (e, k)) = rw e (inr (refl, inl refl))
  receipt_of-reported i tx result (inr (tx_hash, receipt, h, k, inl (e, l))) =
      rw e (inl (refl, refl, (tx_hash, receipt, k, h, l)))
  receipt_of-reported i tx result (inr (tx_hash, receipt, h, k, inr (e, l))) =
      rw e (inr (refl, inl refl))

  receipt_of-IsUnsettled :
      (i : SettlementInstruction) (result : ChainResult)
      → result.status ≡ reverted
      → IsUnsettled i (receipt_of client chain_id token i result)
  unfolding receipt_of
  receipt_of-IsUnsettled i result e = rw e (refl, inl refl)

  -- From the client's answer to the rail's
  reported-Settles :
      (i : SettlementInstruction) (s : Chain) (p : Answer ChainResult × Chain)
      → Sends client (call_for i) s p
      → (((result : ChainResult)
          → p.0 ≡ returned result
          → Settles i s (returned (receipt_of client chain_id token i result), p.1)))
  reported-Settles i s p (inl (quiet, e)) result h =
      inl (quiet, receipt_of-IsUnsettled i result (subst (Returns (λ r. r.status ≡ reverted)) h e))
  reported-Settles i s p (inr (tx, e, makes, landed)) result h = inr (
    tx,
    receipt_of client chain_id token i result,
    e,
    makes,
    refl,
    receipt_of-reported i tx result (subst (Returns (Landed client tx)) h landed),
  )

  failed-Settles :
      (i : SettlementInstruction) (s : Chain) (p : Answer ChainResult × Chain)
      → Sends client (call_for i) s p
      → Settles i s (returned (receipt i error none none none), p.1)
  failed-Settles i s p (inl (quiet, e)) = inl (quiet, (refl, inr refl))
  failed-Settles i s p (inr (tx, e, makes, landed)) =
      inr (tx, receipt i error none none none, e, makes, refl, inr (refl, inr refl))

  spend_for-Settles :
      (i : SettlementInstruction) (s : Chain) → Settles i s (spend_for client chain_id token i s)
  unfolding spend_for spend return
  spend_for-Settles i s =
      let sends = send_call-Sends client (call_for i) s in
      attempt_post (Settles i s) _ _ _ s
        (λ result h. reported-Settles i s (send_call client (call_for i) s) sends result h)
        (λ e h. failed-Settles i s (send_call client (call_for i) s) sends)

  short_of-Silent :
      (t : TokenClient) (i : SettlementInstruction) (s : Chain) → Silent s (short_of client t i s)
  unfolding short_of return ask
  short_of-Silent t i s =
      then_post (Silent s) _ _ s (λ e h. refl)
        (λ balance h.
          if_post (Silent s) (ltb balance (minor_units i.amount)) _ _ _ (λ b. refl)
            (λ b.
              then_post (Silent s) _ _ _ (λ e h. refl)
                (λ allowance h.
                  if_post (Silent s) (ltb allowance (minor_units i.amount)) _ _ _ (λ b. refl)
                    (λ b. refl))))

  funding_problem-Silent :
      (i : SettlementInstruction) (s : Chain) → Silent s (funding_problem client chain_id token i s)
  unfolding funding_problem return
  funding_problem-Silent i s = elim (Option-cases token) [
    | inl e ↦ rw e refl
    | inr (t, e) ↦ rw e (short_of-Silent t i s)
  ]

  Settles-after :
      (i : SettlementInstruction) (s t : Chain) (p : Answer SettlementReceipt × Chain)
      → t.sent ≡ s.sent
      → Settles i t p
      → Settles i s p
  Settles-after i s t p h (inl (e, k)) = inl (e ∙ h, k)
  Settles-after i s t p h (inr (tx, r, e, k, l, n)) =
      inr (tx, r, e ∙ ap (λ sent. sent ++ (tx ∷ [])) h, k, l, n)

  after_preflight-Settles :
      (i : SettlementInstruction) (unfunded : Option FundingProblem) (s : Chain)
      → Settles i s (after_preflight client chain_id token i unfunded s)
  unfolding return
  after_preflight-Settles i none s = spend_for-Settles i s
  after_preflight-Settles i (some problem) s = inl (refl, (refl, inl refl))

  -- A settlement onchain broadcasts nothing and settles nothing, or broadcasts one transaction, which spends the
  -- charge's amount in minor units for its merchant and basket under its mandate; what it then calls settled names the
  -- hash under which the node took that transaction, and its receipt has status 1. It raises only where it has broadcast
  -- nothing.
  pub settle-Settles :
      (i : SettlementInstruction) (s : Chain) → Settles i s (settle client chain_id token i s)
  unfolding settle throw return
  settle-Settles i s =
      if_post (Settles i s) (not (same_currency i.amount.currency xsgd)) _ _ s (λ e. inl (refl, tt))
        (λ e.
          let quiet = funding_problem-Silent i s in
          then_post (Settles i s) (funding_problem client chain_id token i) _ s
            (λ e h. inl (quiet, tt))
            (λ unfunded h.
              let t : Chain = (funding_problem client chain_id token i s).1 in
              Settles-after i s t (after_preflight client chain_id token i unfunded t) quiet
                (after_preflight-Settles i unfunded (funding_problem client chain_id token i s).1)))
