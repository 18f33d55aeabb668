-- ===== src/Settlement/Chain/Registry/Broadcasts.antt =====
-- What the client broadcasts, and what a confirmation means.
use cpfbuddies.Prelude.{
  if_post, none, ◌+◌, ◌≢◌, ℕ, ◌≤◌, ◌≡◌, refl, if◌then◌else◌, sym, subst, Option-cases, ◌∙◌, ap, ◌⊎◌,
  inl, inr, String, some, [], ◌∷◌, ◌++◌, eqb, arith,
}
use cpfbuddies.Settlement.Chain.Node.{
  Answer, returned, raised, Call, Transaction, SignedTransaction, Receipt, Chain, Action,
  BlockIdentifier, block, ◌then◌, return, throw, ask, attempt, broadcast,
}
use cpfbuddies.Settlement.Chain.Node.Rules.{then_post, attempt_post, Returns}
use cpfbuddies.Settlement.Chain.Transactions.{
  build_transaction, sign_transaction, with_vrs, Vrs, min_priority_fee_wei, larger,
}
use cpfbuddies.Settlement.Chain.Reverts.{decode_revert}
use cpfbuddies.Settlement.Chain.Registry.{
  Client, ChainResult, caller, confirmed, reverted, simulate, estimate_or_default, report,
  refused_broadcast, send_call,
}

-- Nothing was broadcast.
abbrev pub Silent : {A : Type 0} → Chain → Answer A × Chain → Type 0
Silent s p = p.1.sent ≡ s.sent

with_vrs-same :
    (tx : Transaction) (answer : Answer Vrs) (signed : SignedTransaction)
    → with_vrs tx answer ≡ returned signed
    → signed.transaction ≡ tx
with_vrs-same tx (returned vrs) signed h = ground arith
with_vrs-same tx (raised e) signed h = ground arith

module _ (client : Client) where
  -- The transaction makes the call to the contract, and its tip is above the floor and below its ceiling.
  pub record Makes (call : Call) (tx : Transaction) : Type 0 where
    pub input : tx.input ≡ client.node.encode_abi call
    pub contract : tx.to ≡ client.node.to_checksum_address client.mandate_registry
    pub chain : tx.chain_id ≡ client.chain_id
    pub tip : min_priority_fee_wei ≤ tx.max_priority_fee_per_gas
    pub ceiling : tx.max_priority_fee_per_gas ≤ tx.max_fee_per_gas

  abbrev Built : Call → Chain → Answer Transaction × Chain → Type 0
  Built call s p = Silent s p × Returns (Makes call) p.0

  larger-bound : (a b : ℕ) → b ≤ larger a b
  larger-bound a b = ground arith

  build_transaction-Built :
      (call : Call) (sender : String) (gas : ℕ) (s : Chain)
      → Built call s (
          build_transaction client.node sender client.mandate_registry
            (client.node.encode_abi call)
            client.chain_id
            gas
            s)
  unfolding build_transaction ask return
  build_transaction-Built call sender gas s =
      then_post (Built call s) _ _ s (λ e h. (refl, tt))
        (λ base_fee h.
          then_post (Built call s) _ _ _ (λ e h. (refl, tt))
            (λ suggested h.
              then_post (Built call s) _ _ _ (λ e h. (refl, tt))
                (λ nonce h. (
                  refl,
                  record {
                    input = refl;
                    contract = refl;
                    chain = refl;
                    tip = larger-bound suggested min_priority_fee_wei;
                    ceiling = omega arith;
                  },
                ))))

  simulate-Silent :
      (call : Call) (at : BlockIdentifier) (s : Chain) → Silent s (simulate client call at s)
  unfolding simulate ask return
  simulate-Silent call at s = attempt_post (Silent s) _ _ _ s (λ a h. refl) (λ e h. ground arith)

  estimate_or_default-Silent :
      (call : Call) (s : Chain) → Silent s (estimate_or_default client call s)
  unfolding estimate_or_default ask return throw
  estimate_or_default-Silent call s =
      attempt_post (Silent s) _ _ _ s (λ a h. refl) (λ e h. ground arith)

  -- The node took the transaction under this hash, and has a receipt of it.
  pub record IsMined (tx : SignedTransaction) (tx_hash : String) (receipt : Receipt) : Type 0 where
    pub question : ℕ
    pub accepted : client.node.send_raw question tx ≡ returned tx_hash
    pub waited : client.node.wait (question + 1) tx_hash ≡ returned receipt

  -- The result names the hash under which the transaction was mined, and is a confirmation exactly where its receipt had
  -- status 1; or the node refused to take it.
  abbrev pub Landed : SignedTransaction → ChainResult → Type 0
  Landed tx r =
      ((r.status ≡ reverted) × (r.tx_hash ≡ none))
      ⊎ ((tx_hash : String) × (receipt : Receipt) × IsMined tx tx_hash receipt
          × (r.tx_hash ≡ some tx_hash)
          × (((r.status ≡ confirmed) × (receipt.status ≡ 1))
              ⊎ ((r.status ≡ reverted) × (receipt.status ≢ 1))))

  -- Nothing was broadcast, and nothing is confirmed; or one transaction was, which makes the call, and a
  -- confirmation is that of its receipt.
  abbrev pub Sends : Call → Chain → Answer ChainResult × Chain → Type 0
  Sends call s p =
      (Silent s p × Returns (λ r. r.status ≡ reverted) p.0)
      ⊎ ((tx : SignedTransaction) × (p.1.sent ≡ s.sent ++ (tx ∷ []))
          × Makes call tx.transaction
          × Returns (Landed tx) p.0)

  report-Landed :
      (call : Call) (tx : SignedTransaction) (tx_hash : String) (receipt : Receipt) (s : Chain)
      → IsMined tx tx_hash receipt
      → Silent s (report client call tx_hash receipt s)
        × Returns (Landed tx) (report client call tx_hash receipt s).0
  unfolding report return
  report-Landed call tx tx_hash receipt s h =
      let Q : Answer ChainResult × Chain → Type 0 = λ p. Silent s p × Returns (Landed tx) p.0 in
      if_post Q (eqb receipt.status 1) _ _ s
        (λ e. (refl, inr (tx_hash, receipt, h, refl, inl (refl, ground arith))))
        (λ e.
          let quiet = simulate-Silent call (block receipt.block_number) s in
          let failed : receipt.status ≢ 1 = λ same. ground arith in
          then_post Q (simulate client call (block receipt.block_number)) _ s (λ e k. (quiet, tt))
            (λ revert k. (quiet, inr (tx_hash, receipt, h, refl, inr (refl, failed)))))

  -- The transaction has been signed: it is broadcast, and reported.
  signed-Sends :
      (call : Call) (tx : SignedTransaction) (s : Chain)
      → Makes call tx.transaction
      → Sends call s (
          attempt
            (broadcast client.node tx)
            (λ tx_hash. ask (λ n. client.node.wait n tx_hash) then λ receipt.
              report client call tx_hash receipt)
            (refused_broadcast client)
            s)
  unfolding ask broadcast throw return
  signed-Sends call tx s h =
      attempt_post (Sends call s) (broadcast client.node tx) _ _ s
        (λ tx_hash k.
          then_post (Sends call s) (ask (λ n. client.node.wait n tx_hash)) _ _
            (λ e l. inr (tx, refl, h, tt))
            (λ receipt l.
              let mined : IsMined tx tx_hash receipt = record {
                question = s.asked;
                accepted = k;
                waited = l;
              } in
              let (quiet, landed) = report-Landed call tx tx_hash receipt _ mined in
              inr (tx, quiet, h, landed)))
        (λ e k. elim (Option-cases (decode_revert client.selectors e).error_name) [
          | inl unnamed ↦ rw (refused_broadcast, unnamed) (inr (tx, refl, h, tt))
          | inr (name, named) ↦ rw (refused_broadcast, named) (inr (tx, refl, h, inl (refl, refl)))
        ])

  sign_transaction-same :
      (tx : Transaction) (s : Chain) (signed : SignedTransaction)
      → (sign_transaction client.node tx client.signer s).0 ≡ returned signed
      → signed.transaction ≡ tx
  unfolding sign_transaction
  sign_transaction-same tx s signed h = with_vrs-same tx _ signed h

  -- A step that broadcasts nothing, before such a call
  Sends-then :
      {A : Type 0} (call : Call) (m : Action A) (f : A → Action ChainResult) (s : Chain)
      → Silent s (m s)
      → ((a : A) → (m s).0 ≡ returned a → Sends call (m s).1 (f a (m s).1))
      → Sends call s ((m then f) s)
  Sends-then call m f s quiet k =
      then_post (Sends call s) m f s (λ e h. inl (quiet, tt))
        (λ a h. elim (k a h) [
          | inl (e, l) ↦ inl (e ∙ quiet, l)
          | inr (tx, e, l, n) ↦ inr (tx, e ∙ ap (λ sent. sent ++ (tx ∷ [])) quiet, l, n)
        ])

  signing-Sends :
      (call : Call) (tx : Transaction) (s : Chain)
      → Makes call tx
      → Sends call s (
          (sign_transaction client.node tx client.signer then λ signed.
          attempt
            (broadcast client.node signed)
            (λ tx_hash. ask (λ n. client.node.wait n tx_hash) then λ receipt.
              report client call tx_hash receipt)
            (refused_broadcast client))
            s)
  unfolding sign_transaction
  signing-Sends call tx s h =
      Sends-then call (sign_transaction client.node tx client.signer) _ s refl (λ signed k.
        signed-Sends call signed s
          (subst (Makes call) (sym (sign_transaction-same tx s signed k)) h))

  -- A call of the contract broadcasts nothing and confirms nothing, or broadcasts one transaction, which makes that call
  -- with a tip not below the floor. A result then names the hash under which the node took that transaction, and is a
  -- confirmation exactly where the receipt for this hash has status 1; or it is a revert without a hash.
  pub send_call-Sends : (call : Call) (s : Chain) → Sends call s (send_call client call s)
  unfolding send_call
  send_call-Sends call s =
      Sends-then call (estimate_or_default client call) _ s (estimate_or_default-Silent call s)
        (λ gas h.
          let after : Chain = (estimate_or_default client call s).1 in
          let (quiet, built) = build_transaction-Built call (caller client) gas after in
          Sends-then call
            (build_transaction client.node (caller client) client.mandate_registry
              (client.node.encode_abi call) client.chain_id gas)
            _ after quiet (λ tx k. signing-Sends call tx _ (subst (Returns (Makes call)) k built)))
