-- ===== src/Agents/Adapter/Bound.antt =====
-- A whole purchase over the agents of src/backend/app/agents: what an injection in the listings comes to.
use cpfbuddies.Prelude.{
  ℕ, String, true, ◌≡◌, ◌≢◌, refl, sym, ◌∙◌, ap, subst, inl, inr, Option, none, some, List, [], ◌∷◌,
  All, Any, arith,
}
use cpfbuddies.Errors.{Result, ok, err}
use cpfbuddies.Models.Money.{Money}
use cpfbuddies.Models.Config.{config_accepted}
use cpfbuddies.Models.Verdict.{pass}
use cpfbuddies.Models.Evaluation.{SignedEvaluatorOutput}
use cpfbuddies.Marketplace.Contracts.{Listing, ListingsResponse}
use cpfbuddies.Orchestrator.Office.{Office, OfficePorts, PurchaseOutcome, ShoppingResult}
use cpfbuddies.Orchestrator.Purchase.{purchase}
use cpfbuddies.Orchestrator.Judged.{purchase-IsJudged}
use cpfbuddies.Agents.Evaluator.{EvaluationSecurityEvent, evaluate, has_injection}
use cpfbuddies.Agents.Evidence.{to_signed_evidence, injected-verify}
use cpfbuddies.Agents.Browser.{CandidateSelection, Fetched, Candidate}
use cpfbuddies.Agents.Browser.Offers.{IsAnswer, IsOffer}
use cpfbuddies.Agents.Browser.Choice.{IsChoice, find_candidate-IsChoice}
use cpfbuddies.Agents.Adapter.{Agents, judged, shop}

-- Every listing that the merchant answers with has an injection in it.
abbrev pub IsPoisoned : Option ListingsResponse → Type 0
IsPoisoned none = Unit
IsPoisoned (some response) = All (λ item. has_injection item ≡ true) response.items

All-Any :
    {A : Type 0} (P Q : A → Type 0) (R : Type 0) (xs : List A)
    → ((a : A) → P a → Q a → R)
    → All P xs
    → Any Q xs
    → R
All-Any P Q R [] f h k = absurd k
All-Any P Q R (x ∷ xs) f h (inl k) = f x h.0 k
All-Any P Q R (x ∷ xs) f h (inr k) = All-Any P Q R xs f h.1 k

module _ (hash : List Listing → String) (fetched : List Fetched)
    (poisoned : All (λ f. IsPoisoned f.1) fetched) where
  offer_injected : (c : Candidate) → IsOffer hash fetched c → has_injection c.1 ≡ true
  offer_injected c offer =
      All-Any (λ f. IsPoisoned f.1) (λ f. IsAnswer hash f c.0) _ fetched
        (λ f bad answer.
          All-Any (λ item. has_injection item ≡ true) (λ item. item ≡ c.1) _ c.0.items
            (λ item injected same. subst (λ x. has_injection x ≡ true) same injected)
            (subst IsPoisoned answer.answered bad) offer.listed)
        poisoned offer.answer

  -- The listing that is chosen is one of them.
  chosen_injected :
      (intent : String) (max_price : Money) (preferred_sku : Option String)
      (r : Result CandidateSelection) (selection : CandidateSelection)
      → IsChoice hash intent max_price preferred_sku fetched r
      → r ≡ ok selection
      → has_injection selection.listing ≡ true
  chosen_injected intent max_price preferred_sku (err e) selection choice h = ground arith
  chosen_injected intent max_price preferred_sku (ok x) selection choice h =
      let (c, same, offer, suits) = choice in
      let is_c : x.listing ≡ c.1 = ground arith in
      let is_x : selection.listing ≡ x.listing = ground arith in
      rw (is_x, is_c) (offer_injected c offer)

evidence_of : SignedEvaluatorOutput → Result ShoppingResult → SignedEvaluatorOutput
evidence_of other (ok found) = found.evaluation
evidence_of other (err e) = other

judged_ok :
    (agents : Agents) (intent : String) (max_amount : Money) (mandate_id : String)
    (events : List EvaluationSecurityEvent) (r : Result CandidateSelection) (found : ShoppingResult)
    → (judged agents intent max_amount mandate_id events r).0 ≡ ok found
    → (selection : CandidateSelection) × (r ≡ ok selection)
      × (found.evaluation
          ≡ to_signed_evidence agents.lib agents.sign
              (evaluate
                (agents.assess selection.listing intent max_amount)
                selection.listing
                intent
                max_amount
                events).0
              mandate_id
              selection.basket_hash
              selection.listing.price)
unfolding evidence_of
judged_ok agents intent max_amount mandate_id events (err e) found h = ground arith
judged_ok agents intent max_amount mandate_id events (ok selection) found h =
    (selection, refl, ap (evidence_of found.evaluation) (sym h))

-- The orchestrator with these agents behind its port, the n-th time with what the n-th of them stands for. Both
-- services use the same libraries.
abbrev pub with_agents : (ℕ → Agents) → OfficePorts → OfficePorts
with_agents agents ports = record ports {
  shop = λ n intent max_amount mandate_id.
      (shop (record (agents n) { lib = ports.mandates.lib }) intent max_amount mandate_id []).0;
}

-- Under an accepted configuration, where every listing that the merchants offer has an injection in it, no purchase
-- passes, whatever a model says of them.
pub injected-purchase :
    (agents : ℕ → Agents) (ports : OfficePorts) (principal agent_id intent : String)
    (max_amount : Money) (ttl : ℕ) (s s' : Office) (outcome : PurchaseOutcome)
    → config_accepted ports.config ≡ true
    → ((n : ℕ) → All (λ f. IsPoisoned f.1) ((agents n).fetched intent max_amount))
    → purchase (with_agents agents ports) principal agent_id intent max_amount ttl s
      ≡ (ok outcome, s')
    → outcome.verdict.decision ≢ pass
unfolding shop
injected-purchase agents ports principal agent_id intent max_amount ttl s s' outcome accepted
      poisoned h =
    let j =
      purchase-IsJudged (with_agents agents ports) principal agent_id intent max_amount ttl s s'
        outcome h in
    let its = agents j.asked in
    let (selection, chosen, evidence) =
      judged_ok (record its { lib = ports.mandates.lib }) intent max_amount j.mandate_id [] _
        j.found j.shopped in
    let injected =
      chosen_injected its.calculate_basket_hash (its.fetched intent max_amount) (poisoned j.asked)
        intent max_amount its.preferred_sku _ selection
        (find_candidate-IsChoice its.calculate_basket_hash intent max_amount its.preferred_sku
          (its.fetched intent max_amount))
        chosen in
    rw j.verdict (
      injected-verify ports.mandates.lib its.sign ports.config j.request
        (its.assess selection.listing intent max_amount) selection.listing intent max_amount []
        j.mandate_id selection.basket_hash selection.listing.price accepted injected
        (j.evidence ∙ evidence))
