-- ===== src/Orchestrator/Judged.antt =====
-- What the verdict of a purchase is of: the evidence that the shopping agents gave.
use cpfbuddies.Prelude.{ℕ, String, ◌≡◌, sym, ◌∙◌, ap}
use cpfbuddies.Errors.{Result, ok, err, pure}
use cpfbuddies.Errors.Success.{bind_ok}
use cpfbuddies.Models.Money.{Money}
use cpfbuddies.Models.Mandate.{MandateRecord, record_id}
use cpfbuddies.Models.Charge.{Charge}
use cpfbuddies.Models.Evaluation.{SignedEvaluatorOutput}
use cpfbuddies.Models.Verdict.{Verdict, Decision, pass, review, fail, VerificationRequest}
use cpfbuddies.Stores.Directories.{get_agent}
use cpfbuddies.Mandates.Rail.{new_hex32}
use cpfbuddies.Mandates.Service
use cpfbuddies.Orchestrator.Office.{
  Office, OfficePorts, PurchaseOutcome, ShoppingResult, on_rail, read_office, call_shop,
}
use cpfbuddies.Orchestrator.Purchase.{
  address_of, charge_for, record_agent_work, clock, gathered, verify_charge, dispatch, enqueue,
  hold_charge, judged, purchase,
}

got : {A : Type 0} → A → Result A → A
got a (ok b) = b
got a (err e) = a

pure_ok : {S A : Type 0} (a b : A) (s s' : S) → pure a s ≡ (ok b, s') → a ≡ b
unfolding pure got
pure_ok a b s s' e = ap (λ p. got a p.0) e

read_office_ok :
    {A : Type 0} (f : Office → A) (s s' : Office) (a : A) → read_office f s ≡ (ok a, s') → f s ≡ a
unfolding read_office got
read_office_ok f s s' a e = ap (λ p. got a p.0) e

module _ (ports : OfficePorts) where
  -- The agents answered one question, and the verdict is the Verifier's on a request with their evidence.
  pub record IsJudged (intent : String) (max_amount : Money) (v : Verdict) : Type 0 where
    pub asked : ℕ
    pub mandate_id : String
    pub found : ShoppingResult
    pub shopped : ports.shop asked intent max_amount mandate_id ≡ ok found
    pub request : VerificationRequest
    pub evidence : request.evaluation ≡ found.evaluation
    pub verdict : v ≡ judged ports request

  call_shop_ok :
      (intent : String) (max_amount : Money) (mandate_id : String) (s s' : Office)
      (found : ShoppingResult)
      → call_shop ports intent max_amount mandate_id s ≡ (ok found, s')
      → ports.shop s.shops intent max_amount mandate_id ≡ ok found
  unfolding call_shop
  call_shop_ok intent max_amount mandate_id s s' found e = ap (λ p. p.0) e

  verify_charge_ok :
      (r : MandateRecord) (charge : Charge) (evidence : SignedEvaluatorOutput) (s s' : Office)
      (v : Verdict)
      → verify_charge ports r charge evidence s ≡ (ok v, s')
      → (request : VerificationRequest) × (request.evaluation ≡ evidence)
        × (v ≡ judged ports request)
  unfolding verify_charge gathered
  verify_charge_ok r charge evidence s s' v e =
      let (at, p0, e0) = bind_ok (clock ports) _ s v s' e in
      let (request, p1, e1) = bind_ok (read_office (gathered r charge evidence at)) _ _ v s' e0 in
      let (u, p2, e2) = bind_ok (on_rail _) _ _ v s' e1 in
      let gathers = read_office_ok (gathered r charge evidence at) _ _ request p1 in
      (
        request,
        ap (λ x. x.evaluation) (sym gathers),
        sym (pure_ok (judged ports request) v _ s' e2),
      )

  dispatch_ok :
      (r : MandateRecord) (charge : Charge) (evidence : SignedEvaluatorOutput) (v : Verdict)
      (d : Decision) (s s' : Office) (outcome : PurchaseOutcome)
      → dispatch ports r charge evidence v d s ≡ (ok outcome, s')
      → outcome.verdict ≡ v
  unfolding dispatch
  dispatch_ok r charge evidence v review s s' outcome e =
      let (hold, p, e') = bind_ok (hold_charge ports r charge evidence v) _ s outcome s' e in
      ap (λ x. x.verdict) (sym (pure_ok _ outcome _ s' e'))
  dispatch_ok r charge evidence v pass s s' outcome e =
      let (m, p, e') = bind_ok (enqueue ports r charge v _) _ s outcome s' e in
      ap (λ x. x.verdict) (sym (pure_ok _ outcome _ s' e'))
  dispatch_ok r charge evidence v fail s s' outcome e =
      let (m, p, e') = bind_ok (enqueue ports r charge v _) _ s outcome s' e in
      ap (λ x. x.verdict) (sym (pure_ok _ outcome _ s' e'))

  -- A purchase that returns asked the agents once, and its verdict is of what they answered.
  pub purchase-IsJudged :
      (principal agent_id intent : String) (max_amount : Money) (ttl : ℕ) (s s' : Office)
      (outcome : PurchaseOutcome)
      → purchase ports principal agent_id intent max_amount ttl s ≡ (ok outcome, s')
      → IsJudged intent max_amount outcome.verdict
  unfolding purchase
  purchase-IsJudged principal agent_id intent max_amount ttl s s' outcome e =
      let (agent, p0, e0) =
        bind_ok (read_office (λ t. get_agent agent_id t.agents)) _ s outcome s' e in
      let (r, p1, e1) =
        bind_ok
          (on_rail (
            Service.mint ports.mandates principal agent_id max_amount intent ttl
              (address_of agent)))
          _ _ outcome s' e0 in
      let (found, p2, e2) =
        bind_ok (call_shop ports intent max_amount (record_id r)) _ _ outcome s' e1 in
      let (charge_id, p3, e3) = bind_ok (on_rail (new_hex32 ports.mandates)) _ _ outcome s' e2 in
      let (u, p4, e4) =
        bind_ok (record_agent_work ports (record_id r) agent_id found) _ _ outcome s' e3 in
      let charge = charge_for found.candidate (record_id r) charge_id in
      let (v, p5, e5) = bind_ok (verify_charge ports r charge found.evaluation) _ _ outcome s' e4 in
      let (request, evidence, verdict) = verify_charge_ok r charge found.evaluation _ _ v p5 in
      record {
        asked = _;
        mandate_id = record_id r;
        found = found;
        shopped = call_shop_ok intent max_amount (record_id r) _ _ found p2;
        request = request;
        evidence = evidence;
        verdict = dispatch_ok r charge found.evaluation v v.decision _ s' outcome e5 ∙ verdict;
      }
