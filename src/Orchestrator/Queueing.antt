-- ===== src/Orchestrator/Queueing.antt =====
-- What the orchestrator puts on the settlement queue.
use cpfbuddies.Prelude.{
  ℕ, String, true, ◌≡◌, ◌≢◌, refl, ◌∙◌, ap, subst, sym, Option, none, inl, inr, ◌⊎◌, arith,
  Bool-cases,
}
use cpfbuddies.Errors.{Result, ok, err, ◌>>=◌, pure, raise}
use cpfbuddies.Models.Money.{Money}
use cpfbuddies.Models.Mandate.{MandateRecord, record_id}
use cpfbuddies.Models.Charge.{Charge}
use cpfbuddies.Models.Evaluation.{SignedEvaluatorOutput}
use cpfbuddies.Models.Review.{HumanApproval, resolve, approved}
use cpfbuddies.Stores.Holds.{put_hold}
use cpfbuddies.Stores.Directories.{get_merchant, get_agent}
use cpfbuddies.Models.Verdict.{Verdict, Decision, pass, review, fail, VerificationRequest}
use cpfbuddies.Mandates.Rail.{new_hex32}
use cpfbuddies.Mandates.Service
use cpfbuddies.Settlement.Models.{SettlementRequest, new_request, settleable, ids_agree, may_settle}
use cpfbuddies.Settlement.Queue.{publish}
use cpfbuddies.Verifier.Authority.{Authorised}
use cpfbuddies.Verifier.Decision.{context}
use cpfbuddies.Mandates.Stored.{mint-IsStored, bind-IsStored}
use cpfbuddies.Orchestrator.Answers.{pending_or_raise-ok}
use cpfbuddies.Orchestrator.Gathered.{
  IsGathered, IsJudged, IsJudged-same, verify_charge-IsJudged, judged-Authorised, shopped-IsStored,
  approved-IsJudged,
}
use cpfbuddies.Orchestrator.Origins.{IsShopped, IsHeld, returned, on_rail-returned, shopped}
use cpfbuddies.Orchestrator.Quiet.{
  Quiet, Quiet-bind, Quiet-pure, Quiet-on_rail, Quiet-read_office, Quiet-write_holds,
  Quiet-require_merchant, Quiet-verify_charge, Quiet-hold_charge, Quiet-record_agent_work,
  Quiet-pending_or_raise, Quiet-call_shop, continued,
}
use cpfbuddies.Orchestrator.Office.{
  Office, OfficePorts, Task, on_rail, read_office, write_holds, write_queue, call_shop,
}
use cpfbuddies.Orchestrator.Purchase.{
  judged, clock, address_of, charge_for, require_merchant, constructed, verify_charge, hold_charge,
  publish_if_settleable, enqueue, dispatch, record_agent_work, purchase, pending_or_raise,
  approve_review,
}

module _ (ports : OfficePorts) (Origin : Charge → SignedEvaluatorOutput → Type 0) where
  -- The request describes one purchase, may be settled, and carries the verifier's verdict on that charge
  -- under that mandate as the stores of this state have them, every fact of which holds.
  pub record Accountable (s : Office) (r : SettlementRequest) : Type 0 where
    pub agrees : ids_agree r ≡ true
    pub settles : settleable r ≡ true
    pub evidence : SignedEvaluatorOutput
    pub origin : Origin r.charge evidence
    pub request : VerificationRequest
    pub verdict : r.verdict ≡ judged ports request
    pub from_stores : IsGathered ports s r.signed_mandate r.charge evidence request
    pub facts_held : Authorised ports.mandates.lib (context ports.config request)

  -- The queue is left alone, or one accountable request is published.
  abbrev pub Queued : Office → Office → Type 0
  Queued s s' =
      (s'.queue ≡ s.queue)
      ⊎ ((r : SettlementRequest) × (s'.queue ≡ (publish r s.queue).1) × Accountable s' r)

  pub record Publishes {A : Type 0} (m : Task A) (s : Office) : Type 0 where
    pub queued : Queued s (m s).1

  module _ {A : Type 0} (s : Office) where
    Quiet-Publishes : (m : Task A) → Quiet m s → Publishes m s
    Quiet-Publishes m h = record { queued = inl h.same }

    module _ {B : Type 0} where
      bind-Queued_at :
          (p : Result A × Office) (f : A → Task B)
          → p.1.queue ≡ s.queue
          → ((a : A) → p.0 ≡ ok a → Queued p.1 (f a p.1).1)
          → Queued s (continued p f).1
      bind-Queued_at (ok a, t) f h k = elim (k a refl) [
        | inl same ↦ inl (same ∙ h)
        | inr (r, e, x) ↦ inr (r, e ∙ ap (λ q. (publish r q).1) h, x)
      ]
      bind-Queued_at (err e, t) f h k = inl h

      Quiet-then :
          (m : Task A) (f : A → Task B)
          → Quiet m s
          → ((a : A) → (m s).0 ≡ ok a → Publishes (f a) (m s).1)
          → Publishes (m >>= f) s
      unfolding ◌>>=◌
      Quiet-then m f h k = record { queued = bind-Queued_at (m s) f h.same (λ a e. (k a e).queued) }

      then_pure_at :
          (p : Result A × Office) (g : A → B)
          → Queued s p.1
          → Queued s (continued p (λ a t. (ok (g a), t))).1
      then_pure_at (ok a, t) g h = h
      then_pure_at (err e, t) g h = h

      then_pure : (m : Task A) (g : A → B) → Publishes m s → Publishes (m >>= λ a. pure (g a)) s
      unfolding ◌>>=◌ pure
      then_pure m g h = record { queued = then_pure_at (m s) g h.queued }

  may_settle-fail : (d : Decision) (a : Option HumanApproval) → may_settle d a ≡ true → d ≢ fail
  may_settle-fail d a h = λ e. ground arith

  enqueue-Publishes :
      (s : Office) (r : MandateRecord) (charge : Charge) (evidence : SignedEvaluatorOutput)
      (v : Verdict) (approval : Option HumanApproval)
      → Origin charge evidence
      → IsJudged ports s r charge evidence v
      → Publishes (enqueue ports r charge v approval) s
  unfolding enqueue constructed publish_if_settleable new_request ◌>>=◌ pure raise write_queue
      settleable
  enqueue-Publishes s r charge evidence v approval origin j =
      let q : SettlementRequest = record {
        verdict = v;
        charge = charge;
        signed_mandate = r.signed;
        human_approval = approval;
      } in
      let t : Office = record s { queue = (publish q s.queue).1 } in
      let j' = IsJudged-same ports s t r charge evidence v refl refl refl refl j in
      elim (Bool-cases (ids_agree q)) [
        | inr mixed ↦ record { queued = inl (ground arith) }
        | inl agrees ↦ elim (Bool-cases (settleable q)) [
          | inr held ↦ record { queued = inl (ground arith) }
          | inl settles ↦
              let published : (enqueue ports r charge v approval s).1 ≡ t =
                rw (agrees, settles) refl in
              record {
                queued = subst (Queued s) (sym published) (
                    inr (
                      q,
                      refl,
                      record {
                        agrees = agrees;
                        settles = settles;
                        evidence = evidence;
                        origin = origin;
                        request = j'.request;
                        verdict = j'.verdict;
                        from_stores = j'.from_stores;
                        facts_held = judged-Authorised ports j'.request (
                            subst (λ w. w.decision ≢ fail) j'.verdict
                              (may_settle-fail v.decision approval settles));
                      },
                    ));
              }
        ]
      ]

  dispatch-Publishes :
      (s : Office) (r : MandateRecord) (charge : Charge) (evidence : SignedEvaluatorOutput)
      (v : Verdict) (d : Decision)
      → Origin charge evidence
      → IsJudged ports s r charge evidence v
      → Publishes (dispatch ports r charge evidence v d) s
  unfolding dispatch
  dispatch-Publishes s r charge evidence v review origin j = Quiet-Publishes s _ (
      Quiet-bind s (hold_charge ports r charge evidence v) _
        (Quiet-hold_charge ports s r charge evidence v) (λ h _. Quiet-pure _ _))
  dispatch-Publishes s r charge evidence v pass origin j =
      then_pure s (enqueue ports r charge v none) _
        (enqueue-Publishes s r charge evidence v none origin j)
  dispatch-Publishes s r charge evidence v fail origin j =
      then_pure s (enqueue ports r charge v none) _
        (enqueue-Publishes s r charge evidence v none origin j)

module _ (ports : OfficePorts) where
  -- A purchase leaves the settlement queue alone, or publishes exactly one request, whose parts describe one purchase and
  -- which may be settled. Its charge is for what the shopping agents answered to the intent and the maximum. Its verdict
  -- is the verifier's on that charge, the agents' evidence, the signed mandate, and what the stores then hold: the
  -- mandate's status, the owner of its nonce, the merchant and the evaluator by their ids, and the kill switch of the
  -- principal; and every fact that authorises the charge holds of these. So it is whether the purchase returns or raises.
  pub purchase-Publishes :
      (s : Office) (principal agent_id intent : String) (max_amount : Money) (ttl : ℕ)
      → Queued ports
          (IsShopped ports s intent max_amount)
          s
          (purchase ports principal agent_id intent max_amount ttl s).1
  unfolding purchase
  purchase-Publishes s principal agent_id intent max_amount ttl =
      let From = IsShopped ports s intent max_amount in
      (Quiet-then ports From s (read_office (λ t. get_agent agent_id t.agents)) _
        (Quiet-read_office s _)
        (λ agent _.
          Quiet-then ports From _
            (on_rail (
              Service.mint ports.mandates principal agent_id max_amount intent ttl
                (address_of agent)))
            _ (Quiet-on_rail _ _)
            (λ r minted.
              Quiet-then ports From _ (call_shop ports intent max_amount (record_id r)) _
                (Quiet-call_shop ports _ intent max_amount (record_id r))
                (λ found answered.
                  Quiet-then ports From _ (on_rail (new_hex32 ports.mandates)) _ (Quiet-on_rail _ _)
                    (λ id _.
                      Quiet-then ports From _ (record_agent_work ports (record_id r) agent_id found)
                        _ (Quiet-record_agent_work ports _ _ _ _)
                        (λ _ _.
                          Quiet-then ports From _
                            (verify_charge ports r (charge_for found.candidate (record_id r) id)
                              found.evaluation)
                            _ (Quiet-verify_charge ports _ _ _ _)
                            (λ v e.
                              let stored =
                                shopped-IsStored ports _ r intent agent_id max_amount found (
                                  mint-IsStored ports.mandates principal agent_id max_amount intent
                                    ttl _ _ _ r (on_rail-returned ports _ _ r minted)) in
                              dispatch-Publishes ports From _ r _ found.evaluation v v.decision
                                (shopped ports s intent max_amount id r found _ _ answered)
                                (verify_charge-IsJudged ports _ r _ _ v stored e)))))))).queued

  -- An approval by a human leaves the settlement queue alone, or publishes exactly one request, whose parts describe one
  -- purchase and which may be settled. Its charge is the one that was held. Its verdict is the verifier's on that charge,
  -- the held evidence, the signed mandate, and what the stores then hold: the mandate's status, the owner of its nonce,
  -- the merchant and the evaluator by their ids, and the kill switch of the principal; and every fact that authorises the
  -- charge holds of these. So it is whether the approval returns or raises.
  pub approve_review-Publishes :
      (s : Office) (charge_id approved_by : String)
      → Queued ports (IsHeld charge_id s) s (approve_review ports charge_id approved_by s).1
  unfolding approve_review
  approve_review-Publishes s charge_id approved_by =
      let From = IsHeld charge_id s in
      (Quiet-then ports From s (pending_or_raise ports charge_id) _
        (Quiet-pending_or_raise ports s charge_id)
        (λ h held.
          Quiet-then ports From _ (read_office (λ t. get_merchant h.charge.merchant_id t.merchants))
            _ (Quiet-read_office _ _)
            (λ listed _.
              Quiet-then ports From _ (require_merchant listed) _ (Quiet-require_merchant _ listed)
                (λ merchant _.
                  Quiet-then ports From _
                    (on_rail (Service.bind ports.mandates h.mandate_id _ approved_by)) _
                    (Quiet-on_rail _ _)
                    (λ r bound.
                      Quiet-then ports From _ (verify_charge ports r h.charge h.evaluation) _
                        (Quiet-verify_charge ports _ _ _ _)
                        (λ v e. Quiet-then ports From _ (clock ports) _ (Quiet-on_rail _ _) (λ at _.
                          Quiet-then ports From _
                            (write_holds (put_hold (resolve h approved approved_by))) _
                            (Quiet-write_holds _ _)
                            (λ _ _.
                              let origin : IsHeld charge_id s h.charge h.evaluation = (
                                h,
                                pending_or_raise-ok ports charge_id h s _
                                    (returned ports (pending_or_raise ports charge_id) s h held),
                                refl,
                                refl,
                              ) in
                              let stored =
                                bind-IsStored ports.mandates h.mandate_id _ approved_by _ _ r
                                  (on_rail-returned ports _ _ r bound) in
                              then_pure ports From _ (enqueue ports r h.charge v _) _ (
                                enqueue-Publishes ports From _ r h.charge h.evaluation v _ origin (
                                  approved-IsJudged ports _ r h.charge h.evaluation v _ (
                                    verify_charge-IsJudged ports _ r h.charge h.evaluation v stored
                                      e))))))))))).queued
