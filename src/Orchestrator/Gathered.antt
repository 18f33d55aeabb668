-- ===== src/Orchestrator/Gathered.antt =====
-- What `_verify` of src/trustrail/orchestrator/purchase.py gathers, and its verdict.
use cpfbuddies.Prelude.{ℕ, String, ◌≡◌, ◌≢◌, refl, sym, ◌∙◌, ap, some, inl, inr, arith, Bool-cases}
use cpfbuddies.Errors.{ok, ◌>>=◌, pure}
use cpfbuddies.Models.Money.{Money}
use cpfbuddies.Models.Mandate.{MandateRecord, SignedMandate, record_id}
use cpfbuddies.Models.Charge.{Charge}
use cpfbuddies.Models.Evaluation.{SignedEvaluatorOutput}
use cpfbuddies.Models.Verdict.{Verdict, fail, VerificationRequest}
use cpfbuddies.Stores.Mandates
use cpfbuddies.Stores.KillSwitch
use cpfbuddies.Stores.Holds.{ReviewHoldStore}
use cpfbuddies.Stores.Directories.{get_merchant, get_agent}
use cpfbuddies.Mandates.Rail.{now, new_hex32, record_entry}
use cpfbuddies.Mandates.Service
use cpfbuddies.Mandates.Stored.{IsStored}
use cpfbuddies.Verifier.Authority.{Authorised}
use cpfbuddies.Verifier.Decision.{context, verify-eq-fail_iff, Authorised-iff, facts}
use cpfbuddies.Orchestrator.Office.{
  Office, OfficePorts, ShoppingResult, on_rail, read_office, write_holds, call_shop,
}
use cpfbuddies.Orchestrator.Purchase.{judged, clock, gathered, verify_charge, record_agent_work}

module _ (ports : OfficePorts) where
  -- The request describes the charge and the mandate as the stores of this state have them.
  pub record IsGathered (s : Office) (signed : SignedMandate) (charge : Charge)
      (evidence : SignedEvaluatorOutput) (request : VerificationRequest) : Type 0 where
    pub of_charge : request.charge ≡ charge
    pub of_mandate : request.signed_mandate ≡ signed
    pub of_evidence : request.evaluation ≡ evidence
    pub stored : MandateRecord
    pub found : Mandates.get signed.mandate.mandate_id s.rail.store ≡ some stored
    pub same_signed : stored.signed ≡ signed
    pub status : request.mandate_state.status ≡ stored.status
    pub nonce :
        request.mandate_state.nonce_claimed_by
        ≡ Mandates.nonce_owner signed.mandate.nonce s.rail.store
    pub merchant : request.merchant ≡ get_merchant charge.merchant_id s.merchants
    pub evaluator : request.evaluator ≡ get_agent evidence.evaluation.evaluator_id s.agents
    pub switch :
        request.kill_switch_active
        ≡ KillSwitch.is_active signed.mandate.principal s.rail.kill_switch
    pub reading : ℕ
    pub at : request.now ≡ ports.mandates.time reading

  -- The verdict is the verifier's, on what the stores have.
  pub record IsJudged (s : Office) (r : MandateRecord) (charge : Charge)
      (evidence : SignedEvaluatorOutput) (v : Verdict) : Type 0 where
    pub request : VerificationRequest
    pub verdict : v ≡ judged ports request
    pub from_stores : IsGathered s r.signed charge evidence request

  pub verify_charge-IsJudged :
      (s : Office) (r : MandateRecord) (charge : Charge) (evidence : SignedEvaluatorOutput)
      (v : Verdict)
      → IsStored r s.rail
      → (verify_charge ports r charge evidence s).0 ≡ ok v
      → IsJudged (verify_charge ports r charge evidence s).1 r charge evidence v
  unfolding verify_charge ◌>>=◌ pure on_rail read_office now Service.record_verdict
      Service.append_audit new_hex32 record_entry gathered Service.is_halted
  verify_charge-IsJudged s r charge evidence v stored h = record {
    request = gathered r charge evidence (ports.mandates.time s.rail.reads) (clock ports s).1;
    verdict = ground arith;
    from_stores = record {
      of_charge = refl;
      of_mandate = refl;
      of_evidence = refl;
      stored = r;
      found = stored;
      same_signed = refl;
      status = refl;
      nonce = refl;
      merchant = refl;
      evaluator = refl;
      switch = refl;
      reading = s.rail.reads;
      at = refl;
    };
  }

  -- What the verifier did not fail is authorised.
  pub judged-Authorised :
      (request : VerificationRequest)
      → (judged ports request).decision ≢ fail
      → Authorised ports.mandates.lib (context ports.config request)
  judged-Authorised request not_failed =
      let lib = ports.mandates.lib in
      let config = ports.config in
      elim (Bool-cases (facts lib config request)) [
        | inl held ↦ (Authorised-iff lib config request).0 held
        | inr broken ↦
            let refuted : ¬ Authorised lib (context config request) =
              λ h. ground (arith, broken, (Authorised-iff lib config request).1 h) in
            absurd (not_failed ((verify-eq-fail_iff lib config request).1 (inl refuted)))
      ]

  -- Nothing between the mint and the verification changes the mandate.
  pub shopped-IsStored :
      (s : Office) (r : MandateRecord) (intent agent_id : String) (max_amount : Money)
      (found : ShoppingResult)
      → IsStored r s.rail
      → IsStored r
          (record_agent_work ports
            (record_id r)
            agent_id
            found
            (on_rail
              (new_hex32 ports.mandates)
              (call_shop ports intent max_amount (record_id r) s).1).1).1.rail
  unfolding record_agent_work ◌>>=◌ pure on_rail now Service.record_candidate_selected
      Service.record_evaluation Service.append_audit new_hex32 record_entry call_shop
  shopped-IsStored s r intent agent_id max_amount found stored = stored

  -- A verdict stands while what it was judged by does.
  pub IsJudged-same :
      (s t : Office) (r : MandateRecord) (charge : Charge) (evidence : SignedEvaluatorOutput)
      (v : Verdict)
      → t.rail.store ≡ s.rail.store
      → t.rail.kill_switch ≡ s.rail.kill_switch
      → t.merchants ≡ s.merchants
      → t.agents ≡ s.agents
      → IsJudged s r charge evidence v
      → IsJudged t r charge evidence v
  IsJudged-same s t r charge evidence v store kill_switch merchants agents j =
      let g = j.from_stores in
      record {
        request = j.request;
        verdict = j.verdict;
        from_stores = record {
          of_charge = g.of_charge;
          of_mandate = g.of_mandate;
          of_evidence = g.of_evidence;
          stored = g.stored;
          found = ap (Mandates.get (record_id r)) store ∙ g.found;
          same_signed = g.same_signed;
          status = g.status;
          nonce = g.nonce ∙ ap (Mandates.nonce_owner r.signed.mandate.nonce) (sym store);
          merchant = g.merchant ∙ ap (get_merchant charge.merchant_id) (sym merchants);
          evaluator = g.evaluator ∙ ap (get_agent evidence.evaluation.evaluator_id) (sym agents);
          switch =
              g.switch ∙ ap (KillSwitch.is_active r.signed.mandate.principal) (sym kill_switch);
          reading = g.reading;
          at = g.at;
        };
      }

  pub approved-IsJudged :
      (s : Office) (r : MandateRecord) (charge : Charge) (evidence : SignedEvaluatorOutput)
      (v : Verdict) (f : ReviewHoldStore → ReviewHoldStore)
      → IsJudged s r charge evidence v
      → IsJudged (write_holds f (clock ports s).1).1 r charge evidence v
  unfolding write_holds on_rail now
  approved-IsJudged s r charge evidence v f j =
      IsJudged-same s _ r charge evidence v refl refl refl refl j
