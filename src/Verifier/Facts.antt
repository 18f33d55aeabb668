-- ===== src/Verifier/Facts.antt =====
-- What it means that every deterministic check of src/trustrail/verifier/checks.py is satisfied.
use cpfbuddies.Prelude.{
  String, ◌≡◌, ◌↔◌, ◌⊎◌, inl, inr, Option, none, eq_iff, arith, All, Option-cases,
}
use cpfbuddies.Models.Mandate.{minted, bound}
use cpfbuddies.Models.Verdict.{ReasonCode}
use cpfbuddies.Prelude.Text.{lower}
use cpfbuddies.Signing.Libraries.{Libraries}
use cpfbuddies.Signing.Crypto.{to_bytes, signed_by, recover_address}
use cpfbuddies.Signing.Evidence.{evaluation_digest}
use cpfbuddies.Verifier.Checks
use cpfbuddies.Verifier.Checks.{
  VerificationContext, mandate_of, charge_of, evaluation_of, recomputed_digest, reject_if, is_other,
  deterministic_checks,
}
use cpfbuddies.Verifier.Authority.{
  Authorised, IsSignedBy, MerchantHolds, EvaluatorHolds, reject_text, reject_other,
  same_address_iff, same_currency_iff, same_money_iff, gt_money_iff,
}

module _ (lib : Libraries) (ctx : VerificationContext) where
  open ctx.request use {merchant, evaluator as agent, signed_mandate, evaluation}

  issuer_iff :
      (Checks.check_issuer_signature lib ctx ≡ none)
      ↔ IsSignedBy lib
          (recomputed_digest lib ctx)
          signed_mandate.signature
          ctx.config.issuer_address
  unfolding Checks.check_issuer_signature signed_by
  issuer_iff = ground (
    arith,
    same_address_iff
        (recover_address lib (to_bytes (recomputed_digest lib ctx)) signed_mandate.signature)
        (lower ctx.config.issuer_address),
  )

  RegisteredChecks : Type 0
  RegisteredChecks =
      (Checks.check_merchant_registered ctx ≡ none)
      × (Checks.check_merchant_active ctx ≡ none)
      × (Checks.check_payout_address ctx ≡ none)
      × (Checks.check_merchant_binding ctx ≡ none)

  -- The four checks on the merchant together.
  merchant_holds : RegisteredChecks → MerchantHolds ctx
  unfolding RegisteredChecks Checks.check_merchant_registered Checks.check_merchant_active
      Checks.check_payout_address Checks.check_merchant_binding
  merchant_holds h = elim (Option-cases merchant) [
    | inl e ↦ ground arith
    | inr (m, e) ↦ (
      m,
      e,
      ground arith,
      ground (arith, eq_iff (charge_of ctx).payout_address m.payout_address),
      ground (
        arith,
        reject_other (mandate_of ctx).merchant_address m.payout_address
            ReasonCode.merchant_binding_mismatch,
      ),
    )
  ]

  merchant_checked : MerchantHolds ctx → RegisteredChecks
  unfolding RegisteredChecks Checks.check_merchant_registered Checks.check_merchant_active
      Checks.check_payout_address Checks.check_merchant_binding
  merchant_checked (m, e, active, payout, binding) = ground (
    arith,
    eq_iff (charge_of ctx).payout_address m.payout_address,
    reject_other (mandate_of ctx).merchant_address m.payout_address
        ReasonCode.merchant_binding_mismatch,
  )

  EvidenceChecks : Type 0
  EvidenceChecks =
      (Checks.check_evaluator_registered ctx ≡ none)
      × (Checks.check_evaluator_signature lib ctx ≡ none)

  evidence_holds : EvidenceChecks → EvaluatorHolds lib ctx
  unfolding EvidenceChecks Checks.check_evaluator_registered Checks.check_evaluator_signature
      signed_by
  evidence_holds h = elim (Option-cases agent) [
    | inl e ↦ ground arith
    | inr (a, e) ↦
        let recomputed : String = evaluation_digest lib (evaluation_of ctx) in
        let found : Option String =
          recover_address lib (to_bytes recomputed) evaluation.signature in
        (
          a,
          e,
          ground (arith, eq_iff a.agent_id (evaluation_of ctx).evaluator_id),
          ground arith,
          ground arith,
          ground (arith, eq_iff evaluation.digest recomputed),
          ground (arith, same_address_iff found (lower a.address)),
        )
  ]

  evidence_checked : EvaluatorHolds lib ctx → EvidenceChecks
  unfolding EvidenceChecks Checks.check_evaluator_registered Checks.check_evaluator_signature
      signed_by
  evidence_checked (a, e, named, role, active, digest, signed) = ground (
    arith,
    eq_iff a.agent_id (evaluation_of ctx).evaluator_id,
    eq_iff evaluation.digest (evaluation_digest lib (evaluation_of ctx)),
    same_address_iff
        (recover_address lib (to_bytes (evaluation_digest lib (evaluation_of ctx)))
          evaluation.signature)
        (lower a.address),
  )

  subject_iff : (Checks.check_evaluator_subject ctx ≡ none) ↔ (
      ((evaluation_of ctx).subject.mandate_id ≡ (charge_of ctx).mandate_id)
      × ((evaluation_of ctx).subject.basket_hash ≡ (charge_of ctx).basket_hash)
      × ((evaluation_of ctx).subject.amount ≡ (charge_of ctx).amount))
  unfolding Checks.check_evaluator_subject
  subject_iff = ground (
    arith,
    eq_iff (evaluation_of ctx).subject.mandate_id (charge_of ctx).mandate_id,
    eq_iff (evaluation_of ctx).subject.basket_hash (charge_of ctx).basket_hash,
    same_money_iff (evaluation_of ctx).subject.amount (charge_of ctx).amount,
  )

  status_iff :
      ((Checks.check_not_revoked ctx ≡ none) × (Checks.check_not_already_consumed ctx ≡ none))
      ↔ ((ctx.request.mandate_state.status ≡ minted) ⊎ (ctx.request.mandate_state.status ≡ bound))
  unfolding Checks.check_not_revoked Checks.check_not_already_consumed
  status_iff = ground arith

  -- Every deterministic check is satisfied exactly where the charge is authorised.
  pub facts_hold : All (λ c. c.run ctx ≡ none) (deterministic_checks lib) → Authorised lib ctx
  unfolding deterministic_checks Checks.check_mandate_digest Checks.check_charge_targets_mandate
      Checks.check_not_expired Checks.check_kill_switch Checks.check_nonce_not_reused
      Checks.check_currency_matches Checks.check_currency_is_settleable Checks.check_within_cap
      Checks.check_basket_binding RegisteredChecks EvidenceChecks
  facts_hold
        (
          c1,
          (
            c2,
            (
              c3,
              (
                c4,
                (
                  c5,
                  (
                    c6,
                    (
                      c7,
                      (
                        c8,
                        (
                          c9,
                          (c10, (c11, (c12, (c13, (c14, (c15, (c16, (c17, (c18, (c19, end)))))))))),
                        ),
                      ),
                    ),
                  ),
                ),
              ),
            ),
          ),
        ) =
      record {
        digest = (reject_text _ _ _).0 c1;
        issuer = issuer_iff.0 c2;
        target = (reject_text _ _ _).0 c3;
        alive = ground arith;
        spendable = status_iff.0 (c5, c6);
        running = ground arith;
        nonce = (reject_other _ _ _).0 c8;
        currency = ground (
          arith,
          same_currency_iff (charge_of ctx).amount.currency (mandate_of ctx).max_amount.currency,
        );
        settleable = ground (
          arith,
          same_currency_iff (mandate_of ctx).max_amount.currency ctx.config.settlement_currency,
        );
        capped = ground (arith, gt_money_iff (charge_of ctx).amount (mandate_of ctx).max_amount);
        merchant = merchant_holds (c12, c13, c14, c15);
        basket = (reject_other _ _ _).0 c16;
        evidence = evidence_holds (c17, c18);
        same_mandate = (subject_iff.0 c19).0;
        same_basket = (subject_iff.0 c19).1;
        same_amount = (subject_iff.0 c19).2;
      }

  pub facts_checked : Authorised lib ctx → All (λ c. c.run ctx ≡ none) (deterministic_checks lib)
  unfolding deterministic_checks Checks.check_mandate_digest Checks.check_charge_targets_mandate
      Checks.check_not_expired Checks.check_kill_switch Checks.check_nonce_not_reused
      Checks.check_currency_matches Checks.check_currency_is_settleable Checks.check_within_cap
      Checks.check_basket_binding RegisteredChecks EvidenceChecks
  facts_checked h =
      let m = merchant_checked h.merchant in
      let e = evidence_checked h.evidence in
      let s = status_iff.1 h.spendable in
      (
        (reject_text _ _ _).1 h.digest,
        (
          issuer_iff.1 h.issuer,
          (
            (reject_text _ _ _).1 h.target,
            (
              ground arith,
              (
                s.0,
                (
                  s.1,
                  (
                    ground arith,
                    (
                      (reject_other _ _ _).1 h.nonce,
                      (
                        ground (
                          arith,
                          same_currency_iff (charge_of ctx).amount.currency
                              (mandate_of ctx).max_amount.currency,
                        ),
                        (
                          ground (
                            arith,
                            same_currency_iff (mandate_of ctx).max_amount.currency
                                ctx.config.settlement_currency,
                          ),
                          (
                            ground (
                              arith,
                              gt_money_iff (charge_of ctx).amount (mandate_of ctx).max_amount,
                            ),
                            (
                              m.0,
                              (
                                m.1,
                                (
                                  m.2,
                                  (
                                    m.3,
                                    (
                                      (reject_other _ _ _).1 h.basket,
                                      (
                                        e.0,
                                        (
                                          e.1,
                                          (
                                            subject_iff.1
                                                (h.same_mandate, h.same_basket, h.same_amount),
                                            tt,
                                          ),
                                        ),
                                      ),
                                    ),
                                  ),
                                ),
                              ),
                            ),
                          ),
                        ),
                      ),
                    ),
                  ),
                ),
              ),
            ),
          ),
        ),
      )
