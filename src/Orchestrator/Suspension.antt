-- ===== src/Orchestrator/Suspension.antt =====
-- Suspending a merchant stops its charges (src/trustrail/orchestrator/onboarding.py and `_verify` of
-- src/trustrail/orchestrator/purchase.py).
use cpfbuddies.Prelude.{String, false, sym, Option, none, ◌≡◌, some, inl, arith, subst}
use cpfbuddies.Prelude.Dict
use cpfbuddies.Prelude.Dict.{get-set_self}
use cpfbuddies.Models.Mandate.{Timestamp, MandateRecord}
use cpfbuddies.Models.Charge.{Charge}
use cpfbuddies.Models.Evaluation.{SignedEvaluatorOutput}
use cpfbuddies.Models.Registry.{MerchantRecord}
use cpfbuddies.Models.Verdict.{fail}
use cpfbuddies.Stores.Directories.{MerchantDirectory, get_merchant, put_merchant, suspend_merchant}
use cpfbuddies.Verifier.Authority.{Authorised}
use cpfbuddies.Verifier.Decision.{context, verify-eq-fail_iff}
use cpfbuddies.Orchestrator.Office.{Office, OfficePorts}
use cpfbuddies.Orchestrator.Purchase.{judged, gathered}

-- What `suspend_merchant` does once it has looked the merchant up
abbrev after_suspension :
    Option MerchantRecord → MerchantDirectory → Option MerchantRecord × MerchantDirectory
after_suspension o d = elim o [
  | none ↦ (none, d)
  | some r ↦
      let suspended = record r { is_active = false } in
      (some suspended, Dict.set suspended.merchant_id suspended d)
]

-- A suspended merchant is still registered, and inactive.
get_merchant-suspend_merchant :
    (id : String) (d : MerchantDirectory) (m : MerchantRecord)
    → get_merchant id d ≡ some m
    → m.merchant_id ≡ id
    → get_merchant id (suspend_merchant id d).1 ≡ some (record m { is_active = false })
unfolding get_merchant suspend_merchant put_merchant
get_merchant-suspend_merchant id d m found same =
    let suspended = record m { is_active = false } in
    let stored : Dict.get id (Dict.set m.merchant_id suspended d) ≡ some suspended =
      subst (λ k. Dict.get k (Dict.set m.merchant_id suspended d) ≡ some suspended) same
        (get-set_self m.merchant_id suspended d) in
    subst (λ o. Dict.get id (after_suspension o d).1 ≡ some suspended) (sym found) stored

module _ (ports : OfficePorts) where
  -- Once a registered merchant has been suspended, the verifier's verdict on each charge that names it is
  -- FAIL, whatever the mandate, the evidence and the time.
  pub suspend_merchant-judged :
      (id : String) (m : MerchantRecord) (r : MandateRecord) (charge : Charge)
      (evidence : SignedEvaluatorOutput) (at : Timestamp) (s : Office)
      → get_merchant id s.merchants ≡ some m
      → m.merchant_id ≡ id
      → charge.merchant_id ≡ id
      → (judged ports (
          gathered r charge evidence at
            (record s { merchants = (suspend_merchant id s.merchants).1 }))).decision
        ≡ fail
  unfolding gathered
  suspend_merchant-judged id m r charge evidence at s found same named =
      let after = record s { merchants = (suspend_merchant id s.merchants).1 } in
      let request = gathered r charge evidence at after in
      let listed = get_merchant-suspend_merchant id s.merchants m found same in
      let refuted : ¬ Authorised ports.mandates.lib (context ports.config request) =
        λ h. let (x, is, active, _, _) = h.merchant in ground (arith, is, active, named, listed) in
      (verify-eq-fail_iff ports.mandates.lib ports.config request).1 (inl refuted)
