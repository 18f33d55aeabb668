-- ===== src/Orchestrator/Quiet.antt =====
-- The orchestrator's steps that leave the settlement queue alone.
use cpfbuddies.Prelude.{String, ◌≡◌, refl, ◌∙◌, Option, arith}
use cpfbuddies.Errors.{Error, Result, ok, err, ◌>>=◌, pure, raise}
use cpfbuddies.Models.Money.{Money}
use cpfbuddies.Models.Mandate.{Timestamp, MandateRecord}
use cpfbuddies.Models.Charge.{Charge}
use cpfbuddies.Models.Evaluation.{SignedEvaluatorOutput}
use cpfbuddies.Models.Review.{ReviewHold, resolve, killed}
use cpfbuddies.Models.Registry.{MerchantRecord}
use cpfbuddies.Stores.Holds.{get_hold, put_hold}
use cpfbuddies.Orchestrator.Office.{
  ShoppingResult, Office, OfficePorts, Task, on_rail, read_office, write_holds, call_shop,
}
use cpfbuddies.Models.Verdict.{Verdict}
use cpfbuddies.Mandates.Rail.{Action}
use cpfbuddies.Mandates.Service
use cpfbuddies.Orchestrator.Purchase.{
  judged, clock, gathered, new_hold, open_hold, require_merchant, verify_charge, hold_charge,
  record_agent_work, answerable, pending_or_raise, kill_review,
}

-- The action leaves the queue alone.
pub record Quiet {A : Type 0} (m : Task A) (s : Office) : Type 0 where
  pub same : (m s).1.queue ≡ s.queue

-- What `>>=` does with the result of its first step
abbrev pub continued : {A B : Type 0} → Result A × Office → (A → Task B) → Result B × Office
continued p f = elim p.0 [ ok a ↦ f a p.1 | err e ↦ (err e, p.1) ]

module _ {A B : Type 0} (s : Office) where
  bind-queue_at :
      (p : Result A × Office) (f : A → Task B)
      → p.1.queue ≡ s.queue
      → ((a : A) → p.0 ≡ ok a → (f a p.1).1.queue ≡ s.queue)
      → (continued p f).1.queue ≡ s.queue
  bind-queue_at (ok a, t) f h k = k a refl
  bind-queue_at (err e, t) f h k = h

  pub Quiet-bind :
      (m : Task A) (f : A → Task B)
      → Quiet m s
      → ((a : A) → (m s).0 ≡ ok a → Quiet (f a) (m s).1)
      → Quiet (m >>= f) s
  unfolding ◌>>=◌
  Quiet-bind m f h k = record { same = bind-queue_at (m s) f h.same (λ a e. (k a e).same ∙ h.same) }

module _ {A : Type 0} (s : Office) where
  pub Quiet-pure : (a : A) → Quiet (pure a) s
  unfolding pure
  Quiet-pure a = record { same = refl }

  pub Quiet-raise : (e : Error) → Quiet (raise {A = A} e) s
  unfolding raise
  Quiet-raise e = record { same = refl }

  pub Quiet-on_rail : (m : Action A) → Quiet (on_rail m) s
  unfolding on_rail
  Quiet-on_rail m = record { same = refl }

  pub Quiet-read_office : (f : Office → A) → Quiet (read_office f) s
  unfolding read_office
  Quiet-read_office f = record { same = refl }

pub Quiet-write_holds : (s : Office) (f : _) → Quiet (write_holds f) s
unfolding write_holds
Quiet-write_holds s f = record { same = refl }

Quiet-new_hold : (s : Office) (h : ReviewHold) → Quiet (new_hold h) s
unfolding new_hold pure raise
Quiet-new_hold s h = record { same = ground arith }

Quiet-open_hold : (s : Office) (h : Option ReviewHold) → Quiet (open_hold h) s
unfolding open_hold pure raise
Quiet-open_hold s h = record { same = ground arith }

pub Quiet-require_merchant : (s : Office) (m : Option MerchantRecord) → Quiet (require_merchant m) s
unfolding require_merchant pure raise
Quiet-require_merchant s m = record { same = ground arith }

module _ (ports : OfficePorts) where
  pub Quiet-verify_charge :
      (s : Office) (r : MandateRecord) (charge : Charge) (evidence : SignedEvaluatorOutput)
      → Quiet (verify_charge ports r charge evidence) s
  unfolding verify_charge
  Quiet-verify_charge s r charge evidence =
      Quiet-bind s (clock ports) _ (Quiet-on_rail s _) (λ at _.
        Quiet-bind _ (read_office (gathered r charge evidence at)) _ (Quiet-read_office _ _)
          (λ request _.
            Quiet-bind _ (on_rail (Service.record_verdict ports.mandates (judged ports request))) _
              (Quiet-on_rail _ _) (λ _ _. Quiet-pure _ _)))

  pub Quiet-hold_charge :
      (s : Office) (r : MandateRecord) (charge : Charge) (evidence : SignedEvaluatorOutput)
      (v : Verdict)
      → Quiet (hold_charge ports r charge evidence v) s
  unfolding hold_charge
  Quiet-hold_charge s r charge evidence v =
      Quiet-bind s (clock ports) _ (Quiet-on_rail s _) (λ at _.
        Quiet-bind _ (new_hold _) _ (Quiet-new_hold _ _) (λ h _.
          Quiet-bind _ (write_holds (put_hold h)) _ (Quiet-write_holds _ _)
            (λ _ _. Quiet-pure _ _)))

  pub Quiet-record_agent_work :
      (s : Office) (mandate_id agent_id : String) (found : ShoppingResult)
      → Quiet (record_agent_work ports mandate_id agent_id found) s
  unfolding record_agent_work
  Quiet-record_agent_work s mandate_id agent_id found =
      Quiet-bind s (on_rail (Service.record_candidate_selected ports.mandates mandate_id agent_id))
        _ (Quiet-on_rail s _) (λ _ _. Quiet-on_rail _ _)

  Quiet-answerable :
      (s : Office) (h : ReviewHold) (at : Timestamp) → Quiet (answerable ports h at) s
  unfolding answerable ◌>>=◌ write_holds raise pure
  Quiet-answerable s h at = record { same = ground arith }

  pub Quiet-pending_or_raise :
      (s : Office) (charge_id : String) → Quiet (pending_or_raise ports charge_id) s
  unfolding pending_or_raise
  Quiet-pending_or_raise s charge_id =
      Quiet-bind s (read_office (λ t. get_hold charge_id t.holds)) _ (Quiet-read_office s _)
        (λ stored _. Quiet-bind _ (open_hold stored) _ (Quiet-open_hold _ stored) (λ h _.
          Quiet-bind _ (clock ports) _ (Quiet-on_rail _ _) (λ at _. Quiet-answerable _ h at)))

  pub Quiet-kill_review :
      (s : Office) (charge_id killed_by : String) → Quiet (kill_review ports charge_id killed_by) s
  unfolding kill_review
  Quiet-kill_review s charge_id killed_by =
      Quiet-bind s (pending_or_raise ports charge_id) _ (Quiet-pending_or_raise s charge_id) (λ h _.
        Quiet-bind _ (on_rail (Service.revoke ports.mandates h.mandate_id killed_by)) _
          (Quiet-on_rail _ _)
          (λ r _.
            Quiet-bind _ (write_holds (put_hold (resolve h killed killed_by))) _
              (Quiet-write_holds _ _) (λ _ _. Quiet-pure _ _)))

  pub Quiet-call_shop :
      (s : Office) (intent : String) (max_amount : Money) (mandate_id : String)
      → Quiet (call_shop ports intent max_amount mandate_id) s
  unfolding call_shop
  Quiet-call_shop s intent max_amount mandate_id = record { same = refl }
