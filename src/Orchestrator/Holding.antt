-- ===== src/Orchestrator/Holding.antt =====
-- What the orchestrator's operations write to the holds: the answers to holds, and the holds of new charges.
use cpfbuddies.Prelude.{
  ℕ, String, false, ◌≡◌, refl, ap, sym, ◌∙◌, subst, inl, inr, leb, Bool-cases, Option, none, arith,
}
use cpfbuddies.Errors.{ok, ◌>>=◌, pure, raise}
use cpfbuddies.Errors.Success.{bind_post}
use cpfbuddies.Models.Money.{Money}
use cpfbuddies.Models.Mandate.{MandateRecord, record_id}
use cpfbuddies.Models.Charge.{Charge}
use cpfbuddies.Models.Evaluation.{SignedEvaluatorOutput}
use cpfbuddies.Models.Registry.{MerchantRecord}
use cpfbuddies.Models.Review.{ReviewHold, resolve, approved, killed}
use cpfbuddies.Models.Verdict.{Verdict, Decision, pass, review, fail}
use cpfbuddies.Stores.Holds.{ReviewHoldStore, put_hold, get_hold, is_pending}
use cpfbuddies.Stores.Directories.{get_merchant, get_agent}
use cpfbuddies.Mandates.Rail.{Action, now, new_hex32, record_entry}
use cpfbuddies.Mandates.Service
use cpfbuddies.Orchestrator.Office.{
  Office, OfficePorts, ShoppingResult, Task, on_rail, read_office, write_holds, call_shop,
}
use cpfbuddies.Orchestrator.Purchase.{
  clock, address_of, charge_for, new_hold, open_hold, require_merchant, verify_charge, hold_charge,
  enqueue, dispatch, record_agent_work, purchase, answerable, pending_or_raise, approve_review,
  kill_review,
}
use cpfbuddies.Orchestrator.Answers.{Answer, approves, kills, answer, enqueue-holds}

-- The task takes holds with the property to holds with the property, whether it returns or raises.
pub record Keeps (P : ReviewHoldStore → Type 0) {A : Type 0} (m : Task A) (s : Office)
    : Type 0 where
  pub kept : P s.holds → P (m s).1.holds

module _ (P : ReviewHoldStore → Type 0) where
  module _ {A : Type 0} where
    Keeps-same : (m : Task A) (s : Office) → (m s).1.holds ≡ s.holds → Keeps P m s
    Keeps-same m s same = record { kept = λ h. subst P (sym same) h }

    Keeps-bind :
        {B : Type 0} (m : Task A) (f : A → Task B) (s : Office)
        → Keeps P m s
        → ((a : A) → (m s).0 ≡ ok a → Keeps P (f a) (m s).1)
        → Keeps P (m >>= f) s
    Keeps-bind m f s h k = record {
      kept = λ p.
          bind_post (λ q. P q.1.holds) m f s (λ e _. h.kept p) (λ a e. (k a e).kept (h.kept p));
    }

    Keeps-pure : (a : A) (s : Office) → Keeps P (pure a) s
    unfolding pure
    Keeps-pure a s = Keeps-same (pure a) s refl

    Keeps-on_rail : (m : Action A) (s : Office) → Keeps P (on_rail m) s
    unfolding on_rail
    Keeps-on_rail m s = Keeps-same (on_rail m) s refl

    Keeps-read_office : (f : Office → A) (s : Office) → Keeps P (read_office f) s
    unfolding read_office
    Keeps-read_office f s = Keeps-same (read_office f) s refl

  Keeps-put :
      (h : ReviewHold) (s : Office)
      → ((d : ReviewHoldStore) → P d → P (put_hold h d))
      → Keeps P (write_holds (put_hold h)) s
  unfolding write_holds
  Keeps-put h s puts = record { kept = puts s.holds }

  Keeps-open_hold : (stored : Option ReviewHold) (s : Office) → Keeps P (open_hold stored) s
  unfolding open_hold pure raise
  Keeps-open_hold stored s = Keeps-same (open_hold stored) s (ground arith)

  Keeps-require_merchant :
      (listed : Option MerchantRecord) (s : Office) → Keeps P (require_merchant listed) s
  unfolding require_merchant pure raise
  Keeps-require_merchant listed s = Keeps-same (require_merchant listed) s (ground arith)

  Keeps-new_hold : (h : ReviewHold) (s : Office) → Keeps P (new_hold h) s
  unfolding new_hold pure raise
  Keeps-new_hold h s = Keeps-same (new_hold h) s (ground arith)

new_hold-ok : (x h : ReviewHold) (s : Office) → (new_hold x s).0 ≡ ok h → x ≡ h
unfolding new_hold pure raise
new_hold-ok x h s e = ground arith

module _ (ports : OfficePorts) where
  verify_charge-holds :
      (r : MandateRecord) (charge : Charge) (evidence : SignedEvaluatorOutput) (s : Office)
      → (verify_charge ports r charge evidence s).1.holds ≡ s.holds
  unfolding verify_charge ◌>>=◌ pure on_rail read_office now Service.record_verdict
      Service.append_audit new_hex32 record_entry
  verify_charge-holds r charge evidence s = refl

  record_agent_work-holds :
      (mandate_id agent_id : String) (found : ShoppingResult) (s : Office)
      → (record_agent_work ports mandate_id agent_id found s).1.holds ≡ s.holds
  unfolding record_agent_work ◌>>=◌ on_rail now Service.record_candidate_selected
      Service.record_evaluation Service.append_audit new_hex32 record_entry
  record_agent_work-holds mandate_id agent_id found s = refl

  call_shop-holds :
      (intent : String) (max_amount : Money) (mandate_id : String) (s : Office)
      → (call_shop ports intent max_amount mandate_id s).1.holds ≡ s.holds
  unfolding call_shop
  call_shop-holds intent max_amount mandate_id s = refl

-- Answers are written, to whatever hold.
module _ (ports : OfficePorts) (P : ReviewHoldStore → Type 0)
    (puts : (h : ReviewHold)
      → is_pending h.outcome ≡ false
      → (d : ReviewHoldStore) → P d
      → P (put_hold h d)) where
  Keeps-answerable : (h : ReviewHold) (at : ℕ) (s : Office) → Keeps P (answerable ports h at) s
  unfolding answerable ◌>>=◌ pure raise write_holds resolve
  Keeps-answerable h at s = elim (Bool-cases (leb h.deadline at)) [
    | inl late ↦ record { kept = λ p. rw late (puts _ refl s.holds p) }
    | inr timely ↦ Keeps-same P _ s (ground (arith, timely))
  ]

  Keeps-pending_or_raise : (id : String) (s : Office) → Keeps P (pending_or_raise ports id) s
  unfolding pending_or_raise
  Keeps-pending_or_raise id s =
      Keeps-bind P (read_office (λ t. get_hold id t.holds)) _ s (Keeps-read_office P _ s)
        λ stored _. Keeps-bind P (open_hold stored) _ _ (Keeps-open_hold P stored _) λ h _.
          Keeps-bind P (clock ports) _ _ (Keeps-on_rail P _ _) λ at _. Keeps-answerable h at _

  Keeps-approve_review :
      (id approved_by : String) (s : Office) → Keeps P (approve_review ports id approved_by) s
  unfolding approve_review resolve
  Keeps-approve_review id approved_by s =
      Keeps-bind P (pending_or_raise ports id) _ s (Keeps-pending_or_raise id s) λ h _.
        Keeps-bind P (read_office (λ t. get_merchant h.charge.merchant_id t.merchants)) _ _
          (Keeps-read_office P _ _)
          λ listed _.
            Keeps-bind P (require_merchant listed) _ _ (Keeps-require_merchant P listed _)
              λ merchant _.
                Keeps-bind P (on_rail (Service.bind ports.mandates h.mandate_id _ approved_by)) _ _
                  (Keeps-on_rail P _ _)
                  λ r _.
                    Keeps-bind P (verify_charge ports r h.charge h.evaluation) _ _
                      (Keeps-same P _ _ (verify_charge-holds ports r h.charge h.evaluation _))
                      λ v _. Keeps-bind P (clock ports) _ _ (Keeps-on_rail P _ _) λ at _.
                        Keeps-bind P (write_holds (put_hold (resolve h approved approved_by))) _ _
                          (Keeps-put P _ _ (puts (resolve h approved approved_by) refl))
                          λ _ _.
                            Keeps-bind P (enqueue ports r h.charge v _) _ _
                              (Keeps-same P _ _ (enqueue-holds ports r h.charge v _ _))
                              λ _ _. Keeps-pure P _ _

  Keeps-kill_review :
      (id killed_by : String) (s : Office) → Keeps P (kill_review ports id killed_by) s
  unfolding kill_review resolve
  Keeps-kill_review id killed_by s =
      Keeps-bind P (pending_or_raise ports id) _ s (Keeps-pending_or_raise id s) λ h _.
        Keeps-bind P (on_rail (Service.revoke ports.mandates h.mandate_id killed_by)) _ _
          (Keeps-on_rail P _ _)
          λ r _.
            Keeps-bind P (write_holds (put_hold (resolve h killed killed_by))) _ _
              (Keeps-put P _ _ (puts (resolve h killed killed_by) refl)) λ _ _. Keeps-pure P _ _

  pub Keeps-answer : (a : Answer) (id : String) (s : Office) → Keeps P (answer ports a id) s
  unfolding answer
  Keeps-answer (approves by) id s = record { kept = (Keeps-approve_review id by s).kept }
  Keeps-answer (kills by) id s = record { kept = (Keeps-kill_review id by s).kept }

-- A new charge is held, under an id that was drawn for it.
module _ (ports : OfficePorts) (P : ReviewHoldStore → Type 0)
    (puts : (h : ReviewHold) (n : ℕ)
      → h.charge_id ≡ ports.mandates.random n
      → (d : ReviewHoldStore) → P d
      → P (put_hold h d)) where
  Keeps-hold_charge :
      (r : MandateRecord) (charge : Charge) (evidence : SignedEvaluatorOutput) (v : Verdict) (n : ℕ)
      (s : Office)
      → charge.charge_id ≡ ports.mandates.random n
      → Keeps P (hold_charge ports r charge evidence v) s
  unfolding hold_charge
  Keeps-hold_charge r charge evidence v n s drawn =
      Keeps-bind P (clock ports) _ s (Keeps-on_rail P _ s) λ at _.
        Keeps-bind P (new_hold _) _ _ (Keeps-new_hold P _ _) λ h e.
          Keeps-bind P (write_holds (put_hold h)) _ _
            (Keeps-put P h _ (puts h n (ap (λ x. x.charge_id) (sym (new_hold-ok _ h _ e)) ∙ drawn)))
            λ _ _. Keeps-pure P _ _

  Keeps-dispatch :
      (r : MandateRecord) (charge : Charge) (evidence : SignedEvaluatorOutput) (v : Verdict)
      (d : Decision) (n : ℕ) (s : Office)
      → charge.charge_id ≡ ports.mandates.random n
      → Keeps P (dispatch ports r charge evidence v d) s
  unfolding dispatch
  Keeps-dispatch r charge evidence v review n s drawn =
      Keeps-bind P (hold_charge ports r charge evidence v) _ s
        (Keeps-hold_charge r charge evidence v n s drawn) (λ _ _. Keeps-pure P _ _)
  Keeps-dispatch r charge evidence v pass n s drawn =
      Keeps-bind P (enqueue ports r charge v none) _ s
        (Keeps-same P _ s (enqueue-holds ports r charge v none s)) (λ _ _. Keeps-pure P _ _)
  Keeps-dispatch r charge evidence v fail n s drawn =
      Keeps-bind P (enqueue ports r charge v none) _ s
        (Keeps-same P _ s (enqueue-holds ports r charge v none s)) (λ _ _. Keeps-pure P _ _)

  drawn_at :
      (s : Office) (id : String)
      → (on_rail (new_hex32 ports.mandates) s).0 ≡ ok id
      → id ≡ ports.mandates.random s.rail.draws
  unfolding on_rail new_hex32
  drawn_at s id e = ground arith

  charge_for-id :
      (found : ShoppingResult) (mandate_id id : String)
      → (charge_for found.candidate mandate_id id).charge_id ≡ id
  unfolding charge_for
  charge_for-id found mandate_id id = refl

  pub Keeps-purchase :
      (principal agent_id intent : String) (max_amount : Money) (ttl : ℕ) (s : Office)
      → Keeps P (purchase ports principal agent_id intent max_amount ttl) s
  unfolding purchase
  Keeps-purchase principal agent_id intent max_amount ttl s =
      Keeps-bind P (read_office (λ t. get_agent agent_id t.agents)) _ s (Keeps-read_office P _ s)
        λ agent _.
          Keeps-bind P
            (on_rail (
              Service.mint ports.mandates principal agent_id max_amount intent ttl
                (address_of agent)))
            _ _ (Keeps-on_rail P _ _)
            λ r _.
              Keeps-bind P (call_shop ports intent max_amount (record_id r)) _ _
                (Keeps-same P _ _ (call_shop-holds ports intent max_amount (record_id r) _))
                λ found _.
                  Keeps-bind P (on_rail (new_hex32 ports.mandates)) _ _ (Keeps-on_rail P _ _)
                    λ id e.
                      Keeps-bind P (record_agent_work ports (record_id r) agent_id found) _ _
                        (Keeps-same P _ _
                          (record_agent_work-holds ports (record_id r) agent_id found _))
                        λ _ _.
                          Keeps-bind P (verify_charge ports r _ found.evaluation) _ _
                            (Keeps-same P _ _ (verify_charge-holds ports r _ found.evaluation _))
                            λ v _.
                              Keeps-dispatch r _ found.evaluation v v.decision _ _
                                (charge_for-id found (record_id r) id ∙ drawn_at _ id e)
