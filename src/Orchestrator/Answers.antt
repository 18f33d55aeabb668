-- ===== src/Orchestrator/Answers.antt =====
-- What an answer to a held charge leaves, and what becomes of a second one.
use cpfbuddies.Prelude.{ℕ, String, false, ◌≡◌, refl, sym, ◌∙◌, ap, subst, Option, none, some, arith}
use cpfbuddies.Prelude.Dict.{get-set_self}
use cpfbuddies.Errors.{ok, err, ◌>>=◌, pure, raise, review_not_pending}
use cpfbuddies.Errors.Success.{bind_ok, bind_err}
use cpfbuddies.Models.Mandate.{MandateRecord}
use cpfbuddies.Models.Charge.{Charge}
use cpfbuddies.Models.Verdict.{Verdict}
use cpfbuddies.Models.Review.{ReviewHold, HumanApproval, resolve, approved, killed}
use cpfbuddies.Stores.Holds.{ReviewHoldStore, put_hold, get_hold, is_pending}
use cpfbuddies.Stores.Directories.{get_merchant}
use cpfbuddies.Mandates.Service
use cpfbuddies.Settlement.Models.{new_request}
use cpfbuddies.Orchestrator.Office.{
  Office, OfficePorts, Task, PurchaseOutcome, on_rail, read_office, write_holds, write_queue,
}
use cpfbuddies.Orchestrator.Purchase.{
  clock, open_hold, require_merchant, constructed, verify_charge, publish_if_settleable, enqueue,
  answerable, pending_or_raise, approve_review, kill_review,
}

-- Every hold is filed under the charge that it holds.
abbrev pub IsFiled : ReviewHoldStore → Type 0
IsFiled holds = (k : String) (h : ReviewHold) → get_hold k holds ≡ some h → h.charge_id ≡ k

-- The hold of a charge has been answered.
abbrev pub IsAnswered : String → Office → Type 0
IsAnswered charge_id s =
    (h : ReviewHold) × (get_hold charge_id s.holds ≡ some h) × (is_pending h.outcome ≡ false)

put_hold-get : (h : ReviewHold) (s : ReviewHoldStore) → get_hold h.charge_id (put_hold h s) ≡ some h
unfolding put_hold get_hold
put_hold-get h s = get-set_self h.charge_id h s

same_holds :
    (charge_id : String) (s t : Office)
    → t.holds ≡ s.holds
    → IsAnswered charge_id s
    → IsAnswered charge_id t
same_holds charge_id s t same (h, found, answered) = (h, rw same found, answered)

-- If the task returns, the state it leaves has the property.
pub record Leaves {A : Type 0} (P : Office → Type 0) (m : Task A) (s : Office) : Type 0 where
  pub returned : (a : A) (s' : Office) → m s ≡ (ok a, s') → P s'

module _ {A B : Type 0} (P : Office → Type 0) (s : Office) where
  Leaves-bind :
      (m : Task A) (f : A → Task B)
      → ((a : A) (t : Office) → m s ≡ (ok a, t) → Leaves P (f a) t)
      → Leaves P (m >>= f) s
  Leaves-bind m f k = record {
    returned =
        λ b s' e. let (a, first, rest) = bind_ok m f s b s' e in (k a _ first).returned b s' rest;
  }

Leaves-pure : {A : Type 0} (P : Office → Type 0) (s : Office) (a : A) → P s → Leaves P (pure a) s
unfolding pure
Leaves-pure P s a h = record { returned = λ b s' e. subst (λ (p : _ × Office). P p.1) e h }

write_holds-ok :
    (f : ReviewHoldStore → ReviewHoldStore) (s t : Office) (u : Unit {0})
    → write_holds f s ≡ (ok u, t)
    → f s.holds ≡ t.holds
unfolding write_holds
write_holds-ok f s t u e = ap (λ p. p.1.holds) e

-- A human's answer to a held charge.
pub data Answer : Type 0 where
  approves kills : String → Answer

module _ (ports : OfficePorts) where
  pending_or_raise-IsAnswered :
      (charge_id : String) (s : Office)
      → IsAnswered charge_id s
      → pending_or_raise ports charge_id s ≡ (err review_not_pending, s)
  unfolding pending_or_raise ◌>>=◌ read_office open_hold raise
  pending_or_raise-IsAnswered charge_id s (h, found, answered) = rw (found, answered) refl

  answerable-ok :
      (h h' : ReviewHold) (at : ℕ) (s s' : Office) → answerable ports h at s ≡ (ok h', s') → h' ≡ h
  unfolding answerable ◌>>=◌ pure raise write_holds
  answerable-ok h h' at s s' e = ground arith

  open_hold-ok :
      (stored : Option ReviewHold) (h : ReviewHold) (s s' : Office)
      → open_hold stored s ≡ (ok h, s')
      → stored ≡ some h
  unfolding open_hold pure raise
  open_hold-ok none h s s' e = ground arith
  open_hold-ok (some x) h s s' e = ground arith

  read_office-ok :
      (charge_id : String) (s : Office) (stored : Option ReviewHold)
      → read_office (λ t. get_hold charge_id t.holds) s
        ≡ (ok stored, (read_office (λ t. get_hold charge_id t.holds) s).1)
      → get_hold charge_id s.holds ≡ stored
  unfolding read_office
  read_office-ok charge_id s stored e = ground arith

  -- What may be answered is stored.
  pub pending_or_raise-ok :
      (charge_id : String) (h : ReviewHold) (s s' : Office)
      → pending_or_raise ports charge_id s ≡ (ok h, s')
      → get_hold charge_id s.holds ≡ some h
  unfolding pending_or_raise
  pending_or_raise-ok charge_id h s s' e =
      let (stored, p0, e0) = bind_ok (read_office (λ t. get_hold charge_id t.holds)) _ s h s' e in
      let (x, p1, e1) = bind_ok (open_hold stored) _ _ h s' e0 in
      let (at, p2, e2) = bind_ok (clock ports) _ _ h s' e1 in
      let found = open_hold-ok stored x _ _ p1 in
      let same = answerable-ok x h at _ s' e2 in
      read_office-ok charge_id s stored p0 ∙ found ∙ ap (λ y. some y) (sym same)

  pub enqueue-holds :
      (r : MandateRecord) (charge : Charge) (v : Verdict) (approval : Option HumanApproval)
      (s : Office)
      → (enqueue ports r charge v approval s).1.holds ≡ s.holds
  unfolding enqueue constructed publish_if_settleable new_request ◌>>=◌ pure raise write_queue
  enqueue-holds r charge v approval s = ground arith

  -- An answer that is written is an answer to the charge.
  stored-IsAnswered :
      (charge_id : String) (h : ReviewHold) (s t : Office) (u : Unit {0})
      → h.charge_id ≡ charge_id
      → is_pending h.outcome ≡ false
      → write_holds (put_hold h) s ≡ (ok u, t)
      → IsAnswered charge_id t
  stored-IsAnswered charge_id h s t u same answered e = (
    h,
    subst (λ k. get_hold k t.holds ≡ some h) same
        (subst (λ d. get_hold h.charge_id d ≡ some h) (write_holds-ok _ s t u e)
          (put_hold-get h s.holds)),
    answered,
  )

  approve_review-IsAnswered :
      (charge_id approved_by : String) (s : Office)
      → IsFiled s.holds
      → Leaves (IsAnswered charge_id) (approve_review ports charge_id approved_by) s
  unfolding approve_review resolve
  approve_review-IsAnswered charge_id approved_by s filed =
      let P = IsAnswered charge_id in
      Leaves-bind P s (pending_or_raise ports charge_id) _ λ h t0 found.
        Leaves-bind P t0 (read_office (λ t. get_merchant h.charge.merchant_id t.merchants)) _
          λ listed t1 _. Leaves-bind P t1 (require_merchant listed) _ λ merchant t2 _.
            Leaves-bind P t2 (on_rail (Service.bind ports.mandates h.mandate_id _ approved_by)) _
              λ r t3 _. Leaves-bind P t3 (verify_charge ports r h.charge h.evaluation) _ λ v t4 _.
                Leaves-bind P t4 (clock ports) _ λ at t5 _.
                  Leaves-bind P t5 (write_holds (put_hold (resolve h approved approved_by))) _
                    λ u t6 e.
                      let same = filed charge_id h (pending_or_raise-ok charge_id h s t0 found) in
                      let answered : IsAnswered charge_id t6 =
                        stored-IsAnswered charge_id (resolve h approved approved_by) t5 t6 u same
                          refl e in
                      Leaves-bind P t6 (enqueue ports r h.charge v _) _ λ id t7 e'.
                        Leaves-pure P t7 _ (
                          same_holds charge_id t6 t7
                            (sym (ap (λ p. p.1.holds) e') ∙ enqueue-holds r h.charge v _ t6)
                            answered)

  kill_review-IsAnswered :
      (charge_id killed_by : String) (s : Office)
      → IsFiled s.holds
      → Leaves (IsAnswered charge_id) (kill_review ports charge_id killed_by) s
  unfolding kill_review resolve
  kill_review-IsAnswered charge_id killed_by s filed =
      let P = IsAnswered charge_id in
      Leaves-bind P s (pending_or_raise ports charge_id) _ λ h t0 found.
        Leaves-bind P t0 (on_rail (Service.revoke ports.mandates h.mandate_id killed_by)) _
          λ r t1 _.
            Leaves-bind P t1 (write_holds (put_hold (resolve h killed killed_by))) _ λ u t2 e.
              let same = filed charge_id h (pending_or_raise-ok charge_id h s t0 found) in
              Leaves-pure P t2 _
                (stored-IsAnswered charge_id (resolve h killed killed_by) t1 t2 u same refl e)

  unfoldable pub answer : Answer → String → Task PurchaseOutcome
  answer (approves by) charge_id = approve_review ports charge_id by
  answer (kills by) charge_id = kill_review ports charge_id by

  pub answer-IsAnswered :
      (a : Answer) (charge_id : String) (s : Office)
      → IsFiled s.holds
      → Leaves (IsAnswered charge_id) (answer a charge_id) s
  unfolding answer
  answer-IsAnswered (approves by) charge_id s filed = approve_review-IsAnswered charge_id by s filed
  answer-IsAnswered (kills by) charge_id s filed = kill_review-IsAnswered charge_id by s filed

  pub IsAnswered-refused :
      (a : Answer) (charge_id : String) (s : Office)
      → IsAnswered charge_id s
      → answer a charge_id s ≡ (err review_not_pending, s)
  unfolding answer approve_review kill_review
  IsAnswered-refused (approves by) charge_id s h =
      bind_err (pending_or_raise ports charge_id) _ s s _
        (pending_or_raise-IsAnswered charge_id s h)
  IsAnswered-refused (kills by) charge_id s h =
      bind_err (pending_or_raise ports charge_id) _ s s _
        (pending_or_raise-IsAnswered charge_id s h)
