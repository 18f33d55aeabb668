-- ===== src/Orchestrator/Later.antt =====
-- What happens to a held charge after its answer.
use cpfbuddies.Prelude.{
  ℕ, String, false, ◌≡◌, ◌≢◌, sym, ◌∙◌, some, List, [], ◌∷◌, arith, inl, inr, Bool-cases, ◌==◌,
  eq_iff,
}
use cpfbuddies.Prelude.Dict.{get-set}
use cpfbuddies.Errors.{ok, err, review_not_pending}
use cpfbuddies.Models.Money.{Money}
use cpfbuddies.Models.Review.{ReviewHold}
use cpfbuddies.Stores.Holds.{ReviewHoldStore, put_hold, get_hold, is_pending}
use cpfbuddies.Mandates.Runs
use cpfbuddies.Mandates.Runs.{Call}
use cpfbuddies.Orchestrator.Office.{Office, OfficePorts, PurchaseOutcome}
use cpfbuddies.Orchestrator.Purchase.{purchase}
use cpfbuddies.Orchestrator.Answers.{Answer, answer, IsFiled, answer-IsAnswered, IsAnswered-refused}
use cpfbuddies.Orchestrator.Holding.{Keeps-answer, Keeps-purchase}

-- What may be asked in between: an answer to a charge, a purchase, a call of the Mandate Service.
pub data Event : Type 0 where
  answers : Answer → String → Event
  buys : String → String → String → Money → ℕ → Event
  calls : Call → Event

module _ (ports : OfficePorts) where
  abbrev pub happen : Event → Office → Office
  happen (answers a charge_id) s = (answer ports a charge_id s).1
  happen (buys principal agent_id intent max_amount ttl) s =
      (purchase ports principal agent_id intent max_amount ttl s).1
  happen (calls c) s = record s { rail = Runs.step ports.mandates c s.rail }

  abbrev pub happen_all : List Event → Office → Office
  happen_all [] s = s
  happen_all (e ∷ es) s = happen_all es (happen e s)

put_hold-IsFiled : (h : ReviewHold) (d : ReviewHoldStore) → IsFiled d → IsFiled (put_hold h d)
unfolding put_hold get_hold
put_hold-IsFiled h d filed k x e =
    ground (arith, filed k x, get-set h.charge_id k h d, eq_iff h.charge_id k)

-- The charge has been answered, in these holds.
abbrev HasAnswer : String → ReviewHoldStore → Type 0
HasAnswer charge_id d =
    (h : ReviewHold) × (get_hold charge_id d ≡ some h) × (is_pending h.outcome ≡ false)

put_hold-HasAnswer :
    (charge_id : String) (h : ReviewHold) (d : ReviewHoldStore)
    → (h.charge_id ≡ charge_id → is_pending h.outcome ≡ false)
    → HasAnswer charge_id d
    → HasAnswer charge_id (put_hold h d)
unfolding put_hold get_hold
put_hold-HasAnswer charge_id h d answered (x, found, y) =
    elim (Bool-cases (h.charge_id == charge_id)) [
      | inl same ↦ (
        h,
        ground (arith, same, get-set h.charge_id charge_id h d),
        answered ((eq_iff h.charge_id charge_id).0 same),
      )
      | inr other ↦ (x, ground (arith, other, found, get-set h.charge_id charge_id h d), y)
    ]

module _ (ports : OfficePorts) (charge_id : String)
    (fresh : (n : ℕ) → ports.mandates.random n ≢ charge_id) where
  happen-HasAnswer :
      (e : Event) (s : Office)
      → HasAnswer charge_id s.holds
      → HasAnswer charge_id (happen ports e s).holds
  happen-HasAnswer (answers a id) s h =
      (Keeps-answer ports (HasAnswer charge_id)
          (λ x answered d. put_hold-HasAnswer charge_id x d (λ _. answered)) a id s).kept
        h
  happen-HasAnswer (buys principal agent_id intent max_amount ttl) s h =
      (Keeps-purchase ports (HasAnswer charge_id)
          (λ x n drawn d.
            put_hold-HasAnswer charge_id x d (λ same. absurd (fresh n (sym drawn ∙ same))))
          principal agent_id intent max_amount ttl s).kept
        h
  happen-HasAnswer (calls c) s h = h

  happen_all-HasAnswer :
      (es : List Event) (s : Office)
      → HasAnswer charge_id s.holds
      → HasAnswer charge_id (happen_all ports es s).holds
  happen_all-HasAnswer [] s h = h
  happen_all-HasAnswer (e ∷ es) s h = happen_all-HasAnswer es _ (happen-HasAnswer e s h)

-- A held charge is answered at most once: where every hold is filed under its charge and an approval or a rejection of a
-- charge has returned, each later approval or rejection of it raises and changes nothing, whatever answers to charges,
-- purchases and calls of the Mandate Service come in between, and whether they return or raise, if no identifier that is
-- drawn after the answer is that of the charge.
pub answer-answer :
    (ports later : OfficePorts) (first second : Answer) (charge_id : String) (s s' : Office)
    (o : PurchaseOutcome) (events : List Event)
    → IsFiled s.holds
    → ((n : ℕ) → later.mandates.random n ≢ charge_id)
    → answer ports first charge_id s ≡ (ok o, s')
    → answer later second charge_id (happen_all later events s')
      ≡ (err review_not_pending, happen_all later events s')
answer-answer ports later first second charge_id s s' o events filed fresh e =
    IsAnswered-refused later second charge_id _ (
      happen_all-HasAnswer later charge_id fresh events s'
        ((answer-IsAnswered ports first charge_id s filed).returned o s' e))
