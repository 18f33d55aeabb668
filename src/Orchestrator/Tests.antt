-- ===== src/Orchestrator/Tests.antt =====
-- Runs of the orchestrator, and its theorems at a concrete purchase.
use cpfbuddies.Prelude.{
  none, some, ◌≡◌, refl, Bool-cases, inl, inr, subst, eq_iff, ◌==◌, arith, ℕ, List, true, [], ◌∷◌,
}
use cpfbuddies.Prelude.Dict.{get, set}
use cpfbuddies.Errors.{raise, err, ◌>>=◌, pure, review_not_pending, ok}
use cpfbuddies.Models.Mandate.{revoked, evolve}
use cpfbuddies.Models.Review.{ReviewHold, pending, killed, resolve, approvable}
use cpfbuddies.Models.Verdict.{Verdict, ReasonCode, review, failed_deterministically, fail}
use cpfbuddies.Stores.Mandates
use cpfbuddies.Stores.Holds.{get_hold, put_hold}
use cpfbuddies.Mandates.Rail.{now, new_hex32, write_store, record_entry}
use cpfbuddies.Mandates.Service
use cpfbuddies.Orchestrator.Office.{
  PurchaseOutcome, read_office, write_holds, on_rail, Office, OfficePorts,
}
use cpfbuddies.Orchestrator.Purchase.{
  kill_review, pending_or_raise, answerable, open_hold, judged, gathered, purchase, approve_review,
}
use cpfbuddies.Stores.Directories.{get_merchant, suspend_merchant}
use cpfbuddies.Orchestrator.Suspension.{suspend_merchant-judged}
use cpfbuddies.Orchestrator.Answers.{approves, kills, answer, IsFiled}
use cpfbuddies.Orchestrator.Later.{Event, answers, buys, calls, happen_all, answer-answer}
use cpfbuddies.Mandates.Runs.{Call}
use cpfbuddies.Routes.{refused}
use cpfbuddies.Routes.Purchases
use cpfbuddies.Samples.{
  charge, stored_rail, bound_mandate, mandate_1, ports, empty_rail, config, evidence, merchant,
  agent, charge_1, buyer, five, shop_address, four_twenty, basket_1,
}
use cpfbuddies.Models.Charge.{PurchaseCandidate}
use cpfbuddies.Orchestrator.Origins.{IsShopped, IsHeld}
use cpfbuddies.Orchestrator.Queueing.{Queued, purchase-Publishes, approve_review-Publishes}
use cpfbuddies.Settlement.Queue.{new_queue, default_max_receives}

abbrev candidate : PurchaseCandidate
candidate = record {
  merchant_id = "mrc_stub_sg";
  payout_address = shop_address;
  amount = four_twenty;
  basket_hash = basket_1;
  quote_id = "q_1";
  sku = "TB-SOFT-2PK";
  title = "Soft bristle toothbrush, 2 pack";
  quantity = 1;
}

-- The agents find the candidate, with a risk score.
abbrev office_ports : ℕ → OfficePorts
office_ports score = record {
  mandates = ports;
  config = config;
  shop =
      λ n intent cap mandate_id. ok (record { candidate = candidate; evaluation = evidence score });
}

abbrev office : Office
office = record {
  rail = empty_rail;
  merchants = ("mrc_stub_sg", merchant) ∷ [];
  agents = ("evaluator-rules-v1", agent) ∷ [];
  holds = [];
  queue = new_queue default_max_receives;
  shops = 0;
}

purchase-Publishes_example :
    Queued
      (office_ports 2)
      (IsShopped (office_ports 2) office "toothbrush under $5" five)
      office
      (purchase
        (office_ports 2)
        buyer
        "browser-agent-1"
        "toothbrush under $5"
        five
        600_000_000
        office).1
purchase-Publishes_example =
    purchase-Publishes (office_ports 2) office buyer "browser-agent-1" "toothbrush under $5" five
      600_000_000

-- A charge in the review band is held, and the buyer approves it.
abbrev after_purchase : Office
after_purchase =
    (purchase (office_ports 5) buyer "browser-agent-1" "toothbrush under $5" five 600_000_000
      office).1

approve_review-Publishes_example :
    Queued
      (office_ports 5)
      (IsHeld charge_1 after_purchase)
      after_purchase
      (approve_review (office_ports 5) charge_1 buyer after_purchase).1
approve_review-Publishes_example =
    approve_review-Publishes (office_ports 5) after_purchase charge_1 buyer

-- A REVIEW on the risk score.
abbrev verdict : Verdict
verdict = record {
  decision = review;
  reason_codes = ReasonCode.risk_score_review_band ∷ [];
  checks = [];
  mandate_id = mandate_1;
  charge_id = charge_1;
  risk_score = 5;
  evaluated_at = 1_000_000;
  verifier_version = "0.1.0";
  config_version = "00000000";
}

-- The charge of a bound mandate, held for review.
abbrev held : ReviewHold
held = record {
  charge_id = charge_1;
  mandate_id = mandate_1;
  verdict = verdict;
  charge = charge;
  evaluation = evidence 5;
  outcome = pending;
  held_at = 1_000_000;
  deadline = 1_600_000_000;
  resolved_by = none;
}

abbrev holding : Office
holding = record office { rail = stored_rail; holds = (charge_1, held) ∷ [] }

abbrev killing : PurchaseOutcome
killing = record {
  verdict = verdict;
  charge = charge;
  mandate = record bound_mandate { status = revoked; updated_at = 1_000_000_000 };
  hold = some (record held { outcome = killed; resolved_by = some buyer });
  queued_message_id = none;
}

holding-IsFiled : IsFiled holding.holds
unfolding get_hold get
holding-IsFiled k h e = elim (Bool-cases (charge_1 == k)) [
  | inl same ↦
      let is : held ≡ h = ground arith in
      subst (λ x. x.charge_id ≡ k) is ((eq_iff charge_1 k).0 same)
  | inr other ↦ ground arith
]

kills_held :
    answer (office_ports 5) (kills buyer) charge_1 holding
    ≡ (ok killing, (answer (office_ports 5) (kills buyer) charge_1 holding).1)
unfolding answer kill_review pending_or_raise answerable open_hold read_office write_holds on_rail
    ◌>>=◌ pure now new_hex32 write_store record_entry evolve resolve approvable
    failed_deterministically Service.revoke Service.transition Service.require_record
    Service.move_record Service.commit_change Service.log_event Service.append_audit
    Service.revoke_with Mandates.get Mandates.replace get_hold put_hold get set
kills_held = refl

-- The same office later, when other identifiers are drawn.
abbrev later_ports : OfficePorts
later_ports = record (office_ports 5) { mandates = record ports { random = λ n. mandate_1 } }

-- In between the buyer answers the charge again, and buys something else.
abbrev between : List Event
between =
    answers (kills buyer) charge_1
    ∷ buys buyer "browser-agent-1" "toothbrush under $5" five 600_000_000
    ∷ calls (Call.halt_all true buyer)
    ∷ []

abbrev much_later : Office
much_later =
    happen_all later_ports between (answer (office_ports 5) (kills buyer) charge_1 holding).1

answer-answer_example :
    answer later_ports (approves buyer) charge_1 much_later ≡ (err review_not_pending, much_later)
answer-answer_example =
    answer-answer (office_ports 5) later_ports (kills buyer) (approves buyer) charge_1 holding _
      killing between holding-IsFiled (λ n e. ground (arith, (eq_iff mandate_1 charge_1).1 e))
      kills_held

suspend_merchant-judged_example :
    (judged (office_ports 2) (
      gathered bound_mandate charge (evidence 2) 1_000_000_000 (record office {
        merchants = (suspend_merchant "mrc_stub_sg" office.merchants).1;
      }))).decision
    ≡ fail
unfolding get_merchant get
suspend_merchant-judged_example =
    suspend_merchant-judged (office_ports 2) "mrc_stub_sg" merchant bound_mandate charge
      (evidence 2) 1_000_000_000 office refl refl refl

unknown_hold_is_404 :
    (Purchases.serve (office_ports 5) (Purchases.Request.approve "0xunknown" buyer) holding).0
    ≡ refused 404
unfolding Purchases.serve approve_review ◌>>=◌ pending_or_raise read_office open_hold get_hold get
    raise
unknown_hold_is_404 = refl

answered_hold_is_409 :
    (Purchases.serve
      (office_ports 5)
      (Purchases.Request.kill charge_1 buyer)
      (record holding { holds = (charge_1, record held { outcome = killed }) ∷ [] })).0
    ≡ refused 409
unfolding Purchases.serve kill_review ◌>>=◌ pending_or_raise read_office open_hold get_hold get
    raise
answered_hold_is_409 = refl
