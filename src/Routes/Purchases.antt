-- ===== src/Routes/Purchases.antt =====
-- The HTTP surface of the Purchase Orchestrator: src/trustrail/orchestrator/api.py.
use cpfbuddies.Prelude.{ℕ, String, Option, none, some, List}
use cpfbuddies.Errors.{Error, Result, ok, err, no_candidate, review_not_found, review_not_pending}
use cpfbuddies.Models.Money.{Money}
use cpfbuddies.Models.Review.{ReviewHold}
use cpfbuddies.Orchestrator.Office.{OfficePorts, Office, PurchaseOutcome}
use cpfbuddies.Orchestrator.Purchase
use cpfbuddies.Stores.Holds.{get_hold}
use cpfbuddies.Routes.{Reply, answered, refused, refusal, from_seconds}

-- A request whose fields were accepted
pub data Request : Type 0 where
  purchase : String → String → String → Money → ℕ → Request
  pending_reviews : Request
  get_review : String → Request
  approve kill : String → String → Request

pub data Body : Type 0 where
  outcome : PurchaseOutcome → Body
  hold : ReviewHold → Body
  holds : List ReviewHold → Body

-- The errors of a purchase: `NoCandidate` is answered with 502.
unfoldable pub purchase_refusal : Error → ℕ
unfolding refusal
purchase_refusal no_candidate = 502
purchase_refusal e = refusal e

-- `_hold_errors`
unfoldable pub hold_refusal : Error → ℕ
unfolding refusal
hold_refusal review_not_found = 404
hold_refusal review_not_pending = 409
hold_refusal e = refusal e

abbrev answer : {A : Type 0} → (Error → ℕ) → (A → Body) → Result A → Reply Body
answer status body (ok a) = answered 200 (body a)
answer status body (err e) = refused (status e)

abbrev hold_or_404 : Option ReviewHold → Reply Body
hold_or_404 none = refused 404
hold_or_404 (some h) = answered 200 (hold h)

module _ (ports : OfficePorts) where
  -- The handlers of the router
  unfoldable pub serve : Request → Office → Reply Body × Office
  unfolding purchase_refusal hold_refusal
  serve (purchase principal agent_id intent max_amount ttl_seconds) s =
      let (r, s') =
        Purchase.purchase ports principal agent_id intent max_amount (from_seconds ttl_seconds) s in
      (answer purchase_refusal outcome r, s')
  serve pending_reviews s =
      let (r, s') = Purchase.pending_reviews ports s in (answer hold_refusal holds r, s')
  serve (get_review charge_id) s = (hold_or_404 (get_hold charge_id s.holds), s)
  serve (approve charge_id actor) s =
      let (r, s') = Purchase.approve_review ports charge_id actor s in
      (answer hold_refusal outcome r, s')
  serve (kill charge_id actor) s =
      let (r, s') = Purchase.kill_review ports charge_id actor s in
      (answer hold_refusal outcome r, s')
