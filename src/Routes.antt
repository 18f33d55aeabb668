-- ===== src/Routes.antt =====
-- The HTTP surface of the Mandate Service and the Verifier: src/trustrail/mandate/api.py, src/trustrail/verifier/api.py, and
-- the error handler of src/trustrail/app.py.
pub mod Once
pub mod Purchases
use cpfbuddies.Prelude.{ℕ, ◌*◌, String, Bool, true, false, Option, none, some, List, if◌then◌else◌}
use cpfbuddies.Errors.{
  Result, ok, err, Error, mandate_not_found, mandate_already_exists, nonce_already_claimed,
  mandate_status_conflict, mandate_registration_failed, illegal_binding, review_not_found,
  review_not_pending,
}
use cpfbuddies.Models.Money.{Money}
use cpfbuddies.Models.Mandate.{MandateRecord, MandateBinding}
use cpfbuddies.Models.Audit.{AuditEntry}
use cpfbuddies.Models.Verdict.{Verdict, VerificationRequest}
use cpfbuddies.Models.Config.{VerifierConfig}
use cpfbuddies.Stores.Mandates
use cpfbuddies.Mandates.Rail.{Ports, Rail}
use cpfbuddies.Mandates.Service
use cpfbuddies.Verifier.Service as Verifier

-- `isinstance(error, TrustRailError)`
unfoldable pub is_deliberate : Error → Bool
is_deliberate mandate_not_found = true
is_deliberate mandate_already_exists = true
is_deliberate nonce_already_claimed = true
is_deliberate mandate_status_conflict = true
is_deliberate mandate_registration_failed = true
is_deliberate illegal_binding = true
is_deliberate review_not_found = true
is_deliberate review_not_pending = true
is_deliberate _ = false

-- `_STATUS_FOR_ERROR.get(type(exc), _DEFAULT_ERROR_STATUS)`
unfoldable pub status_for_error : Error → ℕ
status_for_error mandate_not_found = 404
status_for_error mandate_already_exists = 409
status_for_error nonce_already_claimed = 409
status_for_error mandate_status_conflict = 409
status_for_error illegal_binding = 409
status_for_error _ = 400

-- What a request is answered with: a status with a body, or the status of an error.
pub data Reply (A : Type 0) : Type 0 where
  answered : ℕ → A → Reply A
  refused : ℕ → Reply A

-- `handle_trustrail_error`; any other error that leaves a handler is answered with 500.
unfoldable pub refusal : Error → ℕ
unfolding is_deliberate status_for_error
refusal e = if is_deliberate e then status_for_error e else 500

abbrev pub respond : {A B : Type 0} → ℕ → (A → B) → Result A → Reply B
respond code body (ok a) = answered code (body a)
respond code body (err e) = refused (refusal e)

pub data Body : Type 0 where
  mandate_record : MandateRecord → Body
  mandate_records : List MandateRecord → Body
  trail : List AuditEntry → Body
  verdict : Verdict → Body
  no_content : Body

-- A request whose fields were accepted. `revoke` and `consume` have a reason too, which is prose.
pub data Request : Type 0 where
  mint : String → String → Money → String → ℕ → Request
  get list_for_principal history : String → Request
  bind : String → MandateBinding → String → Request
  revoke consume : String → String → Request
  set_kill_switch : Bool → String → Option String → Request
  verify : VerificationRequest → Request

-- `timedelta(seconds=…)`
abbrev pub from_seconds : ℕ → ℕ
from_seconds n = n * 1_000_000

abbrev found_or_404 : Option MandateRecord → Reply Body
found_or_404 none = refused 404
found_or_404 (some r) = answered 200 (mandate_record r)

abbrev no_body : Unit {0} → Body
no_body u = no_content

module _ (ports : Ports) (config : VerifierConfig) where
  abbrev trail_of : String → Rail → Option MandateRecord → Reply Body
  trail_of mandate_id s none = refused (refusal mandate_not_found)
  trail_of mandate_id s (some r) = answered 200 (trail (Service.history mandate_id s))

  -- The handlers of the two routers
  unfoldable pub serve : Request → Rail → Reply Body × Rail
  unfolding refusal
  serve (mint principal agent_id max_amount intent ttl_seconds) s =
      let (r, s') =
        Service.mint ports principal agent_id max_amount intent (from_seconds ttl_seconds) none s in
      (respond 201 mandate_record r, s')
  serve (get mandate_id) s = (found_or_404 (Mandates.get mandate_id s.store), s)
  serve (list_for_principal principal) s =
      (answered 200 (mandate_records (Mandates.list_by_principal principal s.store)), s)
  serve (history mandate_id) s = (trail_of mandate_id s (Mandates.get mandate_id s.store), s)
  serve (bind mandate_id binding approved_by) s =
      let (r, s') = Service.bind ports mandate_id binding approved_by s in
      (respond 200 mandate_record r, s')
  serve (revoke mandate_id actor) s =
      let (r, s') = Service.revoke ports mandate_id actor s in (respond 200 mandate_record r, s')
  serve (consume mandate_id actor) s =
      let (r, s') = Service.consume ports mandate_id actor s in (respond 200 mandate_record r, s')
  serve (set_kill_switch active actor none) s =
      let (r, s') = Service.halt_all ports active actor s in (respond 204 no_body r, s')
  serve (set_kill_switch active actor (some principal)) s =
      let (r, s') = Service.halt_principal ports principal active actor s in
      (respond 204 no_body r, s')
  serve (verify request) s =
      let v = Verifier.verify ports.lib config request in
      let (r, s') = Service.record_verdict ports v s in (respond 200 (λ u. verdict v) r, s')
