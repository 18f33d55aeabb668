-- ===== src/Mandates/Steps.antt =====
-- The steps of `MandateService` that write no mandate.
use cpfbuddies.Prelude.{String, ◌≡◌, refl, Option, some, arith, Option-cases, inl, inr}
use cpfbuddies.Errors.{Error, ok}
use cpfbuddies.Models.Mandate.{Timestamp, MandateRecord}
use cpfbuddies.Models.Evaluation.{EvaluatorOutput}
use cpfbuddies.Models.Verdict.{Verdict}
use cpfbuddies.Models.Audit.{AuditEventType}
use cpfbuddies.Stores.Mandates
use cpfbuddies.Stores.Mandates.{MandateStore}
use cpfbuddies.Mandates.Rail.{Ports, Rail, pure, raise, now, new_hex32, call_registrar}
use cpfbuddies.Mandates.Service
use cpfbuddies.Mandates.Keeps.{Keeps, Keeps-bind, Keeps-same, Keeps-record_entry}

module _ {A : Type 0} (s : Rail) where
  pub Keeps-pure : (a : A) → Keeps (pure a) s
  unfolding pure
  Keeps-pure a = Keeps-same s (pure a) refl refl

  pub Keeps-raise : (e : Error) → Keeps (raise {A = A} e) s
  unfolding raise
  Keeps-raise e = Keeps-same s (raise e) refl refl

module _ (ports : Ports) (s : Rail) where
  pub Keeps-now : Keeps (now ports) s
  unfolding now
  Keeps-now = Keeps-same s (now ports) refl refl

  pub Keeps-new_hex32 : Keeps (new_hex32 ports) s
  unfolding new_hex32
  Keeps-new_hex32 = Keeps-same s (new_hex32 ports) refl refl

  pub Keeps-append_audit :
      (mandate_id : String) (event : AuditEventType) (at : Timestamp) (actor : String)
      (v : Option Verdict) (e : Option EvaluatorOutput)
      → Keeps (Service.append_audit ports mandate_id event at actor v e) s
  unfolding Service.append_audit
  Keeps-append_audit mandate_id event at actor v e =
      Keeps-bind s (new_hex32 ports) _ Keeps-new_hex32 (λ id _. Keeps-record_entry _ _)

  pub Keeps-log_event :
      (r : MandateRecord) (event : AuditEventType) (actor : String)
      → Keeps (Service.log_event ports r event actor) s
  unfolding Service.log_event
  Keeps-log_event r event actor = Keeps-append_audit _ _ _ _ _ _

module _ (ports : Ports) (s : Rail) where
  pub Keeps-log_control : (actor : String) → Keeps (Service.log_control ports actor) s
  unfolding Service.log_control
  Keeps-log_control actor =
      Keeps-bind s (now ports) _ (Keeps-now ports s)
        (λ at _. Keeps-append_audit ports _ _ _ _ _ _ _)

  pub Keeps-require : (mandate_id : String) → Keeps (Service.require_record ports mandate_id) s
  unfolding Service.require_record pure raise
  Keeps-require mandate_id =
      Keeps-same s (Service.require_record ports mandate_id) (ground arith) (ground arith)

  -- What is read is what is stored, and reading changes nothing.
  pub require_found :
      (mandate_id : String) (r : MandateRecord)
      → (Service.require_record ports mandate_id s).0 ≡ ok r
      → (Mandates.get mandate_id s.store ≡ some r)
        × ((Service.require_record ports mandate_id s).1 ≡ s)
  unfolding Service.require_record pure raise
  require_found mandate_id r e = elim (Option-cases (Mandates.get mandate_id s.store)) [
    | inl missing ↦ ground arith
    | inr (x, found) ↦ (ground arith, ground arith)
  ]

  pub Keeps-register_onchain :
      (r : MandateRecord) (agent_address : Option String)
      → Keeps (Service.register_onchain ports r agent_address) s
  unfolding Service.register_onchain pure call_registrar
  Keeps-register_onchain r a =
      Keeps-same s (Service.register_onchain ports r a) (ground arith) (ground arith)
