-- ===== src/Mandates/Runs.antt =====
-- Runs of the Mandate Service: any calls, in any order, whether they return or raise.
use cpfbuddies.Prelude.{ℕ, String, Bool, refl, Option, List, [], ◌∷◌}
use cpfbuddies.Models.Money.{Money}
use cpfbuddies.Models.Mandate.{MandateBinding}
use cpfbuddies.Models.Evaluation.{EvaluatorOutput}
use cpfbuddies.Models.Verdict.{Verdict}
use cpfbuddies.Stores.Mandates.Laws.{IsConsistent}
use cpfbuddies.Mandates.Rail.{Ports, Rail, ◌>>◌, now, write_switch}
use cpfbuddies.Mandates.Service
use cpfbuddies.Mandates.Steps.{Keeps-now, Keeps-append_audit, Keeps-log_control}
use cpfbuddies.Mandates.Keeps.{Keeps, Keeps-bind, Keeps-same, Moved, Moved-refl, Moved-trans}
use cpfbuddies.Mandates.Lifecycle.{Keeps-bind_call, Keeps-consume, Keeps-revoke, Keeps-mint}
use cpfbuddies.Stores.KillSwitch.{KillSwitchStore}

-- The calls that write.
pub data Call : Type 0 where
  mint : String → String → Money → String → ℕ → Option String → Call
  bind : String → MandateBinding → String → Call
  revoke consume : String → String → Call
  halt_all : Bool → String → Call
  halt_principal : String → Bool → String → Call
  record_verdict : Verdict → Call
  record_candidate_selected : String → String → Call
  record_evaluation : String → EvaluatorOutput → Call

module _ (ports : Ports) where
  -- The state that a call leaves.
  unfoldable pub step : Call → Rail → Rail
  step (mint principal agent_id max_amount intent ttl agent_address) s =
      (Service.mint ports principal agent_id max_amount intent ttl agent_address s).1
  step (bind mandate_id binding approved_by) s =
      (Service.bind ports mandate_id binding approved_by s).1
  step (revoke mandate_id actor) s = (Service.revoke ports mandate_id actor s).1
  step (consume mandate_id actor) s = (Service.consume ports mandate_id actor s).1
  step (halt_all active actor) s = (Service.halt_all ports active actor s).1
  step (halt_principal principal active actor) s =
      (Service.halt_principal ports principal active actor s).1
  step (record_verdict v) s = (Service.record_verdict ports v s).1
  step (record_candidate_selected mandate_id actor) s =
      (Service.record_candidate_selected ports mandate_id actor s).1
  step (record_evaluation mandate_id e) s = (Service.record_evaluation ports mandate_id e s).1

  unfoldable pub run : List Call → Rail → Rail
  run [] s = s
  run (c ∷ cs) s = run cs (step c s)

  Keeps-halt :
      (f : KillSwitchStore → KillSwitchStore) (actor : String) (s : Rail)
      → Keeps (write_switch f >> Service.log_control ports actor) s
  Keeps-halt f actor s =
      Keeps-bind s (write_switch f) _
        (unfold write_switch in Keeps-same s (write_switch f) refl refl)
        (λ _ _. Keeps-log_control ports _ actor)

  step-Moved : (c : Call) (s : Rail) → IsConsistent s.store → Moved s (step c s)
  unfolding step Service.halt_all Service.halt_principal Service.record_verdict
      Service.record_candidate_selected Service.record_evaluation
  step-Moved (mint principal agent_id max_amount intent ttl agent_address) s =
      (Keeps-mint ports s principal agent_id max_amount intent ttl agent_address).moved
  step-Moved (bind mandate_id binding approved_by) s =
      (Keeps-bind_call ports s mandate_id binding approved_by).moved
  step-Moved (revoke mandate_id actor) s = (Keeps-revoke ports s mandate_id actor).moved
  step-Moved (consume mandate_id actor) s = (Keeps-consume ports s mandate_id actor).moved
  step-Moved (halt_all active actor) s = (Keeps-halt _ actor s).moved
  step-Moved (halt_principal principal active actor) s = (Keeps-halt _ actor s).moved
  step-Moved (record_verdict v) s = (Keeps-append_audit ports s _ _ _ _ _ _).moved
  step-Moved (record_candidate_selected mandate_id actor) s =
      (Keeps-bind s (now ports) _ (Keeps-now ports s)
        (λ _ _. Keeps-append_audit ports _ _ _ _ _ _ _)).moved
  step-Moved (record_evaluation mandate_id e) s =
      (Keeps-bind s (now ports) _ (Keeps-now ports s)
        (λ _ _. Keeps-append_audit ports _ _ _ _ _ _ _)).moved

  -- Over any calls on a consistent store, whether they return or raise, the store stays consistent, no
  -- mandate is lost, each keeps its id, principal, agent, cap, expiry, intent and nonce, is given a merchant
  -- and a basket at most once and moves only along its lifecycle, and the audit trail only grows.
  pub run-Moved : (cs : List Call) (s : Rail) → IsConsistent s.store → Moved s (run cs s)
  unfolding run
  run-Moved [] s c = Moved-refl s c
  run-Moved (x ∷ cs) s c =
      let first : Moved s (step x s) = step-Moved x s c in
      Moved-trans s (step x s) (run cs (step x s)) first (run-Moved cs (step x s) first.consistent)
