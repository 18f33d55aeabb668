-- ===== src/Mandates/Service.antt =====
-- `MandateService`. The arguments arrive through the API's models, so a record is built from fields that
-- its own model accepts.
use cpfbuddies.Prelude.{
  ℕ, ◌+◌, String, Bool, true, false, not, ◌||◌, Option, none, some, List, [], ◌∷◌, ◌==◌,
  if◌then◌else◌,
}
use cpfbuddies.Errors.{Result, mandate_not_found, mandate_status_conflict, illegal_binding}
use cpfbuddies.Models.Money.{Money, minor_units}
use cpfbuddies.Models.Mandate.{
  Timestamp, Mandate, MandateBinding, MandateRecord, SignedMandate, MandateStatus, minted, bound,
  consumed, revoked, same_status, is_bound, evolve, record_id,
}
use cpfbuddies.Models.Evaluation.{EvaluatorOutput}
use cpfbuddies.Models.Verdict.{Verdict}
use cpfbuddies.Models.Audit.{
  AuditEntry, AuditEventType, mandate_minted, mandate_bound, mandate_revoked, mandate_consumed,
  kill_switch_set, candidate_selected, evaluation_complete, verdict_issued,
}
use cpfbuddies.Signing.Crypto.{to_bytes}
use cpfbuddies.Signing.Eip712.{mandate_digest, zero_hash}
use cpfbuddies.Stores.Mandates
use cpfbuddies.Stores.KillSwitch
use cpfbuddies.Mandates.Rail.{
  Ports, Rail, RegistrarCall, Action, ◌>>=◌, ◌>>◌, pure, raise, now, new_hex32, write_store,
  write_switch, record_entry, call_registrar,
}

-- `record.status in _LIVE_STATUSES`
abbrev pub is_live : MandateStatus → Bool
is_live minted = true
is_live bound = true
is_live _ = false

-- `if tx_hash:` on an optional text
abbrev pub is_present : Option String → Bool
is_present none = false
is_present (some t) = not (t == "")

-- `agent_address or mandate.principal`
abbrev pub agent_or : String → Option String → String
agent_or principal none = principal
agent_or principal (some address) = if address == "" then principal else address

module _ (ports : Ports) where
  -- `_sign`
  unfoldable pub sign_mandate : Mandate → SignedMandate
  sign_mandate m =
      let digest = mandate_digest ports.lib m ports.domain in
      record { mandate = m; digest = digest; signature = ports.sign (to_bytes digest) }

  -- `_append_audit`: the entry is built with a fresh id.
  unfoldable pub append_audit :
      String
      → AuditEventType
      → Timestamp
      → String
      → Option Verdict
      → Option EvaluatorOutput
      → Action Unit
  append_audit mandate_id event occurred_at actor verdict evaluation = do
    event_id ← new_hex32 ports
    record_entry (record {
      event_id = event_id;
      mandate_id = mandate_id;
      event_type = event;
      occurred_at = occurred_at;
      actor = actor;
      verdict = verdict;
      evaluation = evaluation;
      settlement = none;
    })

  -- `_log`
  unfoldable pub log_event : MandateRecord → AuditEventType → String → Action Unit
  log_event r event actor = append_audit (record_id r) event r.updated_at actor none none

  -- `_log_control`
  unfoldable pub log_control : String → Action Unit
  log_control actor = do at ← now ports; append_audit zero_hash kill_switch_set at actor none none

  -- `_require`
  unfoldable pub require_record : String → Action MandateRecord
  require_record mandate_id s = elim (Mandates.get mandate_id s.store) [
    | none ↦ raise mandate_not_found s
    | some r ↦ pure r s
  ]

  -- `_register_onchain`: an agent with no known address is recorded as the principal.
  unfoldable pub register_onchain : MandateRecord → Option String → Action (Option String)
  register_onchain r agent_address = elim ports.registrar [
    | none ↦ pure none
    | some answer ↦
        let m = r.signed.mandate in
        call_registrar answer (
          RegistrarCall.register m.mandate_id m.principal (agent_or m.principal agent_address)
            (minor_units m.max_amount) m.expires_at r.signed.digest)
  ]

  unfoldable pub mint : String → String → Money → String → ℕ → Option String → Action MandateRecord
  unfolding sign_mandate
  mint principal agent_id max_amount intent ttl agent_address = do
    at ← now ports
    mandate_id ← new_hex32 ports
    nonce ← new_hex32 ports
    let r : MandateRecord = record {
      signed = sign_mandate (record {
        mandate_id = mandate_id;
        principal = principal;
        agent_id = agent_id;
        max_amount = max_amount;
        expires_at = at + ttl;
        intent = intent;
        merchant_address = none;
        basket_hash = none;
        nonce = nonce;
      });
      status = minted;
      created_at = at;
      updated_at = at;
    }
    write_store (Mandates.save_new r)
    register_onchain r agent_address
    log_event r mandate_minted agent_id
    pure r

  -- What `bind` writes: the mandate with the two fields filled in, signed again.
  unfoldable pub bound_record : MandateRecord → MandateBinding → Timestamp → MandateRecord
  bound_record r binding at = evolve r bound at (
      some (
        sign_mandate (record (r.signed.mandate) {
          merchant_address = some binding.merchant_address;
          basket_hash = some binding.basket_hash;
        })))

  -- The end that `bind` and `_transition` share: the compare-and-set, and the audit entry.
  unfoldable pub commit_change :
      MandateRecord → MandateStatus → AuditEventType → String → Action MandateRecord
  commit_change updated expected_status event actor = do
    write_store (Mandates.replace updated expected_status)
    log_event updated event actor
    pure updated

  -- `bind`, of the record that was read
  unfoldable pub bind_record : MandateBinding → String → MandateRecord → Action MandateRecord
  bind_record binding approved_by r =
      if not (same_status r.status minted) || is_bound r.signed.mandate
      then raise illegal_binding
      else do
        at ← now ports
        commit_change (bound_record r binding at) minted mandate_bound approved_by

  unfoldable pub bind : String → MandateBinding → String → Action MandateRecord
  bind mandate_id binding approved_by = do
    r ← require_record mandate_id
    bind_record binding approved_by r

  -- `_transition`, of the record that was read
  unfoldable pub move_record :
      MandateStatus → AuditEventType → String → MandateRecord → Action MandateRecord
  move_record to event actor r =
      if not (is_live r.status)
      then raise mandate_status_conflict
      else do at ← now ports; commit_change (evolve r to at none) r.status event actor

  unfoldable pub transition :
      String → MandateStatus → AuditEventType → String → Action MandateRecord
  transition mandate_id to event actor = do
    r ← require_record mandate_id
    move_record to event actor r

  unfoldable pub log_revocation : String → String → Action Unit
  unfolding append_audit
  log_revocation mandate_id actor = do
    at ← now ports
    append_audit mandate_id mandate_revoked at actor none none

  -- `if tx_hash:` in `revoke`
  unfoldable pub note_revocation : String → String → Option String → Action Unit
  note_revocation mandate_id actor tx_hash =
      if is_present tx_hash then log_revocation mandate_id actor else pure tt

  -- The second half of `revoke`: on the ledger, if there is one.
  unfoldable pub revoke_with :
      Option (ℕ → RegistrarCall → Result (Option String)) → String → String → Action Unit
  revoke_with none mandate_id actor = pure tt
  revoke_with (some answer) mandate_id actor = do
    tx_hash ← call_registrar answer (RegistrarCall.revoke mandate_id)
    note_revocation mandate_id actor tx_hash

  unfoldable pub revoke : String → String → Action MandateRecord
  revoke mandate_id actor = do
    r ← transition mandate_id revoked mandate_revoked actor
    revoke_with ports.registrar mandate_id actor
    pure r

  unfoldable pub consume : String → String → Action MandateRecord
  consume mandate_id actor = transition mandate_id consumed mandate_consumed actor

  unfoldable pub halt_all : Bool → String → Action Unit
  halt_all active actor = do write_switch (KillSwitch.set_global active); log_control actor

  unfoldable pub halt_principal : String → Bool → String → Action Unit
  halt_principal principal active actor = do
    write_switch (KillSwitch.set_for_principal principal active)
    log_control actor

  unfoldable pub record_verdict : Verdict → Action Unit
  record_verdict v =
      append_audit v.mandate_id verdict_issued v.evaluated_at "verifier" (some v) none

  unfoldable pub record_candidate_selected : String → String → Action Unit
  record_candidate_selected mandate_id actor = do
    at ← now ports
    append_audit mandate_id candidate_selected at actor none none

  unfoldable pub record_evaluation : String → EvaluatorOutput → Action Unit
  record_evaluation mandate_id evaluation = do
    at ← now ports
    append_audit mandate_id evaluation_complete at evaluation.evaluator_id none (some evaluation)

-- `AuditLog.list_for_mandate`, which `history` returns
unfoldable pub list_for_mandate : String → List AuditEntry → List AuditEntry
list_for_mandate mandate_id [] = []
list_for_mandate mandate_id (e ∷ es) =
    let rest = list_for_mandate mandate_id es in
    if e.mandate_id == mandate_id then e ∷ rest else rest

unfoldable pub history : String → Rail → List AuditEntry
history mandate_id s = list_for_mandate mandate_id s.audit

unfoldable pub is_halted : String → Rail → Bool
is_halted principal s = KillSwitch.is_active principal s.kill_switch
