-- ===== src/Mandates/Lifecycle.antt =====
-- Every operation of `MandateService` keeps what `Mandates.Keeps` states.
use cpfbuddies.Prelude.{
  ℕ, String, Bool, true, false, ◌≡◌, ◌≢◌, refl, ◌∙◌, ap, Option, none, some, arith, inl, inr, not,
  ◌||◌, if◌then◌else◌,
}
use cpfbuddies.Errors.{Result, illegal_binding}
use cpfbuddies.Models.Money.{Money}
use cpfbuddies.Models.Mandate.{
  Timestamp, MandateBinding, MandateRecord, MandateStatus, minted, bound, consumed, revoked,
  record_id, same_status, is_bound, evolve,
}
use cpfbuddies.Models.Audit.{AuditEventType}
use cpfbuddies.Stores.Mandates
use cpfbuddies.Stores.Mandates.{MandateStore}
use cpfbuddies.Stores.Mandates.Later.{Later, MovesTo}
use cpfbuddies.Stores.Mandates.Laws.{IsUnbound, same_status_iff}
use cpfbuddies.Mandates.Rail.{
  Ports, Rail, RegistrarCall, Action, ◌>>=◌, now, new_hex32, call_registrar,
}
use cpfbuddies.Mandates.Service
use cpfbuddies.Mandates.Steps.{
  Keeps-pure, Keeps-raise, Keeps-now, Keeps-new_hex32, Keeps-append_audit, Keeps-log_event,
  Keeps-require, require_found, Keeps-register_onchain,
}
use cpfbuddies.Mandates.Keeps.{
  Keeps, Keeps-bind, Keeps-same, Keeps-save_new, Keeps-replace, Keeps-under,
}

-- A live mandate may be consumed or revoked.
moves_live : (a b : MandateStatus) → Service.is_live a ≡ true → b ≢ minted → MovesTo a b
moves_live minted b live h = tt
moves_live bound b live h = h
moves_live consumed b live h = cc
moves_live revoked b live h = cc

Later-evolve :
    (r : MandateRecord) (to : MandateStatus) (at : Timestamp)
    → MovesTo r.status to
    → Later r (evolve r to at none)
unfolding evolve
Later-evolve r to at h = record {
  id = refl;
  principal = refl;
  agent = refl;
  cap = refl;
  expiry = refl;
  intent = refl;
  nonce = refl;
  created = refl;
  merchant = inr refl;
  basket = inr refl;
  status = h;
}

Later-bound_record :
    (ports : Ports) (r : MandateRecord) (binding : MandateBinding) (at : Timestamp)
    → IsUnbound r
    → r.status ≡ minted
    → Later r (Service.bound_record ports r binding at)
unfolding Service.bound_record evolve Service.sign_mandate
Later-bound_record ports r binding at u m = record {
  id = refl;
  principal = refl;
  agent = refl;
  cap = refl;
  expiry = refl;
  intent = refl;
  nonce = refl;
  created = refl;
  merchant = inl (u m).0;
  basket = inl (u m).1;
  status = rw m tt;
}

Keeps-if :
    {A : Type 0} (b : Bool) (m n : Action A) (s : Rail)
    → Keeps m s
    → (b ≡ false → Keeps n s)
    → Keeps (if b then m else n) s
Keeps-if true m n s hm hn = hm
Keeps-if false m n s hm hn = hn refl

module _ (ports : Ports) where
  Keeps-commit_change :
      (current updated : MandateRecord) (event : AuditEventType) (actor : String)
      (e : MandateStatus) (s : Rail)
      → Mandates.get (record_id updated) s.store ≡ some current
      → Later current updated
      → IsUnbound updated
      → Keeps (Service.commit_change ports updated e event actor) s
  unfolding Service.commit_change
  Keeps-commit_change current updated event actor e s found later u =
      Keeps-bind s _ _ (Keeps-replace current updated e s found later u) λ _ _.
        Keeps-bind _ _ _ (Keeps-log_event ports _ updated event actor) (λ _ _. Keeps-pure _ updated)

  -- The record is the one that is stored under its id.
  Keeps-move_record :
      (to : MandateStatus) (event : AuditEventType) (actor : String) (r : MandateRecord) (s : Rail)
      → to ≢ minted
      → Mandates.get (record_id r) s.store ≡ some r
      → Keeps (Service.move_record ports to event actor r) s
  unfolding Service.move_record now evolve
  Keeps-move_record to event actor r s h found =
      Keeps-if (not (Service.is_live r.status)) _ _ s (Keeps-raise s _) λ live.
        Keeps-bind s (now ports) _ (Keeps-now ports s) λ at _.
          Keeps-commit_change r (evolve r to at none) event actor r.status _ found
            (Later-evolve r to at (moves_live r.status to (ground arith) h)) (λ e. absurd (h e))

  Keeps-bind_record :
      (binding : MandateBinding) (approved_by : String) (r : MandateRecord) (s : Rail)
      → Mandates.get (record_id r) s.store ≡ some r
      → IsUnbound r
      → Keeps (Service.bind_record ports binding approved_by r) s
  unfolding Service.bind_record Service.bound_record Service.sign_mandate now evolve
  Keeps-bind_record binding approved_by r s found u =
      Keeps-if (not (same_status r.status minted) || is_bound r.signed.mandate) _ _ s
        (Keeps-raise s illegal_binding)
        λ open_mandate. Keeps-bind s (now ports) _ (Keeps-now ports s) λ at _.
          Keeps-commit_change r (Service.bound_record ports r binding at) _ approved_by minted _
            found
            (Later-bound_record ports r binding at u
              (ground (arith, same_status_iff r.status minted)))
            (λ e. cc)

  module _ (s : Rail) where
    -- A change to the record that is stored under the id.
    Keeps-change :
        (mandate_id : String) (change : MandateRecord → Action MandateRecord)
        → ((r : MandateRecord)
            → Mandates.get (record_id r) s.store ≡ some r
            → IsUnbound r
            → Keeps (change r) s)
        → Keeps (Service.require_record ports mandate_id >>= change) s
    Keeps-change mandate_id change h = Keeps-under _ s λ c.
        Keeps-bind s (Service.require_record ports mandate_id) change
          (Keeps-require ports s mandate_id)
          λ r e.
            let (found, same) = require_found ports s mandate_id r e in
            let stored : Mandates.get (record_id r) s.store ≡ some r =
              ap (λ k. Mandates.get k s.store) (c.keyed mandate_id r found) ∙ found in
            rw same (h r stored (c.unbound mandate_id r found))

    pub Keeps-bind_call :
        (mandate_id : String) (binding : MandateBinding) (approved_by : String)
        → Keeps (Service.bind ports mandate_id binding approved_by) s
    unfolding Service.bind
    Keeps-bind_call mandate_id binding approved_by =
        Keeps-change mandate_id (Service.bind_record ports binding approved_by)
          (λ r. Keeps-bind_record binding approved_by r s)

    pub Keeps-transition :
        (mandate_id : String) (to : MandateStatus) (event : AuditEventType) (actor : String)
        → to ≢ minted
        → Keeps (Service.transition ports mandate_id to event actor) s
    unfolding Service.transition
    Keeps-transition mandate_id to event actor h =
        Keeps-change mandate_id (Service.move_record ports to event actor)
          (λ r found _. Keeps-move_record to event actor r s h found)

    pub Keeps-consume :
        (mandate_id actor : String) → Keeps (Service.consume ports mandate_id actor) s
    unfolding Service.consume
    Keeps-consume mandate_id actor = Keeps-transition mandate_id consumed _ actor (λ e. cc)

    Keeps-log_revocation :
        (mandate_id actor : String) → Keeps (Service.log_revocation ports mandate_id actor) s
    unfolding Service.log_revocation
    Keeps-log_revocation mandate_id actor =
        Keeps-bind s (now ports) _ (Keeps-now ports s)
          (λ _ _. Keeps-append_audit ports _ _ _ _ _ _ _)

    Keeps-note_revocation :
        (mandate_id actor : String) (tx_hash : Option String)
        → Keeps (Service.note_revocation ports mandate_id actor tx_hash) s
    unfolding Service.note_revocation
    Keeps-note_revocation mandate_id actor tx_hash =
        Keeps-if _ _ _ s (Keeps-log_revocation mandate_id actor) (λ _. Keeps-pure s tt)

    pub Keeps-mint :
        (principal agent_id : String) (max_amount : Money) (intent : String) (ttl : ℕ)
        (agent_address : Option String)
        → Keeps (Service.mint ports principal agent_id max_amount intent ttl agent_address) s
    unfolding Service.mint
    Keeps-mint principal agent_id max_amount intent ttl agent_address =
        Keeps-bind s (now ports) _ (Keeps-now ports s) λ at _.
          Keeps-bind _ (new_hex32 ports) _ (Keeps-new_hex32 ports _) λ id _.
            Keeps-bind _ (new_hex32 ports) _ (Keeps-new_hex32 ports _) λ nonce _.
              Keeps-bind _ _ _ (Keeps-save_new _ _ (λ _. (refl, refl))) λ _ _.
                Keeps-bind _ _ _ (Keeps-register_onchain ports _ _ _)
                  λ _ _. Keeps-bind _ _ _ (Keeps-log_event ports _ _ _ _) (λ _ _. Keeps-pure _ _)

module _ (ports : Ports) (s : Rail) where
  Keeps-revoke_with :
      (registrar : Option (ℕ → RegistrarCall → Result (Option String))) (mandate_id actor : String)
      → Keeps (Service.revoke_with ports registrar mandate_id actor) s
  unfolding Service.revoke_with
  Keeps-revoke_with none mandate_id actor = Keeps-pure s tt
  Keeps-revoke_with (some answer) mandate_id actor =
      Keeps-bind s (call_registrar answer _) _
        (unfold call_registrar in Keeps-same s (call_registrar answer _) refl refl)
        (λ tx_hash _. Keeps-note_revocation ports _ mandate_id actor tx_hash)

module _ (ports : Ports) (s : Rail) where
  pub Keeps-revoke : (mandate_id actor : String) → Keeps (Service.revoke ports mandate_id actor) s
  unfolding Service.revoke
  Keeps-revoke mandate_id actor =
      Keeps-bind s (Service.transition ports mandate_id revoked _ actor) _
        (Keeps-transition ports s mandate_id revoked _ actor (λ e. cc))
        λ r _.
          Keeps-bind _ (Service.revoke_with ports ports.registrar mandate_id actor) _
            (Keeps-revoke_with ports _ ports.registrar mandate_id actor) (λ _ _. Keeps-pure _ r)
