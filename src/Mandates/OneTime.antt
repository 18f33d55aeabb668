-- ===== src/Mandates/OneTime.antt =====
-- One-time consumption (`consume` and `_transition` of src/trustrail/mandate/service.py): a mandate is
-- spent at most once, whatever is called in between and whoever read it before.
use cpfbuddies.Prelude.{
  ◌⊎◌, String, false, ◌≡◌, ◌≢◌, refl, ap, none, some, List, arith, Bool-cases, inl, inr, eq_refl,
  subst, sym,
}
use cpfbuddies.Errors.Success.{bind_ok}
use cpfbuddies.Errors.{Result, ok, err, mandate_status_conflict}
use cpfbuddies.Models.Mandate.{MandateRecord, MandateStatus, consumed, record_id, evolve}
use cpfbuddies.Models.Audit.{AuditEventType, mandate_consumed}
use cpfbuddies.Stores.Mandates
use cpfbuddies.Stores.Mandates.{MandateStore}
use cpfbuddies.Stores.Mandates.Later.{MovesTo}
use cpfbuddies.Stores.Mandates.Laws.{IsConsistent, replace_refused, get-replace}
use cpfbuddies.Mandates.Rail.{
  Ports, Rail, ◌>>=◌, pure, raise, now, new_hex32, write_store, stored, record_entry,
}
use cpfbuddies.Mandates.Service
use cpfbuddies.Mandates.Lifecycle.{Keeps-transition}
use cpfbuddies.Mandates.Steps.{require_found}
use cpfbuddies.Mandates.Runs.{Call, run, run-Moved}

-- A write that succeeds stores what the store's own operation made.
pub write_store_ok :
    (f : MandateStore → Result MandateStore) (s s' : Rail) (u : Unit {0})
    → write_store f s ≡ (ok u, s')
    → f s.store ≡ ok s'.store
unfolding write_store
write_store_ok f s s' u h = written (f s.store) h
  where
    written : (x : Result MandateStore) → stored x s ≡ (ok u, s') → x ≡ ok s'.store
    written (ok t) h = ground arith
    written (err e) h = ground arith

module _ (ports : Ports) where
  pub log_event-store :
      (r : MandateRecord) (event : AuditEventType) (actor : String) (s : Rail)
      → (Service.log_event ports r event actor s).1.store ≡ s.store
  unfolding Service.log_event Service.append_audit ◌>>=◌ new_hex32 record_entry
  log_event-store r event actor s = refl

  -- A change that succeeds returns the record that it stored.
  pub commit_change_ok :
      (updated : MandateRecord) (e : MandateStatus) (event : AuditEventType) (actor : String)
      (s s' : Rail) (r : MandateRecord)
      → Service.commit_change ports updated e event actor s ≡ (ok r, s')
      → (r ≡ updated) × (Mandates.get (record_id updated) s'.store ≡ some updated)
  unfolding Service.commit_change pure
  commit_change_ok updated e event actor s s' r h =
      let write = write_store (Mandates.replace updated e) in
      let (_, wrote, rest) = bind_ok write _ s r s' h in
      let s1 = (write s).1 in
      let (_, logged, end) = bind_ok (Service.log_event ports updated event actor) _ s1 r s' rest in
      let found =
        get-replace updated e s.store (write_store_ok (Mandates.replace updated e) s s1 _ wrote)
          (record_id updated) in
      (
        ground arith,
        ground (arith, found, log_event-store updated event actor s1, eq_refl (record_id updated)),
      )

  -- A transition that succeeds leaves the mandate in its new status.
  move_record_ok :
      (to : MandateStatus) (event : AuditEventType) (actor : String) (r0 : MandateRecord)
      (s s' : Rail) (r : MandateRecord)
      → Service.move_record ports to event actor r0 s ≡ (ok r, s')
      → (Mandates.get (record_id r0) s'.store ≡ some r) × (r.status ≡ to)
  unfolding Service.move_record raise evolve
  move_record_ok to event actor r0 s s' r h = elim (Bool-cases (Service.is_live r0.status)) [
    | inl live ↦
        let (at, read, rest) =
          bind_ok (now ports)
            (λ at. Service.commit_change ports (evolve r0 to at none) r0.status event actor) s r s'
            (ground arith) in
        let (same, found) =
          commit_change_ok (evolve r0 to at none) r0.status event actor _ s' r rest in
        (rw same found, rw same refl)
    | inr dead ↦ ground arith
  ]

  -- One that no longer finds the status which it read is refused, and one on an ended mandate is too.
  move_record_refused :
      (to : MandateStatus) (event : AuditEventType) (actor : String) (r0 current : MandateRecord)
      (s : Rail)
      → Mandates.get (record_id r0) s.store ≡ some current
      → (current.status ≢ r0.status) ⊎ (Service.is_live r0.status ≡ false)
      → (Service.move_record ports to event actor r0 s).0 ≡ err mandate_status_conflict
  unfolding Service.move_record raise evolve Service.commit_change ◌>>=◌ now write_store
  move_record_refused to event actor r0 current s found (inl moved) =
      let at = ports.time s.reads in
      ground (arith, replace_refused (evolve r0 to at none) r0.status s.store current found moved)
  move_record_refused to event actor r0 current s found (inr dead) = ground arith

  transition_ok :
      (mandate_id : String) (to : MandateStatus) (event : AuditEventType) (actor : String)
      (s s' : Rail) (r : MandateRecord)
      → IsConsistent s.store
      → Service.transition ports mandate_id to event actor s ≡ (ok r, s')
      → (Mandates.get mandate_id s'.store ≡ some r) × (r.status ≡ to)
  unfolding Service.transition
  transition_ok mandate_id to event actor s s' r c h =
      let (r0, read, rest) = bind_ok (Service.require_record ports mandate_id) _ s r s' h in
      let (found, same) = require_found ports s mandate_id r0 (ap (λ p. p.0) read) in
      let (stored, moved) = move_record_ok to event actor r0 _ s' r rest in
      (subst (λ k. Mandates.get k s'.store ≡ some r) (c.keyed mandate_id r0 found) stored, moved)

  stays_ended : (a b : MandateStatus) → Service.is_live a ≡ false → MovesTo a b → b ≡ a
  stays_ended a b dead moves = ground arith

  ended_status :
      (a b : MandateStatus) → Service.is_live b ≡ false → (b ≢ a) ⊎ (Service.is_live a ≡ false)
  ended_status a b dead = elim (Bool-cases (Service.is_live a)) [
    | inl live ↦ inl (λ e. ground arith)
    | inr ended ↦ inr ended
  ]

  -- An ended mandate is refused by a fresh read too.
  transition_refused :
      (mandate_id : String) (to : MandateStatus) (event : AuditEventType) (actor : String)
      (s : Rail) (r : MandateRecord)
      → Mandates.get mandate_id s.store ≡ some r
      → Service.is_live r.status ≡ false
      → (Service.transition ports mandate_id to event actor s).0 ≡ err mandate_status_conflict
  unfolding Service.transition Service.require_record Service.move_record ◌>>=◌ pure raise
  transition_refused mandate_id to event actor s r found dead = ground arith

  module _ (mandate_id : String) (to : MandateStatus) (event : AuditEventType) (actor : String)
      (s s' : Rail) (r : MandateRecord) (calls : List Call) (c : IsConsistent s.store)
      (ended : Service.is_live to ≡ false)
      (done : Service.transition ports mandate_id to event actor s ≡ (ok r, s')) where
    -- What has ended stays stored, and ended.
    remains_ended :
        (r' : MandateRecord) × (Mandates.get mandate_id (run ports calls s').store ≡ some r')
        × (r'.status ≡ to)
    remains_ended =
        let (found, status) = transition_ok mandate_id to event actor s s' r c done in
        let moved =
          (Keeps-transition ports s mandate_id to event actor (λ e. ground arith)).moved c in
        let c' : IsConsistent s'.store =
          subst (λ (p : Result MandateRecord × Rail). IsConsistent p.1.store) done
            moved.consistent in
        let (r', found', later) = (run-Moved ports calls s' c').progress mandate_id r found in
        (r', found', stays_ended to r'.status ended (rw (sym status) later.status))

    -- Once a transition to an ended status has succeeded on a consistent store, a transition of the same mandate is refused
    -- with a status conflict, whatever calls came in between and whatever record the second caller had
    -- read before.
    pub end_once :
        (to' : MandateStatus) (event' : AuditEventType) (actor' : String) (stale : MandateRecord)
        → record_id stale ≡ mandate_id
        → (Service.move_record ports to' event' actor' stale (run ports calls s')).0
          ≡ err mandate_status_conflict
    end_once to' event' actor' stale id =
        let (r', found, same) = remains_ended in
        move_record_refused to' event' actor' stale r' _ (rw id found)
          (ended_status stale.status r'.status (rw same ended))

  -- A mandate is consumed at most once: after one successful call on a consistent store, every later one raises a status
  -- conflict, whatever is called in between.
  pub consume-consume :
      (mandate_id actor actor' : String) (s s' : Rail) (r : MandateRecord) (calls : List Call)
      → IsConsistent s.store
      → Service.consume ports mandate_id actor s ≡ (ok r, s')
      → (Service.consume ports mandate_id actor' (run ports calls s')).0
        ≡ err mandate_status_conflict
  unfolding Service.consume
  consume-consume mandate_id actor actor' s s' r calls c h =
      let (r', found, same) =
        remains_ended mandate_id consumed mandate_consumed actor s s' r calls c refl h in
      transition_refused mandate_id consumed _ actor' _ r' found (rw same refl)
