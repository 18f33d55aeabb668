-- ===== src/Mandates/Tests.antt =====
-- Runs of the Mandate Service, and its theorems at a concrete mandate.
use cpfbuddies.Prelude.{
  String, true, ◌≡◌, refl, none, some, [], ◌∷◌, arith, eq_iff, ◌==◌, Bool-cases, inl, inr, ap,
  subst,
}
use cpfbuddies.Prelude.Dict.{get, set}
use cpfbuddies.Errors.{ok, err, mandate_status_conflict, ◌>>=◌, pure}
use cpfbuddies.Models.Mandate.{MandateRecord, consumed, revoked, evolve, record_id}
use cpfbuddies.Models.Audit.{mandate_consumed, mandate_revoked}
use cpfbuddies.Stores.Mandates
use cpfbuddies.Stores.Mandates.{empty}
use cpfbuddies.Stores.Mandates.Laws.{IsConsistent, IsUnbound}
use cpfbuddies.Mandates.Rail.{Rail, now, new_hex32, write_store, record_entry}
use cpfbuddies.Mandates.Service
use cpfbuddies.Mandates.Keeps.{Moved}
use cpfbuddies.Mandates.Runs.{Call, run, run-Moved}
use cpfbuddies.Mandates.OneTime.{end_once, consume-consume}
use cpfbuddies.Routes.{Request, serve, answered, refused, mandate_record}
use cpfbuddies.Routes.Once.{serve_all, consume_request-once}
use cpfbuddies.Samples.{
  config, ports, empty_rail, stored_rail, bound_mandate, mandate_1, buyer, five,
}

empty-IsConsistent : IsConsistent empty
unfolding Mandates.get get
empty-IsConsistent = record {
  keyed = λ k r h. ground arith;
  owned = λ k r h. ground arith;
  unbound = λ k r h. ground arith;
}

run-Moved_example : Moved empty_rail (
    run ports
      (Call.mint buyer "browser-agent-1" five "toothbrush under $5" 600 none
        ∷ Call.consume mandate_1 "settlement-worker"
        ∷ [])
      empty_rail)
run-Moved_example = run-Moved ports _ empty_rail empty-IsConsistent

get-one : {V : Type 0} (j k : String) (v r : V) → get k ((j, v) ∷ []) ≡ some r → (j ≡ k) × (v ≡ r)
unfolding get
get-one j k v r h = elim (Bool-cases (j == k)) [
  | inl same ↦ ((eq_iff j k).0 same, ground arith)
  | inr other ↦ ground arith
]

stored-IsConsistent : IsConsistent stored_rail.store
unfolding Mandates.get Mandates.nonce_owner get
stored-IsConsistent = record {
  keyed = λ k r h.
      let (same, is) = get-one mandate_1 k bound_mandate r h in
      subst (λ x. record_id x ≡ k) is same;
  owned = λ k r h.
      let (same, is) = get-one mandate_1 k bound_mandate r h in
      subst (λ x. Mandates.nonce_owner (Mandates.nonce_of x) stored_rail.store ≡ some k) is
        (ap (λ y. some y) same);
  unbound = λ k r h.
      let (same, is) = get-one mandate_1 k bound_mandate r h in
      subst IsUnbound is (λ e. ground arith);
}

abbrev consumed_mandate : MandateRecord
consumed_mandate = record bound_mandate { status = consumed; updated_at = 1_000_000_000 }

abbrev consumed_rail : Rail
consumed_rail = (Service.consume ports mandate_1 "settlement-worker" stored_rail).1

consumes :
    Service.consume ports mandate_1 "settlement-worker" stored_rail
    ≡ (ok consumed_mandate, consumed_rail)
unfolding Service.consume Service.transition Service.require_record Service.move_record
    Service.commit_change Service.log_event Service.append_audit ◌>>=◌ pure now new_hex32
    write_store record_entry evolve Mandates.get Mandates.replace get set
consumes = refl

consume-consume_example :
    (Service.consume ports mandate_1 "second-worker"
      (run ports (Call.revoke mandate_1 buyer ∷ []) consumed_rail)).0
    ≡ err mandate_status_conflict
consume-consume_example =
    consume-consume ports mandate_1 "settlement-worker" "second-worker" stored_rail consumed_rail
      consumed_mandate _ stored-IsConsistent consumes

end_once_example :
    (Service.move_record ports revoked mandate_revoked buyer bound_mandate
      (run ports (Call.halt_all true buyer ∷ []) consumed_rail)).0
    ≡ err mandate_status_conflict
unfolding Service.consume
end_once_example =
    end_once ports mandate_1 consumed mandate_consumed "settlement-worker" stored_rail consumed_rail
      consumed_mandate _ stored-IsConsistent refl consumes revoked mandate_revoked buyer
      bound_mandate refl

consumes_over_http :
    serve ports config (Request.consume mandate_1 "settlement-worker") stored_rail
    ≡ (answered 200 (mandate_record consumed_mandate), consumed_rail)
unfolding serve
consumes_over_http = rw consumes refl

consume_request-once_example :
    (serve ports config (Request.consume mandate_1 "second-worker") (
      serve_all ports config
        (Request.get mandate_1
          ∷ Request.revoke mandate_1 buyer
          ∷ Request.set_kill_switch true buyer none
          ∷ [])
        consumed_rail)).0
    ≡ refused 409
consume_request-once_example =
    consume_request-once ports config mandate_1 "settlement-worker" "second-worker" stored_rail
      consumed_rail 200 (mandate_record consumed_mandate)
      (Request.get mandate_1
        ∷ Request.revoke mandate_1 buyer
        ∷ Request.set_kill_switch true buyer none
        ∷ [])
      stored-IsConsistent consumes_over_http
