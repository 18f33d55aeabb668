-- ===== src/Mandates/Stored.antt =====
-- What mint and bind of src/trustrail/mandate/service.py return is what the store then holds.
use cpfbuddies.Prelude.{
  ℕ, not, String, ◌||◌, ◌≡◌, sym, subst, ◌∙◌, ap, Option, some, arith, Bool-cases, inl, inr,
  eq_refl,
}
use cpfbuddies.Errors.{ok}
use cpfbuddies.Errors.Success.{bind_ok}
use cpfbuddies.Models.Money.{Money}
use cpfbuddies.Models.Mandate.{
  MandateBinding, MandateRecord, minted, record_id, same_status, is_bound,
}
use cpfbuddies.Models.Audit.{mandate_minted, mandate_bound}
use cpfbuddies.Stores.Mandates
use cpfbuddies.Stores.Mandates.Laws.{get-save_new}
use cpfbuddies.Mandates.Rail.{
  Ports, Rail, ◌>>=◌, ◌>>◌, pure, raise, now, new_hex32, write_store, call_registrar,
}
use cpfbuddies.Mandates.Service
use cpfbuddies.Mandates.OneTime.{write_store_ok, log_event-store, commit_change_ok}

-- The mandate is stored as it is here.
abbrev pub IsStored : MandateRecord → Rail → Type 0
IsStored r s = Mandates.get (record_id r) s.store ≡ some r

module _ (ports : Ports) where
  register_onchain-store :
      (r : MandateRecord) (agent : Option String) (s : Rail)
      → (Service.register_onchain ports r agent s).1.store ≡ s.store
  unfolding Service.register_onchain pure call_registrar
  register_onchain-store r agent s = ground arith

  -- The end of mint, of the record that it has made
  mint_writes :
      (r0 : MandateRecord) (agent : Option String) (actor : String) (s s' : Rail)
      (r : MandateRecord)
      → (write_store (Mandates.save_new r0)
            >> (Service.register_onchain ports r0 agent
                >> (Service.log_event ports r0 mandate_minted actor >> pure r0)))
          s
        ≡ (ok r, s')
      → IsStored r s'
  unfolding pure
  mint_writes r0 agent actor s s' r h =
      let write = write_store (Mandates.save_new r0) in
      let register = Service.register_onchain ports r0 agent in
      let log = Service.log_event ports r0 mandate_minted actor in
      let s1 = (write s).1 in
      let s2 = (register s1).1 in
      let (_, wrote, h1) = bind_ok write _ s r s' h in
      let (_, _, h2) = bind_ok register _ s1 r s' h1 in
      let (_, _, end) = bind_ok log _ s2 r s' h2 in
      let found =
        get-save_new r0 s.store (write_store_ok (Mandates.save_new r0) s s1 _ wrote)
          (record_id r0) in
      let same : r0 ≡ r = ground arith in
      let kept : s'.store ≡ s1.store =
        ap (λ p. p.1.store) (sym end)
        ∙ log_event-store ports r0 mandate_minted actor s2
        ∙ register_onchain-store r0 agent s1 in
      subst (λ x. IsStored x s') same
        (ap (Mandates.get (record_id r0)) kept ∙ ground (arith, found, eq_refl (record_id r0)))

  pub mint-IsStored :
      (principal agent_id : String) (max_amount : Money) (intent : String) (ttl : ℕ)
      (agent : Option String) (s s' : Rail) (r : MandateRecord)
      → Service.mint ports principal agent_id max_amount intent ttl agent s ≡ (ok r, s')
      → IsStored r s'
  unfolding Service.mint ◌>>=◌ now new_hex32
  mint-IsStored principal agent_id max_amount intent ttl agent s s' r h =
      mint_writes _ agent agent_id _ s' r h

  bind_record-IsStored :
      (binding : MandateBinding) (actor : String) (r0 : MandateRecord) (s s' : Rail)
      (r : MandateRecord)
      → Service.bind_record ports binding actor r0 s ≡ (ok r, s')
      → IsStored r s'
  unfolding Service.bind_record raise
  bind_record-IsStored binding actor r0 s s' r h =
      elim (Bool-cases (not (same_status r0.status minted) || is_bound r0.signed.mandate)) [
        | inl illegal ↦ ground arith
        | inr legal ↦
            let (at, _, rest) =
              bind_ok (now ports)
                (λ at.
                  Service.commit_change ports (Service.bound_record ports r0 binding at) minted
                    mandate_bound actor)
                s r s' (ground arith) in
            let (same, found) =
              commit_change_ok ports (Service.bound_record ports r0 binding at) minted mandate_bound
                actor _ s' r rest in
            rw same found
      ]

  pub bind-IsStored :
      (mandate_id : String) (binding : MandateBinding) (actor : String) (s s' : Rail)
      (r : MandateRecord)
      → Service.bind ports mandate_id binding actor s ≡ (ok r, s')
      → IsStored r s'
  unfolding Service.bind
  bind-IsStored mandate_id binding actor s s' r h =
      let (r0, _, rest) = bind_ok (Service.require_record ports mandate_id) _ s r s' h in
      bind_record-IsStored binding actor r0 _ s' r rest
