-- ===== src/Stores/Mandates/Laws.antt =====
-- What the writes of the mandate store promise: the index of nonces stays right, and a stored mandate
-- only ever moves on.
use cpfbuddies.Prelude.{
  String, true, ◌≡◌, subst, ◌≢◌, ◌↔◌, inl, inr, none, some, ◌==◌, eq_iff, arith, Option-cases,
  Bool-cases, if◌then◌else◌,
}
use cpfbuddies.Prelude.Dict
use cpfbuddies.Prelude.Dict.{get-set, get-set_self}
use cpfbuddies.Errors.{ok, err, mandate_status_conflict}
use cpfbuddies.Models.Mandate.{minted, MandateRecord, MandateStatus, same_status, record_id}
use cpfbuddies.Stores.Mandates.{MandateStore, nonce_of, save_new, get, nonce_owner, replace}
use cpfbuddies.Stores.Mandates.Later.{Later, Later-refl, Later-trans}

pub same_status_iff : (a b : MandateStatus) → (same_status a b ≡ true) ↔ (a ≡ b)
same_status_iff a b = ground arith

-- A mandate that has only been minted names no merchant and no basket.
abbrev pub IsUnbound : MandateRecord → Type 0
IsUnbound r =
    r.status ≡ minted
    → (r.signed.mandate.merchant_address ≡ none) × (r.signed.mandate.basket_hash ≡ none)

-- Every mandate is filed under its id, owns its nonce, and is unbound until it is bound.
pub record IsConsistent (s : MandateStore) : Type 0 where
  pub keyed : (k : String) (r : MandateRecord) → get k s ≡ some r → record_id r ≡ k
  pub owned :
      (k : String) (r : MandateRecord) → get k s ≡ some r → nonce_owner (nonce_of r) s ≡ some k
  pub unbound : (k : String) (r : MandateRecord) → get k s ≡ some r → IsUnbound r

-- No mandate is lost, and each only moves on.
abbrev pub Progress : MandateStore → MandateStore → Type 0
Progress s s' =
    (k : String) (r : MandateRecord)
    → get k s ≡ some r
    → (r' : MandateRecord) × (get k s' ≡ some r') × Later r r'

pub Progress-refl : (s : MandateStore) → Progress s s
Progress-refl s k r e = (r, e, Later-refl r)

pub Progress-trans : (a b c : MandateStore) → Progress a b → Progress b c → Progress a c
Progress-trans a b c p q k r e =
    let (r', e', l) = p k r e in
    let (r'', e'', l') = q k r' e' in (r'', e'', Later-trans r r' r'' l l')

-- What a write leaves at a key is the new record or what was there.
IsUnbound-if :
    (r : MandateRecord) (s s' : MandateStore) (k : String) (x : MandateRecord)
    → get k s' ≡ (if record_id r == k then some r else get k s)
    → IsUnbound r
    → (get k s ≡ some x → IsUnbound x)
    → get k s' ≡ some x
    → IsUnbound x
IsUnbound-if r s s' k x e u old h = elim (Bool-cases (record_id r == k)) [
  | inl same ↦ let is_new : r ≡ x = ground arith in subst IsUnbound is_new u
  | inr other ↦ old (ground arith)
]

module _ (r : MandateRecord) (s : MandateStore) {s' : MandateStore}
    (saved : save_new r s ≡ ok s') where
  -- A new mandate's id and nonce were free.
  save_new_fresh : (get (record_id r) s ≡ none) × (nonce_owner (nonce_of r) s ≡ none)
  unfolding save_new get nonce_owner
  save_new_fresh = ground arith

  pub get-save_new : (k : String) → get k s' ≡ (if record_id r == k then some r else get k s)
  unfolding save_new get
  get-save_new k = ground (arith, get-set (record_id r) k r s.records)

  pub nonce_owner-save_new :
      (n : String)
      → nonce_owner n s' ≡ (if nonce_of r == n then some (record_id r) else nonce_owner n s)
  unfolding save_new nonce_owner
  nonce_owner-save_new n = ground (arith, get-set (nonce_of r) n (record_id r) s.nonce_owners)

  pub save_new-Progress : Progress s s'
  save_new-Progress k x h =
      (x, ground (arith, get-save_new k, save_new_fresh, eq_iff (record_id r) k), Later-refl x)

  pub save_new-IsConsistent : IsUnbound r → IsConsistent s → IsConsistent s'
  save_new-IsConsistent u c = record {
    unbound = λ k x h. IsUnbound-if r s s' k x (get-save_new k) u (c.unbound k x) h;
    keyed = λ k x h. ground (arith, get-save_new k, c.keyed k x, eq_iff (record_id r) k);
    owned = λ k x h. ground (
      arith,
      get-save_new k,
      nonce_owner-save_new (nonce_of x),
      c.owned k x,
      save_new_fresh,
      eq_iff (record_id r) k,
      eq_iff (nonce_of r) (nonce_of x),
    );
  }

module _ (r : MandateRecord) (e : MandateStatus) (s : MandateStore) where
  -- A mandate that is not stored, or has left the expected status, is refused.
  pub replace_refused :
      (current : MandateRecord)
      → get (record_id r) s ≡ some current
      → current.status ≢ e
      → replace r e s ≡ err mandate_status_conflict
  unfolding replace get
  replace_refused current h ne = ground (arith, same_status_iff current.status e)

  module _ {s' : MandateStore} (replaced : replace r e s ≡ ok s') where
    -- A successful write found the expected status.
    pub replace_found :
        (current : MandateRecord) × (get (record_id r) s ≡ some current) × (current.status ≡ e)
    unfolding replace get
    replace_found = elim (Option-cases (Dict.get (record_id r) s.records)) [
      | inl missing ↦ ground arith
      | inr (current, found) ↦ (current, found, ground (arith, same_status_iff current.status e))
    ]

    pub get-replace : (k : String) → get k s' ≡ (if record_id r == k then some r else get k s)
    unfolding replace get
    get-replace k = ground (arith, get-set (record_id r) k r s.records)

    pub nonce_owner-replace : (n : String) → nonce_owner n s' ≡ nonce_owner n s
    unfolding replace nonce_owner
    nonce_owner-replace n = ground arith

    pub replace-Progress :
        (current : MandateRecord)
        → get (record_id r) s ≡ some current
        → Later current r
        → Progress s s'
    replace-Progress current found later k x h = elim (Bool-cases (record_id r == k)) [
      | inl same ↦ (
        r,
        ground (arith, get-replace k),
        subst (λ y. Later y r) (ground (arith, eq_iff (record_id r) k)) later,
      )
      | inr other ↦ (x, ground (arith, get-replace k), Later-refl x)
    ]

    pub replace-IsConsistent :
        (current : MandateRecord)
        → get (record_id r) s ≡ some current
        → Later current r
        → IsUnbound r
        → IsConsistent s
        → IsConsistent s'
    replace-IsConsistent current found later u c = record {
      unbound = λ k x h. IsUnbound-if r s s' k x (get-replace k) u (c.unbound k x) h;
      keyed = λ k x h. ground (arith, get-replace k, c.keyed k x, eq_iff (record_id r) k);
      owned = λ k x h. ground (
        arith,
        get-replace k,
        nonce_owner-replace (nonce_of x),
        c.owned k x,
        c.owned (record_id r) current,
        later.nonce,
        eq_iff (record_id r) k,
      );
    }
