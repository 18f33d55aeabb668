-- ===== src/Stores/Dynamo/Mandates/Creation.antt =====
-- save_new of src/trustrail/stores/dynamo.py, next to that of memory.py.
use cpfbuddies.Prelude.{
  String, ◌<>◌, true, ◌≡◌, ◌≢◌, refl, ◌∙◌, ap, inl, inr, Option, none, some, [], ◌∷◌, ◌==◌, ◌||◌,
  eq_iff, is_some, Option-cases, arith, if◌then◌else◌,
}
use cpfbuddies.Prelude.Dict
use cpfbuddies.Errors.{Error, Result, ok, err, mandate_already_exists, nonce_already_claimed}
use cpfbuddies.Models.Mandate.{Timestamp, MandateRecord, record_id}
use cpfbuddies.Stores.Mandates as Memory
use cpfbuddies.Stores.Mandates.{MandateStore, nonce_of}
use cpfbuddies.Stores.Dynamo.Table.{Item, Table, IsTable, ClientError, cancelled, text_of, key_of}
use cpfbuddies.Stores.Mandates.Laws.{get-save_new, nonce_owner-save_new}
use cpfbuddies.Stores.Dynamo.Mandates.Calls.{stored}
use cpfbuddies.Stores.Dynamo.Mandates as Dynamo
use cpfbuddies.Stores.Dynamo.Mandates.{
  created, replaced, missing_or_moved, Json, status_value, nonce_item, mandate_item,
  explain_failed_creation, explain_failed_replace, mandate_prefix, nonce_prefix, read_model,
  owner_of,
}
use cpfbuddies.Stores.Dynamo.Mandates.Represents.{
  mapped, nonce_row, mandate_key, nonce_key, mandate-ne-nonce, ReadsBack, ReadsBack-if, Represents,
  memory_saves, memory_claimed, memory_taken,
}

pub created_ok :
    {S : Type 0} (t : Table S) (json : Json MandateRecord) (isoformat : Timestamp → String)
    (p : Option ClientError × S)
    → p.0 ≡ none
    → created t json isoformat p ≡ (ok tt, p.1)
created_ok t json isoformat (none, s) h = refl
created_ok t json isoformat (some e, s) h = ground arith

pub created_err :
    {S : Type 0} (t : Table S) (json : Json MandateRecord) (isoformat : Timestamp → String)
    (p : Option ClientError × S) (e : ClientError)
    → p.0 ≡ some e
    → created t json isoformat p ≡ (err (explain_failed_creation e), p.1)
created_err t json isoformat (none, s) e h = ground arith
created_err t json isoformat (some d, s) e h = ap (λ x. (err (explain_failed_creation x), s)) (cc)

module _ {S : Type 0} (t : Table S) (contents : S → String → Option Item)
    (laws : IsTable t contents) (json : Json MandateRecord) (isoformat : Timestamp → String) where
  abbrev pub Agrees : Result (Unit {0}) × S → Result (Unit {0}) × MandateStore → Type 0
  Agrees p q = (p.0 ≡ q.0) × Represents json isoformat (contents p.1) q.1

  pub saved-Represents :
      (r : MandateRecord) (s s' : S) (m m' : MandateStore)
      → ReadsBack json r
      → Represents json isoformat (contents s) m
      → Memory.save_new r m ≡ ok m'
      → ((k : String)
          → contents s' k ≡ (
              if mandate_prefix <> record_id r == k
              then some (mandate_item json isoformat r)
              else if nonce_prefix <> nonce_of r == k
              then some (nonce_item r)
              else contents s k))
      → Represents json isoformat (contents s') m'
  unfolding nonce_item nonce_row
  saved-Represents r s s' m m' reads_back rep saved h = record {
    records = λ i. ground (
      arith,
      h (mandate_prefix <> i),
      mandate_key (record_id r) i,
      mandate-ne-nonce i (nonce_of r),
      get-save_new r m saved i,
      rep.records i,
      eq_iff (nonce_prefix <> nonce_of r) (mandate_prefix <> i),
      eq_iff (mandate_prefix <> i) (nonce_prefix <> nonce_of r),
    );
    nonces = λ n. ground (
      arith,
      h (nonce_prefix <> n),
      nonce_key (nonce_of r) n,
      mandate-ne-nonce (record_id r) n,
      nonce_owner-save_new r m saved n,
      rep.nonces n,
      eq_iff (nonce_of r) n,
      eq_iff (mandate_prefix <> record_id r) (nonce_prefix <> n),
    );
    readable = λ i x e.
        ReadsBack-if json r (record_id r == i) (Memory.get i m) (Memory.get i m') x
          (get-save_new r m saved i) reads_back (rep.readable i x) e;
  }

  -- What a table holds under the key of a mandate, or of a nonce, is what a store in memory has.
  abbrev pub Same : (String → Option Item) → (String → Option Item) → Type 0
  Same held held' = (k : String) → held' k ≡ held k

  pub Same-Represents :
      (held held' : String → Option Item) (m : MandateStore)
      → Same held held'
      → Represents json isoformat held m
      → Represents json isoformat held' m
  Same-Represents held held' m same rep = record {
    records = λ i. same (mandate_prefix <> i) ∙ rep.records i;
    nonces = λ n. same (nonce_prefix <> n) ∙ rep.nonces n;
    readable = rep.readable;
  }

  -- The two items have different keys.
  pub keys_differ :
      (r : MandateRecord) → key_of (mandate_item json isoformat r) ≢ key_of (nonce_item r)
  unfolding mandate_item nonce_item text_of Dict.get
  keys_differ r e = ground (
    arith,
    mandate-ne-nonce (record_id r) (nonce_of r),
    (eq_iff (mandate_prefix <> record_id r) (nonce_prefix <> nonce_of r)).1 e,
  )

  pub held_mandate :
      (r : MandateRecord) (s : S) (m : MandateStore) (o : Option MandateRecord)
      → Represents json isoformat (contents s) m
      → Memory.get (record_id r) m ≡ o
      → contents s (key_of (mandate_item json isoformat r)) ≡ mapped (mandate_item json isoformat) o
  unfolding mandate_item text_of Dict.get
  held_mandate r s m o rep h =
      rep.records (record_id r) ∙ ap (mapped (mandate_item json isoformat)) h

  pub held_nonce :
      (r : MandateRecord) (s : S) (m : MandateStore) (o : Option String)
      → Represents json isoformat (contents s) m
      → Memory.nonce_owner (nonce_of r) m ≡ o
      → contents s (key_of (nonce_item r)) ≡ mapped (nonce_row (nonce_of r)) o
  unfolding nonce_item text_of Dict.get
  held_nonce r s m o rep h = rep.nonces (nonce_of r) ∙ ap (mapped (nonce_row (nonce_of r))) h

  pub written_items :
      (r : MandateRecord) (s s' : S)
      → ((k : String)
          → contents s' k ≡ (
              if key_of (mandate_item json isoformat r) == k
              then some (mandate_item json isoformat r)
              else if key_of (nonce_item r) == k
              then some (nonce_item r)
              else contents s k))
      → (k : String)
      → contents s' k ≡ (
          if mandate_prefix <> record_id r == k
          then some (mandate_item json isoformat r)
          else if nonce_prefix <> nonce_of r == k
          then some (nonce_item r)
          else contents s k)
  unfolding mandate_item nonce_item text_of Dict.get
  written_items r s s' h = h

  -- A transaction that is cancelled leaves both stores as they were.
  pub cancelled-Agrees :
      (r : MandateRecord) (s : S) (m : MandateStore) (e : Error) (x : Option Item) (y : Option Item)
      → Represents json isoformat (contents s) m
      → contents s (key_of (mandate_item json isoformat r)) ≡ x
      → contents s (key_of (nonce_item r)) ≡ y
      → (is_some x || is_some y) ≡ true
      → explain_failed_creation (cancelled x y) ≡ e
      → Memory.save_new r m ≡ err e
      → Agrees (Dynamo.save_new t json isoformat r s) (stored (Memory.save_new r m) m)
  unfolding Dynamo.save_new
  cancelled-Agrees r s m e x y rep held_x held_y some_held explained refused =
      let law =
        laws.transact_cancelled (mandate_item json isoformat r) (nonce_item r) s (keys_differ r) (
          ap (λ o. is_some o || is_some (contents s (key_of (nonce_item r)))) held_x
          ∙ ap (λ o. is_some x || is_some o) held_y
          ∙ some_held) in
      let why =
        created_err t json isoformat
          (t.transact_write_items (mandate_item json isoformat r ∷ nonce_item r ∷ []) s) _
          (law.0
            ∙ ap (λ o. some (cancelled o (contents s (key_of (nonce_item r))))) held_x
            ∙ ap (λ o. some (cancelled x o)) held_y) in
      rw (why, refused) (ap err explained, Same-Represents (contents s) _ m law.1 rep)

  pub stored-Agrees :
      (r : MandateRecord) (s : S) (m : MandateStore)
      → ReadsBack json r
      → Represents json isoformat (contents s) m
      → Memory.get (record_id r) m ≡ none
      → Memory.nonce_owner (nonce_of r) m ≡ none
      → Agrees (Dynamo.save_new t json isoformat r s) (stored (Memory.save_new r m) m)
  unfolding Dynamo.save_new
  stored-Agrees r s m reads_back rep new unclaimed =
      let law =
        laws.transact_stored (mandate_item json isoformat r) (nonce_item r) s (keys_differ r)
          (held_mandate r s m none rep new) (held_nonce r s m none rep unclaimed) in
      let done =
        created_ok t json isoformat
          (t.transact_write_items (mandate_item json isoformat r ∷ nonce_item r ∷ []) s) law.0 in
      let saved = memory_saves r m new unclaimed in
      rw (done, saved.1)
        (refl, saved-Represents r s _ m saved.0 reads_back rep saved.1 (written_items r s _ law.1))

  pub save_new-Agrees :
      (r : MandateRecord) (s : S) (m : MandateStore)
      → ReadsBack json r
      → Represents json isoformat (contents s) m
      → Agrees (Dynamo.save_new t json isoformat r s) (stored (Memory.save_new r m) m)
  unfolding explain_failed_creation
  save_new-Agrees r s m reads_back rep = elim (Option-cases (Memory.get (record_id r) m)) [
    | inl new ↦ elim (Option-cases (Memory.nonce_owner (nonce_of r) m)) [
      | inl unclaimed ↦ stored-Agrees r s m reads_back rep new unclaimed
      | inr (owner, claimed) ↦
          cancelled-Agrees r s m nonce_already_claimed none (some (nonce_row (nonce_of r) owner))
            rep (held_mandate r s m none rep new) (held_nonce r s m (some owner) rep claimed) refl
            refl (memory_claimed r m owner new claimed)
    ]
    | inr (old, taken) ↦
        cancelled-Agrees r s m mandate_already_exists (some (mandate_item json isoformat old)) _ rep
          (held_mandate r s m (some old) rep taken) refl refl refl (memory_taken r old m taken)
  ]
