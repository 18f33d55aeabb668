-- ===== src/Stores/Dynamo/Mandates/Refines.antt =====
-- The store of mandates of src/trustrail/stores/dynamo.py answers as that of memory.py does.
use cpfbuddies.Prelude.{
  String, ◌<>◌, true, false, ◌≡◌, refl, ◌∙◌, ap, inl, inr, Option, none, some, List, [], ◌∷◌, All,
  ◌==◌, Bool-cases, Option-cases, arith, if◌then◌else◌,
}
use cpfbuddies.Prelude.Dict
use cpfbuddies.Errors.{Error, ok, err, mandate_not_found, mandate_status_conflict}
use cpfbuddies.Models.Mandate.{Timestamp, MandateRecord, MandateStatus, same_status, record_id}
use cpfbuddies.Stores.Mandates as Memory
use cpfbuddies.Stores.Mandates.{MandateStore, nonce_of}
use cpfbuddies.Stores.Dynamo.Table.{
  Item, Table, IsTable, ClientError, condition_failed, text_of, item_text, has_text, key_of,
}
use cpfbuddies.Stores.Mandates.Laws.{get-replace, nonce_owner-replace}
use cpfbuddies.Stores.Dynamo.Mandates.Calls.{Call, stored, in_memory, in_dynamo}
use cpfbuddies.Stores.Dynamo.Mandates as Dynamo
use cpfbuddies.Stores.Dynamo.Mandates.{
  created, replaced, missing_or_moved, Json, status_value, nonce_item, mandate_item,
  explain_failed_creation, explain_failed_replace, mandate_prefix, nonce_prefix, read_model,
  owner_of,
}
use cpfbuddies.Stores.Dynamo.Mandates.Represents.{
  mapped, nonce_row, status_value_lem, mandate_key, mandate-ne-nonce, ReadsBack, ReadsBack-if,
  Represents, memory_missing, memory_moved, memory_replaces, key_of-mandate_item,
}
use cpfbuddies.Stores.Dynamo.Mandates.Creation.{
  Agrees, Same-Represents, held_mandate, save_new-Agrees,
}

replaced_ok :
    {S : Type 0} (t : Table S) (json : Json MandateRecord) (isoformat : Timestamp → String)
    (r : MandateRecord) (p : Option ClientError × S)
    → p.0 ≡ none
    → replaced t json isoformat r p ≡ (ok tt, p.1)
replaced_ok t json isoformat r (none, s) h = refl
replaced_ok t json isoformat r (some e, s) h = ground arith

replaced_err :
    {S : Type 0} (t : Table S) (json : Json MandateRecord) (isoformat : Timestamp → String)
    (r : MandateRecord) (p : Option ClientError × S)
    → p.0 ≡ some condition_failed
    → replaced t json isoformat r p ≡ (
      err (missing_or_moved t json isoformat (Dynamo.get t json isoformat (record_id r) p.1)),
      p.1,
    )
unfolding explain_failed_replace
replaced_err t json isoformat r (none, s) h = ground arith
replaced_err t json isoformat r (some d, s) h = let same : d ≡ condition_failed = cc in rw same refl

module _ {S : Type 0} (t : Table S) (contents : S → String → Option Item)
    (laws : IsTable t contents) (json : Json MandateRecord) (isoformat : Timestamp → String)
    (current : (k : String) (s : S) → t.get_item k s ≡ contents s k) where
  -- An item is read as the mandate that it was made of.
  read-mandate_item :
      (o : Option MandateRecord)
      → ((r : MandateRecord) → o ≡ some r → ReadsBack json r)
      → read_model json "record" (mapped (mandate_item json isoformat) o) ≡ ok o
  unfolding mandate_item item_text text_of Dict.get
  read-mandate_item none h = refl
  read-mandate_item (some r) h = rw (h r refl) refl

  owner_of-nonce_row : (n : String) (o : Option String) → owner_of (mapped (nonce_row n) o) ≡ ok o
  unfolding nonce_row item_text text_of Dict.get
  owner_of-nonce_row n none = refl
  owner_of-nonce_row n (some i) = refl

  get-Agrees :
      (i : String) (s : S) (m : MandateStore)
      → Represents json isoformat (contents s) m
      → Dynamo.get t json isoformat i s ≡ ok (Memory.get i m)
  unfolding Dynamo.get
  get-Agrees i s m rep =
      rw (current (mandate_prefix <> i) s, rep.records i)
        (read-mandate_item (Memory.get i m) (rep.readable i))

  nonce_owner-Agrees :
      (n : String) (s : S) (m : MandateStore)
      → Represents json isoformat (contents s) m
      → Dynamo.nonce_owner t json isoformat n s ≡ ok (Memory.nonce_owner n m)
  unfolding Dynamo.nonce_owner
  nonce_owner-Agrees n s m rep =
      rw (current (nonce_prefix <> n) s, rep.nonces n)
        (owner_of-nonce_row n (Memory.nonce_owner n m))

  -- The condition of a replacement is the test that the store in memory makes.
  has_status :
      (e : MandateStatus) (r : MandateRecord)
      → has_text "status" (status_value e) (some (mandate_item json isoformat r))
        ≡ same_status r.status e
  unfolding mandate_item text_of Dict.get
  has_status e r = status_value_lem r.status e

  refused-Agrees :
      (r : MandateRecord) (e : MandateStatus) (s : S) (m : MandateStore) (why : Error)
      → Represents json isoformat (contents s) m
      → has_text "status"
          (status_value e)
          (mapped (mandate_item json isoformat) (Memory.get (record_id r) m))
        ≡ false
      → missing_or_moved t json isoformat (ok (Memory.get (record_id r) m)) ≡ why
      → Memory.replace r e m ≡ err why
      → Agrees t contents laws json isoformat
          (Dynamo.replace t json isoformat r e s)
          (stored (Memory.replace r e m) m)
  unfolding Dynamo.replace
  refused-Agrees r e s m why rep unmet named refused =
      let law = laws.put_refused (mandate_item json isoformat r) "status" (status_value e) s (
        ap (has_text "status" (status_value e))
          (held_mandate t contents laws json isoformat r s m _ rep refl)
        ∙ unmet) in
      let still = Same-Represents t contents laws json isoformat (contents s) _ m law.1 rep in
      let reported =
        replaced_err t json isoformat r
          (t.put_item (mandate_item json isoformat r) "status" (status_value e) s) law.0 in
      rw (reported, refused)
        (
          ap (λ x. err (missing_or_moved t json isoformat x)) (get-Agrees (record_id r) _ m still)
              ∙ ap err named,
          still,
        )

  replaced-Represents :
      (r : MandateRecord) (e : MandateStatus) (s s' : S) (m m' : MandateStore)
      → ReadsBack json r
      → Represents json isoformat (contents s) m
      → Memory.replace r e m ≡ ok m'
      → ((k : String)
          → contents s' k ≡ (
              if key_of (mandate_item json isoformat r) == k
              then some (mandate_item json isoformat r)
              else contents s k))
      → Represents json isoformat (contents s') m'
  replaced-Represents r e s s' m m' reads_back rep done h = record {
    records = λ i. ground (
      arith,
      h (mandate_prefix <> i),
      key_of-mandate_item json isoformat r,
      mandate_key (record_id r) i,
      get-replace r e m done i,
      rep.records i,
    );
    nonces = λ n. ground (
      arith,
      h (nonce_prefix <> n),
      key_of-mandate_item json isoformat r,
      mandate-ne-nonce (record_id r) n,
      nonce_owner-replace r e m done n,
      rep.nonces n,
    );
    readable = λ i x at.
        ReadsBack-if json r (record_id r == i) (Memory.get i m) (Memory.get i m') x
          (get-replace r e m done i) reads_back (rep.readable i x) at;
  }

  replaced-Agrees :
      (r old : MandateRecord) (e : MandateStatus) (s : S) (m : MandateStore)
      → ReadsBack json r
      → Represents json isoformat (contents s) m
      → Memory.get (record_id r) m ≡ some old
      → same_status old.status e ≡ true
      → Agrees t contents laws json isoformat
          (Dynamo.replace t json isoformat r e s)
          (stored (Memory.replace r e m) m)
  unfolding Dynamo.replace
  replaced-Agrees r old e s m reads_back rep there same =
      let law = laws.put_stored (mandate_item json isoformat r) "status" (status_value e) s (
        ap (has_text "status" (status_value e))
          (held_mandate t contents laws json isoformat r s m (some old) rep there)
        ∙ has_status e old
        ∙ same) in
      let done =
        replaced_ok t json isoformat r
          (t.put_item (mandate_item json isoformat r) "status" (status_value e) s) law.0 in
      let replaced = memory_replaces r old e m there same in
      rw (done, replaced.1)
        (refl, replaced-Represents r e s _ m replaced.0 reads_back rep replaced.1 law.1)

  replace-Agrees :
      (r : MandateRecord) (e : MandateStatus) (s : S) (m : MandateStore)
      → ReadsBack json r
      → Represents json isoformat (contents s) m
      → Agrees t contents laws json isoformat
          (Dynamo.replace t json isoformat r e s)
          (stored (Memory.replace r e m) m)
  replace-Agrees r e s m reads_back rep = elim (Option-cases (Memory.get (record_id r) m)) [
    | inl missing ↦
        refused-Agrees r e s m mandate_not_found rep (rw missing refl) (rw missing refl)
          (memory_missing r e m missing)
    | inr (old, there) ↦ elim (Bool-cases (same_status old.status e)) [
      | inl same ↦ replaced-Agrees r old e s m reads_back rep there same
      | inr moved ↦
          refused-Agrees r e s m mandate_status_conflict rep (rw there (has_status e old ∙ moved))
            (rw there refl) (memory_moved r old e m there moved)
    ]
  ]

  -- The records that a call writes read back.
  abbrev pub Readable : Call → Type 0
  Readable (Call.save_new r) = ReadsBack json r
  Readable (Call.replace r e) = ReadsBack json r
  Readable (Call.get i) = Unit
  Readable (Call.nonce_owner n) = Unit

  in_dynamo_refines :
      (calls : List Call) (s : S) (m : MandateStore)
      → All Readable calls
      → Represents json isoformat (contents s) m
      → in_dynamo t json isoformat calls s ≡ in_memory calls m
  unfolding in_dynamo in_memory
  in_dynamo_refines [] s m reads rep = refl
  in_dynamo_refines (Call.save_new r ∷ calls) s m reads rep =
      let now = save_new-Agrees t contents laws json isoformat r s m reads.0 rep in
      let later =
        in_dynamo_refines calls (Dynamo.save_new t json isoformat r s).1
          (stored (Memory.save_new r m) m).1 reads.1 now.1 in
      rw (now.0, later) refl
  in_dynamo_refines (Call.replace r e ∷ calls) s m reads rep =
      let now = replace-Agrees r e s m reads.0 rep in
      let later =
        in_dynamo_refines calls (Dynamo.replace t json isoformat r e s).1
          (stored (Memory.replace r e m) m).1 reads.1 now.1 in
      rw (now.0, later) refl
  in_dynamo_refines (Call.get i ∷ calls) s m reads rep =
      rw (get-Agrees i s m rep, in_dynamo_refines calls s m reads.1 rep) refl
  in_dynamo_refines (Call.nonce_owner n ∷ calls) s m reads rep =
      rw (nonce_owner-Agrees n s m rep, in_dynamo_refines calls s m reads.1 rep) refl

  -- A store over an empty table answers every sequence of creations, replacements, reads of a mandate by its id and reads
  -- of a nonce's owner as the store in memory does, if its reads see the writes before them, conditional writes and transactions keep to what DynamoDB documents, and each record that is
  -- written can be read back from its JSON.
  pub in_dynamo-empty :
      (calls : List Call) (s : S)
      → All Readable calls
      → ((k : String) → contents s k ≡ none)
      → in_dynamo t json isoformat calls s ≡ in_memory calls Memory.empty
  unfolding Memory.get Memory.nonce_owner Dict.get
  in_dynamo-empty calls s reads empty = in_dynamo_refines calls s Memory.empty reads (record {
    readable = λ i r e. ground arith;
    records = λ i. empty (mandate_prefix <> i);
    nonces = λ n. empty (nonce_prefix <> n);
  })
