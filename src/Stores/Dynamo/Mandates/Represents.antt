-- ===== src/Stores/Dynamo/Mandates/Represents.antt =====
-- When a table holds what the store of mandates in memory has (src/trustrail/stores/dynamo.py and memory.py).
use cpfbuddies.Prelude.{
  String, ◌<>◌, Bool, true, false, ◌≡◌, refl, sym, ◌∙◌, Option, none, some, [], ◌∷◌, subst, ◌==◌,
  eq_iff, arith, if◌then◌else◌,
}
use cpfbuddies.Prelude.Text.{prefix_cancel, first_code-append}
use cpfbuddies.Prelude.Dict
use cpfbuddies.Errors.{
  ok, err, mandate_not_found, mandate_already_exists, nonce_already_claimed,
  mandate_status_conflict,
}
use cpfbuddies.Models.Mandate.{
  Timestamp, MandateRecord, MandateStatus, minted, bound, consumed, revoked, same_status, record_id,
}
use cpfbuddies.Stores.Mandates as Memory
use cpfbuddies.Stores.Mandates.{MandateStore, nonce_of}
use cpfbuddies.Stores.Dynamo.Table.{Item, Attribute, text_of, key_of}
use cpfbuddies.Stores.Dynamo.Mandates.{
  Json, status_value, mandate_item, mandate_prefix, nonce_prefix,
}

abbrev pub mapped : {A B : Type 0} → (A → B) → Option A → Option B
mapped f none = none
mapped f (some a) = some (f a)

unfoldable pub nonce_row : String → String → Item
nonce_row n mandate_id =
    ("pk", Attribute.text (nonce_prefix <> n)) ∷ ("mandate_id", Attribute.text mandate_id) ∷ []

pub status_value_lem : (a b : MandateStatus) → (status_value a == status_value b) ≡ same_status a b
status_value_lem minted minted = refl
status_value_lem minted bound = refl
status_value_lem minted consumed = refl
status_value_lem minted revoked = refl
status_value_lem bound minted = refl
status_value_lem bound bound = refl
status_value_lem bound consumed = refl
status_value_lem bound revoked = refl
status_value_lem consumed minted = refl
status_value_lem consumed bound = refl
status_value_lem consumed consumed = refl
status_value_lem consumed revoked = refl
status_value_lem revoked minted = refl
status_value_lem revoked bound = refl
status_value_lem revoked consumed = refl
status_value_lem revoked revoked = refl

pub mandate_key : (i j : String) → (mandate_prefix <> i == mandate_prefix <> j) ≡ (i == j)
mandate_key i j = ground (
  arith,
  eq_iff i j,
  eq_iff (mandate_prefix <> i) (mandate_prefix <> j),
  prefix_cancel mandate_prefix i j,
)

pub nonce_key : (i j : String) → (nonce_prefix <> i == nonce_prefix <> j) ≡ (i == j)
nonce_key i j = ground (
  arith,
  eq_iff i j,
  eq_iff (nonce_prefix <> i) (nonce_prefix <> j),
  prefix_cancel nonce_prefix i j,
)

pub mandate-ne-nonce : (i j : String) → (mandate_prefix <> i == nonce_prefix <> j) ≡ false
mandate-ne-nonce i j = ground (
  arith,
  eq_iff (mandate_prefix <> i) (nonce_prefix <> j),
  first_code-append "m" "andate#" i,
  first_code-append "n" "once#" j,
)

-- What is stored of a record is read as that record.
abbrev pub ReadsBack : Json MandateRecord → MandateRecord → Type 0
ReadsBack json r = json.validate (json.dump r) ≡ some r

-- What a write leaves under a key reads back, if the new record and the old ones do.
pub ReadsBack-if :
    (json : Json MandateRecord) (r : MandateRecord) (b : Bool) (old now : Option MandateRecord)
    (x : MandateRecord)
    → now ≡ (if b then some r else old)
    → ReadsBack json r
    → (old ≡ some x → ReadsBack json x)
    → now ≡ some x
    → ReadsBack json x
ReadsBack-if json r true old now x h new kept e =
    let is_new : r ≡ x = ground arith in subst (ReadsBack json) is_new new
ReadsBack-if json r false old now x h new kept e = kept (sym h ∙ e)

module _ (json : Json MandateRecord) (isoformat : Timestamp → String) where
  -- The table holds the items of the mandates and of the nonces that the store in memory has, and no other under
  -- such keys.
  pub record Represents (held : String → Option Item) (m : MandateStore) : Type 0 where
    pub records :
        (i : String)
        → held (mandate_prefix <> i) ≡ mapped (mandate_item json isoformat) (Memory.get i m)
    pub nonces :
        (n : String) → held (nonce_prefix <> n) ≡ mapped (nonce_row n) (Memory.nonce_owner n m)
    pub readable : (i : String) (r : MandateRecord) → Memory.get i m ≡ some r → ReadsBack json r

pub memory_missing :
    (r : MandateRecord) (e : MandateStatus) (m : MandateStore)
    → Memory.get (record_id r) m ≡ none
    → Memory.replace r e m ≡ err mandate_not_found
unfolding Memory.replace Memory.get
memory_missing r e m missing = ground arith

pub memory_moved :
    (r old : MandateRecord) (e : MandateStatus) (m : MandateStore)
    → Memory.get (record_id r) m ≡ some old
    → same_status old.status e ≡ false
    → Memory.replace r e m ≡ err mandate_status_conflict
unfolding Memory.replace Memory.get
memory_moved r old e m there moved = ground arith

pub memory_replaces :
    (r old : MandateRecord) (e : MandateStatus) (m : MandateStore)
    → Memory.get (record_id r) m ≡ some old
    → same_status old.status e ≡ true
    → (m' : MandateStore) × (Memory.replace r e m ≡ ok m')
unfolding Memory.replace Memory.get
memory_replaces r old e m there same =
    (record m { records = Dict.set (record_id r) r m.records }, ground arith)

pub key_of-mandate_item :
    (json : Json MandateRecord) (isoformat : Timestamp → String) (r : MandateRecord)
    → key_of (mandate_item json isoformat r) ≡ mandate_prefix <> record_id r
unfolding mandate_item text_of Dict.get
key_of-mandate_item json isoformat r = refl

pub memory_saves :
    (r : MandateRecord) (m : MandateStore)
    → Memory.get (record_id r) m ≡ none
    → Memory.nonce_owner (nonce_of r) m ≡ none
    → (m' : MandateStore) × (Memory.save_new r m ≡ ok m')
unfolding Memory.save_new Memory.get Memory.nonce_owner
memory_saves r m new unclaimed = (
  record {
    records = Dict.set (record_id r) r m.records;
    nonce_owners = Dict.set (nonce_of r) (record_id r) m.nonce_owners;
  },
  rw (new, unclaimed) refl,
)

pub memory_claimed :
    (r : MandateRecord) (m : MandateStore) (owner : String)
    → Memory.get (record_id r) m ≡ none
    → Memory.nonce_owner (nonce_of r) m ≡ some owner
    → Memory.save_new r m ≡ err nonce_already_claimed
unfolding Memory.save_new Memory.get Memory.nonce_owner
memory_claimed r m owner new claimed = rw (new, claimed) refl

pub memory_taken :
    (r old : MandateRecord) (m : MandateStore)
    → Memory.get (record_id r) m ≡ some old
    → Memory.save_new r m ≡ err mandate_already_exists
unfolding Memory.save_new Memory.get
memory_taken r old m taken = rw taken refl
