-- ===== src/Stores/Mandates.antt =====
-- `InMemoryMandateStore`
pub mod Later
pub mod Laws
use cpfbuddies.Prelude.{
  String, Bool, Option, none, some, List, [], ◌∷◌, ◌==◌, leb, not, is_some, if◌then◌else◌,
}
use cpfbuddies.Prelude.Dict
use cpfbuddies.Prelude.Dict.{Dict}
use cpfbuddies.Errors.{
  Result, ok, err, mandate_not_found, mandate_already_exists, nonce_already_claimed,
  mandate_status_conflict,
}
use cpfbuddies.Models.Mandate.{
  MandateRecord, MandateStatus, same_status, record_id, record_principal,
}

pub record MandateStore : Type 0 where
  pub records : Dict MandateRecord
  pub nonce_owners : Dict String

abbrev pub empty : MandateStore
empty = record { records = []; nonce_owners = [] }

abbrev pub nonce_of : MandateRecord → String
nonce_of r = r.signed.mandate.nonce

-- The new store, or the error; an error writes nothing.
unfoldable pub save_new : MandateRecord → MandateStore → Result MandateStore
save_new r s =
    if is_some (Dict.get (record_id r) s.records)
    then err mandate_already_exists
    else if is_some (Dict.get (nonce_of r) s.nonce_owners)
    then err nonce_already_claimed
    else ok (record {
      records = Dict.set (record_id r) r s.records;
      nonce_owners = Dict.set (nonce_of r) (record_id r) s.nonce_owners;
    })

unfoldable pub get : String → MandateStore → Option MandateRecord
get mandate_id s = Dict.get mandate_id s.records

unfoldable pub nonce_owner : String → MandateStore → Option String
nonce_owner nonce s = Dict.get nonce s.nonce_owners

-- The compare-and-set.
unfoldable pub replace : MandateRecord → MandateStatus → MandateStore → Result MandateStore
replace r expected_status s = elim (Dict.get (record_id r) s.records) [
  | none ↦ err mandate_not_found
  | some current ↦
      if same_status current.status expected_status
      then ok (record s { records = Dict.set (record_id r) r s.records })
      else err mandate_status_conflict
]

-- `sorted(owned, key=created_at, reverse=True)` is stable: among equals the earlier comes first.
insert_newest : MandateRecord → List MandateRecord → List MandateRecord
insert_newest r [] = r ∷ []
insert_newest r (x ∷ xs) =
    if leb x.created_at r.created_at then r ∷ (x ∷ xs) else x ∷ insert_newest r xs

sort_newest : List MandateRecord → List MandateRecord
unfolding insert_newest
sort_newest [] = []
sort_newest (r ∷ rs) = insert_newest r (sort_newest rs)

owned_by : String → List MandateRecord → List MandateRecord
owned_by principal [] = []
owned_by principal (r ∷ rs) =
    let rest = owned_by principal rs in if record_principal r == principal then r ∷ rest else rest

unfoldable pub list_by_principal : String → MandateStore → List MandateRecord
unfolding sort_newest owned_by
list_by_principal principal s = sort_newest (owned_by principal (Dict.values s.records))
