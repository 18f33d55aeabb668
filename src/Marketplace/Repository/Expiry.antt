-- ===== src/Marketplace/Repository/Expiry.antt =====
-- What delete_expired of src/backend/app/marketplace/repository.py keeps.
use cpfbuddies.Prelude.{
  String, Bool, false, ◌||◌, ◌==◌, eq_iff, ◌≡◌, refl, sym, ◌∙◌, ap, subst, inl, inr, Option, none,
  some, List, [], ◌∷◌, Bool-cases, leb, if◌then◌else◌, arith,
}
use cpfbuddies.Prelude.Dict.{Dict, get, remove}
use cpfbuddies.Models.Mandate.{Timestamp}
use cpfbuddies.Marketplace.Contracts.{ListingsResponse}
use cpfbuddies.Marketplace.Repository.{Quotes, get_quote, delete_expired, expired_ids, pop_all}

-- As a dict has it: no key twice
abbrev pub HasUniqueKeys : Dict ListingsResponse → Type 0
HasUniqueKeys [] = Unit
HasUniqueKeys ((k, v) ∷ d) = (get k d ≡ none) × HasUniqueKeys d

-- The quote, unless it expired by that time
abbrev pub unexpired : Timestamp → Option ListingsResponse → Option ListingsResponse
unexpired before none = none
unexpired before (some quote) = if leb quote.expires_at before then none else some quote

abbrev is_among : String → List String → Bool
is_among j [] = false
is_among j (k ∷ ks) = (k == j) || is_among j ks

get-remove :
    (k j : String) (d : Dict ListingsResponse)
    → get j (remove k d) ≡ (if k == j then none else get j d)
unfolding get remove
get-remove k j [] = ground arith
get-remove k j ((i, w) ∷ d) = ground (arith, eq_iff k j, eq_iff i k, eq_iff i j, get-remove k j d)

remove-HasUniqueKeys :
    (k : String) (d : Dict ListingsResponse) → HasUniqueKeys d → HasUniqueKeys (remove k d)
unfolding remove
remove-HasUniqueKeys k [] h = tt
remove-HasUniqueKeys k ((j, v) ∷ d) h = elim (Bool-cases (j == k)) [
  | inl same ↦ rw same (remove-HasUniqueKeys k d h.1)
  | inr other ↦ rw other (ground (arith, get-remove k j d, h.0), remove-HasUniqueKeys k d h.1)
]

get_quote-pop_all :
    (ids : List String) (j : String) (s : Quotes)
    → get_quote j (pop_all ids s) ≡ (if is_among j ids then none else get_quote j s)
unfolding pop_all get_quote
get_quote-pop_all [] j s = refl
get_quote-pop_all (k ∷ ids) j s = ground (
  arith,
  get-remove k j s.quotes,
  get_quote-pop_all ids j (record { quotes = remove k s.quotes; receipts = remove k s.receipts }),
)

pop_all-HasUniqueKeys :
    (ids : List String) (s : Quotes) → HasUniqueKeys s.quotes → HasUniqueKeys (pop_all ids s).quotes
unfolding pop_all
pop_all-HasUniqueKeys [] s h = h
pop_all-HasUniqueKeys (k ∷ ids) s h =
    pop_all-HasUniqueKeys ids
      (record { quotes = remove k s.quotes; receipts = remove k s.receipts })
      (remove-HasUniqueKeys k s.quotes h)

-- Whether there is a quote, and it expired by that time
abbrev has_expired : Timestamp → Option ListingsResponse → Bool
has_expired before none = false
has_expired before (some quote) = leb quote.expires_at before

is_among-expired_ids :
    (before : Timestamp) (j : String) (d : Dict ListingsResponse)
    → HasUniqueKeys d
    → is_among j (expired_ids before d) ≡ has_expired before (get j d)
unfolding expired_ids get
is_among-expired_ids before j [] h = refl
is_among-expired_ids before j ((k, quote) ∷ d) h =
    let rest = is_among-expired_ids before j d h.1 in
    elim (Bool-cases (leb quote.expires_at before)) [
      | inl expired ↦ elim (Bool-cases (k == j)) [
        | inl same ↦ rw (expired, same) (sym expired)
        | inr other ↦ rw (expired, other) rest
      ]
      | inr live ↦ elim (Bool-cases (k == j)) [
        | inl same ↦
            let absent : get j d ≡ none = subst (λ x. get x d ≡ none) ((eq_iff k j).0 same) h.0 in
            rw (live, same) (rest ∙ ap (has_expired before) absent ∙ sym live)
        | inr other ↦ rw (live, other) rest
      ]
    ]

unless_expired :
    (before : Timestamp) (quote : Option ListingsResponse)
    → (if has_expired before quote then none else quote) ≡ unexpired before quote
unless_expired before none = refl
unless_expired before (some quote) = refl

-- After delete_expired, a quote is found exactly where it was before and had not expired by the time, and it is the
-- same quote; no key of the dict of quotes is there twice, as before.
pub get_quote-delete_expired :
    (before : Timestamp) (quote_id : String) (s : Quotes)
    → HasUniqueKeys s.quotes
    → (get_quote quote_id (delete_expired before s).1 ≡ unexpired before (get_quote quote_id s))
      × HasUniqueKeys (delete_expired before s).1.quotes
unfolding delete_expired get_quote
get_quote-delete_expired before quote_id s h = (
  get_quote-pop_all (expired_ids before s.quotes) quote_id s
      ∙ rw (is_among-expired_ids before quote_id s.quotes h)
          (unless_expired before (get quote_id s.quotes)),
  pop_all-HasUniqueKeys (expired_ids before s.quotes) s h,
)
