-- ===== src/Marketplace/Catalog.antt =====
-- `search_catalog` of src/backend/app/marketplace/service.py, and the exception of catalog.py beside it.
pub mod Matches
use Prim.Native.Char.{code}
use Prim.Native.String.{count}
use cpfbuddies.Prelude.{
  ℕ, String, ◌<>◌, ◌==◌, Bool, true, false, not, ◌&&◌, ◌||◌, ◌≡◌, ◌⊎◌, inl, inr, Option, none, some,
  List, [], ◌∷◌, ◌++◌, leb, ltb, All, All-append, arith, Bool-cases, if◌then◌else◌,
}
use cpfbuddies.Prelude.Text.{lower}
use cpfbuddies.Prelude.Integers.{is_space}
use cpfbuddies.Models.Money.{Money, minor_units}
use cpfbuddies.Marketplace.Contracts.{Listing}

-- `IGNORES_PRICE_CEILING`
abbrev pub ignores_price_ceiling : String → Bool
ignores_price_ceiling sku = sku == "TB-OVER-CAP"

-- `text.strip()` on ASCII
strip_end : String → String
strip_end String.[] = ""
strip_end (String.◌∷◌ c s) =
    let rest = strip_end s in if is_space (code c) && rest == "" then "" else String.◌∷◌ c rest

unfoldable pub strip : String → String
unfolding strip_end
strip String.[] = ""
strip (String.◌∷◌ c s) =
    let rest = strip s in if is_space (code c) then rest else strip_end (String.◌∷◌ c s)

abbrev is_word : ℕ → Bool
is_word c = (leb b'a' c && leb c b'z') || (leb b'0' c && leb c b'9')

-- `re.findall(r"[a-z0-9]+", text)`, where `word` is what was read of a word
words_from : String → String → List String
words_from word String.[] = if word == "" then [] else word ∷ []
words_from word (String.◌∷◌ c s) = elim (is_word (code c)) [
  | true ↦ words_from (word <> String.◌∷◌ c "") s
  | false ↦ let rest = words_from "" s in if word == "" then rest else word ∷ rest
]

unfoldable pub words : String → List String
unfolding words_from
words text = words_from "" text

-- The tokens of a query: the words of at least three characters
abbrev pub long_words : List String → List String
long_words [] = []
long_words (w ∷ ws) = let rest = long_words ws in if leb 3 (count w) then w ∷ rest else rest

abbrev pub one_of : String → List String → Bool
one_of w [] = false
one_of w (v ∷ vs) = w == v || one_of w vs

-- `query_tokens.intersection(words)`, tested for being empty
abbrev pub meets : List String → List String → Bool
meets [] ws = false
meets (t ∷ ts) ws = one_of t ws || meets ts ws

abbrev pub is_empty : List String → Bool
is_empty [] = true
is_empty (t ∷ ts) = false

-- `ceiling is not None and item.price.minor_units > ceiling`
abbrev pub over : Option ℕ → Listing → Bool
over none item = false
over (some ceiling) item = ltb ceiling (minor_units item.price)

abbrev pub honours_ceiling : Listing → Bool
honours_ceiling item = not (ignores_price_ceiling item.sku)

-- `casefold` is `lower` on ASCII.
abbrev pub searchable : Listing → String
searchable item = lower (item.sku <> " " <> item.title <> " " <> item.description)

abbrev pub is_skipped : String → Option ℕ → Listing → Bool
is_skipped raw_query ceiling item =
    let query_tokens = long_words (words raw_query) in
    (not (is_empty query_tokens) && not (meets query_tokens (words (searchable item))))
    || (honours_ceiling item && over ceiling item)

-- The loop, with what it has found so far
unfoldable pub search_from : String → Option ℕ → List Listing → List Listing → List Listing
search_from raw_query ceiling result [] = result
search_from raw_query ceiling result (item ∷ catalog) = elim (raw_query == lower item.sku) [
  | true ↦ if over ceiling item && honours_ceiling item then [] else item ∷ []
  | false ↦
      let found = if is_skipped raw_query ceiling item then result else result ++ (item ∷ []) in
      search_from raw_query ceiling found catalog
]

abbrev pub or_empty : Option String → String
or_empty none = ""
or_empty (some q) = q

abbrev pub units_of : Option Money → Option ℕ
units_of none = none
units_of (some max_price) = some (minor_units max_price)

-- `search_catalog`, where `max_price` has been read as XSGD
unfoldable pub search_catalog : List Listing → Option String → Option Money → String → List Listing
unfolding search_from
search_catalog catalog q max_price currency =
    if not (currency == "XSGD")
    then []
    else search_from (strip (lower (or_empty q))) (units_of max_price) [] catalog

-- The item is one that ignores the ceiling, or its price is not above it.
abbrev IsWithin : Option ℕ → Listing → Type 0
IsWithin ceiling item = (ignores_price_ceiling item.sku ≡ true) ⊎ (over ceiling item ≡ false)

-- An item that ignores the ceiling, is above it, and is left out otherwise
kept_within :
    (words ignores above : Bool)
    → (words || (not ignores && above)) ≡ false
    → (ignores ≡ true) ⊎ (above ≡ false)
kept_within words ignores above h = ground arith

exact_kept :
    (ignores above : Bool) → (above && not ignores) ≡ false → (ignores ≡ true) ⊎ (above ≡ false)
exact_kept ignores above h = ground arith

exact-IsWithin :
    (ceiling : Option ℕ) (item : Listing)
    → All (IsWithin ceiling) (if over ceiling item && honours_ceiling item then [] else item ∷ [])
exact-IsWithin ceiling item = elim (Bool-cases (over ceiling item && honours_ceiling item)) [
  | inl left_out ↦ rw left_out tt
  | inr kept ↦ rw kept (exact_kept (ignores_price_ceiling item.sku) (over ceiling item) kept, tt)
]

found-IsWithin :
    (raw_query : String) (ceiling : Option ℕ) (item : Listing) (result : List Listing)
    → All (IsWithin ceiling) result
    → All
        (IsWithin ceiling)
        (if is_skipped raw_query ceiling item then result else result ++ (item ∷ []))
found-IsWithin raw_query ceiling item result h =
    elim (Bool-cases (is_skipped raw_query ceiling item)) [
      | inl skipped ↦ rw skipped h
      | inr kept ↦ rw kept (
          All-append _ result (item ∷ []) h
            (kept_within _ (ignores_price_ceiling item.sku) (over ceiling item) kept, tt))
    ]

search_from-IsWithin :
    (raw_query : String) (ceiling : Option ℕ) (catalog result : List Listing)
    → All (IsWithin ceiling) result
    → All (IsWithin ceiling) (search_from raw_query ceiling result catalog)
unfolding search_from
search_from-IsWithin raw_query ceiling [] result h = h
search_from-IsWithin raw_query ceiling (item ∷ catalog) result h =
    elim (Bool-cases (raw_query == lower item.sku)) [
      | inl exact ↦ rw (search_from, exact) (exact-IsWithin ceiling item)
      | inr inexact ↦
          rw (search_from, inexact)
            (search_from-IsWithin raw_query ceiling catalog _
              (found-IsWithin raw_query ceiling item result h))
    ]

-- A search finds only items that are not above the ceiling, but for those that ignore it.
search_catalog-IsWithin :
    (catalog : List Listing) (q : Option String) (max_price : Option Money) (currency : String)
    → All (IsWithin (units_of max_price)) (search_catalog catalog q max_price currency)
unfolding search_catalog
search_catalog-IsWithin catalog q max_price currency = elim (Bool-cases (currency == "XSGD")) [
  | inl settles ↦ rw settles (search_from-IsWithin _ _ catalog [] tt)
  | inr other ↦ rw other tt
]
