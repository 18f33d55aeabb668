-- ===== src/Marketplace/Catalog/Matches.antt =====
-- What a search finds: one item by its SKU, or all that the query admits.
use mathlib.Core.List.{append-nil, append_assoc}
use Prim.Native.String.{count}
use cpfbuddies.Prelude.{
  leb, ltb, ◌<>◌, String, ◌==◌, Bool, true, false, not, ◌&&◌, ◌||◌, ◌≡◌, refl, sym, ap, ◌∙◌, Option,
  none, some, List, [], ◌∷◌, ◌++◌, Bool-cases, inl, inr, if◌then◌else◌, arith,
}
use cpfbuddies.Prelude.Text.{lower}
use cpfbuddies.Models.Money.{Money, minor_units}
use cpfbuddies.Marketplace.Contracts.{Listing}
use cpfbuddies.Marketplace.Catalog.{
  honours_ceiling, one_of, words, long_words, meets, is_empty, over, is_skipped, or_empty, strip,
  searchable, search_from, search_catalog, units_of,
}

-- The word is one of the text's.
abbrev pub among : String → List String → Bool
among w [] = false
among w (v ∷ vs) = w == v || among w vs

-- The price of the item is not above the ceiling, if there is one; one item is shown whatever its price.
abbrev pub is_affordable : Option Money → Listing → Bool
is_affordable none item = true
is_affordable (some max_price) item =
    item.sku == "TB-OVER-CAP" || leb (minor_units item.price) (minor_units max_price)

-- One of the words of at least three characters is among those of the text.
abbrev pub shares_word : List String → List String → Bool
shares_word [] text = false
shares_word (w ∷ ws) text = (leb 3 (count w) && among w text) || shares_word ws text

-- The query has no word of at least three characters.
abbrev pub says_nothing : List String → Bool
says_nothing [] = true
says_nothing (w ∷ ws) = ltb (count w) 3 && says_nothing ws

-- The item shares such a word with the query, or the query has none.
abbrev pub is_meant : String → Listing → Bool
is_meant query item =
    says_nothing (words query)
    || shares_word (words query)
        (words (lower (item.sku <> " " <> item.title <> " " <> item.description)))

abbrev pub admitted : String → Option Money → List Listing → List Listing
admitted query ceiling [] = []
admitted query ceiling (item ∷ catalog) =
    let rest = admitted query ceiling catalog in
    if is_meant query item && is_affordable ceiling item then item ∷ rest else rest

-- The first item with this SKU, in whatever case
abbrev pub item_of_sku : String → List Listing → Option Listing
item_of_sku query [] = none
item_of_sku query (item ∷ catalog) =
    let rest = item_of_sku query catalog in if query == lower item.sku then some item else rest

abbrev pub exact_or : Option Money → List Listing → Option Listing → List Listing
exact_or ceiling others none = others
exact_or ceiling others (some item) = if is_affordable ceiling item then item ∷ [] else []

among-one_of : (w : String) (vs : List String) → one_of w vs ≡ among w vs
among-one_of w [] = refl
among-one_of w (v ∷ vs) = ground (arith, among-one_of w vs)

shares_word-meets : (ws text : List String) → meets (long_words ws) text ≡ shares_word ws text
shares_word-meets [] text = refl
shares_word-meets (w ∷ ws) text = ground (arith, shares_word-meets ws text, among-one_of w text)

says_nothing-is_empty : (ws : List String) → is_empty (long_words ws) ≡ says_nothing ws
says_nothing-is_empty [] = refl
says_nothing-is_empty (w ∷ ws) = ground (arith, says_nothing-is_empty ws)

affordable_lem :
    (max_price : Option Money) (item : Listing)
    → (honours_ceiling item && over (units_of max_price) item) ≡ not (is_affordable max_price item)
affordable_lem none item = ground arith
affordable_lem (some max_price) item = ground arith

skipped-admitted :
    (empty shared kept_out affordable : Bool)
    → kept_out ≡ not affordable
    → ((not empty && not shared) || kept_out) ≡ not ((empty || shared) && affordable)
skipped-admitted empty shared kept_out affordable h = ground arith

is_skipped_lem :
    (query : String) (max_price : Option Money) (item : Listing)
    → is_skipped query (units_of max_price) item
      ≡ not (is_meant query item && is_affordable max_price item)
is_skipped_lem query max_price item =
    let text = words (searchable item) in
    rw (says_nothing-is_empty (words query), shares_word-meets (words query) text)
      (skipped-admitted (says_nothing (words query)) (shares_word (words query) text) _
        (is_affordable max_price item) (affordable_lem max_price item))

exact-affordable :
    (max_price : Option Money) (item : Listing) (items : List Listing)
    → (if over (units_of max_price) item && honours_ceiling item then [] else items)
      ≡ (if is_affordable max_price item then items else [])
exact-affordable max_price item items = ground (arith, affordable_lem max_price item)

found-admitted :
    (keep : Bool) (item : Listing) (result rest : List Listing)
    → (if not keep then result else result ++ (item ∷ [])) ++ rest
      ≡ result ++ (if keep then item ∷ rest else rest)
found-admitted true item result rest = append_assoc result (item ∷ []) rest
found-admitted false item result rest = refl

search_from-admitted :
    (query : String) (max_price : Option Money) (catalog result : List Listing)
    → search_from query (units_of max_price) result catalog
      ≡ exact_or max_price (result ++ admitted query max_price catalog) (item_of_sku query catalog)
unfolding search_from
search_from-admitted query max_price [] result = sym (append-nil result)
search_from-admitted query max_price (item ∷ catalog) result =
    elim (Bool-cases (query == lower item.sku)) [
      | inl exact ↦ rw (search_from, exact) (exact-affordable max_price item (item ∷ []))
      | inr inexact ↦
          let rest = admitted query max_price catalog in
          let found =
            if is_skipped query (units_of max_price) item then result else result ++ (item ∷ []) in
          let kept =
            ap (λ skip. (if skip then result else result ++ (item ∷ [])) ++ rest)
              (is_skipped_lem query max_price item)
            ∙ found-admitted (is_meant query item && is_affordable max_price item) item result
                rest in
          rw (search_from, inexact)
            (search_from-admitted query max_price catalog found
              ∙ ap (λ items. exact_or max_price items (item_of_sku query catalog)) kept)
    ]

-- A search in XSGD for the SKU of an item, in whatever case, finds the first such item, or nothing if its price keeps it
-- from being shown. Any other finds all items, in the order of the catalog, that share a word of three or more
-- characters with the query, if it has such a word, and whose price does not keep them from being shown: it is above the
-- maximum, and the item is not the one that is shown at any price. A search in another currency finds nothing.
pub search_catalog-admitted :
    (catalog : List Listing) (q : Option String) (max_price : Option Money) (currency : String)
    → search_catalog catalog q max_price currency ≡ (
        if currency == "XSGD"
        then exact_or max_price
            (admitted (strip (lower (or_empty q))) max_price catalog)
            (item_of_sku (strip (lower (or_empty q))) catalog)
        else [])
unfolding search_catalog
search_catalog-admitted catalog q max_price currency = elim (Bool-cases (currency == "XSGD")) [
  | inl settles ↦ rw settles (search_from-admitted _ max_price catalog [])
  | inr other ↦ rw other refl
]
