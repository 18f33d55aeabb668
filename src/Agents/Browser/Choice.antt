-- ===== src/Agents/Browser/Choice.antt =====
-- What the browser agent's choice is, for find_candidate of src/backend/app/agents/browser.py.
use Prim.Native.String.{count}
use cpfbuddies.Prelude.{
  ◌≤◌, ◌<◌, Bool, true, false, ◌||◌, ◌==◌, eq_iff, ◌≡◌, ◌≢◌, refl, sym, subst, ◌⊎◌, inl, inr,
  Option, none, some, List, [], ◌∷◌, All, Bool-cases, String, eqb, ltb, if◌then◌else◌, arith,
}
use cpfbuddies.Errors.{Error, Result, ok, err}
use cpfbuddies.Models.Money.{Money, minor_units}
use cpfbuddies.Marketplace.Contracts.{Listing, ListingsResponse}
use cpfbuddies.Marketplace.Catalog.{strip}
use cpfbuddies.Agents.Browser.{
  CandidateSelection, Fetched, Candidate, candidates_of, before, least, with_sku, select,
  responses_of, fetch_all, found, unless_empty, selection_of, chosen_from, find_candidate,
}
use cpfbuddies.Agents.Browser.Every.{EveryOffer, candidates_of-EveryOffer}
use cpfbuddies.Agents.Browser.Offers.{IsOffer, responses_of-IsAnswered, candidates_of-IsOffer}

-- With a SKU pinned, the candidate has it; otherwise none of the candidates is cheaper.
abbrev Suits : Option String → Candidate → List Candidate → Type 0
Suits (some sku) candidate candidates = candidate.1.sku ≡ sku
Suits none candidate candidates =
    All (λ c. minor_units candidate.1.price ≤ minor_units c.1.price) candidates

least-All :
    (Q : Candidate → Type 0) (best : Candidate) (cs : List Candidate)
    → Q best
    → All Q cs
    → Q (least best cs)
unfolding least
least-All Q best [] h k = h
least-All Q best (c ∷ cs) h k = elim (Bool-cases (before c best)) [
  | inl less ↦ rw less (least-All Q c cs k.0 k.1)
  | inr not_less ↦ rw not_less (least-All Q best cs h k.1)
]

-- The key begins with the price.
before_price :
    (c d : Candidate)
    → ((before c d ≡ true) × (minor_units c.1.price ≤ minor_units d.1.price))
      ⊎ ((before c d ≡ false) × (minor_units d.1.price ≤ minor_units c.1.price))
unfolding before
before_price (r, item) (r', item') = ground arith

-- The candidate that `min` goes on with is no dearer than either.
kept_price :
    (c d : Candidate)
    → (minor_units (if before c d then c else d).1.price ≤ minor_units c.1.price)
      × (minor_units (if before c d then c else d).1.price ≤ minor_units d.1.price)
kept_price c d = elim (before_price c d) [
  | inl h ↦ rw h.0 (ground arith, h.1)
  | inr h ↦ rw h.0 (h.1, ground arith)
]

no_cheaper :
    (chosen kept best c : Candidate) (cs : List Candidate)
    → Suits none chosen (kept ∷ cs)
    → minor_units kept.1.price ≤ minor_units c.1.price
    → minor_units kept.1.price ≤ minor_units best.1.price
    → Suits none chosen (best ∷ c ∷ cs)
no_cheaper chosen kept best c cs h below_c below_best =
    (ground (arith, h.0, below_best), (ground (arith, h.0, below_c), h.1))

-- No candidate is cheaper than the least, nor is the one that `min` began with.
least_price : (best : Candidate) (cs : List Candidate) → Suits none (least best cs) (best ∷ cs)
unfolding least
least_price best [] = (ground arith, tt)
least_price best (c ∷ cs) =
    let kept = if before c best then c else best in
    no_cheaper (least kept cs) kept best c cs (least_price kept cs) (kept_price c best).0
      (kept_price c best).1

picked :
    (b : Bool) (d c : Candidate) (rest : Option Candidate)
    → (if b then some d else rest) ≡ some c
    → ((b ≡ true) × (d ≡ c)) ⊎ (rest ≡ some c)
picked true d c rest h = inl (refl, ground arith)
picked false d c rest h = inr h

passed_over :
    (b : Bool) (d : Candidate) (rest : Option Candidate)
    → (if b then some d else rest) ≡ none
    → (b ≡ false) × (rest ≡ none)
passed_over true d rest h = ground arith
passed_over false d rest h = (refl, h)

with_sku-Suits :
    (Q : Candidate → Type 0) (sku : String) (cs : List Candidate) (c : Candidate)
    → All Q cs
    → with_sku sku cs ≡ some c
    → Q c × (c.1.sku ≡ sku)
unfolding with_sku
with_sku-Suits Q sku [] c h e = ground arith
with_sku-Suits Q sku (d ∷ cs) c h e = elim (picked (d.1.sku == sku) d c (with_sku sku cs) e) [
  | inl here ↦
      (subst Q here.1 h.0, subst (λ x. x.1.sku ≡ sku) here.1 ((eq_iff d.1.sku sku).0 here.0))
  | inr later ↦ with_sku-Suits Q sku cs c h.1 later
]

some_of_found : (o : Option Candidate) (c : Candidate) → found o ≡ ok c → o ≡ some c
some_of_found none c h = ground arith
some_of_found (some d) c h = ground arith

none_of_found : (o : Option Candidate) (e : Error) → found o ≡ err e → o ≡ none
none_of_found none e h = refl
none_of_found (some d) e h = ground arith

select-Suits :
    (Q : Candidate → Type 0) (cs : List Candidate) (preferred_sku : Option String) (c : Candidate)
    → All Q cs
    → select cs preferred_sku ≡ ok c
    → Q c × Suits preferred_sku c cs
unfolding select
select-Suits Q cs (some sku) c h e =
    with_sku-Suits Q sku cs c h (some_of_found (with_sku sku cs) c e)
select-Suits Q [] none c h e = ground arith
select-Suits Q (d ∷ cs) none c h e =
    let chosen : least d cs ≡ c = ground arith in
    (
      subst Q chosen (least-All Q d cs h.0 h.1),
      subst (λ x. Suits none x (d ∷ cs)) chosen (least_price d cs),
    )

-- Not the SKU that is asked for; every candidate would do if none is.
abbrev pub Unwanted : Option String → Candidate → Type 0
Unwanted (some sku) candidate = candidate.1.sku ≢ sku
Unwanted none candidate = ⊥

with_sku-Unwanted :
    (sku : String) (cs : List Candidate) → with_sku sku cs ≡ none → All (Unwanted (some sku)) cs
unfolding with_sku
with_sku-Unwanted sku [] e = tt
with_sku-Unwanted sku (c ∷ cs) e =
    let passed = passed_over (c.1.sku == sku) c (with_sku sku cs) e in
    (
      λ same. ground (arith, passed.0, (eq_iff c.1.sku sku).1 same),
      with_sku-Unwanted sku cs passed.1,
    )

select-Unwanted :
    (cs : List Candidate) (preferred_sku : Option String) (e : Error)
    → select cs preferred_sku ≡ err e
    → All (Unwanted preferred_sku) cs
unfolding select
select-Unwanted cs (some sku) e h = with_sku-Unwanted sku cs (none_of_found (with_sku sku cs) e h)
select-Unwanted [] none e h = tt
select-Unwanted (c ∷ cs) none e h = ground arith

-- The request that `find_candidate` rejects with a ValueError
abbrev IsMisstated : String → Money → Type 0
IsMisstated intent max_price =
    (strip intent ≡ "") ⊎ ((200 < count (strip intent)) ⊎ (minor_units max_price ≡ 0))

-- With a SKU pinned, the offer has it; otherwise no offer of a merchant is cheaper.
abbrev pub IsBest : (List Listing → String) → Option String → List Fetched → Candidate → Type 0
IsBest hash (some sku) fetched candidate = candidate.1.sku ≡ sku
IsBest hash none fetched candidate =
    EveryOffer hash (λ c. minor_units candidate.1.price ≤ minor_units c.1.price) fetched

Suits-IsBest :
    (hash : List Listing → String) (preferred_sku : Option String) (fetched : List Fetched)
    (c : Candidate)
    → Suits preferred_sku c (candidates_of (responses_of hash fetched))
    → IsBest hash preferred_sku fetched c
Suits-IsBest hash (some sku) fetched c h = h
Suits-IsBest hash none fetched c h =
    candidates_of-EveryOffer (λ d. minor_units c.1.price ≤ minor_units d.1.price) hash fetched h

-- What the agent finds is an offer that some merchant made, and suits the purchase. It finds nothing only for a request
-- that is rejected, or where no offer suits.
abbrev pub IsChoice :
    (List Listing → String)
    → String
    → Money
    → Option String
    → List Fetched
    → Result CandidateSelection
    → Type 0
IsChoice hash intent max_price preferred_sku fetched (err e) =
    IsMisstated intent max_price ⊎ EveryOffer hash (Unwanted preferred_sku) fetched
IsChoice hash intent max_price preferred_sku fetched (ok selection) =
    (c : Candidate) × (ok selection ≡ selection_of hash (ok c))
    × IsOffer hash fetched c
    × IsBest hash preferred_sku fetched c

unless_empty_ok :
    (rs responses : List ListingsResponse) → unless_empty rs ≡ ok responses → rs ≡ responses
unless_empty_ok [] responses h = ground arith
unless_empty_ok (r ∷ rs) responses h = ground arith

unless_empty_err :
    (rs : List ListingsResponse) (preferred_sku : Option String) (e : Error)
    → unless_empty rs ≡ err e
    → All (Unwanted preferred_sku) (candidates_of rs)
unfolding candidates_of
unless_empty_err [] preferred_sku e h = tt
unless_empty_err (r ∷ rs) preferred_sku e h = ground arith

misstated :
    (intent : String)
    → (intent == "" || ltb 200 (count intent)) ≡ true
    → (intent ≡ "") ⊎ (200 < count intent)
misstated intent h = elim (Bool-cases (intent == "")) [
  | inl empty ↦ inl ((eq_iff intent "").0 empty)
  | inr stated ↦ inr (ground (arith, h, stated))
]

module _ (calculate_basket_hash : List Listing → String) (intent : String) (max_price : Money)
    (preferred_sku : Option String) (fetched : List Fetched) where
  abbrev IsRight : Result CandidateSelection → Type 0
  IsRight = IsChoice calculate_basket_hash intent max_price preferred_sku fetched

  missed :
      All (Unwanted preferred_sku) (candidates_of (responses_of calculate_basket_hash fetched))
      → EveryOffer calculate_basket_hash (Unwanted preferred_sku) fetched
  missed = candidates_of-EveryOffer (Unwanted preferred_sku) calculate_basket_hash fetched

  selection_of-IsRight :
      (r : Result Candidate)
      → select (candidates_of (responses_of calculate_basket_hash fetched)) preferred_sku ≡ r
      → IsRight (selection_of calculate_basket_hash r)
  selection_of-IsRight (err e) h = inr (missed (select-Unwanted _ preferred_sku e h))
  selection_of-IsRight (ok c) h =
      let suits =
        select-Suits (IsOffer calculate_basket_hash fetched) _ preferred_sku c
          (candidates_of-IsOffer calculate_basket_hash fetched _
            (responses_of-IsAnswered calculate_basket_hash fetched))
          h in
      (c, refl, suits.0, Suits-IsBest calculate_basket_hash preferred_sku fetched c suits.1)

  chosen_from-IsRight :
      (r : Result (List ListingsResponse))
      → unless_empty (responses_of calculate_basket_hash fetched) ≡ r
      → IsRight (chosen_from calculate_basket_hash preferred_sku r)
  chosen_from-IsRight (err e) h = inr (missed (unless_empty_err _ preferred_sku e h))
  chosen_from-IsRight (ok responses) h =
      rw (sym (unless_empty_ok _ responses h)) (selection_of-IsRight _ refl)

pub find_candidate-IsChoice :
    (calculate_basket_hash : List Listing → String) (intent : String) (max_price : Money)
    (preferred_sku : Option String) (fetched : List Fetched)
    → IsChoice calculate_basket_hash intent max_price preferred_sku fetched
        (find_candidate calculate_basket_hash intent max_price preferred_sku fetched)
unfolding find_candidate fetch_all
find_candidate-IsChoice calculate_basket_hash intent max_price preferred_sku fetched =
    elim (Bool-cases (strip intent == "" || ltb 200 (count (strip intent)))) [
      | inl unstated ↦ rw unstated (
          inl (elim (misstated (strip intent) unstated) [
            | inl empty ↦ inl empty
            | inr long ↦ inr (inl long)
          ]))
      | inr stated ↦ elim (Bool-cases (eqb (minor_units max_price) 0)) [
        | inl nothing ↦ rw (stated, nothing) (inl (inr (inr (ground (arith, nothing)))))
        | inr positive ↦
            rw (stated, positive)
              (chosen_from-IsRight calculate_basket_hash intent max_price preferred_sku fetched _
                refl)
      ]
    ]
