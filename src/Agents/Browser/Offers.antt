-- ===== src/Agents/Browser/Offers.antt =====
-- Where the candidates of the browser agent of src/backend/app/agents/browser.py come from.
use cpfbuddies.Prelude.{
  ◌<◌, true, ◌==◌, eq_iff, ◌≡◌, refl, sym, subst, inl, inr, Option, none, some, List, [], ◌∷◌, All,
  Any, All-append, Bool-cases, String, leb, arith,
}
use cpfbuddies.Marketplace.Contracts.{
  Listing, Availability, in_stock, out_of_stock, ListingsResponse,
}
use cpfbuddies.Models.Mandate.{Timestamp}
use cpfbuddies.Agents.Browser.{
  Fetched, Candidate, is_in_stock, stocked, candidates_of, accepted, responses_of,
}

-- The merchant's answer is this response, not expired when it came, and its hash is that of its items.
pub record IsAnswer (calculate_basket_hash : List Listing → String) (fetched : Fetched)
    (response : ListingsResponse) : Type 0 where
  pub answered : fetched.1 ≡ some response
  pub live : fetched.0 < response.expires_at
  pub unaltered : response.basket_hash ≡ calculate_basket_hash response.items

-- The candidate is an item in stock of such an answer.
pub record IsOffer (calculate_basket_hash : List Listing → String) (fetched : List Fetched)
    (candidate : Candidate) : Type 0 where
  pub answer : Any (λ f. IsAnswer calculate_basket_hash f candidate.0) fetched
  pub listed : Any (λ item. item ≡ candidate.1) candidate.0.items
  pub stocked : candidate.1.availability ≡ in_stock

All-map :
    {A : Type 0} (P Q : A → Type 0) (xs : List A) → ((x : A) → P x → Q x) → All P xs → All Q xs
All-map P Q [] f h = tt
All-map P Q (x ∷ xs) f h = (f x h.0, All-map P Q xs f h.1)

is_in_stock_lem : (a : Availability) → is_in_stock a ≡ true → a ≡ in_stock
is_in_stock_lem in_stock h = refl
is_in_stock_lem out_of_stock h = ground arith

-- The candidate is an item in stock among these of this response.
abbrev IsStocked : ListingsResponse → List Listing → Candidate → Type 0
IsStocked response items c =
    (c.0 ≡ response) × Any (λ item. item ≡ c.1) items × (c.1.availability ≡ in_stock)

stocked-IsStocked :
    (response : ListingsResponse) (items : List Listing)
    → All (IsStocked response items) (stocked response items)
unfolding stocked
stocked-IsStocked response [] = tt
stocked-IsStocked response (item ∷ items) =
    let rest =
      All-map (IsStocked response items) (IsStocked response (item ∷ items)) _
        (λ c h. (h.0, inr h.1, h.2)) (stocked-IsStocked response items) in
    elim (Bool-cases (is_in_stock item.availability)) [
      | inl kept ↦ rw kept ((refl, inl refl, is_in_stock_lem item.availability kept), rest)
      | inr left_out ↦ rw left_out rest
    ]

module _ (calculate_basket_hash : List Listing → String) where
  accepted-IsAnswer :
      (now : Timestamp) (answer : Option ListingsResponse)
      → All
          (IsAnswer calculate_basket_hash (now, answer))
          (accepted calculate_basket_hash now answer)
  accepted-IsAnswer now none = tt
  accepted-IsAnswer now (some response) = elim (Bool-cases (leb response.expires_at now)) [
    | inl late ↦ rw late tt
    | inr live ↦ elim (Bool-cases (response.basket_hash == calculate_basket_hash response.items)) [
      | inl same ↦
          rw (live, same)
            (
              record {
                answered = refl;
                live = ground (arith, live);
                unaltered = (eq_iff response.basket_hash _).0 same;
              },
              tt,
            )
      | inr other ↦ rw (live, other) tt
    ]
  ]

  abbrev pub IsAnswered : List Fetched → ListingsResponse → Type 0
  IsAnswered fetched response = Any (λ f. IsAnswer calculate_basket_hash f response) fetched

  pub responses_of-IsAnswered :
      (fetched : List Fetched)
      → All (IsAnswered fetched) (responses_of calculate_basket_hash fetched)
  unfolding responses_of
  responses_of-IsAnswered [] = tt
  responses_of-IsAnswered ((now, answer) ∷ rest) =
      All-append (IsAnswered ((now, answer) ∷ rest)) (accepted calculate_basket_hash now answer) _
        (All-map _ (IsAnswered ((now, answer) ∷ rest)) _ (λ r h. inl h)
          (accepted-IsAnswer now answer))
        (All-map (IsAnswered rest) (IsAnswered ((now, answer) ∷ rest)) _ (λ r h. inr h)
          (responses_of-IsAnswered rest))

  offered :
      (fetched : List Fetched) (response : ListingsResponse) (c : Candidate)
      → IsAnswered fetched response
      → IsStocked response response.items c
      → IsOffer calculate_basket_hash fetched c
  offered fetched response c answer h = record {
    answer = subst (IsAnswered fetched) (sym h.0) answer;
    listed = subst (λ r. Any (λ item. item ≡ c.1) r.items) (sym h.0) h.1;
    stocked = h.2;
  }

  pub candidates_of-IsOffer :
      (fetched : List Fetched) (responses : List ListingsResponse)
      → All (IsAnswered fetched) responses
      → All (IsOffer calculate_basket_hash fetched) (candidates_of responses)
  unfolding candidates_of
  candidates_of-IsOffer fetched [] h = tt
  candidates_of-IsOffer fetched (r ∷ rs) h =
      All-append (IsOffer calculate_basket_hash fetched) (stocked r r.items) _
        (All-map (IsStocked r r.items) (IsOffer calculate_basket_hash fetched) _
          (λ c k. offered fetched r c h.0 k) (stocked-IsStocked r r.items))
        (candidates_of-IsOffer fetched rs h.1)
