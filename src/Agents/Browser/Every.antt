-- ===== src/Agents/Browser/Every.antt =====
-- No offer of a merchant is missed by the browser agent of src/backend/app/agents/browser.py.
use cpfbuddies.Prelude.{
  String, ◌≤◌, ◌≢◌, ◌⊎◌, ◌==◌, ◌++◌, eq_iff, inl, inr, none, some, List, [], ◌∷◌, All, Bool-cases,
  leb, arith,
}
use cpfbuddies.Marketplace.Contracts.{Listing, in_stock, ListingsResponse}
use cpfbuddies.Agents.Browser.{
  Fetched, Candidate, is_in_stock, stocked, candidates_of, responses_of,
}

-- The property holds of each offer: of each item in stock in each answer that is a response, not expired when it came,
-- whose hash is that of its items.
abbrev pub EveryOffer : (List Listing → String) → (Candidate → Type 0) → List Fetched → Type 0
EveryOffer hash Q [] = Unit
EveryOffer hash Q ((now, none) ∷ fetched) = EveryOffer hash Q fetched
EveryOffer hash Q ((now, some response) ∷ fetched) =
    ((response.expires_at ≤ now)
      ⊎ ((response.basket_hash ≢ hash response.items)
          ⊎ All (λ item. (item.availability ≢ in_stock) ⊎ Q (response, item)) response.items))
    × EveryOffer hash Q fetched

module _ (Q : Candidate → Type 0) where
  All-split : (xs ys : List Candidate) → All Q (xs ++ ys) → All Q xs × All Q ys
  All-split [] ys h = (tt, h)
  All-split (x ∷ xs) ys h = let (a, b) = All-split xs ys h.1 in ((h.0, a), b)

  stocked-All :
      (response : ListingsResponse) (items : List Listing)
      → All Q (stocked response items)
      → All (λ item. (item.availability ≢ in_stock) ⊎ Q (response, item)) items
  unfolding stocked
  stocked-All response [] h = tt
  stocked-All response (item ∷ items) h = elim (Bool-cases (is_in_stock item.availability)) [
    | inl kept ↦ let k = rw kept at h in (inr k.0, stocked-All response items k.1)
    | inr left_out ↦
        let k = rw left_out at h in (inl (λ e. ground arith), stocked-All response items k)
  ]

  pub candidates_of-EveryOffer :
      (hash : List Listing → String) (fetched : List Fetched)
      → All Q (candidates_of (responses_of hash fetched))
      → EveryOffer hash Q fetched
  unfolding candidates_of responses_of
  candidates_of-EveryOffer hash [] h = tt
  candidates_of-EveryOffer hash ((now, none) ∷ fetched) h = candidates_of-EveryOffer hash fetched h
  candidates_of-EveryOffer hash ((now, some response) ∷ fetched) h =
      elim (Bool-cases (leb response.expires_at now)) [
        | inl late ↦
            let k = rw late at h in (inl (ground arith), candidates_of-EveryOffer hash fetched k)
        | inr live ↦ elim (Bool-cases (response.basket_hash == hash response.items)) [
          | inr other ↦
              let k = rw (live, other) at h in
              (
                inr (
                    inl (λ e.
                      ground (arith, (eq_iff response.basket_hash (hash response.items)).1 e))),
                candidates_of-EveryOffer hash fetched k,
              )
          | inl same ↦
              let k = rw (live, same) at h in
              let (offers, others) = All-split (stocked response response.items) _ k in
              (
                inr (inr (stocked-All response response.items offers)),
                candidates_of-EveryOffer hash fetched others,
              )
        ]
      ]
