-- ===== src/Settlement/Rails/Card/Signed.antt =====
-- What the card rail signs and sends.
use mathlib.Core.List.{append-nil, append_assoc}
use cpfbuddies.Prelude.{
  if_post, ℕ, ◌+◌, ◌*◌, ◌/◌, ◌≤◌, ◌≡◌, refl, sym, subst, ◌⊎◌, inl, inr, String, false, List, [],
  ◌∷◌, ◌++◌, length, length-append, arith, Option, none, some, ap, ◌∙◌, eqb, not, leb, All,
  All-append,
}
use cpfbuddies.Prelude.Integers.{ℤ, exceeds}
use cpfbuddies.Prelude.Text.{lower}
use cpfbuddies.Errors.{Result, ok, err, pure, raise}
use cpfbuddies.Errors.Success.{bind_post}
use cpfbuddies.Models.Mandate.{Timestamp}
use cpfbuddies.Models.Money.{xsgd, minor_units, same_currency}
use cpfbuddies.Settlement.Models.{SettlementInstruction, SettlementReceipt}
use cpfbuddies.Signing.Eip3009.{TransferAuthorization, create_authorization, default_validity}
use cpfbuddies.X402.PublicSpec.{PaymentRequirements, assert_affordable, asked_units}
use cpfbuddies.Settlement.Rails.Card.{
  CardPorts, CardState, Post, Response, checked, card_value, send, sign, authorise, authorised, now,
  issue, buy, settle_card, settle, caught, minor_units_per_sgd, min_card_sgd, max_card_sgd,
}

-- The value that is signed is not above the charge.
pub record Affordable (i : SettlementInstruction) (r : PaymentRequirements) : Type 0 where
  pub currency : i.amount.currency ≡ xsgd
  pub within : (value : ℤ) → asked_units r ≡ ok value → exceeds value (minor_units i.amount) ≡ false

assert_affordable-Affordable :
    (i : SettlementInstruction) (r : PaymentRequirements)
    → assert_affordable r i.amount ≡ ok tt
    → Affordable i r
unfolding assert_affordable
assert_affordable-Affordable i r h = record {
  currency = ground arith;
  within = λ value e. ground arith;
}

-- The card that is asked for has the charge's exact value, within the limits of the card API.
abbrev pub IsFaceValue : SettlementInstruction → ℕ → Type 0
IsFaceValue i card_sgd =
    (card_sgd * minor_units_per_sgd ≡ minor_units i.amount)
    × (min_card_sgd ≤ card_sgd)
    × (card_sgd ≤ max_card_sgd)

card_value-IsFaceValue :
    (i : SettlementInstruction) (card_sgd : ℕ) → card_value i ≡ ok card_sgd → IsFaceValue i card_sgd
unfolding card_value
card_value-IsFaceValue i card_sgd h = ground arith

-- At most n more requests, each for a card of the charge's value
abbrev pub Sends : ℕ → SettlementInstruction → CardState → CardState → Type 0
Sends n i s s' =
    (more : List Post) × (s'.posts ≡ s.posts ++ more)
    × All (λ request. IsFaceValue i request.amount_sgd) more
    × (length more ≤ n)

Sends-none : (i : SettlementInstruction) (s s' : CardState) → s'.posts ≡ s.posts → Sends 2 i s s'
Sends-none i s s' e = ([], e ∙ sym (append-nil s.posts), tt, omega arith)

Sends-kept :
    (n : ℕ) (i : SettlementInstruction) (s t u : CardState)
    → u.posts ≡ t.posts
    → Sends n i s t
    → Sends n i s u
Sends-kept n i s t u same (more, e, h, k) = (more, same ∙ e, h, k)

Sends-then :
    (m n : ℕ) (i : SettlementInstruction) (s t u : CardState)
    → Sends m i s t
    → Sends n i t u
    → Sends (m + n) i s u
Sends-then m n i s t u (more, e, h, k) (more', e', h', k') = (
  more ++ more',
  e' ∙ ap (λ l. l ++ more') e ∙ append_assoc s.posts more more',
  All-append _ more more' h h',
  omega (arith, k, k', length-append more more'),
)

module _ (ports : CardPorts) where
  -- The signer is given nothing, or one authorisation: from the wallet, for no more than the charge, and
  -- valid for five minutes.
  abbrev pub Signs : SettlementInstruction → Timestamp → CardState → CardState → Type 0
  Signs i now s s' =
      (s'.signed ≡ s.signed)
      ⊎ ((a : TransferAuthorization) × (s'.signed ≡ s.signed ++ (a ∷ []))
          × (i.amount.currency ≡ xsgd)
          × (exceeds a.value (minor_units i.amount) ≡ false)
          × (a.from_address ≡ lower ports.address)
          × (a.valid_before ≡ (now + default_validity) / 1_000_000))

  Signs-kept :
      (i : SettlementInstruction) (at : Timestamp) (s t u : CardState)
      → u.signed ≡ t.signed
      → Signs i at s t
      → Signs i at s u
  Signs-kept i at s t u same (inl e) = inl (same ∙ e)
  Signs-kept i at s t u same (inr (a, e, b, c, d, f)) = inr (a, same ∙ e, b, c, d, f)

  authorise-Signs :
      (i : SettlementInstruction) (r : PaymentRequirements) (t : Timestamp) (s : CardState)
      → Affordable i r
      → ((authorise ports r t s).1.posts ≡ s.posts) × Signs i t s (authorise ports r t s).1
  unfolding authorise checked sign create_authorization pure
  authorise-Signs i r t s h =
      let Q : Result String × CardState → Type 0 = λ p. (p.1.posts ≡ s.posts) × Signs i t s p.1 in
      bind_post Q _ _ s (λ e k. (refl, inl refl))
        (λ value e.
          let a =
            create_authorization ports.address r.pay_to value t (ports.random (length s.signed)) in
          let given : Signs i t s (record s { signed = s.signed ++ (a ∷ []) }) =
            inr (a, refl, h.currency, h.within value e, refl, refl) in
          bind_post Q _ _ s (λ e k. (refl, given)) (λ signature k. (refl, given)))

  authorised-Signs :
      (i : SettlementInstruction) (challenge : Response) (s : CardState)
      → ((authorised ports i challenge s).1.posts ≡ s.posts)
        × Signs i (ports.time s.reads) s (authorised ports i challenge s).1
  unfolding authorised checked now
  authorised-Signs i challenge s =
      let Q : Result String × CardState → Type 0 =
        λ p. (p.1.posts ≡ s.posts) × Signs i (ports.time s.reads) s p.1 in
      bind_post Q _ _ s (λ e h. (refl, inl refl))
        (λ r h.
          bind_post Q _ _ s (λ e h. (refl, inl refl))
            (λ supported h.
              bind_post Q _ _ s (λ e h. (refl, inl refl))
                (λ affordable h.
                  bind_post Q (now ports) _ s (λ e h. (refl, inl refl))
                    (λ t k.
                      let same : ports.time s.reads ≡ t = ground arith in
                      let after : CardState = (now ports s).1 in
                      subst
                        (λ v.
                          ((authorise ports r t after).1.posts ≡ s.posts)
                          × Signs i v s (authorise ports r t after).1)
                        (sym same)
                        (authorise-Signs i r t after (assert_affordable-Affordable i r h))))))

  send-Sends :
      (i : SettlementInstruction) (card_sgd : ℕ) (header : Option String) (s : CardState)
      → IsFaceValue i card_sgd
      → Sends 1 i s
          (send ports
            (record {
              amount_sgd = card_sgd;
              cardholder_name = ports.cardholder_name;
              header = header;
            })
            s).1
  unfolding send
  send-Sends i card_sgd header s h = (_ ∷ [], refl, (h, tt), omega arith)

  issue-Sends :
      (i : SettlementInstruction) (card_sgd : ℕ) (header : String) (s : CardState)
      → IsFaceValue i card_sgd
      → Sends 1 i s (issue ports i card_sgd header s).1
        × ((issue ports i card_sgd header s).1.signed ≡ s.signed)
  unfolding issue checked raise send
  issue-Sends i card_sgd header s h =
      let Q : Result SettlementReceipt × CardState → Type 0 =
        λ p. Sends 1 i s p.1 × (p.1.signed ≡ s.signed) in
      let sent = send-Sends i card_sgd (some header) s h in
      bind_post Q _ _ s (λ e k. (sent, refl))
        (λ issued k.
          if_post Q (leb 400 issued.status_code) _ _ _ (λ e. (sent, refl))
            (λ e. bind_post Q _ _ _ (λ e k. (sent, refl)) (λ tx k. (sent, refl))))

  -- All that one settlement does to the outside.
  abbrev pub Spends :
      {A : Type 0} → SettlementInstruction → CardState → Result A × CardState → Type 0
  Spends i s p = Sends 2 i s p.1 × Signs i (ports.time s.reads) s p.1

  buy-Spends :
      (i : SettlementInstruction) (card_sgd : ℕ) (s : CardState)
      → IsFaceValue i card_sgd
      → Spends i s (buy ports i card_sgd s)
  unfolding buy raise send
  buy-Spends i card_sgd s h =
      let Q : Result SettlementReceipt × CardState → Type 0 = Spends i s in
      let request : Post = record {
        amount_sgd = card_sgd;
        cardholder_name = ports.cardholder_name;
        header = none;
      } in
      let asked = send-Sends i card_sgd none s h in
      let t : CardState = (send ports request s).1 in
      let widened : Sends 2 i s t = (asked.0, asked.1, asked.2, omega (arith, asked.3)) in
      bind_post Q (send ports request) _ s (λ e k. (widened, inl refl))
        (λ challenge k.
          if_post Q (not (eqb challenge.status_code 402)) _ _ t (λ e. (widened, inl refl))
            (λ e.
              let (same, signs) = authorised-Signs i challenge t in
              bind_post Q (authorised ports i challenge) _ t
                (λ e k. (Sends-kept 2 i s t (authorised ports i challenge t).1 same widened, signs))
                (λ header k.
                  let u : CardState = (authorised ports i challenge t).1 in
                  let (sends, kept) =
                    issue-Sends i card_sgd header (authorised ports i challenge t).1 h in
                  (
                    Sends-then 1 1 i s u (issue ports i card_sgd header u).1
                        (Sends-kept 1 i s t u same asked) sends,
                    Signs-kept i (ports.time s.reads) s u (issue ports i card_sgd header u).1 kept
                        signs,
                  ))))

  settle_card-Spends :
      (i : SettlementInstruction) (s : CardState) → Spends i s (settle_card ports i s)
  unfolding settle_card raise checked
  settle_card-Spends i s =
      let nothing : Sends 2 i s s = Sends-none i s s refl in
      if_post (Spends i s) (not (same_currency i.amount.currency xsgd)) _ _ s
        (λ e. (nothing, inl refl))
        (λ e.
          bind_post (Spends i s) _ _ s (λ e k. (nothing, inl refl))
            (λ card_sgd k. buy-Spends i card_sgd s (card_value-IsFaceValue i card_sgd k)))

  caught-Spends :
      (i : SettlementInstruction) (s : CardState) (p : Result SettlementReceipt × CardState)
      → Spends i s p
      → Spends i s (caught ports i p)
  caught-Spends i s (ok receipt, t) h = h
  caught-Spends i s (err e, t) h = ground (arith, h)

  -- A settlement on the card rail, whether it returns or raises, asks the card API at most twice, each time
  -- for a card of exactly the charge's value and of 5 to 30 SGD; and it gives the signer nothing, or one
  -- authorisation, which is from the wallet, moves no more than the charge, and expires in five minutes.
  pub settle-Spends : (i : SettlementInstruction) (s : CardState) → Spends i s (settle ports i s)
  unfolding settle
  settle-Spends i s = caught-Spends i s (settle_card ports i s) (settle_card-Spends i s)
