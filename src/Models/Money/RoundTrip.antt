-- ===== src/Models/Money/RoundTrip.antt =====
-- Minor units, written as an amount and read back.
use Prim.Native.Char.{code}
use Prim.Native.String.{char_at}
use text.Mathlib.TextLemmas.{append-nil, cons-append, nil-append, append_assoc}
use native.Mathlib.Nat.{mul_assoc, pow-succ', one-le-pow, mod-lt, mod-add-div'}
use cpfbuddies.Prelude.{
  ℕ, zero, suc, ◌+◌, ◌-◌, ◌*◌, ◌/◌, ◌%◌, ◌^◌, ◌<◌, ◌≤◌, ◌≡◌, refl, sym, subst, eq_iff, ◌∙◌, ap,
  String, ◌<>◌, ◌==◌, false, ◌&&◌, eqb, ltb, Bool-cases, some, inl, inr, arith,
}
use cpfbuddies.Prelude.Text.{decimal, decimal_within}
use cpfbuddies.Errors.{ok}
use cpfbuddies.Models.Money.{
  Money, Currency, xsgd, sgd, usd, currency_decimals, digits_from, count_chars, places,
  to_minor_units, minor_units,
}
use cpfbuddies.Models.Amounts.{
  Decimal, digit, padded, without_zeros, two_places, format_amount, normalise_amount,
  from_minor_units, max_minor_units,
}
use cpfbuddies.Models.Amounts.Reading.{code-digit, div-lt_pow, shifted, parse_decimal-written}

not_point : (n : ℕ) → n < 10 → eqb (code (char_at "0123456789" n)) b'.' ≡ false
not_point n h = rw (code-digit n h) (ground arith)

digits_from-digit :
    (acc n : ℕ) (rest : String)
    → n < 10
    → digits_from acc (digit n <> rest) ≡ digits_from (acc * 10 + n) rest
unfolding digits_from
digits_from-digit acc n rest h =
    let value : code (char_at "0123456789" n) - b'0' ≡ n = rw (code-digit n h) (omega arith) in
    rw (cons-append, digits_from, not_point n h, value)
      (ap (digits_from (acc * 10 + n)) (nil-append rest))

places-digit : (n : ℕ) (rest : String) → n < 10 → places (digit n <> rest) ≡ places rest
unfolding places
places-digit n rest h = rw (cons-append, places, not_point n h) (ap places (nil-append rest))

digits_from-decimal_within :
    (fuel n : ℕ) (rest : String)
    → n < fuel
    → digits_from 0 (decimal_within fuel n <> rest) ≡ digits_from n rest
unfolding decimal_within
digits_from-decimal_within zero n rest h = absurd (omega arith)
digits_from-decimal_within (suc fuel) n rest h = elim (Bool-cases (ltb n 10)) [
  | inl small ↦
      let below : n < 10 = ground arith in
      rw small (
        digits_from-digit 0 (n % 10) rest (omega arith)
        ∙ ap (λ m. digits_from m rest) (omega arith))
  | inr large ↦
      let above : 10 ≤ n = ground arith in
      rw large (
        ap (digits_from 0) (append_assoc (decimal_within fuel (n / 10)) (digit (n % 10)) rest)
        ∙ digits_from-decimal_within fuel (n / 10) (digit (n % 10) <> rest) (omega arith)
        ∙ digits_from-digit (n / 10) (n % 10) rest (omega arith)
        ∙ ap (λ m. digits_from m rest) (omega arith))
]

places-decimal_within :
    (fuel n : ℕ) (rest : String) → places (decimal_within fuel n <> rest) ≡ places rest
unfolding decimal_within
places-decimal_within zero n rest = ap places (nil-append rest)
places-decimal_within (suc fuel) n rest = elim (Bool-cases (ltb n 10)) [
  | inl small ↦ rw small (places-digit (n % 10) rest (omega arith))
  | inr large ↦ rw large (
      ap places (append_assoc (decimal_within fuel (n / 10)) (digit (n % 10)) rest)
      ∙ places-decimal_within fuel (n / 10) (digit (n % 10) <> rest)
      ∙ places-digit (n % 10) rest (omega arith))
]

digits_from-padded :
    (k acc n : ℕ) (rest : String)
    → n < 10 ^ k
    → digits_from acc (padded k n <> rest) ≡ digits_from (acc * 10 ^ k + n) rest
unfolding padded
digits_from-padded zero acc n rest h =
    ap (digits_from acc) (nil-append rest) ∙ ap (λ m. digits_from m rest) (omega arith)
digits_from-padded (suc k) acc n rest h =
    ap (digits_from acc) (append_assoc (padded k (n / 10)) (digit (n % 10)) rest)
    ∙ digits_from-padded k acc (n / 10) (digit (n % 10) <> rest) (div-lt_pow n k h)
    ∙ digits_from-digit (acc * 10 ^ k + n / 10) (n % 10) rest (omega arith)
    ∙ ap (λ m. digits_from m rest) (shifted acc k n)

-- No character of the text is the point.
abbrev NoPoint : String → Type 0
NoPoint String.[] = Unit
NoPoint (String.◌∷◌ c s) = (eqb (code c) b'.' ≡ false) × NoPoint s

NoPoint-digit : (s : String) (n : ℕ) → NoPoint s → n < 10 → NoPoint (s <> digit n)
NoPoint-digit String.[] n h k = subst NoPoint (sym (nil-append (digit n))) (not_point n k, tt)
NoPoint-digit (String.◌∷◌ c s) n h k =
    subst NoPoint (sym (cons-append c s (digit n))) (h.0, NoPoint-digit s n h.1 k)

count-digit : (s : String) (n : ℕ) → count_chars (s <> digit n) ≡ count_chars s + 1
unfolding count_chars
count-digit String.[] n = ap count_chars (nil-append (digit n))
count-digit (String.◌∷◌ c s) n =
    ap count_chars (cons-append c s (digit n)) ∙ ap (λ m. m + 1) (count-digit s n)

padded-NoPoint : (k n : ℕ) → NoPoint (padded k n)
unfolding padded
padded-NoPoint zero n = tt
padded-NoPoint (suc k) n =
    NoPoint-digit (padded k (n / 10)) (n % 10) (padded-NoPoint k (n / 10)) (omega arith)

count-padded : (k n : ℕ) → count_chars (padded k n) ≡ k
unfolding padded count_chars
count-padded zero n = refl
count-padded (suc k) n =
    count-digit (padded k (n / 10)) (n % 10)
    ∙ ap (λ m. m + 1) (count-padded k (n / 10))
    ∙ omega arith

ends : (acc d m : ℕ) → d ≡ 0 → acc * 10 ^ (m + 1 - 0) ≡ (acc * 10 + d) * 10 ^ (m - 0)
ends acc d m h =
    ap (λ k. acc * 10 ^ k) (omega arith)
    ∙ ap (λ p. acc * p) (pow-succ' 10 m)
    ∙ sym (mul_assoc acc 10 (10 ^ m))
    ∙ ap (λ x. x * 10 ^ m) (omega (arith, h))
    ∙ ap (λ k. (acc * 10 + d) * 10 ^ k) (omega arith)

-- Zeros at the end of a fraction do not change its value.
without_zeros-value :
    (s : String) (acc : ℕ)
    → NoPoint s
    → (count_chars (without_zeros s) ≤ count_chars s)
      × (digits_from acc (without_zeros s) * 10 ^ (count_chars s - count_chars (without_zeros s))
          ≡ digits_from acc s)
unfolding without_zeros digits_from count_chars
without_zeros-value String.[] acc h = (omega arith, omega arith)
without_zeros-value (String.◌∷◌ c s) acc (no_point, h) =
    let value = acc * 10 + (code c - b'0') in
    let (le, e) = without_zeros-value s value h in
    elim (Bool-cases (eqb (code c) b'0' && without_zeros s == "")) [
      | inl zeros ↦
          let zero_digit : code c ≡ b'0' = ground arith in
          let nothing : without_zeros s ≡ "" = ground (arith, eq_iff (without_zeros s) "") in
          rw (without_zeros, zeros, no_point)
            (
              omega arith,
              ends acc (code c - b'0') (count_chars s) (omega (arith, zero_digit))
                  ∙ subst
                      (λ t.
                        digits_from value t * 10 ^ (count_chars s - count_chars t)
                        ≡ digits_from value s)
                      nothing e,
            )
      | inr other ↦
          rw (without_zeros, other, digits_from, no_point)
            (
              omega (arith, le),
              ap (λ k. digits_from value (without_zeros s) * 10 ^ k) (omega arith) ∙ e,
            )
    ]

without_zeros-NoPoint : (s : String) → NoPoint s → NoPoint (without_zeros s)
unfolding without_zeros
without_zeros-NoPoint String.[] h = tt
without_zeros-NoPoint (String.◌∷◌ c s) (no_point, h) =
    elim (Bool-cases (eqb (code c) b'0' && without_zeros s == "")) [
      | inl zeros ↦ rw (without_zeros, zeros) tt
      | inr other ↦ rw (without_zeros, other) (no_point, without_zeros-NoPoint s h)
    ]

-- Nor do the zeros that are put back.
two_places-value :
    (c : Currency) (s : String) (acc : ℕ)
    → NoPoint s
    → count_chars s ≤ currency_decimals c
    → digits_from acc (two_places s) * 10 ^ (currency_decimals c - count_chars (two_places s))
      ≡ digits_from acc s * 10 ^ (currency_decimals c - count_chars s)
unfolding two_places count_chars digits_from
two_places-value xsgd String.[] acc h k = omega arith
two_places-value sgd String.[] acc h k = omega arith
two_places-value usd String.[] acc h k = omega arith
two_places-value xsgd (String.◌∷◌ a String.[]) acc (no_point, h) k = rw (no_point) (omega arith)
two_places-value sgd (String.◌∷◌ a String.[]) acc (no_point, h) k = rw (no_point) (omega arith)
two_places-value usd (String.◌∷◌ a String.[]) acc (no_point, h) k = rw (no_point) (omega arith)
two_places-value c (String.◌∷◌ a (String.◌∷◌ b s)) acc h k = refl

digits_from-point : (acc : ℕ) (s : String) → digits_from acc ("." <> s) ≡ digits_from acc s
unfolding digits_from
digits_from-point acc s =
    ap (digits_from acc) (cons-append (char_at "." 0) "" s) ∙ ap (digits_from acc) (nil-append s)

places-point : (s : String) → places ("." <> s) ≡ count_chars s
unfolding places
places-point s = ap places (cons-append (char_at "." 0) "" s) ∙ ap count_chars (nil-append s)

-- The value of the trimmed fraction, behind a whole part
trimmed-value :
    (c : Currency) (w f : ℕ)
    → f < 10 ^ currency_decimals c
    → digits_from w (without_zeros (padded (currency_decimals c) f))
        * 10 ^ (currency_decimals c - count_chars (without_zeros (padded (currency_decimals c) f)))
      ≡ w * 10 ^ currency_decimals c + f
unfolding digits_from
trimmed-value c w f h =
    let k = currency_decimals c in
    let t = without_zeros (padded k f) in
    let value = (without_zeros-value (padded k f) w (padded-NoPoint k f)).1 in
    ap (λ m. digits_from w t * 10 ^ (m - count_chars t)) (sym (count-padded k f))
    ∙ value
    ∙ ap (digits_from w) (sym (append-nil (padded k f)))
    ∙ digits_from-padded k w f "" h

-- The kept amount has the value of what was written.
to_minor_units-format :
    (n : ℕ) (c : Currency)
    → to_minor_units (format_amount (record { coefficient = n; places = currency_decimals c })) c
      ≡ n
unfolding to_minor_units format_amount decimal
to_minor_units-format n c =
    let k = currency_decimals c in
    let w = n / 10 ^ k in
    let f = n % 10 ^ k in
    let t = without_zeros (padded k f) in
    let u = two_places t in
    let (short, value) = without_zeros-value (padded k f) w (padded-NoPoint k f) in
    let fits : count_chars t ≤ k = omega (arith, short, count-padded k f) in
    ap (λ d. d * 10 ^ (k - places (decimal w <> "." <> u)))
      (digits_from-decimal_within (w + 1) w ("." <> u) (omega arith) ∙ digits_from-point w u)
    ∙ ap (λ p. digits_from w u * 10 ^ (k - p))
        (places-decimal_within (w + 1) w ("." <> u) ∙ places-point u)
    ∙ two_places-value c t w (without_zeros-NoPoint (padded k f) (padded-NoPoint k f)) fits
    ∙ trimmed-value c w f (mod-lt n (one-le-pow k 10 (omega arith)))
    ∙ omega (arith, mod-add-div' n (10 ^ k))

normalise_amount-written :
    (n : ℕ) (c : Currency)
    → n ≤ max_minor_units
    → normalise_amount c (some (record { coefficient = n; places = currency_decimals c }))
      ≡ ok (record {
        currency = c;
        amount = format_amount (record { coefficient = n; places = currency_decimals c });
      })
unfolding normalise_amount
normalise_amount-written n c h =
    let k = currency_decimals c in
    let exact : ltb k k ≡ false = ground arith in
    let same : k - k ≡ 0 = omega arith in
    let unshifted : n * 10 ^ (k - k) ≡ n = ap (λ j. n * 10 ^ j) same ∙ omega arith in
    let fits : ltb max_minor_units n ≡ false = ground (arith, h) in
    rw (normalise_amount, exact, unshifted, fits) refl

-- Minor units that fit a `uint256`, written as an amount of a currency, are accepted and read back as they were.
pub minor_units-from_minor_units :
    (n : ℕ) (c : Currency)
    → n ≤ max_minor_units
    → (m : Money) × (from_minor_units n c ≡ ok m) × (m.currency ≡ c) × (minor_units m ≡ n)
unfolding from_minor_units minor_units
minor_units-from_minor_units n c h = (
  record {
    currency = c;
    amount = format_amount (record { coefficient = n; places = currency_decimals c });
  },
  ap (normalise_amount c) (parse_decimal-written n (currency_decimals c))
      ∙ normalise_amount-written n c h,
  refl,
  to_minor_units-format n c,
)

normalised :
    (c : Currency) (d : Decimal) (m : Money)
    → normalise_amount c (some d) ≡ ok m
    → m ≡ record { currency = c; amount = format_amount d }
unfolding normalise_amount
normalised c d m h = ground arith

-- An amount that was made of minor units is worth them.
pub from_minor_units-value :
    (n : ℕ) (c : Currency) (m : Money)
    → from_minor_units n c ≡ ok m
    → (m.currency ≡ c) × (minor_units m ≡ n)
unfolding from_minor_units minor_units
from_minor_units-value n c m h =
    let d : Decimal = record { coefficient = n; places = currency_decimals c } in
    let e =
      normalised c d m
        (ap (normalise_amount c) (sym (parse_decimal-written n (currency_decimals c))) ∙ h) in
    (
      ap (λ x. x.currency) e,
      ap (λ x. to_minor_units x.amount x.currency) e ∙ to_minor_units-format n c,
    )
