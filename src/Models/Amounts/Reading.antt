-- ===== src/Models/Amounts/Reading.antt =====
-- What is written of a number of minor units is read back.
use Prim.Native.Char.{code}
use Prim.Native.String.{char_at}
use text.Mathlib.TextLemmas.{append-nil, cons-append, nil-append, append_assoc}
use native.Mathlib.Nat.{mul_assoc, pow-suc, one-le-pow, mod-lt, mod-add-div'}
use cpfbuddies.Prelude.{
  ℕ, zero, suc, ◌+◌, ◌*◌, ◌/◌, ◌%◌, ◌^◌, ◌<◌, ◌≤◌, ◌≡◌, refl, sym, ◌∙◌, ap, String, ◌<>◌, Bool,
  true, false, some, ltb, Bool-cases, inl, inr, arith,
}
use cpfbuddies.Prelude.Text.{decimal, decimal_within}
use cpfbuddies.Models.Amounts.{
  read_decimal, sign_of, figure, plus_place, digit, padded, parse_decimal,
}

-- The n-th digit's code, and what it stands for
pub code-digit : (n : ℕ) → n < 10 → code (char_at "0123456789" n) ≡ b'0' + n
code-digit zero h = refl
code-digit (suc zero) h = refl
code-digit (suc (suc zero)) h = refl
code-digit (suc (suc (suc zero))) h = refl
code-digit (suc (suc (suc (suc zero)))) h = refl
code-digit (suc (suc (suc (suc (suc zero))))) h = refl
code-digit (suc (suc (suc (suc (suc (suc zero)))))) h = refl
code-digit (suc (suc (suc (suc (suc (suc (suc zero))))))) h = refl
code-digit (suc (suc (suc (suc (suc (suc (suc (suc zero)))))))) h = refl
code-digit (suc (suc (suc (suc (suc (suc (suc (suc (suc zero))))))))) h = refl
code-digit (suc (suc (suc (suc (suc (suc (suc (suc (suc (suc n)))))))))) h = absurd (omega arith)

sign-digit : (n : ℕ) → n < 10 → sign_of (code (char_at "0123456789" n)) ≡ figure n
unfolding sign_of
sign-digit zero h = refl
sign-digit (suc zero) h = refl
sign-digit (suc (suc zero)) h = refl
sign-digit (suc (suc (suc zero))) h = refl
sign-digit (suc (suc (suc (suc zero)))) h = refl
sign-digit (suc (suc (suc (suc (suc zero))))) h = refl
sign-digit (suc (suc (suc (suc (suc (suc zero)))))) h = refl
sign-digit (suc (suc (suc (suc (suc (suc (suc zero))))))) h = refl
sign-digit (suc (suc (suc (suc (suc (suc (suc (suc zero)))))))) h = refl
sign-digit (suc (suc (suc (suc (suc (suc (suc (suc (suc zero))))))))) h = refl
sign-digit (suc (suc (suc (suc (suc (suc (suc (suc (suc (suc n)))))))))) h = absurd (omega arith)

read-digit :
    (acc places n : ℕ) (behind any : Bool) (rest : String)
    → n < 10
    → read_decimal acc places behind any (digit n <> rest)
      ≡ read_decimal (acc * 10 + n) (plus_place behind places) behind true rest
unfolding read_decimal
read-digit acc places n behind any rest h =
    rw (cons-append, read_decimal, sign-digit n h)
      (ap (read_decimal (acc * 10 + n) (plus_place behind places) behind true) (nil-append rest))

-- A number's digits, in front of the point
read-decimal_within :
    (fuel n places : ℕ) (any : Bool) (rest : String)
    → n < fuel
    → read_decimal 0 places false any (decimal_within fuel n <> rest)
      ≡ read_decimal n places false true rest
unfolding decimal_within
read-decimal_within zero n places any rest h = absurd (omega arith)
read-decimal_within (suc fuel) n places any rest h = elim (Bool-cases (ltb n 10)) [
  | inl small ↦
      let below : n < 10 = ground arith in
      rw small (
        read-digit 0 places (n % 10) false any rest (omega arith)
        ∙ ap (λ m. read_decimal m places false true rest) (omega arith))
  | inr large ↦
      let above : 10 ≤ n = ground arith in
      rw large (
        ap (read_decimal 0 places false any)
          (append_assoc (decimal_within fuel (n / 10)) (digit (n % 10)) rest)
        ∙ read-decimal_within fuel (n / 10) places any (digit (n % 10) <> rest) (omega arith)
        ∙ read-digit (n / 10) places (n % 10) false true rest (omega arith)
        ∙ ap (λ m. read_decimal m places false true rest) (omega arith))
]

-- A number below a power of ten, without its last digit
pub div-lt_pow : (n k : ℕ) → n < 10 ^ suc k → n / 10 < 10 ^ k
div-lt_pow n k h = omega arith

pub shifted : (acc k n : ℕ) → (acc * 10 ^ k + n / 10) * 10 + n % 10 ≡ acc * 10 ^ suc k + n
shifted acc k n =
    let e : acc * 10 ^ k * 10 ≡ acc * 10 ^ suc k =
      mul_assoc acc (10 ^ k) 10 ∙ ap (λ p. acc * p) (sym (pow-suc 10 k)) in
    omega (arith, e)

-- The digits behind the point
read-padded :
    (k acc places n : ℕ) (any : Bool) (rest : String)
    → n < 10 ^ k
    → read_decimal acc places true true (padded k n <> rest)
      ≡ read_decimal (acc * 10 ^ k + n) (places + k) true true rest
unfolding padded
read-padded zero acc places n any rest h =
    ap (read_decimal acc places true true) (nil-append rest)
    ∙ ap (λ m. read_decimal m places true true rest) (omega arith)
    ∙ ap (λ q. read_decimal (acc * 10 ^ 0 + n) q true true rest) (omega arith)
read-padded (suc k) acc places n any rest h =
    ap (read_decimal acc places true true) (append_assoc (padded k (n / 10)) (digit (n % 10)) rest)
    ∙ read-padded k acc places (n / 10) any (digit (n % 10) <> rest) (div-lt_pow n k h)
    ∙ read-digit (acc * 10 ^ k + n / 10) (places + k) (n % 10) true true rest (omega arith)
    ∙ ap (λ m. read_decimal m (places + k + 1) true true rest) (shifted acc k n)
    ∙ ap (λ q. read_decimal (acc * 10 ^ suc k + n) q true true rest) (omega arith)

after_point :
    (w : ℕ) (rest : String)
    → read_decimal w 0 false true ("." <> rest) ≡ read_decimal w 0 true true rest
unfolding read_decimal sign_of
after_point w rest =
    ap (read_decimal w 0 false true) (cons-append (char_at "." 0) "" rest)
    ∙ ap (read_decimal w 0 true true) (nil-append rest)

pow_positive : (k : ℕ) → 0 < 10 ^ k
pow_positive k = one-le-pow k 10 (omega arith)

-- The amount that `from_minor_units` writes is read back as that number of minor units.
pub parse_decimal-written :
    (n k : ℕ)
    → parse_decimal (decimal (n / 10 ^ k) <> "." <> padded k (n % 10 ^ k))
      ≡ some (record { coefficient = n; places = k })
unfolding parse_decimal decimal
parse_decimal-written n k =
    let w = n / 10 ^ k in
    let f = n % 10 ^ k in
    read-decimal_within (w + 1) w 0 false ("." <> padded k f) (omega arith)
    ∙ after_point w (padded k f)
    ∙ ap (read_decimal w 0 true true) (sym (append-nil (padded k f)))
    ∙ read-padded k w 0 f true "" (mod-lt n (pow_positive k))
    ∙ ap (λ m. read_decimal m (0 + k) true true "") (omega (arith, mod-add-div' n (10 ^ k)))
    ∙ ap (λ q. some (record { coefficient = n; places = q })) (omega arith)
