-- ===== src/Audit/Positions.antt =====
-- The positions of the feed, written into a frame and read back from `Last-Event-ID`.
use Prim.Native.Char.{code}
use Prim.Native.String.{char_at}
use text.Mathlib.TextLemmas.{append-nil, cons-append, nil-append, append_assoc}
use cpfbuddies.Prelude.{
  ℕ, zero, suc, ◌+◌, ◌*◌, ◌/◌, ◌%◌, ◌<◌, ◌≤◌, ◌≡◌, refl, sym, ◌∙◌, ap, String, ◌<>◌, Bool, true,
  false, ltb, leb, Bool-cases, none, some, inl, inr, arith,
}
use cpfbuddies.Prelude.Text.{decimal, decimal_within}
use cpfbuddies.Prelude.Integers.{pos}
use cpfbuddies.Models.Amounts.{digit}
use cpfbuddies.Models.Amounts.Reading.{code-digit}
use cpfbuddies.Audit.{figure, figure_of, read_digits, int, positive, starting_cursor}

figure-digit : (n : ℕ) → n < 10 → figure_of (code (char_at "0123456789" n)) ≡ figure n
unfolding figure_of
figure-digit n h =
    let low : leb b'0' (b'0' + n) ≡ true = ground arith in
    let high : leb (b'0' + n) b'9' ≡ true = ground arith in
    rw (code-digit n h, low, high) (ap figure (omega arith))

read_digits-digit :
    (acc n : ℕ) (after : Bool) (rest : String)
    → n < 10
    → read_digits acc after (digit n <> rest) ≡ read_digits (acc * 10 + n) true rest
unfolding read_digits
read_digits-digit acc n after rest h =
    rw (cons-append, read_digits, figure-digit n h)
      (ap (read_digits (acc * 10 + n) true) (nil-append rest))

read_digits-decimal_within :
    (fuel n : ℕ) (after : Bool) (rest : String)
    → n < fuel
    → read_digits 0 after (decimal_within fuel n <> rest) ≡ read_digits n true rest
unfolding decimal_within
read_digits-decimal_within zero n after rest h = absurd (omega arith)
read_digits-decimal_within (suc fuel) n after rest h = elim (Bool-cases (ltb n 10)) [
  | inl small ↦
      let below : n < 10 = ground arith in
      rw small (
        read_digits-digit 0 (n % 10) after rest (omega arith)
        ∙ ap (λ m. read_digits m true rest) (omega arith))
  | inr large ↦
      let above : 10 ≤ n = ground arith in
      rw large (
        ap (read_digits 0 after) (append_assoc (decimal_within fuel (n / 10)) (digit (n % 10)) rest)
        ∙ read_digits-decimal_within fuel (n / 10) after (digit (n % 10) <> rest) (omega arith)
        ∙ read_digits-digit (n / 10) (n % 10) true rest (omega arith)
        ∙ ap (λ m. read_digits m true rest) (omega arith))
]

-- A text that begins with a digit is read as its digits.
int-digit :
    (n : ℕ) (rest : String)
    → n < 10
    → int (digit n <> rest) ≡ positive (read_digits 0 false (digit n <> rest))
unfolding int read_digits
int-digit n rest h = rw (read_digits-digit 0 n false rest h) (
    rw (cons-append, int, figure-digit n h)
      (ap (λ m. positive (read_digits m true ("" <> rest))) (omega arith)
        ∙ ap (λ t. positive (read_digits (0 * 10 + n) true t)) (nil-append rest)))

int-decimal_within :
    (fuel n : ℕ) (rest : String)
    → n < fuel
    → int (decimal_within fuel n <> rest)
      ≡ positive (read_digits 0 false (decimal_within fuel n <> rest))
unfolding decimal_within
int-decimal_within zero n rest h = absurd (omega arith)
int-decimal_within (suc fuel) n rest h = elim (Bool-cases (ltb n 10)) [
  | inl small ↦ rw small (int-digit (n % 10) rest (omega arith))
  | inr large ↦
      let above : 10 ≤ n = ground arith in
      rw (large, append_assoc (decimal_within fuel (n / 10)) (digit (n % 10)) rest)
        (int-decimal_within fuel (n / 10) (digit (n % 10) <> rest) (omega arith))
]

int-decimal : (n : ℕ) → int (decimal n) ≡ some (pos n)
unfolding decimal read_digits
int-decimal n =
    ap int (sym (append-nil (decimal n)))
    ∙ int-decimal_within (n + 1) n "" (omega arith)
    ∙ ap positive (read_digits-decimal_within (n + 1) n false "" (omega arith))

-- A client that resumes from the id of a frame is served from there.
pub starting_cursor-decimal : (n : ℕ) → starting_cursor none (some (decimal n)) ≡ n
unfolding starting_cursor
starting_cursor-decimal n = rw (int-decimal n) refl
