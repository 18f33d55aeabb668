-- ===== src/Models/Amounts.antt =====
-- The writing of an amount: `Money.from_minor_units` and the validator `_normalise_amount` of
-- src/trustrail/models/money.py.
pub mod Reading
use Prim.Native.Char.{code}
use Prim.Native.String.{char_at}
use cpfbuddies.Prelude.{
  ℕ, zero, suc, ◌+◌, ◌-◌, ◌*◌, ◌/◌, ◌%◌, ◌^◌, String, ◌<>◌, ◌==◌, Bool, true, false, ◌&&◌, Option,
  none, some, eqb, leb, ltb, if◌then◌else◌,
}
use cpfbuddies.Prelude.Text.{decimal}
use cpfbuddies.Errors.{Result, ok, err, validation_error}
use cpfbuddies.Models.Money.{Money, Currency, currency_decimals}

-- `_MAX_MINOR_UNITS`
abbrev pub max_minor_units : ℕ
max_minor_units = 2 ^ 256 - 1

-- A decimal number that is not negative: digits, of which `places` stand behind the point
pub record Decimal : Type 0 where
  pub coefficient : ℕ
  pub places : ℕ

abbrev pub digit : ℕ → String
digit n = String.◌∷◌ (char_at "0123456789" n) ""

-- What stands at a place of a decimal text
pub data Sign : Type 0 where
  figure : ℕ → Sign
  point refused : Sign

sign_of : ℕ → Sign
sign_of c =
    if leb b'0' c && leb c b'9' then figure (c - b'0') else if eqb c b'.' then point else refused

abbrev plus_place : Bool → ℕ → ℕ
plus_place behind places = if behind then places + 1 else places

-- The digits read so far, how many of them stand behind the point, whether the point was read, and whether
-- any digit was
read_decimal : ℕ → ℕ → Bool → Bool → String → Option Decimal
unfolding sign_of
read_decimal n places behind any String.[] =
    if any then some (record { coefficient = n; places = places }) else none
read_decimal n places behind any (String.◌∷◌ c s) = elim (sign_of (code c)) [
  | figure d ↦ read_decimal (n * 10 + d) (plus_place behind places) behind true s
  | point ↦ elim behind [ true ↦ none | false ↦ read_decimal n places true any s ]
  | refused ↦ none
]

-- `_parse_decimal` on a text of digits and a point, which is what `from_minor_units` writes. Signs, exponents and
-- underscores, which `Decimal` reads too, are refused here.
unfoldable pub parse_decimal : String → Option Decimal
unfolding read_decimal
parse_decimal text = read_decimal 0 0 false false text

-- `f"{n:0{k}d}"`, for n below 10 ^ k
unfoldable pub padded : ℕ → ℕ → String
padded zero n = ""
padded (suc k) n = padded k (n / 10) <> digit (n % 10)

-- `text.rstrip("0")`
unfoldable pub without_zeros : String → String
without_zeros String.[] = ""
without_zeros (String.◌∷◌ c s) =
    let rest = without_zeros s in if eqb (code c) b'0' && rest == "" then "" else String.◌∷◌ c rest

-- `text.ljust(2, "0")`
unfoldable pub two_places : String → String
two_places String.[] = "00"
two_places (String.◌∷◌ c String.[]) = String.◌∷◌ c "0"
two_places s = s

-- `_format_amount`
unfoldable pub format_amount : Decimal → String
format_amount d =
    decimal (d.coefficient / 10 ^ d.places)
    <> "."
    <> two_places (without_zeros (padded d.places (d.coefficient % 10 ^ d.places)))

-- `_normalise_amount`, on the decimal that was read: `_reject_excess_precision`, `_reject_unrepresentable`, and the
-- amount as it is kept
unfoldable pub normalise_amount : Currency → Option Decimal → Result Money
normalise_amount currency none = err validation_error
normalise_amount currency (some d) =
    if ltb (currency_decimals currency) d.places
    then err validation_error
    else if ltb max_minor_units (d.coefficient * 10 ^ (currency_decimals currency - d.places))
    then err validation_error
    else ok (record { currency = currency; amount = format_amount d })

-- `Money.from_minor_units`
unfoldable pub from_minor_units : ℕ → Currency → Result Money
from_minor_units minor_units currency =
    let scale = 10 ^ currency_decimals currency in
    normalise_amount currency (
      parse_decimal (
        decimal (minor_units / scale)
        <> "."
        <> padded (currency_decimals currency) (minor_units % scale)))
