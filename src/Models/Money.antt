-- ===== src/Models/Money.antt =====
-- src/trustrail/models/money.py: an amount is a decimal text in a currency, and is compared in
-- minor units.
pub mod RoundTrip
use Prim.Native.Char.{code}
use Prim.Native.String.{String}
use cpfbuddies.Prelude.{
  ℕ, ◌+◌, ◌-◌, ◌*◌, ◌^◌, Bool, true, false, Option, none, some, ◌==◌, not, ◌&&◌, eqb, ltb,
  if◌then◌else◌,
}

pub data Currency : Type 0 where
  xsgd sgd usd : Currency

-- `CURRENCY_DECIMALS`
abbrev pub currency_decimals : Currency → ℕ
currency_decimals xsgd = 6
currency_decimals sgd = 2
currency_decimals usd = 2

-- `a is b` on the members of the enum
abbrev pub same_currency : Currency → Currency → Bool
same_currency xsgd xsgd = true
same_currency sgd sgd = true
same_currency usd usd = true
same_currency _ _ = false

pub record Money : Type 0 where
  pub currency : Currency
  pub amount : String

-- The digits of a normalised amount such as "4.20" read as one number, from the left; the point
-- is skipped, as `as_tuple` does.
digits_from : ℕ → String → ℕ
digits_from acc String.[] = acc
digits_from acc (String.◌∷◌ c s) =
    digits_from (if eqb (code c) b'.' then acc else acc * 10 + (code c - b'0')) s

-- `-exponent`: how many digits stand behind the point.
count_chars : String → ℕ
count_chars String.[] = 0
count_chars (String.◌∷◌ c s) = count_chars s + 1

places : String → ℕ
unfolding count_chars
places String.[] = 0
places (String.◌∷◌ c s) = let rest = places s in if eqb (code c) b'.' then count_chars s else rest

-- `_to_minor_units`. A normalised amount has no more places than its currency, so the shift is
-- not negative.
to_minor_units : String → Currency → ℕ
unfolding digits_from places
to_minor_units amount currency =
    digits_from 0 amount * 10 ^ (currency_decimals currency - places amount)

unfoldable pub minor_units : Money → ℕ
unfolding to_minor_units
minor_units m = to_minor_units m.amount m.currency

-- `__lt__`: `none` is the `ValueError` of `_assert_comparable`.
unfoldable pub lt_money : Money → Money → Option Bool
lt_money a b =
    if same_currency a.currency b.currency then some (ltb (minor_units a) (minor_units b)) else none

-- `==` on the model: the currency and the normalised text.
abbrev pub same_money : Money → Money → Bool
same_money a b = same_currency a.currency b.currency && a.amount == b.amount

-- `>` is not defined on `Money` and comes from `total_ordering`: `not (a < b) and a != b`. It raises
-- where the currencies differ, which the two checks above exclude.
abbrev pub gt_money : Money → Money → Bool
gt_money a b = not (ltb (minor_units a) (minor_units b)) && not (same_money a b)
