-- ===== src/Prelude/Integers.antt =====
-- Python's integers where they may be negative, and `int(text)`.
use Prim.Native.Char.{code}
use Prim.Native.Nat.{ℕ, zero, suc, ◌+◌, ◌-◌, ◌*◌}
use Prim.Native.String.{String}
use mathlib.Core.Bool.{Bool, true, false, ◌&&◌, ◌||◌}
use mathlib.Core.Option.{Option, none, some}
use cpfbuddies.Prelude.Tests.{eqb, leb, ltb, if◌then◌else◌}

-- `negsuc n` is -(n + 1).
pub data ℤ : Type 0 where
  pos negsuc : ℕ → ℤ

-- `value > bound`
abbrev pub exceeds : ℤ → ℕ → Bool
exceeds (pos n) bound = ltb bound n
exceeds (negsuc n) bound = false

abbrev negated : ℕ → ℤ
negated zero = pos 0
negated (suc n) = negsuc n

-- What a character does to a number that is being read: it stands in its digits, parts two of them, ends
-- it, or is refused.
pub data Part : Type 0 where
  digit : ℕ → Part
  parts ends refused : Part

abbrev pub is_space : ℕ → Bool
is_space c = (leb 9 c && leb c 13) || (leb 28 c && leb c 32)

part_of : ℕ → Part
part_of c =
    if leb b'0' c && leb c b'9'
    then digit (c - b'0')
    else if eqb c b'_'
    then parts
    else if is_space c
    then ends
    else refused

unfoldable pub all_space : String → Bool
all_space String.[] = true
all_space (String.◌∷◌ c s) = is_space (code c) && all_space s

-- The digits so far are `acc`, and the character before was a digit or not.
digits : ℕ → Bool → String → Option ℕ
unfolding part_of all_space
digits acc after_digit String.[] = if after_digit then some acc else none
digits acc after_digit (String.◌∷◌ c s) = elim (part_of (code c)) [
  | digit d ↦ digits (acc * 10 + d) true s
  | parts ↦ elim after_digit [ true ↦ digits acc false s | false ↦ none ]
  | ends ↦ if after_digit && all_space s then some acc else none
  | refused ↦ none
]

abbrev signed_as : (ℕ → ℤ) → Option ℕ → Option ℤ
signed_as f none = none
signed_as f (some n) = some (f n)

-- `int(text)` on ASCII texts; `none` is its `ValueError`.
unfoldable pub int : String → Option ℤ
unfolding digits
int String.[] = none
int (String.◌∷◌ c s) = elim (is_space (code c)) [
  | true ↦ int s
  | false ↦
      if eqb (code c) b'-'
      then signed_as negated (digits 0 false s)
      else if eqb (code c) b'+'
      then signed_as pos (digits 0 false s)
      else signed_as pos (digits 0 false (String.◌∷◌ c s))
]
