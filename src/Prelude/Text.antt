-- ===== src/Prelude/Text.antt =====
-- Texts: `str.lower`, the hexadecimal digits of `bytes.fromhex` and `bytes.hex`, `str.encode`.
use Prim.Native.Nat.{ℕ, zero, suc, ◌+◌, ◌-◌, ◌*◌, ◌/◌, ◌%◌, ◌<◌}
use Prim.Native.Char.{Char, code}
use Prim.Native.String.{String, char_at, ◌++◌ as ◌<>◌}
use Prim.Native.String.append
use mathlib.Core.Path.{◌≡◌, refl, sym, ap, ap₂, ◌∙◌}
use mathlib.Core.Bool.{Bool, true, false, ◌&&◌}
use native.Mathlib.Omega.{arith}
use mathlib.Core.List.{List, [], ◌∷◌, ◌++◌}
use cpfbuddies.Prelude.Tests.{eqb, leb, ltb, if◌then◌else◌}

abbrev in_range : ℕ → ℕ → ℕ → Bool
in_range lo hi c = leb lo c && leb c hi

lower_char : Char → Char
lower_char c =
    if in_range b'A' b'Z' (code c) then char_at "abcdefghijklmnopqrstuvwxyz" (code c - b'A') else c

-- `str.lower` on ASCII, which all addresses are.
unfoldable pub lower : String → String
unfolding lower_char
lower String.[] = ""
lower (String.◌∷◌ c s) = String.◌∷◌ (lower_char c) (lower s)

-- The value of a hexadecimal digit; 0 for what `HexAddress` and `Hex32` refuse.
hex_value : ℕ → ℕ
hex_value c =
    if in_range b'0' b'9' c
    then c - b'0'
    else if in_range b'a' b'f' c
    then c - b'a' + 10
    else if in_range b'A' b'F' c
    then c - b'A' + 10
    else 0

-- `bytes.fromhex`, on the texts of an even number of digits that the models admit
unfoldable pub from_hex : String → List ℕ
unfolding hex_value
from_hex String.[] = []
from_hex (String.◌∷◌ c String.[]) = []
from_hex (String.◌∷◌ c (String.◌∷◌ d s)) =
    (hex_value (code c) * 16 + hex_value (code d)) ∷ from_hex s

-- `bytes.hex`
unfoldable pub to_hex : List ℕ → String
to_hex [] = ""
to_hex (b ∷ bs) =
    String.◌∷◌ (char_at "0123456789abcdef" (b / 16))
      (String.◌∷◌ (char_at "0123456789abcdef" (b % 16)) (to_hex bs))

-- One code point in UTF-8.
utf8 : ℕ → List ℕ
utf8 c =
    if ltb c 0x80
    then c ∷ []
    else if ltb c 0x800
    then (0xc0 + c / 64) ∷ (0x80 + c % 64) ∷ []
    else if ltb c 0x1_0000
    then (0xe0 + c / 4096) ∷ (0x80 + c / 64 % 64) ∷ (0x80 + c % 64) ∷ []
    else (0xf0 + c / 262144) ∷ (0x80 + c / 4096 % 64) ∷ (0x80 + c / 64 % 64) ∷ (0x80 + c % 64) ∷ []

hex_digit : ℕ → ℕ
unfolding hex_value
hex_digit d = hex_value (code (char_at "0123456789abcdef" d))

-- Whether each of the first digits is read as its value
are_read : ℕ → Bool
are_read zero = true
are_read (suc n) = if eqb (hex_digit n) n then are_read n else false

hex_digit-below : (d n : ℕ) → d < n → are_read n ≡ true → hex_digit d ≡ d
unfolding are_read
hex_digit-below d zero lt h = absurd (omega arith)
hex_digit-below d (suc n) lt h = ground (arith, hex_digit-below d n)

sixteen_are_read : are_read 16 ≡ true
unfolding are_read hex_digit
sixteen_are_read = refl

-- Each hexadecimal digit is read as its value.
hex_digit_lem : (d : ℕ) → d < 16 → hex_digit d ≡ d
hex_digit_lem d h = hex_digit-below d 16 h sixteen_are_read

abbrev pub AreBytes : List ℕ → Type 0
AreBytes [] = Unit
AreBytes (b ∷ bs) = (b < 256) × AreBytes bs

pub from_hex-to_hex : (bs : List ℕ) → AreBytes bs → from_hex (to_hex bs) ≡ bs
unfolding from_hex to_hex hex_digit
from_hex-to_hex [] h = refl
from_hex-to_hex (b ∷ bs) h =
    let high = hex_digit_lem (b / 16) (omega arith) in
    let low = hex_digit_lem (b % 16) (omega arith) in
    ap₂ ◌∷◌ (ap₂ (λ x y. x * 16 + y) high low ∙ omega arith) (from_hex-to_hex bs h.1)

-- `str.encode()`
unfoldable pub encode : String → List ℕ
unfolding utf8
encode String.[] = []
encode (String.◌∷◌ c s) = utf8 (code c) ++ encode s

-- `str(n)`: each division by ten uses one of the `fuel`, and n has fewer digits than n + 1.
unfoldable pub decimal_within : ℕ → ℕ → String
decimal_within zero n = ""
decimal_within (suc fuel) n =
    let higher = decimal_within fuel (n / 10) in
    let digit = String.◌∷◌ (char_at "0123456789" (n % 10)) "" in
    if ltb n 10 then digit else higher <> digit

unfoldable pub decimal : ℕ → String
unfolding decimal_within
decimal n = decimal_within (n + 1) n

-- The code of the first character
abbrev pub first_code : String → ℕ
first_code String.[] = 0
first_code (String.◌∷◌ c s) = code c

rest_of : String → String
rest_of String.[] = ""
rest_of (String.◌∷◌ c s) = s

-- Texts behind one prefix are equal where they are equal without it.
pub prefix_cancel : (p s t : String) → p <> s ≡ p <> t → s ≡ t
unfolding rest_of
prefix_cancel String.[] s t h = sym (append.nil s) ∙ h ∙ append.nil t
prefix_cancel (String.◌∷◌ c p) s t h =
    prefix_cancel p s t (ap rest_of (sym (append.cons c p s) ∙ h ∙ append.cons c p t))

pub first_code-append : (c : Char) (p s : String) → first_code (String.◌∷◌ c p <> s) ≡ code c
first_code-append c p s = ap first_code (append.cons c p s)
