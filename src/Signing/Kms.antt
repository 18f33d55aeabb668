-- ===== src/Signing/Kms.antt =====
-- src/trustrail/signing/kms.py: a signer whose key lives in KMS, from the bytes that KMS answers with.
pub mod Packed
pub mod Signs
use cpfbuddies.Prelude.{
  ℕ, ◌+◌, ◌-◌, ◌/◌, ◌^◌, String, ◌<>◌, Bool, true, false, not, Option, none, some, List, [], ◌∷◌,
  ◌++◌, ◌==◌, length, eqb, leb, ltb, if◌then◌else◌,
}
use cpfbuddies.Prelude.Text.{to_hex}
use cpfbuddies.Prelude.Integers.{ℤ, pos, negsuc}
use cpfbuddies.Errors.{Result, ok, err, value_error, index_error, overflow_error}
use cpfbuddies.Signing.Libraries.{Libraries}
use cpfbuddies.Signing.Crypto.{big_endian, take, drop, recover_address}
use cpfbuddies.Signing.Eip712.{big_endian_bytes}

abbrev pub curve_order : ℕ
curve_order = 0xFFFFFFFFFFFFFFFFFFFFFFFFFFFFFFFEBAAEDCE6AF48A03BBFD25E8CD0364141

abbrev pub half_curve_order : ℕ
half_curve_order = curve_order / 2

abbrev pub der_sequence : ℕ
der_sequence = 0x30

abbrev pub der_integer : ℕ
der_integer = 0x02

abbrev v_offset : ℕ
v_offset = 27

-- An integer behind its tag: its length byte, and what remains
abbrev behind_tag : List ℕ → Result (ℕ × List ℕ)
behind_tag [] = err index_error
behind_tag (n ∷ body) = ok (big_endian 0 (take n body), drop n body)

-- `_read_der_integer`
unfoldable pub read_der_integer : List ℕ → Result (ℕ × List ℕ)
unfolding big_endian
read_der_integer [] = err value_error
read_der_integer (tag ∷ rest) =
    if not (eqb tag der_integer) then err value_error else behind_tag rest

abbrev with_second : ℕ → Result (ℕ × List ℕ) → Result (ℕ × ℕ)
with_second r (err e) = err e
with_second r (ok (s, remainder)) = ok (r, s)

abbrev with_first : Result (ℕ × List ℕ) → Result (ℕ × ℕ)
with_first (err e) = err e
with_first (ok (r, remainder)) = with_second r (read_der_integer remainder)

-- `_parse_der_signature`
unfoldable pub parse_der_signature : List ℕ → Result (ℕ × ℕ)
parse_der_signature [] = err value_error
parse_der_signature (tag ∷ rest) =
    if not (eqb tag der_sequence)
    then err value_error
    else with_first (read_der_integer (drop 1 rest))

-- `a - b`
abbrev difference : ℕ → ℕ → ℤ
difference a b = if leb b a then pos (a - b) else negsuc (b - a - 1)

-- `_normalise_s`
unfoldable pub normalise_s : ℕ → ℤ
normalise_s s = if leb s half_curve_order then pos s else difference curve_order s

-- `value.to_bytes(32, "big")`
unfoldable pub word_of : ℤ → Result (List ℕ)
word_of (negsuc n) = err overflow_error
word_of (pos n) = if ltb n (2 ^ 256) then ok (big_endian_bytes 32 n) else err overflow_error

abbrev joined : Result (List ℕ) → Result (List ℕ) → ℕ → Result String
joined (err e) s v = err e
joined (ok r) (err e) v = err e
joined (ok r) (ok s) v = ok ("0x" <> to_hex (r ++ (s ++ ((v + v_offset) ∷ []))))

-- `_to_hex`
unfoldable pub packed : ℕ → ℤ → ℕ → Result String
packed r s v = joined (word_of (pos r)) (word_of s) v

-- What comes of a candidate that was packed: the signature, or what the rest of the loop gives
abbrev pub tried : Option String → String → Result String → Result String → Result String
tried recovered expected_address (err e) rest = err e
tried none expected_address (ok signature) rest = rest
tried (some found) expected_address (ok signature) rest =
    if found == expected_address then ok signature else rest

abbrev text_of : Result String → String
text_of (ok s) = s
text_of (err e) = ""

module _ (lib : Libraries) where
  -- One round of the loop of `_pack`
  abbrev pub candidate : ℕ → ℤ → List ℕ → String → ℕ → Result String → Result String
  candidate r s digest expected_address v rest =
      let signature = packed r s v in
      tried (recover_address lib digest (text_of signature)) expected_address signature rest

  -- `_pack`
  unfoldable pub pack : ℕ → ℤ → List ℕ → String → Result String
  pack r s digest expected_address =
      candidate r s digest expected_address 0
        (candidate r s digest expected_address 1 (err value_error))

  abbrev pub signed_with : List ℕ → String → Result (ℕ × ℕ) → Result String
  signed_with digest address (err e) = err e
  signed_with digest address (ok (r, s)) = pack r (normalise_s s) digest address

  -- `sign`, where KMS has answered with the bytes of a signature
  unfoldable pub sign : List ℕ → String → List ℕ → Result String
  sign der address digest = signed_with digest address (parse_der_signature der)

  -- `address_from_public_key`
  unfoldable pub address_from_public_key : List ℕ → String
  address_from_public_key public_key_der =
      let hash = lib.keccak (drop (length public_key_der - 64) public_key_der) in
      "0x" <> to_hex (drop (length hash - 20) hash)
