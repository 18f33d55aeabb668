-- ===== src/Signing/Crypto.antt =====
-- src/trustrail/signing/crypto.py, and `to_bytes` of src/trustrail/models/primitives.py.
use Prim.Native.Char.{code}
use Prim.Native.String.{String, ◌++◌ as ◌<>◌}
use cpfbuddies.Prelude.{
  ℕ, zero, suc, ◌+◌, ◌-◌, ◌*◌, Bool, false, ◌&&◌, Option, none, some, List, [], ◌∷◌, ◌==◌, eqb, leb,
  length, if◌then◌else◌,
}
use cpfbuddies.Prelude.Text.{lower, from_hex, to_hex}
use cpfbuddies.Signing.Libraries.{Libraries}

-- `value.removeprefix("0x")`
remove_0x : String → String
remove_0x (String.◌∷◌ c (String.◌∷◌ d s)) =
    if eqb (code c) b'0' && eqb (code d) b'x' then s else String.◌∷◌ c (String.◌∷◌ d s)
remove_0x s = s

unfoldable pub to_bytes : String → List ℕ
unfolding remove_0x
to_bytes value = from_hex (remove_0x value)

-- `raw[:n]` and `raw[n:]`
abbrev pub take : ℕ → List ℕ → List ℕ
take zero bs = []
take (suc n) [] = []
take (suc n) (b ∷ bs) = b ∷ take n bs

abbrev pub drop : ℕ → List ℕ → List ℕ
drop zero bs = bs
drop (suc n) [] = []
drop (suc n) (b ∷ bs) = drop n bs

-- `int.from_bytes(bs, "big")`
unfoldable pub big_endian : ℕ → List ℕ → ℕ
big_endian acc [] = acc
big_endian acc (b ∷ bs) = big_endian (acc * 256 + b) bs

-- `raw[64]` of 65 bytes
abbrev pub last_byte : List ℕ → ℕ
last_byte [] = 0
last_byte (b ∷ bs) = b

-- `raw[64] - _V_OFFSET if raw[64] >= _V_OFFSET else raw[64]`
abbrev pub recovery_id : ℕ → ℕ
recovery_id b = if leb 27 b then b - 27 else b

abbrev pub same_address : Option String → String → Bool
same_address none expected = false
same_address (some found) expected = found == expected

module _ (lib : Libraries) where
  unfoldable pub hash_bytes : List ℕ → String
  hash_bytes data_bytes = "0x" <> to_hex (lib.keccak data_bytes)

  unfoldable pub recover_address : List ℕ → String → Option String
  unfolding big_endian
  recover_address digest signature =
      let raw = to_bytes signature in
      let v = recovery_id (last_byte (drop 64 raw)) in
      if eqb (length raw) 65 && leb v 1
      then lib.recover v (big_endian 0 (take 32 raw)) (big_endian 0 (take 32 (drop 32 raw))) digest
      else none

  unfoldable pub signed_by : List ℕ → String → String → Bool
  signed_by digest signature expected_address =
      same_address (recover_address digest signature) (lower expected_address)
