-- ===== src/Signing/Eip3009.antt =====
-- src/trustrail/signing/eip3009.py: a signed permission to move tokens.
use cpfbuddies.Prelude.{
  ℕ, ◌+◌, ◌/◌, ◌^◌, String, ◌<>◌, ◌==◌, List, [], ◌∷◌, ◌++◌, ltb, if◌then◌else◌,
}
use cpfbuddies.Prelude.Integers.{ℤ, pos, negsuc}
use cpfbuddies.Prelude.Text.{lower}
use cpfbuddies.Errors.{Result, ok, err, value_error, overflow_error}
use cpfbuddies.Models.Config.{Domain}
use cpfbuddies.Models.Mandate.{Timestamp}
use cpfbuddies.Signing.Libraries.{Libraries}
use cpfbuddies.Signing.Crypto.{hash_bytes, to_bytes}
use cpfbuddies.Signing.Eip712.{
  encode_string, encode_uint, encode_address, encode_bytes32, keccak_words, separator,
}

abbrev transfer_with_authorization_type : String
transfer_with_authorization_type =
    "TransferWithAuthorization(address from,address to,uint256 value,"
    <> "uint256 validAfter,uint256 validBefore,bytes32 nonce)"

-- `DEFAULT_VALIDITY`, five minutes
abbrev pub default_validity : Timestamp
default_validity = 300_000_000

pub record TransferAuthorization : Type 0 where
  pub from_address : String
  pub to : String
  pub value : ℤ
  pub valid_after : ℕ
  pub valid_before : ℕ
  pub nonce : String

-- `TransferAuthorization.create`, with the nonce that `new_hex32` draws
unfoldable pub create_authorization :
    String → String → ℤ → Timestamp → String → TransferAuthorization
create_authorization from_address to value now nonce = record {
  from_address = lower from_address;
  to = lower to;
  value = value;
  valid_after = 0;
  valid_before = (now + default_validity) / 1_000_000;
  nonce = nonce;
}

-- `encode_uint` where the value may be any integer: `to_bytes` raises outside a `uint256`.
abbrev uint_word : ℤ → Result (List ℕ)
uint_word (pos n) = if ltb n (2 ^ 256) then ok (encode_uint n) else err overflow_error
uint_word (negsuc n) = err overflow_error

module _ (lib : Libraries) where
  -- `TransferAuthorization.digest`
  unfoldable pub authorization_digest : TransferAuthorization → Domain → Result String
  authorization_digest a domain = elim (uint_word a.value) [
    | err e ↦ err e
    | ok word ↦
        let struct_hash = keccak_words lib (
          encode_string lib transfer_with_authorization_type
          ∷ encode_address a.from_address
          ∷ encode_address a.to
          ∷ word
          ∷ encode_uint a.valid_after
          ∷ encode_uint a.valid_before
          ∷ encode_bytes32 a.nonce
          ∷ []) in
        ok (hash_bytes lib (0x19 ∷ 0x01 ∷ separator lib domain ++ struct_hash))
  ]

  -- `sign_authorization`, by a signer that is an address and a function of the digest
  unfoldable pub sign_authorization :
      TransferAuthorization → Domain → String → (List ℕ → String) → Result String
  sign_authorization a domain address sign =
      if lower a.from_address == lower address
      then elim (authorization_digest a domain) [
        | ok digest ↦ ok (sign (to_bytes digest))
        | err e ↦ err e
      ]
      else err value_error
