-- ===== src/Signing/Eip712.antt =====
-- src/trustrail/signing/eip712.py: the mandate's digest as EIP-712 typed data.
use Prim.Native.String.{String, ◌++◌ as ◌<>◌}
use cpfbuddies.Prelude.{ℕ, zero, suc, ◌/◌, ◌%◌, ◌^◌, Option, none, some, List, [], ◌∷◌, ◌++◌}
use cpfbuddies.Prelude.Text.{encode}
use cpfbuddies.Models.Money.{Currency, xsgd, sgd, usd, minor_units}
use cpfbuddies.Models.Mandate.{Mandate}
use cpfbuddies.Models.Config.{Domain}
use cpfbuddies.Signing.Libraries.{Libraries}
use cpfbuddies.Signing.Crypto.{to_bytes, hash_bytes}

abbrev pub zero_address : String
zero_address = "0x0000000000000000000000000000000000000000"

abbrev pub zero_hash : String
zero_hash = "0x0000000000000000000000000000000000000000000000000000000000000000"

abbrev domain_type : String
domain_type =
    "EIP712Domain(string name,string version,uint256 chainId," <> "address verifyingContract)"

abbrev mandate_type : String
mandate_type =
    "Mandate(bytes32 mandateId,address principal,string agentId,"
    <> "uint256 maxAmount,string currency,uint64 expiresAt,string intent,"
    <> "address merchantAddress,bytes32 basketHash,bytes32 nonce)"

-- The value of the string enum.
abbrev currency_text : Currency → String
currency_text xsgd = "XSGD"
currency_text sgd = "SGD"
currency_text usd = "USD"

-- `value.to_bytes(n, "big")`, for a value that fits `n` bytes.
unfoldable pub big_endian_bytes : ℕ → ℕ → List ℕ
big_endian_bytes zero value = []
big_endian_bytes (suc n) value = (value / 256 ^ n) % 256 ∷ big_endian_bytes n value

-- `bytes(n)`
zeros : ℕ → List ℕ
zeros zero = []
zeros (suc n) = 0 ∷ zeros n

-- `value or default`, for texts that the models keep from being empty
abbrev or_else : Option String → String → String
or_else none default = default
or_else (some value) default = value

-- A `uint256` word. Python raises above `2 ** 256 - 1`; `Money` keeps amounts below that, and so
-- does every date.
unfoldable pub encode_uint : ℕ → List ℕ
encode_uint = big_endian_bytes 32

unfoldable pub encode_address : String → List ℕ
unfolding zeros
encode_address value = zeros 12 ++ to_bytes value

unfoldable pub encode_bytes32 : String → List ℕ
encode_bytes32 value = to_bytes value

-- `b"".join(words)`
join : List (List ℕ) → List ℕ
join [] = []
join (w ∷ ws) = w ++ join ws

module _ (lib : Libraries) where
  unfoldable pub keccak_words : List (List ℕ) → List ℕ
  unfolding join
  keccak_words words = to_bytes (hash_bytes lib (join words))

  unfoldable pub encode_string : String → List ℕ
  encode_string value = to_bytes (hash_bytes lib (encode value))

  unfoldable pub separator : Domain → List ℕ
  separator d = keccak_words (
      encode_string domain_type
      ∷ encode_string d.name
      ∷ encode_string d.version
      ∷ encode_uint d.chain_id
      ∷ encode_address d.verifying_contract
      ∷ [])

  -- `int(timestamp())` drops the microseconds.
  unfoldable pub mandate_digest : Mandate → Domain → String
  mandate_digest m d =
      let struct_hash = keccak_words (
        encode_string mandate_type
        ∷ encode_bytes32 m.mandate_id
        ∷ encode_address m.principal
        ∷ encode_string m.agent_id
        ∷ encode_uint (minor_units m.max_amount)
        ∷ encode_string (currency_text m.max_amount.currency)
        ∷ encode_uint (m.expires_at / 1_000_000)
        ∷ encode_string m.intent
        ∷ encode_address (or_else m.merchant_address zero_address)
        ∷ encode_bytes32 (or_else m.basket_hash zero_hash)
        ∷ encode_bytes32 m.nonce
        ∷ []) in
      hash_bytes lib (0x19 ∷ 0x01 ∷ separator d ++ struct_hash)
