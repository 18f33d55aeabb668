-- ===== src/Settlement/Chain/Explorer.antt =====
-- src/trustrail/settlement/chain/explorer.py, and `_hex` of src/trustrail/settlement/chain/registrar.py
use Prim.Native.String.{slice}
use cpfbuddies.Prelude.{ℕ, String, ◌<>◌, ◌==◌, Option, none, some, eqb, if◌then◌else◌}

-- `tx_hash if tx_hash.startswith("0x") else f"0x{tx_hash}"`
unfoldable pub hex_prefixed : String → String
hex_prefixed tx_hash = if slice tx_hash 0 2 == "0x" then tx_hash else "0x" <> tx_hash

-- `_EXPLORERS`
abbrev explorers : ℕ → Option String
explorers chain_id =
    if eqb chain_id 43114
    then some "https://snowtrace.io"
    else if eqb chain_id 43113
    then some "https://testnet.snowtrace.io"
    else none

unfoldable pub transaction_url : ℕ → String → Option String
transaction_url chain_id tx_hash = elim (explorers chain_id) [
  | none ↦ none
  | some base ↦ some (base <> "/tx/" <> hex_prefixed tx_hash)
]
