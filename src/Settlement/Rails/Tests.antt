-- ===== src/Settlement/Rails/Tests.antt =====
-- Runs of the two rails.
use cpfbuddies.Prelude.{ℕ, none, some, [], ◌∷◌, eqb, if◌then◌else◌}
use cpfbuddies.Errors.{ok}
use cpfbuddies.Settlement.Models.{SettlementInstruction}
use cpfbuddies.Settlement.Chain.Node.{returned, Node, Chain, Call}
use cpfbuddies.Settlement.Chain.Registry.{Client, send_call}
use cpfbuddies.Settlement.Chain.Registry.Broadcasts.{Sends, send_call-Sends}
use cpfbuddies.Settlement.Rails.Onchain
use cpfbuddies.Settlement.Rails.Onchain.{TokenClient, receipt}
use cpfbuddies.Settlement.Rails.Onchain.Settles.{Settles, settle-Settles}
use cpfbuddies.Settlement.Rails.Card
use cpfbuddies.Settlement.Rails.Card.{CardPorts, CardState}
use cpfbuddies.Settlement.Rails.Card.Signed.{Spends, settle-Spends}
use cpfbuddies.X402.PublicSpec.{PaymentRequirements}
use cpfbuddies.Samples.{
  toy, buyer, shop_address, mandate_1, charge_1, basket_1, five, issuer_address, issuer_signature,
}

abbrev instruction : SettlementInstruction
instruction = record {
  mandate_id = mandate_1;
  charge_id = charge_1;
  principal = buyer;
  merchant_id = "mrc_stub_sg";
  payout_address = shop_address;
  amount = five;
  basket_hash = basket_1;
  quote_id = "q_1";
  sku = "TB-SOFT-2PK";
  quantity = 1;
}

-- A card API that asks for the five dollars and settles them.
abbrev requirements : PaymentRequirements
requirements = record {
  scheme = "exact";
  network = "avalanche";
  amount = "5000000";
  asset = shop_address;
  pay_to = shop_address;
  chain_id = 43114;
  max_timeout_seconds = 300;
  extra = record { asset_transfer_method = "eip3009"; name = "XSGD"; version = "2" };
}

abbrev card : CardPorts
card = record {
  lib = toy;
  address = buyer;
  sign = λ digest. issuer_signature;
  cardholder_name = "CPF BUDDIES";
  post = λ n p. ok (record {
    status_code = if eqb n 0 then 402 else 200;
    requirements_header = none;
    content = "{}";
  });
  time = λ n. 1_000_000_000;
  random = λ n. charge_1;
  b64decode = λ header. none;
  parse = λ body. some (record { x402_version = 1; accepts = requirements ∷ []; error = none });
  signature_header = λ r a signature. signature;
  issued_tx = λ body. ok (some charge_1);
}

abbrev card_start : CardState
card_start = record { posts = []; signed = []; reads = 0 }

settle-Spends_example : Spends card instruction card_start (Card.settle card instruction card_start)
settle-Spends_example = settle-Spends card instruction card_start

-- A node that mines what it is sent.
abbrev node : Node
node = record {
  base_fee = λ n. returned (some 25_000_000_000);
  max_priority_fee = λ n. returned 1;
  transaction_count = λ n account. returned 7;
  estimate_gas = λ n call. returned 120_000;
  call = λ n call at. returned tt;
  send_raw = λ n tx. returned charge_1;
  wait = λ n tx_hash. returned (record { status = 1; block_number = 9; gas_used = 100_000 });
  to_checksum_address = λ address. address;
  encode_abi = λ call. 1 ∷ 2 ∷ 3 ∷ [];
  transaction_hash = λ tx. 4 ∷ [];
}

abbrev client : Client
client = record {
  node = node;
  signer = record { address = issuer_address; sign = λ digest. issuer_signature };
  mandate_registry = shop_address;
  chain_id = 43113;
  selectors = [];
}

abbrev chain_start : Chain
chain_start = record { asked = 0; sent = [] }

abbrev token : ℕ → TokenClient
token balance = record {
  balance_of = λ n account. returned balance;
  allowance = λ n owner spender. returned 9_000_000;
}

send_call-Sends_example :
    Sends client
      (Call.revoke (1 ∷ []))
      chain_start
      (send_call client (Call.revoke (1 ∷ [])) chain_start)
send_call-Sends_example = send_call-Sends client (Call.revoke (1 ∷ [])) chain_start

settle-Settles_example :
    Settles client 43113
      (some (token 6_000_000))
      instruction
      chain_start
      (Onchain.settle client 43113 (some (token 6_000_000)) instruction chain_start)
settle-Settles_example =
    settle-Settles client 43113 (some (token 6_000_000)) instruction chain_start
