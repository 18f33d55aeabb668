-- ===== src/X402/Tests.antt =====
-- A run of the x402 client against a merchant that asks for the charge's amount.
use cpfbuddies.Prelude.{[], eqb, if◌then◌else◌, some}
use cpfbuddies.Errors.{ok}
use cpfbuddies.X402.Terms.{PaymentTerms, PaymentProof, own_scheme}
use cpfbuddies.X402.Client.{ClientPorts, Exchange, purchase}
use cpfbuddies.X402.Client.Payments.{Fair, purchase-Fair}
use cpfbuddies.Samples.{charge, shop_address, basket_1, four_twenty, mandate_1, buyer, charge_1}

abbrev terms : PaymentTerms
terms = record {
  scheme = own_scheme;
  network = "avalanche-fuji";
  chain_id = 43113;
  asset = shop_address;
  pay_to = shop_address;
  amount = four_twenty;
  basket_hash = basket_1;
  quote_id = "q_1";
  expires_at = 2_000_000_000;
  nonce = "n";
}

abbrev proof : PaymentProof
proof = record {
  scheme = own_scheme;
  quote_id = "q_1";
  basket_hash = basket_1;
  mandate_id = mandate_1;
  amount = four_twenty;
  payer = buyer;
  reference = charge_1;
  settled_at = 1_000_000_000;
}

abbrev ports : ClientPorts
ports = record {
  post = λ n p. ok (record { status_code = if eqb n 0 then 402 else 200; content = "{}" });
  parse_terms = λ body. some terms;
  pay = λ n t. ok proof;
  time = λ n. 1_000_000_000;
}

abbrev start : Exchange
start = record { posts = []; payments = [] }

purchase-Fair_example : Fair ports 2 charge start (purchase ports "/purchase" "{}" charge start)
purchase-Fair_example = purchase-Fair ports "/purchase" "{}" charge start
