-- ===== src/Demo/Nodes.antt =====
-- A chain with a genesis block, and a node with two pending transactions, for the tests.
use mini_chain.Base.{◌^◌, String, none, some, [], ◌∷◌}
use mini_chain.Base.Int.{ℤ, pos}
use mini_chain.Transaction.{Transaction}
use mini_chain.Transaction.Sign.{Signer}
use mini_chain.Json.{obj, end}
use mini_chain.State.Accounts.{Accounts}
use mini_chain.Block.{Block}
use mini_chain.Chain.{Float}
use mini_chain.Node.{Node}

instance abbrev pub whole : Float ℤ
whole = record { of_int = pos; ema = λ alpha dt avg. pos dt; truncate = λ avg. avg }

-- A key is its address, and signs with it.
instance abbrev pub named : Signer String
named = record { address_of = λ k. k; signature_of = λ k j. k; read_key = some }

abbrev pub alone : Accounts
alone = ("aa", record { balance = pos 1000; nonce = 0; code = none; storage = obj end }) ∷ []

abbrev pub payment : Transaction
payment = record {
  sender = "aa";
  receiver = some "bb";
  amount = pos 30;
  gas_limit = pos 2;
  fee_per_gas = pos 3;
  nonce = 0;
  payload = none;
  timestamp = 5;
  chain_id = "test";
  signature = some "aa";
}

abbrev pub genesis : Block
genesis = record {
  index = 0;
  previous_hash = "0";
  target = 2 ^ 200;
  transactions = [];
  receipts = [];
  timestamp = 100;
  nonce = 0;
  hash = some "77";
  state_root = none;
  receipt_root = none;
  merkle_root = none;
  miner = none;
}

abbrev pub node_0 : Node ℤ
node_0 = record {
  chain = record {
    chain = genesis ∷ [];
    state = record { accounts = alone; chain_id = "test" };
    chain_id = "test";
    tuning = record { target_block_time = 10; alpha = pos 0 };
    current_target = 2 ^ 200;
    avg_block_time = pos 10;
    state_snapshots = (some "77", alone) ∷ [];
    genesis_state = alone;
  };
  mempool = record {
    queue = payment ∷ record payment { nonce = 7; timestamp = 6 } ∷ [];
    max_size = 4;
    transactions_per_block = 2;
  };
}
