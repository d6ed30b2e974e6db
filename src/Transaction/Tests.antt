-- ===== src/Transaction/Tests.antt =====
-- Transactions written and read back.
use mini_chain.Base.{◌≡◌, none, some}
use mini_chain.Base.Int.{pos}
use mini_chain.Transaction.{Transaction, to_dict}
use mini_chain.Transaction.Parse.{from_dict}
use mini_chain.Transaction.Roundtrip.{from_dict-to_dict}

abbrev payment : Transaction
payment = record {
  sender = "aa";
  receiver = some "bb";
  amount = pos 30;
  gas_limit = pos 2;
  fee_per_gas = pos 3;
  nonce = 0;
  payload = none;
  timestamp = 1716880000000;
  chain_id = "test";
  signature = some "aa";
}

from_dict-to_dict_example : from_dict 5 (to_dict payment) ≡ some payment
from_dict-to_dict_example = from_dict-to_dict 5 payment
