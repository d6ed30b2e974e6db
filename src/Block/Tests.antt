-- ===== src/Block/Tests.antt =====
-- The theorems on Merkle trees at concrete hashes.
use mini_chain.Base.{str_dec, String, ◌≡◌, refl, none, some, List, [], ◌∷◌}
use mini_chain.Base.Int.{pos}
use mini_chain.Base.Text.{decimal, hex, int16}
use mini_chain.Json.{null, num, str, arr, obj, nil, cons, Fields, end, field, opt_str}
use mini_chain.Transaction.{Transaction, to_dict, tx_id}
use mini_chain.Transaction.Parse.{get, from_dict, transaction_of, normalize_ts}
use mini_chain.Demo.{demo, demo_hash}
use mini_chain.Block.{
  Block, merkle_loop, calculate_merkle_tree, calculate_merkle_root, calculate_receipt_root,
  header_fields, to_header_dict, compute_hash,
}
use mini_chain.Block.Parse.{
  read_all, read_list, target_of, block_of, contradicts, check_block, block_from_dict,
  canonical_payload, block_to_dict,
}
use mini_chain.Block.Sound.{Built, Checked, block_from_dict-IsChecked}
use mini_chain.Base.{arith}
use mini_chain.Block.Roundtrip.{IsSendable, block_from_dict-block_to_dict}
use mini_chain.Block.Merkle.{calculate_merkle_tree-some, calculate_merkle_tree-repeated}

abbrev three : List String
three = "aa" ∷ "bb" ∷ "cc" ∷ []

calculate_merkle_tree-some_example : (root : String) × (calculate_merkle_tree three ≡ some root)
calculate_merkle_tree-some_example = calculate_merkle_tree-some three (λ e. cc)

calculate_merkle_tree-repeated_example :
    calculate_merkle_tree three ≡ calculate_merkle_tree ("aa" ∷ "bb" ∷ "cc" ∷ "cc" ∷ [])
calculate_merkle_tree-repeated_example = calculate_merkle_tree-repeated 1 "aa" "cc" ("bb" ∷ []) refl

abbrev payment : Transaction
payment = record {
  sender = "aa";
  receiver = some "bb";
  amount = pos 30;
  gas_limit = pos 2;
  fee_per_gas = pos 3;
  nonce = 0;
  payload = none;
  timestamp = 1716880000000;
  chain_id = "test";
  signature = some "aa";
}

abbrev sealed : Block
sealed = record {
  index = 1;
  previous_hash = "00";
  target = 4096;
  transactions = payment ∷ [];
  receipts = [];
  timestamp = 1716880000000;
  nonce = 3;
  hash = some "6751";
  state_root = some "1234";
  receipt_root = none;
  merkle_root = some (tx_id payment);
  miner = some "aa";
}

abbrev sealed_fields : Fields
sealed_fields = field "index" (num (pos 1)) (
    field "previous_hash" (str "00") (
      field "merkle_root" (opt_str sealed.merkle_root) (
        field "state_root" (str "1234") (
          field "receipt_root" null (
            field "timestamp" (num (pos 1716880000000)) (
              field "target" (str "0x1000") (
                field "nonce" (num (pos 3)) (
                  field "miner" (str "aa") (
                    field "transactions" (arr (cons (to_dict payment) nil))
                      (field "receipts" (arr nil) (field "hash" (str "6751") end)))))))))))

sealed_read : block_from_dict 5 (obj sealed_fields) ≡ some sealed
unfolding block_from_dict block_of check_block contradicts read_list read_all target_of get
    from_dict transaction_of compute_hash to_header_dict header_fields to_dict demo_hash hex int16
    calculate_merkle_root calculate_merkle_tree merkle_loop calculate_receipt_root tx_id
    normalize_ts str_dec decimal
sealed_read = refl

block_from_dict-IsChecked_example : Built sealed_fields sealed × Checked sealed_fields sealed
block_from_dict-IsChecked_example = block_from_dict-IsChecked 5 sealed_fields sealed sealed_read

sealed_sent : canonical_payload sealed ≡ some (block_to_dict sealed)
unfolding canonical_payload compute_hash to_header_dict header_fields to_dict tx_id demo_hash hex
    str_dec decimal
sealed_sent = refl

sealed-IsSendable : IsSendable sealed
unfolding calculate_merkle_root calculate_merkle_tree merkle_loop calculate_receipt_root
    compute_hash to_header_dict header_fields to_dict tx_id demo_hash hex str_dec decimal
sealed-IsSendable = record {
  target_positive = omega arith;
  target_bounded = omega arith;
  dated = λ e. absurd (omega (arith, e));
  transactions_dated = (omega arith, tt);
  merkle_root = refl;
  receipt_root = refl;
  sealed = refl;
}

block_from_dict-block_to_dict_example : block_from_dict 5 (block_to_dict sealed) ≡ some sealed
block_from_dict-block_to_dict_example = block_from_dict-block_to_dict 5 sealed sealed-IsSendable
