-- ===== src/Chain/Tests.antt =====
-- A chain with a genesis block and one mined block, and each theorem at a concrete input.
use mini_chain.Base.{
  ℕ, ◌^◌, ◌≡◌, ◌≢◌, ◌⊎◌, refl, true, false, none, some, List, [], ◌∷◌, ◌++◌, str_dec,
}
use mini_chain.Base.Int.{ℤ, pos, ◌+ℤ◌, ◌-ℤ◌, ◌*ℤ◌, ltb_ℤ}
use mini_chain.Base.Dict.{lookup, insert}
use mini_chain.Base.Text.{decimal, hex, hex_digit, int16, from_hex}
use mini_chain.Json.{obj, end, nil}
use mini_chain.Json.Equal.{items_eq}
use mini_chain.Transaction.{Transaction, Receipt, tx_id, to_dict, receipt_to_dict, verify, valid}
use mini_chain.Demo.{demo, demo_hash, checksum}
use mini_chain.Demo.Nodes.{whole, alone, payment, genesis}
use mini_chain.State.Accounts.{
  Accounts, account_of, get_account, credit, debit, charge, has_code, create_contract,
  derive_contract_address, is_blank, state_root, credit_mining_reward,
}
use mini_chain.State.Apply.{
  State, total_cost, amounts_well_formed, refund_gas, code_gas, deploy, finish_call,
  apply_validated_tx, verify_transaction_logic, validate_and_apply_with_status,
}
use mini_chain.State.Supply.{total}
use mini_chain.Block.{Block, compute_hash, to_header_dict, calculate_receipt_root}
use mini_chain.Chain.Link.{validate_block_link_and_hash, misses_target, check_work, target_in_range}
use mini_chain.Chain.Apply.{
  Step, apply_block, apply_txs, reward, next_target, after_txs, check_receipts, check_roots,
  receipts_eq, after_link,
}
use mini_chain.Chain.Blockchain.{
  Blockchain, commit, adopt_status, from_known, fast_pow, add_block, resolve_conflicts,
  get_total_work, orphans, push_snapshot, connects, rebuild, replay, replay_from_genesis,
  fork_snapshot, find_snapshot, fast_forward, fast_pow, from_known,
}
use mini_chain.Chain.Commits.{Seals, apply_block-valid}
use mini_chain.Chain.Growth.{IsLinked, add_block-Outcome}
use mini_chain.Chain.Reorg.{resolve_conflicts-IsLinked}
use mini_chain.Chain.Adoption.{Adopts, resolve_conflicts-Outcome}

abbrev pub payment_receipt : Receipt
payment_receipt = record {
  tx_hash = tx_id payment;
  status = 1;
  gas_used = pos 2;
  error_message = "";
  logs = nil;
  contract_address = "";
}

abbrev pub unsealed : Block
unsealed = record genesis {
  index = 1;
  previous_hash = "77";
  transactions = payment ∷ [];
  receipts = payment_receipt ∷ [];
  timestamp = 110;
  state_root = some "3";
  receipt_root = calculate_receipt_root (payment_receipt ∷ []);
  miner = some "ee";
}

abbrev mined : Block
mined = record unsealed { hash = some (compute_hash unsealed) }

abbrev chain_0 : Blockchain ℤ
chain_0 = record {
  chain = genesis ∷ [];
  state = record { accounts = alone; chain_id = "test" };
  chain_id = "test";
  tuning = record { target_block_time = 10; alpha = pos 0 };
  current_target = 2 ^ 200;
  avg_block_time = pos 10;
  state_snapshots = (some "77", alone) ∷ [];
  genesis_state = alone;
}

-- What a run computes with.
unfoldable pub run_time : Unit {0}
unfolding str_dec ltb_ℤ ◌+ℤ◌ ◌-ℤ◌ ◌*ℤ◌ lookup insert decimal hex hex_digit int16 from_hex demo_hash
    checksum verify tx_id account_of get_account credit debit charge has_code create_contract
    derive_contract_address total_cost state_root amounts_well_formed refund_gas code_gas deploy
    finish_call apply_validated_tx verify_transaction_logic validate_and_apply_with_status
    compute_hash calculate_receipt_root apply_block add_block resolve_conflicts reward
    credit_mining_reward next_target apply_txs misses_target check_work target_in_range
    validate_block_link_and_hash get_total_work orphans push_snapshot connects rebuild replay
    replay_from_genesis fork_snapshot find_snapshot fast_forward fast_pow IsLinked from_known
    after_txs check_receipts check_roots receipts_eq items_eq is_blank commit adopt_status
    after_link to_header_dict receipt_to_dict to_dict
run_time = tt

abbrev pub after_mined : Accounts
after_mined =
    ("aa", record { balance = pos 964; nonce = 1; code = none; storage = obj end })
    ∷ ("bb", record { balance = pos 30; nonce = 0; code = none; storage = obj end })
    ∷ ("ee", record { balance = pos 56; nonce = 0; code = none; storage = obj end })
    ∷ []

abbrev grown : Blockchain ℤ
grown = record chain_0 {
  chain = genesis ∷ mined ∷ [];
  state = record { accounts = after_mined; chain_id = "test" };
  state_snapshots = (some "77", alone) ∷ (mined.hash, after_mined) ∷ [];
}

mined_added : add_block 500 mined chain_0 ≡ some (valid, grown)
unfolding run_time
mined_added = refl

mined_taken : resolve_conflicts 500 (mined ∷ []) chain_0 ≡ some ((true, []), grown)
unfolding run_time
mined_taken = refl

add_block-Outcome_example :
    ((valid ≢ valid) × (grown ≡ chain_0))
    ⊎ ((valid ≡ valid)
        × (grown.chain ≡ chain_0.chain ++ mined ∷ [])
        × (mined.state_root ≡ state_root after_mined)
        × (mined.target ≡ chain_0.current_target)
        × (total after_mined ≡ total alone +ℤ pos 50))
unfolding str_dec
add_block-Outcome_example = add_block-Outcome 500 mined chain_0 grown valid mined_added

resolve_conflicts-Outcome_example :
    ((true ≡ false) × (◌≡◌ {A = List Transaction} [] []) × (grown ≡ chain_0))
    ⊎ ((true ≡ true) × ((fork_idx : ℕ) × Adopts fork_idx (mined ∷ []) chain_0 grown []))
resolve_conflicts-Outcome_example =
    resolve_conflicts-Outcome 500 (mined ∷ []) chain_0 grown true [] mined_taken

resolve_conflicts-IsLinked_example : IsLinked grown.chain
resolve_conflicts-IsLinked_example =
    resolve_conflicts-IsLinked 500 (mined ∷ []) chain_0 grown true [] (unfold run_time in tt)
      mined_taken

-- A genesis block that is not mined, in front of a whole chain.
abbrev unmined : Block
unmined = record genesis { hash = some "FF"; target = 16 }

abbrev step_1 : Step ℤ
step_1 = record {
  status = valid;
  target = 2 ^ 200;
  avg = pos 10;
  state = record { accounts = after_mined; chain_id = "test" };
}

mined_applies :
    apply_block chain_0.tuning genesis mined 500 chain_0.state (2 ^ 200) (pos 10) ≡ some step_1
unfolding run_time
mined_applies = refl

apply_block-valid_example :
    (validate_block_link_and_hash genesis mined 500 ≡ none)
    × (mined.target ≡ 2 ^ 200)
    × ((rs : List Receipt) × (mid : State) × (apply_txs (payment ∷ []) chain_0.state
          ≡ some (valid, rs, mid))
        × (step_1.state ≡ reward mined rs mid)
        × Seals chain_0.tuning genesis mined rs (2 ^ 200) (pos 10) step_1)
apply_block-valid_example =
    apply_block-valid chain_0.tuning genesis mined 500 chain_0.state (2 ^ 200) (pos 10) step_1
      mined_applies refl
