-- ===== src/Persistence/Tests.antt =====
-- A stored chain of two blocks, loaded, and a third block that comes after the restart.
use mini_chain.Base.{List}
use mini_chain.Persistence.Peers.{PeerRow, get_known_peers, newest_first, insert_newest}
use mini_chain.Base.{◌^◌, ◌≡◌, ◌≢◌, refl, none, some, [], ◌∷◌, str_dec, arith}
use mini_chain.Base.Int.{ℤ, pos, ltb_ℤ, ◌-ℤ◌}
use mini_chain.Base.Text.{decimal, hex, int16}
use mini_chain.Json.{obj, end}
use mini_chain.Transaction.{valid, invalid}
use mini_chain.Demo.{demo, demo_hash, checksum}
use mini_chain.State.Accounts.{Accounts}
use mini_chain.Block.{Block, compute_hash, to_header_dict}
use mini_chain.Chain.{Float}
use mini_chain.Chain.Link.{validate_block_link_and_hash, misses_target, check_work, target_in_range}
use mini_chain.Chain.Apply.{apply_block, after_link}
use mini_chain.Chain.Blockchain.{Blockchain, add_block, commit}
use mini_chain.Persistence.{save, load, verify_chain_integrity}
use mini_chain.Persistence.Restart.{loaded_target_lost}
use mini_chain.Persistence.Rows.{Database, save_chain, load_chain}
use mini_chain.Persistence.Stored.{load_chain-save_chain}
use mini_chain.Base.{String}
use mini_chain.Base.Dict.{lookup}
use mini_chain.Block.Roundtrip.{IsSendable}
use mini_chain.Block.{calculate_merkle_root, calculate_receipt_root}

instance abbrev whole : Float ℤ
whole = record { of_int = pos; ema = λ alpha dt avg. pos dt; truncate = λ avg. avg }

abbrev alone : Accounts
alone = ("aa", record { balance = pos 1000; nonce = 0; code = none; storage = obj end }) ∷ []

abbrev sealed : Block → Block
sealed b = record b { hash = some (compute_hash b) }

abbrev genesis : Block
genesis = sealed (record {
  index = 0;
  previous_hash = "0";
  target = 2 ^ 200;
  transactions = [];
  receipts = [];
  timestamp = 100;
  nonce = 0;
  hash = none;
  state_root = none;
  receipt_root = none;
  merkle_root = none;
  miner = none;
})

abbrev second : Block
second =
    sealed (record genesis { index = 1; previous_hash = compute_hash genesis; timestamp = 110 })

-- Its target has been adjusted.
abbrev third : Block
third = sealed (record genesis {
  index = 2;
  previous_hash = compute_hash second;
  timestamp = 120;
  target = 2 ^ 199;
})

abbrev fresh : Blockchain ℤ
fresh = record {
  chain = genesis ∷ [];
  state = record { accounts = []; chain_id = "test" };
  chain_id = "test";
  tuning = record { target_block_time = 10; alpha = pos 0 };
  current_target = 2 ^ 200;
  avg_block_time = pos 10;
  state_snapshots = (genesis.hash, []) ∷ [];
  genesis_state = [];
}

abbrev before : Blockchain ℤ
before = record fresh {
  chain = genesis ∷ second ∷ [];
  state = record { accounts = alone; chain_id = "test" };
  current_target = 2 ^ 199;
}

abbrev loaded : Blockchain ℤ
loaded = record before { current_target = 2 ^ 200 }

run_time : Unit {0}
unfolding str_dec ltb_ℤ ◌-ℤ◌ decimal hex int16 demo_hash checksum compute_hash to_header_dict
    validate_block_link_and_hash misses_target check_work target_in_range apply_block after_link
    add_block commit load verify_chain_integrity
run_time = tt

loaded_back : load 500 fresh (save before) ≡ some loaded
unfolding run_time
loaded_back = refl

third_refused : add_block 500 third loaded ≡ some (invalid, loaded)
unfolding run_time
third_refused = refl

is_sendable :
    (b : Block)
    → b.target ≡ 2 ^ 200
    → b.timestamp ≢ 0
    → b.transactions ≡ []
    → b.merkle_root ≡ none
    → b.receipts ≡ []
    → b.receipt_root ≡ none
    → b.hash ≡ some (compute_hash b)
    → IsSendable b
unfolding calculate_merkle_root calculate_receipt_root
is_sendable b e dated txs merkle rs receipt sealed = record {
  target_positive = omega (arith, e);
  target_bounded = omega (arith, e);
  dated = dated;
  transactions_dated = rw txs tt;
  merkle_root = rw (merkle, txs) refl;
  receipt_root = rw (receipt, rs) refl;
  sealed = sealed;
}

load_chain-save_chain_example :
    (db : Database) × (bc : Blockchain ℤ) × (save_chain before ≡ some db)
    × (load_chain 500 fresh db ≡ some bc)
    × (bc.chain ≡ before.chain)
    × ((a : String) → lookup a bc.state.accounts ≡ lookup a before.state.accounts)
unfolding compute_hash to_header_dict
load_chain-save_chain_example = load_chain-save_chain 500 fresh before (unfold run_time in refl) (
  is_sendable genesis refl (λ e. absurd (omega (arith, e))) refl refl refl refl refl,
  (is_sendable second refl (λ e. absurd (omega (arith, e))) refl refl refl refl refl, tt),
)

loaded_target_lost_example : (invalid ≢ valid) × (loaded ≡ loaded)
loaded_target_lost_example =
    loaded_target_lost 500 500 fresh loaded loaded (save before) third invalid loaded_back
      (λ e. absurd (omega (arith, e))) third_refused

abbrev peer_rows : List PeerRow
peer_rows =
    record { peer_id = "pp"; text = "/p2p/pp"; time = 3 }
    ∷ record { peer_id = "qq"; text = "/p2p/qq"; time = 8 }
    ∷ []

newest_alone :
    get_known_peers 1 peer_rows ≡ record { peer_id = "qq"; text = "/p2p/qq"; time = 8 } ∷ []
unfolding get_known_peers newest_first insert_newest
newest_alone = refl
