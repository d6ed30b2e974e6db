-- ===== src/Pow/Tests.antt =====
-- Mining on a platform where every hash is 5.
use mini_chain.Base.{◌≡◌, refl, true, false, none, some, [], arith}
use mini_chain.Base.Int.{pos, ltb_ℤ}
use mini_chain.Base.Text.{int16}
use mini_chain.Json.{obj, end}
use mini_chain.Platform.{Platform, finish}
use mini_chain.Block.{Block, compute_hash}
use mini_chain.Chain.Links.{HasWork}
use mini_chain.Pow.{Mined, found, Watch, mine_loop, mine_block}
use mini_chain.Pow.Found.{IsMined, Undisturbed, mine_block-IsMined, mine_block-finds}

instance abbrev five : Platform
five = record {
  canonical_json_hash = λ j. "5";
  sha256_hex = λ s. "5";
  verify_signature = λ s j sig. true;
  trie_root = λ es. "5";
  json_dumps = λ j. "{}";
  storage_bytes = λ j. some 2;
  parse_ast = λ code. some [];
  exec = λ code storage sender value payload. finish (obj end);
}

abbrev idle : Watch
idle = record { timed_out = λ n. false; should_stop = λ n h. false }

abbrev block : Block
block = record {
  index = 1;
  previous_hash = "5";
  target = 9;
  transactions = [];
  receipts = [];
  timestamp = 110;
  nonce = 0;
  hash = none;
  state_root = none;
  receipt_root = none;
  merkle_root = none;
  miner = none;
}

run_time : Unit {0}
unfolding mine_block mine_loop compute_hash int16 ltb_ℤ HasWork
run_time = tt

block_found : mine_block idle block 9 40 3 ≡ found (record block { nonce = 40; hash = some "5" })
unfolding run_time
block_found = refl

out_of_nonces : mine_block idle block 5 40 3 ≡ Mined.max_nonce_exceeded
unfolding run_time
out_of_nonces = refl

mine_block-IsMined_example : IsMined block 40 43 (mine_block idle block 9 40 3)
mine_block-IsMined_example = mine_block-IsMined idle block 9 40 3

calm : Undisturbed idle block
calm = (λ n. refl, λ n h. refl, λ n. (pos 5, unfold run_time in refl))

mine_block-finds_example : (b : Block) × (mine_block idle block 9 40 3 ≡ found b)
mine_block-finds_example =
    mine_block-finds idle block 9 40 3 41 calm (omega arith) (omega arith) (omega arith)
      (unfold run_time in (pos 5, refl, omega arith))
