-- ===== src/Pow.antt =====
-- minichain/pow.py: mining. The clock, the callback and the random first nonce are arguments.
pub mod Found
mod Tests
use mini_chain.Base.{
  ℕ, zero, suc, ◌+◌, String, Bool, true, false, Option, none, some, ◌==◌, if◌then◌else◌,
}
use mini_chain.Base.Int.{ℤ, pos, ltb_ℤ}
use mini_chain.Base.Text.{int16}
use mini_chain.Platform.{Platform}
use mini_chain.Block.{Block, compute_hash}

-- How mining ends: the mined block, or what is raised. `bad_hash` is the `ValueError` of
-- `int(block_hash, 16)`.
pub data Mined : Type 0 where
  found : Block → Mined
  bad_target bad_hash max_nonce_exceeded timeout_exceeded cancelled : Mined

-- What the clock and the callback say at each nonce.
pub record Watch : Type 0 where
  pub timed_out : ℕ → Bool
  pub should_stop : ℕ → String → Bool

-- The block with this nonce. Its hash is assigned on success alone.
abbrev pub with_nonce : ℕ → Block → Block
with_nonce n block = record block { nonce = n }

-- The test of one hash, and the rest of the loop if it fails.
abbrev pub attempt : Watch → Block → ℕ → String → Option ℤ → Mined → Mined
attempt watch block nonce block_hash none rest = bad_hash
attempt watch block nonce block_hash (some n) rest =
    if ltb_ℤ n (pos block.target)
    then found (record (with_nonce nonce block) { hash = some block_hash })
    else if watch.should_stop nonce block_hash
    then cancelled
    else rest

module _ ⦃p : Platform⦄ where
  -- The loop, with the number of nonces that are left.
  unfoldable pub mine_loop : Watch → Block → ℕ → ℕ → Mined
  mine_loop watch block nonce zero = max_nonce_exceeded
  mine_loop watch block nonce (suc left) =
      let rest = mine_loop watch block (nonce + 1) left in
      if watch.timed_out nonce
      then timeout_exceeded
      else (let block_hash = compute_hash (with_nonce nonce block) in
          attempt watch block nonce block_hash (int16 block_hash) rest)

  -- `mine_block`; the block's target is set first.
  unfoldable pub mine_block : Watch → Block → ℕ → ℕ → ℕ → Mined
  unfolding mine_loop
  mine_block watch block target start_nonce max_nonce =
      if target == 0
      then bad_target
      else mine_loop watch (record block { target = target }) start_nonce max_nonce
