-- ===== src/Chain/Link.antt =====
-- `validate_block_link_and_hash` of minichain/chain.py.
use mini_chain.Base.{
  ℕ, ◌+◌, ◌-◌, ◌^◌, String, Bool, true, false, not, Option, none, some, leb, ltb, ◌==◌, opt_str_eq,
  if◌then◌else◌,
}
use mini_chain.Base.Int.{pos, ltb_ℤ}
use mini_chain.Base.Text.{int16}
use mini_chain.Platform.{Platform}
use mini_chain.Block.{Block, compute_hash}

-- `MAX_TARGET`, `MIN_TARGET` and `MAX_FUTURE_BLOCK_TIME_MS` of network_config.py.
abbrev pub max_target : ℕ
max_target = 2 ^ 256 - 1

abbrev pub min_target : ℕ
min_target = 1

abbrev pub max_future_block_time_ms : ℕ
max_future_block_time_ms = 15000

-- The `ValueError`s that it raises, in the order of the checks. `bad_literal` is the one of
-- `int(block.hash, 16)`.
pub data LinkError : Type 0 where
  previous_hash index hash target literal work not_newer too_far : LinkError

-- `"hash" in str(exc)`: whether the message speaks of a hash.
unfoldable pub names_hash : LinkError → Bool
names_hash previous_hash = true
names_hash hash = true
names_hash work = true
names_hash index = false
names_hash target = false
names_hash literal = false
names_hash not_newer = false
names_hash too_far = false

unfoldable pub target_in_range : ℕ → Bool
target_in_range t = if t == 0 then false else leb t max_target

-- `int(block.hash, 16) >= block.target`, `none` where the conversion raises.
unfoldable pub misses_target : Option String → ℕ → Option Bool
misses_target none t = none
misses_target (some h) t = elim (int16 h) [ none ↦ none | some n ↦ some (not (ltb_ℤ n (pos t))) ]

-- The checks of the proof of work and of the timestamps.
unfoldable pub check_work : Option Bool → Block → Block → ℕ → Option LinkError
check_work none prev block now = some literal
check_work (some true) prev block now = some work
check_work (some false) prev block now =
    if leb block.timestamp prev.timestamp
    then some not_newer
    else if ltb (now + max_future_block_time_ms) block.timestamp
    then some too_far
    else none

module _ ⦃p : Platform⦄ where
  -- `none` if every check passes; `now` is the clock in milliseconds.
  unfoldable pub validate_block_link_and_hash : Block → Block → ℕ → Option LinkError
  validate_block_link_and_hash prev block now =
      if not (opt_str_eq (some block.previous_hash) prev.hash)
      then some previous_hash
      else if not (block.index == prev.index + 1)
      then some index
      else if not (opt_str_eq block.hash (some (compute_hash block)))
      then some hash
      else if not (target_in_range block.target)
      then some target
      else check_work (misses_target block.hash block.target) prev block now
