-- ===== src/Chain/Apply.antt =====
-- `_next_target` and `_apply_block` of minichain/chain.py.
use mini_chain.Base.{
  ℕ, ◌-◌, ◌*◌, ◌/◌, String, Bool, true, false, not, Option, none, some, List, [], ◌∷◌, ◌==◌, ◌&&◌,
  str_eq, opt_str_eq, truthy, if◌then◌else◌,
}
use Prim.Native.Nat.{min, max}
use mini_chain.Base.Int.{ℤ, pos, negsuc, ◌+ℤ◌, ◌*ℤ◌}
use mini_chain.Json.Equal.{items_eq}
use mini_chain.Platform.{Platform}
use mini_chain.Transaction.{Transaction, Receipt, ValidationStatus, valid, invalid, failed}
use mini_chain.State.Accounts.{state_root, credit_mining_reward, default_mining_reward}
use mini_chain.State.Apply.{State, Applied, validate_and_apply_with_status}
use mini_chain.Block.{Block, calculate_receipt_root}
use mini_chain.Chain.{Float}
use mini_chain.Chain.Link.{
  max_target, min_target, LinkError, names_hash, validate_block_link_and_hash,
}

-- `self.target_block_time` and `self.alpha`.
pub record Tuning (F : Type 0) : Type 0 where
  pub target_block_time : ℕ
  pub alpha : F

-- A status with the target, the average and the state that go with it.
pub record Step (F : Type 0) : Type 0 where
  pub status : ValidationStatus
  pub target : ℕ
  pub avg : F
  pub state : State

abbrev pub int_eq : ℤ → ℤ → Bool
int_eq (pos a) (pos b) = a == b
int_eq (negsuc a) (negsuc b) = a == b
int_eq _ _ = false

abbrev pub receipt_eq : Receipt → Receipt → Bool
receipt_eq r s =
    str_eq r.tx_hash s.tx_hash
    && (r.status == s.status
        && (int_eq r.gas_used s.gas_used
            && (str_eq r.error_message s.error_message
                && (items_eq r.logs s.logs && str_eq r.contract_address s.contract_address))))

-- `[r.to_dict() for r in block.receipts] == [r.to_dict() for r in receipts]`
unfoldable pub receipts_eq : List Receipt → List Receipt → Bool
receipts_eq [] [] = true
receipts_eq (r ∷ rs) (s ∷ ss) = receipt_eq r s && receipts_eq rs ss
receipts_eq _ _ = false

-- The run of a block's transactions: a status, the receipts so far and the state.
abbrev pub TxRun : Type 0
TxRun = ValidationStatus × List Receipt × State

abbrev pub with_first : Receipt → Option TxRun → Option TxRun
with_first r none = none
with_first r (some (s, rs, st)) = some (s, r ∷ rs, st)

-- The rest of the loop, unless this transaction has failed. A VALID one always has a receipt.
abbrev pub after_tx : Option Applied → (State → Option TxRun) → Option TxRun
after_tx none rest = none
after_tx (some (valid, some r, st)) rest = with_first r (rest st)
after_tx (some (valid, none, st)) rest = none
after_tx (some (s, o, st)) rest = some (s, [], st)

-- `sum(r.gas_used * tx.fee_per_gas for r, tx in zip(receipts, transactions))`
abbrev pub total_fees : List Receipt → List Transaction → ℤ
total_fees (r ∷ rs) (tx ∷ txs) = r.gas_used *ℤ tx.fee_per_gas +ℤ total_fees rs txs
total_fees _ _ = pos 0

abbrev pub text_of : Option String → String
text_of none = ""
text_of (some s) = s

-- The reward and the fees for the miner, if the block names one.
unfoldable pub reward : Block → List Receipt → State → State
reward block rs st =
    if truthy block.miner
    then record st {
      accounts =
          credit_mining_reward (text_of block.miner)
            (some (default_mining_reward +ℤ total_fees rs block.transactions)) st.accounts;
    }
    else st

abbrev pub clamp_quotient : ℕ → ℕ → ℤ → ℕ
clamp_quotient target_block_time target (pos avg) =
    max min_target (min max_target (target * avg / target_block_time))
clamp_quotient target_block_time target (negsuc avg) = min_target

abbrev pub link_status : LinkError → ValidationStatus
link_status e = if names_hash e then invalid else failed

module _ {F : Type 0} ⦃fl : Float F⦄ where
  -- `_next_target`, `none` for a block time of 0, by which Python cannot divide.
  unfoldable pub next_target : Tuning F → ℕ → F → Option ℕ
  next_target tun target avg =
      if tun.target_block_time == 0
      then none
      else some (clamp_quotient tun.target_block_time target (fl.truncate avg))

module _ ⦃p : Platform⦄ where
  unfoldable pub apply_txs : List Transaction → State → Option TxRun
  apply_txs [] st = some (valid, [], st)
  apply_txs (tx ∷ txs) st = after_tx (validate_and_apply_with_status tx st) (apply_txs txs)

module _ {F : Type 0} ⦃fl : Float F⦄ ⦃p : Platform⦄ where
  -- The end of a block that passed every check.
  abbrev pub accepted : Option ℕ → F → State → Option (Step F)
  accepted none avg st = none
  accepted (some target) avg st =
      some (record { status = valid; target = target; avg = avg; state = st })

  -- The checks of the roots and receipts, on the state with the reward.
  unfoldable pub check_roots :
      Tuning F → Block → Block → List Receipt → State → ℕ → F → Option String → Option (Step F)
  check_roots tun prev block rs st target avg none = none
  check_roots tun prev block rs st target avg (some root) =
      let rejected : Step F = record { status = invalid; target = target; avg = avg; state = st } in
      let avg' = fl.ema tun.alpha (block.timestamp - prev.timestamp) avg in
      if not (opt_str_eq block.state_root (some root))
      then some rejected
      else accepted (next_target tun target avg') avg' st

  unfoldable pub check_receipts :
      Tuning F → Block → Block → List Receipt → State → ℕ → F → Option (Step F)
  unfolding check_roots
  check_receipts tun prev block rs st target avg =
      let rejected : Step F = record { status = invalid; target = target; avg = avg; state = st } in
      if not (opt_str_eq block.receipt_root (calculate_receipt_root rs))
      then some rejected
      else if not (receipts_eq block.receipts rs)
      then some rejected
      else check_roots tun prev block rs st target avg (state_root st.accounts)

  unfoldable pub after_txs : Tuning F → Block → Block → ℕ → F → Option TxRun → Option (Step F)
  after_txs tun prev block target avg none = none
  after_txs tun prev block target avg (some (valid, rs, st)) =
      check_receipts tun prev block rs (reward block rs st) target avg
  after_txs tun prev block target avg (some (s, rs, st)) =
      some (record { status = s; target = target; avg = avg; state = st })

  -- The body of `_apply_block` behind the check of the link.
  unfoldable pub after_link :
      Tuning F → Block → Block → State → ℕ → F → Option LinkError → Option (Step F)
  after_link tun prev block st target avg (some e) =
      some (record { status = link_status e; target = target; avg = avg; state = st })
  after_link tun prev block st target avg none =
      if not (block.target == target)
      then some (record { status = invalid; target = target; avg = avg; state = st })
      else after_txs tun prev block target avg (apply_txs block.transactions st)

  -- `_apply_block`, with the clock.
  unfoldable pub apply_block : Tuning F → Block → Block → ℕ → State → ℕ → F → Option (Step F)
  unfolding after_link
  apply_block tun prev block now st target avg =
      after_link tun prev block st target avg (validate_block_link_and_hash prev block now)
