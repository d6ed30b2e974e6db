-- ===== src/Node/Mining.antt =====
-- `mine_and_process_block` of main.py. Both readings of the clock and the search for a nonce (the
-- first one, their number and the watch) are arguments.
use mini_chain.Base.{ℕ, ◌+◌, String, Option, none, some, List, [], ◌∷◌, ltb, if◌then◌else◌}
use Prim.Native.Nat.{max}
use mini_chain.Base.Int.{◌+ℤ◌}
use mini_chain.Platform.{Platform}
use mini_chain.Transaction.{Transaction, Receipt, ValidationStatus, valid}
use mini_chain.State.Accounts.{
  get_account, account_of, state_root, credit_mining_reward, default_mining_reward,
}
use mini_chain.State.Apply.{State, Applied, validate_and_apply_with_status}
use mini_chain.Mempool.{Mempool, add_transaction, get_transactions_for_block, remove_transactions}
use mini_chain.Block.{Block, calculate_merkle_root, calculate_receipt_root}
use mini_chain.Chain.{Float}
use mini_chain.Chain.Apply.{total_fees, text_of}
use mini_chain.Chain.Blockchain.{Blockchain, last_block, add_block}
use mini_chain.Pow.{Mined, found, Watch, mine_block}
use mini_chain.Node.{Node}

-- What the method returns: the block, `None`, or an exception.
pub data Produced : Type 0 where
  mined : Block → Produced
  refused raised : Produced

-- `mineable_txs`, `stale_txs` and `receipts` with the temporary state.
pub record Selection : Type 0 where
  pub mineable : List Transaction
  pub stale : List Transaction
  pub receipts : List Receipt
  pub state : State

abbrev pub with_stale : Transaction → Option Selection → Option Selection
with_stale tx none = none
with_stale tx (some s) = some (record s { stale = tx ∷ s.stale })

abbrev pub with_mineable : Transaction → Receipt → Option Selection → Option Selection
with_mineable tx r none = none
with_mineable tx r (some s) =
    some (record s { mineable = tx ∷ s.mineable; receipts = r ∷ s.receipts })

-- By the receipt of this transaction, and the rest of the loop.
abbrev pub after_candidate :
    Transaction → Option Applied → (State → Option Selection) → Option Selection
after_candidate tx none rest = none
after_candidate tx (some (s, none, st)) rest = with_stale tx (rest st)
after_candidate tx (some (s, some r, st)) rest = with_mineable tx r (rest st)

module _ ⦃p : Platform⦄ where
  -- The loop over the pending transactions.
  unfoldable pub select : List Transaction → State → Option Selection
  select [] st = some (record { mineable = []; stale = []; receipts = []; state = st })
  select (tx ∷ txs) st =
      let seen = record st { accounts = get_account tx.sender st.accounts } in
      if ltb tx.nonce (account_of tx.sender st.accounts).nonce
      then with_stale tx (select txs seen)
      else after_candidate tx (validate_and_apply_with_status tx seen) (select txs)

  -- `for tx in txs: mempool.add_transaction(tx)`
  unfoldable pub add_all : List Transaction → Mempool → Mempool
  add_all [] pool = pool
  add_all (tx ∷ txs) pool = add_all txs (add_transaction tx pool).1

  -- The block that is to be mined.
  unfoldable pub candidate : ℕ → String → Block → ℕ → Selection → Option String → Block
  candidate now miner prev target s root = record {
    index = prev.index + 1;
    previous_hash = text_of prev.hash;
    target = target;
    transactions = s.mineable;
    receipts = s.receipts;
    timestamp = max now (prev.timestamp + 1);
    nonce = 0;
    hash = none;
    state_root = root;
    receipt_root = calculate_receipt_root s.receipts;
    merkle_root = calculate_merkle_root s.mineable;
    miner = some miner;
  }

abbrev pub drop_stale : List Transaction → Mempool → Mempool
drop_stale [] pool = pool
drop_stale (tx ∷ txs) pool = remove_transactions (tx ∷ txs) pool

module _ {F : Type 0} ⦃fl : Float F⦄ ⦃p : Platform⦄ where
  -- The end of the method, by what `add_block` has returned.
  abbrev pub finish_mining :
      List Transaction
      → List Transaction
      → Block
      → Node F
      → Option (ValidationStatus × Blockchain F)
      → Produced × Node F
  finish_mining pending mineable block node none = (raised, node)
  finish_mining pending mineable block node (some (valid, chain)) =
      (mined block, record { chain = chain; mempool = remove_transactions mineable node.mempool })
  finish_mining pending mineable block node (some (_, chain)) =
      (refused, record { chain = chain; mempool = add_all pending node.mempool })

  abbrev pub process_mined :
      ℕ → List Transaction → List Transaction → Node F → Mined → Produced × Node F
  process_mined now pending mineable node (found block) =
      finish_mining pending mineable block node (add_block now block node.chain)
  process_mined now pending mineable node _ = (raised, node)

  -- The mining of what was selected, with the root of the state after the reward.
  abbrev pub mine_selected :
      ℕ
      → ℕ
      → Watch
      → ℕ
      → ℕ
      → String
      → List Transaction
      → Selection
      → Node F
      → Option Block
      → Option String
      → Produced × Node F
  mine_selected now later watch start_nonce max_nonce miner pending s node (some prev) (some root) =
      process_mined later pending s.mineable node (
        mine_block watch (candidate now miner prev node.chain.current_target s (some root))
          node.chain.current_target start_nonce max_nonce)
  mine_selected now later watch start_nonce max_nonce miner pending s node _ _ = (raised, node)

  abbrev pub after_selection :
      ℕ
      → ℕ
      → Watch
      → ℕ
      → ℕ
      → String
      → List Transaction
      → Node F
      → Option Selection
      → Produced × Node F
  after_selection now later watch start_nonce max_nonce miner pending node none = (raised, node)
  after_selection now later watch start_nonce max_nonce miner pending node (some s) =
      let fees = total_fees s.receipts s.mineable in
      let accs =
        credit_mining_reward miner (some (default_mining_reward +ℤ fees)) s.state.accounts in
      mine_selected now later watch start_nonce max_nonce miner pending s
        (record node { mempool = drop_stale s.stale node.mempool }) (last_block node.chain.chain)
        (state_root accs)

  unfoldable pub mine_and_process_block :
      ℕ → ℕ → Watch → ℕ → ℕ → String → Node F → Produced × Node F
  unfolding select candidate
  mine_and_process_block now later watch start_nonce max_nonce miner node =
      let pending = get_transactions_for_block node.mempool in
      after_selection now later watch start_nonce max_nonce miner pending node
        (select pending node.chain.state)
