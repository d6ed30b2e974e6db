-- ===== src/Chain/Blockchain.antt =====
-- The class `Blockchain` of minichain/chain.py: `add_block`, `get_total_work` and `resolve_conflicts`.
-- The lock makes each method one step. The chain holds the genesis block first; the methods that
-- would raise `IndexError` on an empty chain are `none` there.
use mini_chain.Base.{
  ℕ, zero, suc, ◌+◌, ◌-◌, ◌/◌, ◌^◌, String, Bool, true, false, Option, none, some, List, [], ◌∷◌,
  ◌++◌, ◌==◌, ◌then?◌, ltb, leb, length, get_elem?, take, drop, str_eq, opt_str_eq, if◌then◌else◌,
}
use mini_chain.Base.Dict.{Dict, insert, contains}
use mini_chain.Platform.{Platform}
use mini_chain.Transaction.{Transaction, tx_id, ValidationStatus, valid}
use mini_chain.State.Accounts.{Accounts}
use mini_chain.State.Apply.{State}
use mini_chain.Block.{Block}
use mini_chain.Chain.{Float}
use mini_chain.Chain.Link.{target_in_range, misses_target}
use mini_chain.Chain.Apply.{Tuning, Step, next_target, apply_block}

pub record Blockchain (F : Type 0) : Type 0 where
  pub chain : List Block
  pub state : State
  pub chain_id : String
  pub tuning : Tuning F
  pub current_target : ℕ
  pub avg_block_time : F
  -- newest last, each with the hash of its block
  pub state_snapshots : List (Option String × Accounts)
  pub genesis_state : Accounts

-- The result of `resolve_conflicts`, with the object after it.
abbrev pub Reorg : Type 0 → Type 0
Reorg F = (Bool × List Transaction) × Blockchain F

-- `MAX_STATE_SNAPSHOTS` of node_config.py.
abbrev pub max_state_snapshots : ℕ
max_state_snapshots = 10

-- `append` on a deque with that `maxlen`.
unfoldable pub push_snapshot :
    Option String × Accounts → List (Option String × Accounts) → List (Option String × Accounts)
push_snapshot s ss = let longer = ss ++ s ∷ [] in drop (length longer - max_state_snapshots) longer

-- `self.chain[-1]`
abbrev pub last_block : List Block → Option Block
last_block [] = none
last_block (b ∷ []) = some b
last_block (b ∷ c ∷ bs) = last_block (c ∷ bs)

-- `sum((1 << 256) // (block.target or 1))`
unfoldable pub get_total_work : List Block → ℕ
get_total_work [] = 0
get_total_work (b ∷ bs) = 2 ^ 256 / (if b.target == 0 then 1 else b.target) + get_total_work bs

abbrev pub hash_at : List Block → ℕ → Option String
hash_at bs n = elim (get_elem? bs n) [ none ↦ none | some b ↦ b.hash ]

-- Whether a new chain connects: its genesis block is ours, or its parent's hash is.
unfoldable pub connects : List Block → Block → Bool
connects chain first =
    if first.index == 0
    then opt_str_eq first.hash (hash_at chain 0)
    else if ltb (length chain) first.index
    then false
    else opt_str_eq (some first.previous_hash) (hash_at chain (first.index - 1))

-- The check of the declared targets and hashes, `none` where a hash cannot be read.
unfoldable pub fast_pow : List Block → Option Bool
fast_pow [] = some true
fast_pow (b ∷ bs) =
    let rest = fast_pow bs in
    if target_in_range b.target
    then elim (misses_target b.hash b.target) [
      | none ↦ none
      | some true ↦ some false
      | some false ↦ rest
    ]
    else some false

unfoldable pub find_snapshot : String → List (Option String × Accounts) → Option Accounts
find_snapshot h [] = none
find_snapshot h ((k, accs) ∷ ss) = if opt_str_eq k (some h) then some accs else find_snapshot h ss

-- The snapshot of the block that the new chain forks from.
unfoldable pub fork_snapshot : List Block → ℕ → List (Option String × Accounts) → Option Accounts
fork_snapshot chain zero ss = none
fork_snapshot chain (suc n) ss = elim (hash_at chain n) [
  | none ↦ none
  | some h ↦ if str_eq h "" then none else find_snapshot h ss
]

module _ ⦃p : Platform⦄ where
  -- `{tx.tx_id: tx for b in blocks for tx in b.transactions}`
  unfoldable pub index_txs : List Transaction → Dict Transaction → Dict Transaction
  index_txs [] d = d
  index_txs (tx ∷ txs) d = index_txs txs (insert (tx_id tx) tx d)

  unfoldable pub txs_by_id : List Block → Dict Transaction → Dict Transaction
  unfolding index_txs
  txs_by_id [] d = d
  txs_by_id (b ∷ bs) d = txs_by_id bs (index_txs b.transactions d)

  unfoldable pub without_ids : Dict Transaction → Dict Transaction → List Transaction
  without_ids new [] = []
  without_ids new ((i, tx) ∷ old) =
      let rest = without_ids new old in if contains i new then rest else tx ∷ rest

  -- The transactions of the old chain that the new one does not hold.
  unfoldable pub orphans : List Block → List Block → List Transaction
  unfolding txs_by_id without_ids
  orphans old new = without_ids (txs_by_id (drop 1 new) []) (txs_by_id (drop 1 old) [])

module _ {F : Type 0} ⦃fl : Float F⦄ ⦃p : Platform⦄ where
  -- The object with the block appended and the state that goes with it.
  abbrev pub extended : Block → Step F → Blockchain F → Blockchain F
  extended block step bc = record bc {
    chain = bc.chain ++ block ∷ [];
    state = step.state;
    current_target = step.target;
    avg_block_time = step.avg;
    state_snapshots = push_snapshot (block.hash, step.state.accounts) bc.state_snapshots;
  }

  -- The end of `add_block`.
  unfoldable pub commit :
      Blockchain F → Blockchain F → ValidationStatus → ValidationStatus × Blockchain F
  commit new bc valid = (valid, new)
  commit new bc s = (s, bc)

  abbrev pub add_step :
      Blockchain F → Block → Option (Step F) → Option (ValidationStatus × Blockchain F)
  add_step bc block none = none
  add_step bc block (some step) = some (commit (extended block step bc) bc step.status)

  -- `add_block`, with the clock.
  unfoldable pub add_block : ℕ → Block → Blockchain F → Option (ValidationStatus × Blockchain F)
  add_block now block bc = last_block bc.chain then? (λ prev. add_step bc block (
      apply_block bc.tuning prev block now (record bc.state { chain_id = bc.chain_id })
        bc.current_target bc.avg_block_time))

  -- The target and average after these blocks, without executing them.
  unfoldable pub fast_forward : Tuning F → Block → List Block → ℕ → F → Option (ℕ × F)
  fast_forward tun prev [] target avg = some (target, avg)
  fast_forward tun prev (b ∷ bs) target avg =
      let avg' = fl.ema tun.alpha (b.timestamp - prev.timestamp) avg in
      next_target tun target avg' then? (λ target'. fast_forward tun b bs target' avg')

  -- The rest of the loop, if this block is VALID.
  abbrev pub go_on : Step F → (Step F → Option (Step F)) → ValidationStatus → Option (Step F)
  go_on next rest valid = rest next
  go_on next rest s = some next

  abbrev pub after_block : Option (Step F) → (Step F → Option (Step F)) → Option (Step F)
  after_block none rest = none
  after_block (some next) rest = go_on next rest next.status

  -- The loop that applies the blocks of the new chain, up to the first that is not VALID.
  unfoldable pub replay : Tuning F → ℕ → Block → List Block → Step F → Option (Step F)
  replay tun now prev [] step = some step
  replay tun now prev (b ∷ bs) step =
      after_block (apply_block tun prev b now step.state step.target step.avg) (replay tun now b bs)

  -- The object on the new chain.
  abbrev pub switched : List Block → Step F → Blockchain F → Blockchain F
  switched proposed step bc = record bc {
    chain = proposed;
    state = step.state;
    current_target = step.target;
    avg_block_time = step.avg;
    state_snapshots =
        push_snapshot
          (elim (last_block proposed) [ none ↦ none | some b ↦ b.hash ], step.state.accounts)
          bc.state_snapshots;
  }

  -- The outcome of the replay.
  unfoldable pub adopt_status : Blockchain F → List Block → Step F → ValidationStatus → Reorg F
  adopt_status bc proposed step valid =
      ((true, orphans bc.chain proposed), switched proposed step bc)
  adopt_status bc proposed step s = ((false, []), bc)

  abbrev pub adopt : Blockchain F → List Block → Option (Step F) → Option (Reorg F)
  adopt bc proposed none = none
  adopt bc proposed (some step) = some (adopt_status bc proposed step step.status)

  abbrev pub resume :
      Blockchain F → ℕ → Accounts → List Block → List Block → ℕ × F → Option (Step F)
  resume bc now accs known new (target, avg) = last_block known then? (λ prev.
      replay bc.tuning now prev new (record {
        status = valid;
        target = target;
        avg = avg;
        state = record { accounts = accs; chain_id = bc.chain_id };
      }))

  -- From the fork's snapshot on: the known blocks are skipped, the new ones applied.
  unfoldable pub from_known :
      Blockchain F → ℕ → Accounts → List Block → List Block → Option (Step F)
  from_known bc now accs [] new = none
  from_known bc now accs (genesis ∷ known) new =
      fast_forward bc.tuning genesis known genesis.target (fl.of_int bc.tuning.target_block_time)
      then? resume bc now accs (genesis ∷ known) new

  -- From the state after the genesis block on.
  unfoldable pub replay_from_genesis : Blockchain F → ℕ → List Block → Option (Step F)
  replay_from_genesis bc now [] = none
  replay_from_genesis bc now (genesis ∷ rest) = replay bc.tuning now genesis rest (record {
    status = valid;
    target = genesis.target;
    avg = fl.of_int bc.tuning.target_block_time;
    state = record { accounts = bc.genesis_state; chain_id = bc.chain_id };
  })

  abbrev pub rebuild_from : Blockchain F → ℕ → ℕ → List Block → Option Accounts → Option (Step F)
  rebuild_from bc now fork_idx proposed (some accs) =
      from_known bc now accs (take fork_idx proposed) (drop fork_idx proposed)
  rebuild_from bc now fork_idx proposed none = replay_from_genesis bc now proposed

  unfoldable pub rebuild : Blockchain F → ℕ → ℕ → List Block → Option (Step F)
  rebuild bc now fork_idx proposed =
      rebuild_from bc now fork_idx proposed (fork_snapshot bc.chain fork_idx bc.state_snapshots)

  -- `resolve_conflicts` behind the check of the connection.
  unfoldable pub reorganise : Blockchain F → ℕ → Block → List Block → Option Bool → Option (Reorg F)
  unfolding rebuild
  reorganise bc now first blocks none = none
  reorganise bc now first blocks (some false) = some ((false, []), bc)
  reorganise bc now first blocks (some true) =
      let proposed = take first.index bc.chain ++ blocks in
      if leb (get_total_work proposed) (get_total_work bc.chain)
      then some ((false, []), bc)
      else adopt bc proposed (rebuild bc now first.index proposed)

  unfoldable pub resolve_conflicts : ℕ → List Block → Blockchain F → Option (Reorg F)
  unfolding reorganise
  resolve_conflicts now [] bc = some ((false, []), bc)
  resolve_conflicts now (first ∷ blocks) bc =
      if connects bc.chain first
      then reorganise bc now first (first ∷ blocks) (fast_pow (first ∷ blocks))
      else some ((false, []), bc)
