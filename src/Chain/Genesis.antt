-- ===== src/Chain/Genesis.antt =====
-- `Blockchain._create_genesis_block` of minichain/chain.py, on the parsed genesis file. A result is `none`
-- where it exits or raises. `alpha` is the float of the file, or 0.1; `now` is the clock in milliseconds.
-- A value of another type than its key has counts as refused, also a Boolean for a number.
use mini_chain.Base.{
  ℕ, String, Bool, true, false, not, Option, none, some, [], ◌∷◌, str_eq, truthy, if◌then◌else◌,
  ◌then?◌,
}
use mini_chain.Base.Int.{ℤ, pos, ◌+ℤ◌}
use mini_chain.Base.Dict.{insert}
use mini_chain.Json.{Json, null, num, str, obj, Fields, end, field, is_truthy}
use mini_chain.Platform.{Platform}
use mini_chain.Transaction.Parse.{get, chain_or_default}
use mini_chain.State.Accounts.{Accounts, account_of, get_account, state_root}
use mini_chain.Block.{Block, calculate_merkle_root, compute_hash}
use mini_chain.Block.Parse.{target_of, timestamp_of}
use mini_chain.Chain.{Float}
use mini_chain.Chain.Apply.{int_eq}
use mini_chain.Chain.Blockchain.{Blockchain, push_snapshot}

-- `data.get("balance", 0)`, if it is not negative.
abbrev pub balance_of : Json → Option ℤ
balance_of (obj fs) = elim (get "balance" fs) [
  | none ↦ some (pos 0)
  | some (num (pos n)) ↦ some (pos n)
  | some _ ↦ none
]
balance_of _ = none

-- `account = self.state.get_account(address); account['balance'] = balance`
unfoldable pub set_balance : String → ℤ → Accounts → Accounts
set_balance a x accs =
    let accs' = get_account a accs in insert a (record (account_of a accs') { balance = x }) accs'

-- The loop over the allocations, with their sum.
unfoldable pub allocate : Fields → ℤ → Accounts → Option (ℤ × Accounts)
allocate end sum accs = some (sum, accs)
allocate (field a v fs) sum accs =
    balance_of v then? (λ x. allocate fs (sum +ℤ x) (set_balance a x accs))

-- `config.get("alloc", {}).items()`
abbrev pub alloc_of : Option Json → Option Fields
alloc_of none = some end
alloc_of (some (obj fs)) = some fs
alloc_of (some _) = none

-- `initial_supply is not None and initial_supply != total_alloc`
unfoldable pub supply_differs : Option Json → ℤ → Bool
supply_differs none sum = false
supply_differs (some null) sum = false
supply_differs (some (num n)) sum = not (int_eq n sum)
supply_differs (some _) sum = true

-- `config.get("target_block_time", 10000)`
abbrev pub block_time_of : Option Json → Option ℕ
block_time_of none = some 10000
block_time_of (some (num (pos n))) = some n
block_time_of (some _) = none

-- `config.get("timestamp")`, which the constructor of the block takes.
abbrev pub genesis_timestamp : ℕ → Option Json → Option ℕ
genesis_timestamp now none = none
genesis_timestamp now (some null) = none
genesis_timestamp now (some v) = timestamp_of now (some v)

-- The hash that the file names, if it names one, must be the block's.
unfoldable pub hash_refused : Option Json → String → Bool
hash_refused none hash = false
hash_refused (some (str h)) hash = if truthy (some h) then not (str_eq h hash) else false
hash_refused (some v) hash = is_truthy v

module _ ⦃p : Platform⦄ where
  abbrev pub genesis_block : ℕ → ℕ → String → Block
  genesis_block timestamp target root = record {
    index = 0;
    previous_hash = "0";
    target = target;
    transactions = [];
    receipts = [];
    timestamp = timestamp;
    nonce = 0;
    hash = none;
    state_root = some root;
    receipt_root = none;
    merkle_root = calculate_merkle_root [];
    miner = none;
  }

  module _ {F : Type 0} ⦃fl : Float F⦄ where
    -- The object with the sealed genesis block and its snapshot.
    abbrev pub founded : String → ℕ → F → Accounts → Block → Blockchain F
    founded chain_id block_time alpha accs block = record {
      chain = record block { hash = some (compute_hash block) } ∷ [];
      state = record { accounts = accs; chain_id = chain_id };
      chain_id = chain_id;
      tuning = record { target_block_time = block_time; alpha = alpha };
      current_target = block.target;
      avg_block_time = fl.of_int block_time;
      state_snapshots = push_snapshot (some (compute_hash block), accs) [];
      genesis_state = accs;
    }

    abbrev pub unless_refused : Bool → Blockchain F → Option (Blockchain F)
    unless_refused true bc = none
    unless_refused false bc = some bc

    -- Behind the allocations.
    unfoldable pub start_chain : ℕ → F → Fields → ℤ × Accounts → Option (Blockchain F)
    start_chain now alpha fs (sum, accs) =
        if supply_differs (get "initial_supply" fs) sum
        then none
        else chain_or_default (get "chain_id" fs) then? (λ chain_id.
          target_of (get "target" fs) then? (λ target.
            block_time_of (get "target_block_time" fs) then? (λ block_time.
              state_root accs then? (λ root.
                genesis_timestamp now (get "timestamp" fs) then? (λ timestamp.
                  let block = genesis_block timestamp target root in
                  unless_refused (hash_refused (get "hash" fs) (compute_hash block))
                    (founded chain_id block_time alpha accs block))))))

    -- `_create_genesis_block` in a new object.
    unfoldable pub create_genesis_block : ℕ → F → Json → Option (Blockchain F)
    create_genesis_block now alpha (obj fs) = alloc_of (get "alloc" fs) then? (λ alloc.
        allocate alloc (pos 0) [] then? (λ allocated. start_chain now alpha fs allocated))
    create_genesis_block now alpha _ = none
