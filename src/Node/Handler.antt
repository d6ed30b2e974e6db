-- ===== src/Node/Handler.antt =====
-- The handler of `make_network_handler` in main.py: the messages that change the chain or the
-- mempool, or ask for blocks. The payloads of `tx`, `block` and `chain_response` come parsed, with
-- `none` where `from_dict` raises; `getaddr` and `addr`, which speak of peers alone, are in PeerBook.
use mini_chain.Base.{
  ℕ, ◌+◌, ◌-◌, ◌==◌, ◌&&◌, not, String, Bool, true, false, Option, none, some, List, [], ◌∷◌, ltb,
  leb, length, take, drop, str_eq, opt_str_eq, if◌then◌else◌,
}
use mini_chain.Platform.{Platform}
use mini_chain.Transaction.{Transaction, ValidationStatus, valid, invalid, failed, malformed}
use mini_chain.State.Accounts.{Accounts}
use mini_chain.State.Apply.{verify_transaction_logic}
use mini_chain.Mempool.{add_transaction, remove_transactions}
use mini_chain.Block.{Block}
use mini_chain.Chain.{Float}
use mini_chain.Chain.Blockchain.{
  Blockchain, Reorg, hash_at, last_block, add_block, resolve_conflicts,
}
use mini_chain.Node.{Node}
use mini_chain.Node.Mining.{add_all}

pub data Message : Type 0 where
  -- chain id, genesis hash and index of the latest block
  hello : String → Option String → ℕ → Message
  tx_message : Option Transaction → Message
  block_message : Option Block → Message
  -- first index and limit
  chain_request : ℕ → ℕ → Message
  -- blocks and the limit that was requested
  chain_response : Option (List Block) → ℕ → Message

-- What the node sends: a request for blocks, blocks, a request for peers; or it hangs up.
pub data Sent : Type 0 where
  request : ℕ → ℕ → Sent
  some_blocks : List Block → Sent
  ask_peers disconnect : Sent

-- What the handler returns, if it does, and what it has sent.
pub record Handled (F : Type 0) : Type 0 where
  pub raised : Bool
  pub status : Option ValidationStatus
  pub sent : List Sent
  pub node : Node F

-- `chain.last_block.index + 1`; a chain has its genesis block at least.
abbrev pub next_index : List Block → ℕ
next_index chain = elim (last_block chain) [ none ↦ 0 | some b ↦ b.index + 1 ]

-- Whether the blocks continue our chain.
abbrev pub continues : List Block → Block → Bool
continues chain first = elim (last_block chain) [
  | none ↦ false
  | some prev ↦ first.index == prev.index + 1 && opt_str_eq (some first.previous_hash) prev.hash
]

module _ {F : Type 0} where
  abbrev pub silent : List Sent → Node F → Handled F
  silent sent node = record { raised = false; status = none; sent = sent; node = node }

  abbrev pub answer : ValidationStatus → List Sent → Node F → Handled F
  answer s sent node = record { raised = false; status = some s; sent = sent; node = node }

  abbrev pub broken : Node F → Handled F
  broken node = record { raised = true; status = none; sent = []; node = node }

  abbrev pub on_hello : String → Option String → ℕ → Node F → Handled F
  on_hello chain_id genesis_hash tip node =
      if not (str_eq chain_id node.chain.chain_id)
      then silent (disconnect ∷ []) node
      else if not (opt_str_eq genesis_hash (hash_at node.chain.chain 0))
      then silent (disconnect ∷ []) node
      else if leb (next_index node.chain.chain) tip
      then silent (request (next_index node.chain.chain) 500 ∷ ask_peers ∷ []) node
      else silent (ask_peers ∷ []) node

  abbrev pub on_chain_request : ℕ → ℕ → Node F → Handled F
  on_chain_request start limit node =
      silent (some_blocks (take limit (drop start node.chain.chain)) ∷ []) node

module _ {F : Type 0} ⦃p : Platform⦄ where
  -- The state keeps what `verify_transaction_logic` does to its accounts.
  abbrev pub with_accounts : Accounts → Node F → Node F
  with_accounts accs node = record node {
    chain = record node.chain { state = record node.chain.state { accounts = accs } };
  }

  abbrev pub admit : Transaction → Node F → Handled F
  admit t node =
      let (added, pool) = add_transaction t node.mempool in
      answer (if added then valid else failed) [] (record node { mempool = pool })

  abbrev pub by_logic : Transaction → Node F → ValidationStatus → Handled F
  by_logic t node valid = admit t node
  by_logic t node _ = answer invalid [] node

  unfoldable pub on_tx : Option Transaction → Node F → Handled F
  on_tx none node = answer malformed [] node
  on_tx (some t) node =
      if str_eq t.chain_id node.chain.chain_id
      then (let (s, accs) = verify_transaction_logic t node.chain.state in
          by_logic t (with_accounts accs node) s)
      else answer invalid [] node

module _ {F : Type 0} ⦃fl : Float F⦄ ⦃p : Platform⦄ where
  -- What is asked for after a block was refused.
  abbrev pub after_refusal : Block → Node F → List Sent
  after_refusal b node =
      if ltb (next_index node.chain.chain) b.index
      then request (next_index node.chain.chain) 500 ∷ []
      else request (b.index - 50) 50 ∷ []

  abbrev pub on_added : Block → Node F → Option (ValidationStatus × Blockchain F) → Handled F
  on_added b node none = broken node
  on_added b node (some (valid, chain)) =
      answer valid []
        (record { chain = chain; mempool = remove_transactions b.transactions node.mempool })
  on_added b node (some (s, chain)) =
      let node' : Node F = record node { chain = chain } in answer s (after_refusal b node') node'

  unfoldable pub on_block : ℕ → Option Block → Node F → Handled F
  on_block now none node = answer malformed [] node
  on_block now (some b) node = on_added b node (add_block now b node.chain)

  -- The end of the catch-up loop: `full` says whether as many blocks came as were requested.
  abbrev pub caught_up : Bool → ℕ → Node F → Handled F
  caught_up true limit node = silent (request (next_index node.chain.chain) limit ∷ []) node
  caught_up false limit node = silent [] node

  abbrev pub after_synced :
      Block → Node F → Option (ValidationStatus × Blockchain F) → (Node F → Handled F) → Handled F
  after_synced b node none rest = broken node
  after_synced b node (some (valid, chain)) rest =
      rest (record { chain = chain; mempool = remove_transactions b.transactions node.mempool })
  after_synced b node (some (s, chain)) rest =
      silent (request (b.index - 50) 50 ∷ []) (record node { chain = chain })

  -- The catch-up loop.
  unfoldable pub catch_up : ℕ → Bool → ℕ → List Block → Node F → Handled F
  catch_up now full limit [] node = caught_up full limit node
  catch_up now full limit (b ∷ bs) node =
      let skipped = catch_up now full limit bs node in
      if ltb b.index (next_index node.chain.chain)
      then skipped
      else after_synced b node (add_block now b node.chain) (catch_up now full limit bs)

  abbrev pub on_reorg : Block → Bool → ℕ → Node F → Option (Reorg F) → Handled F
  on_reorg first full limit node none = broken node
  on_reorg first full limit node (some ((true, orphaned), chain)) =
      caught_up full limit (record { chain = chain; mempool = add_all orphaned node.mempool })
  on_reorg first full limit node (some ((false, orphaned), chain)) =
      silent (if first.index == 0 then [] else request (first.index - 50) 50 ∷ [])
        (record node { chain = chain })

  unfoldable pub on_chain_response : ℕ → Option (List Block) → ℕ → Node F → Handled F
  unfolding catch_up
  on_chain_response now none limit node = silent [] node
  on_chain_response now (some []) limit node = silent [] node
  on_chain_response now (some (first ∷ bs)) limit node =
      let full = length (first ∷ bs) == limit in
      if continues node.chain.chain first
      then catch_up now full limit (first ∷ bs) node
      else on_reorg first full limit node (resolve_conflicts now (first ∷ bs) node.chain)

  -- One message, with the clock.
  unfoldable pub handler : ℕ → Message → Node F → Handled F
  unfolding on_tx on_block on_chain_response
  handler now (hello chain_id genesis_hash tip) node = on_hello chain_id genesis_hash tip node
  handler now (tx_message t) node = on_tx t node
  handler now (block_message b) node = on_block now b node
  handler now (chain_request start limit) node = on_chain_request start limit node
  handler now (chain_response bs limit) node = on_chain_response now bs limit node
