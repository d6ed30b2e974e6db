-- ===== src/Node/Mines.antt =====
-- What `mine_and_process_block` of main.py does to the chain and to the mempool.
use mathlib.Core.Path.{subst}
use mini_chain.Base.{
  ℕ, ◌+◌, String, ◌≡◌, inl, inr, refl, sym, ◌∙◌, ap, false, Option, none, some, List, [], ◌∷◌, ◌++◌,
  All, truthy, arith, if◌then◌else◌,
}
use mini_chain.Base.Int.{pos, ◌+ℤ◌, ◌-ℤ◌}
use mini_chain.Platform.{Platform}
use mini_chain.Transaction.{Transaction, ValidationStatus, valid}
use mini_chain.State.Supply.{total}
use mini_chain.Mempool.{has_key, remove_transactions}
use mini_chain.Mempool.Bounds.{remove_transactions_lem}
use mini_chain.Block.{Block}
use mini_chain.Chain.{Float}
use mini_chain.Chain.Apply.{total_fees}
use mini_chain.Chain.Blockchain.{Blockchain, add_block}
use mini_chain.Chain.Growth.{add_block-Outcome}
use mini_chain.Pow.{Mined, found, Watch, mine_block}
use mini_chain.Pow.Found.{IsMined, mine_block-IsMined}
use mini_chain.Node.{Node}
use mini_chain.Node.Mining.{
  Produced, mined, Selection, candidate, drop_stale, finish_mining, process_mined, mine_selected,
  after_selection, mine_and_process_block,
}

module _ {F : Type 0} ⦃fl : Float F⦄ ⦃p : Platform⦄ where
  -- A mined block stands at the end of the chain, the sum of all balances has grown by the reward,
  -- and no pending transaction has the key of one in the block. Otherwise the chain is as before.
  unfoldable pub Mines : String → Blockchain F → Produced × Node F → Type 0
  Mines miner chain (mined b, node) =
      (node.chain.chain ≡ chain.chain ++ b ∷ [])
      × (b.miner ≡ some miner)
      × (total node.chain.state.accounts ≡ (
          if truthy (some miner)
          then total chain.state.accounts +ℤ pos 50
          else total chain.state.accounts -ℤ total_fees b.receipts b.transactions))
      × All (λ e. has_key e b.transactions ≡ false) node.mempool.queue
  Mines miner chain (_, node) = node.chain ≡ chain

  finish_mining-Mines :
      (miner : String) (pending mineable : List Transaction) (block : Block) (now : ℕ)
      (node : Node F) (o : Option (ValidationStatus × Blockchain F))
      → add_block now block node.chain ≡ o
      → block.transactions ≡ mineable
      → block.miner ≡ some miner
      → Mines miner node.chain (finish_mining pending mineable block node o)
  unfolding Mines
  finish_mining-Mines miner pending mineable block now node none e same named = refl
  finish_mining-Mines miner pending mineable block now node (some (valid, chain)) e same named =
      elim (add_block-Outcome now block node.chain chain valid e) [
        | inl (ne, _) ↦ absurd (ne refl)
        | inr (_, longer, _, _, sum) ↦ (
          longer,
          named,
          subst
              (λ m. total chain.state.accounts ≡ (
                if truthy m
                then total node.chain.state.accounts +ℤ pos 50
                else total node.chain.state.accounts
                  -ℤ total_fees block.receipts block.transactions))
              named sum,
          subst
              (λ ts.
                All (λ e. has_key e ts ≡ false) (remove_transactions mineable node.mempool).queue)
              (sym same) (remove_transactions_lem mineable node.mempool).0,
        )
      ]
  finish_mining-Mines miner pending mineable block now node (some (s, chain)) e same named =
      elim (add_block-Outcome now block node.chain chain s e) [
        | inl (_, unchanged) ↦ unchanged
        | inr (good, _, _, _, _) ↦ absurd (ground (arith, good))
      ]

  process_mined-Mines :
      (miner : String) (pending mineable : List Transaction) (now low high : ℕ) (node : Node F)
      (block : Block) (m : Mined)
      → IsMined block low high m
      → block.transactions ≡ mineable
      → block.miner ≡ some miner
      → Mines miner node.chain (process_mined now pending mineable node m)
  unfolding Mines IsMined
  process_mined-Mines miner pending mineable now low high node block (found b) (e, _, _, _, _) same
        named =
      finish_mining-Mines miner pending mineable b now node _ refl
        (ap (λ (x : Block). x.transactions) e ∙ same) (ap (λ (x : Block). x.miner) e ∙ named)
  process_mined-Mines miner pending mineable now low high node block m ok same named = refl

  mine_selected-Mines :
      (now later : ℕ) (watch : Watch) (start_nonce max_nonce : ℕ) (miner : String)
      (pending : List Transaction) (s : Selection) (node : Node F) (tip : Option Block)
      (root : Option String)
      → Mines miner node.chain
          (mine_selected now later watch start_nonce max_nonce miner pending s node tip root)
  unfolding Mines candidate
  mine_selected-Mines now later watch start_nonce max_nonce miner pending s node none root = refl
  mine_selected-Mines now later watch start_nonce max_nonce miner pending s node (some prev) none =
      refl
  mine_selected-Mines now later watch start_nonce max_nonce miner pending s node (some prev)
        (some root) =
      let target = node.chain.current_target in
      let block = candidate now miner prev target s (some root) in
      process_mined-Mines miner pending s.mineable later start_nonce (start_nonce + max_nonce) node
        (record block { target = target }) (mine_block watch block target start_nonce max_nonce)
        (mine_block-IsMined watch block target start_nonce max_nonce) refl refl

  after_selection-Mines :
      (now later : ℕ) (watch : Watch) (start_nonce max_nonce : ℕ) (miner : String)
      (pending : List Transaction) (node : Node F) (s : Option Selection)
      → Mines miner node.chain
          (after_selection now later watch start_nonce max_nonce miner pending node s)
  unfolding Mines
  after_selection-Mines now later watch start_nonce max_nonce miner pending node none = refl
  after_selection-Mines now later watch start_nonce max_nonce miner pending node (some s) =
      mine_selected-Mines now later watch start_nonce max_nonce miner pending s
        (record node { mempool = drop_stale s.stale node.mempool }) _ _

  -- A block that the node mines is appended to its chain, names the miner, adds the reward of 50 to
  -- the sum of all balances (if the miner is not ""), and its transactions leave the mempool. If no
  -- block comes out of it, refused or raised, the chain is as it was.
  pub mine_and_process_block-Mines :
      (now later : ℕ) (watch : Watch) (start_nonce max_nonce : ℕ) (miner : String) (node : Node F)
      → Mines miner node.chain
          (mine_and_process_block now later watch start_nonce max_nonce miner node)
  unfolding mine_and_process_block
  mine_and_process_block-Mines now later watch start_nonce max_nonce miner node =
      after_selection-Mines now later watch start_nonce max_nonce miner _ node _
