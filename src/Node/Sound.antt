-- ===== src/Node/Sound.antt =====
-- A node is sound if its chain is linked and its mempool is ordered and within its size; mining
-- keeps it so.
use mini_chain.Base.{ℕ, String, ◌≡◌, refl, Option, none, some, List}
use mini_chain.Platform.{Platform}
use mini_chain.Transaction.{Transaction, ValidationStatus, valid}
use mini_chain.Block.{Block}
use mini_chain.Chain.{Float}
use mini_chain.Chain.Blockchain.{Blockchain, add_block}
use mini_chain.Chain.Growth.{IsLinked, add_block-IsLinked}
use mini_chain.Node.{Node}
use mini_chain.Node.Pool.{IsPool, remove_transactions-IsPool, drop_stale-IsPool, add_all-IsPool}
use mini_chain.Node.Mining.{
  Selection, finish_mining, process_mined, mine_selected, after_selection, mine_and_process_block,
}
use mini_chain.Pow.{Mined, found, Watch}

module _ {F : Type 0} ⦃fl : Float F⦄ ⦃p : Platform⦄ where
  unfoldable pub IsSound : Node F → Type 0
  IsSound node = IsLinked node.chain.chain × IsPool node.mempool

  finish_mining-IsSound :
      (pending mineable : List Transaction) (block : Block) (now : ℕ) (node : Node F)
      (o : Option (ValidationStatus × Blockchain F))
      → add_block now block node.chain ≡ o
      → IsSound node
      → IsSound (finish_mining pending mineable block node o).1
  unfolding IsSound
  finish_mining-IsSound pending mineable block now node none e ok = ok
  finish_mining-IsSound pending mineable block now node (some (valid, chain)) e (linked, pool) = (
    add_block-IsLinked now block node.chain chain valid linked e,
    remove_transactions-IsPool mineable node.mempool pool,
  )
  finish_mining-IsSound pending mineable block now node (some (s, chain)) e (linked, pool) = (
    add_block-IsLinked now block node.chain chain s linked e,
    add_all-IsPool pending node.mempool pool,
  )

  process_mined-IsSound :
      (now : ℕ) (pending mineable : List Transaction) (node : Node F) (m : Mined)
      → IsSound node
      → IsSound (process_mined now pending mineable node m).1
  process_mined-IsSound now pending mineable node (found block) ok =
      finish_mining-IsSound pending mineable block now node _ refl ok
  process_mined-IsSound now pending mineable node m ok = ok

  mine_selected-IsSound :
      (now later : ℕ) (watch : Watch) (start_nonce max_nonce : ℕ) (miner : String)
      (pending : List Transaction) (s : Selection) (node : Node F) (tip : Option Block)
      (root : Option String)
      → IsSound node
      → IsSound
          (mine_selected now later watch start_nonce max_nonce miner pending s node tip root).1
  mine_selected-IsSound now later watch start_nonce max_nonce miner pending s node (some prev)
        (some root) ok =
      process_mined-IsSound later pending s.mineable node _ ok
  mine_selected-IsSound now later watch start_nonce max_nonce miner pending s node none root ok = ok
  mine_selected-IsSound now later watch start_nonce max_nonce miner pending s node (some prev) none
        ok =
      ok

  after_selection-IsSound :
      (now later : ℕ) (watch : Watch) (start_nonce max_nonce : ℕ) (miner : String)
      (pending : List Transaction) (node : Node F) (s : Option Selection)
      → IsSound node
      → IsSound (after_selection now later watch start_nonce max_nonce miner pending node s).1
  unfolding IsSound
  after_selection-IsSound now later watch start_nonce max_nonce miner pending node none ok = ok
  after_selection-IsSound now later watch start_nonce max_nonce miner pending node (some s)
        (linked, pool) =
      mine_selected-IsSound now later watch start_nonce max_nonce miner pending s _ _ _
        (linked, drop_stale-IsPool s.stale node.mempool pool)

  -- However mining ends, the node stays sound.
  pub mine_and_process_block-IsSound :
      (now later : ℕ) (watch : Watch) (start_nonce max_nonce : ℕ) (miner : String) (node : Node F)
      → IsSound node
      → IsSound (mine_and_process_block now later watch start_nonce max_nonce miner node).1
  unfolding mine_and_process_block
  mine_and_process_block-IsSound now later watch start_nonce max_nonce miner node ok =
      after_selection-IsSound now later watch start_nonce max_nonce miner _ node _ ok
