-- ===== src/Node/Invariant.antt =====
-- What holds of a node whatever it mines and whatever it is sent: its chain is linked, and its
-- mempool is ordered and within its size.
use mini_chain.Base.{
  ℕ, String, ◌≡◌, refl, Bool, true, false, Option, none, some, List, [], ◌∷◌, if_intro, ltb, str_eq,
  opt_str_eq, leb, not,
}
use mini_chain.Platform.{Platform}
use mini_chain.Transaction.{Transaction, ValidationStatus, valid}
use mini_chain.Block.{Block}
use mini_chain.Chain.{Float}
use mini_chain.Chain.Blockchain.{Blockchain, Reorg, add_block, resolve_conflicts, hash_at}
use mini_chain.Chain.Growth.{add_block-IsLinked}
use mini_chain.Chain.Reorg.{resolve_conflicts-IsLinked}
use mini_chain.Node.{Node}
use mini_chain.Node.Pool.{add_transaction-IsPool, remove_transactions-IsPool, add_all-IsPool}
use mini_chain.Node.Mining.{mine_and_process_block}
use mini_chain.Pow.{Watch}
use mini_chain.Node.Handler.{
  Message, hello, tx_message, block_message, chain_request, chain_response, Handled, on_tx,
  by_logic, with_accounts, on_block, on_added, catch_up, caught_up, after_synced, on_reorg,
  continues, on_chain_response, on_hello, next_index, handler,
}
use mini_chain.Json.{Json}
use mini_chain.Transaction.Sign.{Signer}
use mini_chain.Cli.{FileRead, Session}
use mini_chain.Cli.Commands.{Mining, cli_turn}
use mini_chain.Cli.Submits.{HasOwnAddress}
use mini_chain.Cli.Sound.{cli_turn-IsSound}
use mini_chain.Rpc.{handle_rpc}
use mini_chain.Rpc.Sound.{handle_rpc-IsSound}
use mini_chain.Node.Sound.{IsSound, mine_and_process_block-IsSound}

module _ {F : Type 0} ⦃fl : Float F⦄ ⦃p : Platform⦄ where
  caught_up-IsSound :
      (full : Bool) (limit : ℕ) (node : Node F)
      → IsSound node
      → IsSound (caught_up full limit node).node
  caught_up-IsSound true limit node ok = ok
  caught_up-IsSound false limit node ok = ok

  after_synced-IsSound :
      (now : ℕ) (b : Block) (node : Node F) (o : Option (ValidationStatus × Blockchain F))
      (rest : Node F → Handled F)
      → add_block now b node.chain ≡ o
      → ((n : Node F) → IsSound n → IsSound (rest n).node)
      → IsSound node
      → IsSound (after_synced b node o rest).node
  unfolding IsSound
  after_synced-IsSound now b node none rest e later ok = ok
  after_synced-IsSound now b node (some (valid, chain)) rest e later (linked, pool) = later _ (
    add_block-IsLinked now b node.chain chain valid linked e,
    remove_transactions-IsPool b.transactions node.mempool pool,
  )
  after_synced-IsSound now b node (some (s, chain)) rest e later (linked, pool) =
      (add_block-IsLinked now b node.chain chain s linked e, pool)

  catch_up-IsSound :
      (now : ℕ) (full : Bool) (limit : ℕ) (bs : List Block) (node : Node F)
      → IsSound node
      → IsSound (catch_up now full limit bs node).node
  unfolding catch_up
  catch_up-IsSound now full limit [] node ok = caught_up-IsSound full limit node ok
  catch_up-IsSound now full limit (b ∷ bs) node ok =
      if_intro (λ (h : Handled F). IsSound h.node) (ltb b.index (next_index node.chain.chain))
        (λ _. catch_up-IsSound now full limit bs node ok)
        (λ _.
          after_synced-IsSound now b node _ (catch_up now full limit bs) refl
            (λ n. catch_up-IsSound now full limit bs n) ok)

  on_reorg-IsSound :
      (now : ℕ) (first : Block) (bs : List Block) (full : Bool) (limit : ℕ) (node : Node F)
      (o : Option (Reorg F))
      → resolve_conflicts now bs node.chain ≡ o
      → IsSound node
      → IsSound (on_reorg first full limit node o).node
  unfolding IsSound
  on_reorg-IsSound now first bs full limit node none e ok = ok
  on_reorg-IsSound now first bs full limit node (some ((true, orphaned), chain)) e (linked, pool) =
      caught_up-IsSound full limit _ (
        resolve_conflicts-IsLinked now bs node.chain chain true orphaned linked e,
        add_all-IsPool orphaned node.mempool pool,
      )
  on_reorg-IsSound now first bs full limit node (some ((false, orphaned), chain)) e (linked, pool) =
      (resolve_conflicts-IsLinked now bs node.chain chain false orphaned linked e, pool)

  on_added-IsSound :
      (now : ℕ) (b : Block) (node : Node F) (o : Option (ValidationStatus × Blockchain F))
      → add_block now b node.chain ≡ o
      → IsSound node
      → IsSound (on_added b node o).node
  unfolding IsSound
  on_added-IsSound now b node none e ok = ok
  on_added-IsSound now b node (some (valid, chain)) e (linked, pool) = (
    add_block-IsLinked now b node.chain chain valid linked e,
    remove_transactions-IsPool b.transactions node.mempool pool,
  )
  on_added-IsSound now b node (some (s, chain)) e (linked, pool) =
      (add_block-IsLinked now b node.chain chain s linked e, pool)

  by_logic-IsSound :
      (t : Transaction) (node : Node F) (s : ValidationStatus)
      → IsSound node
      → IsSound (by_logic t node s).node
  unfolding IsSound
  by_logic-IsSound t node valid (linked, pool) =
      (linked, add_transaction-IsPool t node.mempool pool)
  by_logic-IsSound t node s ok = ok

  on_tx-IsSound :
      (o : Option Transaction) (node : Node F) → IsSound node → IsSound (on_tx o node).node
  unfolding on_tx IsSound
  on_tx-IsSound none node ok = ok
  on_tx-IsSound (some t) node ok =
      if_intro (λ (h : Handled F). IsSound h.node) (str_eq t.chain_id node.chain.chain_id)
        (λ _. by_logic-IsSound t (with_accounts _ node) _ ok) (λ _. ok)

  on_chain_response-IsSound :
      (now : ℕ) (o : Option (List Block)) (limit : ℕ) (node : Node F)
      → IsSound node
      → IsSound (on_chain_response now o limit node).node
  unfolding on_chain_response
  on_chain_response-IsSound now none limit node ok = ok
  on_chain_response-IsSound now (some []) limit node ok = ok
  on_chain_response-IsSound now (some (first ∷ bs)) limit node ok =
      if_intro (λ (h : Handled F). IsSound h.node) (continues node.chain.chain first)
        (λ _. catch_up-IsSound now _ limit (first ∷ bs) node ok)
        (λ _. on_reorg-IsSound now first (first ∷ bs) _ limit node _ refl ok)

  on_hello-IsSound :
      (chain_id : String) (genesis_hash : Option String) (tip : ℕ) (node : Node F)
      → IsSound node
      → IsSound (on_hello chain_id genesis_hash tip node).node
  on_hello-IsSound chain_id genesis_hash tip node ok =
      let Goal = λ (h : Handled F). IsSound h.node in
      if_intro Goal (not (str_eq chain_id node.chain.chain_id)) (λ _. ok)
        (λ _.
          if_intro Goal (not (opt_str_eq genesis_hash (hash_at node.chain.chain 0))) (λ _. ok)
            (λ _. if_intro Goal (leb (next_index node.chain.chain) tip) (λ _. ok) (λ _. ok)))

  -- Whatever message arrives, the node stays sound.
  handler-IsSound :
      (now : ℕ) (m : Message) (node : Node F) → IsSound node → IsSound (handler now m node).node
  unfolding handler on_block
  handler-IsSound now (hello chain_id genesis_hash tip) node ok =
      on_hello-IsSound chain_id genesis_hash tip node ok
  handler-IsSound now (tx_message t) node ok = on_tx-IsSound t node ok
  handler-IsSound now (block_message none) node ok = ok
  handler-IsSound now (block_message (some b)) node ok = on_added-IsSound now b node _ refl ok
  handler-IsSound now (chain_request first limit) node ok = ok
  handler-IsSound now (chain_response bs limit) node ok =
      on_chain_response-IsSound now bs limit node ok

module _ {F : Type 0} ⦃fl : Float F⦄ ⦃p : Platform⦄ (K : Type 0) ⦃sg : Signer K⦄ where
  -- What a node does, one step at a time.
  pub data Reaches : Node F → Node F → Type 0 where
    begins : {node : Node F} → Reaches node node
    mines :
        {from node : Node F} (now later : ℕ) (watch : Watch) (start_nonce max_nonce : ℕ)
        (miner : String)
        → Reaches from node
        → Reaches from (mine_and_process_block now later watch start_nonce max_nonce miner node).1
    receives :
        {from node : Node F} (now : ℕ) (m : Message)
        → Reaches from node
        → Reaches from (handler now m node).node
    serves :
        {from node : Node F} (message : String) (now : ℕ) (unknown : String) (body : Option Json)
        → Reaches from node
        → Reaches from (handle_rpc message now unknown body node).node
    reads :
        {from : Node F} (files : String → FileRead) (m : Mining) (parts : List String)
        (s : Session F K)
        → HasOwnAddress s
        → Reaches from s.node
        → Reaches from (cli_turn files m parts s).session.node

  -- A node that starts with a linked chain and an ordered mempool within its size has these whatever
  -- blocks it mines, messages it handles, requests it serves and lines it is given, also where these
  -- raise.
  pub Reaches-IsSound : (from node : Node F) → IsSound from → Reaches from node → IsSound node
  Reaches-IsSound from _ ok begins = ok
  Reaches-IsSound from node ok (mines {node = n} now later watch start_nonce max_nonce miner run) =
      mine_and_process_block-IsSound now later watch start_nonce max_nonce miner n
        (Reaches-IsSound from n ok run)
  Reaches-IsSound from node ok (receives {node = n} now m run) =
      handler-IsSound now m n (Reaches-IsSound from n ok run)
  Reaches-IsSound from node ok (serves {node = n} message now unknown body run) =
      handle_rpc-IsSound message now unknown body n (Reaches-IsSound from n ok run)
  Reaches-IsSound from node ok (reads files m parts s own run) =
      cli_turn-IsSound files m parts s own (Reaches-IsSound from s.node ok run)
