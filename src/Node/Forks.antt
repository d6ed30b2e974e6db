-- ===== src/Node/Forks.antt =====
-- What becomes of a peer that sends a block of another fork, or one that is ahead of our chain.
use mini_chain.Base.{
  ℕ, String, ◌≡◌, refl, true, false, some, [], ◌∷◌, ◌-◌, ltb, if◌then◌else◌, arith, opt_str_eq,
}
use mini_chain.Platform.{Platform}
use mini_chain.Transaction.{invalid}
use mini_chain.Block.{Block}
use mini_chain.Chain.{Float}
use mini_chain.Chain.Link.{names_hash, validate_block_link_and_hash}
use mini_chain.Chain.Apply.{apply_block, after_link}
use mini_chain.Chain.Blockchain.{last_block, add_block, commit}
use mini_chain.Node.{Node}
use mini_chain.Node.Handler.{next_index, request, on_block, block_message, handler}
use mini_chain.P2p.{
  Counts, Watched, count_up, count_of, increment_counter, handle_validation_status,
}
use mini_chain.P2p.Bans.{is_peer_banned}

banned_at_once :
    (thresholds : Counts) (peer : String) (w : Watched)
    → thresholds.invalid_count ≡ 1
    → is_peer_banned peer (handle_validation_status thresholds peer invalid w).0.banned ≡ true
unfolding handle_validation_status increment_counter is_peer_banned count_up count_of
banned_at_once thresholds peer w one = ground arith

module _ {F : Type 0} ⦃fl : Float F⦄ ⦃p : Platform⦄ where
  unlinked-invalid :
      (now : ℕ) (b prev : Block) (node : Node F)
      → last_block node.chain.chain ≡ some prev
      → opt_str_eq (some b.previous_hash) prev.hash ≡ false
      → add_block now b node.chain ≡ some (invalid, node.chain)
  unfolding add_block apply_block after_link validate_block_link_and_hash names_hash commit
  unlinked-invalid now b prev node at_end other = rw at_end (rw other refl)

  -- A peer that sends a block whose parent is not our last block, as every block of another fork
  -- and every block ahead of ours is, gets the status INVALID: the node asks for 500 blocks from its
  -- end on, or, if the block is not ahead of it, for 50 from 50 before the block on, and with the
  -- default threshold of 1 bans the peer at once.
  pub fork_sender_banned :
      (now : ℕ) (b prev : Block) (node : Node F) (thresholds : Counts) (peer : String) (w : Watched)
      → last_block node.chain.chain ≡ some prev
      → opt_str_eq (some b.previous_hash) prev.hash ≡ false
      → thresholds.invalid_count ≡ 1
      → let out = handler now (block_message (some b)) node in
        (out.status ≡ some invalid)
        × (out.sent ≡ (
            if ltb (next_index node.chain.chain) b.index
            then request (next_index node.chain.chain) 500 ∷ []
            else request (b.index - 50) 50 ∷ []))
        × (is_peer_banned peer (handle_validation_status thresholds peer invalid w).0.banned ≡ true)
  unfolding handler on_block handle_validation_status increment_counter is_peer_banned count_up
      count_of
  fork_sender_banned now b prev node thresholds peer w at_end other one =
      let e = unlinked-invalid now b prev node at_end other in
      (rw e refl, rw e refl, banned_at_once thresholds peer w one)
