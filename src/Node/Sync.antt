-- ===== src/Node/Sync.antt =====
-- The messages by which a node that is behind catches up: `hello`, which `on_peer_connected` of main.py
-- sends, `chain_request` and `chain_response`.
use mathlib.Core.Path.{subst}
use mini_chain.Base.{
  ℕ, ◌+◌, ◌≤◌, ◌≡◌, refl, sym, ◌∙◌, ltb, leb, Bool, true, false, none, some, List, [], ◌∷◌, ◌++◌,
  append_assoc, append-nil, length, drop-length_append, All, arith, opt_str_eq_refl, ◌==◌,
  if◌then◌else◌, take, opt_str_eq, str_eq, str_eq_refl,
}
use mini_chain.Platform.{Platform}
use mini_chain.Transaction.{valid}
use mini_chain.Mempool.{remove_transactions}
use mini_chain.Block.{Block}
use mini_chain.Chain.{Float}
use mini_chain.Chain.Apply.{Tuning, Step, apply_block}
use mini_chain.Chain.Blockchain.{Blockchain, last_block, hash_at, extended, add_block}
use mini_chain.Chain.Identity.{apply_block-chain_id}
use mini_chain.Chain.Links.{Follows}
use mini_chain.Chain.FromGenesis.{Genesis, Executed, config, standing}
use mini_chain.Chain.Executions.{place-step, last_block-append, last_block-some}
use mini_chain.Chain.History.{Executes, done, then_block}
use mini_chain.Chain.Later.{
  add_block-later, executed-Follows, executed-count, Executes-index, Executes-split,
}
use mini_chain.Node.{Node}
use mini_chain.Node.Handler.{
  Message, hello, chain_request, chain_response, silent, Handled, request, some_blocks, ask_peers,
  next_index, continues, caught_up, catch_up, on_chain_response, handler,
}

module _ {F : Type 0} where
  -- The index of the last block.
  abbrev pub tip : Node F → ℕ
  tip node = elim (last_block node.chain.chain) [ none ↦ 0 | some b ↦ b.index ]

  -- `on_peer_connected`
  unfoldable pub greeting : Node F → Message
  greeting node = hello node.chain.chain_id (hash_at node.chain.chain 0) (tip node)

module _ {F : Type 0} ⦃fl : Float F⦄ ⦃p : Platform⦄ where
  -- The chain and the place that the blocks lead to, and the request for more, if as many came as were
  -- asked for.
  unfoldable pub Arrives : Bool → ℕ → Genesis F → List Block → Step F → Handled F → Type 0
  Arrives full limit g bs end out =
      (out.raised ≡ false)
      × (out.node.chain.chain ≡ bs)
      × (standing out.node.chain ≡ end)
      × (config out.node.chain ≡ g)
      × (out.sent ≡ (if full then request (next_index out.node.chain.chain) limit ∷ [] else []))

  caught_up-Arrives :
      (full : Bool) (limit : ℕ) (node : Node F)
      → Arrives full limit
          (config node.chain)
          node.chain.chain
          (standing node.chain)
          (caught_up full limit node)
  unfolding Arrives
  caught_up-Arrives true limit node = (refl, refl, refl, refl, refl)
  caught_up-Arrives false limit node = (refl, refl, refl, refl, refl)

  abbrev synced : Block → Blockchain F → Node F → Node F
  synced b chain node = record {
    chain = chain;
    mempool = remove_transactions b.transactions node.mempool;
  }

  catch_up-step :
      (now : ℕ) (full : Bool) (limit : ℕ) (prev b : Block) (bs : List Block) (node : Node F)
      (chain : Blockchain F)
      → last_block node.chain.chain ≡ some prev
      → b.index ≡ prev.index + 1
      → add_block now b node.chain ≡ some (valid, chain)
      → catch_up now full limit (b ∷ bs) node ≡ catch_up now full limit bs (synced b chain node)
  unfolding catch_up
  catch_up-step now full limit prev b bs node chain at_end count added =
      let next : next_index node.chain.chain ≡ prev.index + 1 = (rw (next_index, at_end) refl) in
      let new : ltb b.index (next_index node.chain.chain) ≡ false =
        (rw (next, count) (ground arith)) in
      rw (new, added) refl

  -- Blocks that were executed from this node's place on bring it to their end.
  catch_up-Arrives :
      (now : ℕ) (full : Bool) (limit : ℕ) {tun : Tuning F} {prev : Block} {bs : List Block}
      {s end : Step F} (node : Node F)
      → Executes tun prev bs s end
      → tun ≡ node.chain.tuning
      → last_block node.chain.chain ≡ some prev
      → s ≡ standing node.chain
      → node.chain.state.chain_id ≡ node.chain.chain_id
      → All (λ (b : Block). b.timestamp ≤ now + 15000) bs
      → Arrives full limit
          (config node.chain)
          (node.chain.chain ++ bs)
          end
          (catch_up now full limit bs node)
  unfolding catch_up
  catch_up-Arrives now full limit node (done prev s) tuned at_end same cid near =
      let Goal = λ (bs : List Block) (x : Step F).
        Arrives full limit (config node.chain) bs x (caught_up full limit node) in
      subst (λ bs. Goal bs s) (sym (append-nil node.chain.chain))
        (subst (Goal node.chain.chain) (sym same) (caught_up-Arrives full limit node))
  catch_up-Arrives now full limit {tun} {end} node
        (then_block {prev} {b} {bs} {s} {next} now0 ran good more) tuned at_end same cid
        (first, near) =
      let bc = node.chain in
      let ran' =
        subst (λ (x : Step F). apply_block bc.tuning prev b now0 x.state x.target x.avg ≡ some next)
          same
          (subst (λ t. apply_block t prev b now0 s.state s.target s.avg ≡ some next) tuned ran) in
      let count = executed-count tun prev b now0 s next ran good in
      let added = add_block-later prev b now0 now next bc at_end cid ran' good first in
      let cid' : next.state.chain_id ≡ bc.chain_id =
        apply_block-chain_id bc.tuning prev b now0 bc.state bc.current_target bc.avg_block_time next
          ran' good
        ∙ cid in
      let later =
        catch_up-Arrives now full limit (synced b (extended b next bc) node) more tuned
          (last_block-append bc.chain b) (sym (place-step next good)) cid' near in
      subst (Arrives full limit (config node.chain) (bc.chain ++ b ∷ bs) end)
        (sym (catch_up-step now full limit prev b bs node (extended b next bc) at_end count added))
        (subst
          (λ x.
            Arrives full limit (config node.chain) x end
              (catch_up now full limit bs (synced b (extended b next bc) node)))
          (append_assoc bc.chain (b ∷ []) bs) later)

  -- The same place behind a longer chain of the same genesis: the blocks between are executed.
  pub between-Executes :
      (g : Genesis F) (c : Block) (cs bs : List Block) (last : Block) (s end : Step F)
      → Executed g (c ∷ cs) s
      → last_block (c ∷ cs) ≡ some last
      → Executed g ((c ∷ cs) ++ bs) end
      → Executes g.tuning last bs s end
  between-Executes g c cs bs last s end here at_end there = Executes-split bs last here at_end there

  pub next_index-length :
      (g : Genesis F) (c : Block) (cs : List Block) (s : Step F)
      → Executed g (c ∷ cs) s
      → c.index ≡ 0
      → next_index (c ∷ cs) ≡ length (c ∷ cs)
  next_index-length g c cs s ran zero_th =
      let (last, at_end) = last_block-some c cs in
      let count = Executes-index ran at_end in
      rw (next_index, at_end) (omega (arith, count, zero_th))

  pub tip-length :
      (g : Genesis F) (c : Block) (cs : List Block) (node : Node F) (s : Step F)
      → node.chain.chain ≡ c ∷ cs
      → Executed g (c ∷ cs) s
      → c.index ≡ 0
      → tip node ≡ length cs
  tip-length g c cs node s e ran zero_th =
      let (last, at_end) = last_block-some c cs in
      let count = Executes-index ran at_end in rw (tip, e, at_end) (omega (arith, count, zero_th))

  pub meets :
      (now : ℕ) (here there : Node F) (c : Block) (cs bs : List Block)
      → here.chain.chain ≡ c ∷ cs
      → there.chain.chain ≡ (c ∷ cs) ++ bs
      → here.chain.chain_id ≡ there.chain.chain_id
      → next_index here.chain.chain ≤ tip there
      → handler now (greeting there) here
        ≡ silent (request (next_index here.chain.chain) 500 ∷ ask_peers ∷ []) here
  unfolding handler greeting
  meets now here there c cs bs ours theirs one ahead =
      let ids : str_eq there.chain.chain_id here.chain.chain_id ≡ true = (rw one (str_eq_refl _)) in
      let hashes : opt_str_eq (hash_at there.chain.chain 0) (hash_at here.chain.chain 0) ≡ true =
        (rw (ours, theirs) (opt_str_eq_refl c.hash)) in
      let more : leb (next_index here.chain.chain) (tip there) ≡ true = (ground arith) in
      rw (ids, hashes, more) refl

  pub answers :
      (now : ℕ) (there : Node F) (xs bs : List Block)
      → there.chain.chain ≡ xs ++ bs
      → (handler now (chain_request (length xs) 500) there).sent ≡ some_blocks (take 500 bs) ∷ []
  unfolding handler
  answers now there xs bs theirs = rw (theirs, drop-length_append xs bs) refl

  pub arrives :
      (now : ℕ) (here : Node F) (last r : Block) (rs : List Block) (end : Step F)
      → last_block here.chain.chain ≡ some last
      → here.chain.state.chain_id ≡ here.chain.chain_id
      → Executes here.chain.tuning last (r ∷ rs) (standing here.chain) end
      → Follows last r
      → All (λ (b : Block). b.timestamp ≤ now + 15000) (r ∷ rs)
      → Arrives
          (length (r ∷ rs) == 500)
          500
          (config here.chain)
          (here.chain.chain ++ r ∷ rs)
          end
          (handler now (chain_response (some (r ∷ rs)) 500) here)
  unfolding handler on_chain_response Follows
  arrives now here last r rs end at_end cid ran (names, count, _, _, _, _, _) near =
      let joined : continues here.chain.chain r ≡ true =
        (rw (continues, at_end, names, count) (rw (str_eq_refl r.previous_hash) (ground arith))) in
      rw joined (catch_up-Arrives now _ 500 here ran refl at_end refl cid near)

  pub first-Follows :
      {tun : Tuning F} {prev b : Block} {bs : List Block} {s end : Step F}
      → Executes tun prev (b ∷ bs) s end
      → Follows prev b
  first-Follows {tun} (then_block {prev} {b} {s} {next} now ran good more) =
      executed-Follows tun prev b now s next ran good
