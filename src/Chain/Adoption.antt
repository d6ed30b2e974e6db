-- ===== src/Chain/Adoption.antt =====
-- What `resolve_conflicts` of minichain/chain.py does to the object, in terms of the execution of blocks and of
-- the transactions on the two chains.
use mathlib.Core.Path.{subst}
use mini_chain.Base.{
  ℕ, suc, ◌≤◌, ◌<◌, ◌≡◌, ◌⊎◌, inl, inr, refl, sym, String, Bool, true, false, Option, none, some,
  List, [], ◌∷◌, ◌++◌, length, take, drop, then?-some,
}
use mini_chain.Platform.{Platform}
use mini_chain.Transaction.{Transaction, valid}
use mini_chain.State.Accounts.{Accounts}
use mini_chain.Block.{Block}
use mini_chain.Chain.{Float}
use mini_chain.Chain.Apply.{Step}
use mini_chain.Chain.Blockchain.{
  Blockchain, get_total_work, last_block, hash_at, fork_snapshot, resume, from_known,
  replay_from_genesis, rebuild_from, rebuild, resolve_conflicts,
}
use mini_chain.Chain.Executions.{fork_snapshot-found}
use mini_chain.Chain.FromGenesis.{find_snapshot-All}
use mini_chain.Chain.History.{Executes, replay-Executes}
use mini_chain.Chain.Orphans.{In, All-In, AreOrphans, orphans-AreOrphans}
use mini_chain.Chain.Reorg.{Taken, resolve_conflicts-cases}

module _ {F : Type 0} ⦃fl : Float F⦄ ⦃p : Platform⦄ where
  -- Where an execution may start: behind the genesis block in the genesis state, or behind the fork in a
  -- snapshot that the object holds for the hash of the block before it.
  unfoldable pub StartsAt : Blockchain F → ℕ → ℕ → Step F → Type 0
  StartsAt bc fork_idx k start =
      ((k ≡ 1) × (start.state.accounts ≡ bc.genesis_state))
      ⊎ ((k ≡ fork_idx)
          × ((m : ℕ) × (h : String) × (fork_idx ≡ suc m)
              × (hash_at bc.chain m ≡ some h)
              × In (some h, start.state.accounts) bc.state_snapshots))

  -- From such a start the chain's blocks behind it were executed, each VALID, to this end.
  unfoldable pub Ran : Blockchain F → ℕ → List Block → Step F → Type 0
  Ran bc fork_idx chain end =
      (k : ℕ) × (prev : Block) × (start : Step F) × (last_block (take k chain) ≡ some prev)
      × StartsAt bc fork_idx k start
      × Executes bc.tuning prev (drop k chain) start end

  from_genesis-Ran :
      (bc : Blockchain F) (now fork_idx : ℕ) (chain : List Block) (end : Step F)
      → replay_from_genesis bc now chain ≡ some end
      → end.status ≡ valid
      → Ran bc fork_idx chain end
  unfolding replay_from_genesis Ran StartsAt
  from_genesis-Ran bc now fork_idx [] end h good = cc
  from_genesis-Ran bc now fork_idx (genesis ∷ rest) end h good = (
    1,
    genesis,
    _,
    refl,
    inl (refl, refl),
    replay-Executes bc.tuning now genesis rest _ end h good,
  )

  -- The snapshot of the block before the fork.
  unfoldable StartsFrom : Blockchain F → ℕ → Accounts → Type 0
  StartsFrom bc fork_idx accs =
      (m : ℕ) × (h : String) × (fork_idx ≡ suc m)
      × (hash_at bc.chain m ≡ some h)
      × In (some h, accs) bc.state_snapshots

  resume-Ran :
      (bc : Blockchain F) (now fork_idx : ℕ) (accs : Accounts) (chain : List Block) (known : ℕ × F)
      (end : Step F)
      → StartsFrom bc fork_idx accs
      → resume bc now accs (take fork_idx chain) (drop fork_idx chain) known ≡ some end
      → end.status ≡ valid
      → Ran bc fork_idx chain end
  unfolding Ran StartsAt StartsFrom
  resume-Ran bc now fork_idx accs chain known end found h good =
      let (prev, at_end, ran) = then?-some (last_block (take fork_idx chain)) _ end h in
      (
        fork_idx,
        prev,
        _,
        at_end,
        inr (refl, found),
        replay-Executes bc.tuning now prev (drop fork_idx chain) _ end ran good,
      )

  from_known-Ran :
      (bc : Blockchain F) (now fork_idx : ℕ) (accs : Accounts) (chain known : List Block)
      (end : Step F)
      → StartsFrom bc fork_idx accs
      → take fork_idx chain ≡ known
      → from_known bc now accs known (drop fork_idx chain) ≡ some end
      → end.status ≡ valid
      → Ran bc fork_idx chain end
  unfolding from_known
  from_known-Ran bc now fork_idx accs chain [] end found e h good = cc
  from_known-Ran bc now fork_idx accs chain (genesis ∷ known) end found e h good =
      let (forward, _, ran) =
        then?-some _ (resume bc now accs (genesis ∷ known) (drop fork_idx chain)) end h in
      resume-Ran bc now fork_idx accs chain forward end found
        (subst (λ ks. resume bc now accs ks (drop fork_idx chain) forward ≡ some end) (sym e) ran)
        good

  rebuild_from-Ran :
      (bc : Blockchain F) (now fork_idx : ℕ) (chain : List Block) (snapshot : Option Accounts)
      (end : Step F)
      → fork_snapshot bc.chain fork_idx bc.state_snapshots ≡ snapshot
      → rebuild_from bc now fork_idx chain snapshot ≡ some end
      → end.status ≡ valid
      → Ran bc fork_idx chain end
  unfolding StartsFrom
  rebuild_from-Ran bc now fork_idx chain none end e h good =
      from_genesis-Ran bc now fork_idx chain end h good
  rebuild_from-Ran bc now fork_idx chain (some accs) end e h good =
      let (m, hash, behind, at, found) =
        fork_snapshot-found bc.chain fork_idx bc.state_snapshots accs e in
      let held =
        find_snapshot-All (λ s. In s bc.state_snapshots) hash bc.state_snapshots accs
          (All-In bc.state_snapshots) found in
      from_known-Ran bc now fork_idx accs chain (take fork_idx chain) end
        (m, hash, behind, at, held) refl h good

  -- The object is on a chain of its own first blocks and the given ones, which has strictly more work;
  -- the blocks were executed to the new state, target and average; and these transactions are orphaned.
  unfoldable pub Adopts : ℕ → List Block → Blockchain F → Blockchain F → List Transaction → Type 0
  Adopts fork_idx blocks bc bc' orphaned =
      (fork_idx ≤ length bc.chain)
      × (bc'.chain ≡ take fork_idx bc.chain ++ blocks)
      × (get_total_work bc.chain < get_total_work bc'.chain)
      × ((end : Step F) × Ran bc fork_idx bc'.chain end
          × (bc'.state ≡ end.state)
          × (bc'.current_target ≡ end.target)
          × (bc'.avg_block_time ≡ end.avg))
      × AreOrphans bc.chain bc'.chain orphaned

  -- `resolve_conflicts` refuses the blocks, and changes nothing, or it takes them after the object's first
  -- blocks: that chain has strictly more work than the old one; its blocks were executed in order, each
  -- VALID, from behind the genesis block or from a snapshot behind the fork, to the new state, target and
  -- average; and what it returns are transactions of the old chain, none of whose ids is on the new one,
  -- and every such id is among theirs (where a chain's first block counts for neither).
  pub resolve_conflicts-Outcome :
      (now : ℕ) (blocks : List Block) (bc bc' : Blockchain F) (ok : Bool)
      (orphaned : List Transaction)
      → resolve_conflicts now blocks bc ≡ some ((ok, orphaned), bc')
      → ((ok ≡ false) × (orphaned ≡ []) × (bc' ≡ bc))
        ⊎ ((ok ≡ true) × ((fork_idx : ℕ) × Adopts fork_idx blocks bc bc' orphaned))
  unfolding Taken rebuild Adopts
  resolve_conflicts-Outcome now blocks bc bc' ok orphaned h =
      elim (resolve_conflicts-cases now blocks bc bc' ok orphaned h) [
        | inl same ↦ inl same
        | inr (n, le, (yes_ok, chain, more, gone, (end, ran, good, state, target, avg))) ↦ inr (
          yes_ok,
          (
            n,
            (
              le,
              chain,
              more,
              (end, rebuild_from-Ran bc now n bc'.chain _ end refl ran good, state, target, avg),
              subst (AreOrphans bc.chain bc'.chain) (sym gone)
                  (orphans-AreOrphans bc.chain bc'.chain),
            ),
          ),
        )
      ]
