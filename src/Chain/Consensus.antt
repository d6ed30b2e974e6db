-- ===== src/Chain/Consensus.antt =====
-- What nodes agree on: minichain/chain.py keeps the state of a chain a function of the chain.
use mathlib.Core.Path.{subst}
use mathlib.Core.Option.{some-injective}
use mini_chain.Base.{
  ℕ, ◌≤◌, ◌≡◌, ◌⊎◌, inl, inr, refl, sym, ◌∙◌, ap, Bool, true, false, Option, none, some, List, [],
  ◌∷◌, ◌++◌, length, take, if_intro, leb, String,
}
use mini_chain.Platform.{Platform}
use mini_chain.Transaction.{Transaction, ValidationStatus, valid}
use mini_chain.Block.{Block}
use mini_chain.Chain.{Float}
use mini_chain.Chain.Apply.{Step}
use mini_chain.Chain.Blockchain.{
  Blockchain, Reorg, get_total_work, connects, adopt, rebuild, reorganise, switched, add_block,
  resolve_conflicts,
}
use mini_chain.Chain.Growth.{Appends, add_block-cases}
use mini_chain.Chain.Reorg.{adopt-cases}
use mini_chain.Chain.Replay.{connects-length}
use mini_chain.Chain.FromGenesis.{Names, config, IsExecuted}
use mini_chain.Chain.Executions.{extended-IsExecuted, rebuild-Executed, switched-IsExecuted}

module _ {F : Type 0} ⦃fl : Float F⦄ ⦃p : Platform⦄ where
  -- The object is the same, or it was moved to a chain that shares its first `n` blocks.
  unfoldable Moves : ℕ → Blockchain F → Blockchain F → Type 0
  Moves now bc bc' =
      (bc' ≡ bc)
      ⊎ ((n : ℕ) × (new : List Block) × (end : Step F) × (n ≤ length bc.chain)
          × (rebuild bc now n (take n bc.chain ++ new) ≡ some end)
          × (end.status ≡ valid)
          × (bc' ≡ switched (take n bc.chain ++ new) end bc))

  adopt-Moves :
      (now n : ℕ) (new : List Block) (bc : Blockchain F) (run : Option (Step F)) (r : Reorg F)
      → n ≤ length bc.chain
      → rebuild bc now n (take n bc.chain ++ new) ≡ run
      → adopt bc (take n bc.chain ++ new) run ≡ some r
      → Moves now bc r.1
  unfolding Moves
  adopt-Moves now n new bc none r le e h = cc
  adopt-Moves now n new bc (some end) ((ok, orphaned), bc') le e h =
      elim (adopt-cases bc bc' (take n bc.chain ++ new) end end.status ok orphaned
        (some-injective _ _ h)) [
          | inl (_, _, same) ↦ inl same
          | inr (good, _, _, moved) ↦ inr (n, new, end, le, e, good, moved)
        ]

  unmoved :
      (now : ℕ) (bc : Blockchain F) (r : Reorg F)
      → some ((false, []), bc) ≡ some r
      → Moves now bc r.1
  unfolding Moves
  unmoved now bc r h = inl (ap (λ (x : Reorg F). x.1) (sym (some-injective _ _ h)))

  reorganise-Moves :
      (now : ℕ) (first : Block) (blocks : List Block) (bc : Blockchain F) (worked : Option Bool)
      (r : Reorg F)
      → first.index ≤ length bc.chain
      → reorganise bc now first blocks worked ≡ some r
      → Moves now bc r.1
  unfolding reorganise
  reorganise-Moves now first blocks bc none r le h = cc
  reorganise-Moves now first blocks bc (some false) r le h = unmoved now bc r h
  reorganise-Moves now first blocks bc (some true) r le h =
      let proposed = take first.index bc.chain ++ blocks in
      (if_intro (λ (o : Option (Reorg F)). o ≡ some r → Moves now bc r.1)
          (leb (get_total_work proposed) (get_total_work bc.chain)) (λ _ k. unmoved now bc r k)
          (λ _ k. adopt-Moves now first.index blocks bc _ r le refl k))
        h

  resolve_conflicts-Moves :
      (now : ℕ) (blocks : List Block) (bc : Blockchain F) (r : Reorg F)
      → resolve_conflicts now blocks bc ≡ some r
      → Moves now bc r.1
  unfolding resolve_conflicts
  resolve_conflicts-Moves now [] bc r h = unmoved now bc r h
  resolve_conflicts-Moves now (first ∷ blocks) bc r h =
      (if_intro (λ (o : Option (Reorg F)). o ≡ some r → Moves now bc r.1) (connects bc.chain first)
          (λ joined k.
            reorganise-Moves now first (first ∷ blocks) bc _ r
              (connects-length bc.chain first joined) k)
          (λ _ k. unmoved now bc r k))
        h

  -- What happens to a `Blockchain`: blocks are added, forks are resolved. `chain_of` tells which
  -- chain a block's hash stands for: no two blocks of the run with different chains behind them
  -- have one hash.
  pub data Runs (chain_of : Option String → List Block) : Blockchain F → Blockchain F → Type 0 where
    begins : {bc : Blockchain F} → Runs chain_of bc bc
    adds :
        {from bc bc' : Blockchain F} (now : ℕ) (block : Block) (s : ValidationStatus)
        → Runs chain_of from bc
        → add_block now block bc ≡ some (s, bc')
        → Names chain_of bc'.chain
        → Runs chain_of from bc'
    resolves :
        {from bc bc' : Blockchain F} (now : ℕ) (blocks : List Block)
        (result : Bool × List Transaction)
        → Runs chain_of from bc
        → resolve_conflicts now blocks bc ≡ some (result, bc')
        → Names chain_of bc'.chain
        → Runs chain_of from bc'

  pub add_block-IsExecuted :
      (chain_of : Option String → List Block) (now : ℕ) (block : Block) (bc bc' : Blockchain F)
      (s : ValidationStatus)
      → IsExecuted chain_of bc
      → add_block now block bc ≡ some (s, bc')
      → Names chain_of bc'.chain
      → IsExecuted chain_of bc'
  unfolding Appends
  add_block-IsExecuted chain_of now block bc bc' s before h names =
      elim (add_block-cases now block bc bc' s h) [
        | inl (_, same) ↦ subst (IsExecuted chain_of) (sym same) before
        | inr (_, (prev, step, at_end, ran, good, e)) ↦ subst (IsExecuted chain_of) (sym e) (
            extended-IsExecuted chain_of now block prev step bc before at_end ran good
              (subst (λ (c : Blockchain F). Names chain_of c.chain) e names))
      ]

  pub resolve_conflicts-IsExecuted :
      (chain_of : Option String → List Block) (now : ℕ) (blocks : List Block)
      (bc bc' : Blockchain F) (result : Bool × List Transaction)
      → IsExecuted chain_of bc
      → resolve_conflicts now blocks bc ≡ some (result, bc')
      → Names chain_of bc'.chain
      → IsExecuted chain_of bc'
  unfolding Moves rebuild
  resolve_conflicts-IsExecuted chain_of now blocks bc bc' result before h names =
      elim (resolve_conflicts-Moves now blocks bc (result, bc') h) [
        | inl same ↦ subst (IsExecuted chain_of) (sym same) before
        | inr (n, new, end, le, ran, good, e) ↦ subst (IsExecuted chain_of) (sym e) (
            switched-IsExecuted chain_of bc (take n bc.chain ++ new) end before
              (rebuild-Executed chain_of bc now n new _ end before le refl ran good) good
              (subst (λ (c : Blockchain F). Names chain_of c.chain) e names))
      ]

  -- No operation changes the genesis configuration.
  pub Runs-config :
      {chain_of : Option String → List Block} {from bc : Blockchain F}
      → Runs chain_of from bc
      → config bc ≡ config from
  unfolding Appends Moves
  Runs-config begins = refl
  Runs-config (adds {bc} {bc'} now block s run h _) = elim (add_block-cases now block bc bc' s h) [
    | inl (_, same) ↦ ap config same ∙ Runs-config run
    | inr (_, (_, step, _, _, _, e)) ↦ ap config e ∙ Runs-config run
  ]
  Runs-config (resolves {bc} {bc'} now blocks result run h _) =
      elim (resolve_conflicts-Moves now blocks bc (result, bc') h) [
        | inl same ↦ ap config same ∙ Runs-config run
        | inr (n, new, end, _, _, _, e) ↦ ap config e ∙ Runs-config run
      ]

  pub Runs-IsExecuted :
      (chain_of : Option String → List Block) (from bc : Blockchain F)
      → IsExecuted chain_of from
      → Runs chain_of from bc
      → IsExecuted chain_of bc
  Runs-IsExecuted chain_of from _ before begins = before
  Runs-IsExecuted chain_of from bc before (adds {bc = mid} now block s run h names) =
      add_block-IsExecuted chain_of now block mid bc s
        (Runs-IsExecuted chain_of from mid before run) h names
  Runs-IsExecuted chain_of from bc before (resolves {bc = mid} now blocks result run h names) =
      resolve_conflicts-IsExecuted chain_of now blocks mid bc result
        (Runs-IsExecuted chain_of from mid before run) h names
