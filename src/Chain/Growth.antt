-- ===== src/Chain/Growth.antt =====
-- `add_block` of minichain/chain.py: what becomes of the object on each outcome, and the invariant
-- that its chain is linked.
use mathlib.Core.Path.{subst}
use mathlib.Core.Option.{some-injective}
use mini_chain.Base.{
  ℕ, ◌≡◌, ◌≢◌, ◌⊎◌, refl, sym, ◌∙◌, ap, Option, none, some, List, [], ◌∷◌, ◌++◌, arith, then?-some,
  inl, inr, truthy, if◌then◌else◌,
}
use mini_chain.Base.Int.{pos, ◌+ℤ◌, ◌-ℤ◌}
use mini_chain.Platform.{Platform}
use mini_chain.Transaction.{ValidationStatus, valid}
use mini_chain.State.Accounts.{state_root}
use mini_chain.State.Supply.{total}
use mini_chain.Block.{Block}
use mini_chain.Chain.{Float}
use mini_chain.Chain.Apply.{Step, total_fees, apply_block}
use mini_chain.Chain.Blockchain.{Blockchain, last_block, extended, commit, add_step, add_block}
use mini_chain.Chain.Commits.{Seals, apply_block-valid, apply_block-total}
use mini_chain.Chain.Links.{Follows, validate_block_link_and_hash-Follows}

module _ ⦃p : Platform⦄ where
  -- Every block follows the one before.
  unfoldable pub IsLinked : List Block → Type 0
  IsLinked [] = Unit
  IsLinked (b ∷ []) = Unit
  IsLinked (b ∷ c ∷ bs) = Follows b c × IsLinked (c ∷ bs)

  pub append-IsLinked :
      (bs : List Block) (prev block : Block)
      → IsLinked bs
      → last_block bs ≡ some prev
      → Follows prev block
      → IsLinked (bs ++ block ∷ [])
  unfolding IsLinked
  append-IsLinked [] prev block linked at_end follows = cc
  append-IsLinked (b ∷ []) prev block linked at_end follows =
      (subst (λ x. Follows x block) (sym (some-injective _ _ at_end)) follows, tt)
  append-IsLinked (b ∷ c ∷ bs) prev block (first, linked) at_end follows =
      (first, append-IsLinked (c ∷ bs) prev block linked at_end follows)

module _ {F : Type 0} ⦃fl : Float F⦄ ⦃p : Platform⦄ where
  commit-cases :
      (new bc bc' : Blockchain F) (v s : ValidationStatus)
      → commit new bc v ≡ (s, bc')
      → ((s ≢ valid) × (bc' ≡ bc)) ⊎ ((v ≡ valid) × (s ≡ valid) × (bc' ≡ new))
  unfolding commit
  commit-cases new bc bc' valid s h = inr (refl, ground arith, ground arith)
  commit-cases new bc bc' v s h = inl (λ e. ground arith, ground arith)

  -- What was appended, and in which state.
  unfoldable pub Appends : ℕ → Block → Blockchain F → Blockchain F → Type 0
  Appends now block bc bc' =
      (prev : Block) × (step : Step F) × (last_block bc.chain ≡ some prev)
      × (apply_block bc.tuning prev block now (record bc.state { chain_id = bc.chain_id })
            bc.current_target bc.avg_block_time
          ≡ some step)
      × (step.status ≡ valid)
      × (bc' ≡ extended block step bc)

  add_step-cases :
      (bc bc' : Blockchain F) (block : Block) (o : Option (Step F)) (s : ValidationStatus)
      → add_step bc block o ≡ some (s, bc')
      → ((s ≢ valid) × (bc' ≡ bc))
        ⊎ ((step : Step F) × (o ≡ some step)
            × (step.status ≡ valid)
            × (s ≡ valid)
            × (bc' ≡ extended block step bc))
  add_step-cases bc bc' block none s h = cc
  add_step-cases bc bc' block (some step) s h =
      elim (commit-cases (extended block step bc) bc bc' step.status s (some-injective _ _ h)) [
        | inl same ↦ inl same
        | inr (v, ok, e) ↦ inr (step, refl, v, ok, e)
      ]

  pub add_block-cases :
      (now : ℕ) (block : Block) (bc bc' : Blockchain F) (s : ValidationStatus)
      → add_block now block bc ≡ some (s, bc')
      → ((s ≢ valid) × (bc' ≡ bc)) ⊎ ((s ≡ valid) × Appends now block bc bc')
  unfolding add_block Appends
  add_block-cases now block bc bc' s h =
      let (prev, at_end, h1) = then?-some (last_block bc.chain) _ (s, bc') h in
      elim (add_step-cases bc bc' block _ s h1) [
        | inl same ↦ inl same
        | inr (step, ran, v, ok, e) ↦ inr (ok, (prev, step, at_end, ran, v, e))
      ]

  -- A block that is not VALID leaves the object as it was. A VALID one is appended, its state root
  -- is that of the new state, it has the target that was due, and the sum of all balances grows by
  -- the reward of 50, or without a miner shrinks by the block's fees.
  pub add_block-Outcome :
      (now : ℕ) (block : Block) (bc bc' : Blockchain F) (s : ValidationStatus)
      → add_block now block bc ≡ some (s, bc')
      → ((s ≢ valid) × (bc' ≡ bc))
        ⊎ ((s ≡ valid)
            × (bc'.chain ≡ bc.chain ++ block ∷ [])
            × (block.state_root ≡ state_root bc'.state.accounts)
            × (block.target ≡ bc.current_target)
            × (total bc'.state.accounts ≡ (
                if truthy block.miner
                then total bc.state.accounts +ℤ pos 50
                else total bc.state.accounts -ℤ total_fees block.receipts block.transactions)))
  unfolding Appends Seals
  add_block-Outcome now block bc bc' s h = elim (add_block-cases now block bc bc' s h) [
    | inl same ↦ inl same
    | inr (good, (prev, step, at_end, ran, v, e)) ↦
        let st = record bc.state { chain_id = bc.chain_id } in
        let (_, due, (_, _, _, _, seals)) =
          apply_block-valid bc.tuning prev block now st bc.current_target bc.avg_block_time step ran
            v in
        let sum =
          apply_block-total bc.tuning prev block now st bc.current_target bc.avg_block_time step ran
            v in
        inr (
          good,
          ap (λ (c : Blockchain F). c.chain) e,
          seals.2 ∙ ap (λ (c : Blockchain F). state_root c.state.accounts) (sym e),
          due,
          ap (λ (c : Blockchain F). total c.state.accounts) e ∙ sum,
        )
  ]

  -- `add_block` keeps the chain linked, whatever its outcome.
  pub add_block-IsLinked :
      (now : ℕ) (block : Block) (bc bc' : Blockchain F) (s : ValidationStatus)
      → IsLinked bc.chain
      → add_block now block bc ≡ some (s, bc')
      → IsLinked bc'.chain
  unfolding Appends
  add_block-IsLinked now block bc bc' s linked h = elim (add_block-cases now block bc bc' s h) [
    | inl (_, same) ↦ subst (λ (c : Blockchain F). IsLinked c.chain) (sym same) linked
    | inr (good, (prev, step, at_end, ran, v, e)) ↦
        let (checked, _, _) =
          apply_block-valid bc.tuning prev block now (record bc.state { chain_id = bc.chain_id })
            bc.current_target bc.avg_block_time step ran v in
        subst (λ (c : Blockchain F). IsLinked c.chain) (sym e)
          (append-IsLinked bc.chain prev block linked at_end
            (validate_block_link_and_hash-Follows prev block now checked).0)
  ]
