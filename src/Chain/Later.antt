-- ===== src/Chain/Later.antt =====
-- Blocks that one object of minichain/chain.py has executed, added to another by `add_block` at another time.
use mathlib.Core.Path.{subst}
use mathlib.Core.Option.{some-injective}
use mini_chain.Base.{ℕ, ◌+◌, ◌≤◌, ◌≡◌, refl, sym, ◌∙◌, ap, some, List, [], ◌∷◌, ◌++◌, length, arith}
use mini_chain.Platform.{Platform}
use mini_chain.Transaction.{valid}
use mini_chain.State.Apply.{State}
use mini_chain.Block.{Block}
use mini_chain.Chain.{Float}
use mini_chain.Chain.Apply.{Tuning, Step, apply_block, after_link}
use mini_chain.Chain.Blockchain.{Blockchain, last_block, extended, commit, add_block}
use mini_chain.Chain.Links.{
  Follows, validate_block_link_and_hash-Follows, validate_block_link_and_hash-later,
}
use mini_chain.Chain.Commits.{apply_block-valid}
use mini_chain.Chain.Executions.{same_state}
use mini_chain.Chain.History.{Executes, done, then_block, apply_block-same}

module _ {F : Type 0} ⦃fl : Float F⦄ ⦃p : Platform⦄ where
  apply_block-later :
      (tun : Tuning F) (prev b : Block) (now now' : ℕ) (st : State) (target : ℕ) (avg : F)
      (step : Step F)
      → apply_block tun prev b now st target avg ≡ some step
      → step.status ≡ valid
      → b.timestamp ≤ now' + 15000
      → apply_block tun prev b now' st target avg ≡ some step
  unfolding apply_block
  apply_block-later tun prev b now now' st target avg step ran good near =
      let (checked, _, _) = apply_block-valid tun prev b now st target avg step ran good in
      let checked' = validate_block_link_and_hash-later prev b now now' checked near in
      let rest = after_link tun prev b st target avg in
      ap rest checked' ∙ ap rest (sym checked) ∙ ran

  -- A block that was VALID behind this chain's last one and in its state is added.
  pub add_block-later :
      (prev b : Block) (now now' : ℕ) (step : Step F) (bc : Blockchain F)
      → last_block bc.chain ≡ some prev
      → bc.state.chain_id ≡ bc.chain_id
      → apply_block bc.tuning prev b now bc.state bc.current_target bc.avg_block_time ≡ some step
      → step.status ≡ valid
      → b.timestamp ≤ now' + 15000
      → add_block now' b bc ≡ some (valid, extended b step bc)
  unfolding add_block commit
  add_block-later prev b now now' step bc at_end cid ran good near =
      let ran' =
        apply_block-later bc.tuning prev b now now' bc.state bc.current_target bc.avg_block_time
          step ran good near in
      rw (at_end, same_state bc.state bc.chain_id cid, ran', good) refl

  pub executed-Follows :
      (tun : Tuning F) (prev b : Block) (now : ℕ) (s next : Step F)
      → apply_block tun prev b now s.state s.target s.avg ≡ some next
      → next.status ≡ valid
      → Follows prev b
  executed-Follows tun prev b now s next ran good =
      let (checked, _, _) = apply_block-valid tun prev b now s.state s.target s.avg next ran good in
      (validate_block_link_and_hash-Follows prev b now checked).0

  pub executed-count :
      (tun : Tuning F) (prev b : Block) (now : ℕ) (s next : Step F)
      → apply_block tun prev b now s.state s.target s.avg ≡ some next
      → next.status ≡ valid
      → b.index ≡ prev.index + 1
  unfolding Follows
  executed-count tun prev b now s next ran good =
      (executed-Follows tun prev b now s next ran good).1

  -- The index of the last of the executed blocks.
  pub Executes-index :
      {tun : Tuning F} {prev last : Block} {bs : List Block} {s end : Step F}
      → Executes tun prev bs s end
      → last_block (prev ∷ bs) ≡ some last
      → last.index ≡ prev.index + length bs
  unfolding Follows
  Executes-index {last} (done prev s) at_end =
      ap (λ (b : Block). b.index) (sym (some-injective _ _ at_end)) ∙ omega arith
  Executes-index {tun} (then_block {prev} {b} {bs} {s} {next} now ran good more) at_end =
      let (_, count, _, _, _, _, _) = executed-Follows tun prev b now s next ran good in
      omega (arith, count, Executes-index more at_end)

  -- An execution in two parts.
  pub Executes-split :
      {tun : Tuning F} {prev : Block} {bs : List Block} {s mid end : Step F} (cs : List Block)
      (last : Block)
      → Executes tun prev bs s mid
      → last_block (prev ∷ bs) ≡ some last
      → Executes tun prev (bs ++ cs) s end
      → Executes tun last cs mid end
  Executes-split {tun} {end} cs last (done prev s) at_end whole =
      subst (λ b. Executes tun b cs s end) (some-injective _ _ at_end) whole
  Executes-split {tun} {end} cs last (then_block {prev} {b} {bs} {s} {next} now ran good more)
        at_end (then_block {next = next'} now' ran' good' more') =
      let same =
        apply_block-same tun prev b now now' s.state s.target s.avg next next' ran good ran'
          good' in
      Executes-split cs last more at_end
        (subst (λ x. Executes tun b (bs ++ cs) x end) (sym same) more')

  -- An execution's first part.
  pub Executes-front :
      {tun : Tuning F} {prev : Block} {s end : Step F} (bs cs : List Block)
      → Executes tun prev (bs ++ cs) s end
      → (mid : Step F) × Executes tun prev bs s mid
  Executes-front {prev} {s} [] cs run = (s, done prev s)
  Executes-front {prev} (b ∷ bs) cs (then_block now ran good more) =
      let (mid, front) = Executes-front {prev = b} bs cs more in
      (mid, then_block now ran good front)
