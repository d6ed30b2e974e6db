-- ===== src/Chain/History.antt =====
-- The execution of a chain from its genesis state, block by block: what `add_block` and
-- `resolve_conflicts` of minichain/chain.py promise of the state that they leave.
use mathlib.Core.Path.{subst}
use mathlib.Core.Option.{some-injective}
use mini_chain.Base.{
  ℕ, ◌≡◌, refl, sym, ◌∙◌, ap, Option, none, some, List, [], ◌∷◌, ◌++◌, arith, ◌then?◌,
}
use mini_chain.Platform.{Platform}
use mini_chain.Transaction.{ValidationStatus, valid}
use mini_chain.State.Apply.{State}
use mini_chain.Block.{Block}
use mini_chain.Chain.{Float}
use mini_chain.Chain.Apply.{Tuning, Step, after_link, apply_block, next_target}
use mini_chain.Chain.Blockchain.{last_block, go_on, after_block, replay, fast_forward}
use mini_chain.Chain.Identity.{apply_block-chain_id}
use mini_chain.Chain.Commits.{Seals, apply_block-valid}

module _ {F : Type 0} ⦃fl : Float F⦄ ⦃p : Platform⦄ (tun : Tuning F) where
  -- Executing these blocks behind `prev` leads from the one step to the other, all of them VALID.
  pub data Executes : Block → List Block → Step F → Step F → Type 0 where
    done : (prev : Block) (s : Step F) → Executes prev [] s s
    then_block :
        {prev b : Block} {bs : List Block} {s next end : Step F} (now : ℕ)
        → apply_block tun prev b now s.state s.target s.avg ≡ some next
        → next.status ≡ valid
        → Executes b bs next end
        → Executes prev (b ∷ bs) s end

  pub Executes-append :
      {prev : Block} {bs : List Block} {s mid end : Step F} (cs : List Block) (last : Block)
      → Executes prev bs s mid
      → last_block (prev ∷ bs) ≡ some last
      → Executes last cs mid end
      → Executes prev (bs ++ cs) s end
  Executes-append {end} cs last (done prev s) at_end rest =
      subst (λ x. Executes x cs s end) (sym (some-injective _ _ at_end)) rest
  Executes-append cs last (then_block now ran good more) at_end rest =
      then_block now ran good (Executes-append cs last more at_end rest)

  -- Two executions of the same blocks from the same standing end alike, also by different clocks.
  pub apply_block-same :
      (prev b : Block) (now now' : ℕ) (st : State) (target : ℕ) (avg : F) (s s' : Step F)
      → apply_block tun prev b now st target avg ≡ some s
      → s.status ≡ valid
      → apply_block tun prev b now' st target avg ≡ some s'
      → s'.status ≡ valid
      → s ≡ s'
  unfolding apply_block
  apply_block-same prev b now now' st target avg s s' ran good ran' good' =
      let (checked, _, _) = apply_block-valid tun prev b now st target avg s ran good in
      let (checked', _, _) = apply_block-valid tun prev b now' st target avg s' ran' good' in
      let rest = after_link tun prev b st target avg in
      some-injective _ _ (sym (ap rest (sym checked) ∙ ran) ∙ (ap rest (sym checked') ∙ ran'))

  pub done-same : {prev : Block} {s end : Step F} → Executes prev [] s end → s ≡ end
  done-same (done prev s) = refl

  pub Executes-same :
      {prev : Block} {bs : List Block} {s end end' : Step F}
      → Executes prev bs s end
      → Executes prev bs s end'
      → end ≡ end'
  Executes-same (done prev s) other = done-same other
  Executes-same {end'} (then_block {prev} {b} {bs} {s} {next} now ran good more)
        (then_block {next = next'} now' ran' good' more') =
      let same =
        apply_block-same prev b now now' s.state s.target s.avg next next' ran good ran' good' in
      Executes-same more (subst (λ x. Executes b bs x end') (sym same) more')

  -- The chain's id is that of the state it starts from.
  pub Executes-chain_id :
      {prev : Block} {bs : List Block} {s end : Step F}
      → Executes prev bs s end
      → end.state.chain_id ≡ s.state.chain_id
  Executes-chain_id (done prev s) = refl
  Executes-chain_id (then_block {prev} {b} {s} {next} now ran good more) =
      Executes-chain_id more
      ∙ apply_block-chain_id tun prev b now s.state s.target s.avg next ran good

  go_on-Executes :
      (now : ℕ) (prev b : Block) (bs : List Block) (s next end : Step F)
      (rest : Step F → Option (Step F)) (v : ValidationStatus)
      → apply_block tun prev b now s.state s.target s.avg ≡ some next
      → next.status ≡ v
      → (rest next ≡ some end → end.status ≡ valid → Executes b bs next end)
      → go_on next rest v ≡ some end
      → end.status ≡ valid
      → Executes prev (b ∷ bs) s end
  go_on-Executes now prev b bs s next end rest valid ran good later h ok =
      then_block now ran good (later h ok)
  go_on-Executes now prev b bs s next end rest v ran bad later h ok = ground arith

  after_block-Executes :
      (now : ℕ) (prev b : Block) (bs : List Block) (s end : Step F) (o : Option (Step F))
      (rest : Step F → Option (Step F))
      → apply_block tun prev b now s.state s.target s.avg ≡ o
      → ((next : Step F) → rest next ≡ some end → end.status ≡ valid → Executes b bs next end)
      → after_block o rest ≡ some end
      → end.status ≡ valid
      → Executes prev (b ∷ bs) s end
  after_block-Executes now prev b bs s end none rest ran later h ok = cc
  after_block-Executes now prev b bs s end (some next) rest ran later h ok =
      go_on-Executes now prev b bs s next end rest next.status ran refl (later next) h ok

  -- A replay that ends VALID is an execution of its blocks.
  pub replay-Executes :
      (now : ℕ) (prev : Block) (bs : List Block) (s end : Step F)
      → replay tun now prev bs s ≡ some end
      → end.status ≡ valid
      → Executes prev bs s end
  unfolding replay
  replay-Executes now prev [] s end h ok =
      subst (Executes prev [] s) (some-injective _ _ h) (done prev s)
  replay-Executes now prev (b ∷ bs) s end h ok =
      after_block-Executes now prev b bs s end _ (replay tun now b bs) refl
        (λ next. replay-Executes now b bs next end) h ok

  -- Where the blocks were executed, the target and the average that go without an execution.
  pub fast_forward-Executes :
      {prev : Block} {bs : List Block} {s end : Step F}
      → Executes prev bs s end
      → fast_forward tun prev bs s.target s.avg ≡ some (end.target, end.avg)
  unfolding fast_forward Seals
  fast_forward-Executes (done prev s) = refl
  fast_forward-Executes {end} (then_block {prev} {b} {bs} {s} {next} now ran good more) =
      let (_, _, (_, _, _, _, seals)) =
        apply_block-valid tun prev b now s.state s.target s.avg next ran good in
      let Goal = λ (a : F).
        (next_target tun s.target a then? (λ t. fast_forward tun b bs t a))
        ≡ some (end.target, end.avg) in
      subst Goal seals.3 (rw seals.4 (fast_forward-Executes more))

  pub Executes-valid :
      {prev : Block} {bs : List Block} {s end : Step F}
      → Executes prev bs s end
      → s.status ≡ valid
      → end.status ≡ valid
  Executes-valid (done prev s) ok = ok
  Executes-valid (then_block now ran good more) ok = Executes-valid more good
