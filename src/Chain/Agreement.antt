-- ===== src/Chain/Agreement.antt =====
-- A `Blockchain` of minichain/chain.py from its genesis file on: what its chain says of its state.
use mathlib.Core.Path.{subst}
use mathlib.Core.Option.{some-injective}
use mini_chain.Base.{
  ℕ, ◌≡◌, refl, sym, ◌∙◌, ap, Bool, true, false, Option, some, List, [], ◌∷◌, drop, String, truthy,
  not-false, if◌then◌else◌,
}
use mini_chain.Base.Int.{ℤ, pos, ◌+ℤ◌, ◌-ℤ◌, int_laws}
use mini_chain.Json.{Json, num, obj, Fields}
use mini_chain.Platform.{Platform}
use mini_chain.Transaction.Parse.{get}
use mini_chain.State.Accounts.{Accounts}
use mini_chain.State.Supply.{total}
use mini_chain.Block.{Block, compute_hash}
use mini_chain.Chain.{Float}
use mini_chain.Chain.Apply.{Tuning, Step, total_fees}
use mini_chain.Chain.Commits.{apply_block-total, int_eq→eq}
use mini_chain.Chain.Blockchain.{Blockchain}
use mini_chain.Chain.Genesis.{alloc_of, supply_differs, founded, create_genesis_block}
use mini_chain.Chain.History.{Executes, Executes-same, done, then_block}
use mini_chain.Chain.FromGenesis.{
  Genesis, Names, Names-last, push_snapshot-All, Executed, config, standing, IsSnapshot, IsExecuted,
}
use mini_chain.Chain.Founding.{HasDistinctKeys, allocate_all-total, create_genesis_block-Founded}
use mini_chain.Chain.Consensus.{Runs, Runs-config, Runs-IsExecuted}

-- What the blocks add to the sum of all balances.
pub issued : List Block → ℤ
issued [] = pos 0
issued (b ∷ bs) =
    (if truthy b.miner then pos 50 else pos 0 -ℤ total_fees b.receipts b.transactions) +ℤ issued bs

-- Behind a supply that the file names, the accounts hold it.
supply_agrees :
    (o : Option Json) (n sum : ℤ) → o ≡ some (num n) → supply_differs o sum ≡ false → sum ≡ n
unfolding supply_differs
supply_agrees o n sum e h =
    sym (int_eq→eq n sum (not-false _ (subst (λ x. supply_differs x sum ≡ false) e h)))

issue_step :
    (named : Bool) (t fees later : ℤ)
    → (if named then t +ℤ pos 50 else t -ℤ fees) +ℤ later
      ≡ t +ℤ ((if named then pos 50 else pos 0 -ℤ fees) +ℤ later)
issue_step true t fees later = omega int_laws
issue_step false t fees later = omega int_laws

module _ {F : Type 0} ⦃fl : Float F⦄ ⦃p : Platform⦄ where
  Executes-total :
      {tun : Tuning F} {prev : Block} {bs : List Block} {s end : Step F}
      → Executes tun prev bs s end
      → total end.state.accounts ≡ total s.state.accounts +ℤ issued bs
  unfolding issued
  Executes-total (done prev s) = omega int_laws
  Executes-total {tun} (then_block {prev} {b} {s} {next} now ran good more) =
      Executes-total more
      ∙ rw (apply_block-total tun prev b now s.state s.target s.avg next ran good) (
          issue_step (truthy b.miner) (total s.state.accounts)
            (total_fees b.receipts b.transactions) _)

  founded-IsExecuted :
      (chain_of : Option String → List Block) (chain_id : String) (block_time : ℕ) (alpha : F)
      (accs : Accounts) (block : Block)
      → let bc = founded chain_id block_time alpha accs block in
        Names chain_of bc.chain → IsExecuted chain_of bc
  founded-IsExecuted chain_of chain_id block_time alpha accs block names =
      let bc = founded chain_id block_time alpha accs block in
      let sealed : Block = record block { hash = some (compute_hash block) } in
      record {
        executed = done sealed (standing bc);
        named = names;
        snapshots =
            push_snapshot-All (IsSnapshot (config bc) chain_of) (some (compute_hash block), accs) []
              (
                standing bc,
                subst (λ bs. Executed (config bc) bs (standing bc))
                    (sym (Names-last chain_of bc.chain sealed names refl))
                    (done sealed (standing bc)),
                refl,
              )
              tt;
      }

  genesis-IsExecuted :
      (chain_of : Option String → List Block) (now : ℕ) (alpha : F) (fs : Fields)
      (start : Blockchain F)
      → create_genesis_block now alpha (obj fs) ≡ some start
      → Names chain_of start.chain
      → IsExecuted chain_of start
  genesis-IsExecuted chain_of now alpha fs start h names =
      let (_, (sum, accs), _, _, (cid, bt, alpha', block, _, e)) =
        create_genesis_block-Founded now alpha fs start h in
      subst (IsExecuted chain_of) (sym e) (
        founded-IsExecuted chain_of cid bt alpha' accs block
          (subst (λ (c : Blockchain F). Names chain_of c.chain) e names))

  -- From the genesis file on, whatever blocks are added and forks resolved: the accounts, the target
  -- and the average are those of executing the chain's blocks in order from the genesis allocations,
  -- each of them VALID (where no hash stands for two chains).
  pub state_is_execution :
      (chain_of : Option String → List Block) (now : ℕ) (alpha : F) (fs : Fields)
      (start bc : Blockchain F)
      → create_genesis_block now alpha (obj fs) ≡ some start
      → Names chain_of start.chain
      → Runs chain_of start bc
      → Executed (config start) bc.chain (standing bc)
  state_is_execution chain_of now alpha fs start bc made names run =
      subst (λ g. Executed g bc.chain (standing bc)) (Runs-config run)
        (Runs-IsExecuted chain_of start bc
          (genesis-IsExecuted chain_of now alpha fs start made names) run).executed

  Executed-same :
      (g : Genesis F) (bs : List Block) (s s' : Step F)
      → Executed g bs s
      → Executed g bs s'
      → s ≡ s'
  Executed-same g [] s s' ran ran' = absurd ran
  Executed-same g (b ∷ bs) s s' ran ran' = Executes-same g.tuning ran ran'

  -- Two nodes that start from one genesis configuration and hold the same chain have the same
  -- accounts, target and average, whatever forks each of them went through and at whatever times (where no hash
  -- stands for two chains).
  pub nodes_agree :
      (chain_of chain_of' : Option String → List Block) (now now' : ℕ) (alpha alpha' : F)
      (fs fs' : Fields) (start start' bc bc' : Blockchain F)
      → create_genesis_block now alpha (obj fs) ≡ some start
      → create_genesis_block now' alpha' (obj fs') ≡ some start'
      → config start ≡ config start'
      → Names chain_of start.chain
      → Names chain_of' start'.chain
      → Runs chain_of start bc
      → Runs chain_of' start' bc'
      → bc.chain ≡ bc'.chain
      → (bc.state ≡ bc'.state)
        × (bc.current_target ≡ bc'.current_target)
        × (bc.avg_block_time ≡ bc'.avg_block_time)
  nodes_agree chain_of chain_of' now now' alpha alpha' fs fs' start start' bc bc' made made' one
        names names' run run' same =
      let here = state_is_execution chain_of now alpha fs start bc made names run in
      let there = state_is_execution chain_of' now' alpha' fs' start' bc' made' names' run' in
      let there' : Executed (config start) bc.chain (standing bc') =
        subst (λ g. Executed g bc.chain (standing bc')) (sym one)
          (subst (λ bs. Executed (config start') bs (standing bc')) (sym same) there) in
      let e = Executed-same (config start) bc.chain (standing bc) (standing bc') here there' in
      (
        ap (λ (s : Step F). s.state) e,
        ap (λ (s : Step F). s.target) e,
        ap (λ (s : Step F). s.avg) e,
      )

  Executed-total :
      (g : Genesis F) (bs : List Block) (end : Step F)
      → Executed g bs end
      → total end.state.accounts ≡ total g.accounts +ℤ issued (drop 1 bs)
  Executed-total g [] end ran = absurd ran
  Executed-total g (b ∷ bs) end ran = Executes-total ran

  -- The money supply: where the genesis file names an initial supply, the balances add up to it, and
  -- 50 more for each block behind the genesis block that names a miner, and less the fees of each
  -- that does not. The object of the file's allocations has distinct keys, and no hash
  -- stands for two chains.
  pub supply_lem :
      (chain_of : Option String → List Block) (now : ℕ) (alpha : F) (fs alloc : Fields) (supply : ℤ)
      (start bc : Blockchain F)
      → create_genesis_block now alpha (obj fs) ≡ some start
      → get "initial_supply" fs ≡ some (num supply)
      → get "alloc" fs ≡ some (obj alloc)
      → HasDistinctKeys alloc
      → Names chain_of start.chain
      → Runs chain_of start bc
      → total bc.state.accounts ≡ supply +ℤ issued (drop 1 bc.chain)
  supply_lem chain_of now alpha fs alloc supply start bc made named there distinct names run =
      let (alloc', (sum, accs), e1, e2, (cid, bt, alpha', block, agreed, e)) =
        create_genesis_block-Founded now alpha fs start made in
      let same : alloc' ≡ alloc = some-injective _ _ (sym e1 ∙ ap alloc_of there) in
      let held : total accs ≡ sum =
        allocate_all-total alloc' sum accs (subst HasDistinctKeys (sym same) distinct) e2 in
      Executed-total (config start) bc.chain (standing bc)
        (state_is_execution chain_of now alpha fs start bc made names run)
      ∙ ap (λ (x : ℤ). x +ℤ issued (drop 1 bc.chain))
          (ap (λ (c : Blockchain F). total c.genesis_state) e
            ∙ held
            ∙ supply_agrees (get "initial_supply" fs) supply sum named agreed)
