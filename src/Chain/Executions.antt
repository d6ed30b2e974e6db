-- ===== src/Chain/Executions.antt =====
-- `add_block` and `resolve_conflicts` of minichain/chain.py leave the execution of their chain.
use mathlib.Core.Path.{subst}
use mini_chain.Base.{
  ℕ, zero, suc, ◌≤◌, String, ◌≡◌, inl, inr, refl, sym, ◌∙◌, ap, Option, none, some, List, [], ◌∷◌,
  ◌++◌, arith, length, take, drop, take-append-drop, get_elem?, then?-some, ◌then?◌, Option-cases,
}
use mini_chain.Platform.{Platform}
use mini_chain.Transaction.{ValidationStatus, valid}
use mini_chain.State.Accounts.{Accounts}
use mini_chain.State.Apply.{State}
use mini_chain.Block.{Block}
use mini_chain.Chain.{Float}
use mini_chain.Chain.Apply.{Step, apply_block}
use mini_chain.Chain.Blockchain.{
  Blockchain, last_block, extended, find_snapshot, fork_snapshot, hash_at, resume, from_known,
  replay_from_genesis, rebuild_from, switched,
}
use mini_chain.Chain.Replay.{take-take-append}
use mini_chain.Chain.History.{Executes, replay-Executes, fast_forward-Executes, done, then_block}
use mini_chain.Chain.FromGenesis.{
  Genesis, Names, Names-last, push_snapshot-All, find_snapshot-All, genesis_step, Executed, config,
  standing, IsSnapshot, IsExecuted, Executed-append, Executed-chain_id, Executed-valid,
}

pub last_block-append : (bs : List Block) (b : Block) → last_block (bs ++ b ∷ []) ≡ some b
last_block-append [] b = refl
last_block-append (c ∷ []) b = refl
last_block-append (c ∷ d ∷ bs) b = last_block-append (d ∷ bs) b

pub same_state : (st : State) (cid : String) → st.chain_id ≡ cid → record st { chain_id = cid } ≡ st
same_state st cid e = ap (λ (c : String). record st { chain_id = c }) (sym e)

pub fork_snapshot-found :
    (chain : List Block) (n : ℕ) (ss : List (Option String × Accounts)) (accs : Accounts)
    → fork_snapshot chain n ss ≡ some accs
    → (m : ℕ) × (h : String) × (n ≡ suc m)
      × (hash_at chain m ≡ some h)
      × (find_snapshot h ss ≡ some accs)
unfolding fork_snapshot
fork_snapshot-found chain zero ss accs e = cc
fork_snapshot-found chain (suc m) ss accs e = elim (Option-cases (hash_at chain m)) [
  | inl missing ↦ absurd (ground arith)
  | inr (h, at) ↦ (m, h, refl, at, ground arith)
]

hash_at-block :
    (bs : List Block) (n : ℕ) (h : String)
    → hash_at bs n ≡ some h
    → (b : Block) × (get_elem? bs n ≡ some b) × (b.hash ≡ some h)
hash_at-block [] n h e = cc
hash_at-block (b ∷ bs) zero h e = (b, refl, e)
hash_at-block (b ∷ bs) (suc n) h e = hash_at-block bs n h e

pub last_block-some : (c : Block) (bs : List Block) → (b : Block) × (last_block (c ∷ bs) ≡ some b)
last_block-some c [] = (c, refl)
last_block-some c (d ∷ bs) = last_block-some d bs

module _ {F : Type 0} ⦃fl : Float F⦄ ⦃p : Platform⦄ where
  pub place-step : (s : Step F) → s.status ≡ valid → record s { status = valid } ≡ s
  place-step s e = ap (λ (v : ValidationStatus). record s { status = v }) (sym e)

  pub extended-IsExecuted :
      (chain_of : Option String → List Block) (now : ℕ) (block prev : Block) (step : Step F)
      (bc : Blockchain F)
      → IsExecuted chain_of bc
      → last_block bc.chain ≡ some prev
      → apply_block bc.tuning prev block now
          (record bc.state { chain_id = bc.chain_id })
          bc.current_target
          bc.avg_block_time
        ≡ some step
      → step.status ≡ valid
      → Names chain_of (bc.chain ++ block ∷ [])
      → IsExecuted chain_of (extended block step bc)
  extended-IsExecuted chain_of now block prev step bc before at_end ran good names =
      let cid = Executed-chain_id (config bc) bc.chain (standing bc) before.executed in
      let ran' : apply_block bc.tuning prev block now bc.state bc.current_target bc.avg_block_time
          ≡ some step =
        subst
          (λ st.
            apply_block bc.tuning prev block now st bc.current_target bc.avg_block_time ≡ some step)
          (same_state bc.state bc.chain_id cid) ran in
      let longer : Executed (config bc) (bc.chain ++ block ∷ []) step =
        Executed-append (config bc) bc.chain (block ∷ []) prev (standing bc) step before.executed
          at_end (then_block now ran' good (done block step)) in
      record {
        executed =
            subst (Executed (config bc) (bc.chain ++ block ∷ [])) (sym (place-step step good))
              longer;
        named = names;
        snapshots =
            push_snapshot-All (IsSnapshot (config bc) chain_of) _ bc.state_snapshots
              (
                step,
                subst (λ bs. Executed (config bc) bs step)
                    (sym (Names-last chain_of _ block names (last_block-append bc.chain block)))
                    longer,
                refl,
              )
              before.snapshots;
      }

  -- From the snapshot of the fork on.
  resume-Executed :
      (bc : Blockchain F) (now : ℕ) (accs : Accounts) (old new : List Block) (mid end : Step F)
      → Executed (config bc) old mid
      → mid.state.accounts ≡ accs
      → resume bc now accs old new (mid.target, mid.avg) ≡ some end
      → end.status ≡ valid
      → Executed (config bc) (old ++ new) end
  resume-Executed bc now accs old new mid end ran same h ok =
      let (prev, at_end, h1) = then?-some (last_block old) _ end h in
      let cid = Executed-chain_id (config bc) old mid ran in
      let good = Executed-valid (config bc) old mid ran in
      let from : Step F = record {
        status = valid;
        target = mid.target;
        avg = mid.avg;
        state = record { accounts = accs; chain_id = bc.chain_id };
      } in
      let here : mid ≡ from = ground (arith, good, cid, same) in
      Executed-append (config bc) old new prev mid end ran at_end (
        subst (λ s. Executes bc.tuning prev new s end) (sym here)
          (replay-Executes bc.tuning now prev new from end h1 ok))

  from_known-Executed :
      (bc : Blockchain F) (now : ℕ) (accs : Accounts) (old new : List Block) (mid end : Step F)
      → Executed (config bc) old mid
      → mid.state.accounts ≡ accs
      → from_known bc now accs old new ≡ some end
      → end.status ≡ valid
      → Executed (config bc) (old ++ new) end
  unfolding from_known
  from_known-Executed bc now accs [] new mid end ran same h ok = absurd ran
  from_known-Executed bc now accs (b ∷ known) new mid end ran same h ok =
      let go = resume bc now accs (b ∷ known) new in
      resume-Executed bc now accs (b ∷ known) new mid end ran same
        (ap (λ o. o then? go) (sym (fast_forward-Executes bc.tuning ran)) ∙ h) ok

  replay_from_genesis-Executed :
      (bc : Blockchain F) (now : ℕ) (bs : List Block) (end : Step F)
      → replay_from_genesis bc now bs ≡ some end
      → end.status ≡ valid
      → Executed (config bc) bs end
  unfolding replay_from_genesis
  replay_from_genesis-Executed bc now [] end h ok = cc
  replay_from_genesis-Executed bc now (b ∷ bs) end h ok =
      replay-Executes bc.tuning now b bs (genesis_step (config bc) b) end h ok

  -- The snapshot that a fork starts from is that of the blocks before it.
  fork_snapshot-IsSnapshot :
      (chain_of : Option String → List Block) (bc : Blockchain F) (n : ℕ) (accs : Accounts)
      → IsExecuted chain_of bc
      → fork_snapshot bc.chain n bc.state_snapshots ≡ some accs
      → (mid : Step F) × Executed (config bc) (take n bc.chain) mid × (mid.state.accounts ≡ accs)
  fork_snapshot-IsSnapshot chain_of bc n accs before e =
      let (m, h, is_suc, at, found) = fork_snapshot-found bc.chain n bc.state_snapshots accs e in
      let (b, there, hashed) = hash_at-block bc.chain m h at in
      let (mid, ran, same) =
        find_snapshot-All (IsSnapshot (config bc) chain_of) h bc.state_snapshots accs
          before.snapshots found in
      let names : chain_of (some h) ≡ take n bc.chain =
        ap chain_of (sym hashed)
        ∙ before.named m b there
        ∙ ap (λ k. take k bc.chain) (sym is_suc) in
      (mid, subst (λ bs. Executed (config bc) bs mid) names ran, same)

  pub rebuild-Executed :
      (chain_of : Option String → List Block) (bc : Blockchain F) (now n : ℕ) (new : List Block)
      (o : Option Accounts) (end : Step F)
      → IsExecuted chain_of bc
      → n ≤ length bc.chain
      → fork_snapshot bc.chain n bc.state_snapshots ≡ o
      → rebuild_from bc now n (take n bc.chain ++ new) o ≡ some end
      → end.status ≡ valid
      → Executed (config bc) (take n bc.chain ++ new) end
  rebuild-Executed chain_of bc now n new none end before le e h ok =
      replay_from_genesis-Executed bc now (take n bc.chain ++ new) end h ok
  rebuild-Executed chain_of bc now n new (some accs) end before le e h ok =
      let proposed = take n bc.chain ++ new in
      let (mid, ran, same) = fork_snapshot-IsSnapshot chain_of bc n accs before e in
      let known : Executed (config bc) (take n proposed) mid =
        subst (λ bs. Executed (config bc) bs mid) (sym (take-take-append n bc.chain new le)) ran in
      subst (λ bs. Executed (config bc) bs end) (take-append-drop n proposed)
        (from_known-Executed bc now accs (take n proposed) (drop n proposed) mid end known same h
          ok)

  last-some :
      (bs : List Block) (end : Step F) (g : Genesis F)
      → Executed g bs end
      → (b : Block) × (last_block bs ≡ some b)
  last-some [] end g ran = absurd ran
  last-some (b ∷ []) end g ran = (b, refl)
  last-some (b ∷ c ∷ bs) end g ran = last_block-some c bs

  pub switched-IsExecuted :
      (chain_of : Option String → List Block) (bc : Blockchain F) (bs : List Block) (end : Step F)
      → IsExecuted chain_of bc
      → Executed (config bc) bs end
      → end.status ≡ valid
      → Names chain_of bs
      → IsExecuted chain_of (switched bs end bc)
  switched-IsExecuted chain_of bc bs end before ran ok names =
      let (b, at_end) = last-some bs end (config bc) ran in
      record {
        executed = subst (Executed (config bc) bs) (sym (place-step end ok)) ran;
        named = names;
        snapshots =
            push_snapshot-All (IsSnapshot (config bc) chain_of) _ bc.state_snapshots
              (
                end,
                subst
                    (λ (o : Option Block).
                      Executed (config bc) (chain_of (elim o [ none ↦ none | some b ↦ b.hash ]))
                        end)
                    (sym at_end)
                    (subst (λ bs. Executed (config bc) bs end)
                      (sym (Names-last chain_of bs b names at_end)) ran),
                refl,
              )
              before.snapshots;
      }
