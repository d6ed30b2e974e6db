-- ===== src/Chain/Identity.antt =====
-- `_apply_block` of minichain/chain.py leaves the state its chain id.
use mathlib.Core.Option.{some-injective}
use mini_chain.Base.{
  ℕ, String, ◌≡◌, refl, sym, ◌∙◌, ap, Option, none, some, List, [], ◌∷◌, arith, if_intro, truthy,
}
use mini_chain.Platform.{Platform}
use mini_chain.Transaction.{Transaction, Receipt, valid}
use mini_chain.State.Apply.{State, Applied, validate_and_apply_with_status}
use mini_chain.Block.{Block}
use mini_chain.Chain.{Float}
use mini_chain.Chain.Apply.{
  Tuning, Step, TxRun, with_first, after_tx, reward, apply_txs, apply_block,
}
use mini_chain.Chain.Commits.{apply_block-valid}

-- The run ends in a state with this chain id.
abbrev Keeps : String → Option TxRun → Type 0
Keeps cid run = (x : TxRun) → run ≡ some x → x.2.chain_id ≡ cid

with_first-Keeps :
    (cid : String) (r : Receipt) (run : Option TxRun) → Keeps cid run → Keeps cid (with_first r run)
with_first-Keeps cid r none keeps x h = cc
with_first-Keeps cid r (some (s, rs, st)) keeps x h =
    ap (λ (y : TxRun). y.2.chain_id) (sym (some-injective _ _ h)) ∙ keeps (s, rs, st) refl

module _ ⦃p : Platform⦄ where
  validate_and_apply-chain_id :
      (tx : Transaction) (st : State) (x : Applied)
      → validate_and_apply_with_status tx st ≡ some x
      → x.2.chain_id ≡ st.chain_id
  unfolding validate_and_apply_with_status
  validate_and_apply-chain_id tx st x h = ground arith

  after_tx-Keeps :
      (cid : String) (o : Option Applied) (rest : State → Option TxRun)
      → ((x : Applied) → o ≡ some x → x.2.chain_id ≡ cid)
      → ((st : State) → st.chain_id ≡ cid → Keeps cid (rest st))
      → Keeps cid (after_tx o rest)
  after_tx-Keeps cid none rest kept keeps x h = cc
  after_tx-Keeps cid (some (valid, some r, st)) rest kept keeps x h =
      with_first-Keeps cid r (rest st) (keeps st (kept _ refl)) x h
  after_tx-Keeps cid (some (valid, none, st)) rest kept keeps x h = cc
  after_tx-Keeps cid (some (s, o, st)) rest kept keeps x h =
      ap (λ (y : TxRun). y.2.chain_id) (sym (some-injective _ _ h)) ∙ kept _ refl

  apply_txs-Keeps :
      (cid : String) (txs : List Transaction) (st : State)
      → st.chain_id ≡ cid
      → Keeps cid (apply_txs txs st)
  unfolding apply_txs
  apply_txs-Keeps cid [] st e x h =
      ap (λ (y : TxRun). y.2.chain_id) (sym (some-injective _ _ h)) ∙ e
  apply_txs-Keeps cid (tx ∷ txs) st e x h =
      after_tx-Keeps cid _ (apply_txs txs) (λ x k. validate_and_apply-chain_id tx st x k ∙ e)
        (apply_txs-Keeps cid txs) x h

  reward-chain_id :
      (b : Block) (rs : List Receipt) (st : State) → (reward b rs st).chain_id ≡ st.chain_id
  unfolding reward
  reward-chain_id b rs st =
      if_intro (λ (s : State). s.chain_id ≡ st.chain_id) (truthy b.miner) (λ _. refl) (λ _. refl)

  pub apply_block-chain_id :
      {F : Type 0} ⦃fl : Float F⦄ (tun : Tuning F) (prev b : Block) (now : ℕ) (st : State)
      (target : ℕ) (avg : F) (next : Step F)
      → apply_block tun prev b now st target avg ≡ some next
      → next.status ≡ valid
      → next.state.chain_id ≡ st.chain_id
  apply_block-chain_id tun prev b now st target avg next ran good =
      let (_, _, (rs, mid, ran_txs, paid, _)) =
        apply_block-valid tun prev b now st target avg next ran good in
      ap (λ (s : State). s.chain_id) paid
      ∙ reward-chain_id b rs mid
      ∙ apply_txs-Keeps st.chain_id b.transactions st refl _ ran_txs
