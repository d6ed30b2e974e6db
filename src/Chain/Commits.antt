-- ===== src/Chain/Commits.antt =====
-- What an accepted block went through, and what it does to the sum of all balances.
use mathlib.Core.Path.{subst}
use mathlib.Core.Option.{some-injective}
use mini_chain.Base.{
  ℕ, ◌-◌, String, ◌≡◌, ◌≢◌, refl, sym, ◌∙◌, ap, Bool, true, false, not, Option, none, some, List,
  [], ◌∷◌, arith, ◌==◌, if_intro, not-false, and_true, opt_str_eq, opt_str_eq→eq, truthy,
  if◌then◌else◌,
}
use mini_chain.Base.Int.{ℤ, pos, negsuc, ◌+ℤ◌, ◌-ℤ◌, ◌*ℤ◌, int_laws}
use mini_chain.Platform.{Platform}
use mini_chain.Transaction.{Transaction, Receipt, valid}
use mini_chain.Json.Equal.{items_eq→eq}
use mini_chain.State.Accounts.{state_root, credit_mining_reward, default_mining_reward}
use mini_chain.State.Apply.{State, Applied, validate_and_apply_with_status}
use mini_chain.State.Supply.{total, total-credit}
use mini_chain.State.Outcomes.{accepted_pays}
use mini_chain.Block.{Block, calculate_receipt_root}
use mini_chain.Chain.{Float}
use mini_chain.Chain.Link.{LinkError, names_hash, validate_block_link_and_hash}
use mini_chain.Chain.Apply.{
  Tuning, Step, TxRun, with_first, after_tx, total_fees, reward, next_target, apply_txs, accepted,
  check_roots, check_receipts, int_eq, receipt_eq, receipts_eq, after_txs, after_link, apply_block,
}

pub int_eq→eq : (a b : ℤ) → int_eq a b ≡ true → a ≡ b
int_eq→eq (pos a) (pos b) h = ap pos (ground arith)
int_eq→eq (negsuc a) (negsuc b) h = ap negsuc (ground arith)
int_eq→eq (pos a) (negsuc b) h = cc
int_eq→eq (negsuc a) (pos b) h = cc

receipt_eq→eq : (r s : Receipt) → receipt_eq r s ≡ true → r ≡ s
receipt_eq→eq r s h = ground (arith, int_eq→eq r.gas_used s.gas_used, items_eq→eq r.logs s.logs)

receipts_eq→eq : (rs ss : List Receipt) → receipts_eq rs ss ≡ true → rs ≡ ss
unfolding receipts_eq
receipts_eq→eq [] [] h = refl
receipts_eq→eq [] (s ∷ ss) h = cc
receipts_eq→eq (r ∷ rs) [] h = cc
receipts_eq→eq (r ∷ rs) (s ∷ ss) h =
    let (here, there) = and_true (receipt_eq r s) (receipts_eq rs ss) h in
    ap (λ x. x ∷ rs) (receipt_eq→eq r s here) ∙ ap (◌∷◌ s) (receipts_eq→eq rs ss there)

-- The run of these transactions from this state, if it is VALID, costs the fees of its receipts.
unfoldable RunPays : List Transaction → State → Option TxRun → Type 0
RunPays txs st run =
    (rs : List Receipt) (st' : State)
    → run ≡ some (valid, rs, st')
    → total st'.accounts ≡ total st.accounts -ℤ total_fees rs txs

with_first-RunPays :
    (tx : Transaction) (txs : List Transaction) (st mid : State) (r : Receipt) (run : Option TxRun)
    → total mid.accounts ≡ total st.accounts -ℤ r.gas_used *ℤ tx.fee_per_gas
    → RunPays txs mid run
    → RunPays (tx ∷ txs) st (with_first r run)
unfolding RunPays
with_first-RunPays tx txs st mid r none paid pays rs st' h = cc
with_first-RunPays tx txs st mid r (some (valid, rs0, st0)) paid pays rs st' h =
    let later = pays rs0 st0 refl in
    let Goal = λ (x : TxRun). total x.2.accounts ≡ total st.accounts -ℤ total_fees x.1 (tx ∷ txs) in
    subst Goal (some-injective _ _ h) (rw later (rw paid (omega int_laws)))
with_first-RunPays tx txs st mid r (some (s, rs0, st0)) paid pays rs st' h = ground arith

module _ ⦃p : Platform⦄ where
  after_tx-RunPays :
      (tx : Transaction) (txs : List Transaction) (st : State) (o : Option Applied)
      (rest : State → Option TxRun)
      → o ≡ validate_and_apply_with_status tx st
      → ((mid : State) → RunPays txs mid (rest mid))
      → RunPays (tx ∷ txs) st (after_tx o rest)
  unfolding RunPays
  after_tx-RunPays tx txs st none rest e pays rs st' h = cc
  after_tx-RunPays tx txs st (some (valid, some r, mid)) rest e pays rs st' h =
      with_first-RunPays tx txs st mid r (rest mid) (accepted_pays tx st r mid (sym e)) (pays mid)
        rs st' h
  after_tx-RunPays tx txs st (some (valid, none, mid)) rest e pays rs st' h = cc
  after_tx-RunPays tx txs st (some (s, o, mid)) rest e pays rs st' h = ground arith

  apply_txs-RunPays : (txs : List Transaction) (st : State) → RunPays txs st (apply_txs txs st)
  unfolding apply_txs RunPays
  apply_txs-RunPays [] st rs st' h =
      let Goal = λ (x : TxRun). total x.2.accounts ≡ total st.accounts -ℤ total_fees x.1 [] in
      subst Goal (some-injective _ _ h) (omega int_laws)
  apply_txs-RunPays (tx ∷ txs) st rs st' h =
      after_tx-RunPays tx txs st _ (apply_txs txs) refl (apply_txs-RunPays txs) rs st' h

reward-total :
    (block : Block) (rs : List Receipt) (st : State)
    → total (reward block rs st).accounts ≡ (
        if truthy block.miner
        then total st.accounts +ℤ (default_mining_reward +ℤ total_fees rs block.transactions)
        else total st.accounts)
unfolding reward credit_mining_reward
reward-total block rs st =
    if_intro
      (λ (s : State). total s.accounts ≡ (
        if truthy block.miner
        then total st.accounts +ℤ (default_mining_reward +ℤ total_fees rs block.transactions)
        else total st.accounts))
      (truthy block.miner) (λ e. rw e (total-credit _ _ st.accounts)) (λ e. rw e refl)

fees_cancel :
    (named : Bool) (a fees : ℤ)
    → (if named then a -ℤ fees +ℤ (default_mining_reward +ℤ fees) else a -ℤ fees)
      ≡ (if named then a +ℤ pos 50 else a -ℤ fees)
fees_cancel true a fees = omega int_laws
fees_cancel false a fees = refl

reward-pays :
    (block : Block) (rs : List Receipt) (st mid after : State)
    → after ≡ reward block rs mid
    → block.receipts ≡ rs
    → total mid.accounts ≡ total st.accounts -ℤ total_fees rs block.transactions
    → total after.accounts ≡ (
        if truthy block.miner
        then total st.accounts +ℤ pos 50
        else total st.accounts -ℤ total_fees block.receipts block.transactions)
reward-pays block rs st mid after e same paid =
    ap (λ (s : State). total s.accounts) e
    ∙ (reward-total block rs mid ∙ rw paid (rw same (fees_cancel (truthy block.miner) _ _)))

module _ {F : Type 0} ⦃fl : Float F⦄ ⦃p : Platform⦄ where
  -- The rest of what `_apply_block` has checked and done when its status is VALID, once the
  -- transactions have run and the miner has the reward.
  unfoldable pub Seals : Tuning F → Block → Block → List Receipt → ℕ → F → Step F → Type 0
  Seals tun prev block rs target avg step =
      (block.receipt_root ≡ calculate_receipt_root rs)
      × (block.receipts ≡ rs)
      × (block.state_root ≡ state_root step.state.accounts)
      × (step.avg ≡ fl.ema tun.alpha (block.timestamp - prev.timestamp) avg)
      × (next_target tun target step.avg ≡ some step.target)

  not_valid : (s step : Step F) → s.status ≢ valid → some s ≡ some step → step.status ≢ valid
  not_valid s step ne h v = ne (ap (λ (x : Step F). x.status) (some-injective _ _ h) ∙ v)

  accepted-target :
      (next : Option ℕ) (avg : F) (st : State) (step : Step F)
      → accepted next avg st ≡ some step
      → (step.state ≡ st) × (step.avg ≡ avg) × (next ≡ some step.target)
  accepted-target none avg st step h = cc
  accepted-target (some t) avg st step h = ground arith

  check_roots-Seals :
      (tun : Tuning F) (prev block : Block) (rs : List Receipt) (st : State) (target : ℕ) (avg : F)
      (root : Option String) (step : Step F)
      → root ≡ state_root st.accounts
      → check_roots tun prev block rs st target avg root ≡ some step
      → step.status ≡ valid
      → (step.state ≡ st)
        × (block.state_root ≡ root)
        × (step.avg ≡ fl.ema tun.alpha (block.timestamp - prev.timestamp) avg)
        × (next_target tun target step.avg ≡ some step.target)
  unfolding check_roots
  check_roots-Seals tun prev block rs st target avg none step e h v = cc
  check_roots-Seals tun prev block rs st target avg (some root) step e h v =
      let Goal = λ (o : Option (Step F)).
        o ≡ some step
        → (step.state ≡ st)
          × (block.state_root ≡ some root)
          × (step.avg ≡ fl.ema tun.alpha (block.timestamp - prev.timestamp) avg)
          × (next_target tun target step.avg ≡ some step.target) in
      (if_intro Goal (not (opt_str_eq block.state_root (some root)))
          (λ _ k. absurd (not_valid _ step (λ q. cc) k v))
          (λ same k.
            let (e1, e2, e3) = accepted-target _ _ st step k in
            (e1, opt_str_eq→eq _ _ (ground arith), e2, rw e2 e3)))
        h

  check_receipts-Seals :
      (tun : Tuning F) (prev block : Block) (rs : List Receipt) (st : State) (target : ℕ) (avg : F)
      (step : Step F)
      → check_receipts tun prev block rs st target avg ≡ some step
      → step.status ≡ valid
      → (step.state ≡ st) × Seals tun prev block rs target avg step
  unfolding check_receipts Seals
  check_receipts-Seals tun prev block rs st target avg step h v =
      let Goal = λ (o : Option (Step F)).
        o ≡ some step → (step.state ≡ st) × Seals tun prev block rs target avg step in
      (if_intro Goal (not (opt_str_eq block.receipt_root (calculate_receipt_root rs)))
          (λ _ k. absurd (not_valid _ step (λ q. cc) k v))
          (λ same.
            if_intro Goal (not (receipts_eq block.receipts rs))
              (λ _ k. absurd (not_valid _ step (λ q. cc) k v))
              (λ listed k.
                let (e1, e2, e3, e4) =
                  check_roots-Seals tun prev block rs st target avg _ step refl k v in
                (
                  e1,
                  (
                    opt_str_eq→eq _ _ (ground arith),
                    receipts_eq→eq block.receipts rs (not-false _ listed),
                    e2 ∙ ap (λ (s : State). state_root s.accounts) (sym e1),
                    e3,
                    e4,
                  ),
                ))))
        h

  after_txs-Seals :
      (tun : Tuning F) (prev block : Block) (target : ℕ) (avg : F) (run : Option TxRun)
      (step : Step F)
      → after_txs tun prev block target avg run ≡ some step
      → step.status ≡ valid
      → (rs : List Receipt) × (mid : State) × (run ≡ some (valid, rs, mid))
        × (step.state ≡ reward block rs mid)
        × Seals tun prev block rs target avg step
  unfolding after_txs
  after_txs-Seals tun prev block target avg none step h v = cc
  after_txs-Seals tun prev block target avg (some (valid, rs, mid)) step h v =
      let (e, seals) =
        check_receipts-Seals tun prev block rs (reward block rs mid) target avg step h v in
      (rs, mid, refl, e, seals)
  after_txs-Seals tun prev block target avg (some (s, rs, mid)) step h v =
      absurd (not_valid _ step (λ q. cc) h v)

  after_link-valid :
      (tun : Tuning F) (prev block : Block) (st : State) (target : ℕ) (avg : F)
      (bad : Option LinkError) (step : Step F)
      → after_link tun prev block st target avg bad ≡ some step
      → step.status ≡ valid
      → (bad ≡ none)
        × (block.target ≡ target)
        × ((rs : List Receipt) × (mid : State) × (apply_txs block.transactions st
              ≡ some (valid, rs, mid))
            × (step.state ≡ reward block rs mid)
            × Seals tun prev block rs target avg step)
  unfolding after_link names_hash
  after_link-valid tun prev block st target avg (some e) step h v =
      absurd (not_valid _ step (λ q. ground arith) h v)
  after_link-valid tun prev block st target avg none step h v =
      let Goal = λ (o : Option (Step F)).
        o ≡ some step
        → (◌≡◌ {A = Option LinkError} none none)
          × (block.target ≡ target)
          × ((rs : List Receipt) × (mid : State) × (apply_txs block.transactions st
                ≡ some (valid, rs, mid))
              × (step.state ≡ reward block rs mid)
              × Seals tun prev block rs target avg step) in
      (if_intro Goal (not (block.target == target)) (λ _ k. absurd (not_valid _ step (λ q. cc) k v))
          (λ same k. (refl, ground arith, after_txs-Seals tun prev block target avg _ step k v)))
        h

  -- A block that `_apply_block` finds VALID is linked to the one before and has the expected
  -- target; its transactions run, each VALID, with exactly the receipts that it lists and under its
  -- receipt root; the state after them, with the reward, has its state root; and the next target
  -- follows from the moving average of the block times.
  pub apply_block-valid :
      (tun : Tuning F) (prev block : Block) (now : ℕ) (st : State) (target : ℕ) (avg : F)
      (step : Step F)
      → apply_block tun prev block now st target avg ≡ some step
      → step.status ≡ valid
      → (validate_block_link_and_hash prev block now ≡ none)
        × (block.target ≡ target)
        × ((rs : List Receipt) × (mid : State) × (apply_txs block.transactions st
              ≡ some (valid, rs, mid))
            × (step.state ≡ reward block rs mid)
            × Seals tun prev block rs target avg step)
  unfolding apply_block
  apply_block-valid tun prev block now st target avg step h v =
      after_link-valid tun prev block st target avg (validate_block_link_and_hash prev block now)
        step h v

  -- A block that is VALID creates the reward of 50 if it names a miner, and otherwise destroys its
  -- fees: the sum of all balances changes by nothing else.
  pub apply_block-total :
      (tun : Tuning F) (prev block : Block) (now : ℕ) (st : State) (target : ℕ) (avg : F)
      (step : Step F)
      → apply_block tun prev block now st target avg ≡ some step
      → step.status ≡ valid
      → total step.state.accounts ≡ (
          if truthy block.miner
          then total st.accounts +ℤ pos 50
          else total st.accounts -ℤ total_fees block.receipts block.transactions)
  unfolding Seals RunPays
  apply_block-total tun prev block now st target avg step h v =
      let (_, _, (rs, mid, ran, e, seals)) =
        apply_block-valid tun prev block now st target avg step h v in
      let paid = apply_txs-RunPays block.transactions st rs mid ran in
      reward-pays block rs st mid step.state e seals.1 paid
