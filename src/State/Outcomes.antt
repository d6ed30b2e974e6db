-- ===== src/State/Outcomes.antt =====
-- How `validate_and_apply_with_status` ends: what is rejected changes no account, what fails costs
-- its fee and nothing else, and what was applied cannot be applied again.
use mathlib.Core.Path.{ap, subst}
use mathlib.Core.Option.{some-injective}
use mini_chain.Base.{
  String, ◌≡◌, ◌≢◌, refl, sym, ◌∙◌, true, Option, none, some, arith, if_intro, Option-cases, inl,
  inr, truthy,
}
use mini_chain.Base.Int.{pos, ◌*ℤ◌, ◌-ℤ◌, ◌≤ℤ◌, ltb_ℤ, ltb_ℤ→ge}
use mini_chain.Platform.{Platform, success, failure}
use mini_chain.Transaction.{Transaction, Receipt, verify, ValidationStatus, valid, failed}
use mini_chain.State.Accounts.{
  Account, Accounts, account_of, get_account, charge, derive_contract_address,
}
use mini_chain.State.Calls.{CallOutcome}
use mini_chain.State.Identity.{account_of-get_account}
use mini_chain.State.Replay.{nonce_of, apply_validated_tx-nonce}
use mini_chain.State.Supply.{total, total-get_account}
use mini_chain.State.Fees.{apply_validated_tx-Pays}
use mini_chain.State.Apply.{
  State, total_cost, rollback_and_refund, code_gas, deploy, finish_call, apply_validated_tx,
  holds_code, verify_transaction_logic, validate_and_apply_with_status, amounts_well_formed,
}

-- A receipt of status 0 leaves the charge for the gas used.
FailsCleanly : Transaction → Accounts → Receipt × Accounts → Type 0
FailsCleanly tx accs (r, after) =
    r.status ≡ 0 → after ≡ charge tx.sender (r.gas_used *ℤ tx.fee_per_gas) accs

module _ ⦃p : Platform⦄ where
  deploy-FailsCleanly :
      (tx : Transaction) (accs charged : Accounts) → FailsCleanly tx accs (deploy tx accs charged)
  unfolding deploy rollback_and_refund FailsCleanly
  deploy-FailsCleanly tx accs charged =
      let address = derive_contract_address tx.sender tx.nonce in
      if_intro (FailsCleanly tx accs) (ltb_ℤ tx.gas_limit (code_gas tx)) (λ _ _. refl)
        (λ _.
          if_intro (FailsCleanly tx accs) (holds_code address charged) (λ _ _. refl) (λ _ e. cc))

  finish_call-FailsCleanly :
      (tx : Transaction) (accs : Accounts) (out : CallOutcome) (r : Receipt × Accounts)
      → finish_call tx accs out ≡ some r
      → FailsCleanly tx accs r
  unfolding finish_call rollback_and_refund FailsCleanly
  finish_call-FailsCleanly tx accs (none, b) r k = cc
  finish_call-FailsCleanly tx accs (some (failure x g), b) r k =
      subst (FailsCleanly tx accs) (some-injective _ _ k) (λ _. refl)
  finish_call-FailsCleanly tx accs (some (success g ts st), b) r k =
      subst (FailsCleanly tx accs) (some-injective _ _ k) (λ e. cc)

  -- A transaction whose receipt has status 0 has changed its sender's account alone, by the fee for
  -- the gas in the receipt and one nonce: nothing else that the contract did is kept.
  pub apply_validated_tx-failure :
      (tx : Transaction) (accs : Accounts) (r : Receipt) (after : Accounts)
      → apply_validated_tx tx accs ≡ some (r, after)
      → r.status ≡ 0
      → after ≡ charge tx.sender (r.gas_used *ℤ tx.fee_per_gas) accs
  unfolding apply_validated_tx FailsCleanly
  apply_validated_tx-failure tx accs r after h =
      let charged = charge tx.sender (total_cost tx) accs in
      let Goal = λ (o : Option (Receipt × Accounts)).
        o ≡ some (r, after) → FailsCleanly tx accs (r, after) in
      (if_intro Goal (truthy tx.receiver)
          (λ _.
            if_intro Goal (truthy tx.payload)
              (λ _ k. finish_call-FailsCleanly tx accs _ (r, after) k)
              (λ _ k. subst (FailsCleanly tx accs) (some-injective _ _ k) (λ e. cc)))
          (λ _ k.
            subst (FailsCleanly tx accs) (some-injective _ _ k)
              (deploy-FailsCleanly tx accs charged)))
        h

  -- The accounts that validation leaves behind.
  pub verify_transaction_logic-account_of :
      (tx : Transaction) (st : State) (a : String)
      → account_of a (verify_transaction_logic tx st).1 ≡ account_of a st.accounts
  unfolding verify_transaction_logic
  verify_transaction_logic-account_of tx st a =
      ground (arith, account_of-get_account tx.sender a st.accounts)

  verify_transaction_logic-total :
      (tx : Transaction) (st : State) → total (verify_transaction_logic tx st).1 ≡ total st.accounts
  unfolding verify_transaction_logic
  verify_transaction_logic-total tx st = ground (arith, total-get_account tx.sender st.accounts)

  -- A transaction that is not VALID yields no receipt, and every account is as it was before.
  pub rejected_changes_nothing :
      (tx : Transaction) (st : State) (s : ValidationStatus) (o : Option Receipt) (st' : State)
      → validate_and_apply_with_status tx st ≡ some (s, o, st')
      → s ≢ valid
      → (o ≡ none) × ((a : String) → account_of a st'.accounts ≡ account_of a st.accounts)
  unfolding validate_and_apply_with_status
  rejected_changes_nothing tx st s o st' h ne =
      (ground arith, λ a. ground (arith, verify_transaction_logic-account_of tx st a))

  -- An accepted transaction is well formed, signed, for this chain, covered by its sender's balance
  -- and carries its sender's nonce.
  pub accepted_was_covered :
      (tx : Transaction) (st : State) (o : Option Receipt) (st' : State)
      → validate_and_apply_with_status tx st ≡ some (valid, o, st')
      → (pos 0 ≤ℤ tx.amount)
        × (verify tx ≡ true)
        × (tx.chain_id ≡ st.chain_id)
        × (total_cost tx ≤ℤ (account_of tx.sender st.accounts).balance)
        × ((account_of tx.sender st.accounts).nonce ≡ tx.nonce)
  unfolding validate_and_apply_with_status verify_transaction_logic amounts_well_formed
  accepted_was_covered tx st o st' h =
      let accs = get_account tx.sender st.accounts in
      ground (
        arith,
        account_of-get_account tx.sender tx.sender st.accounts,
        ltb_ℤ→ge tx.amount (pos 0),
        ltb_ℤ→ge (account_of tx.sender accs).balance (total_cost tx),
      )

  -- What an accepted transaction went through.
  accepted_was_applied :
      (tx : Transaction) (st : State) (o : Option Receipt) (st' : State)
      → validate_and_apply_with_status tx st ≡ some (valid, o, st')
      → (r : Receipt) × (o ≡ some r)
        × (apply_validated_tx tx (verify_transaction_logic tx st).1 ≡ some (r, st'.accounts))
        × (st'.chain_id ≡ st.chain_id)
  unfolding validate_and_apply_with_status
  accepted_was_applied tx st o st' h =
      elim (Option-cases (apply_validated_tx tx (verify_transaction_logic tx st).1)) [
        | inl raised ↦ absurd (ground arith)
        | inr ((r, after), e) ↦ (r, ground arith, ground arith, ground arith)
      ]

  -- A signed transaction for this chain is refused in every state where it is not its turn.
  wrong_nonce-failed :
      (tx : Transaction) (st : State)
      → verify tx ≡ true
      → tx.chain_id ≡ st.chain_id
      → nonce_of tx.sender st.accounts ≢ tx.nonce
      → (verify_transaction_logic tx st).0 ≡ failed
  unfolding verify_transaction_logic
  wrong_nonce-failed tx st signed here turn =
      ground (arith, account_of-get_account tx.sender tx.sender st.accounts)

  -- Once a transaction has been accepted, the state that it leaves refuses it: it cannot be replayed
  -- (provided that it deploys no contract at its sender's own address).
  pub accepted_once :
      (tx : Transaction) (st : State) (o : Option Receipt) (st' : State)
      → derive_contract_address tx.sender tx.nonce ≢ tx.sender
      → validate_and_apply_with_status tx st ≡ some (valid, o, st')
      → (verify_transaction_logic tx st').0 ≡ failed
  accepted_once tx st o st' ne h =
      let (r, _, ran, chain) = accepted_was_applied tx st o st' h in
      let (_, signed, here, _, turn) = accepted_was_covered tx st o st' h in
      let next =
        apply_validated_tx-nonce tx (verify_transaction_logic tx st).1 r st'.accounts ne ran in
      let same =
        ap (λ (acc : Account). acc.nonce) (verify_transaction_logic-account_of tx st tx.sender) in
      wrong_nonce-failed tx st' signed (here ∙ sym chain) (omega (arith, next, same, turn))

  -- An accepted transaction lowers the sum of all balances by the fee in its receipt.
  pub accepted_pays :
      (tx : Transaction) (st : State) (r : Receipt) (st' : State)
      → validate_and_apply_with_status tx st ≡ some (valid, some r, st')
      → total st'.accounts ≡ total st.accounts -ℤ r.gas_used *ℤ tx.fee_per_gas
  accepted_pays tx st r st' h =
      let (r', e, ran, _) = accepted_was_applied tx st (some r) st' h in
      rw (some-injective _ _ e) (
        apply_validated_tx-Pays tx _ (r', st'.accounts) ran
        ∙ ap (λ t. t -ℤ r'.gas_used *ℤ tx.fee_per_gas) (verify_transaction_logic-total tx st))
