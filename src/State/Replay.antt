-- ===== src/State/Replay.antt =====
-- Nonces and failures of an executed transaction: no replay, and nothing but the fee of a failure.
use mathlib.Core.Path.{ap, subst}
use mathlib.Core.Option.{some-injective}
use mini_chain.Base.{ℕ, ◌+◌, String, ◌≡◌, ◌≢◌, refl, ◌∙◌, Option, none, some, if_intro, truthy}
use mini_chain.Base.Int.{ℤ, pos, ◌*ℤ◌, ltb_ℤ}
use mini_chain.Platform.{Platform, success, failure}
use mini_chain.Transaction.{Transaction, Receipt}
use mini_chain.State.Accounts.{
  Account, Accounts, account_of, charge, create_contract, derive_contract_address,
}
use mini_chain.State.Calls.{CallOutcome}
use mini_chain.State.Identity.{
  account_of-insert_ne, account_of-insert_self, SameIdentity, top_level_call-SameIdentity,
  credit-SameIdentity,
}
use mini_chain.State.Apply.{
  total_cost, rollback_and_refund, refund_gas, code_gas, deploy, finish_call, apply_validated_tx,
  text_of, holds_code,
}

abbrev pub nonce_of : String → Accounts → ℕ
nonce_of a accs = (account_of a accs).nonce

nonce_of-charge :
    (a : String) (x : ℤ) (accs : Accounts) → nonce_of a (charge a x accs) ≡ nonce_of a accs + 1
unfolding charge
nonce_of-charge a x accs = ap (λ (acc : Account). acc.nonce) (account_of-insert_self a _ accs)

nonce_of-identity :
    (a : String) (before after : Accounts)
    → SameIdentity before after
    → nonce_of a after ≡ nonce_of a before
nonce_of-identity a before after h = ap (λ (i : ℕ × Option String). i.0) (h a)

nonce_of-refund_gas :
    (tx : Transaction) (g : ℤ) (a : String) (accs : Accounts)
    → nonce_of a (refund_gas tx g accs) ≡ nonce_of a accs
unfolding refund_gas
nonce_of-refund_gas tx g a accs =
    if_intro (λ (b : Accounts). nonce_of a b ≡ nonce_of a accs) (ltb_ℤ (pos 0) g)
      (λ _. nonce_of-identity a accs _ (credit-SameIdentity tx.sender (g *ℤ tx.fee_per_gas) accs))
      (λ _. refl)

nonce_of-create_contract :
    (a b : String) (code : Option String) (x : ℤ) (accs : Accounts)
    → b ≢ a
    → nonce_of a (create_contract b code x accs) ≡ nonce_of a accs
unfolding create_contract
nonce_of-create_contract a b code x accs ne =
    ap (λ (acc : Account). acc.nonce) (account_of-insert_ne b a _ accs ne)

module _ ⦃p : Platform⦄ where
  -- One more than before for the sender.
  Counts : Transaction → Accounts → Receipt × Accounts → Type 0
  Counts tx accs (r, after) = nonce_of tx.sender after ≡ nonce_of tx.sender accs + 1

  rollback_and_refund-Counts :
      (tx : Transaction) (accs : Accounts) (e : String) (g : ℤ)
      → Counts tx accs (rollback_and_refund accs tx e g)
  unfolding rollback_and_refund Counts
  rollback_and_refund-Counts tx accs e g = nonce_of-charge tx.sender (g *ℤ tx.fee_per_gas) accs

  deploy-Counts :
      (tx : Transaction) (accs : Accounts) (cost : ℤ)
      → derive_contract_address tx.sender tx.nonce ≢ tx.sender
      → Counts tx accs (deploy tx accs (charge tx.sender cost accs))
  unfolding deploy Counts
  deploy-Counts tx accs cost ne =
      let address = derive_contract_address tx.sender tx.nonce in
      let charged = charge tx.sender cost accs in
      if_intro (Counts tx accs) (ltb_ℤ tx.gas_limit (code_gas tx))
        (λ _.
          rollback_and_refund-Counts tx accs "Out of gas (Code size exceeded limit)" tx.gas_limit)
        (λ _.
          if_intro (Counts tx accs) (holds_code address charged)
            (λ _. rollback_and_refund-Counts tx accs "Contract collision" tx.gas_limit)
            (λ _.
              nonce_of-refund_gas tx _ tx.sender
                (create_contract address tx.payload tx.amount charged)
              ∙ (nonce_of-create_contract tx.sender address tx.payload tx.amount charged ne
                  ∙ nonce_of-charge tx.sender cost accs)))

  finish_call-Counts :
      (tx : Transaction) (accs : Accounts) (out : CallOutcome) (r : Receipt × Accounts)
      → nonce_of tx.sender out.1 ≡ nonce_of tx.sender accs + 1
      → finish_call tx accs out ≡ some r
      → Counts tx accs r
  unfolding finish_call Counts
  finish_call-Counts tx accs (none, b) r h k = cc
  finish_call-Counts tx accs (some (failure x g), b) r h k =
      subst (Counts tx accs) (some-injective _ _ k) (rollback_and_refund-Counts tx accs x g)
  finish_call-Counts tx accs (some (success g ts st), b) r h k =
      subst (Counts tx accs) (some-injective _ _ k) (nonce_of-refund_gas tx _ tx.sender b ∙ h)

  -- An executed transaction, successful or not, raises its sender's nonce by exactly one, provided
  -- that no contract is deployed at the sender's own address.
  pub apply_validated_tx-nonce :
      (tx : Transaction) (accs : Accounts) (r : Receipt) (after : Accounts)
      → derive_contract_address tx.sender tx.nonce ≢ tx.sender
      → apply_validated_tx tx accs ≡ some (r, after)
      → nonce_of tx.sender after ≡ nonce_of tx.sender accs + 1
  unfolding apply_validated_tx Counts
  apply_validated_tx-nonce tx accs r after ne h =
      let charged = charge tx.sender (total_cost tx) accs in
      let counted = nonce_of-charge tx.sender (total_cost tx) accs in
      let Goal =
        λ (o : Option (Receipt × Accounts)). o ≡ some (r, after) → Counts tx accs (r, after) in
      (if_intro Goal (truthy tx.receiver)
          (λ _.
            if_intro Goal (truthy tx.payload)
              (λ _ k.
                finish_call-Counts tx accs _ (r, after)
                  (nonce_of-identity tx.sender charged _ (
                      top_level_call-SameIdentity tx.sender (text_of tx.receiver) tx.amount
                        (text_of tx.payload) tx.gas_limit charged)
                    ∙ counted)
                  k)
              (λ _ k. subst (Counts tx accs) (some-injective _ _ k) (
                nonce_of-identity tx.sender charged _
                  (credit-SameIdentity (text_of tx.receiver) tx.amount charged)
                ∙ counted)))
          (λ _ k.
            subst (Counts tx accs) (some-injective _ _ k)
              (deploy-Counts tx accs (total_cost tx) ne)))
        h
