-- ===== src/State/Fees.antt =====
-- What a transaction does to the sum of all balances, and to its sender's nonce.
use mini_chain.Base.{String, ◌≡◌, ◌∙◌, true, none, some, if_intro, Bool-cases, inl, inr, truthy}
use mini_chain.Base.Int.{
  ℤ, pos, ◌≤ℤ◌, ◌+ℤ◌, ◌-ℤ◌, ◌*ℤ◌, int_laws, ltb_ℤ, ltb_ℤ→ge, sub-*ℤ, eq_of_parts,
}
use mini_chain.Platform.{Platform, success, failure}
use mini_chain.Transaction.{Transaction, Receipt}
use mini_chain.State.Accounts.{Accounts, charge, create_contract, derive_contract_address}
use mini_chain.State.Calls.{CallOutcome, top_level_call, execute}
use mini_chain.State.Gas.{Within, ResultWithin, top_level_call-Within}
use mini_chain.State.Supply.{
  total, total-charge, total-credit, total-create_contract, Brings, execute_internal_call-Brings,
  execute-Conserves,
}
use mathlib.Core.Path.{subst, ap}
use mathlib.Core.Option.{some-injective}
use mini_chain.State.Apply.{
  total_cost, rollback_and_refund, refund_gas, code_gas, deploy, finish_call, transfer,
  apply_validated_tx, text_of, holds_code,
}

-- The sum falls by the fee that the receipt reports.
abbrev pub Pays : ℤ → Accounts → Receipt × Accounts → Type 0
Pays price before (r, after) = total after ≡ total before -ℤ r.gas_used *ℤ price

module _ ⦃p : Platform⦄ where
  rollback_and_refund-Pays :
      (tx : Transaction) (accs : Accounts) (e : String) (g : ℤ)
      → Pays tx.fee_per_gas accs (rollback_and_refund accs tx e g)
  unfolding rollback_and_refund
  rollback_and_refund-Pays tx accs e g = total-charge tx.sender (g *ℤ tx.fee_per_gas) accs

  -- After the whole cost has been taken, the refund leaves the fee for the gas used.
  refund_gas-total :
      (tx : Transaction) (g : ℤ) (before accs : Accounts)
      → g ≤ℤ tx.gas_limit
      → total accs ≡ total before -ℤ total_cost tx +ℤ tx.amount
      → total (refund_gas tx (tx.gas_limit -ℤ g) accs) ≡ total before -ℤ g *ℤ tx.fee_per_gas
  unfolding refund_gas total_cost
  refund_gas-total tx g before accs within h =
      elim (Bool-cases (ltb_ℤ (pos 0) (tx.gas_limit -ℤ g))) [
        | inl left ↦ rw (left, total-credit, h, sub-*ℤ) (omega int_laws)
        | inr used ↦
            let all : g ≡ tx.gas_limit =
              eq_of_parts g tx.gas_limit
                (omega (int_laws, ltb_ℤ→ge (pos 0) (tx.gas_limit -ℤ g) used)) in
            rw (used, h, all) (omega int_laws)
      ]

  deploy-Pays :
      (tx : Transaction) (accs charged : Accounts)
      → total charged ≡ total accs -ℤ total_cost tx
      → Pays tx.fee_per_gas accs (deploy tx accs charged)
  unfolding deploy
  deploy-Pays tx accs charged h =
      let address = derive_contract_address tx.sender tx.nonce in
      if_intro (Pays tx.fee_per_gas accs) (ltb_ℤ tx.gas_limit (code_gas tx))
        (λ _. rollback_and_refund-Pays tx accs "Out of gas (Code size exceeded limit)" tx.gas_limit)
        (λ fits.
          if_intro (Pays tx.fee_per_gas accs) (holds_code address charged)
            (λ _. rollback_and_refund-Pays tx accs "Contract collision" tx.gas_limit)
            (λ _.
              refund_gas-total tx (code_gas tx) accs
                (create_contract address tx.payload tx.amount charged)
                (ltb_ℤ→ge tx.gas_limit (code_gas tx) fits)
                (total-create_contract address tx.payload tx.amount charged
                  ∙ ap (λ t. t +ℤ tx.amount) h)))

  finish_call-Pays :
      (tx : Transaction) (accs : Accounts) (out : CallOutcome) (before : ℤ) (r : Receipt × Accounts)
      → before ≡ total accs -ℤ total_cost tx
      → Within tx.gas_limit out
      → Brings true tx.amount before out
      → finish_call tx accs out ≡ some r
      → Pays tx.fee_per_gas accs r
  unfolding finish_call Within Brings ResultWithin
  finish_call-Pays tx accs (none, b) before r e w h k = cc
  finish_call-Pays tx accs (some (failure x g), b) before r e w h k =
      subst (Pays tx.fee_per_gas accs) (some-injective _ _ k) (rollback_and_refund-Pays tx accs x g)
  finish_call-Pays tx accs (some (success g ts st), b) before r e w h k =
      subst (Pays tx.fee_per_gas accs) (some-injective _ _ k)
        (refund_gas-total tx g accs b w (h ∙ ap (λ t. t +ℤ tx.amount) e))

  transfer-Pays :
      (tx : Transaction) (accs charged : Accounts)
      → total charged ≡ total accs -ℤ total_cost tx
      → Pays tx.fee_per_gas accs (transfer tx charged)
  unfolding total_cost
  transfer-Pays tx accs charged h = rw (total-credit, h) (omega int_laws)

  -- Whatever an executed transaction does (a transfer, a deployment, a contract call with nested
  -- calls and payments, or a failure that is rolled back), the sum of all balances falls by exactly
  -- the gas used in its receipt times its fee per gas.
  pub apply_validated_tx-Pays :
      (tx : Transaction) (accs : Accounts) (r : Receipt × Accounts)
      → apply_validated_tx tx accs ≡ some r
      → Pays tx.fee_per_gas accs r
  unfolding apply_validated_tx top_level_call
  apply_validated_tx-Pays tx accs r h =
      let charged = charge tx.sender (total_cost tx) accs in
      let cost : total charged ≡ total accs -ℤ total_cost tx =
        total-charge tx.sender (total_cost tx) accs in
      (if_intro (λ o. o ≡ some r → Pays tx.fee_per_gas accs r) (truthy tx.receiver)
          (λ _.
            if_intro (λ o. o ≡ some r → Pays tx.fee_per_gas accs r) (truthy tx.payload)
              (λ _ k.
                finish_call-Pays tx accs _ (total charged) r cost
                  (top_level_call-Within tx.sender (text_of tx.receiver) tx.amount
                    (text_of tx.payload) tx.gas_limit charged)
                  (execute_internal_call-Brings (execute 11) true tx.sender (text_of tx.receiver)
                    tx.amount (text_of tx.payload) tx.gas_limit charged (execute-Conserves 11))
                  k)
              (λ _ k.
                subst (Pays tx.fee_per_gas accs) (some-injective _ _ k)
                  (transfer-Pays tx accs charged cost)))
          (λ _ k.
            subst (Pays tx.fee_per_gas accs) (some-injective _ _ k)
              (deploy-Pays tx accs charged cost)))
        h
