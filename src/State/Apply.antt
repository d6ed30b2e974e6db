-- ===== src/State/Apply.antt =====
-- The validation and execution of a transaction in minichain/state.py. `StateJournal` is an overlay
-- over the accounts, so a rollback is the accounts from before, and a commit the accounts after.
use mini_chain.Base.{
  ℕ, ◌*◌, String, Bool, false, Option, none, some, ◌&&◌, not, if◌then◌else◌, truthy, str_eq, ◌==◌,
}
use mini_chain.Base.Int.{ℤ, pos, ◌+ℤ◌, ◌-ℤ◌, ◌*ℤ◌, ltb_ℤ}
use mini_chain.Base.Dict.{lookup}
use mini_chain.Json.{nil}
use mini_chain.Platform.{Platform, success, failure}
use mini_chain.Transaction.{
  Transaction, tx_id, verify, Receipt, ValidationStatus, valid, invalid, failed, malformed,
}
use mini_chain.State.Accounts.{
  Accounts, account_of, get_account, credit, charge, create_contract, has_code,
  derive_contract_address,
}
use mini_chain.State.Calls.{gas_per_byte, CallOutcome, top_level_call}
use Prim.Native.String.{len}

pub record State : Type 0 where
  pub accounts : Accounts
  pub chain_id : String

-- `tx.amount + tx.gas_limit * tx.fee_per_gas`
unfoldable pub total_cost : Transaction → ℤ
total_cost tx = tx.amount +ℤ tx.gas_limit *ℤ tx.fee_per_gas

unfoldable pub amounts_well_formed : Transaction → Bool
amounts_well_formed tx =
    not (ltb_ℤ tx.amount (pos 0))
    && (not (ltb_ℤ tx.gas_limit (pos 0)) && not (ltb_ℤ tx.fee_per_gas (pos 0)))

-- `rollback_and_refund`, on the accounts from before the transaction.
unfoldable pub rollback_and_refund :
    ⦃p : Platform⦄ → Accounts → Transaction → String → ℤ → Receipt × Accounts
rollback_and_refund original tx error gas_used = (
  record {
    tx_hash = tx_id tx;
    status = 0;
    gas_used = gas_used;
    error_message = error;
    logs = nil;
    contract_address = "";
  },
  charge tx.sender (gas_used *ℤ tx.fee_per_gas) original,
)

-- The receipt of a success.
abbrev pub succeeded : ⦃p : Platform⦄ → Transaction → ℤ → String → Receipt
succeeded tx gas_used contract_address = record {
  tx_hash = tx_id tx;
  status = 1;
  gas_used = gas_used;
  error_message = "";
  logs = nil;
  contract_address = contract_address;
}

-- The refund of unused gas, if there is some.
unfoldable pub refund_gas : Transaction → ℤ → Accounts → Accounts
refund_gas tx gas_refund accs =
    if ltb_ℤ (pos 0) gas_refund then credit tx.sender (gas_refund *ℤ tx.fee_per_gas) accs else accs

abbrev code_bytes : Option String → ℕ
code_bytes none = 0
code_bytes (some code) = len code

unfoldable pub code_gas : Transaction → ℤ
code_gas tx = pos (code_bytes tx.payload * gas_per_byte)

-- The text in an optional text, "" for `None`.
abbrev pub text_of : Option String → String
text_of none = ""
text_of (some s) = s

abbrev pub holds_code : String → Accounts → Bool
holds_code a accs = elim (lookup a accs) [ none ↦ false | some acc ↦ has_code acc ]

-- What `validate_and_apply_with_status` returns, with the state.
abbrev pub Applied : Type 0
Applied = ValidationStatus × Option Receipt × State

module _ ⦃p : Platform⦄ where
  -- The deployment branch, on the accounts before the transaction and those after the charge.
  unfoldable pub deploy : Transaction → Accounts → Accounts → Receipt × Accounts
  unfolding rollback_and_refund
  deploy tx original charged =
      let address = derive_contract_address tx.sender tx.nonce in
      if ltb_ℤ tx.gas_limit (code_gas tx)
      then rollback_and_refund original tx "Out of gas (Code size exceeded limit)" tx.gas_limit
      else if holds_code address charged
      then rollback_and_refund original tx "Contract collision" tx.gas_limit
      else (
        succeeded tx (code_gas tx) address,
        refund_gas tx (tx.gas_limit -ℤ code_gas tx)
            (create_contract address tx.payload tx.amount charged),
      )

  -- The end of the contract call branch; `none` is an exception that leaves the method.
  unfoldable pub finish_call : Transaction → Accounts → CallOutcome → Option (Receipt × Accounts)
  unfolding rollback_and_refund
  finish_call tx original (none, accs) = none
  finish_call tx original (some (failure e g), accs) = some (rollback_and_refund original tx e g)
  finish_call tx original (some (success g ts st), accs) =
      some (succeeded tx g "", refund_gas tx (tx.gas_limit -ℤ g) accs)

  abbrev pub transfer : Transaction → Accounts → Receipt × Accounts
  transfer tx charged =
      (succeeded tx tx.gas_limit "", credit (text_of tx.receiver) tx.amount charged)

  -- `_apply_validated_tx`
  unfoldable pub apply_validated_tx : Transaction → Accounts → Option (Receipt × Accounts)
  unfolding deploy finish_call
  apply_validated_tx tx original =
      let charged = charge tx.sender (total_cost tx) original in
      if truthy tx.receiver
      then if truthy tx.payload
        then finish_call tx original (
            top_level_call tx.sender (text_of tx.receiver) tx.amount (text_of tx.payload)
              tx.gas_limit charged)
        else some (transfer tx charged)
      else some (deploy tx original charged)

  -- The status, and the accounts, which now hold the sender if its signature and chain are right.
  unfoldable pub verify_transaction_logic : Transaction → State → ValidationStatus × Accounts
  verify_transaction_logic tx st =
      if verify tx
      then if str_eq tx.chain_id st.chain_id
        then (let accs = get_account tx.sender st.accounts in
            let acc = account_of tx.sender accs in
            if ltb_ℤ acc.balance (total_cost tx)
            then (failed, accs)
            else if acc.nonce == tx.nonce
            then (valid, accs)
            else (failed, accs))
        else (invalid, st.accounts)
      else (invalid, st.accounts)

  abbrev with_receipt : State → Receipt × Accounts → Applied
  with_receipt st (receipt, accs) = (valid, some receipt, record st { accounts = accs })

  abbrev apply_verified : Transaction → State → ValidationStatus × Accounts → Option Applied
  apply_verified tx st (valid, accs) = elim (apply_validated_tx tx accs) [
    | none ↦ none
    | some r ↦ some (with_receipt st r)
  ]
  apply_verified tx st (status, accs) = some (status, none, record st { accounts = accs })

  -- `validate_and_apply_with_status`; `none` is an exception that leaves the method.
  unfoldable pub validate_and_apply_with_status : Transaction → State → Option Applied
  validate_and_apply_with_status tx st =
      if amounts_well_formed tx
      then apply_verified tx st (verify_transaction_logic tx st)
      else some (malformed, none, st)
