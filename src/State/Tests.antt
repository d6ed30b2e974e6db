-- ===== src/State/Tests.antt =====
-- Runs of the state machine of accounts, and each theorem at a concrete input.
use mini_chain.Base.{
  String, ◌≡◌, ◌≢◌, refl, false, Option, none, some, List, [], ◌∷◌, arith, str_dec, str_eq→ne,
}
use mini_chain.Base.Int.{ℤ, pos, negsuc, ◌+ℤ◌, ◌-ℤ◌, ◌*ℤ◌, ◌<ℤ◌, ltb_ℤ}
use mini_chain.Base.Dict.{lookup, insert}
use mini_chain.Base.Text.{decimal}
use mini_chain.Json.{obj, end, nil}
use mini_chain.Platform.{failure}
use mini_chain.Transaction.{Transaction, Receipt, tx_id, verify, valid, failed}
use mini_chain.Demo.{demo, demo_hash, behaviour, checksum}
use mini_chain.Contract.{worker, trace_opcode, transfer_error, validate_code_ast}
use mini_chain.State.Accounts.{
  Account, Accounts, account_of, get_account, credit, debit, charge, has_code,
  update_contract_storage, create_contract, derive_contract_address,
}
use mini_chain.State.Calls.{
  pay, settle, execute_internal_call, accept, serve, execute, top_level_call,
}
use mini_chain.State.Apply.{
  total_cost, amounts_well_formed, refund_gas, code_gas, deploy, finish_call, apply_validated_tx,
  verify_transaction_logic, State, validate_and_apply_with_status,
}
use mini_chain.State.Journal as Journal
use mini_chain.State.Journal.{begin_journal}
use mini_chain.State.Overlay.{Access, reads, writes, run_journal, run_plain, run_journal-refines}
use mini_chain.State.Supply.{total, execute-Conserves}
use mini_chain.State.Fees.{apply_validated_tx-Pays}
use mini_chain.State.Identity.{identity, top_level_call-SameIdentity}
use mini_chain.State.Nested.{failed_call_overdraws, negative_call_draws}
use mini_chain.State.Outcomes.{apply_validated_tx-failure, accepted_once}

abbrev holder : ℤ → Option String → Account
holder n code = record { balance = n; nonce = 0; code = code; storage = obj end }

abbrev genesis : Accounts
genesis =
    ("aa", holder (pos 1000) none)
    ∷ ("c0", holder (pos 200) (some "try"))
    ∷ ("c1", holder (pos 60) (some "keep"))
    ∷ ("c2", holder (pos 0) (some "spend"))
    ∷ []

abbrev start : State
start = record { accounts = genesis; chain_id = "test" }

-- A transfer of 30 with a gas limit of 2 at a price of 3.
abbrev payment : Transaction
payment = record {
  sender = "aa";
  receiver = some "bb";
  amount = pos 30;
  gas_limit = pos 2;
  fee_per_gas = pos 3;
  nonce = 0;
  payload = none;
  timestamp = 5;
  chain_id = "test";
  signature = some "aa";
}

-- What a run computes with.
run_time : Unit {0}
unfolding str_dec ltb_ℤ ◌+ℤ◌ ◌-ℤ◌ ◌*ℤ◌ lookup insert decimal demo_hash behaviour checksum verify
    tx_id account_of get_account credit debit charge update_contract_storage create_contract
    has_code derive_contract_address pay settle execute_internal_call accept serve execute
    top_level_call worker trace_opcode transfer_error validate_code_ast total_cost
    amounts_well_formed refund_gas code_gas deploy finish_call apply_validated_tx
    verify_transaction_logic validate_and_apply_with_status
run_time = tt

abbrev after_payment : Accounts
after_payment =
    ("aa", record { balance = pos 964; nonce = 1; code = none; storage = obj end })
    ∷ ("c0", holder (pos 200) (some "try"))
    ∷ ("c1", holder (pos 60) (some "keep"))
    ∷ ("c2", holder (pos 0) (some "spend"))
    ∷ ("bb", holder (pos 30) none)
    ∷ []

abbrev payment_receipt : Receipt
payment_receipt = record {
  tx_hash = tx_id payment;
  status = 1;
  gas_used = pos 2;
  error_message = "";
  logs = nil;
  contract_address = "";
}

payment_accepted :
    validate_and_apply_with_status payment start
    ≡ some (valid, some payment_receipt, record { accounts = after_payment; chain_id = "test" })
unfolding run_time
payment_accepted = refl

-- A call of "try", which sends 100 to "spend", which passes them on to "keep" and fails.
abbrev attack : Transaction
attack = record payment {
  receiver = some "c0";
  amount = pos 0;
  gas_limit = pos 1000;
  fee_per_gas = pos 0;
  payload = some "go";
}

abbrev after_attack : Accounts
after_attack =
    ("aa", record { balance = pos 1000; nonce = 1; code = none; storage = obj end })
    ∷ ("c0", holder (pos 200) (some "try"))
    ∷ ("c1", holder (pos 160) (some "keep"))
    ∷ ("c2", holder (negsuc 99) (some "spend"))
    ∷ []

attack_accepted :
    validate_and_apply_with_status attack start
    ≡ some (
      valid,
      some (record payment_receipt { gas_used = pos 20; tx_hash = tx_id attack }),
      record { accounts = after_attack; chain_id = "test" },
    )
unfolding run_time
attack_accepted = refl

abbrev paid : State
paid = record { accounts = after_payment; chain_id = "test" }

own_address : derive_contract_address payment.sender payment.nonce ≢ payment.sender
unfolding run_time
own_address = str_eq→ne (derive_contract_address payment.sender payment.nonce) payment.sender refl

accepted_once_example : (verify_transaction_logic payment paid).0 ≡ failed
accepted_once_example =
    accepted_once payment start (some payment_receipt) paid own_address payment_accepted

early_rejected :
    validate_and_apply_with_status (record payment { nonce = 4 }) start ≡ some (failed, none, start)
unfolding run_time
early_rejected = refl

apply_validated_tx-Pays_example : total after_payment ≡ total genesis -ℤ pos 2 *ℤ pos 3
apply_validated_tx-Pays_example =
    apply_validated_tx-Pays payment genesis (payment_receipt, after_payment)
      (unfold run_time in refl)

-- A deployment whose gas does not cover its 40 bytes at 10 gas each.
abbrev deployment : Transaction
deployment = record payment {
  receiver = none;
  payload = some "aaaaaaaaaabbbbbbbbbbccccccccccdddddddddd";
  gas_limit = pos 100;
}

abbrev deployment_receipt : Receipt
deployment_receipt = record {
  tx_hash = tx_id deployment;
  status = 0;
  gas_used = pos 100;
  error_message = "Out of gas (Code size exceeded limit)";
  logs = nil;
  contract_address = "";
}

abbrev after_deployment : Accounts
after_deployment =
    ("aa", record { balance = pos 700; nonce = 1; code = none; storage = obj end })
    ∷ ("c0", holder (pos 200) (some "try"))
    ∷ ("c1", holder (pos 60) (some "keep"))
    ∷ ("c2", holder (pos 0) (some "spend"))
    ∷ []

apply_validated_tx-failure_example : after_deployment ≡ charge "aa" (pos 100 *ℤ pos 3) genesis
apply_validated_tx-failure_example =
    apply_validated_tx-failure deployment genesis deployment_receipt after_deployment
      (unfold run_time in refl) refl

execute-Conserves_example :
    total (execute 3 "c0" "aa" "go" (pos 0) (pos 1000) genesis).1 ≡ total genesis
execute-Conserves_example = execute-Conserves 3 "c0" "aa" "go" (pos 0) (pos 1000) genesis

top_level_call-SameIdentity_example :
    identity "c2" (top_level_call "aa" "c0" (pos 0) "go" (pos 1000) genesis).1
    ≡ identity "c2" genesis
top_level_call-SameIdentity_example =
    top_level_call-SameIdentity "aa" "c0" (pos 0) "go" (pos 1000) genesis "c2"

abbrev spent : Accounts
spent =
    ("aa", holder (pos 1000) none)
    ∷ ("c0", holder (pos 100) (some "try"))
    ∷ ("c1", holder (pos 160) (some "keep"))
    ∷ ("c2", holder (pos 0) (some "spend"))
    ∷ []

failed_call_overdraws_example :
    let out = execute_internal_call (execute 3) false "c0" "c2" (pos 100) "go" (pos 1000) genesis in
    (out ≡ (some (failure "failed" (pos 0)), credit "c0" (pos 100) (debit "c2" (pos 100) spent)))
    × ((account_of "c2" out.1).balance <ℤ pos 0)
failed_call_overdraws_example =
    failed_call_overdraws (execute 3) "c0" "c2" (pos 100) "go" (pos 1000) genesis
      (unfold run_time in refl) (unfold run_time in refl) (unfold run_time in omega arith) "failed"
      (pos 0) spent (unfold run_time in refl) (unfold run_time in str_eq→ne "c0" "c2" refl)
      (unfold run_time in omega arith)

negative_call_draws_example :
    let after =
      (execute_internal_call (execute 3) false "c0" "c1" (negsuc 39) "go" (pos 1000) genesis).1 in
    ((account_of "c0" after).balance ≡ pos 200 +ℤ pos 40)
    × ((account_of "c1" after).balance ≡ pos 60 -ℤ pos 40)
unfolding run_time
negative_call_draws_example =
    negative_call_draws (execute 3) "c0" "c1" (negsuc 39) "go" (pos 1000) genesis refl refl
      (omega arith) 39 (pos 21) (obj end) refl refl (str_eq→ne "c0" "c1" refl) (omega arith)

abbrev accesses : List (Access Account)
accesses = reads "aa" ∷ writes "aa" (holder (pos 5) none) ∷ reads "c0" ∷ []

run_journal-refines_example :
    let j = run_journal accesses (begin_journal genesis) in
    ((k : String) → lookup k (Journal.commit j).backing ≡ lookup k (run_plain accesses genesis))
    × (Journal.rollback j ≡ begin_journal genesis)
run_journal-refines_example = run_journal-refines accesses genesis
