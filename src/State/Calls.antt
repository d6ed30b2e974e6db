-- ===== src/State/Calls.antt =====
-- Contract calls: `ContractMachine.execute` of minichain/contract.py and
-- `State.execute_internal_call` of minichain/state.py. A result `none` stands for an exception that
-- leaves the method; what was written to the accounts before it stays written.
use mini_chain.Base.{
  ℕ, zero, suc, ◌*◌, String, Bool, true, false, Option, none, some, List, [], ◌∷◌, ◌&&◌, not,
  if◌then◌else◌, str_eq,
}
use mini_chain.Base.Int.{ℤ, pos, ◌+ℤ◌, ltb_ℤ}
use mini_chain.Base.Dict.{lookup, contains}
use mini_chain.Json.{Json, str, arr, obj, Items, nil, cons, Fields, end, field}
use mini_chain.Platform.{Platform, CallResult, success, failure}
use mini_chain.Contract.{
  Child, call, returned, errored, broken, crashed, timed_out, worker, new_meter, validate_code_ast,
}
use mini_chain.State.Accounts.{
  Accounts, account_of, get_account, credit, debit, update_contract_storage, has_code,
}

-- `GAS_PER_BYTE` and `MAX_CALL_DEPTH` of network_config.py.
abbrev pub gas_per_byte : ℕ
gas_per_byte = 10

abbrev pub max_call_depth : ℕ
max_call_depth = 10

put_field : String → Json → Fields → Fields
put_field k v end = field k v end
put_field k v (field j w fs) = if str_eq j k then field j v fs else field j w (put_field k v fs)

-- The pairs of a list, from the left; `none` where an item is no pair with a text for its key.
fields_of : Items → Fields → Option Fields
fields_of nil fs = some fs
fields_of (cons (arr (cons (str k) (cons v nil))) xs) fs = fields_of xs (put_field k v fs)
fields_of (cons _ xs) fs = none

-- `dict(value)`, `none` where it raises: a dict, a list of pairs, or an empty text.
unfoldable pub dict_copy : Json → Option Json
unfolding put_field fields_of
dict_copy (obj fs) = some (obj fs)
dict_copy (arr xs) = elim (fields_of xs end) [ none ↦ none | some fs ↦ some (obj fs) ]
dict_copy (str s) = if str_eq s "" then some (obj end) else none
dict_copy _ = none

abbrev pub total_out : List (String × ℤ) → ℤ
total_out [] = pos 0
total_out ((a, n) ∷ ts) = n +ℤ total_out ts

unfoldable pub pay : List (String × ℤ) → Accounts → Accounts
pay [] accs = accs
pay ((a, n) ∷ ts) accs = pay ts (credit a n accs)

abbrev pub CallOutcome : Type 0
CallOutcome = Option CallResult × Accounts

-- A call into the contract machine: contract, sender, payload, amount, gas limit.
abbrev pub Machine : Type 0
Machine = String → String → String → ℤ → ℤ → Accounts → CallOutcome

-- `receiver['balance'] -= amount`, and the sender's refund if this is no top-level call.
unfoldable pub take_back : Bool → String → String → ℤ → Accounts → Accounts
take_back top sender receiver amount accs =
    let taken = debit receiver amount accs in if top then taken else credit sender amount taken

-- What `execute_internal_call` does with the outcome of the contract machine.
unfoldable pub settle : Bool → String → String → ℤ → CallOutcome → CallOutcome
unfolding take_back
settle top sender receiver amount (none, accs) = (none, accs)
settle top sender receiver amount (some (failure e g), accs) =
    (some (failure e g), take_back top sender receiver amount accs)
settle top sender receiver amount (some (success g ts storage), accs) =
    if ltb_ℤ (account_of receiver accs).balance (total_out ts)
    then (
      some (failure "Insufficient contract balance for transfers" g),
      take_back top sender receiver amount accs,
    )
    else (
      some (success g ts storage),
      pay ts (debit receiver (total_out ts) (update_contract_storage receiver storage accs)),
    )

abbrev pub is_contract : String → Accounts → Bool
is_contract a accs = elim (lookup a accs) [ none ↦ false | some acc ↦ has_code acc ]

-- `execute_internal_call`, over the contract machine `run`.
unfoldable pub execute_internal_call :
    Machine → Bool → String → String → ℤ → String → ℤ → Accounts → CallOutcome
execute_internal_call run top sender receiver amount payload gas_limit accs =
    if is_contract receiver accs
    then if contains sender accs
      then if not top && ltb_ℤ (account_of sender accs).balance amount
        then (some (failure "Insufficient balance" gas_limit), accs)
        else settle top sender receiver amount (
            run receiver sender payload amount gas_limit
              (credit receiver amount (if top then accs else debit sender amount accs)))
      else (none, accs)
    else (some (failure "Contract not found" gas_limit), accs)

module _ ⦃p : Platform⦄ where
  -- The checks of `execute` on a "return" message of status "success".
  unfoldable pub accept : ℤ → Json → List (String × ℤ) → ℤ → CallResult
  accept gas_limit storage ts g = elim (p.storage_bytes storage) [
    | none ↦ failure "Storage not JSON serializable" g
    | some n ↦
        let total_gas = g +ℤ pos (n * gas_per_byte) in
        if ltb_ℤ gas_limit total_gas
        then failure "Out of gas (Storage size exceeded limit)" gas_limit
        else success total_gas ts storage
  ]

  -- The loop of `execute` over the messages of the child process; `nested` handles a "call".
  unfoldable pub serve :
      (String → String → ℤ → Accounts → CallOutcome) → ℤ → Child → Accounts → CallResult × Accounts
  serve nested gas_limit (call a d n k) accs =
      let out = nested a d n accs in
      elim out.0 [
        | none ↦ (failure "System Error" gas_limit, out.1)
        | some r ↦ serve nested gas_limit (k r) out.1
      ]
  serve nested gas_limit (returned storage ts g) accs = (accept gas_limit storage ts g, accs)
  serve nested gas_limit (errored e g) accs = (failure e g, accs)
  serve nested gas_limit broken accs = (failure "System Error" gas_limit, accs)
  serve nested gas_limit crashed accs = (failure "Crashed" gas_limit, accs)
  serve nested gas_limit timed_out accs = (failure "Execution timed out" gas_limit, accs)

  -- `execute` from the copy of the storage on, which may raise, with the code of the account.
  unfoldable pub start :
      (String → String → ℤ → Accounts → CallOutcome) → Option Json → Option String → Machine
  start nested none code contract sender payload amount gas_limit accs = (none, accs)
  start nested (some storage) none contract sender payload amount gas_limit accs =
      (some (failure "No code" (pos 0)), accs)
  start nested (some storage) (some code) contract sender payload amount gas_limit accs =
      if str_eq code ""
      then (some (failure "No code" (pos 0)), accs)
      else if validate_code_ast code
      then (let child =
            worker (p.exec code storage sender amount payload) (new_meter gas_limit) [] in
          let out = serve nested gas_limit child accs in (some out.0, out.1))
      else (some (failure "AST Validation Failed" (pos 0)), accs)

  -- `execute`, with `MAX_CALL_DEPTH + 1 - depth` calls left: at 0 the depth is exceeded. A nested
  -- call gets the whole gas limit again.
  unfoldable pub execute : ℕ → Machine
  unfolding dict_copy start
  execute zero contract sender payload amount gas_limit accs =
      (some (failure "Max call depth exceeded" gas_limit), accs)
  execute (suc left) contract sender payload amount gas_limit accs =
      let accs' = get_account contract accs in
      let acc = account_of contract accs' in
      let nested = λ (a d : String) (n : ℤ).
        execute_internal_call (execute left) false contract a n d gas_limit in
      start nested (dict_copy acc.storage) acc.code contract sender payload amount gas_limit accs'

  -- The call that a transaction makes, at depth 0.
  unfoldable pub top_level_call : String → String → ℤ → String → ℤ → Accounts → CallOutcome
  unfolding execute_internal_call execute
  top_level_call = execute_internal_call (execute (suc max_call_depth)) true
