-- ===== src/Contract.antt =====
-- minichain/contract.py: the gas meter, the worker that runs a contract's code and reports to the
-- parent process, and the check of the code's syntax tree. `ContractMachine.execute` stands in
-- State/Calls.antt, since it and the state call one another.
pub mod Metering
mod Tests
use mini_chain.Base.{
  ℕ, String, Bool, true, false, Option, none, some, List, [], ◌∷◌, ◌++◌, ◌||◌, ◌&&◌, not, str_eq,
  if◌then◌else◌, ◌==◌, length,
}
use mini_chain.Base.Int.{ℤ, pos, ltb_ℤ, ◌-ℤ◌}
use mini_chain.Base.Text.{codes, int16}
use mini_chain.Json.{Json}
use mini_chain.Platform.{
  Platform, Program, opcode, transfer_out, call_contract, finish, raise, out_of_gas, garbage, crash,
  hang, Node, attribute, name, import_stmt, import_from, call_name, str_constant, joined_str,
  mult_op, pow_op, mat_mult_op, other, CallResult, success, failure,
}
use text.Mathlib.Text.{starts_with, find?}
use Prim.Native.String

-- `GasMeter`. CPython stops tracing once the trace function has raised.
pub record GasMeter : Type 0 where
  pub gas : ℤ
  pub initial_gas : ℤ
  pub tracing : Bool

abbrev pub new_meter : ℤ → GasMeter
new_meter limit = record { gas = limit; initial_gas = limit; tracing = true }

-- `trace_calls` at an opcode: the meter, and whether it raises `OutOfGasException`.
unfoldable pub trace_opcode : GasMeter → GasMeter × Bool
trace_opcode m =
    if m.tracing
    then if ltb_ℤ (pos 0) (m.gas -ℤ pos 1)
      then (record m { gas = m.gas -ℤ pos 1 }, false)
      else (record m { gas = m.gas -ℤ pos 1; tracing = false }, true)
    else (m, false)

-- The messages that the parent process receives on the pipe, as a tree over its answers.
pub data Child : Type 0 where
  -- "call": address, payload, amount
  call : String → String → ℤ → (CallResult → Child) → Child
  -- "return" with status "success": storage, transfers and gas used
  returned : Json → List (String × ℤ) → ℤ → Child
  -- "return" with status "error": the error and the gas used
  errored : String → ℤ → Child
  -- A message whose handling raises, no message at all, and no message in time.
  broken crashed timed_out : Child

abbrev has_address_length : String → Bool
has_address_length a = let n = length (codes a) in n == 40 || n == 64

-- The guards of `transfer_out`, with the message of the exception that is raised.
unfoldable pub transfer_error : String → ℤ → Option String
transfer_error a n =
    if ltb_ℤ (pos 0) n
    then if has_address_length a
      then elim (int16 a) [ some _ ↦ none | none ↦ some "Invalid address format" ]
      else some "Invalid address format"
    else some "Invalid transfer amount"

-- The exception of `call_contract`, if the parent answers with a failure.
abbrev pub call_error : CallResult → Option String
call_error (success g ts s) = none
call_error (failure e g) = some (String.◌++◌ "Cross-contract call failed: " e)

abbrev pub gas_spent : GasMeter → ℤ
gas_spent m = m.initial_gas -ℤ m.gas

-- `_safe_exec_worker`: the run of a program, metered, as the messages that it sends.
unfoldable pub worker : Program → GasMeter → List (String × ℤ) → Child
worker (opcode rest handler) m ts =
    let (m', raised) = trace_opcode m in
    elim raised [ true ↦ worker handler m' ts | false ↦ worker rest m' ts ]
worker (transfer_out a n rest handler) m ts = elim (transfer_error a n) [
  | none ↦ worker rest m (ts ++ (a, n) ∷ [])
  | some e ↦ worker (handler e) m ts
]
worker (call_contract a d n rest) m ts = call a d n (λ r. worker (rest (call_error r)) m ts)
worker (finish storage) m ts = returned storage ts (gas_spent m)
worker (raise e) m ts = errored e (gas_spent m)
worker out_of_gas m ts = errored "Out of gas!" m.initial_gas
worker garbage m ts = broken
worker crash m ts = crashed
worker hang m ts = timed_out

abbrev is_dunder : String → Bool
is_dunder s = starts_with s "__"

abbrev has_dunder : String → Bool
has_dunder s = elim (find? s "__") [ none ↦ false | some _ ↦ true ]

-- Whether `_validate_code_ast` rejects a node.
unfoldable pub is_rejected : Node → Bool
is_rejected (attribute a) = is_dunder a || str_eq a "format" || str_eq a "format_map"
is_rejected (name x) = is_dunder x
is_rejected import_stmt = true
is_rejected import_from = true
is_rejected (call_name f) =
    str_eq f "type" || str_eq f "getattr" || str_eq f "setattr" || str_eq f "delattr"
is_rejected (str_constant s) = has_dunder s
is_rejected joined_str = true
is_rejected mult_op = true
is_rejected pow_op = true
is_rejected mat_mult_op = true
is_rejected other = false

unfoldable pub none_rejected : List Node → Bool
unfolding is_rejected
none_rejected [] = true
none_rejected (n ∷ ns) = not (is_rejected n) && none_rejected ns

module _ ⦃p : Platform⦄ where
  unfoldable pub validate_code_ast : String → Bool
  unfolding none_rejected
  validate_code_ast code = elim (p.parse_ast code) [ none ↦ false | some ns ↦ none_rejected ns ]
