-- ===== src/Platform.antt =====
-- What the program takes from code outside the repository: hashlib, PyNaCl, the `trie` package,
-- `json.dumps`, `ast.parse` and the interpreter that `exec` runs a contract in. A `Platform` is an
-- instance argument of every definition that uses one of these.
use mini_chain.Base.{ℕ, String, Bool, Option, List}
use mini_chain.Base.Int.{ℤ}
use mini_chain.Json.{Json}

-- What `ContractMachine.execute` and `State.execute_internal_call` return.
pub data CallResult : Type 0 where
  -- success, `gas_used`, `transfers` (address and amount), `storage`
  success : ℤ → List (String × ℤ) → Json → CallResult
  -- failure, `error` and `gas_used`
  failure : String → ℤ → CallResult

-- The run of a contract's code, as far as the sandbox can see it.
pub data Program : Type 0 where
  -- One opcode, and the rest. The second part is what goes on if the trace function raises there:
  -- the handler of a `try` of the contract, or `out_of_gas`.
  opcode : Program → Program → Program
  -- `transfer_out(address, amount)`: the rest, and what goes on with the error it raises.
  transfer_out : String → ℤ → Program → (String → Program) → Program
  -- `call_contract(address, payload, amount)`: the rest by its outcome; `none` is a return, and
  -- `some` the message of the exception it raises.
  call_contract : String → String → ℤ → (Option String → Program) → Program
  -- The code ends, with this value of `storage`.
  finish : Json → Program
  -- An exception leaves the code.
  raise : String → Program
  -- `OutOfGasException` leaves the code.
  out_of_gas : Program
  -- A message that the parent cannot handle, such as an amount that is no number.
  garbage : Program
  -- The process dies without a message, or runs for more than five seconds.
  crash hang : Program

-- A node of `ast.walk`, by what `_validate_code_ast` looks at.
pub data Node : Type 0 where
  attribute name : String → Node
  import_stmt import_from : Node
  -- A call of a plain name, with the name.
  call_name : String → Node
  str_constant : String → Node
  joined_str : Node
  mult_op pow_op mat_mult_op : Node
  other : Node

pub record Platform : Type 0 where
  -- `canonical_json_hash` of serialization.py: SHA-256 of the canonical JSON text, in hex
  pub canonical_json_hash : Json → String
  -- `hashlib.sha256(text.encode()).hexdigest()`, and `nacl.hash.sha256` with the hex encoder
  pub sha256_hex : String → String
  -- `VerifyKey(sender).verify(payload, signature)`: false where one of these raises
  pub verify_signature : String → Json → String → Bool
  -- the root hash of a `HexaryTrie` after `put` of these keys (bytes) and values in order
  pub trie_root : List (List ℕ × String) → String
  -- `json.dumps(value, sort_keys=True)`
  pub json_dumps : Json → String
  -- `len(json.dumps(storage).encode("utf-8"))`, `none` where `json.dumps` raises
  pub storage_bytes : Json → Option ℕ
  -- `ast.walk(ast.parse(code))`, `none` where the code does not parse
  pub parse_ast : String → Option (List Node)
  -- `exec(code, …)` with `storage`, and `msg` of sender, value and data
  pub exec : String → Json → String → ℤ → String → Program
