-- ===== src/Demo.antt =====
-- A small platform for the tests: a checksum for a hash, the sender's name for a signature, and a
-- few contracts known by their code.
pub mod Nodes
use mini_chain.Base.{ℕ, ◌+◌, ◌*◌, ◌%◌, String, some, List, [], ◌∷◌, length, if◌then◌else◌, str_eq}
use mini_chain.Base.Int.{pos, negsuc}
use mini_chain.Base.Text.{codes, decimal}
use mini_chain.Json.{Json, null, bool, num, str, arr, obj, Items, nil, cons, Fields, end, field}
use mini_chain.Platform.{
  Platform, Program, opcode, transfer_out, call_contract, finish, raise, out_of_gas, other,
}

unfoldable pub checksum : List ℕ → ℕ
checksum [] = 7
checksum (c ∷ cs) = (checksum cs * 31 + c) % 65521

mutual
  unfolding checksum

  weight : Json → ℕ
  weight null = 1
  weight (bool b) = if b then 2 else 3
  weight (num (pos n)) = (n * 17 + 4) % 65521
  weight (num (negsuc n)) = (n * 19 + 5) % 65521
  weight (str s) = checksum (codes s)
  weight (arr xs) = weight_items xs + 6
  weight (obj fs) = weight_fields fs + 8

  weight_items : Items → ℕ
  weight_items nil = 9
  weight_items (cons x xs) = (weight x * 37 + weight_items xs) % 65521

  weight_fields : Fields → ℕ
  weight_fields end = 10
  weight_fields (field k v fs) = (checksum (codes k) + weight v * 41 + weight_fields fs * 3) % 65521

-- The contracts: "keep" stores nothing, "loop" never ends, "spend" passes its money on to c1 and then
-- fails, "steal" calls c1 with a negative amount, "try" calls c2 with its money and takes no notice
-- of how that ends, and "pay" pays 5 to an address.
unfoldable pub behaviour : String → Program
behaviour code =
    if str_eq code "keep"
    then opcode (finish (obj end)) out_of_gas
    else if str_eq code "spend"
    then call_contract "c1" "go" (pos 100) (λ _. raise "failed")
    else if str_eq code "steal"
    then call_contract "c1" "go" (negsuc 39) (λ _. finish (obj end))
    else if str_eq code "try"
    then call_contract "c2" "go" (pos 100) (λ _. finish (obj end))
    else if str_eq code "pay"
    then transfer_out "0123456789012345678901234567890123456789" (pos 5) (finish (obj end)) raise
    else opcode (raise "unknown code") out_of_gas

unfoldable pub demo_hash : Json → String
unfolding weight
demo_hash j = decimal (weight j)

instance abbrev pub demo : Platform
demo = record {
  canonical_json_hash = demo_hash;
  sha256_hex = λ s. decimal (checksum (codes s));
  verify_signature = λ s j sig. str_eq s sig;
  trie_root = λ es. decimal (length es);
  json_dumps = λ j. "{}";
  storage_bytes = λ j. some 2;
  parse_ast = λ code. some (other ∷ []);
  exec = λ code storage sender value payload. behaviour code;
}
