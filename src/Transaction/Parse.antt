-- ===== src/Transaction/Parse.antt =====
-- `Transaction.from_dict` of minichain/transaction.py and `Receipt.from_dict` of receipt.py, on a JSON
-- object. The result is `none` where a key is missing that must be there; a value of another type than
-- the field has, which Python would keep, is not modelled and counts as missing too. `now` is the
-- clock in milliseconds.
use mini_chain.Base.{ℕ, ◌*◌, ◌^◌, String, Option, none, some, ltb, str_eq, if◌then◌else◌, ◌then?◌}
use mini_chain.Base.Int.{ℤ, pos}
use mini_chain.Json.{
  Json, null, bool, num, str, arr, obj, Items, nil, cons, Fields, end, field, is_truthy,
}
use mini_chain.Transaction.{Transaction, Receipt}

-- `payload.get(key)`
unfoldable pub get : String → Fields → Option Json
get k end = none
get k (field j v fs) = let rest = get k fs in if str_eq j k then some v else rest

abbrev pub text : Option Json → Option String
text (some (str s)) = some s
text _ = none

abbrev pub integer : Option Json → Option ℤ
integer (some (num n)) = some n
integer _ = none

abbrev pub natural : Option Json → Option ℕ
natural (some (num (pos n))) = some n
natural _ = none

-- A field that may be missing or `None`.
abbrev pub optional_text : Option Json → Option (Option String)
optional_text none = some none
optional_text (some null) = some none
optional_text (some (str s)) = some (some s)
optional_text (some _) = none

-- `payload.get(key, 0)`
abbrev pub integer_or_zero : Option Json → Option ℤ
integer_or_zero none = some (pos 0)
integer_or_zero o = integer o

-- `payload.get("chain_id", "minichain-default")`
abbrev pub chain_or_default : Option Json → Option String
chain_or_default none = some "minichain-default"
chain_or_default o = text o

-- `_normalize_ts`, of an integer.
unfoldable pub normalize_ts : ℕ → ℕ
normalize_ts ts = if ltb ts (10 ^ 12) then ts * 1000 else ts

-- The timestamp that the constructor takes.
abbrev pub timestamp_or_now : ℕ → Option Json → Option ℕ
timestamp_or_now now none = some now
timestamp_or_now now (some null) = some now
timestamp_or_now now (some (num (pos ts))) = some (normalize_ts ts)
timestamp_or_now now (some _) = none

unfoldable pub transaction_of : ℕ → Fields → Option Transaction
transaction_of now fs = text (get "sender" fs) then? (λ sender.
    optional_text (get "receiver" fs) then? (λ receiver. integer (get "amount" fs) then? (λ amount.
      natural (get "nonce" fs) then? (λ nonce.
        integer_or_zero (get "gas_limit" fs) then? (λ gas_limit.
          integer_or_zero (get "fee_per_gas" fs) then? (λ fee_per_gas.
            optional_text (get "data" fs) then? (λ payload.
              chain_or_default (get "chain_id" fs) then? (λ chain_id.
                optional_text (get "signature" fs) then? (λ signature.
                  timestamp_or_now now (get "timestamp" fs) then? (λ timestamp. some (record {
                    sender = sender;
                    receiver = receiver;
                    amount = amount;
                    gas_limit = gas_limit;
                    fee_per_gas = fee_per_gas;
                    nonce = nonce;
                    payload = payload;
                    timestamp = timestamp;
                    chain_id = chain_id;
                    signature = signature;
                  })))))))))))

-- `Transaction.from_dict`
unfoldable pub from_dict : ℕ → Json → Option Transaction
from_dict now (obj fs) = transaction_of now fs
from_dict now _ = none

-- `payload.get(key) or 0`, and `or ""`
abbrev pub integer_or : Option Json → Option ℤ
integer_or none = some (pos 0)
integer_or (some null) = some (pos 0)
integer_or o = integer o

abbrev pub text_or : Option Json → Option String
text_or none = some ""
text_or (some null) = some ""
text_or o = text o

-- `list(payload.get("logs") or [])`: a text is the list of its characters, an object that of its keys.
unfoldable pub letters : String → Items
letters String.[] = nil
letters (String.◌∷◌ c s) = cons (str (String.◌∷◌ c String.[])) (letters s)

unfoldable pub keys : Fields → Items
keys end = nil
keys (field k v fs) = cons (str k) (keys fs)

unfoldable pub logs_of : Option Json → Option Items
logs_of none = some nil
logs_of (some null) = some nil
logs_of (some (bool b)) = if b then none else some nil
logs_of (some (num n)) = if is_truthy (num n) then none else some nil
logs_of (some (str s)) = some (letters s)
logs_of (some (arr js)) = some js
logs_of (some (obj fs)) = some (keys fs)

unfoldable pub receipt_of : Fields → Option Receipt
receipt_of fs = text (get "tx_hash" fs) then? (λ tx_hash. natural (get "status" fs) then? (λ status.
    integer_or (get "gas_used" fs) then? (λ gas_used.
      text_or (get "error_message" fs) then? (λ error_message.
        logs_of (get "logs" fs) then? (λ logs.
          text_or (get "contract_address" fs) then? (λ contract_address. some (record {
            tx_hash = tx_hash;
            status = status;
            gas_used = gas_used;
            error_message = error_message;
            logs = logs;
            contract_address = contract_address;
          })))))))

-- `Receipt.from_dict`
unfoldable pub receipt_from_dict : Json → Option Receipt
receipt_from_dict (obj fs) = receipt_of fs
receipt_from_dict _ = none
