-- ===== src/Transaction/Roundtrip.antt =====
-- `from_dict` reads back what `to_dict` has written.
use mini_chain.Base.{
  ℕ, ◌*◌, ◌^◌, String, ◌≡◌, refl, Option, none, some, str_dec, ltb, if◌then◌else◌,
}
use mini_chain.Json.{opt_str}
use mini_chain.Transaction.{Transaction, to_dict, Receipt, receipt_to_dict}
use mini_chain.Transaction.Parse.{
  get, normalize_ts, transaction_of, from_dict, optional_text, receipt_of, logs_of,
  receipt_from_dict,
}

pub optional_text-opt_str : (o : Option String) → optional_text (some (opt_str o)) ≡ some o
optional_text-opt_str none = refl
optional_text-opt_str (some s) = refl

-- A receipt is read back as it was.
pub receipt_from_dict-receipt_to_dict :
    (r : Receipt) → receipt_from_dict (receipt_to_dict r) ≡ some r
unfolding receipt_from_dict receipt_to_dict receipt_of logs_of get str_dec
receipt_from_dict-receipt_to_dict r = refl

-- What `from_dict` reads back is the transaction that `to_dict` has written, but for a timestamp below
-- 10^12, which it takes for seconds and multiplies by 1000 once more.
pub from_dict-to_dict :
    (now : ℕ) (tx : Transaction)
    → from_dict now (to_dict tx)
      ≡ some (record tx {
        timestamp = if ltb tx.timestamp (10 ^ 12) then tx.timestamp * 1000 else tx.timestamp;
      })
unfolding from_dict to_dict transaction_of get str_dec normalize_ts
from_dict-to_dict now tx =
    rw (optional_text-opt_str tx.receiver)
      (rw (optional_text-opt_str tx.payload) (rw (optional_text-opt_str tx.signature) refl))
