-- ===== src/Transaction.antt =====
-- minichain/transaction.py, receipt.py and validators.py: transactions, their JSON forms, their
-- identity and signature, the receipt of an executed transaction, and the validation statuses.
-- Amounts and gas fields are Python integers; other types of value are not modelled.
pub mod Parse
pub mod Sign
pub mod Roundtrip
mod Tests
use mini_chain.Base.{ℕ, String, Bool, true, false, Option, none, some, truthy}
use mini_chain.Base.Int.{ℤ, pos}
use mini_chain.Json.{Json, num, str, obj, arr, Items, Fields, end, field, opt_str}
use mini_chain.Platform.{Platform}

pub record Transaction : Type 0 where
  pub sender : String
  pub receiver : Option String
  pub amount : ℤ
  pub gas_limit : ℤ
  pub fee_per_gas : ℤ
  pub nonce : ℕ
  pub payload : Option String
  pub timestamp : ℕ
  pub chain_id : String
  pub signature : Option String

-- The fields of `to_signing_dict`, in front of `rest`.
abbrev pub signing_fields : Transaction → Fields → Fields
signing_fields tx rest = field "sender" (str tx.sender) (
    field "receiver" (opt_str tx.receiver) (
      field "amount" (num tx.amount) (
        field "gas_limit" (num tx.gas_limit) (
          field "fee_per_gas" (num tx.fee_per_gas) (
            field "nonce" (num (pos tx.nonce)) (
              field "data" (opt_str tx.payload) (
                field "chain_id" (str tx.chain_id)
                  (field "timestamp" (num (pos tx.timestamp)) rest))))))))

unfoldable pub to_signing_dict : Transaction → Json
to_signing_dict tx = obj (signing_fields tx end)

unfoldable pub to_dict : Transaction → Json
to_dict tx = obj (signing_fields tx (field "signature" (opt_str tx.signature) end))

module _ ⦃p : Platform⦄ where
  unfoldable pub tx_id : Transaction → String
  tx_id tx = p.canonical_json_hash (to_dict tx)

  verify_with : Option String → Transaction → Bool
  verify_with none tx = false
  verify_with (some s) tx = p.verify_signature tx.sender (to_signing_dict tx) s

  -- `if not self.signature: return False`, then the check of the signature
  unfoldable pub verify : Transaction → Bool
  unfolding verify_with
  verify tx = elim (truthy tx.signature) [ true ↦ verify_with tx.signature tx | false ↦ false ]

pub data ValidationStatus : Type 0 where
  valid invalid failed malformed : ValidationStatus

pub record Receipt : Type 0 where
  pub tx_hash : String
  pub status : ℕ
  pub gas_used : ℤ
  pub error_message : String
  pub logs : Items
  pub contract_address : String

unfoldable pub receipt_to_dict : Receipt → Json
receipt_to_dict r = obj (
    field "tx_hash" (str r.tx_hash) (
      field "status" (num (pos r.status)) (
        field "gas_used" (num r.gas_used) (
          field "error_message" (str r.error_message)
            (field "logs" (arr r.logs) (field "contract_address" (str r.contract_address) end))))))
