-- ===== src/Block.antt =====
-- minichain/block.py and the hash of pow.py: blocks, their headers and JSON forms, and the Merkle
-- roots of transactions and receipts.
pub mod Merkle
pub mod Parse
pub mod Sound
pub mod Roundtrip
mod Tests
use mini_chain.Base.{
  ℕ, zero, suc, String, Bool, true, false, Option, none, some, List, [], ◌∷◌, map, length,
  opt_str_eq, truthy, if◌then◌else◌,
}
use mini_chain.Base.Int.{pos}
use mini_chain.Base.Text.{hex}
use mini_chain.Json.{Json, num, str, arr, obj, Fields, end, field, opt_str, items}
use mini_chain.Platform.{Platform}
use mini_chain.Transaction.{Transaction, to_dict, tx_id, Receipt, receipt_to_dict}
use Prim.Native.String

pub record Block : Type 0 where
  pub index : ℕ
  pub previous_hash : String
  pub target : ℕ
  pub transactions : List Transaction
  pub receipts : List Receipt
  pub timestamp : ℕ
  pub nonce : ℕ
  pub hash : Option String
  pub state_root : Option String
  pub receipt_root : Option String
  pub merkle_root : Option String
  pub miner : Option String

module _ ⦃p : Platform⦄ where
  -- One round of the loop of `_calculate_merkle_tree`: an odd last hash is paired with itself.
  unfoldable pub new_level : List String → List String
  new_level [] = []
  new_level (a ∷ []) = p.sha256_hex (String.◌++◌ a a) ∷ []
  new_level (a ∷ b ∷ hs) = p.sha256_hex (String.◌++◌ a b) ∷ new_level hs

  -- `_calculate_merkle_tree`, on fuel; `none` for no hashes, or if the fuel ran out.
  unfoldable pub merkle_loop : ℕ → List String → Option String
  unfolding new_level
  merkle_loop fuel [] = none
  merkle_loop fuel (h ∷ []) = some h
  merkle_loop zero (a ∷ b ∷ hs) = none
  merkle_loop (suc fuel) (a ∷ b ∷ hs) = merkle_loop fuel (new_level (a ∷ b ∷ hs))

  unfoldable pub calculate_merkle_tree : List String → Option String
  unfolding merkle_loop
  calculate_merkle_tree hs = merkle_loop (length hs) hs

  unfoldable pub calculate_merkle_root : List Transaction → Option String
  unfolding calculate_merkle_tree
  calculate_merkle_root txs = calculate_merkle_tree (map tx_id txs)

  unfoldable pub calculate_receipt_root : List Receipt → Option String
  unfolding calculate_merkle_tree
  calculate_receipt_root rs =
      calculate_merkle_tree (map (λ r. p.canonical_json_hash (receipt_to_dict r)) rs)

  abbrev miner_field : Option String → Fields
  miner_field none = end
  miner_field (some m) = field "miner" (str m) end

  unfoldable pub header_fields : Block → Fields → Fields
  header_fields b rest = field "index" (num (pos b.index)) (
      field "previous_hash" (str b.previous_hash) (
        field "merkle_root" (opt_str b.merkle_root) (
          field "state_root" (opt_str b.state_root) (
            field "receipt_root" (opt_str b.receipt_root) (
              field "timestamp" (num (pos b.timestamp))
                (field "target" (str (hex b.target)) (field "nonce" (num (pos b.nonce)) rest)))))))

  unfoldable pub to_header_dict : Block → Json
  unfolding header_fields
  to_header_dict b = obj (header_fields b (miner_field b.miner))

  -- `calculate_hash(block.to_header_dict())`, `compute_hash`
  unfoldable pub compute_hash : Block → String
  compute_hash b = p.canonical_json_hash (to_header_dict b)
