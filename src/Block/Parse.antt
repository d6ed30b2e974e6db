-- ===== src/Block/Parse.antt =====
-- `Block.from_dict`, `to_body_dict`, `to_dict` and `canonical_payload` of minichain/block.py. A result is
-- `none` where Python raises. As in the transactions, a value of another type than the field has counts
-- as missing, and so does a negative index, timestamp or nonce. `now` is the clock in milliseconds.
use mini_chain.Base.{
  ℕ, ◌^◌, ◌-◌, String, Bool, true, false, not, Option, none, some, List, [], ◌∷◌, map, ◌&&◌, ◌==◌,
  leb, ltb, opt_str_eq, truthy, if◌then◌else◌, ◌then?◌,
}
use mini_chain.Base.Int.{ℤ, pos}
use mini_chain.Base.Text.{int16}
use mini_chain.Json.{
  Json, null, num, str, arr, obj, Items, nil, cons, Fields, end, field, opt_str, items,
}
use mini_chain.Platform.{Platform}
use mini_chain.Transaction.{to_dict, Receipt, receipt_to_dict}
use mini_chain.Transaction.Parse.{
  get, text, natural, optional_text, integer_or, from_dict, receipt_from_dict,
}
use mini_chain.Block.{
  Block, calculate_merkle_root, calculate_receipt_root, header_fields, compute_hash,
}

-- A list of which each item is read, `none` if one of them raises.
unfoldable pub read_all {ℓ} : {A : Type ℓ} → (Json → Option A) → Items → Option (List A)
read_all read nil = some []
read_all read (cons j js) =
    let rest = read_all read js in read j then? (λ a. rest then? (λ more. some (a ∷ more)))

-- `[read(x) for x in payload.get(key, [])]`
unfoldable pub read_list {ℓ} : {A : Type ℓ} → (Json → Option A) → Option Json → Option (List A)
unfolding read_all
read_list read none = some []
read_list read (some (arr js)) = read_all read js
read_list read (some _) = none

-- A target from 1 to `MAX_TARGET`.
abbrev pub checked_target : Option ℤ → Option ℕ
checked_target (some (pos t)) = if ltb 0 t && leb t (2 ^ 256 - 1) then some t else none
checked_target _ = none

unfoldable pub target_of : Option Json → Option ℕ
target_of (some (str s)) = checked_target (int16 s)
target_of (some (num n)) = checked_target (some n)
target_of _ = none

-- `int(raw_ts) if raw_ts is not None else 0`, and the constructor's clock for 0.
abbrev pub timestamp_of : ℕ → Option Json → Option ℕ
timestamp_of now none = some now
timestamp_of now (some null) = some now
timestamp_of now (some (num (pos t))) = some (if t == 0 then now else t)
timestamp_of now (some _) = none

abbrev pub nonce_of : Option ℤ → Option ℕ
nonce_of (some (pos n)) = some n
nonce_of _ = none

module _ ⦃p : Platform⦄ where
  -- The receipt root that the constructor sets.
  abbrev pub root_or_computed : Option String → List Receipt → Option String
  root_or_computed none (r ∷ rs) = calculate_receipt_root (r ∷ rs)
  root_or_computed root rs = root

  -- The block that `from_dict` builds, before its checks.
  unfoldable pub block_of : ℕ → Fields → Option Block
  block_of now fs = read_list (from_dict now) (get "transactions" fs) then? (λ transactions.
      read_list receipt_from_dict (get "receipts" fs) then? (λ receipts.
        target_of (get "target" fs) then? (λ target.
          timestamp_of now (get "timestamp" fs) then? (λ timestamp.
            natural (get "index" fs) then? (λ index.
              text (get "previous_hash" fs) then? (λ previous_hash.
                optional_text (get "state_root" fs) then? (λ state_root.
                  optional_text (get "receipt_root" fs) then? (λ receipt_root.
                    optional_text (get "miner" fs) then? (λ miner.
                      nonce_of (integer_or (get "nonce" fs)) then? (λ nonce.
                        optional_text (get "hash" fs) then? (λ hash. some (record {
                          index = index;
                          previous_hash = previous_hash;
                          target = target;
                          transactions = transactions;
                          receipts = receipts;
                          timestamp = timestamp;
                          nonce = nonce;
                          hash = hash;
                          state_root = state_root;
                          receipt_root = root_or_computed receipt_root receipts;
                          merkle_root = calculate_merkle_root transactions;
                          miner = miner;
                        }))))))))))))

  -- `key in payload and payload[key] != root`
  unfoldable pub contradicts : Option Json → Option String → Bool
  contradicts none root = false
  contradicts (some null) root = not (opt_str_eq none root)
  contradicts (some (str s)) root = not (opt_str_eq (some s) root)
  contradicts (some _) root = true

  unfoldable pub check_block : Fields → Block → Option Block
  check_block fs b =
      if truthy b.hash && not (opt_str_eq b.hash (some (compute_hash b)))
      then none
      else if contradicts (get "merkle_root" fs) b.merkle_root
      then none
      else if contradicts (get "receipt_root" fs) (calculate_receipt_root b.receipts)
      then none
      else some b

  -- `Block.from_dict`
  unfoldable pub block_from_dict : ℕ → Json → Option Block
  block_from_dict now (obj fs) = block_of now fs then? check_block fs
  block_from_dict now _ = none

  abbrev pub body_fields : Block → Fields → Fields
  body_fields b rest =
      field "transactions" (arr (items (map to_dict b.transactions)))
        (field "receipts" (arr (items (map receipt_to_dict b.receipts))) rest)

  -- `to_body_dict`
  unfoldable pub to_body_dict : Block → Json
  to_body_dict b = obj (body_fields b end)

  abbrev pub with_miner : Option String → Fields → Fields
  with_miner none rest = rest
  with_miner (some m) rest = field "miner" (str m) rest

  -- `Block.to_dict`
  unfoldable pub block_to_dict : Block → Json
  block_to_dict b =
      obj (header_fields b (with_miner b.miner (body_fields b (field "hash" (opt_str b.hash) end))))

  -- The object whose canonical bytes `canonical_payload` returns.
  unfoldable pub canonical_payload : Block → Option Json
  canonical_payload b =
      if not (truthy b.hash)
      then none
      else if opt_str_eq b.hash (some (compute_hash b))
      then some (block_to_dict b)
      else none
