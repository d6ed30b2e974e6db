-- ===== src/Block/Roundtrip.antt =====
-- `Block.from_dict` reads back what `to_dict` has written.
use mini_chain.Base.{
  ℕ, ◌^◌, ◌-◌, ◌≤◌, ◌<◌, ◌≡◌, ◌≢◌, refl, sym, ◌∙◌, ap, String, false, not, Option, none, some, List,
  [], ◌∷◌, map, All, ◌&&◌, ◌==◌, ltb, str_dec, str_eq_refl, opt_str_eq, truthy, if◌then◌else◌,
  if_intro, arith,
}
use mathlib.Core.Option.{some-injective}
use mini_chain.Base.Text.{hex}
use mini_chain.Base.Text.Numerals.{int16-hex}
use mini_chain.Json.{Fields, end, field, opt_str, items, str, obj}
use mini_chain.Platform.{Platform}
use mini_chain.Transaction.{Transaction, to_dict, Receipt, receipt_to_dict}
use mini_chain.Transaction.Parse.{get, from_dict, receipt_from_dict}
use mini_chain.Transaction.Roundtrip.{
  optional_text-opt_str, from_dict-to_dict, receipt_from_dict-receipt_to_dict,
}
use mini_chain.Block.{
  Block, calculate_merkle_root, calculate_receipt_root, header_fields, compute_hash,
}
use mini_chain.Block.Parse.{
  read_all, read_list, target_of, root_or_computed, block_of, contradicts, check_block,
  block_from_dict, body_fields, with_miner, block_to_dict,
}

-- A millisecond timestamp, which `_normalize_ts` leaves as it is.
abbrev pub InMilliseconds : Transaction → Type 0
InMilliseconds tx = 10 ^ 12 ≤ tx.timestamp

read_transactions :
    (now : ℕ) (txs : List Transaction)
    → All InMilliseconds txs
    → read_all (from_dict now) (items (map to_dict txs)) ≡ some txs
unfolding read_all
read_transactions now [] h = refl
read_transactions now (tx ∷ txs) (late, rest) =
    let same : from_dict now (to_dict tx) ≡ some tx =
      from_dict-to_dict now tx
      ∙ if_intro (λ t. some (record tx { timestamp = t }) ≡ some tx) (ltb tx.timestamp (10 ^ 12))
          (λ lt. absurd (ground arith)) (λ _. refl) in
    rw same (rw (read_transactions now txs rest) refl)

read_receipts :
    (rs : List Receipt) → read_all receipt_from_dict (items (map receipt_to_dict rs)) ≡ some rs
unfolding read_all
read_receipts [] = refl
read_receipts (r ∷ rs) = rw (receipt_from_dict-receipt_to_dict r) (rw (read_receipts rs) refl)

target_of-hex : (t : ℕ) → 0 < t → t ≤ 2 ^ 256 - 1 → target_of (some (str (hex t))) ≡ some t
unfolding target_of
target_of-hex t low high = rw (int16-hex t) (ground arith)

own_hash-passes :
    (o : Option String) (h : String)
    → o ≡ some h
    → (truthy o && not (opt_str_eq o (some h))) ≡ false
own_hash-passes none h e = cc
own_hash-passes (some s) h e = ground (arith, some-injective s h e)

module _ ⦃p : Platform⦄ where
  contradicts-opt_str : (o : Option String) → contradicts (some (opt_str o)) o ≡ false
  unfolding contradicts
  contradicts-opt_str none = refl
  contradicts-opt_str (some s) = rw (str_eq_refl s) refl

  root_or_computed-own :
      (root : Option String) (rs : List Receipt)
      → root ≡ calculate_receipt_root rs
      → root_or_computed root rs ≡ root
  root_or_computed-own none [] e = refl
  root_or_computed-own none (r ∷ rs) e = sym e
  root_or_computed-own (some root) rs e = refl

  -- What a block that is sent fulfils: roots, hash, target and timestamps as the code makes them.
  pub record IsSendable (b : Block) : Type 0 where
    pub target_positive : 0 < b.target
    pub target_bounded : b.target ≤ 2 ^ 256 - 1
    pub dated : b.timestamp ≢ 0
    pub transactions_dated : All InMilliseconds b.transactions
    pub merkle_root : b.merkle_root ≡ calculate_merkle_root b.transactions
    pub receipt_root : b.receipt_root ≡ calculate_receipt_root b.receipts
    pub sealed : b.hash ≡ some (compute_hash b)

  timestamp_or_clock : (now t : ℕ) → t ≢ 0 → (if t == 0 then now else t) ≡ t
  timestamp_or_clock now t ne =
      if_intro (λ x. x ≡ t) (t == 0) (λ z. absurd (ne (ground arith))) (λ _. refl)

  -- The block as `block_of` builds it.
  rebuilt :
      (now : ℕ) (b : Block) (o : Option String)
      → IsSendable b
      → o ≡ b.miner
      → record b {
        timestamp = if b.timestamp == 0 then now else b.timestamp;
        receipt_root = root_or_computed b.receipt_root b.receipts;
        merkle_root = calculate_merkle_root b.transactions;
        miner = o;
      }
        ≡ b
  rebuilt now b o ok e = rw (timestamp_or_clock now b.timestamp ok.dated) (
      rw (root_or_computed-own b.receipt_root b.receipts ok.receipt_root)
        (rw (← ok.merkle_root) (rw e refl)))

  -- The fields of `to_dict`, for a miner.
  abbrev fields_with : Block → Option String → Fields
  fields_with b m =
      header_fields b (with_miner m (body_fields b (field "hash" (opt_str b.hash) end)))

  block_of-some :
      (now : ℕ) (b : Block) (m : String)
      → IsSendable b
      → b.miner ≡ some m
      → block_of now (fields_with b (some m)) ≡ some b
  unfolding block_of header_fields get str_dec read_list
  block_of-some now b m ok e = rw (read_transactions now b.transactions ok.transactions_dated) (
      rw (read_receipts b.receipts) (
        rw (target_of-hex b.target ok.target_positive ok.target_bounded) (
          rw (optional_text-opt_str b.state_root) (
            rw (optional_text-opt_str b.receipt_root)
              (rw (optional_text-opt_str b.hash) (ap some (rebuilt now b (some m) ok (sym e))))))))

  block_of-none :
      (now : ℕ) (b : Block)
      → IsSendable b
      → b.miner ≡ none
      → block_of now (fields_with b none) ≡ some b
  unfolding block_of header_fields get str_dec read_list
  block_of-none now b ok e = rw (read_transactions now b.transactions ok.transactions_dated) (
      rw (read_receipts b.receipts) (
        rw (target_of-hex b.target ok.target_positive ok.target_bounded) (
          rw (optional_text-opt_str b.state_root) (
            rw (optional_text-opt_str b.receipt_root)
              (rw (optional_text-opt_str b.hash) (ap some (rebuilt now b none ok (sym e))))))))

  check_block-some :
      (b : Block) (m : Option String) → IsSendable b → check_block (fields_with b m) b ≡ some b
  unfolding check_block header_fields get str_dec
  check_block-some b m ok = rw (own_hash-passes b.hash (compute_hash b) ok.sealed) (
      rw (contradicts-opt_str b.merkle_root)
        (rw (← ok.receipt_root) (rw (contradicts-opt_str b.receipt_root) refl)))

  of_fields :
      (now : ℕ) (b : Block) (fs : Fields)
      → block_of now fs ≡ some b
      → check_block fs b ≡ some b
      → block_from_dict now (obj fs) ≡ some b
  unfolding block_from_dict
  of_fields now b fs built checked = rw built checked

  by_miner :
      (now : ℕ) (b : Block) (m : Option String)
      → IsSendable b
      → b.miner ≡ m
      → block_from_dict now (obj (fields_with b m)) ≡ some b
  by_miner now b none ok e =
      of_fields now b (fields_with b none) (block_of-none now b ok e) (check_block-some b none ok)
  by_miner now b (some m) ok e =
      of_fields now b (fields_with b (some m)) (block_of-some now b m ok e)
        (check_block-some b (some m) ok)

  -- What `from_dict` makes of what `to_dict` has written is the block, and it does not raise: for a block
  -- with a target in range, timestamps of its transactions in milliseconds and its own not 0, and the
  -- roots and hash that the code computes.
  pub block_from_dict-block_to_dict :
      (now : ℕ) (b : Block) → IsSendable b → block_from_dict now (block_to_dict b) ≡ some b
  unfolding block_to_dict
  block_from_dict-block_to_dict now b ok = by_miner now b b.miner ok refl
