-- ===== src/Block/Sound.antt =====
-- What `Block.from_dict` guarantees of the blocks that it lets through.
use mini_chain.Base.{
  ℕ, ◌<◌, ◌≤◌, ◌^◌, ◌-◌, ◌≡◌, refl, sym, ◌∙◌, String, true, false, not, Option, none, some, ◌&&◌,
  arith, if_intro, then?-some, Holds, then?-Holds, opt_str_eq, opt_str_eq→eq, truthy, not-false,
}
use mathlib.Core.Option.{some-injective}
use mathlib.Core.Path.{subst}
use mini_chain.Json.{Json, null, bool, num, str, arr, obj, Fields}
use mini_chain.Base.Int.{ℤ, pos, negsuc}
use mini_chain.Base.Text.{int16}
use mini_chain.Platform.{Platform}
use mini_chain.Transaction.Parse.{
  get, text, natural, optional_text, integer_or, from_dict, receipt_from_dict,
}
use mini_chain.Block.{Block, calculate_merkle_root, calculate_receipt_root, compute_hash}
use mini_chain.Block.Parse.{
  read_list, timestamp_of, nonce_of, checked_target, target_of, block_of, contradicts, check_block,
  block_from_dict,
}

abbrev pub InRange : ℕ → Type 0
InRange t = (0 < t) × (t ≤ 2 ^ 256 - 1)

checked_target-InRange : (o : Option ℤ) → Holds InRange (checked_target o)
checked_target-InRange none t e = cc
checked_target-InRange (some (negsuc n)) t e = cc
checked_target-InRange (some (pos n)) t e = ground (arith, e)

target_of-InRange : (j : Option Json) → Holds InRange (target_of j)
unfolding target_of
target_of-InRange none t e = cc
target_of-InRange (some null) t e = cc
target_of-InRange (some (bool b)) t e = cc
target_of-InRange (some (num n)) t e = checked_target-InRange (some n) t e
target_of-InRange (some (str s)) t e = checked_target-InRange (int16 s) t e
target_of-InRange (some (arr js)) t e = cc
target_of-InRange (some (obj fs)) t e = cc

sealed-own :
    (hash root : Option String)
    → truthy hash && not (opt_str_eq hash root) ≡ false
    → truthy hash ≡ true
    → hash ≡ root
sealed-own hash root h t =
    opt_str_eq→eq hash root (not-false _ (subst (λ b. b && not (opt_str_eq hash root) ≡ false) t h))

module _ ⦃p : Platform⦄ where
  -- The constructor's part: the range of the target, the Merkle root, and the state root of the object.
  abbrev pub Built : Fields → Block → Type 0
  Built fs b =
      InRange b.target
      × (b.merkle_root ≡ calculate_merkle_root b.transactions)
      × (optional_text (get "state_root" fs) ≡ some b.state_root)

  block_of-Built : (now : ℕ) (fs : Fields) → Holds (Built fs) (block_of now fs)
  unfolding block_of
  block_of-Built now fs = then?-Holds (read_list (from_dict now) (get "transactions" fs)) (λ txs _.
      then?-Holds (read_list receipt_from_dict (get "receipts" fs)) (λ rs _.
        then?-Holds (target_of (get "target" fs)) (λ t e.
          then?-Holds (timestamp_of now (get "timestamp" fs)) (λ ts _.
            then?-Holds (natural (get "index" fs)) (λ i _.
              then?-Holds (text (get "previous_hash" fs)) (λ ph _.
                then?-Holds (optional_text (get "state_root" fs)) (λ sr named.
                  then?-Holds (optional_text (get "receipt_root" fs)) (λ rr _.
                    then?-Holds (optional_text (get "miner" fs)) (λ m _.
                      then?-Holds (nonce_of (integer_or (get "nonce" fs))) (λ n _.
                        then?-Holds (optional_text (get "hash" fs)) (λ h _ b q.
                          subst (Built fs) (some-injective _ _ q)
                            (target_of-InRange _ t e, refl, named))))))))))))

  contradicts-false :
      (j : Option Json) (root : Option String) (s : String)
      → contradicts j root ≡ false
      → j ≡ some (str s)
      → root ≡ some s
  unfolding contradicts
  contradicts-false none root s h e = cc
  contradicts-false (some null) root s h e = cc
  contradicts-false (some (bool b)) root s h e = cc
  contradicts-false (some (num n)) root s h e = cc
  contradicts-false (some (str t)) root s h e =
      sym (opt_str_eq→eq (some t) root (not-false _ h)) ∙ cc
  contradicts-false (some (arr js)) root s h e = cc
  contradicts-false (some (obj fs)) root s h e = cc

  abbrev pub Checked : Fields → Block → Type 0
  Checked fs b =
      (truthy b.hash ≡ true → b.hash ≡ some (compute_hash b))
      × ((s : String) → get "merkle_root" fs ≡ some (str s) → b.merkle_root ≡ some s)
      × ((s : String)
          → get "receipt_root" fs ≡ some (str s)
          → calculate_receipt_root b.receipts ≡ some s)

  check_block-Checked :
      (fs : Fields) (b : Block) → Holds (λ b'. (b ≡ b') × Checked fs b) (check_block fs b)
  unfolding check_block
  check_block-Checked fs b =
      if_intro (Holds (λ b'. (b ≡ b') × Checked fs b)) _ (λ _ b' e. cc)
        (λ sealed.
          if_intro (Holds (λ b'. (b ≡ b') × Checked fs b)) _ (λ _ b' e. cc)
            (λ merkle.
              if_intro (Holds (λ b'. (b ≡ b') × Checked fs b)) _ (λ _ b' e. cc)
                (λ receipts b' e. (
                  some-injective _ _ e,
                  (
                    sealed-own b.hash _ sealed,
                    λ s. contradicts-false _ _ s merkle,
                    λ s. contradicts-false _ _ s receipts,
                  ),
                ))))

  -- A block that `Block.from_dict` returns has a target from 1 to 2^256 - 1 and the Merkle root of its
  -- transactions, and its state root is the object's, if that has one. A hash that is not empty is the
  -- one of its header, and a text that the object names as its `merkle_root` or `receipt_root` is the
  -- root of the block's transactions or receipts.
  pub block_from_dict-IsChecked :
      (now : ℕ) (fs : Fields) (b : Block)
      → block_from_dict now (obj fs) ≡ some b
      → Built fs b × Checked fs b
  unfolding block_from_dict
  block_from_dict-IsChecked now fs b e =
      let parsed = then?-some (block_of now fs) (check_block fs) b e in
      let passed = check_block-Checked fs parsed.0 b parsed.2 in
      subst (λ b. Built fs b × Checked fs b) passed.0
        (block_of-Built now fs parsed.0 parsed.1, passed.1)
