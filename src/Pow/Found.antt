-- ===== src/Pow/Found.antt =====
-- What `mine_block` finds passes the chain's check of the proof of work.
use mathlib.Core.Path.{subst}
use mathlib.Core.Option.{some-injective}
use native.Mathlib.Decide.{ℕ_discrete}
use mini_chain.Base.{
  ℕ, zero, suc, ◌+◌, ◌≤◌, ◌<◌, String, ◌≡◌, refl, sym, ◌∙◌, ap, false, Option, none, some, arith,
  ◌==◌, if_intro,
}
use mini_chain.Base.Int.{ℤ, pos, ltb_ℤ, ltb_ℤ→lt, ltb_ℤ→ge, ◌<ℤ◌}
use mini_chain.Base.Text.{int16}
use mini_chain.Platform.{Platform}
use mini_chain.Block.{Block, compute_hash, to_header_dict, header_fields}
use mini_chain.Chain.Links.{HasWork}
use mini_chain.Pow.{
  Mined, found, bad_target, bad_hash, max_nonce_exceeded, timeout_exceeded, cancelled, Watch,
  with_nonce, attempt, mine_loop, mine_block,
}

-- A block that was found between these nonces has its own hash, which proves its work.
unfoldable pub IsMined : ⦃p : Platform⦄ → Block → ℕ → ℕ → Mined → Type 0
IsMined block low high (found b) =
    (b ≡ record block { nonce = b.nonce; hash = b.hash })
    × (b.hash ≡ some (compute_hash b))
    × HasWork b.hash block.target
    × (low ≤ b.nonce)
    × (b.nonce < high)
IsMined block low high _ = Unit

module _ ⦃p : Platform⦄ where
  -- The hash is no part of the header.
  compute_hash-hash :
      (b : Block) (h : Option String) → compute_hash (record b { hash = h }) ≡ compute_hash b
  unfolding compute_hash to_header_dict header_fields
  compute_hash-hash b h = refl

  attempt-IsMined :
      (watch : Watch) (block : Block) (nonce high : ℕ) (n : Option ℤ) (rest : Mined)
      → int16 (compute_hash (with_nonce nonce block)) ≡ n
      → nonce < high
      → IsMined block nonce high rest
      → IsMined block nonce high
          (attempt watch block nonce (compute_hash (with_nonce nonce block)) n rest)
  unfolding IsMined HasWork
  attempt-IsMined watch block nonce high none rest e lt later = tt
  attempt-IsMined watch block nonce high (some n) rest e lt later =
      if_intro (IsMined block nonce high) (ltb_ℤ n (pos block.target))
        (λ less. (
          refl,
          ap some (sym (compute_hash-hash (with_nonce nonce block) _)),
          (n, e, ltb_ℤ→lt n (pos block.target) less),
          omega arith,
          lt,
        ))
        (λ _.
          if_intro (IsMined block nonce high) (watch.should_stop nonce _) (λ _. tt) (λ _. later))

  weaken-IsMined :
      (block : Block) (low high : ℕ) (m : Mined)
      → IsMined block (low + 1) high m
      → IsMined block low high m
  unfolding IsMined
  weaken-IsMined block low high (found b) (same, own, works, le, lt) =
      (same, own, works, omega arith, lt)
  weaken-IsMined block low high bad_target h = tt
  weaken-IsMined block low high bad_hash h = tt
  weaken-IsMined block low high max_nonce_exceeded h = tt
  weaken-IsMined block low high timeout_exceeded h = tt
  weaken-IsMined block low high cancelled h = tt

  mine_loop-IsMined :
      (watch : Watch) (block : Block) (nonce left : ℕ)
      → IsMined block nonce (nonce + left) (mine_loop watch block nonce left)
  unfolding mine_loop IsMined
  mine_loop-IsMined watch block nonce zero = tt
  mine_loop-IsMined watch block nonce (suc left) =
      let later : IsMined block nonce (nonce + suc left) (mine_loop watch block (nonce + 1) left) =
        weaken-IsMined block nonce _ _ (
          subst (λ high. IsMined block (nonce + 1) high (mine_loop watch block (nonce + 1) left))
            (omega arith) (mine_loop-IsMined watch block (nonce + 1) left)) in
      if_intro (IsMined block nonce (nonce + suc left)) (watch.timed_out nonce) (λ _. tt)
        (λ _. attempt-IsMined watch block nonce _ _ _ refl (omega arith) later)

  -- A block that `mine_block` returns differs from the one that it was given in its target, its
  -- nonce and its hash alone; its hash is that of its own header and proves its work for the target;
  -- and its nonce is one of the `max_nonce` from the first one on.
  pub mine_block-IsMined :
      (watch : Watch) (block : Block) (target start_nonce max_nonce : ℕ)
      → IsMined
          (record block { target = target })
          start_nonce
          (start_nonce + max_nonce)
          (mine_block watch block target start_nonce max_nonce)
  unfolding mine_block IsMined
  mine_block-IsMined watch block target start_nonce max_nonce =
      if_intro (IsMined (record block { target = target }) start_nonce (start_nonce + max_nonce))
        (target == 0) (λ _. tt)
        (λ _. mine_loop-IsMined watch (record block { target = target }) start_nonce max_nonce)

  -- Nothing stops the miner, and every hash can be read.
  abbrev pub Undisturbed : Watch → Block → Type 0
  Undisturbed watch block =
      ((n : ℕ) → watch.timed_out n ≡ false)
      × ((n : ℕ) (h : String) → watch.should_stop n h ≡ false)
      × ((n : ℕ) → (v : ℤ) × (int16 (compute_hash (with_nonce n block)) ≡ some v))

  no_work :
      (block : Block) (v : ℤ) (nonce : ℕ)
      → int16 (compute_hash (with_nonce nonce block)) ≡ some v
      → ltb_ℤ v (pos block.target) ≡ false
      → HasWork (some (compute_hash (with_nonce nonce block))) block.target
      → ⊥
  unfolding HasWork
  no_work block v nonce e more (w, e', less) =
      let smaller = subst (λ x. x <ℤ pos block.target) (some-injective _ _ (sym e' ∙ e)) less in
      omega (arith, smaller, ltb_ℤ→ge v (pos block.target) more)

  mine_loop-finds :
      (watch : Watch) (block : Block) (nonce left good : ℕ)
      → Undisturbed watch block
      → nonce ≤ good
      → good < nonce + left
      → HasWork (some (compute_hash (with_nonce good block))) block.target
      → (b : Block) × (mine_loop watch block nonce left ≡ found b)
  unfolding mine_loop HasWork
  mine_loop-finds watch block nonce zero good calm low high works = absurd (omega arith)
  mine_loop-finds watch block nonce (suc left) good (on, going, reads) low high works =
      let (v, e) = reads nonce in
      let Goal = λ (m : Mined). (b : Block) × (m ≡ found b) in
      rw (on nonce) (
        rw e (
          if_intro Goal (ltb_ℤ v (pos block.target)) (λ _. (_, refl))
            (λ more.
              rw (going nonce (compute_hash (with_nonce nonce block)))
                (elim (ℕ_discrete good nonce) [
                  | yes same ↦ absurd (
                      no_work block v nonce e more (
                        subst (λ n. HasWork (some (compute_hash (with_nonce n block))) block.target)
                          same works))
                  | no other ↦
                      mine_loop-finds watch block (nonce + 1) left good (on, going, reads)
                        (omega arith) (omega arith) works
                ]))))

  -- An undisturbed miner finds a block if one of its nonces gives a hash below the target.
  pub mine_block-finds :
      (watch : Watch) (block : Block) (target start_nonce max_nonce good : ℕ)
      → Undisturbed watch (record block { target = target })
      → 1 ≤ target
      → start_nonce ≤ good
      → good < start_nonce + max_nonce
      → HasWork (some (compute_hash (with_nonce good (record block { target = target })))) target
      → (b : Block) × (mine_block watch block target start_nonce max_nonce ≡ found b)
  unfolding mine_block HasWork
  mine_block-finds watch block target start_nonce max_nonce good calm some_target low high works =
      let Goal = λ (m : Mined). (b : Block) × (m ≡ found b) in
      if_intro Goal (target == 0) (λ zero_target. absurd (ground arith))
        (λ _.
          mine_loop-finds watch (record block { target = target }) start_nonce max_nonce good calm
            low high works)
