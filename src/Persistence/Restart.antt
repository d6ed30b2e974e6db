-- ===== src/Persistence/Restart.antt =====
-- What a node has after a restart.
use mathlib.Core.Option.{some-injective}
use mini_chain.Base.{
  ℕ, ◌==◌, ◌≡◌, ◌≢◌, inl, inr, refl, sym, ap, ◌∙◌, true, not, Option, none, some, List, [], ◌∷◌,
  if_intro, opt_str_eq,
}
use mini_chain.Platform.{Platform}
use mini_chain.Transaction.{ValidationStatus, valid}
use mini_chain.Block.{Block, compute_hash}
use mini_chain.Chain.{Float}
use mini_chain.Chain.Link.{LinkError, validate_block_link_and_hash}
use mini_chain.Chain.Links.{validate_block_link_and_hash-Follows}
use mini_chain.Chain.Blockchain.{Blockchain, add_block}
use mini_chain.Chain.Growth.{IsLinked, add_block-Outcome}
use mini_chain.Persistence.{Snapshot, passes, links_verified, verify_chain_integrity, load}

module _ ⦃p : Platform⦄ where
  passes-none : (o : Option LinkError) → passes o ≡ true → o ≡ none
  passes-none none h = refl
  passes-none (some e) h = cc

  links_verified-IsLinked :
      (now : ℕ) (prev : Block) (bs : List Block)
      → links_verified now prev bs ≡ true
      → IsLinked (prev ∷ bs)
  unfolding links_verified IsLinked
  links_verified-IsLinked now prev [] h = tt
  links_verified-IsLinked now prev (b ∷ bs) h =
      (if_intro (λ r. r ≡ true → IsLinked (prev ∷ b ∷ bs))
          (passes (validate_block_link_and_hash prev b now))
          (λ good k. (
            (validate_block_link_and_hash-Follows prev b now (passes-none _ good)).0,
            links_verified-IsLinked now b bs k,
          ))
          (λ _ k. cc))
        h

  pub verify_chain_integrity-IsLinked :
      (now : ℕ) (bs : List Block) → verify_chain_integrity now bs ≡ true → IsLinked bs
  unfolding verify_chain_integrity
  verify_chain_integrity-IsLinked now [] h = cc
  verify_chain_integrity-IsLinked now (genesis ∷ bs) h =
      (if_intro (λ r. r ≡ true → IsLinked (genesis ∷ bs)) (not (genesis.index == 0)) (λ _ k. cc)
          (λ _.
            if_intro (λ r. r ≡ true → IsLinked (genesis ∷ bs))
              (not (opt_str_eq genesis.hash (some (compute_hash genesis)))) (λ _ k. cc)
              (λ _ k. links_verified-IsLinked now genesis bs k)))
        h

module _ {F : Type 0} ⦃fl : Float F⦄ ⦃p : Platform⦄ where
  load-restores :
      (now : ℕ) (fresh bc : Blockchain F) (s : Snapshot)
      → load now fresh s ≡ some bc
      → (verify_chain_integrity now s.0 ≡ true)
        × (bc ≡ record fresh { chain = s.0; state = record fresh.state { accounts = s.1 } })
  unfolding load
  load-restores now fresh bc s h =
      (if_intro
          (λ (o : Option (Blockchain F)).
            o ≡ some bc
            → (verify_chain_integrity now s.0 ≡ true)
              × (bc ≡ record fresh { chain = s.0; state = record fresh.state { accounts = s.1 } }))
          (verify_chain_integrity now s.0) (λ good k. (good, sym (some-injective _ _ k)))
          (λ _ k. cc))
        h

  -- The target is not restored: after a restart it is the one of the genesis file, and a block
  -- with any other target, such as the one that was due before, is not VALID.
  pub loaded_target_lost :
      (now later : ℕ) (fresh bc bc' : Blockchain F) (s : Snapshot) (block : Block)
      (status : ValidationStatus)
      → load now fresh s ≡ some bc
      → block.target ≢ fresh.current_target
      → add_block later block bc ≡ some (status, bc')
      → (status ≢ valid) × (bc' ≡ bc)
  loaded_target_lost now later fresh bc bc' s block status h ne added =
      let (_, e) = load-restores now fresh bc s h in
      elim (add_block-Outcome later block bc bc' status added) [
        | inl same ↦ same
        | inr (_, _, _, due, _) ↦ absurd (ne (due ∙ ap (λ (c : Blockchain F). c.current_target) e))
      ]
