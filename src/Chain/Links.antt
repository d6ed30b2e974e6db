-- ===== src/Chain/Links.antt =====
-- The chain of blocks: what the check of a link promises, and that every chain which `add_block` and
-- `resolve_conflicts` build is linked.
use mini_chain.Base.{
  ℕ, ◌+◌, ◌≤◌, ◌<◌, String, ◌≡◌, refl, sym, Bool, true, false, not, Option, none, some, arith, ◌==◌,
  not-false, opt_str_eq, opt_str_eq→eq, Option-cases, inl, inr, if◌then◌else◌,
}
use mini_chain.Base.Int.{ℤ, pos, ◌<ℤ◌, ltb_ℤ→lt}
use mini_chain.Base.Text.{int16}
use mini_chain.Platform.{Platform}
use mini_chain.Block.{Block, compute_hash}
use mini_chain.Chain.Link.{
  LinkError, target_in_range, misses_target, check_work, validate_block_link_and_hash, max_target,
  max_future_block_time_ms,
}

-- The hash reads as a number below the target.
unfoldable pub HasWork : Option String → ℕ → Type 0
HasWork none target = ⊥
HasWork (some h) target = (n : ℤ) × (int16 h ≡ some n) × (n <ℤ pos target)

misses_target-HasWork : (h : Option String) (t : ℕ) → misses_target h t ≡ some false → HasWork h t
unfolding misses_target HasWork
misses_target-HasWork none t e = cc
misses_target-HasWork (some h) t e = elim (Option-cases (int16 h)) [
  | inl raised ↦ absurd (ground arith)
  | inr (n, reads) ↦ (n, reads, ltb_ℤ→lt n (pos t) (ground arith))
]

check_work-none :
    (missed : Option Bool) (prev block : Block) (now : ℕ)
    → check_work missed prev block now ≡ none
    → (missed ≡ some false)
      × (prev.timestamp < block.timestamp)
      × (block.timestamp ≤ now + max_future_block_time_ms)
unfolding check_work
check_work-none none prev block now h = cc
check_work-none (some true) prev block now h = cc
check_work-none (some false) prev block now h = (refl, ground arith, ground arith)

-- The clock matters to the last check alone.
check_work-later :
    (missed : Option Bool) (prev block : Block) (now now' : ℕ)
    → check_work missed prev block now ≡ none
    → block.timestamp ≤ now' + max_future_block_time_ms
    → check_work missed prev block now' ≡ none
unfolding check_work
check_work-later none prev block now now' h near = cc
check_work-later (some true) prev block now now' h near = cc
check_work-later (some false) prev block now now' h near = ground arith

target_in_range_lem : (t : ℕ) → target_in_range t ≡ true → (1 ≤ t) × (t ≤ max_target)
unfolding target_in_range
target_in_range_lem t h = ground arith

-- A check that raised nothing.
passed :
    (bad : Bool) (e : LinkError) (rest : Option LinkError)
    → (if bad then some e else rest) ≡ none
    → (bad ≡ false) × (rest ≡ none)
passed true e rest h = cc
passed false e rest h = (refl, h)

==-not : (a b : ℕ) → not (a == b) ≡ false → a ≡ b
==-not a b h = ground arith

opt_str_eq-not : (a b : Option String) → not (opt_str_eq a b) ≡ false → a ≡ b
opt_str_eq-not a b h = opt_str_eq→eq a b (not-false _ h)

module _ ⦃p : Platform⦄ where
  -- What a block has to its predecessor.
  unfoldable pub Follows : Block → Block → Type 0
  Follows prev block =
      (prev.hash ≡ some block.previous_hash)
      × (block.index ≡ prev.index + 1)
      × (block.hash ≡ some (compute_hash block))
      × (1 ≤ block.target)
      × (block.target ≤ max_target)
      × HasWork block.hash block.target
      × (prev.timestamp < block.timestamp)

  -- A block that passes every check names its predecessor's hash and the next index, has the hash
  -- of its own header, which proves its work for a target in range, and is younger than its
  -- predecessor, but not by more than 15 seconds than the clock.
  pub validate_block_link_and_hash-Follows :
      (prev block : Block) (now : ℕ)
      → validate_block_link_and_hash prev block now ≡ none
      → Follows prev block × (block.timestamp ≤ now + 15000)
  unfolding validate_block_link_and_hash Follows
  validate_block_link_and_hash-Follows prev block now h =
      let (links, h1) = passed _ _ _ h in
      let (counts, h2) = passed _ _ _ h1 in
      let (hashes, h3) = passed _ _ _ h2 in
      let (ranges, h4) = passed _ _ _ h3 in
      let (works, newer, near) = check_work-none _ prev block now h4 in
      let (low, high) = target_in_range_lem block.target (not-false _ ranges) in
      (
        (
          sym (opt_str_eq-not _ _ links),
          ==-not _ _ counts,
          opt_str_eq-not _ _ hashes,
          low,
          high,
          misses_target-HasWork block.hash block.target works,
          newer,
        ),
        near,
      )

  pub validate_block_link_and_hash-later :
      (prev block : Block) (now now' : ℕ)
      → validate_block_link_and_hash prev block now ≡ none
      → block.timestamp ≤ now' + 15000
      → validate_block_link_and_hash prev block now' ≡ none
  unfolding validate_block_link_and_hash
  validate_block_link_and_hash-later prev block now now' h near =
      let (links, h1) = passed (not (opt_str_eq (some block.previous_hash) prev.hash)) _ _ h in
      let (counts, h2) = passed (not (block.index == prev.index + 1)) _ _ h1 in
      let (hashes, h3) = passed (not (opt_str_eq block.hash (some (compute_hash block)))) _ _ h2 in
      let (ranges, h4) =
        passed (not (target_in_range block.target)) _
          (check_work (misses_target block.hash block.target) prev block now) h3 in
      rw (links, counts, hashes, ranges) (check_work-later _ prev block now now' h4 near)
