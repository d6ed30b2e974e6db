-- ===== src/Block/Merkle.antt =====
-- The Merkle tree: it has a root for every non-empty list, and cannot tell an odd list from the one
-- with its last entry twice.
use mathlib.Core.Path.{ap}
use Prim.Native.String
use mini_chain.Base.{
  ℕ, zero, suc, ◌+◌, ◌*◌, ◌-◌, ◌≤◌, String, ◌≡◌, ◌≢◌, refl, sym, ◌∙◌, some, List, [], ◌∷◌, ◌++◌,
  arith, length, length-append,
}
use mini_chain.Platform.{Platform}
use mini_chain.Block.{new_level, merkle_loop, calculate_merkle_tree}

module _ ⦃p : Platform⦄ where
  -- A level has half as many hashes, rounded up.
  length-new_level :
      (hs : List String)
      → (length hs ≤ 2 * length (new_level hs)) × (2 * length (new_level hs) ≤ length hs + 1)
  unfolding new_level
  length-new_level [] = omega arith
  length-new_level (a ∷ []) = omega arith
  length-new_level (a ∷ b ∷ hs) = omega (arith, length-new_level hs)

  merkle_loop-some :
      (fuel : ℕ) (h : String) (hs : List String)
      → length hs ≤ fuel
      → (root : String) × (merkle_loop fuel (h ∷ hs) ≡ some root)
  unfolding merkle_loop
  merkle_loop-some fuel h [] le = (h, refl)
  merkle_loop-some zero a (b ∷ hs) le = absurd (omega arith)
  merkle_loop-some (suc fuel) a (b ∷ hs) le =
      merkle_loop-some fuel _ (new_level hs) (omega (arith, length-new_level hs))

  -- Fuel beyond the number of hashes changes nothing.
  merkle_loop-more :
      (fuel : ℕ) (hs : List String)
      → length hs ≤ suc fuel
      → merkle_loop (suc fuel) hs ≡ merkle_loop fuel hs
  unfolding merkle_loop
  merkle_loop-more fuel [] le = refl
  merkle_loop-more fuel (h ∷ []) le = refl
  merkle_loop-more zero (a ∷ b ∷ hs) le = absurd (omega arith)
  merkle_loop-more (suc fuel) (a ∷ b ∷ hs) le =
      merkle_loop-more fuel (new_level (a ∷ b ∷ hs)) (omega (arith, length-new_level (a ∷ b ∷ hs)))

  -- The tree over hashes that are not none at all has a root: the loop ends for every list.
  pub calculate_merkle_tree-some :
      (hs : List String) → hs ≢ [] → (root : String) × (calculate_merkle_tree hs ≡ some root)
  unfolding calculate_merkle_tree
  calculate_merkle_tree-some [] h = absurd (h refl)
  calculate_merkle_tree-some (a ∷ hs) h = merkle_loop-some (suc (length hs)) a hs (omega arith)

  new_level-odd :
      (k : ℕ) (x : String) (xs : List String)
      → length xs ≡ 2 * k
      → new_level (xs ++ x ∷ []) ≡ new_level (xs ++ x ∷ x ∷ [])
  unfolding new_level
  new_level-odd k x [] e = refl
  new_level-odd k x (a ∷ []) e = absurd (omega arith)
  new_level-odd k x (a ∷ b ∷ xs) e = cc (new_level-odd (k - 1) x xs (omega arith))

  -- The tree over an odd number of hashes, three or more, has the same root as the one over those
  -- hashes with the last one repeated, so a root does not determine the list under it.
  pub calculate_merkle_tree-repeated :
      (k : ℕ) (a x : String) (xs : List String)
      → length (a ∷ xs) ≡ 2 * k
      → calculate_merkle_tree (a ∷ xs ++ x ∷ []) ≡ calculate_merkle_tree (a ∷ xs ++ x ∷ x ∷ [])
  unfolding calculate_merkle_tree merkle_loop
  calculate_merkle_tree-repeated k a x [] e = absurd (omega arith)
  calculate_merkle_tree-repeated k a x (b ∷ xs) e =
      let odd = xs ++ x ∷ [] in
      let same : new_level odd ≡ new_level (xs ++ x ∷ x ∷ []) =
        new_level-odd (k - 1) x xs (omega arith) in
      let longer : length (xs ++ x ∷ x ∷ []) ≡ suc (length odd) =
        omega (arith, length-append xs (x ∷ []), length-append xs (x ∷ x ∷ [])) in
      let top = p.sha256_hex (String.◌++◌ a b) in
      let level = top ∷ new_level odd in
      sym (merkle_loop-more (suc (length odd)) level (omega (arith, length-new_level odd)))
      ∙ (ap (λ m. merkle_loop (suc m) level) (sym longer)
          ∙ ap (λ hs. merkle_loop (suc (length (xs ++ x ∷ x ∷ []))) (top ∷ hs)) same)
