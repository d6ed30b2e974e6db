-- ===== src/Chain/Bounds.antt =====
-- The proof-of-work target that `_next_target` computes, and the snapshots that are kept.
use mini_chain.Base.{
  ℕ, suc, zero, ◌-◌, ◌≤◌, String, ◌≡◌, ◌≢◌, refl, ◌∙◌, ap, Option, some, List, [], ◌∷◌, ◌++◌, arith,
  length, length-append, drop,
}
use mini_chain.Base.Int.{ℤ, pos, negsuc}
use mini_chain.Chain.{Float}
use mini_chain.Chain.Link.{max_target}
use mini_chain.Chain.Apply.{Tuning, clamp_quotient, next_target}
use mini_chain.State.Accounts.{Accounts}
use mini_chain.Chain.Blockchain.{push_snapshot}

clamp_quotient-range :
    (time target : ℕ) (avg : ℤ)
    → (1 ≤ clamp_quotient time target avg) × (clamp_quotient time target avg ≤ max_target)
clamp_quotient-range time target (pos avg) = (omega arith, omega arith)
clamp_quotient-range time target (negsuc avg) = (omega arith, omega arith)

module _ {F : Type 0} ⦃fl : Float F⦄ where
  -- `_next_target` yields a target for every block time but 0, and it lies between 1 and 2^256 - 1.
  pub next_target-range :
      (tun : Tuning F) (target : ℕ) (avg : F)
      → tun.target_block_time ≢ 0
      → (t : ℕ) × (next_target tun target avg ≡ some t) × (1 ≤ t) × (t ≤ max_target)
  unfolding next_target
  next_target-range tun target avg ne =
      let t = clamp_quotient tun.target_block_time target (fl.truncate avg) in
      let (low, high) = clamp_quotient-range tun.target_block_time target (fl.truncate avg) in
      (t, ground arith, low, high)

length-drop {ℓ} : {A : Type ℓ} (n : ℕ) (xs : List A) → length (drop n xs) ≡ length xs - n
length-drop zero xs = omega arith
length-drop (suc n) [] = omega arith
length-drop (suc n) (x ∷ xs) = omega (arith, length-drop n xs)

drop-end {ℓ} :
    {A : Type ℓ} (n : ℕ) (x : A) (xs : List A)
    → n ≤ length xs
    → drop n (xs ++ x ∷ []) ≡ drop n xs ++ x ∷ []
drop-end zero x xs h = refl
drop-end (suc n) x [] h = absurd (omega arith)
drop-end (suc n) x (y ∷ xs) h = drop-end n x xs (omega arith)

sub_same : (m n : ℕ) → m ≡ suc n → m - 10 ≡ n - 9
sub_same m n e = omega arith

-- At most ten snapshots are kept, the newest last, and as long as there are fewer none is dropped.
pub push_snapshot_lem :
    (s : Option String × Accounts) (ss : List (Option String × Accounts))
    → length ss ≤ 10
    → (length (push_snapshot s ss) ≤ 10) × (push_snapshot s ss ≡ drop (length ss - 9) ss ++ s ∷ [])
unfolding push_snapshot
push_snapshot_lem s ss h = (
  omega (arith, length-drop (length (ss ++ s ∷ []) - 10) (ss ++ s ∷ []), length-append ss (s ∷ [])),
  ap (λ n. drop n (ss ++ s ∷ []))
        (sub_same (length (ss ++ s ∷ [])) (length ss) (omega (arith, length-append ss (s ∷ []))))
      ∙ drop-end (length ss - 9) s ss (omega arith),
)
