-- ===== src/Chain/Replay.antt =====
-- The replay of a new chain in `resolve_conflicts` of minichain/chain.py links its blocks.
use mathlib.Core.Path.{subst}
use mathlib.Core.Option.{some-injective}
use mini_chain.Base.{
  ℕ, zero, suc, ◌≤◌, ◌≡◌, refl, sym, ap, true, Option, none, some, List, [], ◌∷◌, ◌++◌, arith,
  length, take, drop, take-append-drop, then?-some,
}
use mini_chain.Platform.{Platform}
use mini_chain.Transaction.{ValidationStatus, valid}
use mini_chain.State.Accounts.{Accounts}
use mini_chain.Block.{Block}
use mini_chain.Chain.{Float}
use mini_chain.Chain.Apply.{Tuning, Step}
use mini_chain.Chain.Blockchain.{
  Blockchain, last_block, connects, fast_forward, go_on, after_block, replay, from_known, resume,
  replay_from_genesis, rebuild_from,
}
use mini_chain.Chain.Commits.{apply_block-valid}
use mini_chain.Chain.Links.{Follows, validate_block_link_and_hash-Follows}
use mini_chain.Chain.Growth.{IsLinked}

pub take-take-append {ℓ} :
    {A : Type ℓ} (n : ℕ) (xs ys : List A) → n ≤ length xs → take n (take n xs ++ ys) ≡ take n xs
take-take-append zero xs ys h = refl
take-take-append (suc n) [] ys h = absurd (omega arith)
take-take-append (suc n) (x ∷ xs) ys h = ap (◌∷◌ x) (take-take-append n xs ys (omega arith))

pub connects-length :
    (chain : List Block) (first : Block) → connects chain first ≡ true → first.index ≤ length chain
unfolding connects
connects-length chain first h = ground arith

module _ ⦃p : Platform⦄ where
  pub take-IsLinked : (n : ℕ) (bs : List Block) → IsLinked bs → IsLinked (take n bs)
  unfolding IsLinked
  take-IsLinked zero bs linked = tt
  take-IsLinked (suc n) [] linked = tt
  take-IsLinked (suc zero) (b ∷ bs) linked = tt
  take-IsLinked (suc (suc n)) (b ∷ []) linked = tt
  take-IsLinked (suc (suc n)) (b ∷ c ∷ bs) (follows, linked) =
      (follows, take-IsLinked (suc n) (c ∷ bs) linked)

  join-IsLinked :
      (old bs : List Block) (prev : Block)
      → IsLinked old
      → last_block old ≡ some prev
      → IsLinked (prev ∷ bs)
      → IsLinked (old ++ bs)
  unfolding IsLinked
  join-IsLinked [] bs prev linked at_end rest = cc
  join-IsLinked (b ∷ []) bs prev linked at_end rest =
      subst (λ x. IsLinked (x ∷ bs)) (sym (some-injective _ _ at_end)) rest
  join-IsLinked (b ∷ c ∷ old) bs prev (follows, linked) at_end rest =
      (follows, join-IsLinked (c ∷ old) bs prev linked at_end rest)

module _ {F : Type 0} ⦃fl : Float F⦄ ⦃p : Platform⦄ where
  -- A replay that ends VALID has linked its blocks to the one before.
  unfoldable Links : Block → List Block → Option (Step F) → Type 0
  Links prev bs run = (end : Step F) → run ≡ some end → end.status ≡ valid → IsLinked (prev ∷ bs)

  go_on-Links :
      (prev b : Block) (bs : List Block) (next : Step F) (rest : Step F → Option (Step F))
      (s : ValidationStatus)
      → next.status ≡ s
      → (s ≡ valid → Follows prev b)
      → Links b bs (rest next)
      → Links prev (b ∷ bs) (go_on next rest s)
  unfolding Links IsLinked
  go_on-Links prev b bs next rest valid e follows links end h v = (follows refl, links end h v)
  go_on-Links prev b bs next rest s e follows links end h v = ground arith

  after_block-Links :
      (prev b : Block) (bs : List Block) (o : Option (Step F)) (rest : Step F → Option (Step F))
      → ((next : Step F) → o ≡ some next → next.status ≡ valid → Follows prev b)
      → ((next : Step F) → Links b bs (rest next))
      → Links prev (b ∷ bs) (after_block o rest)
  unfolding Links
  after_block-Links prev b bs none rest follows links end h v = cc
  after_block-Links prev b bs (some next) rest follows links end h v =
      go_on-Links prev b bs next rest next.status refl (follows next refl) (links next) end h v

  replay-Links :
      (tun : Tuning F) (now : ℕ) (prev : Block) (bs : List Block) (step : Step F)
      → Links prev bs (replay tun now prev bs step)
  unfolding replay Links IsLinked
  replay-Links tun now prev [] step end h v = tt
  replay-Links tun now prev (b ∷ bs) step end h v =
      after_block-Links prev b bs _ (replay tun now b bs)
        (λ next ran v.
          let (checked, _, _) =
            apply_block-valid tun prev b now step.state step.target step.avg next ran v in
          (validate_block_link_and_hash-Follows prev b now checked).0)
        (replay-Links tun now b bs) end h v

  from_known-IsLinked :
      (bc : Blockchain F) (now : ℕ) (accs : Accounts) (old new : List Block) (end : Step F)
      → IsLinked old
      → from_known bc now accs old new ≡ some end
      → end.status ≡ valid
      → IsLinked (old ++ new)
  unfolding from_known Links
  from_known-IsLinked bc now accs [] new end linked h v = cc
  from_known-IsLinked bc now accs (genesis ∷ known) new end linked h v =
      let ((target, avg), _, h1) =
        then?-some
          (fast_forward bc.tuning genesis known genesis.target
            (fl.of_int bc.tuning.target_block_time))
          (resume bc now accs (genesis ∷ known) new) end h in
      let (prev, at_end, h2) = then?-some (last_block (genesis ∷ known)) _ end h1 in
      join-IsLinked (genesis ∷ known) new prev linked at_end
        (replay-Links bc.tuning now prev new _ end h2 v)

  replay_from_genesis-IsLinked :
      (bc : Blockchain F) (now : ℕ) (bs : List Block) (end : Step F)
      → replay_from_genesis bc now bs ≡ some end
      → end.status ≡ valid
      → IsLinked bs
  unfolding replay_from_genesis Links
  replay_from_genesis-IsLinked bc now [] end h v = cc
  replay_from_genesis-IsLinked bc now (genesis ∷ rest) end h v =
      replay-Links bc.tuning now genesis rest _ end h v

  pub rebuild_from-IsLinked :
      (bc : Blockchain F) (now n : ℕ) (bs : List Block) (o : Option Accounts) (end : Step F)
      → IsLinked (take n bs)
      → rebuild_from bc now n bs o ≡ some end
      → end.status ≡ valid
      → IsLinked bs
  rebuild_from-IsLinked bc now n bs (some accs) end linked h v =
      subst IsLinked (take-append-drop n bs)
        (from_known-IsLinked bc now accs (take n bs) (drop n bs) end linked h v)
  rebuild_from-IsLinked bc now n bs none end linked h v =
      replay_from_genesis-IsLinked bc now bs end h v
