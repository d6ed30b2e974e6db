-- ===== src/Chain/Reorg.antt =====
-- `resolve_conflicts` of minichain/chain.py: a fork is taken only for strictly more work, and the
-- chain that it leaves is linked.
use mathlib.Core.Path.{subst}
use mathlib.Core.Option.{some-injective}
use mini_chain.Base.{
  ℕ, ◌≤◌, ◌<◌, ◌≡◌, ◌⊎◌, refl, sym, ap, Bool, true, false, Option, none, some, List, [], ◌∷◌, ◌++◌,
  arith, leb, length, take, if_intro, inl, inr,
}
use mini_chain.Platform.{Platform}
use mini_chain.Transaction.{Transaction, ValidationStatus, valid}
use mini_chain.Block.{Block}
use mini_chain.Chain.{Float}
use mini_chain.Chain.Apply.{Step}
use mini_chain.Chain.Blockchain.{
  Blockchain, Reorg, get_total_work, connects, fast_pow, orphans, switched, adopt_status, adopt,
  rebuild, reorganise, resolve_conflicts,
}
use mini_chain.Chain.Link.{misses_target, target_in_range}
use mini_chain.Chain.Growth.{IsLinked}
use mini_chain.Chain.Replay.{
  take-take-append, connects-length, take-IsLinked, rebuild_from-IsLinked,
}

module _ {F : Type 0} ⦃fl : Float F⦄ ⦃p : Platform⦄ where
  pub adopt-cases :
      (bc bc' : Blockchain F) (proposed : List Block) (step : Step F) (s : ValidationStatus)
      (ok : Bool) (orphaned : List Transaction)
      → adopt_status bc proposed step s ≡ ((ok, orphaned), bc')
      → ((ok ≡ false) × (orphaned ≡ []) × (bc' ≡ bc))
        ⊎ ((s ≡ valid)
            × (ok ≡ true)
            × (orphaned ≡ orphans bc.chain proposed)
            × (bc' ≡ switched proposed step bc))
  unfolding adopt_status
  adopt-cases bc bc' proposed step valid ok orphaned h =
      inr (refl, ground arith, ground arith, ground arith)
  adopt-cases bc bc' proposed step s ok orphaned h = inl (ground arith, ground arith, ground arith)

  -- The outcomes: nothing has changed, or the object is on a chain with strictly more work, which
  -- shares its blocks before the fork with the old one.
  unfoldable Refused : Blockchain F → Reorg F → Type 0
  Refused bc ((ok, orphaned), bc') = (ok ≡ false) × (orphaned ≡ []) × (bc' ≡ bc)

  unfoldable pub Taken : ℕ → ℕ → List Block → Blockchain F → Reorg F → Type 0
  Taken now fork_idx blocks bc ((ok, orphaned), bc') =
      (ok ≡ true)
      × (bc'.chain ≡ take fork_idx bc.chain ++ blocks)
      × (get_total_work bc.chain < get_total_work bc'.chain)
      × (orphaned ≡ orphans bc.chain bc'.chain)
      × ((end : Step F) × (rebuild bc now fork_idx bc'.chain ≡ some end)
          × (end.status ≡ valid)
          × (bc'.state ≡ end.state)
          × (bc'.current_target ≡ end.target)
          × (bc'.avg_block_time ≡ end.avg))

  adopt-Outcome :
      (bc : Blockchain F) (now n : ℕ) (blocks : List Block) (run : Option (Step F)) (r : Reorg F)
      → get_total_work bc.chain < get_total_work (take n bc.chain ++ blocks)
      → rebuild bc now n (take n bc.chain ++ blocks) ≡ run
      → adopt bc (take n bc.chain ++ blocks) run ≡ some r
      → Refused bc r ⊎ Taken now n blocks bc r
  unfolding Refused Taken
  adopt-Outcome bc now n blocks none r more e h = cc
  adopt-Outcome bc now n blocks (some end) ((ok, orphaned), bc') more e h =
      elim (adopt-cases bc bc' (take n bc.chain ++ blocks) end end.status ok orphaned
        (some-injective _ _ h)) [
          | inl same ↦ inl same
          | inr (v, yes_ok, orphans_same, switch) ↦ inr (
            yes_ok,
            ap (λ (c : Blockchain F). c.chain) switch,
            rw switch more,
            rw switch orphans_same,
            (
              end,
              rw switch e,
              v,
              ap (λ (c : Blockchain F). c.state) switch,
              ap (λ (c : Blockchain F). c.current_target) switch,
              ap (λ (c : Blockchain F). c.avg_block_time) switch,
            ),
          )
        ]

  reorganise-Outcome :
      (bc : Blockchain F) (now : ℕ) (first : Block) (blocks : List Block) (good : Option Bool)
      (r : Reorg F)
      → reorganise bc now first blocks good ≡ some r
      → Refused bc r ⊎ Taken now first.index blocks bc r
  unfolding reorganise Refused
  reorganise-Outcome bc now first blocks none r h = cc
  reorganise-Outcome bc now first blocks (some false) r h =
      inl (subst (Refused bc) (some-injective _ _ h) (refl, refl, refl))
  reorganise-Outcome bc now first blocks (some true) r h =
      let proposed = take first.index bc.chain ++ blocks in
      let Goal =
        λ (o : Option (Reorg F)). o ≡ some r → Refused bc r ⊎ Taken now first.index blocks bc r in
      (if_intro Goal (leb (get_total_work proposed) (get_total_work bc.chain))
          (λ _ k. inl (subst (Refused bc) (some-injective _ _ k) (refl, refl, refl)))
          (λ more k. adopt-Outcome bc now first.index blocks _ r (ground arith) refl k))
        h

  -- In terms of the code's own replay.
  pub resolve_conflicts-cases :
      (now : ℕ) (blocks : List Block) (bc bc' : Blockchain F) (ok : Bool)
      (orphaned : List Transaction)
      → resolve_conflicts now blocks bc ≡ some ((ok, orphaned), bc')
      → ((ok ≡ false) × (orphaned ≡ []) × (bc' ≡ bc))
        ⊎ ((fork_idx : ℕ) × (fork_idx ≤ length bc.chain)
            × Taken now fork_idx blocks bc ((ok, orphaned), bc'))
  unfolding resolve_conflicts Refused
  resolve_conflicts-cases now [] bc bc' ok orphaned h =
      inl (subst (Refused bc) (some-injective _ _ h) (refl, refl, refl))
  resolve_conflicts-cases now (first ∷ blocks) bc bc' ok orphaned h =
      let r : Reorg F = ((ok, orphaned), bc') in
      let Goal = λ (o : Option (Reorg F)).
        o ≡ some r
        → Refused bc r
          ⊎ ((fork_idx : ℕ) × (fork_idx ≤ length bc.chain)
              × Taken now fork_idx (first ∷ blocks) bc r) in
      (if_intro Goal (connects bc.chain first)
          (λ joined k. elim (reorganise-Outcome bc now first (first ∷ blocks) _ r k) [
            | inl same ↦ inl same
            | inr taken ↦ inr (first.index, connects-length bc.chain first joined, taken)
          ])
          (λ _ k. inl (subst (Refused bc) (some-injective _ _ k) (refl, refl, refl))))
        h

  -- `resolve_conflicts` keeps the chain linked.
  pub resolve_conflicts-IsLinked :
      (now : ℕ) (blocks : List Block) (bc bc' : Blockchain F) (ok : Bool)
      (orphaned : List Transaction)
      → IsLinked bc.chain
      → resolve_conflicts now blocks bc ≡ some ((ok, orphaned), bc')
      → IsLinked bc'.chain
  unfolding Taken rebuild
  resolve_conflicts-IsLinked now blocks bc bc' ok orphaned linked h =
      elim (resolve_conflicts-cases now blocks bc bc' ok orphaned h) [
        | inl (_, _, same) ↦ subst (λ (c : Blockchain F). IsLinked c.chain) (sym same) linked
        | inr (n, le, (_, new, _, _, (end, ran, v, _, _, _))) ↦
            rebuild_from-IsLinked bc now n bc'.chain _ end
              (rw new
                (rw (take-take-append n bc.chain blocks le) (take-IsLinked n bc.chain linked)))
              ran v
      ]

  -- Blocks whose first block does not meet its own target are refused, whatever follows. A whole
  -- chain starts with the genesis block, which is not mined.
  pub unworked_first_refused :
      (now : ℕ) (first : Block) (blocks : List Block) (bc : Blockchain F)
      → misses_target first.hash first.target ≡ some true
      → resolve_conflicts now (first ∷ blocks) bc ≡ some ((false, []), bc)
  unfolding resolve_conflicts reorganise fast_pow
  unworked_first_refused now first blocks bc missed =
      let Goal = λ (o : Option (Reorg F)). o ≡ some ((false, []), bc) in
      if_intro Goal (connects bc.chain first)
        (λ _.
          if_intro (λ (b : Option Bool). Goal (reorganise bc now first (first ∷ blocks) b))
            (target_in_range first.target) (λ _. rw missed refl) (λ _. refl))
        (λ _. refl)
