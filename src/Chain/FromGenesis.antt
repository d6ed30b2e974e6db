-- ===== src/Chain/FromGenesis.antt =====
-- The state that a `Blockchain` of minichain/chain.py holds is the execution of its chain from the
-- genesis state, whatever blocks and forks it was given.
use mathlib.Core.Path.{subst}
use mathlib.Core.Option.{some-injective}
use mini_chain.Base.{
  ℕ, zero, suc, String, ◌≡◌, refl, ◌∙◌, ap, Option, some, List, [], ◌∷◌, ◌++◌, take, drop, All,
  get_elem?, if_intro, opt_str_eq, opt_str_eq→eq,
}
use mini_chain.Platform.{Platform}
use mini_chain.Transaction.{valid}
use mini_chain.State.Accounts.{Accounts}
use mini_chain.Block.{Block}
use mini_chain.Chain.{Float}
use mini_chain.Chain.Apply.{Tuning, Step}
use mini_chain.Chain.Blockchain.{Blockchain, last_block, push_snapshot, find_snapshot}
use mini_chain.Chain.History.{Executes, Executes-append, Executes-chain_id, Executes-valid}

-- The genesis configuration of a node.
pub record Genesis (F : Type 0) : Type 0 where
  pub tuning : Tuning F
  pub chain_id : String
  pub accounts : Accounts

-- The blocks that a hash names: those of the chain that its block ends.
abbrev pub Names : (Option String → List Block) → List Block → Type 0
Names chain_of bs =
    (n : ℕ) (b : Block) → get_elem? bs n ≡ some b → chain_of b.hash ≡ take (suc n) bs

pub last-get_elem? :
    (bs : List Block) (b : Block)
    → last_block bs ≡ some b
    → (n : ℕ) × (get_elem? bs n ≡ some b) × (take (suc n) bs ≡ bs)
last-get_elem? [] b h = cc
last-get_elem? (c ∷ []) b h = (0, h, refl)
last-get_elem? (c ∷ d ∷ bs) b h =
    let (n, at, all) = last-get_elem? (d ∷ bs) b h in (suc n, at, ap (◌∷◌ c) all)

pub Names-last :
    (chain_of : Option String → List Block) (bs : List Block) (b : Block)
    → Names chain_of bs
    → last_block bs ≡ some b
    → chain_of b.hash ≡ bs
Names-last chain_of bs b names h = let (n, at, all) = last-get_elem? bs b h in names n b at ∙ all

module _ {ℓ} {A : Type 0} (P : A → Type ℓ) where
  All-append : (xs ys : List A) → All P xs → All P ys → All P (xs ++ ys)
  All-append [] ys hx hy = hy
  All-append (x ∷ xs) ys hx hy = (hx.0, All-append xs ys hx.1 hy)

  All-drop : (n : ℕ) (xs : List A) → All P xs → All P (drop n xs)
  All-drop zero xs h = h
  All-drop (suc n) [] h = tt
  All-drop (suc n) (x ∷ xs) h = All-drop n xs h.1

pub push_snapshot-All {ℓ} :
    (P : Option String × Accounts → Type ℓ) (s : Option String × Accounts)
    (ss : List (Option String × Accounts))
    → P s
    → All P ss
    → All P (push_snapshot s ss)
unfolding push_snapshot
push_snapshot-All P s ss new old =
    All-drop P _ (ss ++ s ∷ []) (All-append P ss (s ∷ []) old (new, tt))

pub find_snapshot-All {ℓ} :
    (P : Option String × Accounts → Type ℓ) (h : String) (ss : List (Option String × Accounts))
    (accs : Accounts)
    → All P ss
    → find_snapshot h ss ≡ some accs
    → P (some h, accs)
unfolding find_snapshot
find_snapshot-All P h [] accs all e = cc
find_snapshot-All P h ((k, accs') ∷ ss) accs (first, all) e =
    (if_intro (λ o. o ≡ some accs → P (some h, accs)) (opt_str_eq k (some h))
        (λ same q.
          subst (λ x. P (x, accs)) (opt_str_eq→eq k (some h) same)
            (subst (λ x. P (k, x)) (some-injective _ _ q) first))
        (λ _ q. find_snapshot-All P h ss accs all q))
      e

module _ {F : Type 0} ⦃fl : Float F⦄ ⦃p : Platform⦄ where
  -- The standing behind a genesis block.
  abbrev pub genesis_step : Genesis F → Block → Step F
  genesis_step g b = record {
    status = valid;
    target = b.target;
    avg = fl.of_int g.tuning.target_block_time;
    state = record { accounts = g.accounts; chain_id = g.chain_id };
  }

  -- Executing this chain leads from its genesis block to this place.
  abbrev pub Executed : Genesis F → List Block → Step F → Type 0
  Executed g [] end = ⊥
  Executed g (b ∷ bs) end = Executes g.tuning b bs (genesis_step g b) end

  abbrev pub config : Blockchain F → Genesis F
  config bc = record { tuning = bc.tuning; chain_id = bc.chain_id; accounts = bc.genesis_state }

  abbrev pub standing : Blockchain F → Step F
  standing bc = record {
    status = valid;
    target = bc.current_target;
    avg = bc.avg_block_time;
    state = bc.state;
  }

  -- The snapshot of the block with this hash holds the accounts behind it.
  abbrev pub IsSnapshot :
      Genesis F → (Option String → List Block) → Option String × Accounts → Type 0
  IsSnapshot g chain_of (h, accs) =
      (end : Step F) × Executed g (chain_of h) end × (end.state.accounts ≡ accs)

  -- What the object holds is the execution of its chain, and its snapshots are right.
  pub record IsExecuted (chain_of : Option String → List Block) (bc : Blockchain F) : Type 0 where
    pub executed : Executed (config bc) bc.chain (standing bc)
    pub named : Names chain_of bc.chain
    pub snapshots : All (IsSnapshot (config bc) chain_of) bc.state_snapshots

  pub Executed-append :
      (g : Genesis F) (bs cs : List Block) (last : Block) (mid end : Step F)
      → Executed g bs mid
      → last_block bs ≡ some last
      → Executes g.tuning last cs mid end
      → Executed g (bs ++ cs) end
  Executed-append g [] cs last mid end ran at_end rest = absurd ran
  Executed-append g (b ∷ bs) cs last mid end ran at_end rest =
      Executes-append g.tuning cs last ran at_end rest

  pub Executed-chain_id :
      (g : Genesis F) (bs : List Block) (end : Step F)
      → Executed g bs end
      → end.state.chain_id ≡ g.chain_id
  Executed-chain_id g [] end ran = absurd ran
  Executed-chain_id g (b ∷ bs) end ran = Executes-chain_id g.tuning ran

  pub Executed-valid :
      (g : Genesis F) (bs : List Block) (end : Step F) → Executed g bs end → end.status ≡ valid
  Executed-valid g [] end ran = absurd ran
  Executed-valid g (b ∷ bs) end ran = Executes-valid g.tuning ran refl
