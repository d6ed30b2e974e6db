-- ===== src/Chain/Founding.antt =====
-- The object that `_create_genesis_block` of minichain/chain.py makes: its state is that of its genesis
-- block, and the supply that the file names is allocated.
use mathlib.Core.Path.{subst}
use mathlib.Core.Option.{some-injective}
use mini_chain.Base.{
  ℕ, String, ◌≡◌, ◌≢◌, refl, sym, ◌∙◌, ap, Bool, true, false, Option, none, some, [], arith,
  if_intro, then?-some, Holds, then?-Holds,
}
use mini_chain.Base.Int.{ℤ, pos, ◌+ℤ◌, ◌-ℤ◌, int_laws}
use mini_chain.Base.Dict.{lookup, lookup-insert}
use mini_chain.Json.{obj, Fields, end, field}
use mini_chain.Platform.{Platform}
use mini_chain.Transaction.Parse.{get, chain_or_default}
use mini_chain.State.Accounts.{
  Account, Accounts, account_of, get_account, empty_account, state_root,
}
use mini_chain.State.Supply.{total, total-insert, total-get_account}
use mini_chain.State.Identity.{account_of-get_account}
use mini_chain.Block.{Block}
use mini_chain.Block.Parse.{target_of}
use mini_chain.Chain.{Float}
use mini_chain.Chain.Blockchain.{Blockchain}
use mini_chain.Chain.Genesis.{
  balance_of, set_balance, allocate, alloc_of, supply_differs, block_time_of, genesis_timestamp,
  genesis_block, founded, unless_refused, start_chain, create_genesis_block,
}

-- The keys of a JSON object differ.
abbrev pub Lacks : String → Fields → Type 0
Lacks a end = Unit
Lacks a (field b v fs) = (a ≢ b) × Lacks a fs

abbrev pub HasDistinctKeys : Fields → Type 0
HasDistinctKeys end = Unit
HasDistinctKeys (field a v fs) = Lacks a fs × HasDistinctKeys fs

-- None of these addresses has an account yet.
abbrev AreNew : Fields → Accounts → Type 0
AreNew end accs = Unit
AreNew (field a v fs) accs = (lookup a accs ≡ none) × AreNew fs accs

lookup-set_balance :
    (a b : String) (x : ℤ) (accs : Accounts)
    → b ≢ a
    → lookup b accs ≡ none
    → lookup b (set_balance a x accs) ≡ none
unfolding set_balance get_account
lookup-set_balance a b x accs ne new =
    let accs' = get_account a accs in
    ground (
      arith,
      lookup-insert a b (record (account_of a accs') { balance = x }) accs',
      lookup-insert a b empty_account accs,
    )

AreNew-set_balance :
    (a : String) (x : ℤ) (fs : Fields) (accs : Accounts)
    → Lacks a fs
    → AreNew fs accs
    → AreNew fs (set_balance a x accs)
AreNew-set_balance a x end accs lacks new = tt
AreNew-set_balance a x (field b v fs) accs (ne, lacks) (here, new) =
    (lookup-set_balance a b x accs (λ e. ne (sym e)) here, AreNew-set_balance a x fs accs lacks new)

total-set_balance :
    (a : String) (x : ℤ) (accs : Accounts)
    → lookup a accs ≡ none
    → total (set_balance a x accs) ≡ total accs +ℤ x
unfolding set_balance account_of
total-set_balance a x accs new =
    let accs' = get_account a accs in
    let blank : account_of a accs' ≡ empty_account =
      account_of-get_account a a accs
      ∙ ap (λ (o : Option Account). elim o [ none ↦ empty_account | some acc ↦ acc ]) new in
    rw total-insert (rw blank (rw total-get_account (omega int_laws)))

allocate-total :
    (fs : Fields) (sum : ℤ) (accs : Accounts) (s : ℤ) (accs' : Accounts)
    → HasDistinctKeys fs
    → AreNew fs accs
    → allocate fs sum accs ≡ some (s, accs')
    → total accs' ≡ total accs +ℤ s -ℤ sum
unfolding allocate
allocate-total end sum accs s accs' distinct new h =
    subst (λ (y : ℤ × Accounts). total y.1 ≡ total accs +ℤ y.0 -ℤ sum) (some-injective _ _ h)
      (omega int_laws)
allocate-total (field a v fs) sum accs s accs' (lacks, distinct) (here, new) h =
    let (x, _, h1) = then?-some (balance_of v) _ (s, accs') h in
    let rest =
      allocate-total fs (sum +ℤ x) (set_balance a x accs) s accs' distinct
        (AreNew-set_balance a x fs accs lacks new) h1 in
    rest ∙ rw (total-set_balance a x accs here) (omega int_laws)

AreNew-nil : (fs : Fields) → AreNew fs []
unfolding lookup
AreNew-nil end = tt
AreNew-nil (field a v fs) = (refl, AreNew-nil fs)

pub allocate_all-total :
    (fs : Fields) (s : ℤ) (accs : Accounts)
    → HasDistinctKeys fs
    → allocate fs (pos 0) [] ≡ some (s, accs)
    → total accs ≡ s
allocate_all-total fs s accs distinct h =
    allocate-total fs (pos 0) [] s accs distinct (AreNew-nil fs) h ∙ omega int_laws

module _ {F : Type 0} ⦃fl : Float F⦄ ⦃p : Platform⦄ where
  -- The object is founded on these accounts, and the supply of the file is their sum.
  abbrev pub Founded : Fields → ℤ × Accounts → Blockchain F → Type 0
  Founded fs (sum, accs) bc =
      (chain_id : String) × (block_time : ℕ) × (alpha : F) × (block : Block) × (supply_differs
          (get "initial_supply" fs) sum
        ≡ false)
      × (bc ≡ founded chain_id block_time alpha accs block)

  unless_refused-Founded :
      (fs : Fields) (allocated : ℤ × Accounts) (refused : Bool) (bc : Blockchain F)
      → Founded fs allocated bc
      → Holds (Founded fs allocated) (unless_refused refused bc)
  unless_refused-Founded fs allocated true bc f bc' h = cc
  unless_refused-Founded fs allocated false bc f bc' h =
      subst (Founded fs allocated) (some-injective _ _ h) f

  start_chain-Founded :
      (now : ℕ) (alpha : F) (fs : Fields) (allocated : ℤ × Accounts)
      → Holds (Founded fs allocated) (start_chain now alpha fs allocated)
  unfolding start_chain
  start_chain-Founded now alpha fs (sum, accs) =
      let Goal = Holds (Founded fs (sum, accs)) in
      if_intro Goal (supply_differs (get "initial_supply" fs) sum) (λ _ bc h. cc)
        (λ agreed. then?-Holds (chain_or_default (get "chain_id" fs)) (λ cid _.
          then?-Holds (target_of (get "target" fs)) (λ target _.
            then?-Holds (block_time_of (get "target_block_time" fs)) (λ bt _.
              then?-Holds (state_root accs) (λ root _.
                then?-Holds (genesis_timestamp now (get "timestamp" fs)) (λ ts _.
                  let block = genesis_block ts target root in
                  unless_refused-Founded fs (sum, accs) _ (founded cid bt alpha accs block)
                    (cid, bt, alpha, block, agreed, refl)))))))

  pub create_genesis_block-Founded :
      (now : ℕ) (alpha : F) (fs : Fields) (bc : Blockchain F)
      → create_genesis_block now alpha (obj fs) ≡ some bc
      → (alloc : Fields) × (allocated : ℤ × Accounts) × (alloc_of (get "alloc" fs) ≡ some alloc)
        × (allocate alloc (pos 0) [] ≡ some allocated)
        × Founded fs allocated bc
  unfolding create_genesis_block
  create_genesis_block-Founded now alpha fs bc h =
      let (alloc, e, h1) = then?-some (alloc_of (get "alloc" fs)) _ bc h in
      let (allocated, e1, h2) = then?-some (allocate alloc (pos 0) []) _ bc h1 in
      (alloc, allocated, e, e1, start_chain-Founded now alpha fs allocated bc h2)
