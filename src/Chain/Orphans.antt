-- ===== src/Chain/Orphans.antt =====
-- About the transactions that `resolve_conflicts` of minichain/chain.py returns: those of the old chain that
-- are not on the new one.
use mathlib.Core.Path.{subst}
use mini_chain.Base.{
  String, ◌≡◌, ◌≢◌, str_eq_refl, ◌⊎◌, inl, inr, refl, sym, ◌∙◌, ap, Bool, true, false, none, some,
  List, [], ◌∷◌, ◌++◌, drop, ◌||◌, All, str_eq, if_intro, Bool-cases, if◌then◌else◌, arith,
}
use mini_chain.Base.Dict.{Dict, contains, lookup, insert, lookup-insert}
use mini_chain.Platform.{Platform}
use mini_chain.Transaction.{Transaction, tx_id}
use mini_chain.Block.{Block}
use mini_chain.Chain.Blockchain.{index_txs, txs_by_id, without_ids, orphans}

-- The element stands in the list.
unfoldable pub In : {A : Type 0} → A → List A → Type 0
In x [] = ⊥
In x (y ∷ ys) = (x ≡ y) ⊎ In x ys

All-map {ℓ κ μ} :
    {A : Type ℓ} (P : A → Type κ) (Q : A → Type μ) (xs : List A)
    → ((x : A) → P x → Q x)
    → All P xs
    → All Q xs
All-map P Q [] f h = tt
All-map P Q (x ∷ xs) f (first, rest) = (f x first, All-map P Q xs f rest)

pub All-In : {A : Type 0} (xs : List A) → All (λ x. In x xs) xs
unfolding In
All-In [] = tt
All-In (x ∷ xs) = (inl refl, All-map (λ y. In y xs) (λ y. In y (x ∷ xs)) xs (λ y. inr) (All-In xs))

-- The transactions of these blocks, in order.
unfoldable pub txs_of : List Block → List Transaction
txs_of [] = []
txs_of (b ∷ bs) = b.transactions ++ txs_of bs

All-parts {ℓ κ} :
    {A : Type ℓ} (P : A → Type κ) (xs ys : List A) → All P (xs ++ ys) → All P xs × All P ys
All-parts P [] ys h = (tt, h)
All-parts P (x ∷ xs) ys (first, rest) = let (a, b) = All-parts P xs ys rest in ((first, a), b)

str_eq→≡ : (s t : String) → str_eq s t ≡ true → s ≡ t
str_eq→≡ s t h = ground arith

true≢false : true ≢ false
true≢false h = cc

still_there :
    (i j : String) (tx : Transaction) (d : Dict Transaction)
    → str_eq j i ≡ false
    → contains i ((j, tx) ∷ d) ≡ true
    → contains i d ≡ true
unfolding lookup
still_there i j tx d other h =
    subst
      (λ b.
        (elim (if b then some tx else lookup i d) as (λ _. Bool) [ none ↦ false | some _ ↦ true ])
        ≡ true)
      other h

module _ ⦃p : Platform⦄ where
  -- Whether one of them has this id.
  unfoldable pub has_id : String → List Transaction → Bool
  has_id i [] = false
  has_id i (tx ∷ txs) = let rest = has_id i txs in if str_eq (tx_id tx) i then true else rest

  has_id-append :
      (i : String) (xs ys : List Transaction) → has_id i (xs ++ ys) ≡ (has_id i xs || has_id i ys)
  unfolding has_id
  has_id-append i [] ys = refl
  has_id-append i (x ∷ xs) ys = ground (arith, has_id-append i xs ys)

  contains-insert :
      (i k : String) (tx : Transaction) (d : Dict Transaction)
      → contains i (insert k tx d) ≡ (if str_eq k i then true else contains i d)
  contains-insert i k tx d =
      ap (λ o. elim o as (λ _. Bool) [ none ↦ false | some _ ↦ true ]) (lookup-insert k i tx d)
      ∙ (elim (Bool-cases (str_eq k i)) [ inl same ↦ rw same refl | inr other ↦ rw other refl ])

  index_txs-contains :
      (i : String) (txs : List Transaction) (d : Dict Transaction)
      → contains i (index_txs txs d) ≡ (has_id i txs || contains i d)
  unfolding index_txs has_id
  index_txs-contains i [] d = refl
  index_txs-contains i (tx ∷ txs) d =
      index_txs-contains i txs (insert (tx_id tx) tx d)
      ∙ rw (contains-insert i (tx_id tx) tx d) (ground arith)

  txs_by_id-contains :
      (i : String) (bs : List Block) (d : Dict Transaction)
      → contains i (txs_by_id bs d) ≡ (has_id i (txs_of bs) || contains i d)
  unfolding txs_by_id txs_of has_id
  txs_by_id-contains i [] d = refl
  txs_by_id-contains i (b ∷ bs) d =
      txs_by_id-contains i bs (index_txs b.transactions d)
      ∙ rw (index_txs-contains i b.transactions d, has_id-append i b.transactions (txs_of bs))
          (ground arith)

  -- Every entry stands under its id, and has the property.
  module _ (P : Transaction → Type 0) where
    abbrev Keyed : Dict Transaction → Type 0
    Keyed d = All (λ (e : String × Transaction). (e.0 ≡ tx_id e.1) × P e.1) d

    insert-Keyed :
        (tx : Transaction) (d : Dict Transaction) → P tx → Keyed d → Keyed (insert (tx_id tx) tx d)
    unfolding insert
    insert-Keyed tx [] new h = ((refl, new), tt)
    insert-Keyed tx ((j, old) ∷ d) new ((key, first), rest) =
        if_intro Keyed (str_eq j (tx_id tx)) (λ same. ((ground arith, new), rest))
          (λ _. ((key, first), insert-Keyed tx d new rest))

    index_txs-Keyed :
        (txs : List Transaction) (d : Dict Transaction)
        → All P txs
        → Keyed d
        → Keyed (index_txs txs d)
    unfolding index_txs
    index_txs-Keyed [] d new h = h
    index_txs-Keyed (tx ∷ txs) d (first, rest) h =
        index_txs-Keyed txs (insert (tx_id tx) tx d) rest (insert-Keyed tx d first h)

    txs_by_id-Keyed :
        (bs : List Block) (d : Dict Transaction)
        → All P (txs_of bs)
        → Keyed d
        → Keyed (txs_by_id bs d)
    unfolding txs_by_id txs_of
    txs_by_id-Keyed [] d new h = h
    txs_by_id-Keyed (b ∷ bs) d new h =
        let (here, later) = All-parts P b.transactions (txs_of bs) new in
        txs_by_id-Keyed bs (index_txs b.transactions d) later
          (index_txs-Keyed b.transactions d here h)

    without_ids-All :
        (new old : Dict Transaction)
        → Keyed old
        → All (λ tx. P tx × (contains (tx_id tx) new ≡ false)) (without_ids new old)
    unfolding without_ids
    without_ids-All new [] h = tt
    without_ids-All new ((i, tx) ∷ old) ((key, has), rest) =
        if_intro (All (λ tx. P tx × (contains (tx_id tx) new ≡ false))) (contains i new)
          (λ _. without_ids-All new old rest)
          (λ gone.
            ((has, subst (λ k. contains k new ≡ false) key gone), without_ids-All new old rest))

    without_ids-has_id :
        (i : String) (new old : Dict Transaction)
        → Keyed old
        → contains i old ≡ true
        → contains i new ≡ false
        → has_id i (without_ids new old) ≡ true
    unfolding without_ids has_id lookup
    without_ids-has_id i new [] h there gone = cc
    without_ids-has_id i new ((j, tx) ∷ old) ((key, _), rest) there gone =
        elim (Bool-cases (str_eq j i)) [
          | inl same ↦
              let same_key = str_eq→≡ j i same in
              let not_new = subst (λ k. contains k new ≡ false) (sym same_key) gone in
              if_intro (λ txs. has_id i txs ≡ true) (contains j new)
                (λ on. absurd (true≢false (sym on ∙ not_new)))
                (λ _. rw (sym key ∙ same_key) (rw (str_eq_refl i) refl))
          | inr other ↦
              let later =
                without_ids-has_id i new old rest (still_there i j tx old other there) gone in
              if_intro (λ txs. has_id i txs ≡ true) (contains j new) (λ _. later)
                (λ _. if_intro (λ b. b ≡ true) (str_eq (tx_id tx) i) (λ _. refl) (λ _. later))
        ]

  -- These are transactions of the old chain, none of which is on the new one; and each id of the old
  -- chain that is not on the new one is among theirs.
  pub record AreOrphans (old new : List Block) (orphaned : List Transaction) : Type 0 where
    pub gone :
        All
          (λ tx. In tx (txs_of (drop 1 old)) × (has_id (tx_id tx) (txs_of (drop 1 new)) ≡ false))
          orphaned
    pub every :
        (i : String)
        → has_id i (txs_of (drop 1 old)) ≡ true
        → has_id i (txs_of (drop 1 new)) ≡ false
        → has_id i orphaned ≡ true

  contains-false :
      (i : String) (bs : List Block) → contains i (txs_by_id bs []) ≡ has_id i (txs_of bs)
  unfolding lookup
  contains-false i bs = txs_by_id-contains i bs [] ∙ ground arith

  pub orphans-AreOrphans : (old new : List Block) → AreOrphans old new (orphans old new)
  unfolding orphans
  orphans-AreOrphans old new =
      let txs = txs_of (drop 1 old) in
      let keyed = txs_by_id-Keyed (λ tx. In tx txs) (drop 1 old) [] (All-In txs) tt in
      record {
        gone =
            All-map (λ tx. In tx txs × (contains (tx_id tx) (txs_by_id (drop 1 new) []) ≡ false))
              (λ tx. In tx txs × (has_id (tx_id tx) (txs_of (drop 1 new)) ≡ false)) _
              (λ tx (old_one, away). (old_one, sym (contains-false (tx_id tx) (drop 1 new)) ∙ away))
              (without_ids-All (λ tx. In tx txs) (txs_by_id (drop 1 new) [])
                (txs_by_id (drop 1 old) []) keyed);
        every = λ i was away.
            without_ids-has_id (λ tx. In tx txs) i (txs_by_id (drop 1 new) [])
              (txs_by_id (drop 1 old) []) keyed (contains-false i (drop 1 old) ∙ was)
              (contains-false i (drop 1 new) ∙ away);
      }
