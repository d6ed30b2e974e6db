-- ===== src/Mempool/Bounds.antt =====
-- What the operations of the mempool add, replace, remove and hand out.
use mathlib.Core.Path.{subst}
use mathlib.Core.List.{Perm, perm_middle}
use mathlib.Core.List.Perm
use mini_chain.Base.{
  ℕ, zero, suc, ◌≤◌, ◌<◌, ◌≡◌, refl, ◌∙◌, ◌⊎◌, inl, inr, Bool, true, false, not, str_eq, Option,
  none, some, List, [], ◌∷◌, ◌++◌, arith, if_intro, length, get_elem?, take, drop, insert_at,
  remove_at, All, leb, and_true, length-insert_at, length-remove_at, length-take-le,
  take-append-drop,
}
use mini_chain.Platform.{Platform}
use mini_chain.Transaction.{Transaction, tx_id, verify}
use mini_chain.Mempool.{
  Mempool, Scan, scan, place, shift_down, outbids, replaces, replace_at, add_scanned,
  add_transaction, get_transactions_for_block, has_key, without, remove_transactions,
}
use mini_chain.Mempool.Fees.{PaysMore, PaysMore_lem, not-leb}
use mini_chain.Mempool.Queue.{IsOrdered, Before, Distinct}
use mini_chain.Mempool.Scans.{HasKey, Found, scan-Found}

insert_at-perm :
    (n : ℕ) (tx : Transaction) (xs : List Transaction) → Perm (insert_at n tx xs) (tx ∷ xs)
insert_at-perm zero tx xs = Perm.refl (tx ∷ xs)
insert_at-perm (suc n) tx [] = Perm.refl (tx ∷ [])
insert_at-perm (suc n) tx (x ∷ xs) =
    Perm.trans (Perm.cons x (insert_at-perm n tx xs)) (Perm.swap tx x xs)

place-perm :
    (tx : Transaction) (lo hi : ℕ) (xs : List Transaction) → Perm (place tx lo hi xs) (tx ∷ xs)
unfolding place
place-perm tx lo hi xs = insert_at-perm _ tx xs

length-place :
    (tx : Transaction) (lo hi : ℕ) (xs : List Transaction)
    → length (place tx lo hi xs) ≡ suc (length xs)
unfolding place
length-place tx lo hi xs = length-insert_at _ tx xs

get_elem?-some :
    (n : ℕ) (xs : List Transaction) → n < length xs → (x : Transaction) × (get_elem? xs n ≡ some x)
get_elem?-some n [] h = absurd (omega arith)
get_elem?-some zero (x ∷ xs) h = (x, refl)
get_elem?-some (suc n) (x ∷ xs) h = get_elem?-some n xs (omega arith)

module _ ⦃p : Platform⦄ where
  -- The three ways in which an addition ends.
  unfoldable pub Outcome : Transaction → Mempool → Bool × Mempool → Type 0
  Outcome tx pool (done, pool') =
      (done ≡ false) × (pool' ≡ pool)
      ⊎ (done ≡ true)
        × All (Distinct tx) pool.queue
        × (length pool.queue < pool.max_size)
        × Perm pool'.queue (tx ∷ pool.queue)
      ⊎ (done ≡ true)
        × ((n : ℕ) × (old : Transaction) × (get_elem? pool.queue n ≡ some old)
            × (old.sender ≡ tx.sender)
            × (old.nonce ≡ tx.nonce)
            × All (Distinct tx) (remove_at n pool.queue)
            × (old.timestamp < tx.timestamp)
            × PaysMore tx old
            × Perm pool'.queue (tx ∷ remove_at n pool.queue))

  replaces_terms :
      (tx old : Transaction)
      → replaces tx old ≡ true
      → (old.timestamp < tx.timestamp) × PaysMore tx old
  unfolding replaces
  replaces_terms tx old h =
      let rest = (and_true (not (str_eq (tx_id old) (tx_id tx))) _ h).1 in
      let (later, more) = and_true (not (leb tx.timestamp old.timestamp)) (outbids tx old) rest in
      (not-leb tx.timestamp old.timestamp later, PaysMore_lem tx old more)

  replace_at-Outcome :
      (tx : Transaction) (lo hi n : ℕ) (o : Option Transaction) (pool : Mempool)
      → get_elem? pool.queue n ≡ o
      → HasKey tx o
      → All (Distinct tx) (remove_at n pool.queue)
      → Outcome tx pool (replace_at tx lo hi n o pool)
  unfolding replace_at Outcome HasKey
  replace_at-Outcome tx lo hi n none pool there key d = inl (refl, refl)
  replace_at-Outcome tx lo hi n (some old) pool there (sender, nonce) d =
      if_intro (Outcome tx pool) (replaces tx old)
        (λ wins.
          let (later, higher) = replaces_terms tx old wins in
          inr (
            inr (
              refl,
              (
                n,
                old,
                there,
                sender,
                nonce,
                d,
                later,
                higher,
                place-perm tx (shift_down n lo) (shift_down n hi) (remove_at n pool.queue),
              ),
            )))
        (λ _. inl (refl, refl))

  add_scanned-Outcome :
      (tx : Transaction) (lo hi : ℕ) (found : Option ℕ) (pool : Mempool)
      → Found tx 0 pool.queue found
      → Outcome tx pool (add_scanned tx lo hi found pool)
  unfolding add_scanned Found Outcome
  add_scanned-Outcome tx lo hi none pool d =
      if_intro (Outcome tx pool) (leb pool.max_size (length pool.queue)) (λ _. inl (refl, refl))
        (λ room. inr (inl (refl, d, ground arith, place-perm tx lo hi pool.queue)))
  add_scanned-Outcome tx lo hi (some idx) pool (n, at, lt, key, d) =
      let at' : n ≡ idx = omega (arith, at) in
      subst (λ m. Outcome tx pool (replace_at tx lo hi m (get_elem? pool.queue m) pool)) at'
        (replace_at-Outcome tx lo hi n (get_elem? pool.queue n) pool refl key d)

  -- An addition to an ordered queue is refused and changes nothing; or it adds the transaction to a
  -- queue that is not full and has none of its sender and nonce; or it takes the place of the one of
  -- its sender and nonce, which is older and whose fee times the float 1.1 is below the new one: by more
  -- than a tenth of it, if it is from 0 to below 2^52.
  pub add_transaction-Outcome :
      (tx : Transaction) (pool : Mempool)
      → IsOrdered pool.queue
      → Outcome tx pool (add_transaction tx pool)
  unfolding add_transaction Outcome
  add_transaction-Outcome tx pool o =
      let begin : Scan = record { existing = none; i_min = 0; i_max = length pool.queue } in
      let s = scan tx 0 pool.queue begin in
      if_intro (Outcome tx pool) (verify tx)
        (λ _.
          add_scanned-Outcome tx s.i_min s.i_max s.existing pool
            (scan-Found tx 0 pool.queue begin refl o))
        (λ _. inl (refl, refl))

  replace_at-size :
      (tx : Transaction) (lo hi n : ℕ) (o : Option Transaction) (pool : Mempool)
      → get_elem? pool.queue n ≡ o
      → length (replace_at tx lo hi n o pool).1.queue ≡ length pool.queue
  unfolding replace_at
  replace_at-size tx lo hi n none pool there = refl
  replace_at-size tx lo hi n (some old) pool there =
      if_intro (λ (r : Bool × Mempool). length r.1.queue ≡ length pool.queue) (replaces tx old)
        (λ _.
          length-place tx _ _ (remove_at n pool.queue)
          ∙ length-remove_at n pool.queue (in_range n pool.queue old there))
        (λ _. refl)
    where
      in_range :
          (k : ℕ) (xs : List Transaction) (x : Transaction)
          → get_elem? xs k ≡ some x
          → k < length xs
      in_range k [] x e = cc
      in_range zero (y ∷ xs) x e = omega arith
      in_range (suc k) (y ∷ xs) x e = omega (arith, in_range k xs x e)

  add_scanned-size :
      (tx : Transaction) (lo hi : ℕ) (found : Option ℕ) (pool : Mempool)
      → length pool.queue ≤ pool.max_size
      → length (add_scanned tx lo hi found pool).1.queue ≤ pool.max_size
  unfolding add_scanned
  add_scanned-size tx lo hi none pool h = ground (arith, length-place tx lo hi pool.queue)
  add_scanned-size tx lo hi (some idx) pool h =
      omega (arith, replace_at-size tx lo hi idx (get_elem? pool.queue idx) pool refl)

  -- A queue within its size stays within it.
  pub add_transaction-size :
      (tx : Transaction) (pool : Mempool)
      → length pool.queue ≤ pool.max_size
      → length (add_transaction tx pool).1.queue ≤ pool.max_size
  unfolding add_transaction
  add_transaction-size tx pool h =
      if_intro (λ (r : Bool × Mempool). length r.1.queue ≤ pool.max_size) (verify tx)
        (λ _. add_scanned-size tx _ _ _ pool h) (λ _. h)

-- No entry that remains has the sender and nonce of a removed transaction, and no other entry is
-- lost: the kept and the dropped entries together are the queue.
pub remove_transactions_lem :
    (ts : List Transaction) (pool : Mempool)
    → All (λ e. has_key e ts ≡ false) (remove_transactions ts pool).queue
      × ((dropped : List Transaction) × All (λ e. has_key e ts ≡ true) dropped
          × Perm ((remove_transactions ts pool).queue ++ dropped) pool.queue)
unfolding remove_transactions
remove_transactions_lem ts pool = (kept pool.queue, lost pool.queue)
  where
    kept : (xs : List Transaction) → All (λ e. has_key e ts ≡ false) (without ts xs)
    kept [] = tt
    kept (x ∷ xs) =
        if_intro (All (λ e. has_key e ts ≡ false)) (has_key x ts) (λ _. kept xs)
          (λ other. (other, kept xs))

    lost :
        (xs : List Transaction)
        → (dropped : List Transaction) × All (λ e. has_key e ts ≡ true) dropped
          × Perm (without ts xs ++ dropped) xs
    lost [] = ([], tt, Perm.refl [])
    lost (x ∷ xs) =
        let (ds, keyed, same) = lost xs in
        if_intro
          (λ (rest : List Transaction).
            (dropped : List Transaction) × All (λ e. has_key e ts ≡ true) dropped
            × Perm (rest ++ dropped) (x ∷ xs))
          (has_key x ts)
          (λ has.
            (x ∷ ds, (has, keyed), Perm.trans (perm_middle (without ts xs) ds) (Perm.cons x same)))
          (λ _. (ds, keyed, Perm.cons x same))

-- The transactions for a block are the front of the queue, no more than the limit, and in an order
-- in which each sender's nonces rise.
pub get_transactions_for_block_lem :
    (pool : Mempool)
    → IsOrdered pool.queue
    → let txs = get_transactions_for_block pool in
      (length txs ≤ pool.transactions_per_block)
      × (txs ++ drop pool.transactions_per_block pool.queue ≡ pool.queue)
      × IsOrdered txs
unfolding get_transactions_for_block
get_transactions_for_block_lem pool o = (
  length-take-le pool.transactions_per_block pool.queue,
  take-append-drop pool.transactions_per_block pool.queue,
  take-IsOrdered pool.transactions_per_block pool.queue o,
)
  where
    take-All :
        (P : Transaction → Type 0) (n : ℕ) (xs : List Transaction) → All P xs → All P (take n xs)
    take-All P zero xs h = tt
    take-All P (suc n) [] h = tt
    take-All P (suc n) (x ∷ xs) h = (h.0, take-All P n xs h.1)

    take-IsOrdered : (n : ℕ) (xs : List Transaction) → IsOrdered xs → IsOrdered (take n xs)
    take-IsOrdered zero xs h = tt
    take-IsOrdered (suc n) [] h = tt
    take-IsOrdered (suc n) (x ∷ xs) h = (take-All (Before x) n xs h.0, take-IsOrdered n xs h.1)
