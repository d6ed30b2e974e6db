-- ===== src/Node/Pool.antt =====
-- The mempool of a node stays ordered and within its size.
use mini_chain.Base.{
  ℕ, ◌≤◌, ◌≡◌, refl, sym, Bool, Option, none, some, List, [], ◌∷◌, arith, if_intro, length,
}
use mathlib.Core.Path.{subst}
use mini_chain.Platform.{Platform}
use mini_chain.Transaction.{Transaction, verify}
use mini_chain.Mempool.{
  Mempool, without, replaces, replace_at, add_scanned, add_transaction, remove_transactions,
}
use mini_chain.Mempool.Queue.{IsOrdered}
use mini_chain.Mempool.Order.{add_transaction-IsOrdered, remove_transactions-IsOrdered}
use mini_chain.Mempool.Bounds.{add_transaction-size}
use mini_chain.Node.Mining.{add_all, drop_stale}

-- An ordered queue within its size.
abbrev pub IsPool : Mempool → Type 0
IsPool pool = IsOrdered pool.queue × (length pool.queue ≤ pool.max_size)

length-without : (ts xs : List Transaction) → length (without ts xs) ≤ length xs
unfolding without
length-without ts [] = omega arith
length-without ts (x ∷ xs) = ground (arith, length-without ts xs)

pub remove_transactions-IsPool :
    (ts : List Transaction) (pool : Mempool) → IsPool pool → IsPool (remove_transactions ts pool)
unfolding remove_transactions
remove_transactions-IsPool ts pool (ordered, small) =
    (remove_transactions-IsOrdered ts pool ordered, omega (arith, length-without ts pool.queue))

module _ ⦃p : Platform⦄ where
  replace_at-max_size :
      (tx : Transaction) (lo hi n : ℕ) (o : Option Transaction) (pool : Mempool)
      → (replace_at tx lo hi n o pool).1.max_size ≡ pool.max_size
  unfolding replace_at
  replace_at-max_size tx lo hi n none pool = refl
  replace_at-max_size tx lo hi n (some old) pool =
      if_intro (λ (r : Bool × Mempool). r.1.max_size ≡ pool.max_size) (replaces tx old) (λ _. refl)
        (λ _. refl)

  add_scanned-max_size :
      (tx : Transaction) (lo hi : ℕ) (o : Option ℕ) (pool : Mempool)
      → (add_scanned tx lo hi o pool).1.max_size ≡ pool.max_size
  unfolding add_scanned
  add_scanned-max_size tx lo hi none pool = ground arith
  add_scanned-max_size tx lo hi (some n) pool = replace_at-max_size tx lo hi n _ pool

  add_transaction-max_size :
      (tx : Transaction) (pool : Mempool) → (add_transaction tx pool).1.max_size ≡ pool.max_size
  unfolding add_transaction
  add_transaction-max_size tx pool =
      if_intro (λ (r : Bool × Mempool). r.1.max_size ≡ pool.max_size) (verify tx)
        (λ _. add_scanned-max_size tx _ _ _ pool) (λ _. refl)

  pub add_transaction-IsPool :
      (tx : Transaction) (pool : Mempool) → IsPool pool → IsPool (add_transaction tx pool).1
  add_transaction-IsPool tx pool (ordered, small) = (
    add_transaction-IsOrdered tx pool ordered,
    subst (λ n. length (add_transaction tx pool).1.queue ≤ n)
        (sym (add_transaction-max_size tx pool)) (add_transaction-size tx pool small),
  )

  pub add_all-IsPool :
      (txs : List Transaction) (pool : Mempool) → IsPool pool → IsPool (add_all txs pool)
  unfolding add_all
  add_all-IsPool [] pool ok = ok
  add_all-IsPool (tx ∷ txs) pool ok =
      add_all-IsPool txs (add_transaction tx pool).1 (add_transaction-IsPool tx pool ok)

  pub drop_stale-IsPool :
      (txs : List Transaction) (pool : Mempool) → IsPool pool → IsPool (drop_stale txs pool)
  drop_stale-IsPool [] pool ok = ok
  drop_stale-IsPool (tx ∷ txs) pool ok = remove_transactions-IsPool (tx ∷ txs) pool ok
