-- ===== src/Mempool/Refusals.antt =====
-- `add_transaction` of minichain/mempool.py leaves the queue alone where it answers no.
use mini_chain.Base.{
  ℕ, ◌≡◌, refl, false, Option, none, some, if_intro, Bool, true, leb, length, get_elem?,
}
use mini_chain.Platform.{Platform}
use mini_chain.Transaction.{Transaction, verify}
use mini_chain.Mempool.{Mempool, place, replaces, replace_at, add_scanned, add_transaction}

-- An answer of no comes with the mempool as it was.
abbrev pub Unless : Mempool → Bool × Mempool → Type 0
Unless pool (answer, pool') = answer ≡ false → pool' ≡ pool

module _ ⦃p : Platform⦄ where
  replace_at-refused :
      (tx : Transaction) (lo hi n : ℕ) (o : Option Transaction) (pool : Mempool)
      → Unless pool (replace_at tx lo hi n o pool)
  unfolding replace_at
  replace_at-refused tx lo hi n none pool = λ _. refl
  replace_at-refused tx lo hi n (some old) pool =
      if_intro (Unless pool) (replaces tx old) (λ _ e. cc) (λ _ _. refl)

  add_scanned-refused :
      (tx : Transaction) (lo hi : ℕ) (o : Option ℕ) (pool : Mempool)
      → Unless pool (add_scanned tx lo hi o pool)
  unfolding add_scanned
  add_scanned-refused tx lo hi none pool =
      if_intro (Unless pool) (leb pool.max_size (length pool.queue))
        {y = (true, record pool { queue = place tx lo hi pool.queue })} (λ _ _. refl) (λ _ e. cc)
  add_scanned-refused tx lo hi (some n) pool =
      replace_at-refused tx lo hi n (get_elem? pool.queue n) pool

  pub add_transaction-refused :
      (tx : Transaction) (pool : Mempool) → Unless pool (add_transaction tx pool)
  unfolding add_transaction
  add_transaction-refused tx pool =
      if_intro (Unless pool) (verify tx) (λ _. add_scanned-refused tx _ _ _ pool) (λ _ _. refl)
