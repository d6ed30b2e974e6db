-- ===== src/Mempool/Order.antt =====
-- The order of the queue: for each sender the nonces rise strictly from the front to the back.
use Prim.Native.Nat.{min}
use mathlib.Core.Path.{subst}
use mini_chain.Base.{
  ℕ, zero, suc, ◌+◌, ◌-◌, ◌≤◌, ◌<◌, ◌≡◌, ◌≢◌, refl, sym, inl, Bool, Option, none, some, List, [],
  ◌∷◌, arith, if_intro, length, get_elem?, drop, remove_at, All, AllFrom, leb,
}
use mini_chain.Platform.{Platform}
use mini_chain.Transaction.{Transaction, verify}
use mini_chain.Mempool.{
  Mempool, Scan, scan, seek, place, shift_down, replaces, replace_at, add_scanned, add_transaction,
  has_key, without, remove_transactions,
}
use mini_chain.Mempool.Queue.{
  Before, IsOrdered, Fits, insert_at-IsOrdered, remove_at-IsOrdered, Placed, Distinct,
}
use mini_chain.Mempool.Scans.{scan-bounds, Found, scan-Found}

-- The search ends between the two bounds.
seek-bounds :
    (tx : Transaction) (hi rounds j : ℕ) (es : List Transaction)
    → j + rounds ≡ hi
    → (j ≤ seek tx hi rounds j es) × (seek tx hi rounds j es ≤ hi)
unfolding seek
seek-bounds tx hi zero j es h = (omega arith, omega arith)
seek-bounds tx hi (suc rounds) j [] h = (omega arith, omega arith)
seek-bounds tx hi (suc rounds) j (e ∷ es) h =
    let (low, high) = seek-bounds tx hi rounds (suc j) es (omega arith) in ground (arith, low, high)

Fits-between :
    (tx : Transaction) (lo hi n i : ℕ) (xs : List Transaction)
    → lo ≤ n
    → n ≤ hi
    → AllFrom (Placed tx lo hi) i xs
    → All (Distinct tx) xs
    → AllFrom (Fits tx n) i xs
unfolding Placed Fits
Fits-between tx lo hi n i [] p q f d = tt
Fits-between tx lo hi n i (x ∷ xs) p q f d = (
  (
    λ before same.
        nonce_lt x.nonce tx.nonce (d.0 same) (λ gt. omega (arith, before, q, (f.0 same).1 gt)),
    λ behind same.
        nonce_lt tx.nonce x.nonce (λ e. d.0 (sym same) (sym e))
          (λ lt. omega (arith, behind, p, (f.0 (sym same)).0 lt)),
  ),
  Fits-between tx lo hi n (suc i) xs p q f.1 d.1,
)
  where
    nonce_lt : (a b : ℕ) → a ≢ b → ¬ (b < a) → a < b
    nonce_lt a b ne ge = omega (arith, ne, ge)

place-IsOrdered :
    (tx : Transaction) (lo hi : ℕ) (xs : List Transaction)
    → lo ≤ hi
    → AllFrom (Placed tx lo hi) 0 xs
    → All (Distinct tx) xs
    → IsOrdered xs
    → IsOrdered (place tx lo hi xs)
unfolding place
place-IsOrdered tx lo hi xs le f d o =
    let start = min lo hi in
    let n = seek tx hi (hi - start) start (drop start xs) in
    let (low, high) = seek-bounds tx hi (hi - start) start (drop start xs) (omega arith) in
    insert_at-IsOrdered 0 n tx xs
      (subst (λ m. AllFrom (Fits tx m) 0 xs) (omega arith)
        (Fits-between tx lo hi n 0 xs (omega (arith, low, le)) high f d))
      o

Placed-later :
    (tx : Transaction) (lo hi idx i : ℕ) (xs : List Transaction)
    → idx ≤ i
    → AllFrom (Placed tx lo hi) (suc i) xs
    → AllFrom (Placed tx (shift_down idx lo) (shift_down idx hi)) i xs
unfolding Placed
Placed-later tx lo hi idx i [] le f = tt
Placed-later tx lo hi idx i (x ∷ xs) le f = (
  λ same. (λ lt. ground (arith, (f.0 same).0 lt), λ gt. ground (arith, (f.0 same).1 gt)),
  Placed-later tx lo hi idx (suc i) xs (omega arith) f.1,
)

Placed-remove_at :
    (tx : Transaction) (lo hi i n : ℕ) (xs : List Transaction)
    → AllFrom (Placed tx lo hi) i xs
    → AllFrom (Placed tx (shift_down (i + n) lo) (shift_down (i + n) hi)) i (remove_at n xs)
unfolding Placed
Placed-remove_at tx lo hi i n [] f = tt
Placed-remove_at tx lo hi i zero (x ∷ xs) f = Placed-later tx lo hi (i + 0) i xs (omega arith) f.1
Placed-remove_at tx lo hi i (suc n) (x ∷ xs) f = (
  λ same. (λ lt. ground (arith, (f.0 same).0 lt), λ gt. ground (arith, (f.0 same).1 gt)),
  subst (λ m. AllFrom (Placed tx (shift_down m lo) (shift_down m hi)) (suc i) (remove_at n xs))
      (omega arith) (Placed-remove_at tx lo hi (suc i) n xs f.1),
)

module _ ⦃p : Platform⦄ where
  replace_at-IsOrdered :
      (tx : Transaction) (lo hi idx : ℕ) (old : Option Transaction) (pool : Mempool)
      → IsOrdered pool.queue
      → lo ≤ hi
      → AllFrom (Placed tx lo hi) 0 pool.queue
      → Found tx 0 pool.queue (some idx)
      → IsOrdered (replace_at tx lo hi idx old pool).1.queue
  unfolding replace_at Found
  replace_at-IsOrdered tx lo hi idx none pool o le f found = o
  replace_at-IsOrdered tx lo hi idx (some old) pool o le f (n, at, lt, key, d) =
      let at' : idx ≡ n = omega (arith, at) in
      let from_zero : 0 + n ≡ n = omega arith in
      let moved =
        subst
          (λ m. AllFrom (Placed tx (shift_down m lo) (shift_down m hi)) 0 (remove_at n pool.queue))
          from_zero (Placed-remove_at tx lo hi 0 n pool.queue f) in
      if_intro (λ (r : Bool × Mempool). IsOrdered r.1.queue) (replaces tx old)
        (λ _. rw at' (
          place-IsOrdered tx (shift_down n lo) (shift_down n hi) (remove_at n pool.queue)
            (ground (arith, le)) moved d (remove_at-IsOrdered n pool.queue o)))
        (λ _. o)

  add_scanned-IsOrdered :
      (tx : Transaction) (lo hi : ℕ) (found : Option ℕ) (pool : Mempool)
      → IsOrdered pool.queue
      → lo ≤ hi
      → AllFrom (Placed tx lo hi) 0 pool.queue
      → Found tx 0 pool.queue found
      → IsOrdered (add_scanned tx lo hi found pool).1.queue
  unfolding add_scanned Found
  add_scanned-IsOrdered tx lo hi none pool o le f d =
      if_intro (λ (r : Bool × Mempool). IsOrdered r.1.queue) (leb pool.max_size (length pool.queue))
        (λ _. o) (λ _. place-IsOrdered tx lo hi pool.queue le f d o)
  add_scanned-IsOrdered tx lo hi (some idx) pool o le f found =
      replace_at-IsOrdered tx lo hi idx (get_elem? pool.queue idx) pool o le f found

  -- `add_transaction`, whether it appends, inserts, replaces or refuses, keeps the nonces of each
  -- sender strictly rising from the front of the queue to its back; so no sender has two pending
  -- transactions with one nonce.
  pub add_transaction-IsOrdered :
      (tx : Transaction) (pool : Mempool)
      → IsOrdered pool.queue
      → IsOrdered (add_transaction tx pool).1.queue
  unfolding add_transaction
  add_transaction-IsOrdered tx pool o =
      let begin : Scan = record { existing = none; i_min = 0; i_max = length pool.queue } in
      let (le, _, _, f) =
        scan-bounds tx 0 pool.queue begin o
          (record { behind = omega arith; ordered = omega arith; ahead = inl (omega arith) }) in
      if_intro (λ (r : Bool × Mempool). IsOrdered r.1.queue) (verify tx)
        (λ _.
          add_scanned-IsOrdered tx (scan tx 0 pool.queue begin).i_min
            (scan tx 0 pool.queue begin).i_max (scan tx 0 pool.queue begin).existing pool o le f
            (scan-Found tx 0 pool.queue begin refl o))
        (λ _. o)

without-All :
    (P : Transaction → Type 0) (ts xs : List Transaction) → All P xs → All P (without ts xs)
unfolding without
without-All P ts [] h = tt
without-All P ts (x ∷ xs) h = ground (arith, without-All P ts xs h.1)

-- Removing transactions keeps the order.
pub remove_transactions-IsOrdered :
    (ts : List Transaction) (pool : Mempool)
    → IsOrdered pool.queue
    → IsOrdered (remove_transactions ts pool).queue
unfolding remove_transactions
remove_transactions-IsOrdered ts pool o = ordered ts pool.queue o
  where
    ordered : (us xs : List Transaction) → IsOrdered xs → IsOrdered (without us xs)
    ordered us [] h = tt
    ordered us (x ∷ xs) h =
        if_intro IsOrdered (has_key x us) (λ _. ordered us xs h.1)
          (λ _. (without-All (Before x) us xs h.0, ordered us xs h.1))
