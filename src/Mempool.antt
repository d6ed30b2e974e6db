-- ===== src/Mempool.antt =====
-- minichain/mempool.py: the queue of pending transactions, kept by fee, and by nonce for each sender.
-- The lock makes each method one step. The test `new_fee <= old_fee * 1.1` is the one of floats
-- (Base/Double); a fee of 2^1024 or more, from which Python makes no float, is not modelled.
pub mod Queue
pub mod Scans
pub mod Order
mod Fees
pub mod Bounds
pub mod Refusals
mod Tests
use mini_chain.Base.{
  ℕ, zero, suc, ◌+◌, ◌-◌, String, Bool, true, false, not, Option, none, some, List, [], ◌∷◌, ◌&&◌,
  ltb, leb, ◌==◌, if◌then◌else◌, length, get_elem?, take, drop, insert_at, remove_at, str_eq,
}
use mini_chain.Base.Double.{exceeds_1_1}
use mini_chain.Base.Int.{ℤ, pos, ltb_ℤ, ◌*ℤ◌}
use mini_chain.Platform.{Platform}
use mini_chain.Transaction.{Transaction, tx_id, verify}
use Prim.Native.Nat.{min, max}

pub record Mempool : Type 0 where
  pub queue : List Transaction
  pub max_size : ℕ
  pub transactions_per_block : ℕ

-- `existing_idx`, `i_min` and `i_max`.
pub record Scan : Type 0 where
  pub existing : Option ℕ
  pub i_min : ℕ
  pub i_max : ℕ

-- The body of the loop, at position `i`.
unfoldable pub scan_step : Transaction → ℕ → Transaction → Scan → Scan
scan_step tx i e s =
    if str_eq e.sender tx.sender
    then if e.nonce == tx.nonce
      then record s { existing = some i }
      else if ltb e.nonce tx.nonce
      then record s { i_min = max s.i_min (i + 1) }
      else record s { i_max = min s.i_max i }
    else s

unfoldable pub scan : Transaction → ℕ → List Transaction → Scan → Scan
scan tx i [] s = s
scan tx i (e ∷ es) s = scan tx (suc i) es (scan_step tx i e s)

-- The first position from `j` on, for so many rounds, with a lower fee; otherwise `i_max`.
unfoldable pub seek : Transaction → ℕ → ℕ → ℕ → List Transaction → ℕ
seek tx i_max zero j es = i_max
seek tx i_max (suc rounds) j [] = i_max
seek tx i_max (suc rounds) j (e ∷ es) =
    let rest = seek tx i_max rounds (suc j) es in
    if ltb_ℤ e.fee_per_gas tx.fee_per_gas then j else rest

-- `i_min = min(i_min, i_max)`, the search and the insertion.
unfoldable pub place : Transaction → ℕ → ℕ → List Transaction → List Transaction
place tx i_min i_max q =
    let lo = min i_min i_max in insert_at (seek tx i_max (i_max - lo) lo (drop lo q)) tx q

-- Whether `new_fee > old_fee * 1.1`.
unfoldable pub outbids : Transaction → Transaction → Bool
outbids tx old = exceeds_1_1 old.fee_per_gas tx.fee_per_gas

abbrev pub shift_down : ℕ → ℕ → ℕ
shift_down idx i = if ltb idx i then i - 1 else i

module _ ⦃p : Platform⦄ where
  -- Whether the pending transaction with the same sender and nonce gives way.
  unfoldable pub replaces : Transaction → Transaction → Bool
  unfolding outbids
  replaces tx old =
      not (str_eq (tx_id old) (tx_id tx))
      && (not (leb tx.timestamp old.timestamp) && outbids tx old)

  -- The replacement of the pending transaction at `existing_idx`, if it gives way.
  unfoldable pub replace_at :
      Transaction → ℕ → ℕ → ℕ → Option Transaction → Mempool → Bool × Mempool
  replace_at tx i_min i_max idx none pool = (false, pool)
  replace_at tx i_min i_max idx (some old) pool =
      if replaces tx old
      then (
        true,
        record pool {
          queue = place tx (shift_down idx i_min) (shift_down idx i_max) (remove_at idx pool.queue);
        },
      )
      else (false, pool)

  -- `add_transaction` after the scan, by `existing_idx`.
  unfoldable pub add_scanned : Transaction → ℕ → ℕ → Option ℕ → Mempool → Bool × Mempool
  add_scanned tx i_min i_max none pool =
      if leb pool.max_size (length pool.queue)
      then (false, pool)
      else (true, record pool { queue = place tx i_min i_max pool.queue })
  add_scanned tx i_min i_max (some idx) pool =
      replace_at tx i_min i_max idx (get_elem? pool.queue idx) pool

  unfoldable pub add_transaction : Transaction → Mempool → Bool × Mempool
  add_transaction tx pool =
      let s =
        scan tx 0 pool.queue (record { existing = none; i_min = 0; i_max = length pool.queue }) in
      if verify tx then add_scanned tx s.i_min s.i_max s.existing pool else (false, pool)

unfoldable pub get_transactions_for_block : Mempool → List Transaction
get_transactions_for_block pool = take pool.transactions_per_block pool.queue

-- Whether the sender and nonce of a transaction are among those of the list.
unfoldable pub has_key : Transaction → List Transaction → Bool
has_key tx [] = false
has_key tx (t ∷ ts) =
    let rest = has_key tx ts in
    if str_eq t.sender tx.sender then if t.nonce == tx.nonce then true else rest else rest

unfoldable pub without : List Transaction → List Transaction → List Transaction
without ts [] = []
without ts (e ∷ es) = let rest = without ts es in if has_key e ts then rest else e ∷ rest

unfoldable pub remove_transactions : List Transaction → Mempool → Mempool
unfolding without
remove_transactions ts pool = record pool { queue = without ts pool.queue }
