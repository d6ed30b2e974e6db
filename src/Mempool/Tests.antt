-- ===== src/Mempool/Tests.antt =====
-- Runs of the mempool, and each theorem at a concrete input.
use mini_chain.Base.{
  ℕ, String, ◌≡◌, refl, true, false, none, some, [], ◌∷◌, arith, str_dec, str_eq→ne,
}
use mini_chain.Base.Int.{ℤ, pos, negsuc, ltb_ℤ, ◌*ℤ◌}
use mini_chain.Demo.{demo, demo_hash, checksum}
use mini_chain.Base.Text.{decimal}
use mini_chain.Transaction.{Transaction, to_dict, verify, tx_id}
use mini_chain.Mempool.{
  Mempool, scan_step, scan, seek, place, outbids, replaces, replace_at, add_scanned,
  add_transaction,
}
use mini_chain.Mempool.Queue.{IsOrdered}
use mini_chain.Mempool.Order.{add_transaction-IsOrdered}
use mini_chain.Base.Double.{exceeds_1_1, times_1_1, to_float, round_to, unit_from}
use mini_chain.Mempool.Bounds.{Outcome, add_transaction-Outcome}

-- A pending transaction of a sender: nonce, fee and time.
abbrev pending : String → ℕ → ℤ → ℕ → Transaction
pending sender nonce fee time = record {
  sender = sender;
  receiver = some "bb";
  amount = pos 1;
  gas_limit = pos 1;
  fee_per_gas = fee;
  nonce = nonce;
  payload = none;
  timestamp = time;
  chain_id = "test";
  signature = some sender;
}

abbrev pool : Mempool
pool = record {
  queue = pending "aa" 1 (pos 9) 1 ∷ pending "cc" 0 (pos 8) 1 ∷ pending "aa" 3 (pos 7) 1 ∷ [];
  max_size = 4;
  transactions_per_block = 2;
}

run_time : Unit {0}
unfolding str_dec ltb_ℤ ◌*ℤ◌ decimal demo_hash checksum verify to_dict tx_id scan_step scan seek
    place outbids exceeds_1_1 times_1_1 to_float round_to unit_from replaces replace_at add_scanned
    add_transaction
run_time = tt

-- Nonce 2 goes between 1 and 3, in front of no higher fee.
added :
    (add_transaction (pending "aa" 2 (pos 20) 5) pool).1.queue
    ≡ pending "aa" 1 (pos 9) 1
      ∷ pending "aa" 2 (pos 20) 5
      ∷ pending "cc" 0 (pos 8) 1
      ∷ pending "aa" 3 (pos 7) 1
      ∷ []
unfolding run_time
added = refl

-- 9 outbids 8 by more than a tenth.
replaced :
    (add_transaction (pending "cc" 0 (pos 9) 5) pool).1.queue
    ≡ pending "aa" 1 (pos 9) 1 ∷ pending "cc" 0 (pos 9) 5 ∷ pending "aa" 3 (pos 7) 1 ∷ []
unfolding run_time
replaced = refl

-- 1.1 times the fee is rounded: 121 does not outbid 110, but -121 outbids -110.
rounded : (exceeds_1_1 (pos 110) (pos 121) ≡ false) × (exceeds_1_1 (negsuc 109) (negsuc 120) ≡ true)
unfolding run_time
rounded = (refl, refl)

pool-IsOrdered : IsOrdered pool.queue
pool-IsOrdered = (
  (λ e. absurd (unfold run_time in str_eq→ne "aa" "cc" refl e), (λ _. omega arith, tt)),
  ((λ e. absurd (unfold run_time in str_eq→ne "cc" "aa" refl e), tt), (tt, tt)),
)

add_transaction-IsOrdered_example :
    IsOrdered (add_transaction (pending "aa" 2 (pos 20) 5) pool).1.queue
add_transaction-IsOrdered_example =
    add_transaction-IsOrdered (pending "aa" 2 (pos 20) 5) pool pool-IsOrdered

add_transaction-Outcome_example :
    Outcome (pending "cc" 0 (pos 9) 5) pool (add_transaction (pending "cc" 0 (pos 9) 5) pool)
add_transaction-Outcome_example =
    add_transaction-Outcome (pending "cc" 0 (pos 9) 5) pool pool-IsOrdered
