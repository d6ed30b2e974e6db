-- ===== src/Mempool/Fees.antt =====
-- The test `new_fee <= old_fee * 1.1` of minichain/mempool.py, and what passing it means.
use mini_chain.Base.{ℕ, ◌*◌, ◌^◌, ◌<◌, ◌≡◌, ◌⊎◌, inl, inr, true, not, leb, ltb, arith, Bool-cases}
use mini_chain.Base.Int.{ℤ, pos, negsuc, ◌*ℤ◌, ◌≤ℤ◌, ◌<ℤ◌}
use mini_chain.Base.Double.{exceeds_1_1, exceeds_1_1-tenth}
use mini_chain.Transaction.{Transaction}
use mini_chain.Mempool.{outbids}

-- The new fee passes the test, and if the old one is from 0 to below 2^52 it is more by more than a tenth.
unfoldable pub PaysMore : Transaction → Transaction → Type 0
PaysMore tx old =
    (outbids tx old ≡ true)
    × ((old.fee_per_gas <ℤ pos 0)
        ⊎ (pos (2 ^ 52) ≤ℤ old.fee_per_gas)
        ⊎ (pos 11 *ℤ old.fee_per_gas <ℤ pos 10 *ℤ tx.fee_per_gas))

pub not-leb : (m n : ℕ) → not (leb m n) ≡ true → n < m
not-leb m n h = ground arith

tenth : (n k : ℕ) → 11 * n < 10 * k → pos 11 *ℤ pos n <ℤ pos 10 *ℤ pos k
unfolding ◌*ℤ◌
tenth n k h = ground arith

exceeds_1_1-cases :
    (a b : ℤ)
    → exceeds_1_1 a b ≡ true
    → (a <ℤ pos 0) ⊎ (pos (2 ^ 52) ≤ℤ a) ⊎ (pos 11 *ℤ a <ℤ pos 10 *ℤ b)
unfolding exceeds_1_1 ◌*ℤ◌
exceeds_1_1-cases (negsuc n) b h = inl (omega arith)
exceeds_1_1-cases (pos n) (negsuc k) h = cc
exceeds_1_1-cases (pos n) (pos k) h = elim (Bool-cases (ltb n (2 ^ 52))) [
  | inl below ↦ inr (inr (tenth n k (exceeds_1_1-tenth n k (ground arith) h)))
  | inr above ↦ inr (inl (ground arith))
]

pub PaysMore_lem : (tx old : Transaction) → outbids tx old ≡ true → PaysMore tx old
unfolding outbids PaysMore
PaysMore_lem tx old h = (h, exceeds_1_1-cases old.fee_per_gas tx.fee_per_gas h)
