-- ===== src/Chain.antt =====
-- minichain/chain.py. Averages of block times are floats in Python: their type and the three things
-- that the program does with them are an argument, `Float`. A result `none` stands for an exception
-- that leaves the method.
pub mod Link
pub mod Apply
pub mod Blockchain
pub mod Links
pub mod Commits
pub mod Growth
pub mod Replay
pub mod Reorg
pub mod Identity
pub mod History
pub mod FromGenesis
pub mod Executions
pub mod Consensus
pub mod Genesis
pub mod Founding
pub mod Agreement
pub mod Later
pub mod Orphans
mod Adoption
pub mod Bounds
mod Tests
pub mod GenesisTests
use mini_chain.Base.{ℕ}
use mini_chain.Base.Int.{ℤ}

-- `float(n)`, `alpha * dt + (1 - alpha) * avg`, and `int(avg)`.
pub record Float (F : Type 0) : Type 0 where
  pub of_int : ℕ → F
  pub ema : F → ℕ → F → F
  pub truncate : F → ℤ
