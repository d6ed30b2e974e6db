-- ===== src/Node.antt =====
-- main.py: a node, which holds a chain and a mempool, mines blocks and answers messages.
pub mod Mining
pub mod Handler
pub mod PeerBook
mod Dials
pub mod Pool
pub mod Sound
mod Mines
mod Forks
mod Sync
mod Rounds
mod SyncTests
mod Invariant
mod Tests
use mini_chain.Chain.Blockchain.{Blockchain}
use mini_chain.Mempool.{Mempool}

pub record Node (F : Type 0) : Type 0 where
  pub chain : Blockchain F
  pub mempool : Mempool
