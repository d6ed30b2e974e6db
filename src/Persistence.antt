-- ===== src/Persistence.antt =====
-- minichain/persistence.py: the check of a stored chain, and the object that `load` makes of a
-- snapshot. SQLite and the files are left out: a snapshot is its parsed blocks and accounts.
pub mod Restart
pub mod Peers
pub mod Rows
mod AccountRows
mod Stored
pub mod Book
mod Tests
use mini_chain.Base.{
  ℕ, ◌==◌, String, Bool, true, false, not, Option, none, some, List, [], ◌∷◌, opt_str_eq,
  if◌then◌else◌,
}
use mini_chain.Platform.{Platform}
use mini_chain.State.Accounts.{Accounts}
use mini_chain.Block.{Block, compute_hash}
use mini_chain.Chain.Link.{LinkError, validate_block_link_and_hash}
use mini_chain.Chain.Blockchain.{Blockchain}

-- What `save` writes.
abbrev pub Snapshot : Type 0
Snapshot = List Block × Accounts

abbrev pub save : {F : Type 0} → Blockchain F → Snapshot
save bc = (bc.chain, bc.state.accounts)

abbrev pub passes : Option LinkError → Bool
passes none = true
passes (some e) = false

module _ ⦃p : Platform⦄ where
  -- The loop over the blocks behind `prev`.
  unfoldable pub links_verified : ℕ → Block → List Block → Bool
  links_verified now prev [] = true
  links_verified now prev (b ∷ bs) =
      let rest = links_verified now b bs in
      if passes (validate_block_link_and_hash prev b now) then rest else false

  -- `_verify_chain_integrity`: whether it raises nothing.
  unfoldable pub verify_chain_integrity : ℕ → List Block → Bool
  unfolding links_verified
  verify_chain_integrity now [] = false
  verify_chain_integrity now (genesis ∷ bs) =
      if not (genesis.index == 0)
      then false
      else if not (opt_str_eq genesis.hash (some (compute_hash genesis)))
      then false
      else links_verified now genesis bs

  -- The end of `load`, over the object that `Blockchain()` makes of the genesis file; `none` where
  -- it raises.
  unfoldable pub load : {F : Type 0} → ℕ → Blockchain F → Snapshot → Option (Blockchain F)
  unfolding verify_chain_integrity
  load now fresh (blocks, accs) =
      if verify_chain_integrity now blocks
      then some (record fresh { chain = blocks; state = record fresh.state { accounts = accs } })
      else none
