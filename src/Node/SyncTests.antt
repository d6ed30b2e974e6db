-- ===== src/Node/SyncTests.antt =====
-- A node at its genesis block meets one that is a block ahead.
use mini_chain.Base.{◌^◌, refl, [], arith}
use mini_chain.Base.Int.{ℤ, pos}
use mini_chain.Demo.{demo}
use mini_chain.Demo.Nodes.{whole, node_0}
use mini_chain.Block.{Block, compute_hash}
use mini_chain.Chain.FromGenesis.{Executed, config, standing}
use mini_chain.Chain.Consensus.{begins}
use mini_chain.Chain.Agreement.{state_is_execution}
use mini_chain.Chain.Genesis.{genesis_block}
use mini_chain.Chain.GenesisTests.{
  file, start, start_made, sealed, after, chain_of, start_named, one_block,
}
use mini_chain.Node.{Node}
use mini_chain.Node.Handler.{handler}
use mini_chain.Node.Sync.{greeting}
use mini_chain.Node.Rounds.{Agrees, converse, lagging_catches_up}
use mathlib.Core.Option.{some}

abbrev unsealed_origin : Block
unsealed_origin = genesis_block 100 (2 ^ 200) "1"

abbrev origin : Block
origin = record unsealed_origin { hash = some (compute_hash unsealed_origin) }

abbrev behind : Node ℤ
behind = record { chain = start; mempool = node_0.mempool }

abbrev ahead : Node ℤ
ahead = record { chain = after; mempool = node_0.mempool }

behind_ran : Executed (config start) start.chain (standing start)
behind_ran = state_is_execution chain_of 5 (pos 0) file start start start_made start_named begins

ahead_ran : Executed (config after) after.chain (standing after)
ahead_ran = state_is_execution chain_of 5 (pos 0) file start after start_made start_named one_block

lagging_catches_up_example :
    Agrees (converse 500 1 (handler 500 (greeting ahead) behind).sent behind ahead) ahead
lagging_catches_up_example =
    lagging_catches_up 500 1 behind ahead origin sealed [] [] refl refl refl refl behind_ran
      ahead_ran (omega arith, tt) (omega arith)
