-- ===== src/Chain/GenesisTests.antt =====
-- A chain from a genesis file on, and the theorems on it.
use mini_chain.Base.{
  zero, suc, ◌^◌, ◌≡◌, refl, String, Option, some, List, [], ◌∷◌, ◌++◌, opt_str_eq, if◌then◌else◌,
  str_dec, true,
}
use mini_chain.Base.Int.{ℤ, pos, ◌+ℤ◌}
use mini_chain.Json.{num, str, obj, Fields, end, field}
use mini_chain.Demo.{demo}
use mini_chain.Transaction.{valid}
use mini_chain.Block.{Block, calculate_merkle_root}
use mathlib.Core.Path.{subst}
use mathlib.Core.Option.{some-injective}
use mini_chain.State.Supply.{total}
use mini_chain.Chain.FromGenesis.{Names, Executed, config, standing}
use mini_chain.Chain.Consensus.{Runs, begins, adds, resolves}
use mini_chain.Chain.Agreement.{issued, state_is_execution, nodes_agree, supply_lem}
use mini_chain.Chain.Blockchain.{Blockchain, add_block, resolve_conflicts}
use mini_chain.Chain.Genesis.{
  founded, genesis_block, create_genesis_block, start_chain, allocate, set_balance, supply_differs,
  hash_refused,
}
use mini_chain.Block.Parse.{target_of}
use mini_chain.Transaction.Parse.{get}
use mini_chain.Demo.Nodes.{whole, alone}
use mini_chain.Chain.Tests.{unsealed, after_mined, run_time}

abbrev pub file : Fields
file = field "chain_id" (str "test") (
    field "timestamp" (num (pos 100)) (
      field "target" (num (pos (2 ^ 200))) (
        field "target_block_time" (num (pos 10)) (
          field "initial_supply" (num (pos 1000)) (
            field "alloc" (obj (field "aa" (obj (field "balance" (num (pos 1000)) end)) end))
              end)))))

abbrev pub start : Blockchain ℤ
start = founded "test" 10 (pos 0) alone (genesis_block 100 (2 ^ 200) "1")

pub start_made : create_genesis_block 5 (pos 0) (obj file) ≡ some start
unfolding run_time create_genesis_block start_chain allocate set_balance supply_differs hash_refused
    target_of get
start_made = refl

abbrev first : Block
first = record unsealed { previous_hash = "19058" }

abbrev pub sealed : Block
sealed = record first { hash = some "44522" }

abbrev pub after : Blockchain ℤ
after = record start {
  chain = start.chain ++ sealed ∷ [];
  state = record { accounts = after_mined; chain_id = "test" };
  state_snapshots = start.state_snapshots ++ (some "44522", after_mined) ∷ [];
}

first_added : add_block 500 sealed start ≡ some (valid, after)
unfolding run_time calculate_merkle_root
first_added = refl

-- The chains that the two hashes stand for.
pub chain_of : Option String → List Block
chain_of h =
    if opt_str_eq h (some "19058")
    then start.chain
    else if opt_str_eq h (some "44522")
    then after.chain
    else []

pub start_named : Names chain_of start.chain
unfolding chain_of run_time calculate_merkle_root
start_named zero b e =
    subst (λ (x : Block). chain_of x.hash ≡ start.chain) (some-injective _ _ e) refl
start_named (suc n) b e = cc

after_named : Names chain_of after.chain
unfolding chain_of run_time calculate_merkle_root
after_named zero b e =
    subst (λ (x : Block). chain_of x.hash ≡ start.chain) (some-injective _ _ e) refl
after_named (suc zero) b e =
    subst (λ (x : Block). chain_of x.hash ≡ after.chain) (some-injective _ _ e) refl
after_named (suc (suc n)) b e = cc

pub one_block : Runs chain_of start after
one_block = adds 500 sealed valid begins first_added after_named

state_is_execution_example : Executed (config start) after.chain (standing after)
state_is_execution_example =
    state_is_execution chain_of 5 (pos 0) file start after start_made start_named one_block

-- The other node takes the block by a fork's way.
first_taken : resolve_conflicts 600 (sealed ∷ []) start ≡ some ((true, []), after)
unfolding run_time calculate_merkle_root
first_taken = refl

by_fork : Runs chain_of start after
by_fork = resolves 600 (sealed ∷ []) (true, []) begins first_taken after_named

nodes_agree_example :
    (after.state ≡ after.state)
    × (after.current_target ≡ after.current_target)
    × (after.avg_block_time ≡ after.avg_block_time)
nodes_agree_example =
    nodes_agree chain_of chain_of 5 5 (pos 0) (pos 0) file file start start after after start_made
      start_made refl start_named start_named one_block by_fork refl

file_supply : get "initial_supply" file ≡ some (num (pos 1000))
unfolding get str_dec
file_supply = refl

abbrev file_alloc : Fields
file_alloc = field "aa" (obj (field "balance" (num (pos 1000)) end)) end

file_allocs : get "alloc" file ≡ some (obj file_alloc)
unfolding get str_dec
file_allocs = refl

supply_lem_example : total after_mined ≡ pos 1000 +ℤ issued (sealed ∷ [])
supply_lem_example =
    supply_lem chain_of 5 (pos 0) file file_alloc (pos 1000) start after start_made file_supply
      file_allocs (tt, tt) start_named one_block
