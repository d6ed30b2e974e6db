-- ===== src/Lib.antt =====
-- MiniChain: the ledger, the contract machine, the blockchain, the mempool, mining, and the node that
-- puts them together.
--
-- The program is a proof-of-work blockchain in Python. A `State` (minichain/state.py) holds the accounts
-- and executes transactions; a contract call goes through `ContractMachine` (minichain/contract.py),
-- which runs the contract's code in a child process and calls back into the state for nested calls. A
-- `Blockchain` (minichain/chain.py) validates blocks, executes them on a copy of the state, and moves to
-- a competing chain with more work. A `Mempool` (minichain/mempool.py) keeps the pending transactions,
-- and `mine_block` (minichain/pow.py) searches a nonce. main.py mines blocks out of the mempool and
-- handles the messages of peers; minichain/rpc.py answers requests; minichain/p2p.py dials peers, cuts
-- their bytes into messages, relays them and bans the peers that misbehave; minichain/persistence.py
-- stores the chain. Each of these is a module here, and each method is a function from the object to its
-- result and the object after it; the locks make the methods of `Blockchain` and `Mempool` single steps.
--
-- Files and what they model:
--   Json, Platform            JSON values; what comes from outside the repository: hashes, signatures,
--                             the trie, `json.dumps`, the parser and the interpreter (an instance
--                             argument, `Platform`; the run of a contract's code is a tree, `Program`)
--   Transaction               minichain/transaction.py, receipt.py, validators.py; the children
--                             Parse and Sign have the from_dict methods and Transaction.sign
--   Contract                  minichain/contract.py: GasMeter, _safe_exec_worker, _validate_code_ast
--   State/Accounts            minichain/state.py: get_account, create_contract, state_root, ...
--   State/Journal             StateJournal of minichain/state.py
--   State/Calls               ContractMachine.execute and State.execute_internal_call
--   State/Storage             State.update_contract_storage_partial
--   State/Apply               State.verify_transaction_logic, _apply_validated_tx,
--                             validate_and_apply_with_status
--   Mempool                   minichain/mempool.py: add_transaction (scan, replacement, insertion),
--                             get_transactions_for_block, remove_transactions
--   Block                     minichain/block.py: Merkle trees, headers and their hash; the children Parse
--                             and Sound have from_dict with its checks, to_dict and canonical_payload
--   Chain/Link                validate_block_link_and_hash of minichain/chain.py
--   Chain/Apply               Blockchain._apply_block and _next_target
--   Chain/Blockchain          Blockchain.add_block, get_total_work, resolve_conflicts
--   Chain/Genesis             Blockchain._create_genesis_block, on the parsed genesis file
--   Pow                       minichain/pow.py: mine_block
--   Node/Mining               mine_and_process_block of main.py
--   Node/Handler              the handler of make_network_handler in main.py
--   Node/Sync                 on_peer_connected in run_node of main.py, whose hello starts a catch-up
--   Node/PeerBook             its messages getaddr and addr
--   Rpc                       minichain/rpc.py: handle_rpc and _process_single
--   Cli                       cli_loop of main.py, with parse_tx_params and submit_and_broadcast
--   P2p                       minichain/p2p.py: _increment_counter, _handle_validation_status,
--                             _decay_counters, _is_duplicate, _mark_seen; the child Reader has one
--                             message in _asyncio_reader
--   P2p/Frames                the loop of stream_handler that cuts the bytes into messages
--   P2p/Streams               the list of streams in _serve: stream_handler's start and end, and
--                             BROADCAST, UNICAST and DISCONNECT of check_queue
--   P2p/Dialling              CONNECT of check_queue, and the redial at the end of stream_handler
--   Persistence               minichain/persistence.py: _verify_chain_integrity, save, load; the children
--                             Rows and Peers have the database of the chain and of peers
--   Base, Demo, */Tests       shared helpers; a small platform; runs, and theorems at concrete inputs
-- The other modules are proofs, named for what they show.
--
-- Numbers and errors. Balances, amounts, gas and fees are Python integers, of any size and sign: the
-- type ℤ. Nonces, indices, timestamps and targets are ℕ; a negative one is not modelled. Addresses and
-- hashes are texts. A result `none` is an exception that leaves the method. Floats (the average of block
-- times) are an argument, the record `Float`; the mempool's test against 1.1 times a fee is that of
-- floats (Base/Double), but for fees of 2^1024 or more, from which Python makes no float.
--
-- Bounds and fuel. `execute` counts down the calls that are left, MAX_CALL_DEPTH + 1 for a transaction's
-- call, and answers at 0 as the source does above that depth. The loop of the Merkle tree has the number
-- of hashes as fuel, which is enough (Block/Merkle). `mine_loop` counts down max_nonce, as the source
-- does.
--
-- Execution works on plain accounts: a rollback of a journal is the accounts from before, a commit those
-- after, which State/Overlay justifies.
--
-- What a chain object is after its genesis file is a step relation: Chain/Consensus has the runs of
-- add_block and resolve_conflicts (reads by the handler and the RPC server, which may add blank accounts,
-- and the command line's `--fund` are outside it), and Chain/History the execution of blocks in order.
-- Node/Invariant has the runs of a whole node: mined blocks, messages, requests and lines of the
-- command line, and Node/Rounds the conversation of two nodes. Where a theorem needs that no hash stands
-- for two chains, it takes a function from the hash of a block to the chain up to it, with the hypothesis
-- that it is right on the chains of the run.
--
-- The handler and `load` take their blocks and transactions as parsed values; Block/Parse and
-- Transaction/Parse have the parsing. The reader of P2p/Reader takes what the handler answers.
--
-- A key of the live accounts that is no text, which a balance request can add, stands in the list
-- `odd_keys` of the RPC's reply, outside the accounts.
--
-- Not modelled: the copies of Python objects by `deepcopy`; values of another type than their field has;
-- SQLite itself, and the legacy JSON file; sockets and threads of the peer-to-peer network, and what
-- libp2p does; the start of the node, the HTTP server, and what the command line prints; and `storage`
-- values that are lists of other things than pairs with a text for their key.
pub mod Base
pub mod Json
pub mod Platform
pub mod Transaction
pub mod Contract
pub mod Demo
pub mod State
pub mod Mempool
pub mod Block
pub mod Chain
pub mod Pow
pub mod P2p
pub mod Node
pub mod Rpc
pub mod Cli
pub mod Persistence
