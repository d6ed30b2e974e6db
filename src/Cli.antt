-- ===== src/Cli.antt =====
-- `cli_loop` of main.py with `parse_tx_params` and `submit_and_broadcast`: one line, as its words, the
-- first in lower case. The printed text is left out but for which one it is. `files` says what `deploy`
-- reads from a path: a text, or that no file is there, or that reading it raises another exception,
-- which leaves the loop. Writing a new key file or the table of bans is taken to succeed.
pub mod Commands
pub mod Submits
mod Others
pub mod Turns
pub mod Sound
mod Tests
use mini_chain.Base.{
  ℕ, ◌+◌, ◌||◌, String, Bool, true, false, Option, none, some, List, [], ◌∷◌, get_elem?, str_eq,
  if◌then◌else◌, ◌then?◌,
}
use Prim.Native.String
use mini_chain.Base.Int.{ℤ, pos, ltb_ℤ}
use mini_chain.Base.Text.{int10}
use mini_chain.Platform.{Platform}
use mini_chain.Transaction.{Transaction, ValidationStatus, valid}
use mini_chain.Transaction.Sign.{Signer, sign, is_valid_receiver}
use mini_chain.State.Accounts.{account_of, get_account}
use mini_chain.State.Apply.{verify_transaction_logic}
use mini_chain.Mempool.{Mempool, add_transaction}
use mini_chain.Block.{Block}
use mini_chain.Chain.{Float}
use mini_chain.P2p.{without_id}
use mini_chain.Pow.{Watch}
use mini_chain.Node.{Node}
use mini_chain.Node.Mining.{Produced, mined, refused, raised, mine_and_process_block}
use mini_chain.Node.Handler.{with_accounts}

-- A number of the line, 0 if it is not given.
abbrev pub number_at : List String → ℕ → Option ℤ
number_at parts i = elim (get_elem? parts i) [ none ↦ some (pos 0) | some word ↦ int10 word ]

abbrev pub is_negative : ℤ → Bool
is_negative n = ltb_ℤ n (pos 0)

-- Amount, gas limit and fee per gas.
unfoldable pub parse_tx_params : List String → ℕ → Option (ℤ × ℤ × ℤ)
parse_tx_params parts start = number_at parts start then? (λ amount.
    number_at parts (start + 1) then? (λ gas_limit.
      number_at parts (start + 2) then? (λ fee_per_gas.
        if is_negative amount || (is_negative gas_limit || is_negative fee_per_gas)
        then none
        else some (amount, gas_limit, fee_per_gas))))

-- What the line makes the network do.
pub data Effect : Type 0 where
  broadcast_transaction : Transaction → Effect
  broadcast_block : Block → Effect
  connect_to_peer disconnect_peer : String → Effect

-- What `open` and `read` yield for a file: its text, FileNotFoundError, or another exception, such as
-- for a directory or for bytes that are no text.
pub data FileRead : Type 0 where
  contents : String → FileRead
  missing unreadable : FileRead

-- What is printed; or the loop ends, by `quit` or by an exception.
pub data Told : Type 0 where
  usage invalid_receiver invalid_values amount_not_positive no_file : Told
  not_valid rejected sent done shown unknown quits breaks : Told

-- `sk`, `pk`, the chain and mempool, the banned peers, and the key in the file.
pub record Session (F K : Type 0) : Type 0 where
  pub key : K
  pub address : String
  pub node : Node F
  pub banned : List String
  pub keystore : Option K

pub record Turn (F K : Type 0) : Type 0 where
  pub told : Told
  pub session : Session F K
  pub effects : List Effect

module _ {F K : Type 0} where
  abbrev pub tells : Told → Session F K → Turn F K
  tells told s = record { told = told; session = s; effects = [] }

  -- Behind `mempool.add_transaction(tx)`.
  abbrev pub after_adding : Transaction → Session F K → Bool × Mempool → Turn F K
  after_adding tx s (true, pool) = record {
    told = sent;
    session = record s { node = record s.node { mempool = pool } };
    effects = broadcast_transaction tx ∷ [];
  }
  after_adding tx s (false, pool) =
      tells rejected (record s { node = record s.node { mempool = pool } })

  module _ ⦃p : Platform⦄ where
    abbrev pub if_valid : Transaction → Session F K → ValidationStatus → Turn F K
    if_valid tx s valid = after_adding tx s (add_transaction tx s.node.mempool)
    if_valid tx s _ = tells not_valid s

    -- `submit_and_broadcast`
    unfoldable pub submit_and_broadcast : Transaction → Session F K → Turn F K
    submit_and_broadcast tx s =
        let (status, accs) = verify_transaction_logic tx s.node.chain.state in
        if_valid tx (record s { node = with_accounts accs s.node }) status

    abbrev pub submit_signed : Session F K → Option Transaction → Turn F K
    submit_signed s none = tells breaks s
    submit_signed s (some tx) = submit_and_broadcast tx s

    module _ ⦃sg : Signer K⦄ where
      -- The transaction of a command, before it is signed.
      abbrev pub drafted : ℕ → Option String → Option String → ℤ × ℤ × ℤ → Session F K → Transaction
      drafted now receiver payload (amount, gas_limit, fee_per_gas) s = record {
        sender = s.address;
        receiver = receiver;
        amount = amount;
        gas_limit = gas_limit;
        fee_per_gas = fee_per_gas;
        nonce = (account_of s.address s.node.chain.state.accounts).nonce;
        payload = payload;
        timestamp = now;
        chain_id = s.node.chain.chain_id;
        signature = none;
      }

      -- The nonce is read, which adds a blank account if there is none, and the transaction signed.
      unfoldable pub submit : ℕ → Option String → Option String → ℤ × ℤ × ℤ → Session F K → Turn F K
      submit now receiver payload values s =
          let accs = get_account s.address s.node.chain.state.accounts in
          let s' = record s { node = with_accounts accs s.node } in
          submit_signed s' (sign s.key (drafted now receiver payload values s'))
