-- ===== src/Rpc.antt =====
-- minichain/rpc.py: one JSON-RPC request, and the body of a call with one or several. The texts of
-- exceptions that Python itself raises, and of a method that is no text, are arguments. The accounts
-- have texts for keys: a key of another type, which `mc_getBalance` adds to the live accounts, stands beside
-- them in `odd_keys`.
pub mod Served
mod Asked
pub mod Sound
mod Tests
use Prim.Native.String
use mini_chain.Base.{
  ℕ, ◌-◌, not, String, Bool, true, false, Option, none, some, List, [], ◌∷◌, ◌++◌, get_elem?,
  str_eq, length, ltb, if◌then◌else◌, ◌||◌,
}
use mini_chain.Base.Int.{ℤ, pos, negsuc}
use mini_chain.Base.Text.{int10}
use mini_chain.Json.{
  Json, null, bool, num, str, arr, obj, Items, nil, cons, Fields, end, field, is_truthy,
}
use mini_chain.Platform.{Platform}
use mini_chain.Transaction.{Transaction, ValidationStatus, valid, verify, tx_id}
use mini_chain.Transaction.Parse.{get, from_dict}
use mini_chain.State.Accounts.{account_of, get_account}
use mini_chain.State.Apply.{verify_transaction_logic}
use mini_chain.Mempool.{Mempool, add_transaction}
use mini_chain.Block.{Block}
use mini_chain.Block.Parse.{block_to_dict}
use mini_chain.Chain.Blockchain.{last_block}
use mini_chain.Node.{Node}
use mini_chain.Node.Handler.{with_accounts}

-- `_ok` and `_err`
unfoldable pub ok_response : Json → Json → Json
ok_response result id =
    obj (field "jsonrpc" (str "2.0") (field "result" result (field "id" id end)))

unfoldable pub err_response : ℤ → String → Json → Json
err_response code message id = obj (
    field "jsonrpc" (str "2.0") (
      field "error" (obj (field "code" (num code) (field "message" (str message) end)))
        (field "id" id end)))

-- -32600, -32601, -32700 and -32000
abbrev pub invalid_request : ℤ
invalid_request = negsuc 32599

abbrev pub no_method : ℤ
no_method = negsuc 32600

abbrev pub parse_error : ℤ
parse_error = negsuc 32699

abbrev pub failure_code : ℤ
failure_code = negsuc 31999

-- `params[0]`, where it does not raise.
abbrev pub first_of : Json → Option Json
first_of (arr (cons x xs)) = some x
first_of (str (String.◌∷◌ c s)) = some (str (String.◌∷◌ c String.[]))
first_of _ = none

-- The first parameter, or the text of the exception.
pub data Param : Type 0 where
  given : Json → Param
  raises : String → Param

-- `req.get("id")`, `req.get("params", [])`
abbrev pub or_null : Option Json → Json
or_null none = null
or_null (some v) = v

abbrev pub or_empty : Option Json → Json
or_empty none = arr nil
or_empty (some v) = v

abbrev pub is_text : String → Option Json → Bool
is_text t (some (str s)) = str_eq s t
is_text t _ = false

-- `int(idx)`
abbrev pub index_of : Json → Option ℤ
index_of (num n) = some n
index_of (str s) = int10 s
index_of (bool b) = some (pos (if b then 1 else 0))
index_of _ = none

-- What a request yields: the response, the node after it, the transactions that are broadcast, and the
-- keys that are no texts which it adds to the accounts.
pub record Reply (F : Type 0) : Type 0 where
  pub response : Json
  pub node : Node F
  pub broadcast : List Transaction
  pub odd_keys : List Json

-- A method's result, or the text of the exception that it raises.
pub data Outcome : Type 0 where
  returns : Json → Outcome
  fails : String → Outcome

pub record Run (F : Type 0) : Type 0 where
  pub outcome : Outcome
  pub node : Node F
  pub broadcast : List Transaction
  pub odd_keys : List Json

module _ (message : String) where
  abbrev pub the_param : String → Json → Param
  the_param missing params =
      if is_truthy params
      then elim (first_of params) [ none ↦ raises message | some v ↦ given v ]
      else raises missing

  module _ {F : Type 0} where
    abbrev pub answers : Outcome → Node F → Run F
    answers o node = record { outcome = o; node = node; broadcast = []; odd_keys = [] }

    -- A method that wants a parameter.
    abbrev pub with_param : Param → Node F → (Json → Run F) → Run F
    with_param (raises m) node k = answers (fails m) node
    with_param (given v) node k = k v

  module _ ⦃p : Platform⦄ where
    abbrev pub block_outcome : Option Block → Outcome
    block_outcome none = returns null
    block_outcome (some b) = returns (block_to_dict b)

    -- A block by its index; `none` is an index that `int` refuses.
    abbrev pub numbered : List Block → Option ℤ → Outcome
    numbered chain none = fails message
    numbered chain (some (negsuc n)) = returns null
    numbered chain (some (pos n)) = block_outcome (get_elem? chain n)

    -- `mc_getBlockByNumber`
    abbrev pub block_by_number : Json → List Block → Outcome
    block_by_number v chain =
        if is_text "latest" (some v)
        then block_outcome (last_block chain)
        else numbered chain (index_of v)

  module _ {F : Type 0} ⦃p : Platform⦄ where
    -- `mc_getBalance`: `get_account` adds an empty account under a key that it does not have, and raises
    -- for a list or an object.
    abbrev pub get_balance : Json → Node F → Run F
    get_balance (str a) node =
        let accs = get_account a node.chain.state.accounts in
        answers (returns (num (account_of a accs).balance)) (with_accounts accs node)
    get_balance (arr js) node = answers (fails message) node
    get_balance (obj fs) node = answers (fails message) node
    get_balance v node = record {
      outcome = returns (num (pos 0));
      node = node;
      broadcast = [];
      odd_keys = v ∷ [];
    }

    abbrev pub admitted : Transaction → Node F → Bool × Mempool → Run F
    admitted t node (true, pool) = record {
      outcome = returns (str (tx_id t));
      node = record node { mempool = pool };
      broadcast = t ∷ [];
      odd_keys = [];
    }
    admitted t node (false, pool) =
        answers (fails "Transaction rejected by Mempool") (record node { mempool = pool })

    abbrev pub unless_refused : Transaction → Node F → ValidationStatus → Run F
    unless_refused t node valid = admitted t node (add_transaction t node.mempool)
    unless_refused t node s = answers (fails "Transaction failed state validation") node

    -- `mc_sendTransaction`, on the parsed transaction
    unfoldable pub send_transaction : Option Transaction → Node F → Run F
    send_transaction none node = answers (fails message) node
    send_transaction (some t) node =
        if verify t
        then (let (s, accs) = verify_transaction_logic t node.chain.state in
            unless_refused t (with_accounts accs node) s)
        else answers (fails "Invalid signature") node

    -- The dispatch on the method, `none` for one that there is not.
    unfoldable pub call_method : ℕ → Option Json → Json → Node F → Option (Run F)
    call_method now method params node =
        if is_text "mc_blockNumber" method
        then some (
            answers
              (elim (last_block node.chain.chain) [
                | none ↦ fails message
                | some b ↦ returns (num (pos b.index))
              ])
              node)
        else if is_text "mc_getBlockByNumber" method
        then some (
            with_param (the_param "Missing block number" params) node
              (λ v. answers (block_by_number v node.chain.chain) node))
        else if is_text "mc_getBalance" method
        then some (with_param (the_param "Missing address" params) node (λ v. get_balance v node))
        else if is_text "mc_sendTransaction" method
        then some (
            with_param (the_param "Missing transaction payload" params) node
              (λ v. send_transaction (from_dict now v) node))
        else none

    -- The response for a result or an exception.
    abbrev pub reply_of : Json → Run F → Reply F
    reply_of id run = record {
      response = elim run.outcome [
        | returns result ↦ ok_response result id
        | fails m ↦ err_response failure_code m id
      ];
      node = run.node;
      broadcast = run.broadcast;
      odd_keys = run.odd_keys;
    }

    abbrev pub refuses : ℤ → String → Json → Node F → Reply F
    refuses code m id node = record {
      response = err_response code m id;
      node = node;
      broadcast = [];
      odd_keys = [];
    }

    abbrev pub or_no_method : String → Json → Node F → Option (Run F) → Reply F
    or_no_method unknown id node none = refuses no_method unknown id node
    or_no_method unknown id node (some run) = reply_of id run

    -- A request with a method; `unknown` is the text for a method that there is not.
    unfoldable pub process_object : ℕ → String → Fields → Option Json → Node F → Reply F
    process_object now unknown fs none node =
        refuses invalid_request "Invalid Request" (or_null (get "id" fs)) node
    process_object now unknown fs (some method) node =
        let id = or_null (get "id" fs) in
        if is_text "2.0" (get "jsonrpc" fs)
        then or_no_method unknown id node
            (call_method now (some method) (or_empty (get "params" fs)) node)
        else refuses invalid_request "Invalid Request" id node

    -- `_process_single`
    unfoldable pub process_single : ℕ → String → Json → Node F → Reply F
    process_single now unknown (obj fs) node = process_object now unknown fs (get "method" fs) node
    process_single now unknown _ node = refuses invalid_request "Invalid Request" null node

    -- The requests of a batch, one after the other.
    unfoldable pub process_batch :
        ℕ → String → Items → Node F → Items × Node F × List Transaction × List Json
    process_batch now unknown nil node = (nil, node, [], [])
    process_batch now unknown (cons req reqs) node =
        let r = process_single now unknown req node in
        let (rs, node', sent, odd) = process_batch now unknown reqs r.node in
        (cons r.response rs, node', r.broadcast ++ sent, r.odd_keys ++ odd)

    abbrev pub batch_reply : Items × Node F × List Transaction × List Json → Reply F
    batch_reply (rs, node, sent, odd) = record {
      response = arr rs;
      node = node;
      broadcast = sent;
      odd_keys = odd;
    }

    -- `handle_rpc`, with `none` for a body that is no JSON.
    unfoldable pub handle_rpc : ℕ → String → Option Json → Node F → Reply F
    handle_rpc now unknown none node = refuses parse_error "Parse error" null node
    handle_rpc now unknown (some (arr reqs)) node =
        batch_reply (process_batch now unknown reqs node)
    handle_rpc now unknown (some req) node = process_single now unknown req node
