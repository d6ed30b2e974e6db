-- ===== src/Rpc/Served.antt =====
-- What a JSON-RPC request of minichain/rpc.py can do to the node, and what it answers.
use mini_chain.Base.{
  ℕ, ◌≡◌, ◌⊎◌, inl, inr, refl, sym, ap, String, Bool, true, false, Option, none, some, List, [],
  ◌∷◌, if_intro,
}
use mathlib.Core.Path.{subst}
use mathlib.Core.Option.{some-injective}
use mini_chain.Base.Int.{ℤ}
use mini_chain.Json.{Json, null, bool, num, str, arr, obj, Fields}
use mini_chain.Platform.{Platform}
use mini_chain.Transaction.{
  Transaction, ValidationStatus, valid, invalid, failed, malformed, verify,
}
use mini_chain.Transaction.Parse.{get, from_dict}
use mini_chain.State.Accounts.{account_of}
use mini_chain.State.Apply.{verify_transaction_logic}
use mini_chain.State.Identity.{account_of-get_account}
use mini_chain.State.Outcomes.{verify_transaction_logic-account_of}
use mini_chain.Mempool.{Mempool, add_transaction}
use mini_chain.Mempool.Refusals.{Unless, add_transaction-refused}
use mini_chain.Node.{Node}
use mini_chain.Rpc.{
  ok_response, err_response, or_null, is_text, Param, given, raises, Reply, Outcome, returns, fails,
  Run, the_param, with_param, get_balance, unless_refused, admitted, send_transaction, call_method,
  reply_of, refuses, or_no_method, process_object, process_single, failure_code, no_method,
  invalid_request,
}

-- A response with this id and either a result or an error.
abbrev pub IsResponse : Json → Json → Type 0
IsResponse id j =
    ((result : Json) × (j ≡ ok_response result id))
    ⊎ ((code : ℤ) × (m : String) × (j ≡ err_response code m id))

-- The id of a request.
abbrev pub id_of : Json → Json
id_of (obj fs) = or_null (get "id" fs)
id_of _ = null

module _ {F : Type 0} ⦃p : Platform⦄ where
  -- The same chain, and the same account at every address.
  abbrev pub KeepsChain : Node F → Node F → Type 0
  KeepsChain node node' =
      (node'.chain.chain ≡ node.chain.chain)
      × ((a : String)
          → account_of a node'.chain.state.accounts ≡ account_of a node.chain.state.accounts)

  -- Nothing was sent on and the mempool is the same, or one transaction was, which is signed, valid in
  -- the node's state, and now in the mempool.
  abbrev pub Submits : Node F → Node F → List Transaction → Type 0
  Submits node node' sent =
      ((sent ≡ []) × (node'.mempool ≡ node.mempool))
      ⊎ ((t : Transaction) × (sent ≡ t ∷ [])
          × (verify t ≡ true)
          × ((verify_transaction_logic t node.chain.state).0 ≡ valid)
          × (add_transaction t node.mempool ≡ (true, node'.mempool)))

  abbrev pub Serves : Node F → Node F → List Transaction → Type 0
  Serves node node' sent = KeepsChain node node' × Submits node node' sent

  still : (node : Node F) → Serves node node []
  still node = ((refl, λ a. refl), inl (refl, refl))

  abbrev pub ServedRun : Node F → Run F → Type 0
  ServedRun node r = Serves node r.node r.broadcast

  -- The outcome of serving a request with this id.
  abbrev pub IsServed : Json → Node F → Reply F → Type 0
  IsServed id node r = IsResponse id r.response × Serves node r.node r.broadcast

module _ {F : Type 0} ⦃p : Platform⦄ (message : String) where
  with_param-Serves :
      (param : Param) (node : Node F) (k : Json → Run F)
      → ((v : Json) → ServedRun node (k v))
      → ServedRun node (with_param message param node k)
  with_param-Serves (raises m) node k serves = still node
  with_param-Serves (given v) node k serves = serves v

  get_balance-Serves : (v : Json) (node : Node F) → ServedRun node (get_balance message v node)
  get_balance-Serves (str a) node =
      ((refl, λ b. account_of-get_account a b node.chain.state.accounts), inl (refl, refl))
  get_balance-Serves null node = still node
  get_balance-Serves (bool b) node = still node
  get_balance-Serves (num n) node = still node
  get_balance-Serves (arr js) node = still node
  get_balance-Serves (obj fs) node = still node

  admitted-Serves :
      (t : Transaction) (node node' : Node F) (r : Bool × Mempool)
      → KeepsChain node node'
      → node'.mempool ≡ node.mempool
      → verify t ≡ true
      → (verify_transaction_logic t node.chain.state).0 ≡ valid
      → add_transaction t node.mempool ≡ r
      → ServedRun node (admitted message t node' r)
  admitted-Serves t node node' (true, pool) keeps same signed logic e =
      (keeps, inr (t, refl, signed, logic, e))
  admitted-Serves t node node' (false, pool) keeps same signed logic e = (
    keeps,
    inl (refl, subst (Unless node.mempool) e (add_transaction-refused t node.mempool) refl),
  )

  unless_refused-Serves :
      (t : Transaction) (node node' : Node F) (s : ValidationStatus)
      → KeepsChain node node'
      → node'.mempool ≡ node.mempool
      → verify t ≡ true
      → (verify_transaction_logic t node.chain.state).0 ≡ s
      → ServedRun node (unless_refused message t node' s)
  unless_refused-Serves t node node' valid keeps same signed logic =
      admitted-Serves t node node' _ keeps same signed logic (ap (add_transaction t) (sym same))
  unless_refused-Serves t node node' invalid keeps same signed logic = (keeps, inl (refl, same))
  unless_refused-Serves t node node' failed keeps same signed logic = (keeps, inl (refl, same))
  unless_refused-Serves t node node' malformed keeps same signed logic = (keeps, inl (refl, same))

  send_transaction-Serves :
      (o : Option Transaction) (node : Node F) → ServedRun node (send_transaction message o node)
  unfolding send_transaction
  send_transaction-Serves none node = still node
  send_transaction-Serves (some t) node =
      if_intro (ServedRun node) (verify t)
        (λ signed.
          unless_refused-Serves t node _ _
            (refl, λ a. verify_transaction_logic-account_of t node.chain.state a) refl signed refl)
        (λ _. still node)

  -- What the methods do to the node, also where they raise.
  call_method-Serves :
      (now : ℕ) (method : Option Json) (params : Json) (node : Node F) (r : Run F)
      → call_method message now method params node ≡ some r
      → ServedRun node r
  unfolding call_method
  call_method-Serves now method params node r =
      let Goal = λ (o : Option (Run F)). o ≡ some r → ServedRun node r in
      let run = λ (x : Run F) (ok : ServedRun node x) (h : some x ≡ some r).
        subst (ServedRun node) (some-injective _ _ h) ok in
      if_intro Goal (is_text "mc_blockNumber" method) (λ _. run _ (still node))
        (λ _.
          if_intro Goal (is_text "mc_getBlockByNumber" method)
            (λ _. run _ (
              with_param-Serves (the_param message "Missing block number" params) node _
                (λ v. still node)))
            (λ _.
              if_intro Goal (is_text "mc_getBalance" method)
                (λ _. run _ (
                  with_param-Serves (the_param message "Missing address" params) node _
                    (λ v. get_balance-Serves v node)))
                (λ _.
                  if_intro Goal (is_text "mc_sendTransaction" method)
                    (λ _. run _ (
                      with_param-Serves (the_param message "Missing transaction payload" params)
                        node _ (λ v. send_transaction-Serves (from_dict now v) node)))
                    (λ _ h. cc))))

  refused :
      (code : ℤ) (m : String) (id : Json) (node : Node F)
      → IsServed id node (refuses message code m id node)
  refused code m id node = (inr (code, m, refl), still node)

  reply_of-IsServed :
      (id : Json) (node : Node F) (o : Outcome) (run : Run F)
      → run.outcome ≡ o
      → ServedRun node run
      → IsServed id node (reply_of message id run)
  reply_of-IsServed id node (returns result) run e ok = (inl (result, rw e refl), ok)
  reply_of-IsServed id node (fails m) run e ok = (inr (failure_code, m, rw e refl), ok)

  or_no_method-IsServed :
      (unknown : String) (id : Json) (node : Node F) (o : Option (Run F))
      → ((r : Run F) → o ≡ some r → ServedRun node r)
      → IsServed id node (or_no_method message unknown id node o)
  or_no_method-IsServed unknown id node none ok = refused no_method unknown id node
  or_no_method-IsServed unknown id node (some r) ok =
      reply_of-IsServed id node r.outcome r refl (ok r refl)

  process_object-IsServed :
      (now : ℕ) (unknown : String) (fs : Fields) (method : Option Json) (node : Node F)
      → IsServed (id_of (obj fs)) node (process_object message now unknown fs method node)
  unfolding process_object
  process_object-IsServed now unknown fs none node =
      refused invalid_request "Invalid Request" _ node
  process_object-IsServed now unknown fs (some method) node =
      if_intro (IsServed (id_of (obj fs)) node) (is_text "2.0" (get "jsonrpc" fs))
        (λ _. or_no_method-IsServed unknown _ node _ (call_method-Serves now (some method) _ node))
        (λ _. refused invalid_request "Invalid Request" _ node)

  -- Every request is answered, and served so.
  pub process_single-IsServed :
      (now : ℕ) (unknown : String) (req : Json) (node : Node F)
      → IsServed (id_of req) node (process_single message now unknown req node)
  unfolding process_single
  process_single-IsServed now unknown (obj fs) node =
      process_object-IsServed now unknown fs (get "method" fs) node
  process_single-IsServed now unknown null node =
      refused invalid_request "Invalid Request" null node
  process_single-IsServed now unknown (bool b) node =
      refused invalid_request "Invalid Request" null node
  process_single-IsServed now unknown (num n) node =
      refused invalid_request "Invalid Request" null node
  process_single-IsServed now unknown (str s) node =
      refused invalid_request "Invalid Request" null node
  process_single-IsServed now unknown (arr js) node =
      refused invalid_request "Invalid Request" null node
