-- ===== src/Rpc/Asked.antt =====
-- What a JSON-RPC request of minichain/rpc.py must have asked for.
use mathlib.Core.Path.{subst}
use mathlib.Core.Option.{some-injective}
use mini_chain.Base.{
  ℕ, ◌≡◌, refl, sym, String, Bool, true, false, Option, none, some, List, [], ◌∷◌, All, if_intro,
}
use mini_chain.Base.Int.{pos}
use mini_chain.Json.{Json, null, bool, num, str, arr, obj, Fields, is_truthy}
use mini_chain.Platform.{Platform}
use mini_chain.Transaction.{
  Transaction, ValidationStatus, valid, invalid, failed, malformed, verify,
}
use mini_chain.Transaction.Parse.{get, from_dict}
use mini_chain.Mempool.{Mempool}
use mini_chain.Node.{Node}
use mini_chain.Rpc.{
  ok_response, or_empty, is_text, first_of, Param, given, raises, Reply, returns, Run, the_param,
  with_param, get_balance, unless_refused, admitted, send_transaction, call_method, reply_of,
  or_no_method, process_object, process_single,
}
use mini_chain.Rpc.Served.{id_of, IsServed, process_single-IsServed}

-- `req["method"]` and `req.get("params", [])`
abbrev pub method_of : Json → Option Json
method_of (obj fs) = get "method" fs
method_of _ = none

abbrev pub params_of : Json → Json
params_of (obj fs) = or_empty (get "params" fs)
params_of _ = null

-- A value that can be a key, and is no text.
abbrev pub is_odd_key : Json → Bool
is_odd_key null = true
is_odd_key (bool b) = true
is_odd_key (num n) = true
is_odd_key _ = false

-- The transaction is the one that this call sends.
unfoldable pub Sends : ℕ → Option Json → Json → Transaction → Type 0
Sends now method params t =
    (is_text "mc_sendTransaction" method ≡ true)
    × ((payload : Json) × (first_of params ≡ some payload) × (from_dict now payload ≡ some t))

-- The call asks for the balance of this key, which is no text.
unfoldable pub AsksFor : Option Json → Json → Json → Type 0
AsksFor method params key =
    (is_text "mc_getBalance" method ≡ true) × (first_of params ≡ some key) × (is_odd_key key ≡ true)

the_param-given :
    (message : String) (params : Json) (missing : String) (v : Json)
    → the_param message missing params ≡ given v
    → first_of params ≡ some v
the_param-given message params missing v =
    if_intro (λ q. q ≡ given v → first_of params ≡ some v) (is_truthy params)
      (λ _. of_first (first_of params)) (λ _ h. cc)
  where
    of_first :
        (o : Option Json)
        → (elim o as (λ _. Param) [ none ↦ raises message | some w ↦ given w ]) ≡ given v
        → o ≡ some v
    of_first none h = cc
    of_first (some w) h = cc

module _ {F : Type 0} ⦃p : Platform⦄ where
  -- What is broadcast was sent by the call, and the keys are those that it asks for, with 0 for a result.
  unfoldable RunAsked : ℕ → Option Json → Json → Run F → Type 0
  RunAsked now method params run =
      All (Sends now method params) run.broadcast
      × All (λ key. AsksFor method params key × (run.outcome ≡ returns (num (pos 0)))) run.odd_keys

  -- The same of a request and its reply.
  unfoldable pub Asked : ℕ → Json → Reply F → Type 0
  Asked now req r =
      All (Sends now (method_of req) (params_of req)) r.broadcast
      × All
          (λ key.
            AsksFor (method_of req) (params_of req) key
            × (r.response ≡ ok_response (num (pos 0)) (id_of req)))
          r.odd_keys

  -- A reply to the request, which has done nothing that it did not ask for.
  abbrev pub IsReply : ℕ → Json → Node F → Reply F → Type 0
  IsReply now req node r = IsServed (id_of req) node r × Asked now req r

  module _ (message : String) (now : ℕ) (method : Option Json) (params : Json) where
    with_param-RunAsked :
        (param : Param) (node : Node F) (k : Json → Run F)
        → ((v : Json) → param ≡ given v → RunAsked now method params (k v))
        → RunAsked now method params (with_param message param node k)
    unfolding RunAsked
    with_param-RunAsked (raises m) node k asked = (tt, tt)
    with_param-RunAsked (given v) node k asked = asked v refl

    get_balance-RunAsked :
        (v : Json) (node : Node F)
        → is_text "mc_getBalance" method ≡ true
        → first_of params ≡ some v
        → RunAsked now method params (get_balance message v node)
    unfolding RunAsked AsksFor
    get_balance-RunAsked (str a) node here first = (tt, tt)
    get_balance-RunAsked null node here first = (tt, (((here, first, refl), refl), tt))
    get_balance-RunAsked (bool b) node here first = (tt, (((here, first, refl), refl), tt))
    get_balance-RunAsked (num n) node here first = (tt, (((here, first, refl), refl), tt))
    get_balance-RunAsked (arr js) node here first = (tt, tt)
    get_balance-RunAsked (obj fs) node here first = (tt, tt)

    admitted-RunAsked :
        (t : Transaction) (node : Node F) (r : Bool × Mempool)
        → Sends now method params t
        → RunAsked now method params (admitted message t node r)
    unfolding RunAsked
    admitted-RunAsked t node (true, pool) sends = ((sends, tt), tt)
    admitted-RunAsked t node (false, pool) sends = (tt, tt)

    unless_refused-RunAsked :
        (t : Transaction) (node : Node F) (s : ValidationStatus)
        → Sends now method params t
        → RunAsked now method params (unless_refused message t node s)
    unfolding RunAsked
    unless_refused-RunAsked t node valid sends = admitted-RunAsked t node _ sends
    unless_refused-RunAsked t node invalid sends = (tt, tt)
    unless_refused-RunAsked t node failed sends = (tt, tt)
    unless_refused-RunAsked t node malformed sends = (tt, tt)

    send_transaction-RunAsked :
        (o : Option Transaction) (node : Node F)
        → ((t : Transaction) → o ≡ some t → Sends now method params t)
        → RunAsked now method params (send_transaction message o node)
    unfolding send_transaction RunAsked
    send_transaction-RunAsked none node sends = (tt, tt)
    send_transaction-RunAsked (some t) node sends =
        if_intro (RunAsked now method params) (verify t)
          (λ _. unless_refused-RunAsked t _ _ (sends t refl)) (λ _. (tt, tt))

    call_method-RunAsked :
        (node : Node F) (r : Run F)
        → call_method message now method params node ≡ some r
        → RunAsked now method params r
    unfolding call_method RunAsked Sends
    call_method-RunAsked node r =
        let Goal = λ (o : Option (Run F)). o ≡ some r → RunAsked now method params r in
        let run = λ (x : Run F) (ok : RunAsked now method params x) (h : some x ≡ some r).
          subst (RunAsked now method params) (some-injective _ _ h) ok in
        if_intro Goal (is_text "mc_blockNumber" method) (λ _. run _ (tt, tt))
          (λ _.
            if_intro Goal (is_text "mc_getBlockByNumber" method)
              (λ _. run _ (
                with_param-RunAsked (the_param message "Missing block number" params) node _
                  (λ v _. (tt, tt))))
              (λ _.
                if_intro Goal (is_text "mc_getBalance" method)
                  (λ here. run _ (
                    with_param-RunAsked (the_param message "Missing address" params) node _ (λ v e.
                      get_balance-RunAsked v node here
                        (the_param-given message params "Missing address" v e))))
                  (λ _.
                    if_intro Goal (is_text "mc_sendTransaction" method)
                      (λ here. run _ (
                        with_param-RunAsked (the_param message "Missing transaction payload" params)
                          node _
                          (λ v e. send_transaction-RunAsked (from_dict now v) node (λ t read. (
                            here,
                            (
                              v,
                              the_param-given message params "Missing transaction payload" v e,
                              read,
                            ),
                          )))))
                      (λ _ h. cc))))

module _ {F : Type 0} ⦃p : Platform⦄ (message : String) where
  reply_of-Asked :
      (now : ℕ) (req : Json) (run : Run F)
      → RunAsked now (method_of req) (params_of req) run
      → Asked now req (reply_of message (id_of req) run)
  unfolding RunAsked Asked
  reply_of-Asked now req run (sent, odd) = (sent, answered run.odd_keys odd)
    where
      answered :
          (keys : List Json)
          → All
              (λ key.
                AsksFor (method_of req) (params_of req) key × (run.outcome ≡ returns (num (pos 0))))
              keys
          → All
              (λ key.
                AsksFor (method_of req) (params_of req) key
                × ((reply_of message (id_of req) run).response
                    ≡ ok_response (num (pos 0)) (id_of req)))
              keys
      answered [] h = tt
      answered (key ∷ keys) ((asks, zero_result), rest) =
          ((asks, rw zero_result refl), answered keys rest)

  or_no_method-Asked :
      (now : ℕ) (unknown : String) (req : Json) (node : Node F) (o : Option (Run F))
      → ((r : Run F) → o ≡ some r → RunAsked now (method_of req) (params_of req) r)
      → Asked now req (or_no_method message unknown (id_of req) node o)
  unfolding Asked
  or_no_method-Asked now unknown req node none ok = (tt, tt)
  or_no_method-Asked now unknown req node (some r) ok = reply_of-Asked now req r (ok r refl)

  process_object-Asked :
      (now : ℕ) (unknown : String) (fs : Fields) (method : Option Json) (node : Node F)
      → get "method" fs ≡ method
      → Asked now (obj fs) (process_object message now unknown fs method node)
  unfolding process_object Asked
  process_object-Asked now unknown fs none node e = (tt, tt)
  process_object-Asked now unknown fs (some method) node e =
      if_intro (Asked now (obj fs)) (is_text "2.0" (get "jsonrpc" fs))
        (λ _. or_no_method-Asked now unknown (obj fs) node _ (λ r ran.
          subst (λ m. RunAsked now m (params_of (obj fs)) r) (sym e)
            (call_method-RunAsked message now (some method) (params_of (obj fs)) node r ran)))
        (λ _. (tt, tt))

  process_single-Asked :
      (now : ℕ) (unknown : String) (req : Json) (node : Node F)
      → Asked now req (process_single message now unknown req node)
  unfolding process_single Asked
  process_single-Asked now unknown (obj fs) node =
      process_object-Asked now unknown fs (get "method" fs) node refl
  process_single-Asked now unknown null node = (tt, tt)
  process_single-Asked now unknown (bool b) node = (tt, tt)
  process_single-Asked now unknown (num n) node = (tt, tt)
  process_single-Asked now unknown (str s) node = (tt, tt)
  process_single-Asked now unknown (arr js) node = (tt, tt)

  -- Whatever a request is, its response has the request's id and either a result or an error; the node's
  -- chain and the account of every text are as before; and the mempool is too and nothing is broadcast,
  -- unless the request sent a transaction that is signed and valid in the node's state: the one that
  -- from_dict reads from its first parameter, which is now in the mempool and is broadcast. A key that is
  -- no text is added to the live accounts only if the request asks for the balance of null, a number or
  -- a Boolean: this is the key, and the result is 0.
  pub process_single-IsReply :
      (now : ℕ) (unknown : String) (req : Json) (node : Node F)
      → IsReply now req node (process_single message now unknown req node)
  process_single-IsReply now unknown req node = (
    process_single-IsServed message now unknown req node,
    process_single-Asked now unknown req node,
  )
