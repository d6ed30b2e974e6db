-- ===== src/Rpc/Tests.antt =====
-- Requests to a node with one account.
use mini_chain.Base.{String, [], ◌∷◌, ◌≡◌, refl, str_dec}
use mini_chain.Base.Int.{pos}
use mini_chain.Base.Dict.{lookup}
use mini_chain.Json.{Json, null, num, str, arr, obj, Items, nil, cons, end, field, is_truthy}
use mini_chain.Demo.{demo}
use mini_chain.Demo.Nodes.{whole, payment, node_0}
use mini_chain.Transaction.{to_dict}
use mini_chain.Transaction.Parse.{get}
use mini_chain.State.Accounts.{account_of, get_account}
use mini_chain.Rpc.{ok_response, process_single, process_object, call_method}
use mini_chain.Rpc.Asked.{IsReply, process_single-IsReply}

abbrev request : String → Items → Json
request method params = obj (
    field "jsonrpc" (str "2.0")
      (field "method" (str method) (field "params" (arr params) (field "id" (num (pos 7)) end))))

abbrev balance_request : Json
balance_request = request "mc_getBalance" (cons (str "aa") nil)

balance_answer :
    (process_single "" 5 "" balance_request node_0).response
    ≡ ok_response (num (pos 1000)) (num (pos 7))
unfolding process_single process_object call_method get str_dec account_of get_account lookup
    is_truthy
balance_answer = refl

-- The balance of null: 0, and a key that is no text.
abbrev odd_request : Json
odd_request = request "mc_getBalance" (cons null nil)

odd_key_added : (process_single "" 5 "" odd_request node_0).odd_keys ≡ null ∷ []
unfolding process_single process_object call_method get str_dec is_truthy
odd_key_added = refl

abbrev send_request : Json
send_request =
    request "mc_sendTransaction"
      (cons (to_dict (record payment { nonce = 0; timestamp = 1716880000000 })) nil)

process_single-IsReply_example :
    IsReply 5 send_request node_0 (process_single "" 5 "" send_request node_0)
process_single-IsReply_example = process_single-IsReply "" 5 "" send_request node_0
