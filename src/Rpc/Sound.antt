-- ===== src/Rpc/Sound.antt =====
-- Whatever the JSON-RPC server of minichain/rpc.py is asked, the node stays sound.
use mathlib.Core.Path.{subst}
use mini_chain.Base.{ℕ, sym, ap, String, Bool, Option, none, some, List, inl, inr}
use mini_chain.Json.{Json, null, bool, num, str, arr, obj, Items, nil, cons}
use mini_chain.Platform.{Platform}
use mini_chain.Transaction.{Transaction}
use mini_chain.Mempool.{Mempool}
use mini_chain.Chain.{Float}
use mini_chain.Chain.Growth.{IsLinked}
use mini_chain.Node.{Node}
use mini_chain.Node.Pool.{IsPool, add_transaction-IsPool}
use mini_chain.Node.Sound.{IsSound}
use mini_chain.Rpc.{process_single, process_batch, handle_rpc}
use mini_chain.Rpc.Served.{Serves, process_single-IsServed}

module _ {F : Type 0} ⦃fl : Float F⦄ ⦃p : Platform⦄ where
  Serves-IsSound :
      (node node' : Node F) (sent : List Transaction)
      → Serves node node' sent
      → IsSound node
      → IsSound node'
  unfolding IsSound
  Serves-IsSound node node' sent ((chain, _), submits) (linked, pool) = (
    subst IsLinked (sym chain) linked,
    elim submits [
      | inl (_, same) ↦ subst IsPool (sym same) pool
      | inr (t, _, _, _, added) ↦
          subst IsPool (ap (λ (r : Bool × Mempool). r.1) added)
            (add_transaction-IsPool t node.mempool pool)
    ],
  )

  process_single-IsSound :
      (message : String) (now : ℕ) (unknown : String) (req : Json) (node : Node F)
      → IsSound node
      → IsSound (process_single message now unknown req node).node
  process_single-IsSound message now unknown req node =
      Serves-IsSound node _ _ (process_single-IsServed message now unknown req node).1

  process_batch-IsSound :
      (message : String) (now : ℕ) (unknown : String) (reqs : Items) (node : Node F)
      → IsSound node
      → IsSound (process_batch message now unknown reqs node).1
  unfolding process_batch
  process_batch-IsSound message now unknown nil node ok = ok
  process_batch-IsSound message now unknown (cons req reqs) node ok =
      process_batch-IsSound message now unknown reqs _
        (process_single-IsSound message now unknown req node ok)

  pub handle_rpc-IsSound :
      (message : String) (now : ℕ) (unknown : String) (body : Option Json) (node : Node F)
      → IsSound node
      → IsSound (handle_rpc message now unknown body node).node
  unfolding handle_rpc
  handle_rpc-IsSound message now unknown none node ok = ok
  handle_rpc-IsSound message now unknown (some (arr reqs)) node ok =
      process_batch-IsSound message now unknown reqs node ok
  handle_rpc-IsSound message now unknown (some null) node ok =
      process_single-IsSound message now unknown null node ok
  handle_rpc-IsSound message now unknown (some (bool b)) node ok =
      process_single-IsSound message now unknown (bool b) node ok
  handle_rpc-IsSound message now unknown (some (num n)) node ok =
      process_single-IsSound message now unknown (num n) node ok
  handle_rpc-IsSound message now unknown (some (str s)) node ok =
      process_single-IsSound message now unknown (str s) node ok
  handle_rpc-IsSound message now unknown (some (obj fs)) node ok =
      process_single-IsSound message now unknown (obj fs) node ok
