-- ===== src/Node/Tests.antt =====
-- A node with one pending transaction mines it, and answers messages.
use mini_chain.Base.{String, false, some, [], ◌∷◌, arith, ◌≡◌, true, str_dec, refl}
use mini_chain.Base.Int.{ℤ, pos}
use mini_chain.Json.{Items, num, str, nil, cons}
use mini_chain.Persistence.Peers.{has_row, delete_row, remember_peer}
use mini_chain.Node.PeerBook.{PeerBook, candidate_id, learn_peers}
use mini_chain.Node.Dials.{IsLearned, learn_peers-IsDialable}
use mini_chain.Transaction.{invalid}
use mini_chain.Demo.{demo}
use mini_chain.Demo.Nodes.{whole, named, genesis, node_0}
use mini_chain.Block.{Block}
use mini_chain.Chain.Growth.{IsLinked}
use mini_chain.Pow.{Watch}
use mini_chain.Node.{Node}
use mini_chain.Node.Mining.{Produced, mine_and_process_block}
use mini_chain.Node.Mines.{Mines, mine_and_process_block-Mines}
use mini_chain.Node.Handler.{block_message, handler, request}
use mini_chain.Node.Sound.{IsSound}
use mini_chain.Node.Forks.{fork_sender_banned}
use mini_chain.P2p.{Counts, Watched, handle_validation_status}
use mini_chain.P2p.Bans.{is_peer_banned}
use mini_chain.Node.Invariant.{begins, mines, receives, Reaches-IsSound}

abbrev idle : Watch
idle = record { timed_out = λ n. false; should_stop = λ n h. false }

abbrev outcome : Produced × Node ℤ
outcome = mine_and_process_block 110 111 idle 40 3 "ee" node_0

mine_and_process_block-Mines_example : Mines "ee" node_0.chain outcome
mine_and_process_block-Mines_example = mine_and_process_block-Mines 110 111 idle 40 3 "ee" node_0

node_0-IsSound : IsSound node_0
unfolding IsSound IsLinked
node_0-IsSound = (tt, (((λ _. omega arith, tt), (tt, tt)), omega arith))

abbrev node_1 : Node ℤ
node_1 = (handler 500 (block_message (some genesis)) outcome.1).node

Reaches-IsSound_example : IsSound node_1
Reaches-IsSound_example =
    Reaches-IsSound String node_0 node_1 node_0-IsSound
      (receives 500 (block_message (some genesis)) (mines 110 111 idle 40 3 "ee" begins))

abbrev thresholds : Counts
thresholds = record { malformed_count = 15; failed_count = 15; invalid_count = 1 }

abbrev no_one : Watched
no_one = record { counters = []; banned = [] }

-- A block that is two ahead of our last one.
abbrev ahead : Block
ahead = record genesis { index = 2; previous_hash = "55"; hash = some "66"; timestamp = 120 }

fork_sender_banned_example :
    let out = handler 500 (block_message (some ahead)) node_0 in
    (out.status ≡ some invalid)
    × (out.sent ≡ request 1 500 ∷ [])
    × (is_peer_banned "pp" (handle_validation_status thresholds "pp" invalid no_one).0.banned
        ≡ true)
fork_sender_banned_example =
    fork_sender_banned 500 ahead genesis node_0 thresholds "pp" no_one refl (unfold str_dec in refl)
      refl

abbrev book : PeerBook
book = record {
  own = "me";
  banned = record { peer_id = "qq"; text = "manual"; time = 1 } ∷ [];
  known = [];
}

abbrev named_peers : Items
named_peers =
    cons (str "/p2p/me")
      (cons (str "/ip4/1/p2p/pp") (cons (str "/ip4/2/p2p/qq") (cons (num (pos 3)) nil)))

only_pp : learn_peers (λ i. i) 0 named_peers book ≡ record {
  raised = true;
  book = record book { known = record { peer_id = "pp"; text = "/ip4/1/p2p/pp"; time = 1 } ∷ [] };
  dialled = "/ip4/1/p2p/pp" ∷ [];
}
unfolding learn_peers candidate_id str_dec remember_peer has_row delete_row
only_pp = refl

learn_peers-IsDialable_example : IsLearned book (learn_peers (λ i. i) 0 named_peers book)
learn_peers-IsDialable_example = learn_peers-IsDialable (λ i. i) 0 named_peers book
