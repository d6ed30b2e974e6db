-- ===== src/Node/PeerBook.antt =====
-- The messages `getaddr` and `addr` in the handler of main.py, over the tables of peers. `clock` has the
-- reading at each address.
use mini_chain.Base.{
  ℕ, suc, ◌≡◌, refl, ◌||◌, String, Bool, true, false, none, some, List, [], ◌∷◌, str_eq,
}
use mini_chain.Json.{str, Items, nil, cons}
use mini_chain.P2p.Reader.{strip_prefix}
use mini_chain.Persistence.Peers.{PeerRow, is_banned_in, remember_peer, get_known_peers}

-- `network._peer_id`, and the tables under `network.data_path`.
pub record PeerBook : Type 0 where
  pub own : String
  pub banned : List PeerRow
  pub known : List PeerRow

-- What is behind the last `sep` in the text, or `best` without one.
after_last : String → String → String → String
after_last sep best String.[] = best
after_last sep best (String.◌∷◌ c s) =
    after_last sep (elim (strip_prefix sep (String.◌∷◌ c s)) [ none ↦ best | some rest ↦ rest ]) s

-- `addr.rsplit("/p2p/", 1)[-1]`
unfoldable pub candidate_id : String → String
unfolding strip_prefix after_last
candidate_id addr = after_last "/p2p/" addr addr

-- Whether the loop raised, the tables after it, and the addresses that are dialled.
pub record Learned : Type 0 where
  pub raised : Bool
  pub book : PeerBook
  pub dialled : List String

abbrev pub remembered : ℕ → String → PeerBook → PeerBook
remembered now addr book = record book {
  known = remember_peer (candidate_id addr) addr now book.known;
}

abbrev pub is_skipped : String → PeerBook → Bool
is_skipped id book = str_eq id book.own || is_banned_in id book.banned

-- One address, by whether it is skipped, and the rest of the loop.
abbrev pub learn_peer : Bool → ℕ → String → PeerBook → (PeerBook → Learned) → Learned
learn_peer true now addr book rest = rest book
learn_peer false now addr book rest =
    let after = rest (remembered now addr book) in record after { dialled = addr ∷ after.dialled }

-- `addr`: the loop over the addresses.
unfoldable pub learn_peers : (ℕ → ℕ) → ℕ → Items → PeerBook → Learned
learn_peers clock i nil book = record { raised = false; book = book; dialled = [] }
learn_peers clock i (cons (str addr) rest) book =
    learn_peer (is_skipped (candidate_id addr) book) (clock i) addr book
      (learn_peers clock (suc i) rest)
learn_peers clock i (cons v rest) book = record { raised = true; book = book; dialled = [] }

-- `[p["multiaddr"] for p in get_known_peers(network.data_path)]`
addresses : List PeerRow → List String
addresses [] = []
addresses (r ∷ rs) = r.text ∷ addresses rs

-- `getaddr`
unfoldable pub shared_addresses : PeerBook → List String
unfolding addresses
shared_addresses book = addresses (get_known_peers 50 book.known)

last_id : candidate_id "/ip4/1.2.3.4/p2p/relay/p2p-circuit/p2p/peer" ≡ "peer"
unfolding candidate_id
last_id = refl
