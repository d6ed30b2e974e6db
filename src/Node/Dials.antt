-- ===== src/Node/Dials.antt =====
-- Whom the handler of main.py dials when a peer names others.
use mini_chain.Base.{ℕ, suc, ◌≡◌, ◌≢◌, refl, String, Bool, true, false, All, arith}
use mini_chain.Json.{null, bool, num, str, arr, obj, Items, nil, cons}
use mini_chain.Persistence.Peers.{has_row, is_banned_in}
use mini_chain.Persistence.Book.{has_row-remember_peer}
use mini_chain.Node.PeerBook.{
  PeerBook, Learned, candidate_id, learn_peer, remembered, is_skipped, learn_peers,
}

learn_peer-kept :
    (q : String) (skip : Bool) (now : ℕ) (addr : String) (book : PeerBook)
    (rest : PeerBook → Learned)
    → ((b : PeerBook) → has_row q b.known ≡ true → has_row q (rest b).book.known ≡ true)
    → has_row q book.known ≡ true
    → has_row q (learn_peer skip now addr book rest).book.known ≡ true
learn_peer-kept q true now addr book rest keeps h = keeps book h
learn_peer-kept q false now addr book rest keeps h =
    keeps (remembered now addr book)
      (ground (arith, has_row-remember_peer q (candidate_id addr) addr now book.known))

learned_is_kept :
    (clock : ℕ → ℕ) (q : String) (i : ℕ) (addrs : Items) (book : PeerBook)
    → has_row q book.known ≡ true
    → has_row q (learn_peers clock i addrs book).book.known ≡ true
unfolding learn_peers
learned_is_kept clock q i nil book h = h
learned_is_kept clock q i (cons (str addr) rest) book h =
    learn_peer-kept q (is_skipped (candidate_id addr) book) (clock i) addr book
      (learn_peers clock (suc i) rest) (learned_is_kept clock q (suc i) rest) h
learned_is_kept clock q i (cons null rest) book h = h
learned_is_kept clock q i (cons (bool b) rest) book h = h
learned_is_kept clock q i (cons (num n) rest) book h = h
learned_is_kept clock q i (cons (arr js) rest) book h = h
learned_is_kept clock q i (cons (obj fs) rest) book h = h

-- Another peer that is not banned, and is now in the table.
unfoldable pub IsDialable : PeerBook → PeerBook → String → Type 0
IsDialable book after addr =
    (candidate_id addr ≢ book.own)
    × (is_banned_in (candidate_id addr) book.banned ≡ false)
    × (has_row (candidate_id addr) after.known ≡ true)

abbrev pub IsLearned : PeerBook → Learned → Type 0
IsLearned book after =
    (after.book.own ≡ book.own)
    × (after.book.banned ≡ book.banned)
    × All (IsDialable book after.book) after.dialled

learn_peer-IsLearned :
    (skip : Bool) (now : ℕ) (addr : String) (book : PeerBook) (rest : PeerBook → Learned)
    → is_skipped (candidate_id addr) book ≡ skip
    → ((b : PeerBook) → IsLearned b (rest b))
    → ((b : PeerBook)
        → has_row (candidate_id addr) b.known ≡ true
        → has_row (candidate_id addr) (rest b).book.known ≡ true)
    → IsLearned book (learn_peer skip now addr book rest)
unfolding IsDialable
learn_peer-IsLearned true now addr book rest e learned kept = learned book
learn_peer-IsLearned false now addr book rest e learned kept =
    let book' = remembered now addr book in
    let (own, banned, all) = learned book' in
    let there : has_row (candidate_id addr) book'.known ≡ true =
      ground (
        arith,
        has_row-remember_peer (candidate_id addr) (candidate_id addr) addr now book.known,
      ) in
    (own, banned, (((λ same. ground arith), ground arith, kept book' there), all))

-- Every address that is dialled because a peer named it is of another peer, of one that is not
-- banned, and of one that is in the table of known peers afterwards; whom the node is and has banned is
-- as before.
pub learn_peers-IsDialable :
    (clock : ℕ → ℕ) (i : ℕ) (addrs : Items) (book : PeerBook)
    → IsLearned book (learn_peers clock i addrs book)
unfolding learn_peers
learn_peers-IsDialable clock i nil book = (refl, refl, tt)
learn_peers-IsDialable clock i (cons (str addr) rest) book =
    learn_peer-IsLearned (is_skipped (candidate_id addr) book) (clock i) addr book
      (learn_peers clock (suc i) rest) refl (learn_peers-IsDialable clock (suc i) rest)
      (learned_is_kept clock (candidate_id addr) (suc i) rest)
learn_peers-IsDialable clock i (cons null rest) book = (refl, refl, tt)
learn_peers-IsDialable clock i (cons (bool b) rest) book = (refl, refl, tt)
learn_peers-IsDialable clock i (cons (num n) rest) book = (refl, refl, tt)
learn_peers-IsDialable clock i (cons (arr js) rest) book = (refl, refl, tt)
learn_peers-IsDialable clock i (cons (obj fs) rest) book = (refl, refl, tt)
