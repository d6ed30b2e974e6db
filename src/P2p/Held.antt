-- ===== src/P2p/Held.antt =====
-- About the peers that stay in `dialing` of minichain/p2p.py.
use mathlib.Core.Option.{some-injective}
use mathlib.Core.Path.{subst}
use mini_chain.Base.{
  ℕ, ◌≡◌, ◌≢◌, refl, ◌∙◌, ap, String, Bool, true, false, Option, none, some, List, [], ◌∷◌,
  str_eq_refl, All, arith,
}
use mini_chain.Base.Dict.{lookup}
use mini_chain.P2p.{without_id, is_seen}
use mini_chain.P2p.Streams.{Stream, accept_stream}
use mini_chain.P2p.Dialling.{
  Dialling, dial_unless, dial_peer, after_begin, begin_dial, end_dial, start_stream, redial,
  end_stream, Move, connects, connected, opens, ends, disconnects, move, run_moves,
}

-- A move that neither ends a stream of the peer nor a dial of it.
unfoldable pub Leaves : String → Move → Type 0
Leaves peer (connects arg) = Unit {0}
Leaves peer (connected ok p arg now) = p ≢ peer
Leaves peer (opens banned s) = Unit {0}
Leaves peer (ends banned s) = s.peer ≢ peer
Leaves peer (disconnects addr) = Unit {0}

is_seen-without_other :
    (i j : String) (ids : List String)
    → i ≢ j
    → is_seen j ids ≡ true
    → is_seen j (without_id i ids) ≡ true
unfolding is_seen without_id
is_seen-without_other i j [] ne h = cc
is_seen-without_other i j (k ∷ ids) ne h =
    let rest = is_seen-without_other i j ids ne in ground arith

dial_unless-dialing :
    (peer : String) (b : Bool) (q : String) (d : Dialling)
    → is_seen peer d.dialing ≡ true
    → is_seen peer (after_begin (dial_unless b q d) d).dialing ≡ true
unfolding is_seen
dial_unless-dialing peer true q d h = h
dial_unless-dialing peer false q d h = rw h (ground arith)

dial_peer-dialing :
    (peer : String) (o : Option String) (d : Dialling)
    → is_seen peer d.dialing ≡ true
    → is_seen peer (after_begin (dial_peer o d) d).dialing ≡ true
dial_peer-dialing peer none d h = h
dial_peer-dialing peer (some q) d h = dial_unless-dialing peer _ q d h

redial-dialing :
    (banned : Bool) (peer : String) (o : Option String) (d : Dialling)
    → (redial banned peer o d).0.dialing ≡ d.dialing
redial-dialing banned peer none d = refl
redial-dialing true peer (some addr) d = refl
redial-dialing false peer (some addr) d = refl

move-dialing :
    (peer_of : String → Option String) (peer : String) (m : Move) (d : Dialling)
    → Leaves peer m
    → is_seen peer d.dialing ≡ true
    → is_seen peer (move peer_of m d).dialing ≡ true
unfolding Leaves move begin_dial end_dial end_stream start_stream accept_stream
move-dialing peer_of peer (connects arg) d _ h = dial_peer-dialing peer (peer_of arg) d h
move-dialing peer_of peer (connected true p arg now) d ne h = h
move-dialing peer_of peer (connected false p arg now) d ne h =
    is_seen-without_other p peer d.dialing ne h
move-dialing peer_of peer (opens true s) d _ h = h
move-dialing peer_of peer (opens false s) d _ h = h
move-dialing peer_of peer (ends banned s) d ne h =
    ap (is_seen peer) (redial-dialing banned s.peer (lookup s.peer d.dialed_addrs) _)
    ∙ is_seen-without_other s.peer peer d.dialing ne h
move-dialing peer_of peer (disconnects addr) d _ h = h

run_moves-dialing :
    (peer_of : String → Option String) (peer : String) (ms : List Move) (d : Dialling)
    → All (Leaves peer) ms
    → is_seen peer d.dialing ≡ true
    → is_seen peer (run_moves peer_of ms d).dialing ≡ true
unfolding run_moves
run_moves-dialing peer_of peer [] d _ h = h
run_moves-dialing peer_of peer (m ∷ ms) d (first, rest) h =
    run_moves-dialing peer_of peer ms (move peer_of m d) rest
      (move-dialing peer_of peer m d first h)

dial_unless-some :
    (b : Bool) (q : String) (d d1 : Dialling) (peer : String)
    → dial_unless b q d ≡ some (peer, d1)
    → is_seen peer d1.dialing ≡ true
unfolding is_seen
dial_unless-some true q d d1 peer h = cc
dial_unless-some false q d d1 peer h =
    subst (λ (r : String × Dialling). is_seen r.0 r.1.dialing ≡ true) (some-injective _ _ h)
      (rw (str_eq_refl q) refl)

dial_peer-some :
    (o : Option String) (d d1 : Dialling) (peer : String)
    → dial_peer o d ≡ some (peer, d1)
    → is_seen peer d1.dialing ≡ true
dial_peer-some none d d1 peer h = cc
dial_peer-some (some q) d d1 peer h = dial_unless-some _ q d d1 peer h

-- A dial to a banned peer that goes well: the start of the stream changes nothing, and whatever follows,
-- also after the ban is lifted, no CONNECT to the peer dials it, until a stream or another dial of it ends.
pub rejected_stays_dialing :
    (peer_of : String → Option String) (arg peer : String) (now : ℕ) (s : Stream) (d d1 : Dialling)
    (ms : List Move) (again : String)
    → begin_dial peer_of arg d ≡ some (peer, d1)
    → s.peer ≡ peer
    → All (Leaves peer) ms
    → peer_of again ≡ some peer
    → (start_stream true s (end_dial true peer arg now d1) ≡ none)
      × (begin_dial peer_of again (run_moves peer_of ms (end_dial true peer arg now d1)) ≡ none)
unfolding begin_dial start_stream accept_stream end_dial
rejected_stays_dialing peer_of arg peer now s d d1 ms again dialled same left e =
    let held =
      run_moves-dialing peer_of peer ms (end_dial true peer arg now d1) left
        (dial_peer-some (peer_of arg) d d1 peer dialled) in
    (refl, rw (e, held) refl)
