-- ===== src/P2p/Redials.antt =====
-- About the redials of `stream_handler` in minichain/p2p.py.
use mathlib.Core.Option.{get_or, some-injective}
use mini_chain.Base.{
  ℕ, ◌*◌, ◌≡◌, ◌≢◌, refl, sym, ◌∙◌, ap, String, Bool, true, false, Option, none, some, List, [],
  ◌∷◌, ltb, if◌then◌else◌, arith,
}
use mini_chain.Base.Dict.{lookup, erase, lookup-insert, lookup-erase}
use mini_chain.Persistence.Peers.{PeerRow}
use mini_chain.P2p.Streams.{Stream, accept_stream}
use mini_chain.P2p.Dialling.{
  Dialling, no_dials, redial_backoff_max, dial_unless, dial_peer, after_begin, begin_dial, end_dial,
  start_stream, redial, end_stream, Move, connects, connected, opens, ends, disconnects, move,
  run_moves,
}

-- No delay is kept for a peer whose address is kept for a redial.
unfoldable pub IsFresh : Dialling → Type 0
IsFresh d =
    (peer addr : String)
    → lookup peer d.dialed_addrs ≡ some addr
    → lookup peer d.redial_backoff ≡ none

dial_unless-IsFresh :
    (b : Bool) (peer : String) (d : Dialling)
    → IsFresh d
    → IsFresh (after_begin (dial_unless b peer d) d)
unfolding IsFresh
dial_unless-IsFresh true peer d fresh = fresh
dial_unless-IsFresh false peer d fresh = fresh

dial_peer-IsFresh :
    (o : Option String) (d : Dialling) → IsFresh d → IsFresh (after_begin (dial_peer o d) d)
dial_peer-IsFresh none d fresh = fresh
dial_peer-IsFresh (some peer) d fresh = dial_unless-IsFresh _ peer d fresh

end_dial-IsFresh :
    (ok : Bool) (peer arg : String) (now : ℕ) (d : Dialling)
    → IsFresh d
    → IsFresh (end_dial ok peer arg now d)
unfolding IsFresh end_dial
end_dial-IsFresh true peer arg now d fresh = λ q addr h.
    let old = fresh q addr in
    ground (arith, lookup-insert peer q arg d.dialed_addrs, lookup-erase peer q d.redial_backoff)
end_dial-IsFresh false peer arg now d fresh = fresh

start_stream-IsFresh :
    (banned : Bool) (s : Stream) (d : Dialling)
    → IsFresh d
    → IsFresh (get_or (start_stream banned s d) d)
unfolding IsFresh start_stream accept_stream
start_stream-IsFresh true s d fresh = fresh
start_stream-IsFresh false s d fresh = fresh

erase-IsFresh :
    (s : Stream) (d d' : Dialling)
    → IsFresh d
    → d'.dialed_addrs ≡ erase s.peer d.dialed_addrs
    → ((q : String) → s.peer ≢ q → lookup q d'.redial_backoff ≡ lookup q d.redial_backoff)
    → IsFresh d'
unfolding IsFresh
erase-IsFresh s d d' fresh addrs others q addr h =
    let old = fresh q addr in
    let kept = others q in
    let h' : lookup q (erase s.peer d.dialed_addrs) ≡ some addr = ap (lookup q) (sym addrs) ∙ h in
    ground (arith, lookup-erase s.peer q d.dialed_addrs)

redial-IsFresh :
    (banned : Bool) (s : Stream) (o : Option String) (d d1 : Dialling)
    → IsFresh d
    → d1.dialed_addrs ≡ erase s.peer d.dialed_addrs
    → d1.redial_backoff ≡ d.redial_backoff
    → IsFresh (redial banned s.peer o d1).0
redial-IsFresh banned s none d d1 fresh addrs same =
    erase-IsFresh s d d1 fresh addrs (λ q _. ap (lookup q) same)
redial-IsFresh true s (some addr) d d1 fresh addrs same =
    erase-IsFresh s d d1 fresh addrs (λ q _. ap (lookup q) same)
redial-IsFresh false s (some addr) d d1 fresh addrs same =
    let delay = get_or (lookup s.peer d1.redial_backoff) 1 in
    let next = if ltb redial_backoff_max (delay * 2) then redial_backoff_max else delay * 2 in
    erase-IsFresh s d _ fresh addrs
      (λ q ne. ground (arith, lookup-insert s.peer q next d1.redial_backoff) ∙ ap (lookup q) same)

end_stream-IsFresh :
    (banned : Bool) (s : Stream) (d : Dialling) → IsFresh d → IsFresh (end_stream banned s d).0
unfolding end_stream
end_stream-IsFresh banned s d fresh =
    redial-IsFresh banned s (lookup s.peer d.dialed_addrs) d _ fresh refl refl

move-IsFresh :
    (peer_of : String → Option String) (m : Move) (d : Dialling)
    → IsFresh d
    → IsFresh (move peer_of m d)
unfolding move begin_dial
move-IsFresh peer_of (connects arg) d fresh = dial_peer-IsFresh (peer_of arg) d fresh
move-IsFresh peer_of (connected ok peer arg now) d fresh = end_dial-IsFresh ok peer arg now d fresh
move-IsFresh peer_of (opens banned s) d fresh = start_stream-IsFresh banned s d fresh
move-IsFresh peer_of (ends banned s) d fresh = end_stream-IsFresh banned s d fresh
move-IsFresh peer_of (disconnects addr) d fresh = (unfold IsFresh in fresh)

run_moves-IsFresh :
    (peer_of : String → Option String) (ms : List Move) (d : Dialling)
    → IsFresh d
    → IsFresh (run_moves peer_of ms d)
unfolding run_moves
run_moves-IsFresh peer_of [] d fresh = fresh
run_moves-IsFresh peer_of (m ∷ ms) d fresh =
    run_moves-IsFresh peer_of ms (move peer_of m d) (move-IsFresh peer_of m d fresh)

no_dials-IsFresh : (known : List PeerRow) → IsFresh (no_dials known)
unfolding IsFresh lookup
no_dials-IsFresh known q addr h = cc

redial-delay :
    (banned : Bool) (peer : String) (o : Option String) (d d' : Dialling) (addr : String)
    (delay : ℕ)
    → redial banned peer o d ≡ (d', some (addr, delay))
    → (banned ≡ false) × (o ≡ some addr) × (delay ≡ get_or (lookup peer d.redial_backoff) 1)
redial-delay banned peer none d d' addr delay h =
    let clash : ◌≡◌ {A = Option (String × ℕ)} none (some (addr, delay)) =
      ap (λ (x : Dialling × Option (String × ℕ)). x.1) h in
    cc
redial-delay true peer (some a) d d' addr delay h =
    let clash : ◌≡◌ {A = Option (String × ℕ)} none (some (addr, delay)) =
      ap (λ (x : Dialling × Option (String × ℕ)). x.1) h in
    cc
redial-delay false peer (some a) d d' addr delay h =
    let e : (a, get_or (lookup peer d.redial_backoff) 1) ≡ (addr, delay) =
      some-injective _ _ (ap (λ (x : Dialling × Option (String × ℕ)). x.1) h) in
    (refl, ap (λ (x : String × ℕ). some x.0) e, sym (ap (λ (x : String × ℕ). x.1) e))

-- After any dials, starts and ends of streams and disconnects, in any order: a stream whose end leads to a
-- redial is of a peer that is not banned, the redial is of the address that was dialled, and its delay is
-- one second, whatever failed before.
pub end_stream-delay :
    (peer_of : String → Option String) (known : List PeerRow) (ms : List Move) (banned : Bool)
    (s : Stream) (d' : Dialling) (addr : String) (delay : ℕ)
    → end_stream banned s (run_moves peer_of ms (no_dials known)) ≡ (d', some (addr, delay))
    → (banned ≡ false)
      × (lookup s.peer (run_moves peer_of ms (no_dials known)).dialed_addrs ≡ some addr)
      × (delay ≡ 1)
unfolding end_stream IsFresh
end_stream-delay peer_of known ms banned s d' addr delay h =
    let d = run_moves peer_of ms (no_dials known) in
    let (allowed, dialled, e) =
      redial-delay banned s.peer (lookup s.peer d.dialed_addrs) _ d' addr delay h in
    let fresh = run_moves-IsFresh peer_of ms (no_dials known) (no_dials-IsFresh known) in
    (allowed, dialled, e ∙ ap (λ o. get_or o 1) (fresh s.peer addr dialled))
