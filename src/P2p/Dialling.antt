-- ===== src/P2p/Dialling.antt =====
-- Dialling in `_serve` of minichain/p2p.py: the command CONNECT of `check_queue` around its awaits, and
-- the redial at the end of `stream_handler`. `peer_of` is `ID.from_base58` of an address's last hop, `none`
-- where it raises. Whether libp2p connects is an input, as are `is_peer_banned` and the time.
use mathlib.Core.Option.{map, get_or}
use mini_chain.Base.{
  ℕ, ◌*◌, ◌||◌, String, Bool, true, false, Option, none, some, List, [], ◌∷◌, ltb, if◌then◌else◌,
}
use mini_chain.Base.Dict.{Dict, lookup, insert, erase}
use mini_chain.Persistence.Peers.{PeerRow, remember_peer}
use mini_chain.P2p.{without_id, is_seen}
use mini_chain.P2p.Streams.{Stream, Streams, no_streams, has_peer, accept_stream, close, disconnect}

pub record Dialling : Type 0 where
  pub net : Streams
  pub dialing : List String
  pub dialed_addrs : Dict String
  pub redial_backoff : Dict ℕ
  pub known_peers : List PeerRow

abbrev pub no_dials : List PeerRow → Dialling
no_dials known = record {
  net = no_streams;
  dialing = [];
  dialed_addrs = [];
  redial_backoff = [];
  known_peers = known;
}

-- Seconds.
abbrev pub redial_backoff_max : ℕ
redial_backoff_max = 300

-- CONNECT up to the dial: the state with the peer in `dialing`, or none where nothing is dialled and
-- nothing changes.
abbrev pub dial_unless : Bool → String → Dialling → Option (String × Dialling)
dial_unless true peer d = none
dial_unless false peer d = some (peer, record d { dialing = peer ∷ d.dialing })

abbrev pub dial_peer : Option String → Dialling → Option (String × Dialling)
dial_peer none d = none
dial_peer (some peer) d = dial_unless (is_seen peer d.dialing || has_peer peer d.net.streams) peer d

unfoldable pub begin_dial :
    (String → Option String) → String → Dialling → Option (String × Dialling)
begin_dial peer_of arg d = dial_peer (peer_of arg) d

abbrev pub after_begin : Option (String × Dialling) → Dialling → Dialling
after_begin none d = d
after_begin (some (peer, d1)) d = d1

-- CONNECT after the dial: by whether all of it went well.
unfoldable pub end_dial : Bool → String → String → ℕ → Dialling → Dialling
end_dial true peer arg now d = record d {
  known_peers = remember_peer peer arg now d.known_peers;
  dialed_addrs = insert peer arg d.dialed_addrs;
  redial_backoff = erase peer d.redial_backoff;
}
end_dial false peer arg now d = record d { dialing = without_id peer d.dialing }

-- The start of `stream_handler`; none where the peer is banned, which changes nothing.
unfoldable pub start_stream : Bool → Stream → Dialling → Option Dialling
start_stream banned s d = map (λ net. record d { net = net }) (accept_stream banned s d.net)

-- The delay and the address of the redial, by the address that was dialled, if any.
abbrev pub redial : Bool → String → Option String → Dialling → Dialling × Option (String × ℕ)
redial banned peer none d = (d, none)
redial true peer (some addr) d = (d, none)
redial false peer (some addr) d =
    let delay = get_or (lookup peer d.redial_backoff) 1 in
    (
      record d {
        redial_backoff =
            insert peer
              (if ltb redial_backoff_max (delay * 2) then redial_backoff_max else delay * 2)
              d.redial_backoff;
      },
      some (addr, delay),
    )

-- The end of `stream_handler`; after the delay it puts a CONNECT to the address into the queue.
unfoldable pub end_stream : Bool → Stream → Dialling → Dialling × Option (String × ℕ)
end_stream banned s d = redial banned s.peer (lookup s.peer d.dialed_addrs) (record d {
  dialing = without_id s.peer d.dialing;
  net = close s d.net;
  dialed_addrs = erase s.peer d.dialed_addrs;
})

-- What the tasks do between two awaits, in any order.
pub data Move : Type 0 where
  connects : String → Move
  connected : Bool → String → String → ℕ → Move
  opens : Bool → Stream → Move
  ends : Bool → Stream → Move
  disconnects : String → Move

module _ (peer_of : String → Option String) where
  unfoldable pub move : Move → Dialling → Dialling
  move (connects arg) d = after_begin (begin_dial peer_of arg d) d
  move (connected ok peer arg now) d = end_dial ok peer arg now d
  move (opens banned s) d = get_or (start_stream banned s d) d
  move (ends banned s) d = (end_stream banned s d).0
  move (disconnects addr) d = record d { net = disconnect addr d.net }

  unfoldable pub run_moves : List Move → Dialling → Dialling
  run_moves [] d = d
  run_moves (m ∷ ms) d = run_moves ms (move m d)
