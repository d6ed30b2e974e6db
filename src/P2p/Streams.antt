-- ===== src/P2p/Streams.antt =====
-- The open streams of `_serve` in minichain/p2p.py: what `stream_handler` does at the start and at the end
-- of a stream, and the commands BROADCAST, UNICAST and DISCONNECT of `check_queue`. A stream has a number,
-- which stands for the object, and its peer. Dialling is left out.
use mini_chain.Base.{
  ℕ, ◌+◌, ◌-◌, ◌==◌, ◌&&◌, String, Bool, true, false, Option, none, some, List, [], ◌∷◌, ◌++◌,
  str_eq, if◌then◌else◌,
}
use mini_chain.P2p.{without_id, is_seen}
use Prim.Native.String

pub record Stream : Type 0 where
  pub number : ℕ
  pub peer : String

-- `streams`, `_peer_count` and the set `_peer_ids`.
pub record Streams : Type 0 where
  pub streams : List Stream
  pub peer_count : ℕ
  pub peer_ids : List String

abbrev pub no_streams : Streams
no_streams = record { streams = []; peer_count = 0; peer_ids = [] }

-- `f"peer:{peer_id}"`
unfoldable pub stream_address : Stream → String
stream_address s = String.◌++◌ "peer:" s.peer

abbrev pub same_stream : Stream → Stream → Bool
same_stream s t = s.number == t.number && str_eq s.peer t.peer

-- `stream in streams`
unfoldable pub has_stream : Stream → List Stream → Bool
has_stream s [] = false
has_stream s (t ∷ ts) = let rest = has_stream s ts in if same_stream t s then true else rest

-- `streams.remove(stream)`, of a stream that is there.
unfoldable pub without_stream : Stream → List Stream → List Stream
without_stream s [] = []
without_stream s (t ∷ ts) =
    let rest = without_stream s ts in if same_stream t s then ts else t ∷ rest

-- Whether there is a stream to a peer: `any(s.muxed_conn.peer_id == peer_id for s in streams)`.
unfoldable pub has_peer : String → List Stream → Bool
has_peer p [] = false
has_peer p (s ∷ ss) = let rest = has_peer p ss in if str_eq s.peer p then true else rest

-- `_peer_ids.add(peer_id)`
abbrev pub add_id : String → List String → List String
add_id i ids = if is_seen i ids then ids else i ∷ ids

-- The start of `stream_handler`: the streams, or none if the peer is banned and the stream reset.
unfoldable pub accept_stream : Bool → Stream → Streams → Option Streams
accept_stream true s st = none
accept_stream false s st = some (record {
  streams = st.streams ++ s ∷ [];
  peer_count = st.peer_count + 1;
  peer_ids = add_id s.peer st.peer_ids;
})

-- A stream that is in the list is taken out.
abbrev pub dropped : Bool → Stream → Streams → Streams
dropped false s st = st
dropped true s st = record {
  streams = without_stream s st.streams;
  peer_count = st.peer_count - 1;
  peer_ids = without_id s.peer st.peer_ids;
}

-- The end of `stream_handler`.
unfoldable pub close : Stream → Streams → Streams
close s st = dropped (has_stream s st.streams) s st

-- DISCONNECT: every stream of the address, out of a copy of the list.
unfoldable pub close_all : String → List Stream → Streams → Streams
close_all addr [] st = st
close_all addr (s ∷ ss) st =
    close_all addr ss (if str_eq (stream_address s) addr then close s st else st)

abbrev pub disconnect : String → Streams → Streams
disconnect addr st = close_all addr st.streams st

-- BROADCAST: the streams that are written to.
unfoldable pub broadcast_to : Option String → List Stream → List Stream
broadcast_to none ss = ss
broadcast_to (some exclude) [] = []
broadcast_to (some exclude) (s ∷ ss) =
    let rest = broadcast_to (some exclude) ss in
    if str_eq (stream_address s) exclude then rest else s ∷ rest

-- UNICAST
unfoldable pub unicast_to : String → List Stream → List Stream
unicast_to addr [] = []
unicast_to addr (s ∷ ss) =
    let rest = unicast_to addr ss in if str_eq (stream_address s) addr then s ∷ rest else rest
