-- ===== src/P2p/StreamTests.antt =====
-- Streams at concrete bytes and peers.
use mini_chain.Base.{ℕ, ◌≡◌, refl, false, some, List, [], ◌∷◌, str_dec, arith}
use mini_chain.Json.{obj, end}
use mini_chain.P2p.{is_seen}
use mini_chain.P2p.Frames.{read_stream, line_events, framed}
use mini_chain.P2p.Framing.{bytes_read, read_stream-framed}
use mini_chain.P2p.Lines.{IsOneLine}
use mini_chain.P2p.Streams.{Stream, Streams, no_streams, accept_stream, close}
use mini_chain.P2p.Counted.{IsCounted, starts, accepts, closes, Serves-IsCounted}

-- "{}" and "[]", in three reads.
abbrev texts : List (List ℕ)
texts = (123 ∷ 125 ∷ []) ∷ (91 ∷ 93 ∷ []) ∷ []

abbrev reads : List (List ℕ)
reads = (123 ∷ []) ∷ (125 ∷ 10 ∷ 91 ∷ []) ∷ (93 ∷ 10 ∷ []) ∷ []

same_bytes : bytes_read reads ≡ framed texts
unfolding bytes_read framed
same_bytes = refl

texts-IsOneLine : IsOneLine (123 ∷ 125 ∷ []) × (IsOneLine (91 ∷ 93 ∷ []) × Unit {0})
unfolding IsOneLine
texts-IsOneLine = ((refl, (refl, tt)), ((refl, (refl, tt)), tt))

read_stream-framed_example :
    ((read_stream (λ l. some (obj end)) "peer:pp" 5 [] reads).events
      ≡ line_events (λ l. some (obj end)) "peer:pp" texts)
    × ((read_stream (λ l. some (obj end)) "peer:pp" 5 [] reads).overflow ≡ false)
read_stream-framed_example =
    read_stream-framed (λ l. some (obj end)) "peer:pp" 5 2 3 texts reads (omega arith)
      texts-IsOneLine (omega arith, (omega arith, tt))
      (omega arith, (omega arith, (omega arith, tt))) same_bytes

abbrev stream : ℕ → Stream
stream n = record { number = n; peer = "pp" }

abbrev both : Streams
both = record { streams = stream 1 ∷ stream 2 ∷ []; peer_count = 2; peer_ids = "pp" ∷ [] }

first_accepted :
    accept_stream false (stream 1) no_streams
    ≡ some (record { streams = stream 1 ∷ []; peer_count = 1; peer_ids = "pp" ∷ [] })
unfolding accept_stream is_seen
first_accepted = refl

second_accepted :
    accept_stream false
      (stream 2)
      (record { streams = stream 1 ∷ []; peer_count = 1; peer_ids = "pp" ∷ [] })
    ≡ some both
unfolding accept_stream is_seen str_dec
second_accepted = refl

Serves-IsCounted_example : IsCounted (close (stream 1) both)
Serves-IsCounted_example = Serves-IsCounted (close (stream 1) both) (
    closes (stream 1)
      (accepts false (stream 2) (accepts false (stream 1) starts first_accepted) second_accepted))
