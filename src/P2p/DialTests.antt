-- ===== src/P2p/DialTests.antt =====
-- Dialling at concrete addresses and peers.
use mini_chain.Base.{
  ℕ, ◌≡◌, refl, String, true, false, Option, none, some, List, [], ◌∷◌, All, str_dec,
}
use mini_chain.Base.Dict.{lookup, insert, erase}
use mini_chain.P2p.{without_id, is_seen}
use mini_chain.P2p.Streams.{Stream, has_peer, has_stream, without_stream, accept_stream, close}
use mini_chain.P2p.Dialling.{
  Dialling, no_dials, begin_dial, end_dial, start_stream, end_stream, Move, connects, connected,
  opens, ends, move, run_moves,
}
use mini_chain.P2p.Redials.{end_stream-delay}
use mini_chain.P2p.Held.{Leaves, rejected_stays_dialing}

abbrev peer_of : String → Option String
peer_of arg = some "pp"

abbrev stream : ℕ → Stream
stream n = record { number = n; peer = "pp" }

-- A stream that is dialled and lost, and dialled again.
abbrev dialled_twice : List Move
dialled_twice =
    connects "/p2p/pp"
    ∷ connected true "pp" "/p2p/pp" 5
    ∷ opens false (stream 1)
    ∷ ends false (stream 1)
    ∷ connects "/p2p/pp"
    ∷ connected true "pp" "/p2p/pp" 9
    ∷ opens false (stream 2)
    ∷ []

redialled : end_stream false (stream 2) (run_moves peer_of dialled_twice (no_dials [])) ≡ (
  (end_stream false (stream 2) (run_moves peer_of dialled_twice (no_dials []))).0,
  some ("/p2p/pp", 1),
)
unfolding end_stream run_moves move begin_dial end_dial start_stream accept_stream close is_seen
    has_peer has_stream without_stream without_id lookup insert erase str_dec
redialled = refl

end_stream-delay_example :
    (false ≡ false)
    × (lookup "pp" (run_moves peer_of dialled_twice (no_dials [])).dialed_addrs ≡ some "/p2p/pp")
    × (◌≡◌ {A = ℕ} 1 1)
end_stream-delay_example =
    end_stream-delay peer_of [] dialled_twice false (stream 2) _ "/p2p/pp" 1 redialled

abbrev dialling_pp : Dialling
dialling_pp = record (no_dials []) { dialing = "pp" ∷ [] }

first_dial : begin_dial peer_of "/p2p/pp" (no_dials []) ≡ some ("pp", dialling_pp)
unfolding begin_dial is_seen has_peer
first_dial = refl

later_moves : All (Leaves "pp") (connects "/p2p/pp" ∷ opens true (stream 1) ∷ [])
unfolding Leaves
later_moves = (tt, (tt, tt))

rejected_stays_dialing_example :
    (start_stream true (stream 1) (end_dial true "pp" "/p2p/pp" 5 dialling_pp) ≡ none)
    × (begin_dial peer_of "/p2p/pp" (
          run_moves peer_of
            (connects "/p2p/pp" ∷ opens true (stream 1) ∷ [])
            (end_dial true "pp" "/p2p/pp" 5 dialling_pp))
        ≡ none)
rejected_stays_dialing_example =
    rejected_stays_dialing peer_of "/p2p/pp" "pp" 5 (stream 1) (no_dials []) dialling_pp
      (connects "/p2p/pp" ∷ opens true (stream 1) ∷ []) "/p2p/pp" first_dial refl later_moves refl
