-- ===== src/P2p/Tests.antt =====
-- The counters and the cache at concrete peers and messages.
use mini_chain.Base.{◌≡◌, refl, none, some, List, [], ◌∷◌, str_dec, str_eq→ne, arith}
use mini_chain.Json.{Json, str, obj, end, field}
use mini_chain.Transaction.{valid, failed, invalid, malformed}
use mini_chain.Demo.{demo}
use mini_chain.Transaction.Parse.{get}
use mini_chain.P2p.Reader.{Reader, message_id, after_handler, peer_id_from_addr, receive}
use mini_chain.P2p.Gossip.{Traffic, heard, traffic, receive-once}
use mini_chain.P2p.{Counts, is_duplicate, is_seen, mark_seen, handle_validation_status}
use mini_chain.P2p.Bans.{Events, watch, is_peer_banned, reaches_any, watch-bans}

abbrev thresholds : Counts
thresholds = record { malformed_count = 3; failed_count = 2; invalid_count = 1 }

abbrev events : Events
events = ("pp", failed) ∷ ("qq", invalid) ∷ ("pp", malformed) ∷ ("pp", failed) ∷ []

watch-bans_example :
    is_peer_banned "pp" (watch thresholds events).banned ≡ reaches_any thresholds "pp" events
watch-bans_example = watch-bans thresholds "pp" events (omega arith) (omega arith) (omega arith)

abbrev fresh : Reader
fresh = record {
  watched = record { counters = []; banned = [] };
  seen_tx_ids = [];
  seen_block_hashes = "b1" ∷ [];
  broadcasts = [];
  disconnected = [];
}

abbrev announced : Json
announced = obj (field "hash" (str "b2") end)

announced_id : message_id "block" announced ≡ some (some "b2")
unfolding message_id get str_dec
announced_id = refl

relayed_on :
    (receive thresholds "block" announced "peer:pp" (some (some valid)) fresh).broadcasts
    ≡ ("block", announced, "peer:pp") ∷ []
unfolding receive after_handler message_id get str_dec is_duplicate is_seen mark_seen
    handle_validation_status
relayed_on = refl

-- Heard from one peer, again from another after a message of a third.
abbrev since : List Traffic
since = heard "block" (obj end) "peer:rr" none ∷ []

receive-once_example :
    let r =
      traffic thresholds since
        (receive thresholds "block" announced "peer:pp" (some (some valid)) fresh) in
    receive thresholds "block" announced "peer:qq" none r ≡ r
receive-once_example =
    receive-once thresholds "block" announced "b2" "peer:pp" "peer:qq" none fresh since announced_id
      (unfold str_dec in str_eq→ne "b2" "" refl) (unfold is_duplicate str_dec in refl) (omega arith)

without_prefix : peer_id_from_addr "peer:pp" ≡ "pp"
unfolding peer_id_from_addr
without_prefix = refl
