-- ===== src/P2p.antt =====
-- minichain/p2p.py: the counters of misbehaviour by which peers are banned, their decay, and the
-- cache of seen messages. Sockets, threads and libp2p are left out; a ban is a name in a list, which
-- `ban_peer` of persistence.py keeps in a table.
pub mod Bans
mod Seen
pub mod Reader
mod Gossip
pub mod Frames
mod Lines
mod Framing
pub mod Dialling
mod Redials
mod Held
mod DialTests
pub mod Streams
mod Counted
mod Sends
mod Tests
mod StreamTests
use mini_chain.Base.{
  ℕ, suc, ◌+◌, ◌/◌, ◌==◌, String, Bool, true, false, Option, none, some, List, [], ◌∷◌, ◌++◌, ◌&&◌,
  ◌||◌, not, ltb, leb, length, str_eq, if◌then◌else◌,
}
use mini_chain.Base.Dict.{Dict, lookup, insert}
use mini_chain.Transaction.{ValidationStatus, valid, invalid, failed, malformed}

-- The counters of one peer, and the thresholds.
pub record Counts : Type 0 where
  pub malformed_count : ℕ
  pub failed_count : ℕ
  pub invalid_count : ℕ

abbrev pub no_counts : Counts
no_counts = record { malformed_count = 0; failed_count = 0; invalid_count = 0 }

-- The entry for a status; VALID has none.
unfoldable pub count_of : ValidationStatus → Counts → ℕ
count_of malformed c = c.malformed_count
count_of failed c = c.failed_count
count_of invalid c = c.invalid_count
count_of valid c = 0

unfoldable pub count_up : ValidationStatus → Counts → Counts
count_up malformed c = record c { malformed_count = c.malformed_count + 1 }
count_up failed c = record c { failed_count = c.failed_count + 1 }
count_up invalid c = record c { invalid_count = c.invalid_count + 1 }
count_up valid c = c

-- `_peer_counters`, with the banned peers.
pub record Watched : Type 0 where
  pub counters : Dict Counts
  pub banned : List String

unfoldable pub counts_at : String → Dict Counts → Counts
counts_at peer d = elim (lookup peer d) [ none ↦ no_counts | some c ↦ c ]

-- `_increment_counter`: the counters, and whether the threshold is reached.
unfoldable pub increment_counter :
    Counts → String → ValidationStatus → Dict Counts → Dict Counts × Bool
increment_counter thresholds peer status d =
    let c = count_up status (counts_at peer d) in
    (insert peer c d, leb (count_of status thresholds) (count_of status c))

abbrev pub always_disconnect : ValidationStatus → Bool
always_disconnect malformed = true
always_disconnect invalid = true
always_disconnect failed = false
always_disconnect valid = false

abbrev pub with_ban : Bool → String → List String → List String
with_ban true peer banned = peer ∷ banned
with_ban false peer banned = banned

abbrev pub counted : Counts → String → ValidationStatus → Watched → Watched × Bool
counted thresholds peer status w =
    let (d, exceeded) = increment_counter thresholds peer status w.counters in
    (
      record { counters = d; banned = with_ban exceeded peer w.banned },
      always_disconnect status || exceeded,
    )

-- `_handle_validation_status`, and whether the peer is disconnected.
unfoldable pub handle_validation_status :
    Counts → String → ValidationStatus → Watched → Watched × Bool
unfolding increment_counter
handle_validation_status thresholds peer valid w = (w, false)
handle_validation_status thresholds peer s w = counted thresholds peer s w

abbrev pub halved : Counts → Counts
halved c = record {
  malformed_count = c.malformed_count / 2;
  failed_count = c.failed_count / 2;
  invalid_count = c.invalid_count / 2;
}

abbrev pub all_zero : Counts → Bool
all_zero c = c.malformed_count == 0 && (c.failed_count == 0 && c.invalid_count == 0)

-- One round of `_decay_counters`: every counter is halved, and a peer without any is forgotten.
unfoldable pub decay_counters : Dict Counts → Dict Counts
decay_counters [] = []
decay_counters ((peer, c) ∷ d) =
    let rest = decay_counters d in if all_zero (halved c) then rest else (peer, halved c) ∷ rest

-- The keys of an `OrderedDict` without one of them.
unfoldable pub without_id : String → List String → List String
without_id i [] = []
without_id i (j ∷ js) = let rest = without_id i js in if str_eq j i then rest else j ∷ rest

abbrev pub evict : ℕ → List String → List String
evict max_size [] = []
evict max_size (i ∷ is) = if ltb max_size (length (i ∷ is)) then is else i ∷ is

-- `_mark_seen` of a message with this id, on the keys of the `OrderedDict`.
unfoldable pub mark_seen : ℕ → String → List String → List String
unfolding without_id
mark_seen max_size i seen =
    if str_eq i "" then seen else evict max_size (without_id i seen ++ i ∷ [])

-- `mid in self._seen_set(msg_type)`
unfoldable pub is_seen : String → List String → Bool
is_seen i [] = false
is_seen i (j ∷ js) = let rest = is_seen i js in if str_eq j i then true else rest

-- `_is_duplicate`, of a message with this id.
unfoldable pub is_duplicate : String → List String → Bool
unfolding is_seen
is_duplicate i seen = if str_eq i "" then false else is_seen i seen
