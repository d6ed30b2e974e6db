-- ===== src/Persistence/Peers.antt =====
-- The tables of banned and known peers in minichain/persistence.py. Times are readings of a clock. A
-- database that does not exist reads as an empty table. SQL leaves the order of rows of one time open;
-- here it is the table's.
use mini_chain.Base.{
  ℕ, String, Bool, true, false, List, [], ◌∷◌, ◌++◌, take, ltb, str_eq, if◌then◌else◌,
}

-- `reason` and `timestamp`, or `multiaddr` and `last_seen`.
pub record PeerRow : Type 0 where
  pub peer_id : String
  pub text : String
  pub time : ℕ

-- `DELETE … WHERE peer_id = ?`
unfoldable pub delete_row : String → List PeerRow → List PeerRow
delete_row id [] = []
delete_row id (r ∷ rs) =
    let rest = delete_row id rs in if str_eq r.peer_id id then rest else r ∷ rest

-- `INSERT OR REPLACE`
abbrev pub replace_row : PeerRow → List PeerRow → List PeerRow
replace_row r rs = delete_row r.peer_id rs ++ r ∷ []

unfoldable pub has_row : String → List PeerRow → Bool
has_row id [] = false
has_row id (r ∷ rs) = let rest = has_row id rs in if str_eq r.peer_id id then true else rest

-- `ORDER BY … DESC`
unfoldable pub insert_newest : PeerRow → List PeerRow → List PeerRow
insert_newest r [] = r ∷ []
insert_newest r (s ∷ ss) =
    let rest = insert_newest r ss in if ltb r.time s.time then s ∷ rest else r ∷ s ∷ ss

unfoldable pub newest_first : List PeerRow → List PeerRow
newest_first [] = []
newest_first (r ∷ rs) = insert_newest r (newest_first rs)

unfoldable pub ban_peer : String → String → ℕ → List PeerRow → List PeerRow
ban_peer id reason now rs = replace_row (record { peer_id = id; text = reason; time = now }) rs

unfoldable pub unban_peer : String → List PeerRow → List PeerRow
unban_peer id rs = delete_row id rs

-- `is_peer_banned`
abbrev pub is_banned_in : String → List PeerRow → Bool
is_banned_in id rs = has_row id rs

unfoldable pub get_banned_peers : List PeerRow → List PeerRow
get_banned_peers rs = newest_first rs

unfoldable pub remember_peer : String → String → ℕ → List PeerRow → List PeerRow
remember_peer id multiaddr now rs =
    replace_row (record { peer_id = id; text = multiaddr; time = now }) rs

unfoldable pub get_known_peers : ℕ → List PeerRow → List PeerRow
get_known_peers limit rs = take limit (newest_first rs)
