-- ===== src/P2p/Bans.antt =====
-- Who is banned: exactly the peers that have reached a threshold.
use mini_chain.Base.{
  ℕ, ◌+◌, ◌≤◌, String, ◌≡◌, ◌≢◌, refl, Bool, true, false, List, [], ◌∷◌, arith, str_eq,
  if◌then◌else◌, leb, ◌∙◌, ap, ◌||◌,
}
use mini_chain.Base.Dict.{Dict, lookup, insert, lookup-insert}
use mini_chain.Transaction.{ValidationStatus, valid, invalid, failed, malformed}
use mini_chain.P2p.{
  Counts, count_of, count_up, Watched, counts_at, increment_counter, handle_validation_status,
}

same_status : ValidationStatus → ValidationStatus → Bool
same_status malformed malformed = true
same_status failed failed = true
same_status invalid invalid = true
same_status valid valid = true
same_status _ _ = false

-- The events so far, the latest first: a peer, and the status of its message.
abbrev pub Events : Type 0
Events = List (String × ValidationStatus)

unfoldable pub watch : Counts → Events → Watched
watch thresholds [] = record { counters = []; banned = [] }
watch thresholds ((peer, s) ∷ es) =
    (handle_validation_status thresholds peer s (watch thresholds es)).0

-- How many of the events are of this peer and status.
unfoldable pub occurrences : String → ValidationStatus → Events → ℕ
unfolding same_status
occurrences peer s [] = 0
occurrences peer s ((q, r) ∷ es) =
    let rest = occurrences peer s es in
    if str_eq q peer then if same_status r s then rest + 1 else rest else rest

count_up-count_of :
    (r s : ValidationStatus) (c : Counts)
    → s ≢ valid
    → count_of s (count_up r c) ≡ (if same_status r s then count_of s c + 1 else count_of s c)
unfolding count_up count_of same_status
count_up-count_of r s c ne = ground arith

counts_at-insert :
    (q peer : String) (c : Counts) (d : Dict Counts)
    → counts_at peer (insert q c d) ≡ (if str_eq q peer then c else counts_at peer d)
unfolding counts_at
counts_at-insert q peer c d = ground (arith, lookup-insert q peer c d)

inserted-count :
    (q peer : String) (r s : ValidationStatus) (d : Dict Counts)
    → s ≢ valid
    → count_of s (counts_at peer (insert q (count_up r (counts_at q d)) d)) ≡ (
        if str_eq q peer
        then if same_status r s
          then count_of s (counts_at peer d) + 1
          else count_of s (counts_at peer d)
        else count_of s (counts_at peer d))
inserted-count q peer r s d ne = ground (
  arith,
  counts_at-insert q peer (count_up r (counts_at q d)) d,
  count_up-count_of r s (counts_at q d) ne,
)

handled-count :
    (thresholds : Counts) (q peer : String) (r s : ValidationStatus) (w : Watched)
    → s ≢ valid
    → count_of s (counts_at peer (handle_validation_status thresholds q r w).0.counters) ≡ (
        if str_eq q peer
        then if same_status r s
          then count_of s (counts_at peer w.counters) + 1
          else count_of s (counts_at peer w.counters)
        else count_of s (counts_at peer w.counters))
unfolding handle_validation_status increment_counter same_status
handled-count thresholds q peer malformed s w ne = inserted-count q peer malformed s w.counters ne
handled-count thresholds q peer failed s w ne = inserted-count q peer failed s w.counters ne
handled-count thresholds q peer invalid s w ne = inserted-count q peer invalid s w.counters ne
handled-count thresholds q peer valid s w ne = ground arith

-- Without decay a counter is the number of events.
counters-occurrences :
    (thresholds : Counts) (peer : String) (s : ValidationStatus) (es : Events)
    → s ≢ valid
    → count_of s (counts_at peer (watch thresholds es).counters) ≡ occurrences peer s es
unfolding watch occurrences counts_at count_of lookup
counters-occurrences thresholds peer s [] ne = ground arith
counters-occurrences thresholds peer s ((q, r) ∷ es) ne = ground (
  arith,
  handled-count thresholds q peer r s (watch thresholds es) ne,
  counters-occurrences thresholds peer s es ne,
)

-- `is_peer_banned`
unfoldable pub is_peer_banned : String → List String → Bool
is_peer_banned peer [] = false
is_peer_banned peer (q ∷ qs) =
    let rest = is_peer_banned peer qs in if str_eq q peer then true else rest

-- Whether the peer's events of this status reach its threshold.
abbrev reaches : Counts → String → ValidationStatus → Events → Bool
reaches thresholds peer s es = leb (count_of s thresholds) (occurrences peer s es)

unfoldable pub reaches_any : Counts → String → Events → Bool
reaches_any thresholds peer es =
    reaches thresholds peer malformed es
    || (reaches thresholds peer failed es || reaches thresholds peer invalid es)

-- The new counter of the peer of an event.
next-count :
    (thresholds : Counts) (q : String) (r : ValidationStatus) (es : Events)
    → r ≢ valid
    → count_of r (count_up r (counts_at q (watch thresholds es).counters)) ≡ occurrences q r es + 1
unfolding same_status
next-count thresholds q malformed es ne =
    count_up-count_of malformed malformed _ ne
    ∙ ap (λ n. n + 1) (counters-occurrences thresholds q malformed es ne)
next-count thresholds q failed es ne =
    count_up-count_of failed failed _ ne
    ∙ ap (λ n. n + 1) (counters-occurrences thresholds q failed es ne)
next-count thresholds q invalid es ne =
    count_up-count_of invalid invalid _ ne
    ∙ ap (λ n. n + 1) (counters-occurrences thresholds q invalid es ne)
next-count thresholds q valid es ne = absurd (ne refl)

-- A peer is banned exactly when its messages of one status, malformed, failed or invalid, have
-- reached that status's threshold (the thresholds being positive, and without decay).
pub watch-bans :
    (thresholds : Counts) (peer : String) (es : Events)
    → 1 ≤ thresholds.malformed_count
    → 1 ≤ thresholds.failed_count
    → 1 ≤ thresholds.invalid_count
    → is_peer_banned peer (watch thresholds es).banned ≡ reaches_any thresholds peer es
unfolding watch occurrences is_peer_banned reaches_any count_of same_status handle_validation_status
    increment_counter
watch-bans thresholds peer [] m f i = ground arith
watch-bans thresholds peer ((q, valid) ∷ es) m f i =
    ground (arith, watch-bans thresholds peer es m f i)
watch-bans thresholds peer ((q, malformed) ∷ es) m f i =
    let counter = next-count thresholds q malformed es (λ e. cc) in
    ground (arith, watch-bans thresholds peer es m f i, counter)
watch-bans thresholds peer ((q, failed) ∷ es) m f i =
    let counter = next-count thresholds q failed es (λ e. cc) in
    ground (arith, watch-bans thresholds peer es m f i, counter)
watch-bans thresholds peer ((q, invalid) ∷ es) m f i =
    let counter = next-count thresholds q invalid es (λ e. cc) in
    ground (arith, watch-bans thresholds peer es m f i, counter)
