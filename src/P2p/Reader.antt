-- ===== src/P2p/Reader.antt =====
-- One message in `_asyncio_reader` of minichain/p2p.py, with `_message_id` and `_peer_id_from_addr`. What
-- the handler makes of the message is an argument: `none` if it raises, else its status or `None`. A type
-- that is not a text is not modelled, and the hash of a block that is a number or a Boolean neither.
use Prim.Native.Char.{code}
use mini_chain.Base.{
  ℕ, ◌==◌, String, Bool, true, false, Option, none, some, List, ◌∷◌, ◌||◌, str_eq, if◌then◌else◌,
}
use mini_chain.Json.{Json, null, str, obj}
use mini_chain.Platform.{Platform}
use mini_chain.Transaction.{ValidationStatus, valid, malformed}
use mini_chain.Transaction.Parse.{get}
use mini_chain.P2p.{Counts, Watched, handle_validation_status, mark_seen, is_duplicate}

abbrev pub seen_cache_max : ℕ
seen_cache_max = 10000

-- The part of the network object that the reader changes, with what it sends and whom it drops.
pub record Reader : Type 0 where
  pub watched : Watched
  pub seen_tx_ids : List String
  pub seen_block_hashes : List String
  -- `_broadcast_raw`: the type, the payload, and the peer that is left out
  pub broadcasts : List (String × Json × String)
  pub disconnected : List String

unfoldable pub strip_prefix : String → String → Option String
strip_prefix String.[] s = some s
strip_prefix (String.◌∷◌ c p) String.[] = none
strip_prefix (String.◌∷◌ c p) (String.◌∷◌ d s) =
    let rest = strip_prefix p s in if code c == code d then rest else none

unfoldable pub peer_id_from_addr : String → String
unfolding strip_prefix
peer_id_from_addr addr = elim (strip_prefix "peer:" addr) [ none ↦ addr | some rest ↦ rest ]

abbrev pub is_supported : String → Bool
is_supported t =
    str_eq t "hello"
    || (str_eq t "tx"
        || (str_eq t "block"
            || (str_eq t "chain_request"
                || (str_eq t "chain_response" || (str_eq t "getaddr" || str_eq t "addr")))))

-- A block's hash, `none` if `payload["hash"]` raises or cannot be a key.
abbrev hash_of : Option Json → Option (Option String)
hash_of (some (str s)) = some (some s)
hash_of (some null) = some none
hash_of _ = none

abbrev block_id : Json → Option (Option String)
block_id (obj fs) = hash_of (get "hash" fs)
block_id _ = none

module _ ⦃p : Platform⦄ where
  -- `_message_id`: `none` if it raises, `some none` for a message without an id.
  unfoldable pub message_id : String → Json → Option (Option String)
  message_id t payload =
      if str_eq t "tx"
      then some (some (p.canonical_json_hash payload))
      else if str_eq t "block"
      then block_id payload
      else some none

  -- `_seen_set`
  abbrev pub seen_set : String → Reader → List String
  seen_set t r = if str_eq t "tx" then r.seen_tx_ids else r.seen_block_hashes

  -- `_mark_seen`; the reader ignores it if it raises.
  abbrev pub mark : String → Option (Option String) → Reader → Reader
  mark t (some (some i)) r =
      if str_eq t "tx"
      then record r { seen_tx_ids = mark_seen seen_cache_max i r.seen_tx_ids }
      else record r { seen_block_hashes = mark_seen seen_cache_max i r.seen_block_hashes }
  mark t _ r = r

  abbrev pub with_dropped : Bool → String → List String → List String
  with_dropped true addr gone = addr ∷ gone
  with_dropped false addr gone = gone

  -- `_handle_validation_status` for the sender
  abbrev pub punish : Counts → String → ValidationStatus → Reader → Reader
  punish thresholds addr status r =
      let (w, drop) =
        handle_validation_status thresholds (peer_id_from_addr addr) status r.watched in
      record r { watched = w; disconnected = with_dropped drop addr r.disconnected }

  abbrev pub relay : String → Json → String → Reader → Reader
  relay t payload addr r =
      if str_eq t "tx" || str_eq t "block"
      then record r { broadcasts = (t, payload, addr) ∷ r.broadcasts }
      else r

  -- The reader behind the handler.
  unfoldable pub after_handler :
      Counts → String → Json → String → Option (Option ValidationStatus) → Reader → Reader
  after_handler thresholds t payload addr none r = punish thresholds addr malformed r
  after_handler thresholds t payload addr (some none) r = mark t (message_id t payload) r
  after_handler thresholds t payload addr (some (some valid)) r =
      relay t payload addr (mark t (message_id t payload) (punish thresholds addr valid r))
  after_handler thresholds t payload addr (some (some s)) r = punish thresholds addr s r

  abbrev pub unless_seen :
      Counts
      → String
      → Json
      → String
      → Option (Option ValidationStatus)
      → Option (Option String)
      → Reader
      → Reader
  unless_seen thresholds t payload addr outcome none r = punish thresholds addr malformed r
  unless_seen thresholds t payload addr outcome (some none) r =
      after_handler thresholds t payload addr outcome r
  unless_seen thresholds t payload addr outcome (some (some i)) r =
      if is_duplicate i (seen_set t r) then r else after_handler thresholds t payload addr outcome r

  -- A message of a type, with its payload, from an address.
  unfoldable pub receive :
      Counts → String → Json → String → Option (Option ValidationStatus) → Reader → Reader
  receive thresholds t payload addr outcome r =
      if is_supported t
      then unless_seen thresholds t payload addr outcome (message_id t payload) r
      else r
