-- ===== src/P2p/Frames.antt =====
-- The loop of `stream_handler` in minichain/p2p.py that cuts the bytes of a stream into messages. `parse`
-- is `json.loads(line.decode().strip())`, `none` where it raises. The lines are events for the reader.
use mini_chain.Base.{
  ℕ, ◌==◌, ltb, leb, ◌&&◌, ◌||◌, String, Bool, true, false, Option, some, List, [], ◌∷◌, ◌++◌,
  length, if◌then◌else◌,
}
use mini_chain.State.Storage.{set_field}
use mini_chain.Json.{Json, str, obj, Fields}

-- The lines of a buffer, and what is behind the last newline: `*lines, buffer = buffer.split(b"\n")`.
abbrev pub with_byte : ℕ → List (List ℕ) × List ℕ → List (List ℕ) × List ℕ
with_byte c ([], rest) = ([], c ∷ rest)
with_byte c (l ∷ ls, rest) = ((c ∷ l) ∷ ls, rest)

abbrev pub new_line : List (List ℕ) × List ℕ → List (List ℕ) × List ℕ
new_line (ls, rest) = ([] ∷ ls, rest)

unfoldable pub split_lines : List ℕ → List (List ℕ) × List ℕ
split_lines [] = ([], [])
split_lines (c ∷ s) =
    let parts = split_lines s in if c == 10 then new_line parts else with_byte c parts

-- What the stream's task puts into the queue.
pub data Event : Type 0 where
  message : Fields → Event
  malformed_frame : Event

-- White space of `bytes.strip`.
abbrev pub is_white : List ℕ → Bool
is_white [] = true
is_white (c ∷ s) = let rest = is_white s in if c == 32 || (leb 9 c && leb c 13) then rest else false

-- `parsed["_peer_addr"] = addr` raises for a value that is no object.
abbrev pub parsed_event : String → Option Json → Event
parsed_event addr (some (obj fs)) = message (set_field "_peer_addr" (str addr) fs)
parsed_event addr _ = malformed_frame

module _ (parse : List ℕ → Option Json) (addr : String) where
  unfoldable pub line_events : List (List ℕ) → List Event
  line_events [] = []
  line_events (l ∷ ls) =
      let rest = line_events ls in if is_white l then rest else parsed_event addr (parse l) ∷ rest

  -- What the loop has put into the queue, and whether it ended because of the limit.
  pub record Frames : Type 0 where
    pub events : List Event
    pub overflow : Bool

  -- By whether the buffer is too long: its lines, and what the rest of the loop yields.
  abbrev pub after_read : Bool → List (List ℕ) → Frames → Frames
  after_read true lines frames = record { events = malformed_frame ∷ []; overflow = true }
  after_read false lines frames = record frames { events = line_events lines ++ frames.events }

  -- The loop, on the chunks that `read` returns; an empty one ends it.
  unfoldable pub read_stream : ℕ → List ℕ → List (List ℕ) → Frames
  read_stream max_bytes buffer [] = record { events = []; overflow = false }
  read_stream max_bytes buffer ([] ∷ chunks) = record { events = []; overflow = false }
  read_stream max_bytes buffer ((c ∷ chunk) ∷ chunks) =
      let (lines, rest) = split_lines (buffer ++ c ∷ chunk) in
      after_read (ltb max_bytes (length (buffer ++ c ∷ chunk))) lines
        (read_stream max_bytes rest chunks)

-- `canonical_json_dumps(payload) + "\n"`, one after the other.
unfoldable pub framed : List (List ℕ) → List ℕ
framed [] = []
framed (m ∷ ms) = m ++ 10 ∷ framed ms
