-- ===== src/P2p/Framing.antt =====
-- About the messages that `stream_handler` of minichain/p2p.py cuts out of the bytes of a stream.
use mathlib.Core.Path.{subst}
use mini_chain.Base.{
  ℕ, ◌+◌, ◌≤◌, ◌≡◌, refl, sym, ◌∙◌, ap, ltb, String, Bool, true, false, Option, List, [], ◌∷◌, ◌++◌,
  append_assoc, append-nil, length, length-append, All, Bool-cases, inl, inr, arith,
}
use mini_chain.Json.{Json}
use mini_chain.P2p.Frames.{
  split_lines, line_events, is_white, parsed_event, Frames, after_read, read_stream, framed,
}
use mini_chain.P2p.Lines.{
  Parts, behind, split_lines-append, IsUncut, split_lines-IsUncut, IsUncut-front, AreShort,
  front-short, behind-short, IsOneLine, split_lines-framed,
}

module _ (parse : List ℕ → Option Json) (addr : String) where
  line_events-append :
      (ls ms : List (List ℕ))
      → line_events parse addr (ls ++ ms) ≡ line_events parse addr ls ++ line_events parse addr ms
  unfolding line_events
  line_events-append [] ms = refl
  line_events-append (l ∷ ls) ms = elim (Bool-cases (is_white l)) [
    | inl blank ↦ rw blank (line_events-append ls ms)
    | inr other ↦ rw other (ap (◌∷◌ (parsed_event addr (parse l))) (line_events-append ls ms))
  ]

-- The bytes up to the end of the stream.
unfoldable pub bytes_read : List (List ℕ) → List ℕ
bytes_read [] = []
bytes_read ([] ∷ chunks) = []
bytes_read ((c ∷ chunk) ∷ chunks) = (c ∷ chunk) ++ bytes_read chunks

module _ (parse : List ℕ → Option Json) (addr : String) (max : ℕ) where
  within :
      (b : Bool) (lines : List (List ℕ)) (frames : Frames parse addr)
      → (after_read parse addr b lines frames).overflow ≡ false
      → (b ≡ false)
        × (frames.overflow ≡ false)
        × ((after_read parse addr b lines frames).events
            ≡ line_events parse addr lines ++ frames.events)
  within true lines frames h = cc
  within false lines frames h = (refl, h, refl)

  no_lines :
      (buffer : List ℕ)
      → IsUncut buffer
      → line_events parse addr (split_lines (buffer ++ [])).0 ≡ []
  unfolding IsUncut line_events
  no_lines buffer uncut = rw (append-nil buffer, uncut) refl

  read_stream-events :
      (buffer : List ℕ) (chunks : List (List ℕ))
      → IsUncut buffer
      → (read_stream parse addr max buffer chunks).overflow ≡ false
      → (read_stream parse addr max buffer chunks).events
        ≡ line_events parse addr (split_lines (buffer ++ bytes_read chunks)).0
  unfolding read_stream bytes_read
  read_stream-events buffer [] uncut h = sym (no_lines buffer uncut)
  read_stream-events buffer ([] ∷ chunks) uncut h = sym (no_lines buffer uncut)
  read_stream-events buffer ((c ∷ chunk) ∷ chunks) uncut h =
      let first = buffer ++ c ∷ chunk in
      let (lines, rest) = split_lines first in
      let later = read_stream parse addr max rest chunks in
      let (_, fits, e) = within (ltb max (length first)) lines later h in
      let whole : split_lines (buffer ++ ((c ∷ chunk) ++ bytes_read chunks))
          ≡ behind lines (split_lines (rest ++ bytes_read chunks)) =
        ap split_lines (sym (append_assoc buffer (c ∷ chunk) (bytes_read chunks)))
        ∙ split_lines-append first (bytes_read chunks) in
      e
      ∙ ap (λ es. line_events parse addr lines ++ es)
          (read_stream-events rest chunks (split_lines-IsUncut first) fits)
      ∙ sym (line_events-append parse addr lines (split_lines (rest ++ bytes_read chunks)).0)
      ∙ ap (λ (parts : Parts). line_events parse addr parts.0) (sym whole)

module _ (parse : List ℕ → Option Json) (addr : String) (max n k : ℕ) (room : n + k ≤ max) where
  -- Where lines are short and reads too, the limit is not hit.
  read_stream-within :
      (buffer : List ℕ) (chunks : List (List ℕ))
      → IsUncut buffer
      → All (λ (chunk : List ℕ). length chunk ≤ k) chunks
      → AreShort n (split_lines (buffer ++ bytes_read chunks))
      → (read_stream parse addr max buffer chunks).overflow ≡ false
  unfolding read_stream bytes_read
  read_stream-within buffer [] uncut small short = refl
  read_stream-within buffer ([] ∷ chunks) uncut small short = refl
  read_stream-within buffer ((c ∷ chunk) ∷ chunks) uncut (one, small) short =
      let first = buffer ++ c ∷ chunk in
      let (lines, rest) = split_lines first in
      let held : length buffer ≤ n = omega (
        arith,
        IsUncut-front buffer ((c ∷ chunk) ++ bytes_read chunks) uncut,
        front-short n (split_lines (buffer ++ ((c ∷ chunk) ++ bytes_read chunks))) short,
      ) in
      let fits : ltb max (length first) ≡ false =
        (let size = length-append buffer (c ∷ chunk) in ground arith) in
      let later = read_stream-within rest chunks (split_lines-IsUncut first) small (
        behind-short n lines (split_lines (rest ++ bytes_read chunks)) (
          subst (AreShort n)
            (ap split_lines (sym (append_assoc buffer (c ∷ chunk) (bytes_read chunks)))
              ∙ split_lines-append first (bytes_read chunks))
            short)) in
      rw fits later

module _ (parse : List ℕ → Option Json) (addr : String) where
  -- What a peer writes, texts without a newline with one behind each, is read as these texts, in
  -- order and without hitting the limit, however its bytes are cut into reads: for texts and reads that
  -- together stay within the limit.
  pub read_stream-framed :
      (max n k : ℕ) (ms chunks : List (List ℕ))
      → n + k ≤ max
      → All IsOneLine ms
      → All (λ (m : List ℕ). length m ≤ n) ms
      → All (λ (chunk : List ℕ). length chunk ≤ k) chunks
      → bytes_read chunks ≡ framed ms
      → ((read_stream parse addr max [] chunks).events ≡ line_events parse addr ms)
        × ((read_stream parse addr max [] chunks).overflow ≡ false)
  unfolding IsUncut split_lines
  read_stream-framed max n k ms chunks room uncut short small sent =
      let parts : split_lines (bytes_read chunks) ≡ (ms, []) =
        ap split_lines sent ∙ split_lines-framed ms uncut in
      let within =
        read_stream-within parse addr max n k room [] chunks refl small
          (subst (AreShort n) (sym parts) (short, omega arith)) in
      (
        read_stream-events parse addr max [] chunks refl within
            ∙ ap (λ (x : Parts). line_events parse addr x.0) parts,
        within,
      )
