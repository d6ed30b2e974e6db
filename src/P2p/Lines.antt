-- ===== src/P2p/Lines.antt =====
-- Lemmas on `buffer.split(b"\n")` in `stream_handler` of minichain/p2p.py, and on lines and their lengths.
use mini_chain.Base.{
  ℕ, suc, ◌==◌, ◌≤◌, ◌≡◌, refl, ◌∙◌, ap, true, false, List, [], ◌∷◌, ◌++◌, drop, length, All,
  Bool-cases, inl, inr, if◌then◌else◌, arith,
}
use mini_chain.P2p.Frames.{with_byte, new_line, split_lines, framed}

abbrev pub Parts : Type 0
Parts = List (List ℕ) × List ℕ

-- Lines in front of the parts of what follows.
abbrev pub behind : List (List ℕ) → Parts → Parts
behind ls (ms, rest) = (ls ++ ms, rest)

with_byte-behind :
    (c : ℕ) (parts : Parts) (ys : List ℕ)
    → (c == 10) ≡ false
    → with_byte c (behind parts.0 (split_lines (parts.1 ++ ys)))
      ≡ behind (with_byte c parts).0 (split_lines ((with_byte c parts).1 ++ ys))
unfolding split_lines
with_byte-behind c ([], rest) ys h = rw h refl
with_byte-behind c (l ∷ ls, rest) ys h = refl

-- What the lines of a text are, by those of its front.
pub split_lines-append :
    (xs ys : List ℕ)
    → split_lines (xs ++ ys) ≡ behind (split_lines xs).0 (split_lines ((split_lines xs).1 ++ ys))
unfolding split_lines
split_lines-append [] ys = refl
split_lines-append (c ∷ xs) ys = elim (Bool-cases (c == 10)) [
  | inl newline ↦ rw newline (ap new_line (split_lines-append xs ys))
  | inr other ↦
      rw other
        (ap (with_byte c) (split_lines-append xs ys) ∙ with_byte-behind c (split_lines xs) ys other)
]

-- No newline.
unfoldable pub IsUncut : List ℕ → Type 0
IsUncut xs = split_lines xs ≡ ([], xs)

with_byte-IsUncut :
    (c : ℕ) (parts : Parts) → IsUncut parts.1 → (c == 10) ≡ false → IsUncut (with_byte c parts).1
unfolding IsUncut split_lines
with_byte-IsUncut c ([], rest) e h = rw (h, e) refl
with_byte-IsUncut c (l ∷ ls, rest) e h = e

pub split_lines-IsUncut : (xs : List ℕ) → IsUncut (split_lines xs).1
unfolding IsUncut split_lines
split_lines-IsUncut [] = refl
split_lines-IsUncut (c ∷ xs) = elim (Bool-cases (c == 10)) [
  | inl newline ↦ rw newline (split_lines-IsUncut xs)
  | inr other ↦ rw other (with_byte-IsUncut c (split_lines xs) (split_lines-IsUncut xs) other)
]

-- The length of the first line, or of what has no newline.
abbrev front : Parts → ℕ
front ([], rest) = length rest
front (l ∷ ls, rest) = length l

with_byte-front : (c : ℕ) (parts : Parts) → front (with_byte c parts) ≡ suc (front parts)
with_byte-front c ([], rest) = refl
with_byte-front c (l ∷ ls, rest) = refl

with_byte_inv :
    (c : ℕ) (parts : Parts) (xs : List ℕ) → with_byte c parts ≡ ([], c ∷ xs) → parts ≡ ([], xs)
with_byte_inv c ([], rest) xs h = ap (λ (q : Parts). ([], drop 1 q.1)) h
with_byte_inv c (l ∷ ls, rest) xs h =
    let clash : (c ∷ l) ∷ ls ≡ [] = ap (λ (q : Parts). q.0) h in cc

IsUncut-tail : (c : ℕ) (xs : List ℕ) → IsUncut (c ∷ xs) → ((c == 10) ≡ false) × IsUncut xs
unfolding IsUncut split_lines
IsUncut-tail c xs h =
    (elim (c == 10)
        as (λ b.
          (c == 10) ≡ b
          → (if b then new_line (split_lines xs) else with_byte c (split_lines xs)) ≡ ([], c ∷ xs)
          → ((c == 10) ≡ false) × (split_lines xs ≡ ([], xs))) [
            | true ↦
                λ e q. let clash : [] ∷ (split_lines xs).0 ≡ [] = ap (λ (x : Parts). x.0) q in cc
            | false ↦ λ e q. (e, with_byte_inv c (split_lines xs) xs q)
          ])
      refl h

-- A text without a newline is no longer than the first line of what it begins.
pub IsUncut-front : (xs ys : List ℕ) → IsUncut xs → length xs ≤ front (split_lines (xs ++ ys))
unfolding split_lines
IsUncut-front [] ys h = omega arith
IsUncut-front (c ∷ xs) ys h =
    let (other, tail) = IsUncut-tail c xs h in
    rw other (omega (arith, with_byte-front c (split_lines (xs ++ ys)), IsUncut-front xs ys tail))

-- No line, nor what is behind the last one, is longer than this.
abbrev pub AreShort : ℕ → List (List ℕ) × List ℕ → Type 0
AreShort n (ls, rest) = All (λ (l : List ℕ). length l ≤ n) ls × (length rest ≤ n)

pub front-short : (n : ℕ) (parts : Parts) → AreShort n parts → front parts ≤ n
front-short n ([], rest) (_, short) = short
front-short n (l ∷ ls, rest) ((short, _), _) = short

pub behind-short :
    (n : ℕ) (ls : List (List ℕ)) (parts : Parts) → AreShort n (behind ls parts) → AreShort n parts
behind-short n [] (ms, rest) h = h
behind-short n (l ∷ ls) (ms, rest) ((_, more), short) = behind-short n ls (ms, rest) (more, short)

-- No byte of a text is a newline.
unfoldable pub IsOneLine : List ℕ → Type 0
IsOneLine m = All (λ c. (c == 10) ≡ false) m

split_lines-line :
    (m s : List ℕ) → IsOneLine m → split_lines (m ++ 10 ∷ s) ≡ behind (m ∷ []) (split_lines s)
unfolding IsOneLine split_lines
split_lines-line [] s h = refl
split_lines-line (c ∷ m) s (other, tail) = rw other (ap (with_byte c) (split_lines-line m s tail))

pub split_lines-framed :
    (ms : List (List ℕ)) → All IsOneLine ms → split_lines (framed ms) ≡ (ms, [])
unfolding framed split_lines
split_lines-framed [] h = refl
split_lines-framed (m ∷ ms) (first, rest) =
    split_lines-line m (framed ms) first ∙ ap (behind (m ∷ [])) (split_lines-framed ms rest)
