-- ===== src/Base/Text/Numerals.antt =====
-- Numbers that are written are read back: `int(str(n))` and `int(hex(n), 16)`.
use Prim.Native.Nat.{ℕ, zero, suc, ◌<◌}
use Prim.Native.String.{String}
use mathlib.Core.Path.{◌≡◌, refl, sym, ap, ◌∙◌, subst}
use mathlib.Core.Bool.{Bool, true, false, ◌&&◌}
use mathlib.Core.Option
use mathlib.Core.Option.{Option, none, some, some-injective}
use mathlib.Core.List.{List, [], ◌∷◌, ◌++◌, reverse, reverse-append, reverse-reverse}
use native.Mathlib.Omega.{arith}
use mini_chain.Base.Tests.{◌==◌, if_intro, Bool-cases, and_true}
use mathlib.Core.Logic.{inl, inr}
use mini_chain.Base.Int.{pos}
use mini_chain.Base.Text.{
  codes, hex, int16, int10, decimal, decimal_digit, digit_text, hex_text, written, hex_digit,
  digits_from, skip_spaces, skip_underscore, is_space, stripped, signed, magnitude,
}
use mini_chain.Base.Text.Digits.{codes-append, first_digit, IsRead, IsWritten, written-IsWritten}

is_read : (ℕ → Option ℕ) → (ℕ → String) → ℕ → Bool
is_read digit text n = elim (codes (text n)) [
  | [] ↦ false
  | (c ∷ cs) ↦ elim cs [ [] ↦ elim (digit c) [ none ↦ false | some d ↦ d == n ] | (b ∷ bs) ↦ false ]
]

all_read : (ℕ → Option ℕ) → (ℕ → String) → ℕ → Bool
all_read digit text zero = true
all_read digit text (suc k) = let rest = all_read digit text k in is_read digit text k && rest

is_read-IsRead :
    (digit : ℕ → Option ℕ) (base : ℕ) (text : ℕ → String) (n : ℕ)
    → is_read digit text n ≡ true
    → IsRead digit base text n
unfolding is_read IsRead
is_read-IsRead digit base text n h =
    (elim (codes (text n))
        as (λ cs.
          (elim cs [
            | [] ↦ false
            | (c ∷ cs') ↦ elim cs' [
              | [] ↦ elim (digit c) [ none ↦ false | some d ↦ d == n ]
              | (b ∷ bs) ↦ false
            ]
          ])
            ≡ true
          → (c : ℕ) × (cs ≡ c ∷ []) × (digit c ≡ some n)) [
            | [] ↦ λ q. cc
            | (c ∷ cs') ↦
                elim cs'
                  as (λ xs.
                    (elim xs [
                      | [] ↦ elim (digit c) [ none ↦ false | some d ↦ d == n ]
                      | (b ∷ bs) ↦ false
                    ])
                      ≡ true
                    → (c' : ℕ) × (c ∷ xs ≡ c' ∷ []) × (digit c' ≡ some n)) [
                      | [] ↦
                          (elim (digit c)
                              as (λ o.
                                digit c ≡ o
                                → (elim o [ none ↦ false | some d ↦ d == n ]) ≡ true
                                → (c' : ℕ) × (c ∷ [] ≡ c' ∷ []) × (digit c' ≡ some n)) [
                                  | none ↦ λ e q. cc
                                  | some d ↦ λ e q. (c, refl, e ∙ ap some (ground arith))
                                ])
                            refl
                      | (b ∷ bs) ↦ λ q. cc
                    ]
          ])
      h

all_read-IsRead :
    (digit : ℕ → Option ℕ) (base : ℕ) (text : ℕ → String) (k n : ℕ)
    → all_read digit text k ≡ true
    → n < k
    → IsRead digit base text n
unfolding all_read
all_read-IsRead digit base text zero n h lt = absurd (omega arith)
all_read-IsRead digit base text (suc k) n h lt =
    let (here, rest) = and_true (is_read digit text k) (all_read digit text k) h in
    elim (Bool-cases (n == k)) [
      | inl same ↦
          subst (IsRead digit base text) (ground arith) (is_read-IsRead digit base text k here)
      | inr other ↦ all_read-IsRead digit base text k n rest (ground arith)
    ]

hex-IsWritten : (n : ℕ) → IsWritten hex_digit 16 n (codes (written hex_text 16 (suc n) n))
unfolding all_read is_read hex_digit hex_text
hex-IsWritten n =
    written-IsWritten hex_digit 16 hex_text
      (λ m lt. all_read-IsRead hex_digit 16 hex_text 16 m refl lt) (λ m. omega arith)
      (λ m le. omega arith) (λ m. omega arith) (suc n) n (omega arith)

decimal-IsWritten : (n : ℕ) → IsWritten decimal_digit 10 n (codes (written digit_text 10 (suc n) n))
unfolding all_read is_read decimal_digit digit_text
decimal-IsWritten n =
    written-IsWritten decimal_digit 10 digit_text
      (λ m lt. all_read-IsRead decimal_digit 10 digit_text 10 m refl lt) (λ m. omega arith)
      (λ m le. omega arith) (λ m. omega arith) (suc n) n (omega arith)

skip_none : (c : ℕ) (s : List ℕ) → is_space c ≡ false → skip_spaces (c ∷ s) ≡ c ∷ s
unfolding skip_spaces
skip_none c s h = rw h refl

-- Digits have no spaces around them.
stripped_lem :
    (xs ys zs : List ℕ) (c d : ℕ)
    → xs ≡ c ∷ ys
    → xs ≡ zs ++ d ∷ []
    → is_space c ≡ false
    → is_space d ≡ false
    → reverse (skip_spaces (reverse (skip_spaces xs))) ≡ xs
stripped_lem xs ys zs c d first last h k =
    let front : skip_spaces xs ≡ xs =
      subst (λ w. skip_spaces w ≡ w) (sym first) (skip_none c ys h) in
    let back : skip_spaces (reverse xs) ≡ reverse xs =
      subst (λ w. skip_spaces (reverse w) ≡ reverse w) (sym last)
        (subst (λ w. skip_spaces w ≡ w) (sym (reverse-append zs (d ∷ [])))
          (skip_none d (reverse zs) k)) in
    ap (λ w. reverse (skip_spaces (reverse w))) front ∙ ap reverse back ∙ reverse-reverse xs

hex_digit-is_space : (c d : ℕ) → hex_digit c ≡ some d → is_space c ≡ false
unfolding hex_digit is_space
hex_digit-is_space c d h = ground arith

decimal_digit-is_space : (c d : ℕ) → decimal_digit c ≡ some d → is_space c ≡ false
unfolding decimal_digit is_space
decimal_digit-is_space c d h = ground arith

signed-digits :
    (read : List ℕ → Option ℕ) (c : ℕ) (s xs : List ℕ) (n : ℕ)
    → xs ≡ c ∷ s
    → (c == b'-') ≡ false
    → (c == b'+') ≡ false
    → read xs ≡ some n
    → signed read xs ≡ some (pos n)
unfolding signed
signed-digits read c s xs n e minus plus h =
    subst (λ w. signed read w ≡ some (pos n)) (sym e)
      (rw (minus, plus) (ap (Option.map pos) (subst (λ w. read w ≡ some n) e h)))

eq_of : (c x : ℕ) → (c == x) ≡ true → c ≡ x
eq_of c x h = ground arith

not_sign : (x c d : ℕ) → decimal_digit x ≡ none → decimal_digit c ≡ some d → (c == x) ≡ false
not_sign x c d h e = elim (Bool-cases (c == x)) [
  | inl same ↦
      let clash : ◌≡◌ {A = Option ℕ} none (some d) =
        sym h ∙ ap decimal_digit (sym (eq_of c x same)) ∙ e in
      cc
  | inr other ↦ other
]

-- `int(str(n))` is `n`.
pub int10-decimal : (n : ℕ) → int10 (decimal n) ≡ some (pos n)
unfolding int10 decimal stripped decimal_digit IsWritten
int10-decimal n =
    let cs = codes (written digit_text 10 (suc n) n) in
    let (reads, (zs, d, k, last, q)) = decimal-IsWritten n in
    let (c, ys, j, first, e) = first_digit decimal_digit 10 0 cs n reads in
    let bare =
      stripped_lem cs ys zs c d first last (decimal_digit-is_space c j e)
        (decimal_digit-is_space d k q) in
    ap (signed (digits_from decimal_digit 10 false 0)) bare
    ∙ signed-digits (digits_from decimal_digit 10 false 0) c ys cs n first
        (not_sign b'-' c j refl e) (not_sign b'+' c j refl e) reads

-- A digit is no underscore.
skip_underscore_lem :
    (cs : List ℕ) (n : ℕ) → digits_from hex_digit 16 false 0 cs ≡ some n → skip_underscore cs ≡ cs
unfolding skip_underscore hex_digit
skip_underscore_lem cs n h =
    let (c, ys, d, first, e) = first_digit hex_digit 16 0 cs n h in
    subst (λ w. skip_underscore w ≡ w) (sym first)
      (if_intro (λ w. w ≡ c ∷ ys) (c == b'_')
        (λ same.
          let clash : ◌≡◌ {A = Option ℕ} none (some d) =
            ap hex_digit (sym (eq_of c b'_' same)) ∙ e in
          cc)
        (λ _. refl))

-- `int(hex(n), 16)` is `n`.
pub int16-hex : (n : ℕ) → int16 (hex n) ≡ some (pos n)
unfolding int16 hex stripped magnitude IsWritten is_space
int16-hex n =
    let w = written hex_text 16 (suc n) n in
    let cs = codes w in
    let (reads, (zs, d, k, last, q)) = hex-IsWritten n in
    let whole : codes (hex n) ≡ b'0' ∷ b'x' ∷ cs = codes-append "0x" w in
    let bare =
      stripped_lem (codes (hex n)) (b'x' ∷ cs) (b'0' ∷ b'x' ∷ zs) b'0' d whole
        (whole ∙ ap (λ v. b'0' ∷ b'x' ∷ v) last) refl (hex_digit-is_space d k q) in
    ap (signed magnitude) (bare ∙ whole)
    ∙ signed-digits magnitude b'0' (b'x' ∷ cs) (b'0' ∷ b'x' ∷ cs) n refl refl refl
        (ap (digits_from hex_digit 16 false 0) (skip_underscore_lem cs n reads) ∙ reads)
