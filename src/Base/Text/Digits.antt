-- ===== src/Base/Text/Digits.antt =====
-- Digits in any base: what is written digit by digit is read back.
use Prim.Native.Nat.{ℕ, zero, suc, ◌+◌, ◌*◌, ◌/◌, ◌%◌, ◌≤◌, ◌<◌}
use Prim.Native.String
use Prim.Native.String.append
use Prim.Native.Char.{code}
use Prim.Native.String.{String}
use mathlib.Core.Path.{◌≡◌, refl, sym, ap, ◌∙◌, subst}
use mathlib.Core.Bool.{Bool, true, false, ◌&&◌}
use mathlib.Core.Option.{Option, none, some, some-injective}
use mathlib.Core.List.{List, [], ◌∷◌, ◌++◌}
use native.Mathlib.Omega.{arith}
use mini_chain.Base.Tests.{ltb, ◌==◌}
use mini_chain.Base.Text.{codes, written, digits_from}

pub codes-append : (s t : String) → codes (String.◌++◌ s t) ≡ codes s ++ codes t
codes-append String.[] t = ap codes (append.nil t)
codes-append (String.◌∷◌ c s) t =
    ap codes (append.cons c s t) ∙ ap (◌∷◌ (code c)) (codes-append s t)

module _ (digit : ℕ → Option ℕ) (base : ℕ) where
  digits_from-snoc :
      (after : Bool) (acc : ℕ) (xs : List ℕ) (n c d : ℕ)
      → digits_from digit base after acc xs ≡ some n
      → digit c ≡ some d
      → digits_from digit base after acc (xs ++ c ∷ []) ≡ some (n * base + d)
  unfolding digits_from
  digits_from-snoc true acc [] n c d h e =
      rw e (ap (λ x. some (x * base + d)) (some-injective _ _ h))
  digits_from-snoc false acc [] n c d h e = cc
  digits_from-snoc after acc (x ∷ xs) n c d h e =
      (elim (digit x)
          as (λ o.
            (elim o [
              | some k ↦ digits_from digit base true (acc * base + k) xs
              | none ↦ elim (after && x == b'_') [
                | true ↦ digits_from digit base false acc xs
                | false ↦ none
              ]
            ])
              ≡ some n
            → (elim o [
              | some k ↦ digits_from digit base true (acc * base + k) (xs ++ c ∷ [])
              | none ↦ elim (after && x == b'_') [
                | true ↦ digits_from digit base false acc (xs ++ c ∷ [])
                | false ↦ none
              ]
            ])
              ≡ some (n * base + d)) [
                | some k ↦ λ q. digits_from-snoc true (acc * base + k) xs n c d q e
                | none ↦
                    elim (after && x == b'_')
                      as (λ b.
                        (elim b [ true ↦ digits_from digit base false acc xs | false ↦ none ])
                          ≡ some n
                        → (elim b [
                          | true ↦ digits_from digit base false acc (xs ++ c ∷ [])
                          | false ↦ none
                        ])
                          ≡ some (n * base + d)) [
                            | true ↦ λ q. digits_from-snoc false acc xs n c d q e
                            | false ↦ λ q. cc
                          ]
              ])
        h

  -- What is read starts with a digit.
  pub first_digit :
      (acc : ℕ) (xs : List ℕ) (n : ℕ)
      → digits_from digit base false acc xs ≡ some n
      → (c : ℕ) × (ys : List ℕ) × (d : ℕ) × (xs ≡ c ∷ ys) × (digit c ≡ some d)
  unfolding digits_from
  first_digit acc [] n h = cc
  first_digit acc (c ∷ ys) n h =
      (elim (digit c)
          as (λ o.
            digit c ≡ o
            → (elim o [
              | some k ↦ digits_from digit base true (acc * base + k) ys
              | none ↦ elim (false && c == b'_') [
                | true ↦ digits_from digit base false acc ys
                | false ↦ none
              ]
            ])
              ≡ some n
            → (c' : ℕ) × (ys' : List ℕ) × (d : ℕ) × (c ∷ ys ≡ c' ∷ ys') × (digit c' ≡ some d)) [
              | some d ↦ λ e q. (c, ys, d, refl, e)
              | none ↦ λ e q. cc
            ])
        refl h

  one_digit : (c n : ℕ) → digit c ≡ some n → digits_from digit base false 0 (c ∷ []) ≡ some n
  unfolding digits_from
  one_digit c n q =
      subst
        (λ o.
          (elim o [
            | some k ↦ digits_from digit base true (0 * base + k) []
            | none ↦ elim (false && c == b'_') [
              | true ↦ digits_from digit base false 0 []
              | false ↦ none
            ]
          ])
          ≡ some n)
        (sym q) (ap some (omega arith))

  -- The text of a digit is one code, which is read as that digit.
  unfoldable pub IsRead : (ℕ → String) → ℕ → Type 0
  IsRead text n = (c : ℕ) × (codes (text n) ≡ c ∷ []) × (digit c ≡ some n)

  -- The digits are read back, and the last one is a digit.
  unfoldable pub IsWritten : ℕ → List ℕ → Type 0
  IsWritten n cs =
      (digits_from digit base false 0 cs ≡ some n)
      × ((ys : List ℕ) × (c : ℕ) × (d : ℕ) × (cs ≡ ys ++ c ∷ []) × (digit c ≡ some d))

  module _ (text : ℕ → String) (read : (n : ℕ) → n < base → IsRead text n)
      (below : (n : ℕ) → n % base < base) (smaller : (n : ℕ) → base ≤ n → n / base < n)
      (splits : (n : ℕ) → n / base * base + n % base ≡ n) where
    pub written-IsWritten : (f n : ℕ) → n < f → IsWritten n (codes (written text base f n))
    unfolding written digits_from IsWritten IsRead
    written-IsWritten zero n h = absurd (omega arith)
    written-IsWritten (suc f) n h =
        (elim (ltb n base)
            as (λ b.
              ltb n base ≡ b
              → IsWritten n (
                  codes (elim b [
                    | true ↦ text n
                    | false ↦ String.◌++◌ (written text base f (n / base)) (text (n % base))
                  ]))) [
                    | true ↦ λ small.
                        let (c, e, q) = read n (ground arith) in
                        subst (IsWritten n) (sym e) (one_digit c n q, ([], c, n, refl, q))
                    | false ↦ λ large.
                        let (c, e, q) = read (n % base) (below n) in
                        let (reads, _) =
                          written-IsWritten f (n / base)
                            (omega (arith, smaller n (ground arith))) in
                        let cs = codes (written text base f (n / base)) in
                        subst (IsWritten n) (sym (codes-append _ _ ∙ ap (λ ds. cs ++ ds) e)) (
                          digits_from-snoc false 0 cs (n / base) c (n % base) reads q
                              ∙ ap some (splits n),
                          (cs, c, n % base, refl, q),
                        )
                  ])
          refl
