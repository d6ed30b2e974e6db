-- ===== src/Base/Double.antt =====
-- Python's floats where a program multiplies an integer by one: rounding to 53 bits, half to even.
use mathlib.Core.Path.{subst}
use native.Mathlib.Nat.{
  le-div_iff_mul-le, mul-le-mul_right, le_trans, mul_assoc, mul_comm, mod-one, div-one,
}
use Prim.Native.Nat.pow
use mini_chain.Base.{
  ℕ, zero, suc, ◌+◌, ◌*◌, ◌/◌, ◌%◌, ◌^◌, ◌≤◌, ◌<◌, ◌≡◌, refl, sym, ap, ◌∙◌, Bool, true, false, not,
  ltb, ◌==◌, ◌&&◌, ◌||◌, if◌then◌else◌, if_intro, arith, and_true, Bool-cases, inl, inr,
}
use mini_chain.Base.Int.{ℤ, pos, negsuc}

-- The least `u`, of those that doubling reaches in so many rounds, of which `m` is less than 2^53.
unfoldable pub unit_from : ℕ → ℕ → ℕ → ℕ
unit_from zero m u = u
unit_from (suc rounds) m u = elim (ltb m (u * 2 ^ 53)) [
  | true ↦ u
  | false ↦ unit_from rounds m (2 * u)
]

-- The multiple of `u` next to `m`, the even one of two.
unfoldable pub round_to : ℕ → ℕ → ℕ
round_to m u =
    let q = m / u in
    let r = 2 * (m % u) in if ltb u r || (u == r && q % 2 == 1) then (q + 1) * u else q * u

-- 1075 doublings are enough for a product of two floats up to 2^1024 in units of 2^-51.
unfoldable pub to_float : ℕ → ℕ
to_float m = round_to m (unit_from 1075 m 1)

-- The float 1.1, and `n * 1.1`, both in units of 2^-51.
abbrev pub one_tenth_more : ℕ
one_tenth_more = 2476979795053773

unfoldable pub times_1_1 : ℕ → ℕ
times_1_1 n = to_float (to_float n * one_tenth_more)

-- Whether `new > old * 1.1`. A product beyond the floats is infinite.
unfoldable pub exceeds_1_1 : ℤ → ℤ → Bool
exceeds_1_1 (pos n) (pos k) = ltb (times_1_1 n) (k * 2 ^ 51) && ltb (times_1_1 n) (2 ^ 1075)
exceeds_1_1 (pos n) (negsuc k) = false
exceeds_1_1 (negsuc n) (pos k) = true
exceeds_1_1 (negsuc n) (negsuc k) =
    ltb (suc k * 2 ^ 51) (times_1_1 (suc n)) || not (ltb (times_1_1 (suc n)) (2 ^ 1075))

round_to-le : (m u : ℕ) → m / u * u ≤ round_to m u
unfolding round_to
round_to-le m u =
    if_intro (λ x. m / u * u ≤ x) (ltb u (2 * (m % u)) || (u == 2 * (m % u) && (m / u) % 2 == 1))
      (λ _. mul-le-mul_right u (omega arith)) (λ _. omega arith)

ltb→ge : (m n : ℕ) → ltb m n ≡ false → n ≤ m
ltb→ge m n h = ground arith

ltb→lt : (m n : ℕ) → ltb m n ≡ true → m < n
ltb→lt m n h = ground arith

lt_le : (x y z : ℕ) → x ≡ y → z ≤ y → ltb x z ≡ true → ⊥
lt_le x y z e le h = ground arith

lt→ltb : (m n : ℕ) → m < n → ltb m n ≡ true
lt→ltb m n h = ground arith

halved :
    (i m u : ℕ)
    → u * 2 ^ i ≡ 2 ^ 51
    → m < 2 ^ 104
    → u * 2 ^ 53 ≤ m
    → (j : ℕ) × (2 * u * 2 ^ j ≡ 2 ^ 51)
halved zero m u e below le = absurd (omega (arith, e, below, le))
halved (suc i) m u e below le = (
  i,
  mul_assoc 2 u (2 ^ i)
      ∙ mul_comm 2 (u * 2 ^ i)
      ∙ mul_assoc u (2 ^ i) 2
      ∙ ap (λ x. u * x) (sym (pow.suc 2 i))
      ∙ e,
)

-- The unit divides 2^51 if `m` is less than 2^104.
unit_from-divides :
    (rounds i m u : ℕ)
    → u * 2 ^ i ≡ 2 ^ 51
    → m < 2 ^ 104
    → (w : ℕ) × (w * unit_from rounds m u ≡ 2 ^ 51)
unfolding unit_from
unit_from-divides zero i m u e below = (2 ^ i, mul_comm (2 ^ i) u ∙ e)
unit_from-divides (suc rounds) i m u e below =
    (elim (ltb m (u * 2 ^ 53))
        as (λ b.
          ltb m (u * 2 ^ 53) ≡ b
          → (w : ℕ) × (w * (elim b [ true ↦ u | false ↦ unit_from rounds m (2 * u) ]) ≡ 2 ^ 51)) [
            | true ↦ λ _. (2 ^ i, mul_comm (2 ^ i) u ∙ e)
            | false ↦ λ more.
                let (j, e') = halved i m u e below (ltb→ge m (u * 2 ^ 53) more) in
                unit_from-divides rounds j m (2 * u) e' below
          ])
      refl

unit_from-stops : (rounds m u : ℕ) → m < u * 2 ^ 53 → unit_from (suc rounds) m u ≡ u
unfolding unit_from
unit_from-stops rounds m u h =
    ap (λ b. elim b as (λ _. ℕ) [ true ↦ u | false ↦ unit_from rounds m (2 * u) ])
      (lt→ltb m (u * 2 ^ 53) h)

round_to-ge : (k w u m : ℕ) → w * u ≡ 2 ^ 51 → k * 2 ^ 51 ≤ m → k * 2 ^ 51 ≤ round_to m u
round_to-ge k w zero m e le = absurd (omega (arith, e))
round_to-ge k w (suc u) m e le =
    let whole : k * w * suc u ≡ k * 2 ^ 51 = mul_assoc k w (suc u) ∙ ap (λ x. k * x) e in
    let quotient =
      (le-div_iff_mul-le {k = suc u} {x = k * w} {y = m} (omega arith)).1
        (subst (λ x. x ≤ m) (sym whole) le) in
    subst (λ x. x ≤ round_to m (suc u)) whole
      (le_trans (mul-le-mul_right (suc u) quotient) (round_to-le m (suc u)))

to_float-ge : (k m : ℕ) → k * 2 ^ 51 ≤ m → m < 2 ^ 104 → k * 2 ^ 51 ≤ to_float m
unfolding to_float
to_float-ge k m le below =
    let (w, divides) = unit_from-divides 1075 51 m 1 refl below in
    round_to-ge k w (unit_from 1075 m 1) m divides le

round_to-one : (n : ℕ) → round_to n 1 ≡ n
unfolding round_to
round_to-one n = rw (mod-one n, div-one n) (omega arith)

to_float_below : (n : ℕ) → n < 2 ^ 53 → to_float n ≡ n
unfolding to_float
to_float_below n below = ap (round_to n) (unit_from-stops 1074 n 1 (omega arith)) ∙ round_to-one n

-- For a fee from 0 to below 2^52 the float product lets only more than a tenth pass.
pub exceeds_1_1-tenth :
    (n k : ℕ) → n < 2 ^ 52 → exceeds_1_1 (pos n) (pos k) ≡ true → 11 * n < 10 * k
unfolding exceeds_1_1 times_1_1
exceeds_1_1-tenth n k below h = elim (Bool-cases (ltb (11 * n) (10 * k))) [
  | inl less ↦ ltb→lt (11 * n) (10 * k) less
  | inr not_less ↦
      let le : k * 2 ^ 51 ≤ n * one_tenth_more = omega (arith, ltb→ge (11 * n) (10 * k) not_less) in
      let product = to_float-ge k (n * one_tenth_more) le (omega arith) in
      let exact : times_1_1 n ≡ to_float (n * one_tenth_more) =
        ap (λ x. to_float (x * one_tenth_more)) (to_float_below n (omega arith)) in
      absurd (
        lt_le (times_1_1 n) (to_float (n * one_tenth_more)) (k * 2 ^ 51) exact product
          (and_true _ _ h).0)
]
