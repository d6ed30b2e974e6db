-- ===== src/Base/Tests.antt =====
-- Boolean tests as Python writes them, and the lemmas by which proofs read them.
use Prim.Native.Nat.{ℕ, compare, Ordering}
use Prim.Native.String.{String}
use mathlib.Core.Path.{◌≡◌, refl}
use mathlib.Core.Logic.{◌⊎◌, ◌≢◌, inl, inr, ite, dite}
use mathlib.Core.Bool.{Bool, true, false, not, ◌&&◌, Bool-discrete}
use mathlib.Core.Option.{Option, none, some}
use native.Mathlib.Omega.{arith}
use text.Mathlib.Text
use text.Mathlib.TextEquality.{eq_iff}

abbrev pub ltb : ℕ → ℕ → Bool
ltb a b = elim (compare a b) [ Ordering.lt ↦ true | _ ↦ false ]

abbrev pub leb : ℕ → ℕ → Bool
leb a b = elim (compare a b) [ Ordering.gt ↦ false | _ ↦ true ]

infix 50 ◌==◌
abbrev pub ◌==◌ : ℕ → ℕ → Bool
a == b = elim (compare a b) [ Ordering.eq ↦ true | _ ↦ false ]

infix 1 if◌then◌else◌
abbrev pub if◌then◌else◌ {ℓ} : {A : Type ℓ} → Bool → A → A → A
if true then x else y = x
if false then x else y = y

pub Bool-cases : (b : Bool) → (b ≡ true) ⊎ (b ≡ false)
Bool-cases true = inl refl
Bool-cases false = inr refl

pub Option-cases {ℓ} : {A : Type ℓ} (o : Option A) → (o ≡ none) ⊎ ((a : A) × (o ≡ some a))
Option-cases none = inl refl
Option-cases (some a) = inr (a, refl)

-- Equality of texts. It stays shut in proofs, where a split on it yields the equation or its
-- negation.
unfoldable pub str_dec : Discrete String
str_dec s t =
    dite (Bool-discrete (Text.◌==◌ s t) true) (λ same. yes ((eq_iff s t).0 same))
      (λ differ. no (λ p. differ ((eq_iff s t).1 p)))

abbrev pub str_eq : String → String → Bool
str_eq s t = ite (str_dec s t) true false

-- A text that may be missing, compared as Python compares `None` and strings.
abbrev pub opt_str_eq : Option String → Option String → Bool
opt_str_eq none none = true
opt_str_eq none (some t) = false
opt_str_eq (some s) none = false
opt_str_eq (some s) (some t) = str_eq s t

-- Python's truth of an optional text: neither `None` nor "".
abbrev pub truthy : Option String → Bool
truthy none = false
truthy (some s) = ite (str_dec s "") false true

pub str_eq_refl : (s : String) → str_eq s s ≡ true
str_eq_refl s = ground arith

pub opt_str_eq_refl : (o : Option String) → opt_str_eq o o ≡ true
opt_str_eq_refl none = refl
opt_str_eq_refl (some s) = str_eq_refl s

pub opt_str_eq→eq : (a b : Option String) → opt_str_eq a b ≡ true → a ≡ b
opt_str_eq→eq none none h = refl
opt_str_eq→eq none (some t) h = cc
opt_str_eq→eq (some s) none h = cc
opt_str_eq→eq (some s) (some t) h = ground arith

-- What holds of both branches of a test holds of the test; each branch may use how it came out.
pub if_intro {ℓ κ} :
    {A : Type ℓ} (P : A → Type κ) (b : Bool) {x y : A}
    → (b ≡ true → P x)
    → (b ≡ false → P y)
    → P (if b then x else y)
if_intro P true h k = h refl
if_intro P false h k = k refl

pub str_eq→ne : (s t : String) → str_eq s t ≡ false → s ≢ t
str_eq→ne s t h = ground arith

pub not-false : (b : Bool) → not b ≡ false → b ≡ true
not-false true h = refl
not-false false h = cc

pub and_true : (a b : Bool) → (a && b) ≡ true → (a ≡ true) × (b ≡ true)
and_true true b h = (refl, h)
and_true false b h = cc

-- What follows a step that may have raised.
infixl 20 ◌then?◌
abbrev pub ◌then?◌ {ℓ κ} : {A : Type ℓ} {B : Type κ} → Option A → (A → Option B) → Option B
none then? f = none
some a then? f = f a

pub then?-some {ℓ κ} :
    {A : Type ℓ} {B : Type κ} (o : Option A) (f : A → Option B) (b : B)
    → o then? f ≡ some b
    → (a : A) × (o ≡ some a) × (f a ≡ some b)
then?-some none f b h = cc
then?-some (some a) f b h = (a, refl, h)

-- Whatever the option holds satisfies the predicate.
abbrev pub Holds {ℓ κ} : {B : Type ℓ} → (B → Type κ) → Option B → Type (ℓ ⊔ κ)
Holds P o = (b : _) → o ≡ some b → P b

pub then?-Holds {ℓ κ μ} :
    {A : Type ℓ} {B : Type κ} {P : B → Type μ} (o : Option A) {f : A → Option B}
    → ((a : A) → o ≡ some a → Holds P (f a))
    → Holds P (o then? f)
then?-Holds none h b e = cc
then?-Holds (some a) h b e = h a refl b e
