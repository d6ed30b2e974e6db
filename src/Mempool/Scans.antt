-- ===== src/Mempool/Scans.antt =====
-- The scan of `add_transaction`: the bounds that it finds, and the pending transaction of the same
-- sender and nonce.
use native.Mathlib.Decide.{ℕ_discrete}
use mini_chain.Base.{
  ℕ, suc, ◌+◌, ◌≤◌, ◌<◌, ◌≡◌, refl, sym, ◌∙◌, ◌⊎◌, inl, inr, Option, none, some, List, [], ◌∷◌,
  arith, length, get_elem?, remove_at, All, AllFrom, str_dec,
}
use mini_chain.Transaction.{Transaction}
use mini_chain.Mempool.{Scan, scan_step, scan}
use mini_chain.Mempool.Queue.{Before, IsOrdered, Placed, Distinct, All-Before, All-Distinct}

-- What the scan knows in front of position `i`, before the entries `xs`: the bounds are in
-- order, and until a higher nonce has been met the upper one is past the end.
pub record Scanned (tx : Transaction) (i : ℕ) (xs : List Transaction) (s : Scan) : Type 0 where
  pub behind : s.i_min ≤ i
  pub ordered : s.i_min ≤ s.i_max
  pub ahead : (i + length xs ≤ s.i_max) ⊎ All (Before tx) xs

module _ (tx : Transaction) (i : ℕ) (x : Transaction) (xs : List Transaction) (s : Scan) where
  pub scan_step-Scanned :
      All (Before x) xs → Scanned tx i (x ∷ xs) s → Scanned tx (suc i) xs (scan_step tx i x s)
  unfolding scan_step
  scan_step-Scanned later h = elim h.ahead [
    | inl room ↦ record {
      behind = ground (arith, h.behind);
      ordered = ground (arith, h.ordered, h.behind, room);
      ahead = ground (arith, All-Before tx x xs, later, room);
    }
    | inr (first, rest) ↦ record {
      behind = ground (arith, h.behind);
      ordered = ground (arith, h.ordered, h.behind, first);
      ahead = inr rest;
    }
  ]

  pub scan_step-bounds :
      let s' = scan_step tx i x s in
      (s.i_min ≤ s'.i_min) × (s'.i_max ≤ s.i_max) × Placed tx s'.i_min s'.i_max i x
  unfolding scan_step Placed
  scan_step-bounds = (ground arith, ground arith, λ e. (λ lt. ground arith, λ gt. ground arith))

pub scan-bounds :
    (tx : Transaction) (i : ℕ) (xs : List Transaction) (s : Scan)
    → IsOrdered xs
    → Scanned tx i xs s
    → let s' = scan tx i xs s in
      (s'.i_min ≤ s'.i_max)
      × (s.i_min ≤ s'.i_min)
      × (s'.i_max ≤ s.i_max)
      × AllFrom (Placed tx s'.i_min s'.i_max) i xs
unfolding scan Placed
scan-bounds tx i [] s o h = (h.ordered, omega arith, omega arith, tt)
scan-bounds tx i (x ∷ xs) s o h =
    let s1 = scan_step tx i x s in
    let (lo, hi, here) = scan_step-bounds tx i x xs s in
    let (ends, lo', hi', rest) =
      scan-bounds tx (suc i) xs s1 o.1 (scan_step-Scanned tx i x xs s o.0 h) in
    (
      ends,
      omega (arith, lo, lo'),
      omega (arith, hi, hi'),
      (Placed-weaken tx i x s1.i_min s1.i_max _ _ lo' hi' here, rest),
    )
  where
    Placed-weaken :
        (t : Transaction) (k : ℕ) (e : Transaction) (lo hi lo' hi' : ℕ)
        → lo ≤ lo'
        → hi' ≤ hi
        → Placed t lo hi k e
        → Placed t lo' hi' k e
    Placed-weaken t k e lo hi lo' hi' p q h =
        λ same. (λ lt. omega (arith, p, (h same).0 lt), λ gt. omega (arith, q, (h same).1 gt))

pub scan_step-existing :
    (tx : Transaction) (i : ℕ) (x : Transaction) (s : Scan)
    → ((scan_step tx i x s).existing ≡ s.existing) × Distinct tx x
      ⊎ ((scan_step tx i x s).existing ≡ some i) × (x.sender ≡ tx.sender) × (x.nonce ≡ tx.nonce)
unfolding scan_step
scan_step-existing tx i x s = elim (str_dec x.sender tx.sender) [
  | no other ↦ inl (ground arith, λ e. absurd (other e))
  | yes same ↦ elim (ℕ_discrete x.nonce tx.nonce) [
    | yes eq ↦ inr (ground arith, same, eq)
    | no ne ↦ inl (ground arith, λ _. ne)
  ]
]

-- A scan past entries with other keys finds nothing.
pub scan-existing_Distinct :
    (tx : Transaction) (i : ℕ) (xs : List Transaction) (s : Scan)
    → All (Distinct tx) xs
    → (scan tx i xs s).existing ≡ s.existing
unfolding scan
scan-existing_Distinct tx i [] s h = refl
scan-existing_Distinct tx i (x ∷ xs) s h =
    let rest = scan-existing_Distinct tx (suc i) xs (scan_step tx i x s) h.1 in
    elim (scan_step-existing tx i x s) [
      | inl (same, _) ↦ rest ∙ same
      | inr (_, sender, nonce) ↦ absurd (h.0 sender nonce)
    ]

-- The entry has the sender and nonce of `tx`.
unfoldable pub HasKey : Transaction → Option Transaction → Type 0
HasKey tx none = ⊥
HasKey tx (some e) = (e.sender ≡ tx.sender) × (e.nonce ≡ tx.nonce)

-- How a scan that starts with nothing found ends: no entry has the key of `tx`, or exactly that at
-- the position found.
unfoldable pub Found : Transaction → ℕ → List Transaction → Option ℕ → Type 0
Found tx i xs none = All (Distinct tx) xs
Found tx i xs (some idx) =
    (n : ℕ) × (idx ≡ i + n)
    × (n < length xs)
    × HasKey tx (get_elem? xs n)
    × All (Distinct tx) (remove_at n xs)

pub scan-Found :
    (tx : Transaction) (i : ℕ) (xs : List Transaction) (s : Scan)
    → s.existing ≡ none
    → IsOrdered xs
    → Found tx i xs (scan tx i xs s).existing
unfolding scan Found HasKey
scan-Found tx i [] s e o = rw e tt
scan-Found tx i (x ∷ xs) s e o =
    let s1 = scan_step tx i x s in
    elim (scan_step-existing tx i x s) [
      | inl (same, distinct) ↦
          Found-cons tx i x xs (scan tx (suc i) xs s1).existing distinct
            (scan-Found tx (suc i) xs s1 (same ∙ e) o.1)
      | inr (found, sender, nonce) ↦
          let later =
            All-Distinct tx xs (All-Before tx x xs (sym sender) (omega (arith, nonce)) o.0) in
          rw (scan-existing_Distinct tx (suc i) xs s1 later, found)
            (0, omega arith, omega arith, (sender, nonce), later)
    ]
  where
    Found-cons :
        (t : Transaction) (k : ℕ) (y : Transaction) (ys : List Transaction) (r : Option ℕ)
        → Distinct t y
        → Found t (suc k) ys r
        → Found t k (y ∷ ys) r
    Found-cons t k y ys none d f = (d, f)
    Found-cons t k y ys (some idx) d (n, at, lt, key, rest) =
        (suc n, omega (arith, at), omega (arith, lt), key, (d, rest))
