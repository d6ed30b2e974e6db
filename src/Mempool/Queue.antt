-- ===== src/Mempool/Queue.antt =====
-- The order of the queue, and what inserting and removing at a position do to it.
use mathlib.Core.Path.{subst}
use mini_chain.Base.{
  ℕ, zero, suc, ◌+◌, ◌≤◌, ◌<◌, ◌≡◌, ◌≢◌, sym, ◌∙◌, List, [], ◌∷◌, arith, insert_at, remove_at, All,
  AllFrom,
}
use mini_chain.Transaction.{Transaction}

-- `a` may stand in front of `b`.
abbrev pub Before : Transaction → Transaction → Type 0
Before a b = a.sender ≡ b.sender → a.nonce < b.nonce

abbrev pub IsOrdered : List Transaction → Type 0
IsOrdered [] = Unit
IsOrdered (x ∷ xs) = All (Before x) xs × IsOrdered xs

-- What stands in front of position `n` may stand before `tx`, and the rest behind it.
unfoldable pub Fits : Transaction → ℕ → ℕ → Transaction → Type 0
Fits tx n k e = (k < n → Before e tx) × (n ≤ k → Before tx e)

pub All-of_AllFrom :
    (P : Transaction → Type 0) (Q : ℕ → Transaction → Type 0) (i : ℕ) (xs : List Transaction)
    → ((k : ℕ) (x : Transaction) → i ≤ k → Q k x → P x)
    → AllFrom Q i xs
    → All P xs
All-of_AllFrom P Q i [] f h = tt
All-of_AllFrom P Q i (x ∷ xs) f h =
    (f i x (omega arith) h.0, All-of_AllFrom P Q (suc i) xs (λ k y le. f k y (omega arith)) h.1)

pub All-insert_at :
    (P : Transaction → Type 0) (n : ℕ) (tx : Transaction) (xs : List Transaction)
    → P tx
    → All P xs
    → All P (insert_at n tx xs)
All-insert_at P zero tx xs p h = (p, h)
All-insert_at P (suc n) tx [] p h = (p, tt)
All-insert_at P (suc n) tx (x ∷ xs) p h = (h.0, All-insert_at P n tx xs p h.1)

pub All-remove_at :
    (P : Transaction → Type 0) (n : ℕ) (xs : List Transaction) → All P xs → All P (remove_at n xs)
All-remove_at P n [] h = tt
All-remove_at P zero (x ∷ xs) h = h.1
All-remove_at P (suc n) (x ∷ xs) h = (h.0, All-remove_at P n xs h.1)

pub insert_at-IsOrdered :
    (i n : ℕ) (tx : Transaction) (xs : List Transaction)
    → AllFrom (Fits tx (i + n)) i xs
    → IsOrdered xs
    → IsOrdered (insert_at n tx xs)
unfolding Fits
insert_at-IsOrdered i zero tx xs f h =
    (All-of_AllFrom (Before tx) (Fits tx (i + 0)) i xs (λ k x le q. q.1 (omega arith)) f, h)
insert_at-IsOrdered i (suc n) tx [] f h = (tt, tt)
insert_at-IsOrdered i (suc n) tx (x ∷ xs) f h = (
  All-insert_at (Before x) n tx xs (f.0.0 (omega arith)) h.0,
  insert_at-IsOrdered (suc i) n tx xs
      (subst (λ m. AllFrom (Fits tx m) (suc i) xs) (omega arith) f.1) h.1,
)

pub remove_at-IsOrdered :
    (n : ℕ) (xs : List Transaction) → IsOrdered xs → IsOrdered (remove_at n xs)
remove_at-IsOrdered n [] h = tt
remove_at-IsOrdered zero (x ∷ xs) h = h.1
remove_at-IsOrdered (suc n) (x ∷ xs) h =
    (All-remove_at (Before x) n xs h.0, remove_at-IsOrdered n xs h.1)

-- Where an entry of the same sender stands, against the bounds of the scan.
unfoldable pub Placed : Transaction → ℕ → ℕ → ℕ → Transaction → Type 0
Placed tx lo hi k e =
    e.sender ≡ tx.sender → (e.nonce < tx.nonce → k < lo) × (tx.nonce < e.nonce → hi ≤ k)

-- Another sender or another nonce.
abbrev pub Distinct : Transaction → Transaction → Type 0
Distinct tx e = e.sender ≡ tx.sender → e.nonce ≢ tx.nonce

pub All-Before :
    (tx x : Transaction) (xs : List Transaction)
    → tx.sender ≡ x.sender
    → tx.nonce ≤ x.nonce
    → All (Before x) xs
    → All (Before tx) xs
All-Before tx x [] e le h = tt
All-Before tx x (y ∷ xs) e le h =
    ((λ q. omega (arith, h.0 (sym e ∙ q))), All-Before tx x xs e le h.1)

pub All-Distinct :
    (tx : Transaction) (xs : List Transaction) → All (Before tx) xs → All (Distinct tx) xs
All-Distinct tx [] h = tt
All-Distinct tx (y ∷ xs) h = ((λ q e. omega (arith, h.0 (sym q))), All-Distinct tx xs h.1)
