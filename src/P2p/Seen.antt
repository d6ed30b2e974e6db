-- ===== src/P2p/Seen.antt =====
-- The cache of seen messages, and the decay of the counters.
use mathlib.Core.Path.{subst}
use mini_chain.Base.{
  ℕ, suc, ◌<◌, ◌∙◌, sym, ap, str_eq, if◌then◌else◌, Bool-cases, inl, inr, append_assoc, ◌/◌, ◌≤◌,
  String, ◌≡◌, ◌≢◌, refl, true, none, List, [], ◌∷◌, ◌++◌, arith, length, length-append, if_intro,
  ltb,
}
use mini_chain.Base.Dict.{Dict, lookup}
use mini_chain.Transaction.{ValidationStatus}
use mini_chain.P2p.{
  Counts, count_of, counts_at, decay_counters, without_id, evict, mark_seen, is_seen, is_duplicate,
}

str_eq→≡ : (s t : String) → str_eq s t ≡ true → s ≡ t
str_eq→≡ s t h = ground arith

without_id-append :
    (i : String) (xs ys : List String)
    → without_id i (xs ++ ys) ≡ without_id i xs ++ without_id i ys
unfolding without_id
without_id-append i [] ys = refl
without_id-append i (x ∷ xs) ys =
    if_intro
      (λ zs. zs ≡ (if str_eq x i then without_id i xs else x ∷ without_id i xs) ++ without_id i ys)
      (str_eq x i) (λ same. rw same (without_id-append i xs ys))
      (λ other. rw other (ap (◌∷◌ x) (without_id-append i xs ys)))

length-without_id : (i : String) (is : List String) → length (without_id i is) ≤ length is
unfolding without_id
length-without_id i [] = omega arith
length-without_id i (j ∷ js) = ground (arith, length-without_id i js)

is_seen-inside : (i : String) (front back : List String) → is_seen i (front ++ i ∷ back) ≡ true
unfolding is_seen
is_seen-inside i [] back = ground arith
is_seen-inside i (j ∷ js) back = ground (arith, is_seen-inside i js back)

-- The id stands in the cache, with at most so many behind it.
unfoldable pub IsRecent : ℕ → String → List String → Type 0
IsRecent n i seen =
    (front : List String) × (back : List String) × (seen ≡ front ++ i ∷ back) × (length back ≤ n)

pub IsRecent-duplicate :
    (n : ℕ) (i : String) (seen : List String)
    → i ≢ ""
    → IsRecent n i seen
    → is_duplicate i seen ≡ true
unfolding IsRecent is_duplicate
IsRecent-duplicate n i seen named (front, back, e, _) =
    let inside = is_seen-inside i front back in rw e (ground (arith, named, inside))

pub IsRecent-weaken :
    (n : ℕ) (i : String) (seen : List String) → IsRecent n i seen → IsRecent (suc n) i seen
unfolding IsRecent
IsRecent-weaken n i seen (front, back, e, le) = (front, back, e, omega (arith, le))

-- An eviction keeps an id that has less than `max_size` behind it.
evict-IsRecent :
    (max_size n : ℕ) (i : String) (front back : List String)
    → length back ≤ n
    → n < max_size
    → IsRecent n i (evict max_size (front ++ i ∷ back))
unfolding IsRecent
evict-IsRecent max_size n i [] back le room =
    if_intro (IsRecent n i) (ltb max_size (suc (length back))) (λ full. absurd (ground arith))
      (λ _. ([], back, refl, le))
evict-IsRecent max_size n i (x ∷ front) back le room =
    if_intro (IsRecent n i) (ltb max_size (suc (length (front ++ i ∷ back))))
      (λ _. (front, back, refl, le)) (λ _. (x ∷ front, back, refl, le))

pub mark_seen-IsRecent :
    (max_size : ℕ) (i : String) (seen : List String)
    → 1 ≤ max_size
    → i ≢ ""
    → IsRecent 0 i (mark_seen max_size i seen)
unfolding mark_seen
mark_seen-IsRecent max_size i seen room named =
    if_intro (IsRecent 0 i) (str_eq i "") (λ empty. absurd (ground arith))
      (λ _. evict-IsRecent max_size 0 i (without_id i seen) [] (omega arith) (omega (arith, room)))

-- A mark puts at most one id behind it.
pub mark_seen-other :
    (max_size n : ℕ) (i j : String) (seen : List String)
    → suc n < max_size
    → IsRecent n i seen
    → IsRecent (suc n) i (mark_seen max_size j seen)
unfolding mark_seen IsRecent without_id
mark_seen-other max_size n i j seen room (front, back, e, le) =
    let shorter = length-without_id j back in
    if_intro (IsRecent (suc n) i) (str_eq j "") (λ _. (front, back, e, omega (arith, le)))
      (λ _. elim (Bool-cases (str_eq i j)) [
        | inl same ↦
            subst (λ k. IsRecent (suc n) i (evict max_size (without_id k seen ++ k ∷ [])))
              (str_eq→≡ i j same)
              (evict-IsRecent max_size (suc n) i (without_id i seen) [] (omega arith) room)
        | inr other ↦
            let parts : without_id j seen ++ j ∷ []
                ≡ without_id j front ++ i ∷ (without_id j back ++ j ∷ []) =
              ap (λ ks. without_id j ks ++ j ∷ []) e
              ∙ ap (λ ks. ks ++ j ∷ []) (without_id-append j front (i ∷ back) ∙ rw other refl)
              ∙ append_assoc (without_id j front) (i ∷ without_id j back) (j ∷ []) in
            subst (λ ks. IsRecent (suc n) i (evict max_size ks)) (sym parts)
              (evict-IsRecent max_size (suc n) i (without_id j front) (without_id j back ++ j ∷ [])
                (omega (arith, le, shorter, length-append (without_id j back) (j ∷ []))) room)
      ])

-- No peer stands twice.
abbrev pub IsDistinct : Dict Counts → Type 0
IsDistinct [] = Unit
IsDistinct ((peer, c) ∷ d) = (lookup peer d ≡ none) × IsDistinct d

decay_counters-none :
    (peer : String) (d : Dict Counts) → lookup peer d ≡ none → lookup peer (decay_counters d) ≡ none
unfolding decay_counters lookup
decay_counters-none peer [] h = refl
decay_counters-none peer ((q, c) ∷ d) h = ground (arith, decay_counters-none peer d)

-- Decay halves every counter, rounding down, also of the peers that it forgets.
pub decay_counters_lem :
    (peer : String) (s : ValidationStatus) (d : Dict Counts)
    → IsDistinct d
    → count_of s (counts_at peer (decay_counters d)) ≡ count_of s (counts_at peer d) / 2
unfolding decay_counters counts_at lookup count_of
decay_counters_lem peer s [] h = ground arith
decay_counters_lem peer s ((q, c) ∷ d) (fresh, h) =
    ground (arith, decay_counters_lem peer s d h, decay_counters-none q d fresh)
