-- ===== src/State/Overlay.antt =====
-- A journal stands for the dictionary that it makes of its accesses: a commit leaves that dictionary,
-- a rollback the one from before.
use mini_chain.Base.{
  String, ◌≡◌, refl, ◌∙◌, ap, Option, none, some, List, [], ◌∷◌, arith, str_eq, if_intro,
}
use mini_chain.Base.Dict.{Dict, lookup, insert, lookup-insert}
use mini_chain.State.Journal.{
  Journal, update, begin_journal, cached, fetch_from, fetch, store, commit, rollback,
}

-- What is done through a journal, or to a dictionary without one.
pub data Access (V : Type 0) : Type 0 where
  reads : String → Access V
  writes : String → V → Access V

module _ {V : Type 0} where
  abbrev after_fetch : Journal V → Option (V × Journal V) → Journal V
  after_fetch j none = j
  after_fetch j (some (v, j')) = j'

  unfoldable pub run_journal : List (Access V) → Journal V → Journal V
  run_journal [] j = j
  run_journal (reads k ∷ steps) j = run_journal steps (after_fetch j (fetch k j))
  run_journal (writes k v ∷ steps) j = run_journal steps (store k v j)

  unfoldable pub run_plain : List (Access V) → Dict V → Dict V
  run_plain [] d = d
  run_plain (reads k ∷ steps) d = run_plain steps d
  run_plain (writes k v ∷ steps) d = run_plain steps (insert k v d)

module _ {V : Type 0} where
  -- No key stands twice.
  abbrev IsDistinct : Dict V → Type 0
  IsDistinct [] = Unit
  IsDistinct ((k, v) ∷ d) = (lookup k d ≡ none) × IsDistinct d

  insert-IsDistinct : (k : String) (v : V) (d : Dict V) → IsDistinct d → IsDistinct (insert k v d)
  unfolding insert lookup
  insert-IsDistinct k v [] h = (refl, tt)
  insert-IsDistinct k v ((j, w) ∷ d) (fresh, h) =
      if_intro IsDistinct (str_eq j k) (λ _. (fresh, h))
        (λ e. (ground (arith, lookup-insert k j v d), insert-IsDistinct k v d h))

  -- The entry of a key as a journal shows it.
  abbrev first_of : Option V → Option V → Option V
  first_of (some v) o = some v
  first_of none o = o

  abbrev view : String → Journal V → Option V
  view k j = first_of (lookup k j.cache) (lookup k j.backing)

  lookup-update :
      (k : String) (d c : Dict V)
      → IsDistinct c
      → lookup k (update d c) ≡ first_of (lookup k c) (lookup k d)
  unfolding update lookup
  lookup-update k d [] h = refl
  lookup-update k d ((i, v) ∷ c) (fresh, h) =
      ground (arith, lookup-update k (insert i v d) c h, lookup-insert i k v d)

  -- A journal over the one dictionary that shows the other.
  unfoldable Shows : Dict V → Dict V → Journal V → Type 0
  Shows before now j =
      (j.backing ≡ before) × IsDistinct j.cache × ((k : String) → view k j ≡ lookup k now)

  cached-Shows :
      (before now : Dict V) (k : String) (j : Journal V) (o : Option V)
      → lookup k j.cache ≡ none
      → lookup k j.backing ≡ o
      → Shows before now j
      → Shows before now (after_fetch j (cached k j o))
  unfolding Shows
  cached-Shows before now k j none missing e h = h
  cached-Shows before now k j (some v) missing e (same, distinct, shows) = (
    same,
    insert-IsDistinct k v j.cache distinct,
    λ a. ground (arith, lookup-insert k a v j.cache, shows a),
  )

  fetch_from-Shows :
      (before now : Dict V) (k : String) (j : Journal V) (o : Option V)
      → lookup k j.cache ≡ o
      → Shows before now j
      → Shows before now (after_fetch j (fetch_from k j o))
  fetch_from-Shows before now k j none e h = cached-Shows before now k j _ e refl h
  fetch_from-Shows before now k j (some v) e h = h

  store-Shows :
      (before now : Dict V) (k : String) (v : V) (j : Journal V)
      → Shows before now j
      → Shows before (insert k v now) (store k v j)
  unfolding Shows store
  store-Shows before now k v j (same, distinct, shows) = (
    same,
    insert-IsDistinct k v j.cache distinct,
    λ a. ground (arith, lookup-insert k a v j.cache, lookup-insert k a v now, shows a),
  )

  run-Shows :
      (steps : List (Access V)) (before now : Dict V) (j : Journal V)
      → Shows before now j
      → Shows before (run_plain steps now) (run_journal steps j)
  unfolding run_plain run_journal fetch
  run-Shows [] before now j h = h
  run-Shows (reads k ∷ steps) before now j h =
      run-Shows steps before now _ (fetch_from-Shows before now k j _ refl h)
  run-Shows (writes k v ∷ steps) before now j h =
      run-Shows steps before (insert k v now) (store k v j) (store-Shows before now k v j h)

  -- After any reads and writes through a journal over a dictionary, a commit leaves a dictionary with
  -- the entries that the writes without a journal would give it, and a rollback the one from before.
  pub run_journal-refines :
      (steps : List (Access V)) (d : Dict V)
      → let j = run_journal steps (begin_journal d) in
        ((k : String) → lookup k (commit j).backing ≡ lookup k (run_plain steps d))
        × (rollback j ≡ begin_journal d)
  unfolding commit rollback Shows lookup
  run_journal-refines steps d =
      let (same, distinct, shows) = run-Shows steps d d (begin_journal d) (refl, tt, λ k. refl) in
      (
        λ k. lookup-update k _ (run_journal steps (begin_journal d)).cache distinct ∙ shows k,
        ap begin_journal same,
      )
