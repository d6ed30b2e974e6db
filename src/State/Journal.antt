-- ===== src/State/Journal.antt =====
-- `StateJournal` of minichain/state.py: an overlay over a dictionary that caches what is read and
-- written. An account that was read is a copy in the cache, so what the program then does to it is a
-- write.
use mini_chain.Base.{String, Bool, Option, none, some, [], ◌∷◌, ◌||◌}
use mini_chain.Base.Dict.{Dict, lookup, contains, insert}

pub record Journal (V : Type 0) : Type 0 where
  pub backing : Dict V
  pub cache : Dict V

-- `dict.update`
unfoldable pub update : {V : Type 0} → Dict V → Dict V → Dict V
update d [] = d
update d ((k, v) ∷ c) = update (insert k v d) c

module _ {V : Type 0} where
  abbrev pub begin_journal : Dict V → Journal V
  begin_journal d = record { backing = d; cache = [] }

  abbrev pub cached : String → Journal V → Option V → Option (V × Journal V)
  cached k j none = none
  cached k j (some v) = some (v, record j { cache = insert k v j.cache })

  abbrev pub fetch_from : String → Journal V → Option V → Option (V × Journal V)
  fetch_from k j (some v) = some (v, j)
  fetch_from k j none = cached k j (lookup k j.backing)

  -- `__getitem__`, `none` for a `KeyError`.
  unfoldable pub fetch : String → Journal V → Option (V × Journal V)
  fetch k j = fetch_from k j (lookup k j.cache)

  -- `__setitem__`
  unfoldable pub store : String → V → Journal V → Journal V
  store k v j = record j { cache = insert k v j.cache }

  -- `__contains__`
  unfoldable pub holds : String → Journal V → Bool
  holds k j = contains k j.cache || contains k j.backing

  -- `copy`, and the items of `items`
  unfoldable pub copy : Journal V → Dict V
  copy j = update j.backing j.cache

  unfoldable pub commit : Journal V → Journal V
  commit j = record { backing = update j.backing j.cache; cache = [] }

  unfoldable pub rollback : Journal V → Journal V
  rollback j = record j { cache = [] }
