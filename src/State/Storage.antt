-- ===== src/State/Storage.antt =====
-- `update_contract_storage_partial` of minichain/state.py.
use mathlib.Core.Path.{subst}
use mathlib.Core.Option.{some-injective}
use mini_chain.Base.{String, ◌≡◌, Option, none, some, str_eq, if◌then◌else◌}
use mini_chain.Base.Dict.{lookup}
use mini_chain.Json.{Json, obj, Fields, end, field}
use mini_chain.State.Accounts.{Account, Accounts, update_contract_storage}
use mini_chain.State.Identity.{SameIdentity, storage-SameIdentity}

-- `d[k] = v`
unfoldable pub set_field : String → Json → Fields → Fields
set_field k v end = field k v end
set_field k v (field j w fs) =
    let rest = set_field k v fs in if str_eq j k then field j v fs else field j w rest

-- `d.update(updates)`
unfoldable pub update_fields : Fields → Fields → Fields
update_fields end fs = fs
update_fields (field k v us) fs = update_fields us (set_field k v fs)

-- By the storage and the updates; none where it raises.
abbrev pub updated : String → Json → Json → Accounts → Option Accounts
updated a (obj fs) (obj us) accs = some (update_contract_storage a (obj (update_fields us fs)) accs)
updated a storage updates accs = none

abbrev pub update_of : String → Option Account → Json → Accounts → Option Accounts
update_of a none updates accs = none
update_of a (some acc) updates accs = updated a acc.storage updates accs

unfoldable pub update_contract_storage_partial : String → Json → Accounts → Option Accounts
update_contract_storage_partial a updates accs = update_of a (lookup a accs) updates accs

updated-SameIdentity :
    (a : String) (storage updates : Json) (accs accs' : Accounts)
    → updated a storage updates accs ≡ some accs'
    → SameIdentity accs accs'
updated-SameIdentity a (obj fs) (obj us) accs accs' h =
    subst (SameIdentity accs) (some-injective _ _ h)
      (storage-SameIdentity a (obj (update_fields us fs)) accs)
updated-SameIdentity a storage updates accs accs' h = cc

update_of-SameIdentity :
    (a : String) (o : Option Account) (updates : Json) (accs accs' : Accounts)
    → update_of a o updates accs ≡ some accs'
    → SameIdentity accs accs'
update_of-SameIdentity a none updates accs accs' h = cc
update_of-SameIdentity a (some acc) updates accs accs' h =
    updated-SameIdentity a acc.storage updates accs accs' h

-- Where it does not raise, the nonce and the code of every account are as they were.
update_contract_storage_partial-SameIdentity :
    (a : String) (updates : Json) (accs accs' : Accounts)
    → update_contract_storage_partial a updates accs ≡ some accs'
    → SameIdentity accs accs'
unfolding update_contract_storage_partial
update_contract_storage_partial-SameIdentity a updates accs accs' h =
    update_of-SameIdentity a (lookup a accs) updates accs accs' h
