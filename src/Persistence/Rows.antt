-- ===== src/Persistence/Rows.antt =====
-- The database of a stored chain in minichain/persistence.py: `_save_snapshot_to_sqlite`,
-- `_load_snapshot_from_sqlite`, and the reading of blocks and accounts in `load`. A text of JSON stands for
-- its value. A result is `none` where the method raises; a failed save leaves the old rows. The keys of
-- a dict of accounts differ, so that no row of theirs is refused. An account with a value of another
-- type than its field has counts as invalid. The tables are there.
use mini_chain.Base.{
  ℕ, String, Bool, true, false, Option, none, some, List, [], ◌∷◌, ◌++◌, ◌==◌, leb, length, map,
  if◌then◌else◌, ◌then?◌,
}
use mini_chain.Base.Int.{pos}
use mini_chain.Base.Text.{decimal, int10}
use mini_chain.Json.{Json, obj}
use mini_chain.Platform.{Platform}
use mini_chain.Transaction.Parse.{get, integer, natural, optional_text}
use mini_chain.State.Accounts.{Account, Accounts, account_to_json, sorted_items}
use mini_chain.Block.{Block}
use mini_chain.Block.Parse.{block_to_dict, block_from_dict}
use mini_chain.Chain.Apply.{int_eq}
use mini_chain.Chain.Blockchain.{Blockchain}
use mini_chain.Persistence.{Snapshot, save, load}

-- Blocks by height, accounts by address, and the metadata.
pub record Database : Type 0 where
  pub blocks : List (ℕ × Json)
  pub accounts : List (String × Json)
  pub chain_length : Option String

unfoldable pub has_height : ℕ → List (ℕ × Json) → Bool
has_height n [] = false
has_height n ((k, j) ∷ rows) = let rest = has_height n rows in if k == n then true else rest

-- The values of a dict as JSON.
unfoldable pub rows_of : Accounts → List (String × Json)
rows_of [] = []
rows_of ((a, acc) ∷ accs) = (a, account_to_json acc) ∷ rows_of accs

module _ ⦃p : Platform⦄ where
  abbrev pub block_row : Block → ℕ × Json
  block_row b = (b.index, block_to_dict b)

  -- The height is the primary key.
  unfoldable pub insert_blocks : List Block → List (ℕ × Json) → Option (List (ℕ × Json))
  insert_blocks [] rows = some rows
  insert_blocks (b ∷ bs) rows =
      let rest = insert_blocks bs (rows ++ block_row b ∷ []) in
      if has_height b.index rows then none else rest

  -- `_save_snapshot_to_sqlite`
  unfoldable pub save_snapshot : Snapshot → Option Database
  save_snapshot (blocks, accs) = insert_blocks blocks [] then? (λ rows. some (record {
    blocks = rows;
    accounts = rows_of (sorted_items accs);
    chain_length = some (decimal (length blocks));
  }))

-- `ORDER BY height ASC`
unfoldable pub insert_row : ℕ × Json → List (ℕ × Json) → List (ℕ × Json)
insert_row r [] = r ∷ []
insert_row r (s ∷ ss) = let rest = insert_row r ss in if leb r.0 s.0 then r ∷ s ∷ ss else s ∷ rest

unfoldable pub by_height : List (ℕ × Json) → List (ℕ × Json)
by_height [] = []
by_height (r ∷ rs) = insert_row r (by_height rs)

-- Whether the stored length is the number of blocks.
unfoldable pub has_length : Option String → ℕ → Bool
has_length none n = false
has_length (some s) n = elim (int10 s) [ none ↦ false | some k ↦ int_eq k (pos n) ]

-- `_load_snapshot_from_sqlite`
unfoldable pub load_snapshot : Database → Option (List Json × List (String × Json))
load_snapshot db =
    if has_length db.chain_length (length db.blocks)
    then some (map (λ r. r.1) (by_height db.blocks), sorted_items db.accounts)
    else none

-- An account that is read.
unfoldable pub account_from_json : Json → Option Account
account_from_json (obj fs) = integer (get "balance" fs) then? (λ balance.
    natural (get "nonce" fs) then? (λ nonce. optional_text (get "code" fs) then? (λ code.
      get "storage" fs then? (λ storage.
        some (record { balance = balance; nonce = nonce; code = code; storage = storage })))))
account_from_json _ = none

unfoldable pub read_accounts : List (String × Json) → Option Accounts
read_accounts [] = some []
read_accounts ((a, j) ∷ rows) =
    let rest = read_accounts rows in
    account_from_json j then? (λ acc. rest then? (λ accs. some ((a, acc) ∷ accs)))

module _ ⦃p : Platform⦄ where
  unfoldable pub read_blocks : ℕ → List Json → Option (List Block)
  read_blocks now [] = some []
  read_blocks now (j ∷ js) =
      let rest = read_blocks now js in
      block_from_dict now j then? (λ b. rest then? (λ bs. some (b ∷ bs)))

  module _ {F : Type 0} where
    -- `save`
    unfoldable pub save_chain : Blockchain F → Option Database
    save_chain bc = save_snapshot (save bc)

    -- `load`, over the object that `Blockchain()` makes of the genesis file.
    unfoldable pub load_chain : ℕ → Blockchain F → Database → Option (Blockchain F)
    load_chain now fresh db = load_snapshot db then? (λ (raw_blocks, raw_accounts).
        read_blocks now raw_blocks
        then? (λ blocks. read_accounts raw_accounts then? (λ accs. load now fresh (blocks, accs))))
