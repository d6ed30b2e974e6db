-- ===== src/Persistence/Stored.antt =====
-- What `load` of minichain/persistence.py reads out of the rows that `save` has written.
use mathlib.Core.Path.{subst}
use mini_chain.Base.{
  ℕ, suc, ◌+◌, ◌≤◌, ◌<◌, ◌≡◌, refl, sym, ◌∙◌, ap, String, true, false, none, some, List, [], ◌∷◌,
  ◌++◌, append_assoc, ◌==◌, leb, length, map, All, if_intro, arith,
}
use mini_chain.Base.Int.{pos}
use mini_chain.Base.Dict.{lookup}
use mini_chain.Base.Text.{decimal}
use mini_chain.Base.Text.Numerals.{int10-decimal}
use mini_chain.Json.{Json}
use mini_chain.Platform.{Platform}
use mini_chain.State.Accounts.{sorted_items}
use mini_chain.Block.{Block}
use mini_chain.Block.Roundtrip.{IsSendable, block_from_dict-block_to_dict}
use mini_chain.Chain.Apply.{int_eq}
use mini_chain.Chain.Links.{Follows}
use mini_chain.Chain.Growth.{IsLinked}
use mini_chain.Chain.Blockchain.{Blockchain}
use mini_chain.Persistence.{load, verify_chain_integrity}
use mini_chain.Persistence.Restart.{verify_chain_integrity-IsLinked}
use mini_chain.Persistence.Rows.{
  Database, has_height, rows_of, block_row, insert_blocks, save_snapshot, insert_row, by_height,
  has_length, load_snapshot, read_blocks, save_chain, load_chain,
}
use mini_chain.Persistence.AccountRows.{read_accounts-rows, sorted_items-rows, lookup-sorted_items}

-- All rows are below a height.
abbrev AreBelow : ℕ → List (ℕ × Json) → Type 0
AreBelow n rows = All (λ (r : ℕ × Json). r.0 < n) rows

AreBelow-has_height : (n : ℕ) (rows : List (ℕ × Json)) → AreBelow n rows → has_height n rows ≡ false
unfolding has_height
AreBelow-has_height n [] h = refl
AreBelow-has_height n ((k, j) ∷ rows) (low, rest) =
    if_intro (λ b. b ≡ false) (k == n) (λ same. absurd (ground arith))
      (λ _. AreBelow-has_height n rows rest)

AreBelow-snoc :
    (n m : ℕ) (rows : List (ℕ × Json)) (r : ℕ × Json)
    → n ≤ m
    → r.0 < m
    → AreBelow n rows
    → AreBelow m (rows ++ r ∷ [])
AreBelow-snoc n m [] r le low h = (low, tt)
AreBelow-snoc n m (s ∷ rows) r le low (first, rest) =
    (omega (arith, le, first), AreBelow-snoc n m rows r le low rest)

module _ ⦃p : Platform⦄ where
  linked_index : (b c : Block) (bs : List Block) → IsLinked (b ∷ c ∷ bs) → c.index ≡ b.index + 1
  unfolding IsLinked Follows
  linked_index b c bs linked = linked.0.1

  IsLinked-rest : (b c : Block) (bs : List Block) → IsLinked (b ∷ c ∷ bs) → IsLinked (c ∷ bs)
  unfolding IsLinked
  IsLinked-rest b c bs linked = linked.1

  -- No height of a linked chain is taken twice.
  insert_blocks-linked :
      (b : Block) (bs : List Block) (rows : List (ℕ × Json))
      → IsLinked (b ∷ bs)
      → AreBelow b.index rows
      → insert_blocks (b ∷ bs) rows ≡ some (rows ++ map block_row (b ∷ bs))
  unfolding insert_blocks
  insert_blocks-linked b [] rows linked low = rw (AreBelow-has_height b.index rows low) refl
  insert_blocks-linked b (c ∷ bs) rows linked low =
      let next = linked_index b c bs linked in
      rw (AreBelow-has_height b.index rows low) (
        insert_blocks-linked c bs (rows ++ block_row b ∷ []) (IsLinked-rest b c bs linked) (
          AreBelow-snoc b.index c.index rows (block_row b) (omega (arith, next))
            (omega (arith, next)) low)
        ∙ ap some (append_assoc rows (block_row b ∷ []) (map block_row (c ∷ bs))))

  -- The rows of a linked chain stand in order.
  by_height-linked :
      (b : Block) (bs : List Block)
      → IsLinked (b ∷ bs)
      → by_height (map block_row (b ∷ bs)) ≡ map block_row (b ∷ bs)
  unfolding by_height insert_row
  by_height-linked b [] linked = refl
  by_height-linked b (c ∷ bs) linked =
      let next = linked_index b c bs linked in
      ap (insert_row (block_row b)) (by_height-linked c bs (IsLinked-rest b c bs linked))
      ∙ if_intro (λ x. x ≡ map block_row (b ∷ c ∷ bs)) (leb b.index c.index) (λ _. refl)
          (λ above. absurd (ground (arith, next)))

  length-rows : (bs : List Block) → length (map block_row bs) ≡ length bs
  length-rows [] = refl
  length-rows (b ∷ bs) = ap suc (length-rows bs)

  read_blocks-rows :
      (now : ℕ) (bs : List Block)
      → All IsSendable bs
      → read_blocks now (map (λ r. r.1) (map block_row bs)) ≡ some bs
  unfolding read_blocks
  read_blocks-rows now [] h = refl
  read_blocks-rows now (b ∷ bs) (first, rest) =
      rw (block_from_dict-block_to_dict now b first) (rw (read_blocks-rows now bs rest) refl)

  insert_all : (bs : List Block) → IsLinked bs → insert_blocks bs [] ≡ some (map block_row bs)
  unfolding insert_blocks
  insert_all [] linked = refl
  insert_all (b ∷ bs) linked = insert_blocks-linked b bs [] linked tt

  by_height-all : (bs : List Block) → IsLinked bs → by_height (map block_row bs) ≡ map block_row bs
  unfolding by_height
  by_height-all [] linked = refl
  by_height-all (b ∷ bs) linked = by_height-linked b bs linked

has_length-decimal : (n m : ℕ) → n ≡ m → has_length (some (decimal n)) m ≡ true
unfolding has_length
has_length-decimal n m e =
    subst (λ o. (elim o [ none ↦ false | some k ↦ int_eq k (pos m) ]) ≡ true)
      (sym (int10-decimal n)) (ground (arith, e))

module _ {F : Type 0} ⦃p : Platform⦄ where
  -- The rows of a chain and its accounts.
  abbrev stored : Blockchain F → Database
  stored bc = record {
    blocks = map block_row bc.chain;
    accounts = rows_of (sorted_items bc.state.accounts);
    chain_length = some (decimal (length bc.chain));
  }

  save_chain-stored : (bc : Blockchain F) → IsLinked bc.chain → save_chain bc ≡ some (stored bc)
  unfolding save_chain save_snapshot
  save_chain-stored bc linked = rw (insert_all bc.chain linked) refl

  load_snapshot-stored :
      (bc : Blockchain F)
      → IsLinked bc.chain
      → load_snapshot (stored bc)
        ≡ some (
          map (λ r. r.1) (map block_row bc.chain),
          rows_of (sorted_items (sorted_items bc.state.accounts)),
        )
  unfolding load_snapshot
  load_snapshot-stored bc linked =
      rw
        (has_length-decimal (length bc.chain) (length (map block_row bc.chain))
          (sym (length-rows bc.chain)))
        (rw (by_height-all bc.chain linked)
          (rw (sorted_items-rows (sorted_items bc.state.accounts)) refl))

  load_chain-stored :
      (now : ℕ) (fresh bc : Blockchain F)
      → IsLinked bc.chain
      → All IsSendable bc.chain
      → load_chain now fresh (stored bc)
        ≡ load now fresh (bc.chain, sorted_items (sorted_items bc.state.accounts))
  unfolding load_chain
  load_chain-stored now fresh bc linked sendable = rw (load_snapshot-stored bc linked) (
      rw (read_blocks-rows now bc.chain sendable)
        (rw (read_accounts-rows (sorted_items (sorted_items bc.state.accounts))) refl))

  -- A chain that passes the check of `load`, with blocks as the code makes them, is saved and read
  -- back: neither raises, the blocks are the same, and at every address there is the same account.
  pub load_chain-save_chain :
      (now : ℕ) (fresh bc : Blockchain F)
      → verify_chain_integrity now bc.chain ≡ true
      → All IsSendable bc.chain
      → (db : Database) × (bc' : Blockchain F) × (save_chain bc ≡ some db)
        × (load_chain now fresh db ≡ some bc')
        × (bc'.chain ≡ bc.chain)
        × ((a : String) → lookup a bc'.state.accounts ≡ lookup a bc.state.accounts)
  unfolding load
  load_chain-save_chain now fresh bc good sendable =
      let linked = verify_chain_integrity-IsLinked now bc.chain good in
      let accs = bc.state.accounts in
      (
        stored bc,
        record fresh {
          chain = bc.chain;
          state = record fresh.state { accounts = sorted_items (sorted_items accs) };
        },
        save_chain-stored bc linked,
        load_chain-stored now fresh bc linked sendable ∙ rw good refl,
        refl,
        λ a. lookup-sorted_items a (sorted_items accs) ∙ lookup-sorted_items a accs,
      )
