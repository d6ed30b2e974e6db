-- ===== src/Persistence/AccountRows.antt =====
-- The rows of accounts in minichain/persistence.py: read back, and looked up in any order.
use mathlib.Core.Path.{subst}
use text.Mathlib.TextPositions.{compare_refl}
use text.Mathlib.Text
use Prim.Native.String
use mini_chain.Base.{
  ◌≡◌, ◌≢◌, refl, sym, ◌∙◌, ap, String, true, false, some, [], ◌∷◌, str_eq, str_dec, if_intro,
  if◌then◌else◌, arith,
}
use mini_chain.Base.Dict.{lookup}
use mini_chain.Transaction.Parse.{get}
use mini_chain.Transaction.Roundtrip.{optional_text-opt_str}
use mini_chain.State.Accounts.{Account, Accounts, account_to_json, insert_sorted, sorted_items}
use mini_chain.Persistence.Rows.{rows_of, account_from_json, read_accounts}

account_from_json-account_to_json :
    (acc : Account) → account_from_json (account_to_json acc) ≡ some acc
unfolding account_from_json account_to_json get str_dec
account_from_json-account_to_json acc = rw (optional_text-opt_str acc.code) refl

pub read_accounts-rows : (accs : Accounts) → read_accounts (rows_of accs) ≡ some accs
unfolding read_accounts rows_of
read_accounts-rows [] = refl
read_accounts-rows ((a, acc) ∷ accs) =
    rw (account_from_json-account_to_json acc) (rw (read_accounts-rows accs) refl)

insert_sorted-rows :
    (a : String) (acc : Account) (accs : Accounts)
    → insert_sorted (a, account_to_json acc) (rows_of accs) ≡ rows_of (insert_sorted (a, acc) accs)
unfolding insert_sorted rows_of
insert_sorted-rows a acc [] = refl
insert_sorted-rows a acc ((b, other) ∷ accs) =
    elim (Text.is_le (String.compare a b))
      as (λ le.
        (if le
          then (a, account_to_json acc) ∷ (b, account_to_json other) ∷ rows_of accs
          else (b, account_to_json other) ∷ insert_sorted (a, account_to_json acc) (rows_of accs))
        ≡ rows_of (
            if le
            then (a, acc) ∷ (b, other) ∷ accs
            else (b, other) ∷ insert_sorted (a, acc) accs)) [
              | true ↦ refl
              | false ↦ ap (◌∷◌ (b, account_to_json other)) (insert_sorted-rows a acc accs)
            ]

pub sorted_items-rows :
    (accs : Accounts) → sorted_items (rows_of accs) ≡ rows_of (sorted_items accs)
unfolding sorted_items rows_of
sorted_items-rows [] = refl
sorted_items-rows ((a, acc) ∷ accs) =
    ap (insert_sorted (a, account_to_json acc)) (sorted_items-rows accs)
    ∙ insert_sorted-rows a acc (sorted_items accs)

-- A text that does not come before or with another differs from it.
above-differs : (a b : String) → Text.is_le (String.compare a b) ≡ false → a ≢ b
above-differs a b above same =
    let here : Text.is_le (String.compare a a) ≡ false =
      subst (λ x. Text.is_le (String.compare a x) ≡ false) (sym same) above in
    let clash : true ≡ false = sym (ap Text.is_le (compare_refl a)) ∙ here in cc

lookup-insert_sorted :
    (q a : String) (acc : Account) (accs : Accounts)
    → lookup q (insert_sorted (a, acc) accs) ≡ (if str_eq a q then some acc else lookup q accs)
unfolding insert_sorted lookup
lookup-insert_sorted q a acc [] = ground arith
lookup-insert_sorted q a acc ((b, other) ∷ accs) =
    if_intro
      (λ (x : Accounts).
        lookup q x
        ≡ (if str_eq a q then some acc else if str_eq b q then some other else lookup q accs))
      (Text.is_le (String.compare a b)) (λ _. refl)
      (λ above. ground (arith, lookup-insert_sorted q a acc accs, above-differs a b above))

pub lookup-sorted_items :
    (q : String) (accs : Accounts) → lookup q (sorted_items accs) ≡ lookup q accs
unfolding sorted_items lookup
lookup-sorted_items q [] = refl
lookup-sorted_items q ((a, acc) ∷ accs) =
    lookup-insert_sorted q a acc (sorted_items accs)
    ∙ ap (λ o. if str_eq a q then some acc else o) (lookup-sorted_items q accs)
