-- ===== src/State/Accounts.antt =====
-- The accounts of minichain/state.py: the dictionary of accounts and the methods of `State` that
-- read or write one account. `StateJournal` stands in State/Journal.antt.
use mini_chain.Base.{
  ℕ, ◌+◌, String, Bool, true, false, Option, none, some, List, [], ◌∷◌, ◌&&◌, not, truthy,
  if◌then◌else◌, ◌==◌,
}
use mini_chain.Base.Int.{ℤ, pos, negsuc, ◌+ℤ◌, ◌-ℤ◌}
use mini_chain.Base.Dict.{Dict, lookup, insert, contains}
use mini_chain.Base.Text.{decimal, from_hex}
use mini_chain.Json.{Json, num, obj, field, end, opt_str, is_truthy}
use mini_chain.Platform.{Platform}
use Prim.Native.String
use text.Mathlib.Text
use mathlib.Core.Option as Opt

pub record Account : Type 0 where
  pub balance : ℤ
  pub nonce : ℕ
  pub code : Option String
  pub storage : Json

abbrev pub Accounts : Type 0
Accounts = Dict Account

abbrev pub empty_account : Account
empty_account = record { balance = pos 0; nonce = 0; code = none; storage = obj end }

-- The account at an address, or the one that `get_account` would create there.
unfoldable pub account_of : String → Accounts → Account
account_of a accs = elim (lookup a accs) [ none ↦ empty_account | some acc ↦ acc ]

-- The accounts after `get_account`.
unfoldable pub get_account : String → Accounts → Accounts
get_account a accs = if contains a accs then accs else insert a empty_account accs

-- `account['balance'] += x`, and `-= x`, on the account of `get_account`.
unfoldable pub credit : String → ℤ → Accounts → Accounts
credit a x accs =
    let acc = account_of a accs in insert a (record acc { balance = acc.balance +ℤ x }) accs

unfoldable pub debit : String → ℤ → Accounts → Accounts
debit a x accs =
    let acc = account_of a accs in insert a (record acc { balance = acc.balance -ℤ x }) accs

-- `sender['balance'] -= cost; sender['nonce'] += 1`
unfoldable pub charge : String → ℤ → Accounts → Accounts
charge a cost accs =
    let acc = account_of a accs in
    insert a (record acc { balance = acc.balance -ℤ cost; nonce = acc.nonce + 1 }) accs

unfoldable pub update_contract_storage : String → Json → Accounts → Accounts
update_contract_storage a new_storage accs =
    let acc = account_of a accs in insert a (record acc { storage = new_storage }) accs

unfoldable pub create_contract : String → Option String → ℤ → Accounts → Accounts
create_contract a code initial accs =
    insert a
      (record {
        balance = (account_of a accs).balance +ℤ initial;
        nonce = 0;
        code = code;
        storage = obj end;
      })
      accs

unfoldable pub has_code : Account → Bool
has_code acc = truthy acc.code

-- `DEFAULT_MINING_REWARD` of network_config.py.
abbrev pub default_mining_reward : ℤ
default_mining_reward = pos 50

-- `credit_mining_reward`; `none` is the default of its argument.
unfoldable pub credit_mining_reward : String → Option ℤ → Accounts → Accounts
credit_mining_reward miner none accs = credit miner default_mining_reward accs
credit_mining_reward miner (some reward) accs = credit miner reward accs

-- An account as `json.dumps` sees it, its fields in the order of `sort_keys`.
unfoldable pub account_to_json : Account → Json
account_to_json acc = obj (
    field "balance" (num acc.balance) (
      field "code" (opt_str acc.code)
        (field "nonce" (num (pos acc.nonce)) (field "storage" acc.storage end))))

-- An account that `state_root` leaves out.
is_zero : ℤ → Bool
is_zero (pos n) = n == 0
is_zero (negsuc n) = false

unfoldable pub is_blank : Account → Bool
unfolding is_zero
is_blank acc =
    is_zero acc.balance && acc.nonce == 0 && not (has_code acc) && not (is_truthy acc.storage)

-- `sorted(self.accounts.items())`: the keys of a dict differ, so they alone decide.
unfoldable pub insert_sorted {ℓ} : {V : Type ℓ} → String × V → Dict V → Dict V
insert_sorted e [] = e ∷ []
insert_sorted e (f ∷ accs) =
    if Text.is_le (String.compare e.0 f.0) then e ∷ f ∷ accs else f ∷ insert_sorted e accs

unfoldable pub sorted_items {ℓ} : {V : Type ℓ} → Dict V → Dict V
sorted_items [] = []
sorted_items (e ∷ accs) = insert_sorted e (sorted_items accs)

module _ ⦃p : Platform⦄ where
  -- The keys and values that are put into the trie; `none` where an address is no hexadecimal text.
  unfoldable pub trie_entries : Accounts → Option (List (List ℕ × String))
  trie_entries [] = some []
  trie_entries ((a, acc) ∷ accs) =
      let rest = trie_entries accs in
      elim (is_blank acc) [
        | true ↦ rest
        | false ↦ elim (from_hex a) [
          | none ↦ none
          | some key ↦ Opt.map (λ r. (key, p.json_dumps (account_to_json acc)) ∷ r) rest
        ]
      ]

  -- `state_root`, `none` where it raises.
  unfoldable pub state_root : Accounts → Option String
  unfolding insert_sorted sorted_items trie_entries
  state_root accs = Opt.map p.trie_root (trie_entries (sorted_items accs))

  unfoldable pub derive_contract_address : String → ℕ → String
  derive_contract_address sender nonce =
      String.slice (p.sha256_hex (String.◌++◌ sender (String.◌++◌ ":" (decimal nonce)))) 0 40
