-- ===== src/State/Nested.antt =====
-- Two ways in which a nested contract call moves money that it should not.
use mathlib.Core.Path.{ap}
use mini_chain.Base.{ℕ, suc, String, ◌≡◌, ◌≢◌, refl, sym, ◌∙◌, true, false, some, [], arith}
use mini_chain.Base.Int.{ℤ, pos, negsuc, ◌+ℤ◌, ◌-ℤ◌, ◌≤ℤ◌, ◌<ℤ◌, int_laws, ltb_ℤ, ge→ltb_ℤ}
use mini_chain.Base.Dict.{contains, insert}
use mini_chain.Json.{Json}
use mini_chain.Platform.{success, failure}
use mini_chain.State.Accounts.{
  Account, Accounts, account_of, credit, debit, update_contract_storage,
}
use mini_chain.State.Calls.{Machine, settle, take_back, pay, is_contract, execute_internal_call}
use mini_chain.State.Identity.{account_of-insert, account_of-insert_self, account_of-insert_ne}

abbrev pub balance_of : String → Accounts → ℤ
balance_of a accs = (account_of a accs).balance

pub balance_of-credit_self :
    (a : String) (x : ℤ) (accs : Accounts) → balance_of a (credit a x accs) ≡ balance_of a accs +ℤ x
unfolding credit
balance_of-credit_self a x accs =
    ap (λ (acc : Account). acc.balance) (account_of-insert_self a _ accs)

pub balance_of-debit_self :
    (a : String) (x : ℤ) (accs : Accounts) → balance_of a (debit a x accs) ≡ balance_of a accs -ℤ x
unfolding debit
balance_of-debit_self a x accs =
    ap (λ (acc : Account). acc.balance) (account_of-insert_self a _ accs)

pub balance_of-credit_ne :
    (a b : String) (x : ℤ) (accs : Accounts)
    → a ≢ b
    → balance_of b (credit a x accs) ≡ balance_of b accs
unfolding credit
balance_of-credit_ne a b x accs h =
    ap (λ (acc : Account). acc.balance) (account_of-insert_ne a b _ accs h)

pub balance_of-debit_ne :
    (a b : String) (x : ℤ) (accs : Accounts)
    → a ≢ b
    → balance_of b (debit a x accs) ≡ balance_of b accs
unfolding debit
balance_of-debit_ne a b x accs h =
    ap (λ (acc : Account). acc.balance) (account_of-insert_ne a b _ accs h)

balance_of-insert :
    (a b : String) (acc : Account) (accs : Accounts)
    → acc.balance ≡ balance_of a accs
    → balance_of b (insert a acc accs) ≡ balance_of b accs
balance_of-insert a b acc accs h = ground (arith, account_of-insert a b acc accs)

pub balance_of-storage :
    (a b : String) (s : Json) (accs : Accounts)
    → balance_of b (update_contract_storage a s accs) ≡ balance_of b accs
unfolding update_contract_storage
balance_of-storage a b s accs = balance_of-insert a b _ accs refl

abbrev pub handed_over : String → String → ℤ → Accounts → Accounts
handed_over s r x accs = credit r x (debit s x accs)

module _ (run : Machine) (s r : String) (x : ℤ) (d : String) (g : ℤ) (accs : Accounts)
    (contract : is_contract r accs ≡ true) (known : contains s accs ≡ true)
    (covered : x ≤ℤ balance_of s accs) where
  pub nested_call-settles :
      execute_internal_call run false s r x d g accs
      ≡ settle false s r x (run r s d x g (handed_over s r x accs))
  unfolding execute_internal_call
  nested_call-settles = rw (contract, known, ge→ltb_ℤ _ _ covered)

  -- A nested call of a contract that fails keeps every change that was made on its behalf, but for
  -- the amount that goes back. So a callee that has spent what it was sent before it failed is left
  -- with a balance below zero, while whom it called keeps the money.
  pub failed_call_overdraws :
      (e : String) (u : ℤ) (after : Accounts)
      → run r s d x g (handed_over s r x accs) ≡ (some (failure e u), after)
      → s ≢ r
      → balance_of r after <ℤ x
      → let out = execute_internal_call run false s r x d g accs in
        (out ≡ (some (failure e u), credit s x (debit r x after))) × (balance_of r out.1 <ℤ pos 0)
  unfolding settle take_back
  failed_call_overdraws e u after ran ne spent =
      let out : execute_internal_call run false s r x d g accs
          ≡ (some (failure e u), credit s x (debit r x after)) =
        nested_call-settles ∙ ap (settle false s r x) ran in
      let left =
        balance_of-credit_ne s r x (debit r x after) ne ∙ balance_of-debit_self r x after in
      (out, rw (out, left) (omega int_laws))

  -- The amount of a nested call may be negative: a contract that calls another one with the amount
  -- -(k + 1) takes k + 1 from it, if the callee succeeds, pays nothing out and has that much.
  pub negative_call_draws :
      (k : ℕ) (u : ℤ) (st : Json)
      → x ≡ negsuc k
      → run r s d x g (handed_over s r x accs) ≡ (some (success u [] st), handed_over s r x accs)
      → s ≢ r
      → pos (suc k) ≤ℤ balance_of r accs
      → let after = (execute_internal_call run false s r x d g accs).1 in
        (balance_of s after ≡ balance_of s accs +ℤ pos (suc k))
        × (balance_of r after ≡ balance_of r accs -ℤ pos (suc k))
  unfolding settle pay
  negative_call_draws k u st amount ran ne enough =
      let funds = handed_over s r x accs in
      let stored = update_contract_storage r st funds in
      let here : balance_of r funds ≡ balance_of r accs +ℤ x =
        balance_of-credit_self r x (debit s x accs)
        ∙ ap (λ t. t +ℤ x) (balance_of-debit_ne s r x accs ne) in
      let there : balance_of s funds ≡ balance_of s accs -ℤ x =
        balance_of-credit_ne r s x (debit s x accs) (λ q. ne (sym q))
        ∙ balance_of-debit_self s x accs in
      let passes : ltb_ℤ (balance_of r funds) (pos 0) ≡ false =
        ge→ltb_ℤ _ _ (rw (here, amount) (omega int_laws)) in
      let out : execute_internal_call run false s r x d g accs
          ≡ (some (success u [] st), debit r (pos 0) stored) =
        nested_call-settles ∙ (ap (settle false s r x) ran ∙ rw passes) in
      (
        rw
            (
              out,
              balance_of-debit_ne r s (pos 0) stored (λ q. ne (sym q)),
              balance_of-storage,
              there,
              amount,
            )
            (omega int_laws),
        rw (out, balance_of-debit_self, balance_of-storage, here, amount) (omega int_laws),
      )
