-- ===== src/State/Identity.antt =====
-- Contract calls leave every account's nonce and code alone.
use mathlib.Core.Path.{ap}
use mini_chain.Base.{
  ℕ, zero, suc, String, ◌≡◌, refl, ◌∙◌, Bool, true, false, Option, none, some, List, [], ◌∷◌, ◌≢◌,
  arith, if◌then◌else◌, if_intro, not, ◌&&◌, str_eq,
}
use mini_chain.Base.Int.{ℤ, ltb_ℤ}
use mini_chain.Base.Dict.{insert, contains, lookup-insert}
use mini_chain.Json.{Json}
use mini_chain.Platform.{Platform, CallResult, success, failure}
use mini_chain.Contract.{
  Child, call, returned, errored, broken, crashed, timed_out, worker, new_meter, validate_code_ast,
}
use mini_chain.State.Accounts.{
  Account, Accounts, empty_account, account_of, credit, debit, get_account, update_contract_storage,
}
use mini_chain.State.Calls.{
  CallOutcome, Machine, settle, take_back, total_out, pay, serve, start, execute, is_contract,
  execute_internal_call, top_level_call,
}

pub account_of-insert :
    (a b : String) (acc : Account) (accs : Accounts)
    → account_of b (insert a acc accs) ≡ (if str_eq a b then acc else account_of b accs)
unfolding account_of
account_of-insert a b acc accs = ground (arith, lookup-insert a b acc accs)

pub account_of-insert_self :
    (a : String) (acc : Account) (accs : Accounts) → account_of a (insert a acc accs) ≡ acc
account_of-insert_self a acc accs = ground (arith, account_of-insert a a acc accs)

pub account_of-insert_ne :
    (a b : String) (acc : Account) (accs : Accounts)
    → a ≢ b
    → account_of b (insert a acc accs) ≡ account_of b accs
account_of-insert_ne a b acc accs h = ground (arith, account_of-insert a b acc accs)

pub account_of-get_account :
    (a b : String) (accs : Accounts) → account_of b (get_account a accs) ≡ account_of b accs
unfolding account_of get_account
account_of-get_account a b accs = ground (arith, lookup-insert a b empty_account accs)

abbrev pub identity : String → Accounts → ℕ × Option String
identity a accs = ((account_of a accs).nonce, (account_of a accs).code)

-- No account has another nonce or another code.
abbrev pub SameIdentity : Accounts → Accounts → Type 0
SameIdentity before after = (a : String) → identity a after ≡ identity a before

insert-SameIdentity :
    (a : String) (acc : Account) (accs : Accounts)
    → acc.nonce ≡ (account_of a accs).nonce
    → acc.code ≡ (account_of a accs).code
    → SameIdentity accs (insert a acc accs)
insert-SameIdentity a acc accs n c b = ground (arith, account_of-insert a b acc accs)

pub credit-SameIdentity :
    (a : String) (x : ℤ) (accs : Accounts) → SameIdentity accs (credit a x accs)
unfolding credit
credit-SameIdentity a x accs = insert-SameIdentity a _ accs refl refl

debit-SameIdentity : (a : String) (x : ℤ) (accs : Accounts) → SameIdentity accs (debit a x accs)
unfolding debit
debit-SameIdentity a x accs = insert-SameIdentity a _ accs refl refl

pub storage-SameIdentity :
    (a : String) (s : Json) (accs : Accounts) → SameIdentity accs (update_contract_storage a s accs)
unfolding update_contract_storage
storage-SameIdentity a s accs = insert-SameIdentity a _ accs refl refl

get_account-SameIdentity : (a : String) (accs : Accounts) → SameIdentity accs (get_account a accs)
get_account-SameIdentity a accs b =
    ap (λ (acc : Account). (acc.nonce, acc.code)) (account_of-get_account a b accs)

pay-SameIdentity : (ts : List (String × ℤ)) (accs : Accounts) → SameIdentity accs (pay ts accs)
unfolding pay
pay-SameIdentity [] accs b = refl
pay-SameIdentity ((a, n) ∷ ts) accs b =
    pay-SameIdentity ts (credit a n accs) b ∙ credit-SameIdentity a n accs b

take_back-SameIdentity :
    (top : Bool) (s r : String) (x : ℤ) (accs : Accounts)
    → SameIdentity accs (take_back top s r x accs)
unfolding take_back
take_back-SameIdentity true s r x accs b = debit-SameIdentity r x accs b
take_back-SameIdentity false s r x accs b =
    credit-SameIdentity s x (debit r x accs) b ∙ debit-SameIdentity r x accs b

settle-SameIdentity :
    (top : Bool) (s r : String) (x : ℤ) (out : CallOutcome)
    → SameIdentity out.1 (settle top s r x out).1
unfolding settle
settle-SameIdentity top s r x (none, accs) b = refl
settle-SameIdentity top s r x (some (failure e g), accs) b = take_back-SameIdentity top s r x accs b
settle-SameIdentity top s r x (some (success g ts st), accs) b =
    let stored = update_contract_storage r st accs in
    if_intro (λ (o : CallOutcome). identity b o.1 ≡ identity b accs)
      (ltb_ℤ (account_of r accs).balance (total_out ts))
      (λ _. take_back-SameIdentity top s r x accs b)
      (λ _.
        pay-SameIdentity ts (debit r (total_out ts) stored) b
        ∙ (debit-SameIdentity r (total_out ts) stored b ∙ storage-SameIdentity r st accs b))

entered-SameIdentity :
    (top : Bool) (s r : String) (x : ℤ) (accs : Accounts)
    → SameIdentity accs (credit r x (if top then accs else debit s x accs))
entered-SameIdentity true s r x accs b = credit-SameIdentity r x accs b
entered-SameIdentity false s r x accs b =
    credit-SameIdentity r x (debit s x accs) b ∙ debit-SameIdentity s x accs b

execute_internal_call-SameIdentity :
    (run : Machine) (top : Bool) (s r : String) (x : ℤ) (d : String) (g : ℤ) (accs : Accounts)
    → ((b : Accounts) → SameIdentity b (run r s d x g b).1)
    → SameIdentity accs (execute_internal_call run top s r x d g accs).1
unfolding execute_internal_call
execute_internal_call-SameIdentity run top s r x d g accs h b =
    let funds = credit r x (if top then accs else debit s x accs) in
    if_intro (λ (o : CallOutcome). identity b o.1 ≡ identity b accs) (is_contract r accs)
      (λ _.
        if_intro (λ (o : CallOutcome). identity b o.1 ≡ identity b accs) (contains s accs)
          (λ _.
            if_intro (λ (o : CallOutcome). identity b o.1 ≡ identity b accs)
              (not top && ltb_ℤ (account_of s accs).balance x) (λ _. refl)
              (λ _.
                settle-SameIdentity top s r x (run r s d x g funds) b
                ∙ (h funds b ∙ entered-SameIdentity top s r x accs b)))
          (λ _. refl))
      (λ _. refl)

module _ ⦃p : Platform⦄ where
  serve-SameIdentity :
      (nested : String → String → ℤ → Accounts → CallOutcome) (g : ℤ) (c : Child) (accs : Accounts)
      → ((a d : String) (x : ℤ) (b : Accounts) → SameIdentity b (nested a d x b).1)
      → SameIdentity accs (serve nested g c accs).1
  unfolding serve
  serve-SameIdentity nested g (call a d x k) accs h b =
      let out = nested a d x accs in
      elim out.0
        as (λ o.
          identity b
            (elim o as (λ _. CallResult × Accounts) [
              | none ↦ (failure "System Error" g, out.1)
              | some r ↦ serve nested g (k r) out.1
            ]).1
          ≡ identity b accs) [
            | none ↦ h a d x accs b
            | some r ↦ serve-SameIdentity nested g (k r) out.1 h b ∙ h a d x accs b
          ]
  serve-SameIdentity nested g (returned st ts u) accs h b = refl
  serve-SameIdentity nested g (errored e u) accs h b = refl
  serve-SameIdentity nested g broken accs h b = refl
  serve-SameIdentity nested g crashed accs h b = refl
  serve-SameIdentity nested g timed_out accs h b = refl

  start-SameIdentity :
      (nested : String → String → ℤ → Accounts → CallOutcome) (st : Option Json)
      (code : Option String) (c s d : String) (x g : ℤ) (accs : Accounts)
      → ((a e : String) (y : ℤ) (b : Accounts) → SameIdentity b (nested a e y b).1)
      → SameIdentity accs (start nested st code c s d x g accs).1
  unfolding start
  start-SameIdentity nested none code c s d x g accs h b = refl
  start-SameIdentity nested (some st) none c s d x g accs h b = refl
  start-SameIdentity nested (some st) (some code) c s d x g accs h b =
      if_intro (λ (o : CallOutcome). identity b o.1 ≡ identity b accs) (str_eq code "") (λ _. refl)
        (λ _.
          if_intro (λ (o : CallOutcome). identity b o.1 ≡ identity b accs) (validate_code_ast code)
            (λ _.
              serve-SameIdentity nested g (worker (p.exec code st s x d) (new_meter g) []) accs h b)
            (λ _. refl))

  pub execute-SameIdentity :
      (left : ℕ) (c s d : String) (x g : ℤ) (accs : Accounts)
      → SameIdentity accs (execute left c s d x g accs).1
  unfolding execute
  execute-SameIdentity zero c s d x g accs b = refl
  execute-SameIdentity (suc left) c s d x g accs b =
      start-SameIdentity _ _ _ c s d x g (get_account c accs)
        (λ a e y bs.
          execute_internal_call-SameIdentity (execute left) false c a y e g bs
            (execute-SameIdentity left a c e y g))
        b
      ∙ get_account-SameIdentity c accs b

  -- A contract call, with everything that it calls and pays, and whether it succeeds or fails, leaves
  -- the nonce and the code of every account as they were.
  pub top_level_call-SameIdentity :
      (s r : String) (x : ℤ) (d : String) (g : ℤ) (accs : Accounts)
      → SameIdentity accs (top_level_call s r x d g accs).1
  unfolding top_level_call
  top_level_call-SameIdentity s r x d g accs =
      execute_internal_call-SameIdentity (execute 11) true s r x d g accs
        (execute-SameIdentity 11 r s d x g)
