-- ===== src/State/Supply.antt =====
-- Conservation: what contract calls, transfers and fees do to the sum of all balances.
use mini_chain.Base.{
  ℕ, zero, suc, String, ◌≡◌, refl, inl, inr, Bool, true, false, Option, none, some, List, [], ◌∷◌,
  arith, if◌then◌else◌, not, ◌&&◌, Bool-cases, if_intro, ◌∙◌,
}
use mini_chain.Base.Int.{ℤ, pos, ◌+ℤ◌, ◌-ℤ◌, int_laws, ltb_ℤ}
use mini_chain.Base.Dict.{lookup, insert, contains}
use mini_chain.Json.{Json}
use mini_chain.Platform.{Platform, CallResult, success, failure}
use mathlib.Core.Path.{subst}
use mini_chain.Contract.{
  Child, call, returned, errored, broken, crashed, timed_out, worker, new_meter,
}
use mini_chain.State.Calls.{
  total_out, pay, take_back, settle, CallOutcome, Machine, execute_internal_call, serve, start,
  is_contract, execute,
}
use mini_chain.State.Accounts.{
  Account, Accounts, account_of, get_account, credit, debit, charge, update_contract_storage,
  create_contract, empty_account,
}

-- The sum of all balances.
abbrev pub total : Accounts → ℤ
total [] = pos 0
total ((a, acc) ∷ accs) = acc.balance +ℤ total accs

pub total-insert :
    (a : String) (acc : Account) (accs : Accounts)
    → total (insert a acc accs) ≡ total accs -ℤ (account_of a accs).balance +ℤ acc.balance
unfolding insert account_of lookup
total-insert a acc [] = omega int_laws
total-insert a acc ((b, other) ∷ accs) = grind (int_laws, total-insert a acc accs)

pub total-credit :
    (a : String) (x : ℤ) (accs : Accounts) → total (credit a x accs) ≡ total accs +ℤ x
unfolding credit
total-credit a x accs = rw total-insert (omega int_laws)

pub total-debit : (a : String) (x : ℤ) (accs : Accounts) → total (debit a x accs) ≡ total accs -ℤ x
unfolding debit
total-debit a x accs = rw total-insert (omega int_laws)

pub total-charge :
    (a : String) (x : ℤ) (accs : Accounts) → total (charge a x accs) ≡ total accs -ℤ x
unfolding charge
total-charge a x accs = rw total-insert (omega int_laws)

pub total-update_contract_storage :
    (a : String) (s : Json) (accs : Accounts)
    → total (update_contract_storage a s accs) ≡ total accs
unfolding update_contract_storage
total-update_contract_storage a s accs = rw total-insert (omega int_laws)

pub total-create_contract :
    (a : String) (code : Option String) (x : ℤ) (accs : Accounts)
    → total (create_contract a code x accs) ≡ total accs +ℤ x
unfolding create_contract
total-create_contract a code x accs = rw total-insert (omega int_laws)

-- A missing account counts for nothing.
pub total-get_account : (a : String) (accs : Accounts) → total (get_account a accs) ≡ total accs
unfolding get_account account_of
total-get_account a accs = grind (int_laws, total-insert a empty_account accs)

pub total-pay :
    (ts : List (String × ℤ)) (accs : Accounts) → total (pay ts accs) ≡ total accs +ℤ total_out ts
unfolding pay
total-pay [] accs = omega int_laws
total-pay ((a, n) ∷ ts) accs = rw (total-pay ts, total-credit) (omega int_laws)

pub ruleset total_laws = (
  total-credit, total-debit, total-charge, total-update_contract_storage, total-create_contract,
  total-get_account, total-pay,
)

pub total-take_back :
    (top : Bool) (s r : String) (x : ℤ) (accs : Accounts)
    → total (take_back top s r x accs) ≡ (if top then total accs -ℤ x else total accs)
unfolding take_back
total-take_back true s r x accs = simp total_laws
total-take_back false s r x accs = simp total_laws (omega int_laws)

-- The sum after a call, given the sum after the amount came in, by how the call ended.
abbrev Settled : Bool → ℤ → ℤ → CallOutcome → Type 0
Settled top amount before (some (failure e g), accs) =
    total accs ≡ (if top then before -ℤ amount else before)
Settled top amount before (_, accs) = total accs ≡ before

settle-Settled :
    (top : Bool) (s r : String) (x : ℤ) (out : CallOutcome)
    → Settled top x (total out.1) (settle top s r x out)
unfolding settle
settle-Settled top s r x (none, accs) = refl
settle-Settled top s r x (some (failure e g), accs) = total-take_back top s r x accs
settle-Settled top s r x (some (success g ts st), accs) =
    elim (Bool-cases (ltb_ℤ (account_of r accs).balance (total_out ts))) [
      | inl short ↦ rw short (total-take_back top s r x accs)
      | inr enough ↦ rw enough (simp total_laws (omega int_laws))
    ]

-- A contract machine that moves money between accounts at most.
abbrev pub Conserves : Machine → Type 0
Conserves run =
    (c s d : String) (x g : ℤ) (accs : Accounts) → total (run c s d x g accs).1 ≡ total accs

-- The sum after a call: a top-level call that succeeds brings in the amount, which the transaction
-- has taken from the sender before; every other one leaves the sum as it was.
unfoldable pub Brings : Bool → ℤ → ℤ → CallOutcome → Type 0
Brings true amount before (some (success g ts st), accs) = total accs ≡ before +ℤ amount
Brings true amount before (some (failure e g), accs) = total accs ≡ before
Brings true amount before (none, accs) = Unit
Brings false amount before (_, accs) = total accs ≡ before

Settled→Brings :
    (top : Bool) (x before : ℤ) (out : CallOutcome)
    → Settled top x (if top then before +ℤ x else before) out
    → Brings top x before out
unfolding Brings
Settled→Brings true x before (none, accs) h = tt
Settled→Brings true x before (some (success g ts st), accs) h = h
Settled→Brings true x before (some (failure e g), accs) h = rw h (omega int_laws)
Settled→Brings false x before (none, accs) h = h
Settled→Brings false x before (some (success g ts st), accs) h = h
Settled→Brings false x before (some (failure e g), accs) h = h

Brings-unchanged :
    (top : Bool) (x : ℤ) (e : String) (g : ℤ) (accs : Accounts)
    → Brings top x (total accs) (some (failure e g), accs)
unfolding Brings
Brings-unchanged true x e g accs = refl
Brings-unchanged false x e g accs = refl

Brings-none : (top : Bool) (x : ℤ) (accs : Accounts) → Brings top x (total accs) (none, accs)
unfolding Brings
Brings-none true x accs = tt
Brings-none false x accs = refl

entered :
    (top : Bool) (s r : String) (x : ℤ) (accs : Accounts)
    → total (credit r x (if top then accs else debit s x accs))
      ≡ (if top then total accs +ℤ x else total accs)
entered true s r x accs = simp total_laws
entered false s r x accs = simp total_laws (omega int_laws)

pub execute_internal_call-Brings :
    (run : Machine) (top : Bool) (s r : String) (x : ℤ) (d : String) (g : ℤ) (accs : Accounts)
    → Conserves run
    → Brings top x (total accs) (execute_internal_call run top s r x d g accs)
unfolding execute_internal_call
execute_internal_call-Brings run top s r x d g accs h =
    let funds = credit r x (if top then accs else debit s x accs) in
    let same = Brings-unchanged top x in
    if_intro (Brings top x (total accs)) (is_contract r accs)
      (λ _.
        if_intro (Brings top x (total accs)) (contains s accs)
          (λ _.
            if_intro (Brings top x (total accs)) (not top && ltb_ℤ (account_of s accs).balance x)
              (λ _. same "Insufficient balance" g accs)
              (λ _. Settled→Brings top x (total accs) _ (
                subst (λ before. Settled top x before (settle top s r x (run r s d x g funds)))
                  (h r s d x g funds ∙ entered top s r x accs) (settle-Settled top s r x _))))
          (λ _. Brings-none top x accs))
      (λ _. same "Contract not found" g accs)

-- A nested call, which succeeds, fails or raises, keeps the sum.
nested_call-total :
    (run : Machine) (s r : String) (x : ℤ) (d : String) (g : ℤ) (accs : Accounts)
    → Conserves run
    → total (execute_internal_call run false s r x d g accs).1 ≡ total accs
unfolding Brings
nested_call-total run s r x d g accs h =
    let out = execute_internal_call run false s r x d g accs in
    Brings_false out.0 out.1 (execute_internal_call-Brings run false s r x d g accs h)
  where
    Brings_false :
        (o : Option CallResult) (b : Accounts)
        → Brings false x (total accs) (o, b)
        → total b ≡ total accs
    Brings_false none b k = k
    Brings_false (some (success u ts st)) b k = k
    Brings_false (some (failure e u)) b k = k

module _ ⦃p : Platform⦄ where
  serve-total :
      (nested : String → String → ℤ → Accounts → CallOutcome) (g : ℤ) (c : Child) (accs : Accounts)
      → ((a d : String) (x : ℤ) (b : Accounts) → total (nested a d x b).1 ≡ total b)
      → total (serve nested g c accs).1 ≡ total accs
  unfolding serve
  serve-total nested g (call a d x k) accs h =
      let out = nested a d x accs in
      elim out.0
        as (λ o.
          total
            (elim o as (λ _. CallResult × Accounts) [
              | none ↦ (failure "System Error" g, out.1)
              | some r ↦ serve nested g (k r) out.1
            ]).1
          ≡ total accs) [
            | none ↦ h a d x accs
            | some r ↦ serve-total nested g (k r) out.1 h ∙ h a d x accs
          ]
  serve-total nested g (returned st ts u) accs h = refl
  serve-total nested g (errored e u) accs h = refl
  serve-total nested g broken accs h = refl
  serve-total nested g crashed accs h = refl
  serve-total nested g timed_out accs h = refl

  start-total :
      (nested : String → String → ℤ → Accounts → CallOutcome) (st : Option Json)
      (code : Option String) (c s d : String) (x g : ℤ) (accs : Accounts)
      → ((a e : String) (y : ℤ) (b : Accounts) → total (nested a e y b).1 ≡ total b)
      → total (start nested st code c s d x g accs).1 ≡ total accs
  unfolding start
  start-total nested none code c s d x g accs h = refl
  start-total nested (some st) none c s d x g accs h = refl
  start-total nested (some st) (some code) c s d x g accs h =
      let run = worker (p.exec code st s x d) (new_meter g) [] in
      ground (arith, serve-total nested g run accs h)

  -- Whatever its code does, a contract's run with all calls that it makes moves balances between
  -- accounts, and creates or destroys nothing, also where it fails.
  pub execute-Conserves : (left : ℕ) → Conserves (execute left)
  unfolding execute
  execute-Conserves zero c s d x g accs = refl
  execute-Conserves (suc left) c s d x g accs =
      start-total _ _ _ c s d x g (get_account c accs)
        (λ a e y b. nested_call-total (execute left) c a y e g b (execute-Conserves left))
      ∙ total-get_account c accs
