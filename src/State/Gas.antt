-- ===== src/State/Gas.antt =====
-- Gas: a call that succeeds has used no more than its limit.
use mini_chain.Base.{
  ℕ, zero, suc, String, Bool, true, Option, none, some, List, [], arith, if_intro, not, ◌&&◌,
  str_eq,
}
use mini_chain.Base.Int.{ℤ, ◌≤ℤ◌, ltb_ℤ, ltb_ℤ→ge}
use mini_chain.Base.Dict.{contains}
use mini_chain.Json.{Json}
use mini_chain.Platform.{Platform, CallResult, success, failure}
use mini_chain.Contract.{
  Child, call, returned, errored, broken, crashed, timed_out, worker, new_meter, validate_code_ast,
}
use mini_chain.State.Accounts.{Accounts, account_of, get_account}
use mini_chain.State.Calls.{
  CallOutcome, Machine, settle, total_out, accept, serve, start, execute, is_contract,
  execute_internal_call, top_level_call,
}

-- The gas of a success is at most the limit.
unfoldable pub ResultWithin : ℤ → CallResult → Type 0
ResultWithin limit (success g ts st) = g ≤ℤ limit
ResultWithin limit (failure e g) = Unit

unfoldable pub Within : ℤ → CallOutcome → Type 0
unfolding ResultWithin
Within limit (none, accs) = Unit
Within limit (some r, accs) = ResultWithin limit r

settle-Within :
    (limit : ℤ) (top : Bool) (s r : String) (x : ℤ) (out : CallOutcome)
    → Within limit out
    → Within limit (settle top s r x out)
unfolding Within settle
settle-Within limit top s r x (none, accs) h = tt
settle-Within limit top s r x (some (failure e g), accs) h = tt
settle-Within limit top s r x (some (success g ts st), accs) h =
    if_intro (Within limit) (ltb_ℤ (account_of r accs).balance (total_out ts)) (λ _. tt) (λ _. h)

call-Within :
    (run : Machine) (top : Bool) (s r : String) (x : ℤ) (d : String) (g : ℤ) (accs : Accounts)
    → ((b : Accounts) → Within g (run r s d x g b))
    → Within g (execute_internal_call run top s r x d g accs)
unfolding execute_internal_call Within
call-Within run top s r x d g accs h =
    if_intro (Within g) (is_contract r accs)
      (λ _.
        if_intro (Within g) (contains s accs)
          (λ _.
            if_intro (Within g) (not top && ltb_ℤ (account_of s accs).balance x) (λ _. tt)
              (λ _. settle-Within g top s r x _ (h _)))
          (λ _. tt))
      (λ _. tt)

module _ ⦃p : Platform⦄ where
  accept-Within :
      (g : ℤ) (st : Json) (ts : List (String × ℤ)) (u : ℤ) → ResultWithin g (accept g st ts u)
  unfolding accept ResultWithin
  accept-Within g st ts u = grind (arith, ltb_ℤ→ge)

  serve-Within :
      (nested : String → String → ℤ → Accounts → CallOutcome) (g : ℤ) (c : Child) (accs : Accounts)
      → ResultWithin g (serve nested g c accs).0
  unfolding serve ResultWithin
  serve-Within nested g (call a d x k) accs =
      let out = nested a d x accs in
      elim out.0
        as (λ o.
          ResultWithin g
            (elim o as (λ _. CallResult × Accounts) [
              | none ↦ (failure "System Error" g, out.1)
              | some r ↦ serve nested g (k r) out.1
            ]).0) [ none ↦ tt | some r ↦ serve-Within nested g (k r) out.1 ]
  serve-Within nested g (returned st ts u) accs = accept-Within g st ts u
  serve-Within nested g (errored e u) accs = tt
  serve-Within nested g broken accs = tt
  serve-Within nested g crashed accs = tt
  serve-Within nested g timed_out accs = tt

  start-Within :
      (nested : String → String → ℤ → Accounts → CallOutcome) (st : Option Json)
      (code : Option String) (c s d : String) (x g : ℤ) (accs : Accounts)
      → Within g (start nested st code c s d x g accs)
  unfolding start Within
  start-Within nested none code c s d x g accs = tt
  start-Within nested (some st) none c s d x g accs = tt
  start-Within nested (some st) (some code) c s d x g accs =
      if_intro (Within g) (str_eq code "") (λ _. tt)
        (λ _.
          if_intro (Within g) (validate_code_ast code)
            (λ _. serve-Within nested g (worker (p.exec code st s x d) (new_meter g) []) accs)
            (λ _. tt))

  execute-Within :
      (left : ℕ) (c s d : String) (x g : ℤ) (accs : Accounts)
      → Within g (execute left c s d x g accs)
  unfolding execute Within
  execute-Within zero c s d x g accs = tt
  execute-Within (suc left) c s d x g accs = start-Within _ _ _ c s d x g (get_account c accs)

  pub top_level_call-Within :
      (s r : String) (x : ℤ) (d : String) (g : ℤ) (accs : Accounts)
      → Within g (top_level_call s r x d g accs)
  unfolding top_level_call
  top_level_call-Within s r x d g accs =
      call-Within (execute 11) true s r x d g accs (execute-Within 11 r s d x g)
