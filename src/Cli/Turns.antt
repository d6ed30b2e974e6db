-- ===== src/Cli/Turns.antt =====
-- What one line on the command line of main.py can do to a node.
use mini_chain.Base.{
  ℕ, true, ◌≡◌, ◌⊎◌, refl, sym, inl, inr, String, Option, none, some, List, [], ◌∷◌, str_eq,
  if_intro,
}
use mini_chain.Base.Int.{ℤ, pos, ltb_ℤ}
use mini_chain.Platform.{Platform}
use mini_chain.Transaction.Sign.{Signer, is_valid_receiver}
use mini_chain.Chain.{Float}
use mini_chain.Node.{Node}
use mini_chain.Node.Mining.{Produced, mined, refused, raised}
use mathlib.Core.Path.{subst}
use mini_chain.Cli.{
  FileRead, contents, missing, unreadable, usage, invalid_receiver, invalid_values,
  amount_not_positive, no_file, shown, Session, Turn, breaks, tells, parse_tx_params,
}
use mini_chain.Cli.Commands.{
  send_values, send, submit_values, deploy_code, deploy_file, call_command, Mining, mine,
  after_mining, command, cli_turn,
}
use mini_chain.Cli.Others.{IsTurnOf, of_turn, quiet, other_command-IsTurnOf}
use mini_chain.Cli.Submits.{Keeps, Submits, IsTurn, HasOwnAddress, told, submit-IsTurn}

module _ {F K : Type 0} ⦃p : Platform⦄ ⦃sg : Signer K⦄ where
  send_values-IsTurn :
      (now : ℕ) (receiver : String) (o : Option (ℤ × ℤ × ℤ)) (s : Session F K)
      → HasOwnAddress s
      → IsTurn s (send_values now receiver o s)
  send_values-IsTurn now receiver none s own = told s invalid_values (λ q. cc)
  send_values-IsTurn now receiver (some (amount, gas_limit, fee_per_gas)) s own =
      if_intro (IsTurn s) (ltb_ℤ (pos 0) amount)
        (λ _. submit-IsTurn now (some receiver) none (amount, gas_limit, fee_per_gas) s own)
        (λ _. told s amount_not_positive (λ q. cc))

  send-IsTurn :
      (now : ℕ) (parts : List String) (s : Session F K)
      → HasOwnAddress s
      → IsTurn s (send now parts s)
  unfolding send
  send-IsTurn now [] s own = told s usage (λ q. cc)
  send-IsTurn now (cmd ∷ []) s own = told s usage (λ q. cc)
  send-IsTurn now (cmd ∷ receiver ∷ []) s own = told s usage (λ q. cc)
  send-IsTurn now (cmd ∷ receiver ∷ amount ∷ rest) s own =
      if_intro (IsTurn s) (is_valid_receiver receiver)
        (λ _.
          send_values-IsTurn now receiver (parse_tx_params (cmd ∷ receiver ∷ amount ∷ rest) 2) s
            own)
        (λ _. told s invalid_receiver (λ q. cc))

  submit_values-IsTurn :
      (now : ℕ) (receiver : Option String) (payload : String) (o : Option (ℤ × ℤ × ℤ))
      (s : Session F K)
      → HasOwnAddress s
      → IsTurn s (submit_values now receiver payload o s)
  submit_values-IsTurn now receiver payload none s own = told s invalid_values (λ q. cc)
  submit_values-IsTurn now receiver payload (some values) s own =
      submit-IsTurn now receiver (some payload) values s own

  -- A file to deploy that is there but cannot be read: the exception ends the loop.
  unfoldable pub CannotRead : (String → FileRead) → List String → Session F K → Turn F K → Type 0
  CannotRead files (cmd ∷ filepath ∷ rest) s t =
      (str_eq cmd "deploy" ≡ true) × (files filepath ≡ unreadable) × (t ≡ tells breaks s)
  CannotRead files _ s t = ⊥

  deploy_code-IsTurn :
      (files : String → FileRead) (now : ℕ) (cmd filepath : String) (rest : List String)
      (read : FileRead) (s : Session F K)
      → HasOwnAddress s
      → str_eq cmd "deploy" ≡ true
      → files filepath ≡ read
      → let t = deploy_code now (cmd ∷ filepath ∷ rest) read s in
        IsTurn s t ⊎ CannotRead files (cmd ∷ filepath ∷ rest) s t
  unfolding CannotRead
  deploy_code-IsTurn files now cmd filepath rest missing s own deploys e =
      inl (told s no_file (λ q. cc))
  deploy_code-IsTurn files now cmd filepath rest unreadable s own deploys e = inr (deploys, e, refl)
  deploy_code-IsTurn files now cmd filepath rest (contents code) s own deploys e =
      inl (submit_values-IsTurn now none code (parse_tx_params (cmd ∷ filepath ∷ rest) 2) s own)

  deploy_file-IsTurn :
      (files : String → FileRead) (now : ℕ) (cmd : String) (words : List String) (s : Session F K)
      → HasOwnAddress s
      → str_eq cmd "deploy" ≡ true
      → let t = deploy_file files now (cmd ∷ words) s in
        IsTurn s t ⊎ CannotRead files (cmd ∷ words) s t
  unfolding deploy_file
  deploy_file-IsTurn files now cmd [] s own deploys = inl (told s usage (λ q. cc))
  deploy_file-IsTurn files now cmd (filepath ∷ rest) s own deploys =
      deploy_code-IsTurn files now cmd filepath rest (files filepath) s own deploys refl

  call_command-IsTurn :
      (now : ℕ) (parts : List String) (s : Session F K)
      → HasOwnAddress s
      → IsTurn s (call_command now parts s)
  unfolding call_command
  call_command-IsTurn now [] s own = told s usage (λ q. cc)
  call_command-IsTurn now (cmd ∷ []) s own = told s usage (λ q. cc)
  call_command-IsTurn now (cmd ∷ receiver ∷ []) s own = told s usage (λ q. cc)
  call_command-IsTurn now (cmd ∷ receiver ∷ payload ∷ rest) s own =
      if_intro (IsTurn s) (is_valid_receiver receiver)
        (λ _.
          submit_values-IsTurn now (some receiver) payload
            (parse_tx_params (cmd ∷ receiver ∷ payload ∷ rest) 3) s own)
        (λ _. told s invalid_receiver (λ q. cc))

module _ {F K : Type 0} ⦃fl : Float F⦄ ⦃p : Platform⦄ ⦃sg : Signer K⦄ where
  -- The line mined.
  unfoldable pub IsMined : Mining → List String → Session F K → Turn F K → Type 0
  IsMined m (cmd ∷ words) s t = (str_eq cmd "mine" ≡ true) × (t ≡ mine m s)
  IsMined m [] s t = ⊥

  -- What a turn can come to.
  unfoldable pub IsCliTurn :
      (String → FileRead) → Mining → List String → Session F K → Turn F K → Type 0
  IsCliTurn files m parts s t =
      HasOwnAddress t.session
      × (Keeps s t ⊎ (Submits s t ⊎ (IsMined m parts s t ⊎ CannotRead files parts s t)))

  of_others :
      (files : String → FileRead) (m : Mining) (parts : List String) (s : Session F K)
      (t : Turn F K)
      → IsTurnOf s t
      → IsCliTurn files m parts s t
  unfolding IsCliTurn IsTurnOf
  of_others files m parts s t (own, inl keeps) = (own, inl keeps)
  of_others files m parts s t (own, inr submits) = (own, inr (inl submits))

  of_deploy :
      (files : String → FileRead) (m : Mining) (parts : List String) (s : Session F K)
      (t : Turn F K)
      → HasOwnAddress s
      → IsTurn s t ⊎ CannotRead files parts s t
      → IsCliTurn files m parts s t
  unfolding IsCliTurn CannotRead
  of_deploy files m parts s t own (inl ok) = of_others files m parts s t (of_turn s t own ok)
  of_deploy files m [] s t own (inr broken) = absurd broken
  of_deploy files m (cmd ∷ []) s t own (inr broken) = absurd broken
  of_deploy files m (cmd ∷ filepath ∷ rest) s t own (inr (deploys, read, e)) = (
    subst (λ (x : Turn F K). HasOwnAddress x.session) (sym e) own,
    inr (inr (inr (deploys, read, e))),
  )

  mine-own :
      (s : Session F K) (r : Produced × Node F)
      → HasOwnAddress s
      → HasOwnAddress (after_mining s r).session
  mine-own s (mined b, node) own = own
  mine-own s (refused, node) own = own
  mine-own s (raised, node) own = own

  of_mining :
      (files : String → FileRead) (m : Mining) (cmd : String) (words : List String)
      (s : Session F K)
      → HasOwnAddress s
      → str_eq cmd "mine" ≡ true
      → IsCliTurn files m (cmd ∷ words) s (mine m s)
  unfolding IsCliTurn IsMined
  of_mining files m cmd words s own mines = (mine-own s _ own, inr (inr (inl (mines, refl))))

  -- Whatever line is given, the session's address stays that of its key, and: the chain, every
  -- account and the mempool are as before, nothing is broadcast and the loop goes on or quits; or
  -- a transaction of the session's address is broadcast, which is signed, covered by the balance, has
  -- the account's nonce and the chain's id, and is now in the mempool, with the chain and every
  -- account as before; or the line is `mine`, and the turn is what mining makes of it; or the line
  -- deploys a file that is there but cannot be read, whose exception ends the loop with all as before.
  pub cli_turn-IsTurn :
      (files : String → FileRead) (m : Mining) (parts : List String) (s : Session F K)
      → HasOwnAddress s
      → IsCliTurn files m parts s (cli_turn files m parts s)
  unfolding cli_turn command
  cli_turn-IsTurn files m [] s own = of_others files m [] s _ (quiet s s shown own refl (λ q. cc))
  cli_turn-IsTurn files m (cmd ∷ words) s own =
      let parts = cmd ∷ words in
      let Goal = IsCliTurn files m parts s in
      let turn =
        λ (t : Turn F K) (ok : IsTurn s t). of_others files m parts s t (of_turn s t own ok) in
      if_intro Goal (str_eq cmd "send") (λ _. turn _ (send-IsTurn m.now parts s own))
        (λ _.
          if_intro Goal (str_eq cmd "deploy")
            (λ deploys.
              of_deploy files m parts s _ own
                (deploy_file-IsTurn files m.now cmd words s own deploys))
            (λ _.
              if_intro Goal (str_eq cmd "call")
                (λ _. turn _ (call_command-IsTurn m.now parts s own))
                (λ _.
                  if_intro Goal (str_eq cmd "mine")
                    (λ mines. of_mining files m cmd words s own mines)
                    (λ _. of_others files m parts s _ (other_command-IsTurnOf cmd parts s own)))))
