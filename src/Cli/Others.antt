-- ===== src/Cli/Others.antt =====
-- The commands of main.py that send nothing: they leave the chain, the accounts and the mempool as they are.
use mini_chain.Base.{
  ◌≡◌, ◌≢◌, ◌⊎◌, refl, sym, ◌∙◌, ap, inl, String, Option, none, some, List, [], ◌∷◌, str_eq,
  if_intro,
}
use mini_chain.Platform.{Platform}
use mini_chain.Transaction.Sign.{Signer}
use mini_chain.State.Accounts.{account_of}
use mini_chain.P2p.{without_id}
use mini_chain.Node.{Node}
use mini_chain.Cli.{
  Told, usage, rejected, done, shown, unknown, quits, Session, Turn, breaks, tells,
}
use mini_chain.Cli.Commands.{
  with_key, import_key, ban, unban, connect, is_shown, is_quit, other_command,
}
use mini_chain.Cli.Submits.{Keeps, Submits, IsTurn, HasOwnAddress, still}

module _ {F K : Type 0} ⦃p : Platform⦄ ⦃sg : Signer K⦄ where
  -- With a key that fits, and none of the loop's ends but `quit`; or mined.
  unfoldable pub IsTurnOf : Session F K → Turn F K → Type 0
  IsTurnOf s t = HasOwnAddress t.session × (Keeps s t ⊎ Submits s t)

  pub of_turn : (s : Session F K) (t : Turn F K) → HasOwnAddress s → IsTurn s t → IsTurnOf s t
  unfolding IsTurnOf
  of_turn s t own ((key, address), outcome) = (ap sg.address_of key ∙ own ∙ sym address, outcome)

  pub quiet :
      (s s' : Session F K) (o : Told)
      → HasOwnAddress s'
      → s'.node ≡ s.node
      → o ≢ breaks
      → IsTurnOf s (tells o s')
  unfolding IsTurnOf
  quiet s s' o own same ne = (
    own,
    inl (
      (
        ap (λ (n : Node F). n.chain.chain) same,
        λ a. ap (λ (n : Node F). account_of a n.chain.state.accounts) same,
      ),
      ap (λ (n : Node F). n.mempool) same,
      tt,
      ne,
    ),
  )

  with_key-IsTurnOf : (s : Session F K) (o : Option K) → HasOwnAddress s → IsTurnOf s (with_key o s)
  with_key-IsTurnOf s none own = quiet s s rejected own refl (λ q. cc)
  with_key-IsTurnOf s (some key) own =
      quiet s (record s { key = key; address = sg.address_of key; keystore = some key }) done refl
        refl (λ q. cc)

  import_key-IsTurnOf :
      (parts : List String) (s : Session F K) → HasOwnAddress s → IsTurnOf s (import_key parts s)
  unfolding import_key
  import_key-IsTurnOf [] s own = quiet s s usage own refl (λ q. cc)
  import_key-IsTurnOf (cmd ∷ []) s own = quiet s s usage own refl (λ q. cc)
  import_key-IsTurnOf (cmd ∷ text ∷ rest) s own = with_key-IsTurnOf s (sg.read_key text) own

  ban-IsTurnOf :
      (parts : List String) (s : Session F K) → HasOwnAddress s → IsTurnOf s (ban parts s)
  unfolding IsTurnOf ban
  ban-IsTurnOf [] s own = quiet s s usage own refl (λ q. cc)
  ban-IsTurnOf (cmd ∷ []) s own = quiet s s usage own refl (λ q. cc)
  ban-IsTurnOf (cmd ∷ peer ∷ rest) s own = (own, inl (still s, refl, (tt, tt), λ q. cc))

  unban-IsTurnOf :
      (parts : List String) (s : Session F K) → HasOwnAddress s → IsTurnOf s (unban parts s)
  unfolding unban
  unban-IsTurnOf [] s own = quiet s s usage own refl (λ q. cc)
  unban-IsTurnOf (cmd ∷ []) s own = quiet s s usage own refl (λ q. cc)
  unban-IsTurnOf (cmd ∷ peer ∷ rest) s own =
      quiet s (record s { banned = without_id peer s.banned }) done own refl (λ q. cc)

  connect-IsTurnOf :
      (parts : List String) (s : Session F K) → HasOwnAddress s → IsTurnOf s (connect parts s)
  unfolding IsTurnOf connect
  connect-IsTurnOf [] s own = quiet s s usage own refl (λ q. cc)
  connect-IsTurnOf (cmd ∷ []) s own = quiet s s usage own refl (λ q. cc)
  connect-IsTurnOf (cmd ∷ addr ∷ rest) s own = (own, inl (still s, refl, (tt, tt), λ q. cc))

  pub other_command-IsTurnOf :
      (cmd : String) (parts : List String) (s : Session F K)
      → HasOwnAddress s
      → IsTurnOf s (other_command cmd parts s)
  unfolding other_command
  other_command-IsTurnOf cmd parts s own =
      let Goal = IsTurnOf s in
      if_intro Goal (str_eq cmd "connect") (λ _. connect-IsTurnOf parts s own)
        (λ _.
          if_intro Goal (str_eq cmd "import_key") (λ _. import_key-IsTurnOf parts s own)
            (λ _.
              if_intro Goal (str_eq cmd "ban") (λ _. ban-IsTurnOf parts s own)
                (λ _.
                  if_intro Goal (str_eq cmd "unban") (λ _. unban-IsTurnOf parts s own)
                    (λ _.
                      if_intro Goal (is_shown cmd) (λ _. quiet s s shown own refl (λ q. cc))
                        (λ _.
                          if_intro Goal (is_quit cmd) (λ _. quiet s s quits own refl (λ q. cc))
                            (λ _. quiet s s unknown own refl (λ q. cc)))))))
