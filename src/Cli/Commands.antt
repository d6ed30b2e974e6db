-- ===== src/Cli/Commands.antt =====
-- The commands of `cli_loop` in main.py.
use mini_chain.Base.{
  ℕ, ◌||◌, String, Bool, Option, none, some, List, [], ◌∷◌, str_eq, if◌then◌else◌,
}
use Prim.Native.String
use mini_chain.Base.Int.{ℤ, pos, ltb_ℤ}
use mini_chain.Platform.{Platform}
use mini_chain.Transaction.Sign.{Signer, is_valid_receiver}
use mini_chain.Chain.{Float}
use mini_chain.P2p.{without_id}
use mini_chain.Pow.{Watch}
use mini_chain.Node.{Node}
use mini_chain.Node.Mining.{Produced, mined, refused, raised, mine_and_process_block}
use mini_chain.Cli.{
  FileRead, contents, missing, unreadable, broadcast_block, connect_to_peer, disconnect_peer, usage,
  invalid_receiver, invalid_values, amount_not_positive, no_file, rejected, done, shown, unknown,
  quits, breaks, Session, Turn, parse_tx_params, tells, submit,
}

module _ {F K : Type 0} ⦃p : Platform⦄ ⦃sg : Signer K⦄ where
  abbrev pub send_values : ℕ → String → Option (ℤ × ℤ × ℤ) → Session F K → Turn F K
  send_values now receiver none s = tells invalid_values s
  send_values now receiver (some (amount, gas_limit, fee_per_gas)) s =
      if ltb_ℤ (pos 0) amount
      then submit now (some receiver) none (amount, gas_limit, fee_per_gas) s
      else tells amount_not_positive s

  -- `send`
  unfoldable pub send : ℕ → List String → Session F K → Turn F K
  send now (cmd ∷ receiver ∷ amount ∷ rest) s =
      if is_valid_receiver receiver
      then send_values now receiver (parse_tx_params (cmd ∷ receiver ∷ amount ∷ rest) 2) s
      else tells invalid_receiver s
  send now _ s = tells usage s

  abbrev pub submit_values :
      ℕ → Option String → String → Option (ℤ × ℤ × ℤ) → Session F K → Turn F K
  submit_values now receiver payload none s = tells invalid_values s
  submit_values now receiver payload (some values) s = submit now receiver (some payload) values s

  abbrev pub deploy_code : ℕ → List String → FileRead → Session F K → Turn F K
  deploy_code now parts missing s = tells no_file s
  deploy_code now parts unreadable s = tells breaks s
  deploy_code now parts (contents code) s = submit_values now none code (parse_tx_params parts 2) s

  -- `deploy`
  unfoldable pub deploy_file : (String → FileRead) → ℕ → List String → Session F K → Turn F K
  deploy_file files now (cmd ∷ filepath ∷ rest) s =
      deploy_code now (cmd ∷ filepath ∷ rest) (files filepath) s
  deploy_file files now _ s = tells usage s

  -- `call`
  unfoldable pub call_command : ℕ → List String → Session F K → Turn F K
  call_command now (cmd ∷ receiver ∷ payload ∷ rest) s =
      if is_valid_receiver receiver
      then submit_values now (some receiver) payload
          (parse_tx_params (cmd ∷ receiver ∷ payload ∷ rest) 3) s
      else tells invalid_receiver s
  call_command now _ s = tells usage s

  abbrev pub with_key : Option K → Session F K → Turn F K
  with_key none s = tells rejected s
  with_key (some key) s =
      tells done (record s { key = key; address = sg.address_of key; keystore = some key })

  -- `import_key`
  unfoldable pub import_key : List String → Session F K → Turn F K
  import_key (cmd ∷ text ∷ rest) s = with_key (sg.read_key text) s
  import_key _ s = tells usage s

module _ {F K : Type 0} where
  -- `ban`, `unban` and `connect`
  unfoldable pub ban : List String → Session F K → Turn F K
  ban (cmd ∷ peer ∷ rest) s = record {
    told = done;
    session = record s { banned = peer ∷ without_id peer s.banned };
    effects = disconnect_peer (String.◌++◌ "peer:" peer) ∷ [];
  }
  ban _ s = tells usage s

  unfoldable pub unban : List String → Session F K → Turn F K
  unban (cmd ∷ peer ∷ rest) s = tells done (record s { banned = without_id peer s.banned })
  unban _ s = tells usage s

  unfoldable pub connect : List String → Session F K → Turn F K
  connect (cmd ∷ addr ∷ rest) s = record {
    told = done;
    session = s;
    effects = connect_to_peer addr ∷ [];
  }
  connect _ s = tells usage s

  -- The end of `mine`.
  abbrev pub after_mining : Session F K → Produced × Node F → Turn F K
  after_mining s (mined b, node) = record {
    told = done;
    session = record s { node = node };
    effects = broadcast_block b ∷ [];
  }
  after_mining s (refused, node) = tells done (record s { node = node })
  after_mining s (raised, node) = tells breaks (record s { node = node })

-- The commands that change nothing.
abbrev pub is_shown : String → Bool
is_shown cmd =
    str_eq cmd "balance"
    || (str_eq cmd "peers"
        || (str_eq cmd "address"
            || (str_eq cmd "export_key"
                || (str_eq cmd "chain" || (str_eq cmd "list-banned" || str_eq cmd "help")))))

abbrev pub is_quit : String → Bool
is_quit cmd = str_eq cmd "quit" || (str_eq cmd "exit" || str_eq cmd "q")

module _ {F K : Type 0} ⦃p : Platform⦄ ⦃sg : Signer K⦄ where
  -- The commands that keep the node.
  unfoldable pub other_command : String → List String → Session F K → Turn F K
  other_command cmd parts s =
      if str_eq cmd "connect"
      then connect parts s
      else if str_eq cmd "import_key"
      then import_key parts s
      else if str_eq cmd "ban"
      then ban parts s
      else if str_eq cmd "unban"
      then unban parts s
      else if is_shown cmd
      then tells shown s
      else if is_quit cmd
      then tells quits s
      else tells unknown s

-- What a mining run takes: the clock before and after, the callback, and the nonces.
pub record Mining : Type 0 where
  pub now : ℕ
  pub later : ℕ
  pub watch : Watch
  pub start_nonce : ℕ
  pub max_nonce : ℕ

module _ {F K : Type 0} ⦃fl : Float F⦄ ⦃p : Platform⦄ where
  -- `mine`
  abbrev pub mine : Mining → Session F K → Turn F K
  mine m s =
      after_mining s
        (mine_and_process_block m.now m.later m.watch m.start_nonce m.max_nonce s.address s.node)

  module _ ⦃sg : Signer K⦄ (files : String → FileRead) (m : Mining) where
    unfoldable pub command : String → List String → Session F K → Turn F K
    command cmd parts s =
        if str_eq cmd "send"
        then send m.now parts s
        else if str_eq cmd "deploy"
        then deploy_file files m.now parts s
        else if str_eq cmd "call"
        then call_command m.now parts s
        else if str_eq cmd "mine"
        then mine m s
        else other_command cmd parts s

    -- One turn of the loop.
    unfoldable pub cli_turn : List String → Session F K → Turn F K
    cli_turn [] s = tells shown s
    cli_turn (cmd ∷ words) s = command cmd (cmd ∷ words) s
