-- ===== src/Cli/Submits.antt =====
-- What `submit_and_broadcast` of main.py can do to a node.
use mathlib.Core.Path.{subst}
use mathlib.Core.Option.{some-injective}
use mini_chain.Base.{
  ℕ, ◌≡◌, ◌≢◌, ◌⊎◌, str_eq_refl, refl, sym, ◌∙◌, ap, inl, inr, String, Bool, true, false, Option,
  none, some, [], ◌∷◌, All, arith,
}
use mini_chain.Base.Int.{ℤ, ltb_ℤ→ge, ◌≤ℤ◌}
use mini_chain.Platform.{Platform}
use mini_chain.Transaction.{
  Transaction, ValidationStatus, valid, invalid, failed, malformed, verify, to_signing_dict,
}
use mini_chain.Transaction.Sign.{Signer, sign}
use mini_chain.State.Accounts.{Account, account_of, get_account}
use mini_chain.State.Identity.{account_of-get_account}
use mini_chain.State.Apply.{State, total_cost, verify_transaction_logic}
use mini_chain.State.Outcomes.{verify_transaction_logic-account_of}
use mini_chain.Mempool.{Mempool, add_transaction}
use mini_chain.Mempool.Refusals.{Unless, add_transaction-refused}
use mini_chain.Node.Handler.{with_accounts}
use mini_chain.Rpc.Served.{KeepsChain}
use mini_chain.Cli.{
  Effect, broadcast_transaction, broadcast_block, Told, Session, Turn, breaks, tells, after_adding,
  if_valid, submit_and_broadcast, submit_signed, drafted, submit,
}

-- No transaction and no block goes out.
abbrev pub IsQuiet : Effect → Type 0
IsQuiet (broadcast_transaction tx) = ⊥
IsQuiet (broadcast_block b) = ⊥
IsQuiet _ = Unit

module _ ⦃p : Platform⦄ where
  valid_was_covered :
      (tx : Transaction) (st : State)
      → (verify_transaction_logic tx st).0 ≡ valid
      → (verify tx ≡ true) × (total_cost tx ≤ℤ (account_of tx.sender st.accounts).balance)
  unfolding verify_transaction_logic
  valid_was_covered tx st h =
      let same = account_of-get_account tx.sender tx.sender st.accounts in
      (
        ground arith,
        subst (λ (acc : Account). total_cost tx ≤ℤ acc.balance) same
            (ltb_ℤ→ge (account_of tx.sender (get_account tx.sender st.accounts)).balance
              (total_cost tx) (ground arith)),
      )

module _ {F K : Type 0} ⦃p : Platform⦄ where
  -- The node is as before but for blank accounts, nothing of it goes out, and the loop goes on or quits.
  abbrev pub Keeps : Session F K → Turn F K → Type 0
  Keeps s t =
      KeepsChain s.node t.session.node
      × (t.session.node.mempool ≡ s.node.mempool)
      × All IsQuiet t.effects
      × (t.told ≢ breaks)

  -- A transaction of the session's address goes out, signed, with its account's nonce, covered by its
  -- balance, and taken by the mempool.
  abbrev pub Submits : Session F K → Turn F K → Type 0
  Submits s t =
      (tx : Transaction) × (t.effects ≡ broadcast_transaction tx ∷ [])
      × (tx.sender ≡ s.address)
      × (verify tx ≡ true)
      × (total_cost tx ≤ℤ (account_of s.address s.node.chain.state.accounts).balance)
      × (tx.nonce ≡ (account_of s.address s.node.chain.state.accounts).nonce)
      × (tx.chain_id ≡ s.node.chain.chain_id)
      × (add_transaction tx s.node.mempool ≡ (true, t.session.node.mempool))
      × KeepsChain s.node t.session.node
      × (t.told ≢ breaks)

  abbrev pub SameKey : Session F K → Session F K → Type 0
  SameKey s s' = (s'.key ≡ s.key) × (s'.address ≡ s.address)

  abbrev pub IsTurn : Session F K → Turn F K → Type 0
  IsTurn s t = SameKey s t.session × (Keeps s t ⊎ Submits s t)

  -- A transaction that may go out, from a session that only looked at accounts.
  record IsReady (s : Session F K) (tx : Transaction) (s' : Session F K) : Type 0 where
    keys : SameKey s s'
    chain : KeepsChain s.node s'.node
    pool : s'.node.mempool ≡ s.node.mempool
    sender : tx.sender ≡ s.address
    nonce : tx.nonce ≡ (account_of s.address s.node.chain.state.accounts).nonce
    chain_id : tx.chain_id ≡ s.node.chain.chain_id

  pub still : (s : Session F K) → KeepsChain s.node s.node
  still s = (refl, λ a. refl)

  pub told : (s : Session F K) (o : Told) → o ≢ breaks → IsTurn s (tells o s)
  told s o ne = ((refl, refl), inl (still s, refl, tt, ne))

  after_adding-IsTurn :
      (s s' : Session F K) (tx : Transaction) (r : Bool × Mempool)
      → IsReady s tx s'
      → verify tx ≡ true
      → total_cost tx ≤ℤ (account_of s.address s.node.chain.state.accounts).balance
      → add_transaction tx s'.node.mempool ≡ r
      → IsTurn s (after_adding tx s' r)
  after_adding-IsTurn s s' tx (true, pool) ready signed covered e = (
    ready.keys,
    inr (
      tx,
      refl,
      ready.sender,
      signed,
      covered,
      ready.nonce,
      ready.chain_id,
      ap (add_transaction tx) (sym ready.pool) ∙ e,
      ready.chain,
      λ q. cc,
    ),
  )
  after_adding-IsTurn s s' tx (false, pool) ready signed covered e = (
    ready.keys,
    inl (
      ready.chain,
      subst (Unless s'.node.mempool) e (add_transaction-refused tx s'.node.mempool) refl
          ∙ ready.pool,
      tt,
      λ q. cc,
    ),
  )

  if_valid-IsTurn :
      (s s' : Session F K) (tx : Transaction) (status : ValidationStatus)
      → IsReady s tx s'
      → (status ≡ valid
          → (verify tx ≡ true)
            × (total_cost tx ≤ℤ (account_of s.address s.node.chain.state.accounts).balance))
      → IsTurn s (if_valid tx s' status)
  if_valid-IsTurn s s' tx valid ready good =
      let (signed, covered) = good refl in after_adding-IsTurn s s' tx _ ready signed covered refl
  if_valid-IsTurn s s' tx invalid ready good =
      (ready.keys, inl (ready.chain, ready.pool, tt, λ q. cc))
  if_valid-IsTurn s s' tx failed ready good =
      (ready.keys, inl (ready.chain, ready.pool, tt, λ q. cc))
  if_valid-IsTurn s s' tx malformed ready good =
      (ready.keys, inl (ready.chain, ready.pool, tt, λ q. cc))

  submit_and_broadcast-IsTurn :
      (s s' : Session F K) (tx : Transaction)
      → IsReady s tx s'
      → IsTurn s (submit_and_broadcast tx s')
  unfolding submit_and_broadcast
  submit_and_broadcast-IsTurn s s' tx ready =
      let st = s'.node.chain.state in
      let (same, looked) = ready.chain in
      if_valid-IsTurn s _ tx _
        (record {
          keys = ready.keys;
          chain = (same, λ a. verify_transaction_logic-account_of tx st a ∙ looked a);
          pool = ready.pool;
          sender = ready.sender;
          nonce = ready.nonce;
          chain_id = ready.chain_id;
        })
        (λ ok.
          let (signed, covered) = valid_was_covered tx st ok in
          (
            signed,
            subst (λ (acc : Account). total_cost tx ≤ℤ acc.balance)
                (ap (λ a. account_of a st.accounts) ready.sender ∙ looked s.address) covered,
          ))

module _ {F K : Type 0} ⦃p : Platform⦄ ⦃sg : Signer K⦄ where
  -- The address of the session is its key's.
  abbrev pub HasOwnAddress : Session F K → Type 0
  HasOwnAddress s = sg.address_of s.key ≡ s.address

  sign-own :
      (s : Session F K) (tx : Transaction)
      → HasOwnAddress s
      → tx.sender ≡ s.address
      → (t : Transaction) × (sign s.key tx ≡ some t)
        × (t.sender ≡ tx.sender)
        × (t.nonce ≡ tx.nonce)
        × (t.chain_id ≡ tx.chain_id)
  unfolding sign
  sign-own s tx own e = (
    record tx { signature = some (sg.signature_of s.key (to_signing_dict tx)) },
    rw (own, e, str_eq_refl s.address) refl,
    refl,
    refl,
    refl,
  )

  submit_signed-IsTurn :
      (s s' : Session F K) (draft t : Transaction) (o : Option Transaction)
      → IsReady s t s'
      → o ≡ some t
      → IsTurn s (submit_signed s' o)
  submit_signed-IsTurn s s' draft t none ready e = cc
  submit_signed-IsTurn s s' draft t (some t') ready e =
      submit_and_broadcast-IsTurn s s' t'
        (subst (λ x. IsReady s x s') (sym (some-injective _ _ e)) ready)

  pub submit-IsTurn :
      (now : ℕ) (receiver payload : Option String) (values : ℤ × ℤ × ℤ) (s : Session F K)
      → HasOwnAddress s
      → IsTurn s (submit now receiver payload values s)
  unfolding submit
  submit-IsTurn now receiver payload values s own =
      let accs = s.node.chain.state.accounts in
      let s' = record s { node = with_accounts (get_account s.address accs) s.node } in
      let draft = drafted now receiver payload values s' in
      let (t, e, sender, nonce, chain_id) = sign-own s draft own refl in
      submit_signed-IsTurn s s' draft t (sign s.key draft)
        (record {
          keys = (refl, refl);
          chain = (refl, λ a. account_of-get_account s.address a accs);
          pool = refl;
          sender = sender;
          nonce =
              nonce
              ∙ ap (λ (acc : Account). acc.nonce) (account_of-get_account s.address s.address accs);
          chain_id = chain_id;
        })
        e
