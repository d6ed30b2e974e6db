-- ===== src/Cli/Sound.antt =====
-- Whatever is given on the command line of main.py, the node stays sound.
use mathlib.Core.Path.{subst}
use mini_chain.Base.{◌≡◌, refl, ◌∙◌, sym, ap, inl, inr, String, Bool, List, [], ◌∷◌}
use mini_chain.Platform.{Platform}
use mini_chain.Mempool.{Mempool}
use mini_chain.Transaction.Sign.{Signer}
use mini_chain.Chain.{Float}
use mini_chain.Chain.Growth.{IsLinked}
use mini_chain.Node.{Node}
use mini_chain.Node.Pool.{IsPool, add_transaction-IsPool}
use mini_chain.Node.Mining.{Produced, mined, refused, raised}
use mini_chain.Node.Sound.{IsSound, mine_and_process_block-IsSound}
use mini_chain.Cli.{FileRead, Session, Turn, breaks, tells}
use mini_chain.Cli.Commands.{Mining, mine, after_mining, cli_turn}
use mini_chain.Cli.Submits.{HasOwnAddress}
use mini_chain.Cli.Turns.{IsCliTurn, IsMined, CannotRead, cli_turn-IsTurn}

module _ {F K : Type 0} ⦃fl : Float F⦄ ⦃p : Platform⦄ ⦃sg : Signer K⦄ where
  after_mining-node :
      (s : Session F K) (r : Produced × Node F) → (after_mining s r).session.node ≡ r.1
  after_mining-node s (mined b, node) = refl
  after_mining-node s (refused, node) = refl
  after_mining-node s (raised, node) = refl

  IsMined-mine :
      (m : Mining) (parts : List String) (s : Session F K) (t : Turn F K)
      → IsMined m parts s t
      → t ≡ mine m s
  unfolding IsMined
  IsMined-mine m [] s t broken = absurd broken
  IsMined-mine m (cmd ∷ words) s t (_, e) = e

  CannotRead-tells :
      (files : String → FileRead) (parts : List String) (s : Session F K) (t : Turn F K)
      → CannotRead files parts s t
      → t ≡ tells breaks s
  unfolding CannotRead
  CannotRead-tells files [] s t broken = absurd broken
  CannotRead-tells files (cmd ∷ []) s t broken = absurd broken
  CannotRead-tells files (cmd ∷ filepath ∷ rest) s t (_, _, e) = e

  IsCliTurn-IsSound :
      (files : String → FileRead) (m : Mining) (parts : List String) (s : Session F K)
      (t : Turn F K)
      → IsCliTurn files m parts s t
      → IsSound s.node
      → IsSound t.session.node
  unfolding IsCliTurn IsSound
  IsCliTurn-IsSound files m parts s t (_, inl ((chain, _), pool, _, _)) (linked, sound) =
      (subst IsLinked (sym chain) linked, subst IsPool (sym pool) sound)
  IsCliTurn-IsSound files m parts s t (_, inr (inl (tx, _, _, _, _, _, _, added, (chain, _), _)))
        (linked, sound) =
      (
        subst IsLinked (sym chain) linked,
        subst IsPool (ap (λ (r : Bool × Mempool). r.1) added)
            (add_transaction-IsPool tx s.node.mempool sound),
      )
  IsCliTurn-IsSound files m parts s t (_, inr (inr (inl mines))) ok =
      let e = IsMined-mine m parts s t mines in
      subst IsSound (sym (ap (λ (x : Turn F K). x.session.node) e ∙ after_mining-node s _)) (
        mine_and_process_block-IsSound m.now m.later m.watch m.start_nonce m.max_nonce s.address
          s.node ok)
  IsCliTurn-IsSound files m parts s t (_, inr (inr (inr broken))) ok =
      subst IsSound
        (sym (ap (λ (x : Turn F K). x.session.node) (CannotRead-tells files parts s t broken))) ok

  pub cli_turn-IsSound :
      (files : String → FileRead) (m : Mining) (parts : List String) (s : Session F K)
      → HasOwnAddress s
      → IsSound s.node
      → IsSound (cli_turn files m parts s).session.node
  cli_turn-IsSound files m parts s own =
      IsCliTurn-IsSound files m parts s _ (cli_turn-IsTurn files m parts s own)
