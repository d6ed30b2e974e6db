-- ===== src/Cli/Tests.antt =====
-- Lines given to a node with one account, and the theorem on one that sends.
use mini_chain.Base.{String, ◌≡◌, refl, none, some, List, [], ◌∷◌, false}
use mini_chain.Base.Int.{ℤ, pos, ltb_ℤ}
use mini_chain.Base.Text.{int10}
use mini_chain.Demo.{demo}
use mini_chain.Demo.Nodes.{whole, named, node_0}
use mini_chain.Cli.{missing, Session, parse_tx_params}
use mini_chain.Cli.Commands.{Mining, cli_turn}
use mini_chain.Cli.Turns.{IsCliTurn, cli_turn-IsTurn}

abbrev session : Session ℤ String
session = record { key = "aa"; address = "aa"; node = node_0; banned = []; keystore = none }

abbrev mining : Mining
mining = record {
  now = 1716880000000;
  later = 1716880000001;
  watch = record { timed_out = λ n. false; should_stop = λ n h. false };
  start_nonce = 40;
  max_nonce = 3;
}

abbrev sends : List String
sends = "send" ∷ "0123456789012345678901234567890123456789" ∷ "30" ∷ "2" ∷ "3" ∷ []

send_params : parse_tx_params sends 2 ≡ some (pos 30, pos 2, pos 3)
unfolding parse_tx_params int10 ltb_ℤ
send_params = refl

cli_turn-IsTurn_example :
    IsCliTurn (λ f. missing) mining sends session (cli_turn (λ f. missing) mining sends session)
cli_turn-IsTurn_example = cli_turn-IsTurn (λ f. missing) mining sends session refl
