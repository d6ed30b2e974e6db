-- ===== src/Node/Rounds.antt =====
-- A catch-up in rounds, by the messages of main.py's handler.
use mathlib.Core.Path.{subst}
use mini_chain.Base.{
  ℕ, zero, suc, ◌+◌, ◌*◌, ◌<◌, ◌≤◌, ◌==◌, ◌≡◌, refl, sym, ◌∙◌, ap, true, false, some, List, [], ◌∷◌,
  ◌++◌, append_assoc, append-nil, length, length-append, drop-short, ◌≢◌, take, drop,
  take-append-drop, All, Bool-cases, inl, inr, arith,
}
use mini_chain.Platform.{Platform}
use mini_chain.Block.{Block}
use mini_chain.Chain.{Float}
use mini_chain.Chain.Apply.{Step}
use mini_chain.Chain.Blockchain.{last_block}
use mini_chain.Chain.FromGenesis.{
  Genesis, Executed, Executed-append, Executed-chain_id, config, standing,
}
use mini_chain.Chain.Executions.{last_block-some}
use mini_chain.Chain.History.{Executes, done-same}
use mini_chain.Chain.Later.{Executes-front}
use mini_chain.Node.{Node}
use mini_chain.Node.Handler.{
  Handled, chain_request, chain_response, Sent, request, some_blocks, ask_peers, next_index,
  on_chain_response, handler,
}
use mini_chain.Node.Sync.{
  greeting, tip, Arrives, meets, answers, arrives, first-Follows, between-Executes,
  next_index-length, tip-length,
}

module _ {A : Type 0} (P : A → Type 0) where
  All-parts : (xs ys : List A) → All P (xs ++ ys) → All P xs × All P ys
  All-parts [] ys h = (tt, h)
  All-parts (x ∷ xs) ys (first, more) =
      let (front, back) = All-parts xs ys more in ((first, front), back)

==→eq : (a b : ℕ) → (a == b) ≡ true → a ≡ b
==→eq a b h = ground arith

==-false : (a b : ℕ) → (a == b) ≡ false → a ≢ b
==-false a b h = λ e. ground arith

-- The blocks of an answer.
abbrev pub blocks_of : List Sent → List Block
blocks_of (some_blocks bs ∷ sent) = bs
blocks_of sent = []

module _ {F : Type 0} ⦃fl : Float F⦄ ⦃p : Platform⦄ where
  -- The node gets the answers to what it has sent, and sends more, for at most so many rounds.
  unfoldable pub converse : ℕ → ℕ → List Sent → Node F → Node F → Node F
  converse now zero sent here there = here
  converse now (suc n) (request start limit ∷ sent) here there =
      let answer = blocks_of (handler now (chain_request start limit) there).sent in
      let out = handler now (chain_response (some answer) limit) here in
      converse now n out.sent out.node there
  converse now (suc n) sent here there = here

  converse-nil : (now n : ℕ) (here there : Node F) → converse now n [] here there ≡ here
  unfolding converse
  converse-nil now zero here there = refl
  converse-nil now (suc n) here there = refl

  -- The one node has the chain and the place of the other.
  unfoldable pub Agrees : Node F → Node F → Type 0
  Agrees here there =
      (here.chain.chain ≡ there.chain.chain) × (standing here.chain ≡ standing there.chain)

  -- The one node lacks these blocks of the other.
  pub record Lags (now : ℕ) (c : Block) (cs rest : List Block) (here there : Node F) : Type 0 where
    pub ours : here.chain.chain ≡ c ∷ cs
    pub theirs : there.chain.chain ≡ (c ∷ cs) ++ rest
    pub from_zero : c.index ≡ 0
    pub one : config here.chain ≡ config there.chain
    pub ran : Executed (config here.chain) (c ∷ cs) (standing here.chain)
    pub ran_there : Executed (config here.chain) ((c ∷ cs) ++ rest) (standing there.chain)
    pub near : All (λ (b : Block). b.timestamp ≤ now + 15000) rest

  -- A round with the first of the blocks, which leads to some place between.
  round :
      (now : ℕ) (c r : Block) (cs rs cs' : List Block) (here there : Node F)
      → Lags now c cs ((r ∷ rs) ++ cs') here there
      → (mid : Step F) × (last : Block) × (last_block (c ∷ cs) ≡ some last)
        × Executes (config here.chain).tuning last (r ∷ rs) (standing here.chain) mid
        × Arrives
            (length (r ∷ rs) == 500)
            500
            (config here.chain)
            ((c ∷ cs) ++ r ∷ rs)
            mid
            (handler now (chain_response (some (r ∷ rs)) 500) here)
  round now c r cs rs cs' here there lag =
      let g = config here.chain in
      let (last, at_end) = last_block-some c cs in
      let whole = between-Executes g c cs ((r ∷ rs) ++ cs') last _ _ lag.ran at_end lag.ran_there in
      let (mid, front) = Executes-front (r ∷ rs) cs' whole in
      let cid = Executed-chain_id g (c ∷ cs) (standing here.chain) lag.ran in
      (
        mid,
        last,
        at_end,
        front,
        subst
            (λ bs.
              Arrives (length (r ∷ rs) == 500) 500 g (bs ++ r ∷ rs) mid
                (handler now (chain_response (some (r ∷ rs)) 500) here))
            lag.ours
            (arrives now here last r rs mid (ap last_block lag.ours ∙ at_end) cid front
              (first-Follows front)
              (All-parts (λ (b : Block). b.timestamp ≤ now + 15000) (r ∷ rs) cs' lag.near).0),
      )

  -- After the round the node lacks the other blocks.
  Lags-less :
      (now : ℕ) (c r : Block) (cs rs cs' : List Block) (here there out : Node F) (mid : Step F)
      (last : Block)
      → Lags now c cs ((r ∷ rs) ++ cs') here there
      → last_block (c ∷ cs) ≡ some last
      → Executes (config here.chain).tuning last (r ∷ rs) (standing here.chain) mid
      → out.chain.chain ≡ (c ∷ cs) ++ r ∷ rs
      → standing out.chain ≡ mid
      → config out.chain ≡ config here.chain
      → Lags now c (cs ++ r ∷ rs) cs' out there
  Lags-less now c r cs rs cs' here there out mid last lag at_end front chain place same =
      let g = config here.chain in
      let joined : (c ∷ cs) ++ ((r ∷ rs) ++ cs') ≡ (c ∷ (cs ++ r ∷ rs)) ++ cs' =
        sym (append_assoc (c ∷ cs) (r ∷ rs) cs') in
      record {
        ours = chain;
        theirs = lag.theirs ∙ joined;
        from_zero = lag.from_zero;
        one = same ∙ lag.one;
        ran =
            subst (λ x. Executed x (c ∷ (cs ++ r ∷ rs)) (standing out.chain)) (sym same)
              (subst (Executed g (c ∷ (cs ++ r ∷ rs))) (sym place)
                (Executed-append g (c ∷ cs) (r ∷ rs) last _ _ lag.ran at_end front));
        ran_there =
            subst (λ x. Executed x ((c ∷ (cs ++ r ∷ rs)) ++ cs') (standing there.chain)) (sym same)
              (subst (λ bs. Executed g bs (standing there.chain)) joined lag.ran_there);
        near = (All-parts (λ (b : Block). b.timestamp ≤ now + 15000) (r ∷ rs) cs' lag.near).1;
      }

  -- A node that lacks nothing is in the other's place.
  no_lag-Agrees :
      (now : ℕ) (c : Block) (cs : List Block) (here there : Node F)
      → Lags now c cs [] here there
      → Agrees here there
  unfolding Agrees
  no_lag-Agrees now c cs here there lag =
      let (last, at_end) = last_block-some c cs in
      (
        lag.ours ∙ sym (lag.theirs ∙ append-nil (c ∷ cs)),
        done-same (config here.chain).tuning
            (between-Executes (config here.chain) c cs [] last _ _ lag.ran at_end lag.ran_there),
      )

  -- A round of it: the request is answered, and the node goes on with what it sends then.
  converse-step :
      (now n : ℕ) (xs rest : List Block) (sent : List Sent) (here there : Node F)
      → there.chain.chain ≡ xs ++ rest
      → let out = handler now (chain_response (some (take 500 rest)) 500) here in
        converse now (suc n) (request (length xs) 500 ∷ sent) here there
        ≡ converse now n out.sent out.node there
  unfolding converse
  converse-step now n xs rest sent here there theirs =
      ap
        (λ (answer : List Sent).
          let out = handler now (chain_response (some (blocks_of answer)) 500) here in
          converse now n out.sent out.node there)
        (answers now there xs rest theirs)

  no_blocks :
      (now n : ℕ) (here there : Node F)
      → let out = handler now (chain_response (some []) 500) here in
        converse now n out.sent out.node there ≡ here
  unfolding handler on_chain_response
  no_blocks now n here there = converse-nil now n here there

  -- Enough rounds, from a request for the first block that is lacking.
  converse-Agrees :
      (now n : ℕ) (c : Block) (cs rest : List Block) (sent : List Sent) (here there : Node F)
      → Lags now c cs rest here there
      → length rest < n * 500
      → Agrees (converse now n (request (length (c ∷ cs)) 500 ∷ sent) here there) there
  unfolding Arrives
  converse-Agrees now zero c cs rest sent here there lag enough = absurd (omega (arith, enough))
  converse-Agrees now (suc n) c cs [] sent here there lag enough =
      subst (λ x. Agrees x there)
        (sym
          (converse-step now n (c ∷ cs) [] sent here there lag.theirs ∙ no_blocks now n here there))
        (no_lag-Agrees now c cs here there lag)
  converse-Agrees now (suc n) c cs (r ∷ rs) sent here there lag enough =
      let bs = r ∷ take 499 rs in
      let cs' = drop 499 rs in
      let parts : bs ++ cs' ≡ r ∷ rs = ap (◌∷◌ r) (take-append-drop 499 rs) in
      let lag' = subst (λ x. Lags now c cs x here there) (sym parts) lag in
      let out = handler now (chain_response (some bs) 500) here in
      let (mid, last, at_end, front, (_, chain, place, same, sends)) =
        round now c r cs (take 499 rs) cs' here there lag' in
      let less =
        Lags-less now c r cs (take 499 rs) cs' here there out.node mid last lag' at_end front chain
          place same in
      let goal : Agrees (converse now n out.sent out.node there) there =
        elim (Bool-cases (length bs == 500)) [
          | inl full ↦
              let size = ==→eq (length bs) 500 full in
              let next : next_index out.node.chain.chain ≡ length (c ∷ (cs ++ bs)) =
                ap next_index chain
                ∙ next_index-length (config out.node.chain) c (cs ++ bs) _ less.ran
                    less.from_zero in
              let asks : out.sent ≡ request (length (c ∷ (cs ++ bs))) 500 ∷ [] =
                sends ∙ rw full (ap (λ k. request k 500 ∷ []) next) in
              subst (λ x. Agrees (converse now n x out.node there) there) (sym asks)
                (converse-Agrees now n c (cs ++ bs) cs' [] out.node there less
                  (omega (arith, enough, size, length-append bs cs', ap length parts)))
          | inr part ↦
              let short : length (take 499 rs) ≢ 499 =
                (λ e. ==-false (length bs) 500 part (ap suc e)) in
              let all : cs' ≡ [] = drop-short 499 rs short in
              let quiet : out.sent ≡ [] = (sends ∙ rw part refl) in
              subst (λ x. Agrees x there)
                (sym (
                  ap (λ x. converse now n x out.node there) quiet
                  ∙ converse-nil now n out.node there))
                (no_lag-Agrees now c (cs ++ bs) out.node there
                  (subst (λ x. Lags now c (cs ++ bs) x out.node there) all less))
        ] in
      subst (λ x. Agrees x there)
        (sym (converse-step now n (c ∷ cs) (r ∷ rs) sent here there lag.theirs)) goal

  -- A node that is behind catches up, however far: on the other's hello it asks for blocks, and from then on
  -- gets the other's answers to what it sends, and after one round for each 500 blocks, and one more,
  -- it has the other's chain, accounts, target and average. This holds for two nodes of one
  -- genesis configuration, each at the end of executing its chain, where the one chain is a beginning
  -- of the other, and no block that it lacks is more than 15 seconds ahead of the clock.
  pub lagging_catches_up :
      (now n : ℕ) (here there : Node F) (c r : Block) (cs rs : List Block)
      → here.chain.chain ≡ c ∷ cs
      → there.chain.chain ≡ (c ∷ cs) ++ r ∷ rs
      → c.index ≡ 0
      → config here.chain ≡ config there.chain
      → Executed (config here.chain) here.chain.chain (standing here.chain)
      → Executed (config there.chain) there.chain.chain (standing there.chain)
      → All (λ (b : Block). b.timestamp ≤ now + 15000) (r ∷ rs)
      → length (r ∷ rs) < n * 500
      → Agrees (converse now n (handler now (greeting there) here).sent here there) there
  lagging_catches_up now n here there c r cs rs ours theirs zero_th one here_ran there_ran near
        enough =
      let g = config here.chain in
      let lag : Lags now c cs (r ∷ rs) here there = record {
        ours = ours;
        theirs = theirs;
        from_zero = zero_th;
        one = one;
        ran = subst (λ bs. Executed g bs (standing here.chain)) ours here_ran;
        ran_there =
            subst (λ bs. Executed g bs (standing there.chain)) theirs
              (subst (λ x. Executed x there.chain.chain (standing there.chain)) (sym one)
                there_ran);
        near = near;
      } in
      let size : next_index here.chain.chain ≡ length (c ∷ cs) =
        ap next_index ours ∙ next_index-length g c cs _ lag.ran zero_th in
      let far = tip-length g c (cs ++ r ∷ rs) there _ theirs lag.ran_there zero_th in
      let ahead : next_index here.chain.chain ≤ tip there =
        omega (arith, size, far, length-append cs (r ∷ rs)) in
      let met =
        meets now here there c cs (r ∷ rs) ours theirs (ap (λ (x : Genesis F). x.chain_id) one)
          ahead in
      let asks : (handler now (greeting there) here).sent
          ≡ request (length (c ∷ cs)) 500 ∷ ask_peers ∷ [] =
        ap (λ (x : Handled F). x.sent) met ∙ ap (λ k. request k 500 ∷ ask_peers ∷ []) size in
      subst (λ x. Agrees (converse now n x here there) there) (sym asks)
        (converse-Agrees now n c cs (r ∷ rs) (ask_peers ∷ []) here there lag enough)
