-- ===== src/P2p/Gossip.antt =====
-- What the reader of minichain/p2p.py makes of a second copy of a message.
use mathlib.Core.Path.{subst}
use mini_chain.Base.{
  ℕ, suc, ◌<◌, ◌+◌, ◌⊎◌, inl, inr, sym, false, none, List, [], ◌∷◌, Bool-cases, String, ◌≡◌, ◌≢◌,
  refl, Bool, true, false, Option, some, ◌||◌, arith, length, str_eq, if_intro, if◌then◌else◌,
}
use mini_chain.Json.{Json}
use mini_chain.Platform.{Platform}
use mini_chain.Transaction.{ValidationStatus, valid, invalid, failed, malformed}
use mini_chain.P2p.{Counts, handle_validation_status, mark_seen, is_duplicate}
use mini_chain.P2p.Seen.{
  IsRecent, IsRecent-duplicate, IsRecent-weaken, mark_seen-IsRecent, mark_seen-other,
}
use mini_chain.P2p.Reader.{
  Reader, seen_cache_max, message_id, seen_set, is_supported, mark, punish, after_handler,
  unless_seen, receive, relay,
}

module _ ⦃p : Platform⦄ (th : Counts) (t : String) (payload : Json) (i : String) where
  receive-seen :
      (addr : String) (o : Option (Option ValidationStatus)) (r : Reader)
      → message_id t payload ≡ some (some i)
      → is_duplicate i (seen_set t r) ≡ true
      → receive th t payload addr o r ≡ r
  unfolding receive
  receive-seen addr o r named seen =
      if_intro (λ x. x ≡ r) (is_supported t) (λ _. rw (named, seen) refl) (λ _. refl)

  relay-seen : (addr : String) (r : Reader) → seen_set t (relay t payload addr r) ≡ seen_set t r
  relay-seen addr r =
      if_intro (λ x. seen_set t x ≡ seen_set t r) (str_eq t "tx" || str_eq t "block") (λ _. refl)
        (λ _. refl)

  mark-IsRecent :
      (is_tx : Bool) (r : Reader)
      → i ≢ ""
      → let r' =
          if is_tx
          then record r { seen_tx_ids = mark_seen seen_cache_max i r.seen_tx_ids }
          else record r { seen_block_hashes = mark_seen seen_cache_max i r.seen_block_hashes } in
        IsRecent 0 i (if is_tx then r'.seen_tx_ids else r'.seen_block_hashes)
  mark-IsRecent true r named = mark_seen-IsRecent seen_cache_max i r.seen_tx_ids (omega arith) named
  mark-IsRecent false r named =
      mark_seen-IsRecent seen_cache_max i r.seen_block_hashes (omega arith) named

  identified : message_id t payload ≡ some (some i) → is_supported t ≡ true
  unfolding message_id
  identified named = ground arith

  -- A message that was found VALID is the last in the cache, if it was not in it before.
  receive-IsRecent :
      (addr : String) (r : Reader)
      → message_id t payload ≡ some (some i)
      → i ≢ ""
      → is_duplicate i (seen_set t r) ≡ false
      → IsRecent 0 i (seen_set t (receive th t payload addr (some (some valid)) r))
  unfolding receive after_handler handle_validation_status
  receive-IsRecent addr r named nonempty new =
      rw (identified named, named)
        (rw new (rw (relay-seen addr, named) (mark-IsRecent (str_eq t "tx") r nonempty)))

-- A message that comes in, with what the handler makes of it, or one that the node itself sends out by
-- `broadcast_transaction` or `broadcast_block`, which mark it.
pub data Traffic : Type 0 where
  heard : String → Json → String → Option (Option ValidationStatus) → Traffic
  announced : String → Json → Traffic

module _ ⦃p : Platform⦄ (th : Counts) where
  unfoldable pub traffic : List Traffic → Reader → Reader
  traffic [] r = r
  traffic (heard t payload addr o ∷ more) r = traffic more (receive th t payload addr o r)
  traffic (announced t payload ∷ more) r = traffic more (mark t (message_id t payload) r)

  -- A step of the traffic marks at most one message in a cache.
  unfoldable Marks : String → Reader → Reader → Type 0
  Marks t r r' =
      (seen_set t r' ≡ seen_set t r)
      ⊎ ((j : String) × (seen_set t r' ≡ mark_seen seen_cache_max j (seen_set t r)))

  mark-Marks : (t t' : String) (o : Option (Option String)) (r : Reader) → Marks t r (mark t' o r)
  unfolding Marks
  mark-Marks t t' none r = inl refl
  mark-Marks t t' (some none) r = inl refl
  mark-Marks t t' (some (some j)) r =
      if_intro (Marks t r) (str_eq t' "tx")
        (λ _. elim (Bool-cases (str_eq t "tx")) [
          | inl is_tx ↦ rw is_tx (inr (j, refl))
          | inr other ↦ rw other (inl refl)
        ])
        (λ _. elim (Bool-cases (str_eq t "tx")) [
          | inl is_tx ↦ rw is_tx (inl refl)
          | inr other ↦ rw other (inr (j, refl))
        ])

  after_handler-Marks :
      (t t' : String) (payload : Json) (addr : String) (o : Option (Option ValidationStatus))
      (r : Reader)
      → Marks t r (after_handler th t' payload addr o r)
  unfolding after_handler Marks
  after_handler-Marks t t' payload addr none r = inl refl
  after_handler-Marks t t' payload addr (some none) r = mark-Marks t t' (message_id t' payload) r
  after_handler-Marks t t' payload addr (some (some valid)) r =
      let marked = mark-Marks t t' (message_id t' payload) (punish th addr valid r) in
      if_intro (Marks t r) (str_eq t' "tx" || str_eq t' "block") (λ _. marked) (λ _. marked)
  after_handler-Marks t t' payload addr (some (some invalid)) r = inl refl
  after_handler-Marks t t' payload addr (some (some failed)) r = inl refl
  after_handler-Marks t t' payload addr (some (some malformed)) r = inl refl

  unless_seen-Marks :
      (t t' : String) (payload : Json) (addr : String) (o : Option (Option ValidationStatus))
      (i : Option (Option String)) (r : Reader)
      → Marks t r (unless_seen th t' payload addr o i r)
  unfolding Marks
  unless_seen-Marks t t' payload addr o none r = inl refl
  unless_seen-Marks t t' payload addr o (some none) r = after_handler-Marks t t' payload addr o r
  unless_seen-Marks t t' payload addr o (some (some i)) r =
      if_intro (Marks t r) (is_duplicate i (seen_set t' r)) (λ _. inl refl)
        (λ _. after_handler-Marks t t' payload addr o r)

  receive-Marks :
      (t t' : String) (payload : Json) (addr : String) (o : Option (Option ValidationStatus))
      (r : Reader)
      → Marks t r (receive th t' payload addr o r)
  unfolding receive Marks
  receive-Marks t t' payload addr o r =
      if_intro (Marks t r) (is_supported t') (λ _. unless_seen-Marks t t' payload addr o _ r)
        (λ _. inl refl)

  Marks-IsRecent :
      (n : ℕ) (t i : String) (r r' : Reader)
      → suc n < seen_cache_max
      → Marks t r r'
      → IsRecent n i (seen_set t r)
      → IsRecent (suc n) i (seen_set t r')
  unfolding Marks
  Marks-IsRecent n t i r r' room (inl same) recent =
      subst (IsRecent (suc n) i) (sym same) (IsRecent-weaken n i (seen_set t r) recent)
  Marks-IsRecent n t i r r' room (inr (j, e)) recent =
      subst (IsRecent (suc n) i) (sym e)
        (mark_seen-other seen_cache_max n i j (seen_set t r) room recent)

  traffic-IsRecent :
      (n : ℕ) (t i : String) (ms : List Traffic) (r : Reader)
      → n + length ms < seen_cache_max
      → IsRecent n i (seen_set t r)
      → IsRecent (n + length ms) i (seen_set t (traffic ms r))
  unfolding traffic
  traffic-IsRecent n t i [] r room recent =
      subst (λ k. IsRecent k i (seen_set t r)) (omega arith) recent
  traffic-IsRecent n t i (heard t' payload addr o ∷ ms) r room recent =
      let r' = receive th t' payload addr o r in
      subst (λ k. IsRecent k i (seen_set t (traffic ms r'))) (omega arith)
        (traffic-IsRecent (suc n) t i ms r' (omega (arith, room)) (
          Marks-IsRecent n t i r r' (omega (arith, room)) (receive-Marks t t' payload addr o r)
            recent))
  traffic-IsRecent n t i (announced t' payload ∷ ms) r room recent =
      let r' = mark t' (message_id t' payload) r in
      subst (λ k. IsRecent k i (seen_set t (traffic ms r'))) (omega arith)
        (traffic-IsRecent (suc n) t i ms r' (omega (arith, room))
          (Marks-IsRecent n t i r r' (omega (arith, room)) (mark-Marks t t' _ r) recent))

  -- Once a new message with an id that is not empty, of a transaction or a block, has been received and
  -- found VALID, and less than 10000 others were received or sent out since, receiving it again from
  -- anywhere changes nothing: it is not handled, counted against its sender or relayed a second time.
  pub receive-once :
      (t : String) (payload : Json) (i addr again : String) (o : Option (Option ValidationStatus))
      (r : Reader) (since : List Traffic)
      → message_id t payload ≡ some (some i)
      → i ≢ ""
      → is_duplicate i (seen_set t r) ≡ false
      → length since < 10000
      → let r' = traffic since (receive th t payload addr (some (some valid)) r) in
        receive th t payload again o r' ≡ r'
  receive-once t payload i addr again o r since named nonempty new few =
      let r' = receive th t payload addr (some (some valid)) r in
      let recent =
        traffic-IsRecent 0 t i since r' (omega (arith, few))
          (receive-IsRecent th t payload i addr r named nonempty new) in
      receive-seen th t payload i again o (traffic since r') named
        (IsRecent-duplicate _ i (seen_set t (traffic since r')) nonempty recent)
