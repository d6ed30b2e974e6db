-- ===== src/P2p/Counted.antt =====
-- About the count and the list of the streams in minichain/p2p.py.
use mathlib.Core.Option.{some-injective}
use mathlib.Core.Path.{subst}
use mini_chain.Base.{
  suc, ◌==◌, ◌≡◌, ◌≢◌, refl, ◌∙◌, ap, and_true, String, Bool, true, false, some, List, [], ◌∷◌,
  ◌++◌, str_eq, str_eq_refl, length, length-append, All, if_intro, Bool-cases, inl, inr,
  if◌then◌else◌, arith,
}
use mini_chain.P2p.{without_id, is_seen}
use mini_chain.P2p.Streams.{
  has_peer, Stream, Streams, no_streams, stream_address, same_stream, has_stream, without_stream,
  add_id, accept_stream, dropped, close, close_all, disconnect,
}

length-without_stream :
    (s : Stream) (ss : List Stream)
    → has_stream s ss ≡ true
    → suc (length (without_stream s ss)) ≡ length ss
unfolding has_stream without_stream
length-without_stream s [] h = cc
length-without_stream s (t ∷ ts) h = elim (Bool-cases (same_stream t s)) [
  | inl same ↦ rw same refl
  | inr other ↦ rw other (ap suc (length-without_stream s ts (ground (arith, other, h))))
]

has_peer-without_stream :
    (p : String) (s : Stream) (ss : List Stream)
    → s.peer ≢ p
    → has_peer p ss ≡ true
    → has_peer p (without_stream s ss) ≡ true
unfolding has_peer without_stream
has_peer-without_stream p s [] ne h = cc
has_peer-without_stream p s (t ∷ ts) ne h = elim (Bool-cases (same_stream t s)) [
  | inl same ↦
      rw same (
        let (_, peers) = and_true (t.number == s.number) (str_eq t.peer s.peer) same in
        ground arith)
  | inr other ↦ rw other (
      if_intro (λ b. b ≡ true) (str_eq t.peer p) (λ _. refl)
        (λ ne'. has_peer-without_stream p s ts ne (ground arith)))
]

has_peer-append :
    (p : String) (ss : List Stream) (s : Stream)
    → has_peer p (ss ++ s ∷ []) ≡ (if str_eq s.peer p then true else has_peer p ss)
unfolding has_peer
has_peer-append p [] s = ground arith
has_peer-append p (t ∷ ss) s = ground (arith, has_peer-append p ss s)

-- The count is the number of open streams, and every peer that is listed has one.
pub record IsCounted (st : Streams) : Type 0 where
  pub count : st.peer_count ≡ length st.streams
  pub listed : All (λ p. has_peer p st.streams ≡ true) st.peer_ids

All-weaken :
    (P Q : String → Type 0) (ids : List String) → ((p : String) → P p → Q p) → All P ids → All Q ids
All-weaken P Q [] f h = tt
All-weaken P Q (i ∷ ids) f (first, rest) = (f i first, All-weaken P Q ids f rest)

All-add_id :
    (P : String → Type 0) (i : String) (ids : List String) → P i → All P ids → All P (add_id i ids)
All-add_id P i ids new h = if_intro (All P) (is_seen i ids) (λ _. h) (λ _. (new, h))

-- Those that are left differ from the one that is taken out.
All-without_id :
    (P Q : String → Type 0) (i : String) (ids : List String)
    → ((p : String) → i ≢ p → P p → Q p)
    → All P ids
    → All Q (without_id i ids)
unfolding without_id
All-without_id P Q i [] f h = tt
All-without_id P Q i (j ∷ ids) f (first, rest) =
    if_intro (All Q) (str_eq j i) (λ _. All-without_id P Q i ids f rest)
      (λ ne. (f j (λ e. ground arith) first, All-without_id P Q i ids f rest))

accept_stream-IsCounted :
    (banned : Bool) (s : Stream) (st st' : Streams)
    → accept_stream banned s st ≡ some st'
    → IsCounted st
    → IsCounted st'
unfolding accept_stream
accept_stream-IsCounted true s st st' h ok = cc
accept_stream-IsCounted false s st st' h ok =
    let P : String → Type 0 = λ p. has_peer p (st.streams ++ s ∷ []) ≡ true in
    subst IsCounted (some-injective _ _ h) (record {
      count = omega (arith, ok.count, length-append st.streams (s ∷ []));
      listed =
          All-add_id P s.peer st.peer_ids
            (has_peer-append s.peer st.streams s ∙ rw (str_eq_refl s.peer) refl)
            (All-weaken (λ p. has_peer p st.streams ≡ true) P st.peer_ids
              (λ p old. has_peer-append p st.streams s ∙ rw old (ground arith)) ok.listed);
    })

dropped-IsCounted :
    (b : Bool) (s : Stream) (st : Streams)
    → has_stream s st.streams ≡ b
    → IsCounted st
    → IsCounted (dropped b s st)
dropped-IsCounted false s st e ok = ok
dropped-IsCounted true s st e ok = record {
  count = omega (arith, ok.count, length-without_stream s st.streams e);
  listed =
      All-without_id (λ p. has_peer p st.streams ≡ true)
        (λ p. has_peer p (without_stream s st.streams) ≡ true) s.peer st.peer_ids
        (λ p ne old. has_peer-without_stream p s st.streams ne old) ok.listed;
}

close-IsCounted : (s : Stream) (st : Streams) → IsCounted st → IsCounted (close s st)
unfolding close
close-IsCounted s st ok = dropped-IsCounted (has_stream s st.streams) s st refl ok

close_all-IsCounted :
    (addr : String) (ss : List Stream) (st : Streams)
    → IsCounted st
    → IsCounted (close_all addr ss st)
unfolding close_all
close_all-IsCounted addr [] st ok = ok
close_all-IsCounted addr (s ∷ ss) st ok =
    close_all-IsCounted addr ss _
      (if_intro IsCounted (str_eq (stream_address s) addr) (λ _. close-IsCounted s st ok) (λ _. ok))

-- What happens to the streams of a node.
pub data Serves : Streams → Type 0 where
  starts : Serves no_streams
  accepts :
      {st st' : Streams} (banned : Bool) (s : Stream)
      → Serves st
      → accept_stream banned s st ≡ some st'
      → Serves st'
  closes : {st : Streams} (s : Stream) → Serves st → Serves (close s st)
  disconnects : {st : Streams} (addr : String) → Serves st → Serves (disconnect addr st)

-- After any streams were opened, closed and disconnected, in any order: the number of peers is that of
-- the open streams, and every listed peer has one.
pub Serves-IsCounted : (st : Streams) → Serves st → IsCounted st
Serves-IsCounted st starts = record { count = refl; listed = tt }
Serves-IsCounted st (accepts {st = before} banned s run e) =
    accept_stream-IsCounted banned s before st e (Serves-IsCounted before run)
Serves-IsCounted st (closes {st = before} s run) =
    close-IsCounted s before (Serves-IsCounted before run)
Serves-IsCounted st (disconnects {st = before} addr run) =
    close_all-IsCounted addr before.streams before (Serves-IsCounted before run)

is_seen-without_id : (i : String) (ids : List String) → is_seen i (without_id i ids) ≡ false
unfolding is_seen without_id
is_seen-without_id i [] = refl
is_seen-without_id i (j ∷ ids) = ground (arith, is_seen-without_id i ids)

has_stream-has_peer :
    (s : Stream) (ss : List Stream) → has_stream s ss ≡ true → has_peer s.peer ss ≡ true
unfolding has_stream has_peer
has_stream-has_peer s [] h = cc
has_stream-has_peer s (t ∷ ts) h = elim (Bool-cases (same_stream t s)) [
  | inl same ↦ rw (and_true (t.number == s.number) (str_eq t.peer s.peer) same).1 refl
  | inr other ↦
      if_intro (λ b. b ≡ true) (str_eq t.peer s.peer) (λ _. refl)
        (λ _. has_stream-has_peer s ts (ground (arith, other, h)))
]

-- Where two streams to one peer are open and one of them ends, the peer is no
-- longer listed, although the other is still open.
pub close-unlisted :
    (s t : Stream) (st : Streams)
    → has_stream s st.streams ≡ true
    → t.peer ≡ s.peer
    → has_stream t (without_stream s st.streams) ≡ true
    → (is_seen s.peer (close s st).peer_ids ≡ false) × (has_peer s.peer (close s st).streams ≡ true)
unfolding close
close-unlisted s t st here same other = rw here (
  is_seen-without_id s.peer st.peer_ids,
  subst (λ p. has_peer p (without_stream s st.streams) ≡ true) same
      (has_stream-has_peer t (without_stream s st.streams) other),
)
