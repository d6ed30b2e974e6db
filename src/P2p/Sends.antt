-- ===== src/P2p/Sends.antt =====
-- About the streams that BROADCAST and UNICAST of minichain/p2p.py write to.
use mini_chain.Base.{
  ◌≡◌, refl, ◌+◌, String, true, false, some, List, [], ◌∷◌, str_eq, All, length, Bool-cases, inl,
  inr, arith,
}
use mini_chain.P2p.Streams.{Stream, stream_address, broadcast_to, unicast_to}

-- A relayed message goes to every stream but those of the address that is left out, and an answer to
-- those of one address: the two sides of each stream, which is written to by exactly one of them.
length_sent :
    (addr : String) (ss : List Stream)
    → All (λ s. str_eq (stream_address s) addr ≡ false) (broadcast_to (some addr) ss)
      × All (λ s. str_eq (stream_address s) addr ≡ true) (unicast_to addr ss)
      × (length (broadcast_to (some addr) ss) + length (unicast_to addr ss) ≡ length ss)
unfolding broadcast_to unicast_to
length_sent addr [] = (tt, tt, refl)
length_sent addr (s ∷ ss) =
    let (others, own, sum) = length_sent addr ss in
    elim (Bool-cases (str_eq (stream_address s) addr)) [
      | inl same ↦ rw same (others, (same, own), omega (arith, sum))
      | inr other ↦ rw other ((other, others), own, omega (arith, sum))
    ]
