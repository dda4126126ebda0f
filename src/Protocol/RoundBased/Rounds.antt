-- ===== src/Protocol/RoundBased/Rounds.antt =====
-- What the rounds are that the processes begin, and that they begin.
use scala_neko.Base.{
  ℕ, ◌+◌, ◌-◌, ◌≤◌, ◌<◌, ◌≡◌, refl, Bool, List, [], ◌∷◌, ◌++◌, ltb, leb, All, Bool-cases, inl, inr,
  arith,
}
use scala_neko.Base.Counts.{one}
use scala_neko.Protocol.Message.{Message}
use scala_neko.Protocol.RoundBased.Counts.{tally, is_from}
use scala_neko.Protocol.RoundBased.Network.{
  Flight, World, Step, submits, receives, Reach, here, next, packets,
}
use scala_neko.Protocol.RoundBased.Invariant.{IsBalanced, messages_in, start-IsBalanced}
use scala_neko.Protocol.RoundBased.Submit.{submit-IsBalanced}
use scala_neko.Protocol.RoundBased.Receive.{fresh, arrive-IsBalanced}

module _ {ℓ} {A : Type ℓ} where
  Step-IsBalanced : (n : ℕ) {w v : World A} → Step n w v → IsBalanced n w → IsBalanced n v
  Step-IsBalanced n (submits w p m h a ready) b = submit-IsBalanced n p m w h a ready b
  Step-IsBalanced n (receives w xs ys f e) b = arrive-IsBalanced n w xs ys f e b

  pub Reach-IsBalanced : (n : ℕ) {w : World A} → Reach n w → IsBalanced n w
  Reach-IsBalanced n here = start-IsBalanced n
  Reach-IsBalanced n (next w v r s) = Step-IsBalanced n s (Reach-IsBalanced n r)

  -- Nothing from any process is nothing.
  packets_none :
      (n q r : ℕ) (fs : List (Flight A))
      → All (λ (f : Flight A). (f.packet.msg.from < n) × (f.to < n)) fs
      → ((p : ℕ) → p < n → packets (is_from p) q r fs ≡ 0)
      → (test : Message A → Bool) → packets test q r fs ≡ 0
  unfolding packets
  packets_none n q r [] v h test = refl
  packets_none n q r (f ∷ fs) v h test =
      let rest =
        packets_none n q r fs v.1 (λ p k. let none_of = h p k in omega (arith, none_of)) test in
      let own = h f.packet.msg.from v.0.0 in ground (arith, rest, own)

  tally_none :
      (n : ℕ) (ms : List (Message A))
      → All (λ (m : Message A). m.from < n) ms
      → ((p : ℕ) → p < n → tally (is_from p) ms ≡ 0)
      → (test : Message A → Bool) → tally test ms ≡ 0
  unfolding tally
  tally_none n [] v h test = refl
  tally_none n (m ∷ ms) v h test = let own = h m.from v.0 in absurd (ground (arith, own))

  -- What is left of a round that a process has begun.
  left :
      (n p q r : ℕ) (w : World A)
      → IsBalanced n w
      → p < n
      → q < n
      → r < (w.procs q).recv_round
      → (packets (is_from p) q r w.in_flight ≡ 0)
        × (tally (is_from p) ((w.procs q).recv_stash r) ≡ 0)
  left n p q r w b h k l =
      let books = (b.procs q).balance (is_from p) r in
      let once = (b.procs q).full p r h l in
      let most = (b.procs p).sends q k r in
      let few : one (ltb r (w.procs p).send_round) ≤ 1 = ground arith in
      (omega (arith, books, once, most, few), omega (arith, books, once, most, few))

  -- In every run, the map with which a process begins a round has exactly the messages that were sent
  -- to it in the round before, and one of each process.
  pub Reach-begun :
      (n q r : ℕ) (w : World A)
      → Reach n w
      → q < n
      → r < (w.procs q).recv_round
      → ((test : Message A → Bool)
          → tally test (messages_in (w.begun q (r + 1))) ≡ packets test q r w.sent)
        × ((p : ℕ) → p < n → tally (is_from p) (messages_in (w.begun q (r + 1))) ≡ 1)
  Reach-begun n q r w run k l =
      let b = Reach-IsBalanced n run in
      (
        λ test.
            let books = (b.procs q).balance test r in
            let flying =
              packets_none n q r w.in_flight b.valid (λ p h. (left n p q r w b h k l).0) test in
            let stashed =
              tally_none n ((w.procs q).recv_stash r) ((b.procs q).valid r)
                (λ p h. (left n p q r w b h k l).1) test in
            omega (arith, books, flying, stashed),
        λ p h. (b.procs q).full p r h l,
      )

  -- In every run no process is more than one round ahead of another.
  pub Reach-recv_round :
      (n p q : ℕ) (w : World A)
      → Reach n w
      → p < n
      → q < n
      → (w.procs q).recv_round ≤ (w.procs p).recv_round + 1
  Reach-recv_round n p q w run h k =
      let b = Reach-IsBalanced n run in
      elim (Bool-cases (leb (w.procs q).recv_round 0)) [
        | inl e ↦ ground (arith, e)
        | inr e ↦
            let r = (w.procs q).recv_round - 1 in
            let last : r < (w.procs q).recv_round = ground (arith, e) in
            let once = (b.procs q).full p r h last in
            let books = (b.procs q).balance (is_from p) r in
            let sent = (b.procs p).sends q k r in
            let pace = (b.procs p).pace in ground (arith, e, once, books, sent, pace)
      ]

  -- In every run no packet that arrives is of a round that is over: none is ignored.
  pub Reach-fresh :
      (n : ℕ) (w : World A) (xs ys : List (Flight A)) (f : Flight A)
      → Reach n w
      → w.in_flight ≡ xs ++ f ∷ ys
      → (w.procs f.to).recv_round ≤ f.packet.round
  Reach-fresh n w xs ys f run e =
      let kept = fresh n w xs ys f e (Reach-IsBalanced n run) in ground (arith, kept)
