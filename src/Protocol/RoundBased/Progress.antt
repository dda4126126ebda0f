-- ===== src/Protocol/RoundBased/Progress.antt =====
-- A round that all layers above have sent is begun, once its packets have arrived.
use scala_neko.Base.{
  ℕ, ◌+◌, ◌≤◌, ◌<◌, ◌≡◌, refl, sym, ap, ◌∙◌, subst, List, [], ◌∷◌, ◌==◌, ==_iff, leb, length,
  update, Bool-cases, inl, inr, arith,
}
use scala_neko.Protocol.RoundBased.{Round, RoundBased, on_receive}
use scala_neko.Protocol.RoundBased.Counts.{tally, is_from, total-tally, total_ones}
use scala_neko.Protocol.RoundBased.Network.{Flight, World, arrive, receives, Reach, next, packets}
use scala_neko.Protocol.RoundBased.Invariant.{IsBalanced, messages_in}
use scala_neko.Protocol.RoundBased.Rounds.{Reach-IsBalanced}

module _ {ℓ} {A : Type ℓ} where
  -- The packets on their way arrive, one after the other.
  unfoldable pub drain : ℕ → List (Flight A) → World A → World A
  drain n [] w = w
  drain n (f ∷ fs) w = drain n fs (arrive n f (record w { in_flight = fs }))

  on_receive-send_round :
      (n : ℕ) (k : Round A) (s : RoundBased A) → (on_receive n k s).0.send_round ≡ s.send_round
  unfolding on_receive
  on_receive-send_round n k s = elim (Bool-cases (leb s.recv_round k.round)) [
    | inl e ↦
        elim (Bool-cases
          (length (update s.recv_stash k.round (k.msg ∷ s.recv_stash k.round) s.recv_round) == n)) [
            | inl h ↦ rw (e, h) refl
            | inr h ↦ rw (e, h) refl
          ]
    | inr e ↦ rw e refl
  ]

  arrive-send_round :
      (n p : ℕ) (f : Flight A) (w : World A)
      → ((arrive n f w).procs p).send_round ≡ (w.procs p).send_round
  arrive-send_round n p f w = elim (Bool-cases (f.to == p)) [
    | inl e ↦
        let same = (==_iff f.to p).0 e in
        rw e
          (on_receive-send_round n f.packet (w.procs f.to) ∙ ap (λ i. (w.procs i).send_round) same)
    | inr e ↦ rw e refl
  ]

  drain-Reach :
      (n : ℕ) (fs : List (Flight A)) (w : World A)
      → w.in_flight ≡ fs
      → Reach n w
      → Reach n (drain n fs w)
        × ((drain n fs w).in_flight ≡ [])
        × ((p : ℕ) → ((drain n fs w).procs p).send_round ≡ (w.procs p).send_round)
  unfolding drain
  drain-Reach n [] w e run = (run, e, λ p. refl)
  drain-Reach n (f ∷ fs) w e run =
      let after = next w (arrive n f (record w { in_flight = fs })) run (receives w [] fs f e) in
      let (reached, empty, same) =
        drain-Reach n fs (arrive n f (record w { in_flight = fs })) refl after in
      (reached, empty, λ p. same p ∙ arrive-send_round n p f (record w { in_flight = fs }))

  -- With nothing on its way no process waits in a round that all have sent.
  begins :
      (n k q : ℕ) (w : World A)
      → IsBalanced n w
      → w.in_flight ≡ []
      → ((p : ℕ) → p < n → k ≤ (w.procs p).send_round)
      → q < n
      → k ≤ (w.procs q).recv_round
  unfolding packets tally
  begins n k q w b e sent h = elim (Bool-cases (leb k (w.procs q).recv_round)) [
    | inl c ↦ ground (arith, c)
    | inr c ↦
        let r = (w.procs q).recv_round in
        let behind : r < k = ground (arith, c) in
        let each : (p : ℕ) → p < n → tally (is_from p) ((w.procs q).recv_stash r) ≡ 1 = λ p l.
          let books = (b.procs q).balance (is_from p) r in
          let gone : packets (is_from p) q r w.in_flight ≡ 0 = ap (packets (is_from p) q r) e in
          let unbegun : tally (is_from p) (messages_in (w.begun q (r + 1))) ≡ 0 =
            ap (λ v. tally (is_from p) (messages_in v)) ((b.procs q).unbegun r (omega arith)) in
          let all_sent = (b.procs p).sends q h r in
          let ahead = sent p l in ground (arith, books, gone, unbegun, all_sent, ahead, behind) in
        let full =
          sym (total-tally n ((w.procs q).recv_stash r) ((b.procs q).valid r))
          ∙ total_ones n (λ p. tally (is_from p) ((w.procs q).recv_stash r)) each in
        let waits = (b.procs q).waits h in absurd (omega (arith, full, waits))
  ]

  -- From every state that a run reaches, the packets on their way can all arrive, and then every
  -- process has begun the round `k` if each had sent the messages of its first `k` rounds.
  pub drain-recv_round :
      (n k : ℕ) (w : World A)
      → Reach n w
      → ((p : ℕ) → p < n → k ≤ (w.procs p).send_round)
      → Reach n (drain n w.in_flight w)
        × ((q : ℕ) → q < n → k ≤ ((drain n w.in_flight w).procs q).recv_round)
  drain-recv_round n k w run sent =
      let (reached, empty, same) = drain-Reach n w.in_flight w refl run in
      (
        reached,
        λ q h.
            begins n k q (drain n w.in_flight w) (Reach-IsBalanced n reached) empty
              (λ p l. subst (λ i. k ≤ i) (sym (same p)) (sent p l)) h,
      )
