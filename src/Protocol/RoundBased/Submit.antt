-- ===== src/Protocol/RoundBased/Submit.antt =====
-- `onSend` keeps the books.
use scala_neko.Base.{
  ℕ, ◌+◌, ◌≤◌, ◌<◌, ◌≡◌, sym, subst, false, List, [], ◌∷◌, ◌++◌, ◌==◌, ==_iff, All, All-append,
  Bool-cases, inl, inr,
}
use scala_neko.Protocol.Message.{Message}
use scala_neko.Protocol.RoundBased.{Round, RoundBased, overlaps, batch_size, send_each, on_send}
use scala_neko.Protocol.RoundBased.Network.{
  Flight, World, flights_to, flights, become, submit, IsAddressed,
}
use scala_neko.Protocol.RoundBased.Invariant.{
  IsOwn, IsSound, IsBalanced, update-holds, adds-IsSound, sends-IsSound, sends_other-IsSound,
}

module _ {ℓ} {A : Type ℓ} where
  abbrev IsValid : ℕ → Flight A → Type 0
  IsValid n f = (f.packet.msg.from < n) × (f.to < n)

  flights_to-IsValid :
      (n : ℕ) (k : Round A) (ds : List ℕ)
      → k.msg.from < n
      → All (λ d. d < n) ds
      → All (IsValid n) (flights_to k ds)
  unfolding flights_to
  flights_to-IsValid n k [] h v = tt
  flights_to-IsValid n k (d ∷ ds) h v = ((h, v.0), flights_to-IsValid n k ds h v.1)

  flights-IsValid :
      (n p round : ℕ) (batch : List (Message A))
      → p < n
      → All (IsOwn n p) batch
      → All (IsValid n) (flights (send_each round batch))
  unfolding flights send_each
  flights-IsValid n p round [] h own = tt
  flights-IsValid n p round (m ∷ batch) h own =
      All-append (IsValid n) _ _
        (flights_to-IsValid n _ m.destinations (subst (λ i. i < n) (sym own.0.0) h) own.0.1)
        (flights-IsValid n p round batch h own.1)

  -- The batch is not complete.
  adds-IsBalanced :
      (n p : ℕ) (m : Message A) (w : World A)
      → IsAddressed n p m
      → overlaps m (w.procs p).send_batch ≡ false
      → IsBalanced n w
      → IsBalanced n
          (become p (record (w.procs p) { send_batch = m ∷ (w.procs p).send_batch }) [] w)
  adds-IsBalanced n p m w a o b = record {
    valid = b.valid;
    procs =
        update-holds (λ q s. IsSound n w.in_flight w.sent (w.begun q) q s) w.procs p _
          (λ q e. b.procs q)
          (adds-IsSound n p m w.in_flight w.sent (w.begun p) (w.procs p) a o (b.procs p));
  }

  -- The batch of `s`, the state of `p` with the last message, is complete.
  sends-IsBalanced :
      (n p : ℕ) (s : RoundBased A) (w : World A)
      → p < n
      → batch_size s.send_batch ≡ n
      → s.send_round ≤ s.recv_round
      → IsBalanced n w
      → IsSound n w.in_flight w.sent (w.begun p) p s
      → IsBalanced n (
          become p
            (record s { send_batch = []; send_round = s.send_round + 1 })
            (flights (send_each s.send_round s.send_batch))
            w)
  sends-IsBalanced n p s w h size ready b i =
      let fs : List (Flight A) = flights (send_each s.send_round s.send_batch) in
      record {
        valid =
            All-append (IsValid n) fs w.in_flight
              (flights-IsValid n p s.send_round s.send_batch h i.own) b.valid;
        procs =
            update-holds (λ q t. IsSound n (fs ++ w.in_flight) (fs ++ w.sent) (w.begun q) q t)
              w.procs p _
              (λ q e.
                sends_other-IsSound n p q s.send_round s.send_batch w.in_flight w.sent (w.begun q)
                  (w.procs q) e i.own (b.procs q))
              (sends-IsSound n p w.in_flight w.sent (w.begun p) s size ready i);
      }

  pub submit-IsBalanced :
      (n p : ℕ) (m : Message A) (w : World A)
      → p < n
      → IsAddressed n p m
      → (w.procs p).send_round ≤ (w.procs p).recv_round
      → IsBalanced n w
      → IsBalanced n (submit n p m w)
  unfolding on_send flights
  submit-IsBalanced n p m w h a ready b = elim (Bool-cases (overlaps m (w.procs p).send_batch)) [
    | inl o ↦ rw o b
    | inr o ↦
        let s : RoundBased A = record (w.procs p) { send_batch = m ∷ (w.procs p).send_batch } in
        elim (Bool-cases (batch_size s.send_batch == n)) [
          | inl e ↦
              let added =
                adds-IsSound n p m w.in_flight w.sent (w.begun p) (w.procs p) a o (b.procs p) in
              rw (o, e)
                (sends-IsBalanced n p s w h ((==_iff (batch_size s.send_batch) n).0 e) ready b
                  added)
          | inr e ↦ rw (o, e) (adds-IsBalanced n p m w a o b)
        ]
  ]
