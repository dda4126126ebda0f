-- ===== src/Protocol/RoundBased/Invariant.antt =====
-- The books of a process: where the packets of each round for it are, and how far it is.
use scala_neko.Base.{
  ℕ, ◌+◌, ◌≤◌, ◌<◌, ◌≡◌, refl, ap, ◌∙◌, subst, Bool, false, List, [], ◌∷◌, ◌++◌, map, ◌==◌, ==_iff,
  ◌≢◌, ltb, length, update, All, All-imp, Bool-cases, inl, inr, arith,
}
use scala_neko.Base.Counts.{one}
use scala_neko.Protocol.Message.{Message}
use scala_neko.Protocol.RoundBased.{RoundBased, overlaps, batch_size, send_each, message_vector}
use scala_neko.Protocol.RoundBased.Counts.{tally, is_from, cover, total_full, total-cover, cover-le}
use scala_neko.Protocol.RoundBased.Network.{
  Flight, World, flights, start, IsAddressed, packets, packets-append, packets-own, packets-other,
}

module _ {ℓ} {A : Type ℓ} where
  abbrev pub messages_in : List (ℕ × Message A) → List (Message A)
  messages_in v = map (λ (e : ℕ × Message A). e.1) v

  pub messages_in-message_vector : (ms : List (Message A)) → messages_in (message_vector ms) ≡ ms
  unfolding message_vector
  messages_in-message_vector [] = refl
  messages_in-message_vector (m ∷ ms) = ap (m ∷◌) (messages_in-message_vector ms)

  -- A message of the process `p` to processes.
  abbrev pub IsOwn : ℕ → ℕ → Message A → Type 0
  IsOwn n p m = (m.from ≡ p) × All {A = ℕ} (λ d. d < n) m.destinations

  pub record IsSound (n : ℕ) (in_flight sent : List (Flight A)) (begun : ℕ → List (ℕ × Message A))
      (p : ℕ) (s : RoundBased A) : Type ℓ where
    -- What the layer above hands over of a round.
    pub own : All (IsOwn n p) s.send_batch
    pub apart : (q : ℕ) → cover q s.send_batch ≤ 1
    pub sends : (q : ℕ) → q < n → (r : ℕ) → packets (is_from p) q r sent ≡ one (ltb r s.send_round)
    pub pace : s.send_round ≤ s.recv_round + 1
    -- Every packet that was sent is on its way, in the stash, or in the map of its round.
    pub balance :
        (test : Message A → Bool) (r : ℕ)
        → packets test p r in_flight
            + tally test (s.recv_stash r)
            + tally test (messages_in (begun (r + 1)))
          ≡ packets test p r sent
    pub valid : (r : ℕ) → All (λ (m : Message A). m.from < n) (s.recv_stash r)
    pub full :
        (q r : ℕ) → q < n → r < s.recv_round → tally (is_from q) (messages_in (begun (r + 1))) ≡ 1
    pub unbegun : (r : ℕ) → s.recv_round ≤ r → begun (r + 1) ≡ []
    pub waits : p < n → length (s.recv_stash s.recv_round) < n

  pub record IsBalanced (n : ℕ) (w : World A) : Type ℓ where
    pub valid : All (λ (f : Flight A). (f.packet.msg.from < n) × (f.to < n)) w.in_flight
    pub procs : (p : ℕ) → IsSound n w.in_flight w.sent (w.begun p) p (w.procs p)

  -- What holds of all processes still holds when one changes, if it holds of the new state.
  pub update-holds {κ} :
      (P : ℕ → RoundBased A → Type κ) (procs : ℕ → RoundBased A) (p : ℕ) (s : RoundBased A)
      → ((q : ℕ) → p ≢ q → P q (procs q))
      → P p s
      → (q : ℕ) → P q (update procs p s q)
  update-holds P procs p s h k q = elim (Bool-cases (p == q)) [
    | inl e ↦ rw e (subst (λ i. P i s) ((==_iff p q).0 e) k)
    | inr e ↦ rw e (h q (ground (arith, e)))
  ]

  pub start-IsBalanced : (n : ℕ) → IsBalanced n start
  unfolding packets tally cover
  start-IsBalanced n = record {
    valid = tt;
    procs = λ p. record {
      own = tt;
      apart = λ q. omega arith;
      sends = λ q h r. ground arith;
      pace = omega arith;
      balance = λ test r. refl;
      valid = λ r. tt;
      full = λ q r h k. absurd (omega arith);
      unbegun = λ r h. refl;
      waits = λ h. omega arith;
    };
  }

  -- The layer above adds a message to the batch of its round.
  pub adds-IsSound :
      (n p : ℕ) (m : Message A) (in_flight sent : List (Flight A))
      (begun : ℕ → List (ℕ × Message A))
      → (s : RoundBased A) → IsAddressed n p m
      → overlaps m s.send_batch ≡ false
      → IsSound n in_flight sent begun p s
      → IsSound n in_flight sent begun p (record s { send_batch = m ∷ s.send_batch })
  adds-IsSound n p m in_flight sent begun s a o i = record {
    own = ((a.sender, a.valid), i.own);
    apart = λ q. cover-le q m s.send_batch o (a.once q) (i.apart q);
    sends = i.sends;
    pace = i.pace;
    balance = i.balance;
    valid = i.valid;
    full = i.full;
    unbegun = i.unbegun;
    waits = i.waits;
  }

  -- A batch that is as large as there are processes goes once to each.
  cover_full :
      (n p q : ℕ) (batch : List (Message A))
      → All (IsOwn n p) batch
      → ((i : ℕ) → cover i batch ≤ 1)
      → batch_size batch ≡ n
      → q < n
      → cover q batch ≡ 1
  cover_full n p q batch own apart size h =
      let covers = total-cover n batch (All-imp batch (λ m k. k.1) own) in
      total_full n (λ i. cover i batch) q (λ j k. apart j) (covers ∙ size) h

  -- New packets on their way are also new in the history.
  balance-flights :
      (test : Message A → Bool) (p r : ℕ) (fs in_flight sent : List (Flight A)) (a b : ℕ)
      → packets test p r in_flight + a + b ≡ packets test p r sent
      → packets test p r (fs ++ in_flight) + a + b ≡ packets test p r (fs ++ sent)
  balance-flights test p r fs in_flight sent a b h =
      rw (packets-append test p r fs in_flight, packets-append test p r fs sent) omega (arith, h)

  -- The batch is sent.
  pub sends-IsSound :
      (n p : ℕ) (in_flight sent : List (Flight A)) (begun : ℕ → List (ℕ × Message A))
      → (s : RoundBased A) → batch_size s.send_batch ≡ n
      → s.send_round ≤ s.recv_round
      → IsSound n in_flight sent begun p s
      → IsSound n
          (flights (send_each s.send_round s.send_batch) ++ in_flight)
          (flights (send_each s.send_round s.send_batch) ++ sent)
          begun
          p
          (record s { send_batch = []; send_round = s.send_round + 1 })
  unfolding cover
  sends-IsSound n p in_flight sent begun s size ready i = record {
    own = tt;
    apart = λ q. omega arith;
    sends = λ q h r.
        let covered = cover_full n p q s.send_batch i.own i.apart size h in
        let before = i.sends q h r in
        let fresh =
          packets-own p q r s.send_round s.send_batch (All-imp s.send_batch (λ m k. k.0) i.own) in
        packets-append (is_from p) q r (flights (send_each s.send_round s.send_batch)) sent
        ∙ rw (fresh, before, covered) ground arith;
    pace = omega arith;
    balance = λ test r. balance-flights test p r _ in_flight sent _ _ (i.balance test r);
    valid = i.valid;
    full = i.full;
    unbegun = i.unbegun;
    waits = i.waits;
  }

  -- Another process sends its batch.
  pub sends_other-IsSound :
      (n p p' round : ℕ) (batch : List (Message A)) (in_flight sent : List (Flight A))
      → (begun : ℕ → List (ℕ × Message A)) (s : RoundBased A) → p ≢ p'
      → All (IsOwn n p) batch
      → IsSound n in_flight sent begun p' s
      → IsSound n
          (flights (send_each round batch) ++ in_flight)
          (flights (send_each round batch) ++ sent)
          begun
          p'
          s
  sends_other-IsSound n p p' round batch in_flight sent begun s e own i = record {
    own = i.own;
    apart = i.apart;
    sends = λ q h r.
        let none_new = packets-other p p' q r round batch e (All-imp batch (λ m k. k.0) own) in
        packets-append (is_from p') q r (flights (send_each round batch)) sent
        ∙ rw (none_new, i.sends q h r) omega arith;
    pace = i.pace;
    balance = λ test r. balance-flights test p' r _ in_flight sent _ _ (i.balance test r);
    valid = i.valid;
    full = i.full;
    unbegun = i.unbegun;
    waits = i.waits;
  }
