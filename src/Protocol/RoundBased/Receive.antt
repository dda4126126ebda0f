-- ===== src/Protocol/RoundBased/Receive.antt =====
-- `onReceive` keeps the books, and no packet comes after its round.
use scala_neko.Base.{
  ℕ, ◌+◌, ◌≤◌, ◌<◌, ◌≡◌, sym, ap, ◌∙◌, subst, Bool, true, false, List, [], ◌∷◌, ◌++◌, ◌==◌, ==_iff,
  ◌≢◌, ltb, leb, length, update, All, All-middle, Bool-cases, inl, inr, arith,
}
use scala_neko.Base.Counts.{one}
use scala_neko.Protocol.Message.{Message}
use scala_neko.Protocol.RoundBased.{RoundBased, on_receive, message_vector}
use scala_neko.Protocol.RoundBased.Counts.{
  tally, is_from, total-le, total_full, total_short, total-tally,
}
use scala_neko.Protocol.RoundBased.Network.{Flight, World, arrive, is_for, packets, packets-middle}
use scala_neko.Protocol.RoundBased.Invariant.{
  IsSound, IsBalanced, update-holds, messages_in, messages_in-message_vector,
}

module _ {ℓ} {A : Type ℓ} (n : ℕ) (w : World A) (xs ys : List (Flight A)) (f : Flight A)
    (e : w.in_flight ≡ xs ++ f ∷ ys) (b : IsBalanced n w) where
  abbrev state : RoundBased A
  state = w.procs f.to

  abbrev stash : ℕ → List (Message A)
  stash = update state.recv_stash f.packet.round (f.packet.msg ∷ state.recv_stash f.packet.round)

  valid_all :
      ((f.packet.msg.from < n) × (f.to < n))
      × All (λ (g : Flight A). (g.packet.msg.from < n) × (g.to < n)) (xs ++ ys)
  valid_all =
      All-middle (λ (g : Flight A). (g.packet.msg.from < n) × (g.to < n)) xs f ys
        (subst (All (λ (g : Flight A). (g.packet.msg.from < n) × (g.to < n))) e b.valid)

  packets_before :
      (test : Message A → Bool) (q r : ℕ)
      → packets test q r w.in_flight ≡ packets test q r (xs ++ ys) + one (is_for test q r f)
  packets_before test q r = ap (packets test q r) e ∙ packets-middle test q r xs f ys

  -- A packet of an earlier round would be a second one.
  pub fresh : leb state.recv_round f.packet.round ≡ true
  fresh = elim (Bool-cases (leb state.recv_round f.packet.round)) [
    | inl h ↦ h
    | inr h ↦
        let p = f.packet.msg.from in
        let r = f.packet.round in
        let here : packets (is_from p) f.to r w.in_flight
            ≡ packets (is_from p) f.to r (xs ++ ys) + 1 =
          packets_before (is_from p) f.to r ∙ ground arith in
        let once = (b.procs f.to).full p r valid_all.0.0 (ground (arith, h)) in
        let books = (b.procs f.to).balance (is_from p) r in
        let most = (b.procs p).sends f.to valid_all.0.1 r in
        absurd (ground (arith, here, once, books, most))
  ]

  -- The packet goes into the stash of its round.
  stash-balance :
      (test : Message A → Bool) (r : ℕ)
      → packets test f.to r (xs ++ ys)
          + tally test (stash r)
          + tally test (messages_in (w.begun f.to (r + 1)))
        ≡ packets test f.to r w.sent
  unfolding tally
  stash-balance test r =
      let books = (b.procs f.to).balance test r in
      let before = packets_before test f.to r in
      elim (Bool-cases (f.packet.round == r)) [
        | inl h ↦
            let same = (==_iff f.packet.round r).0 h in
            rw h (rw same (ground (arith, books, before, h)))
        | inr h ↦ rw h (ground (arith, books, before, h))
      ]

  stash-valid : (r : ℕ) → All (λ (m : Message A). m.from < n) (stash r)
  stash-valid r = elim (Bool-cases (f.packet.round == r)) [
    | inl h ↦ rw h (valid_all.0.0, (b.procs f.to).valid f.packet.round)
    | inr h ↦ rw h ((b.procs f.to).valid r)
  ]

  -- There is at most one message of a process for a round, and none of one that it has not sent.
  stash-le : (p r : ℕ) → p < n → tally (is_from p) (stash r) ≤ one (ltb r (w.procs p).send_round)
  stash-le p r h =
      let books = stash-balance (is_from p) r in
      let most = (b.procs p).sends f.to valid_all.0.1 r in omega (arith, books, most)

  stash-single : (r p : ℕ) → p < n → tally (is_from p) (stash r) ≤ 1
  stash-single r p h =
      let most = stash-le p r h in
      let few : one (ltb r (w.procs p).send_round) ≤ 1 = ground arith in omega arith

  stash-length : (r : ℕ) → length (stash r) ≤ n
  stash-length r =
      rw (sym (total-tally n (stash r) (stash-valid r)))
        (total-le n (λ p. tally (is_from p) (stash r)) (stash-single r))

  -- Without a complete batch for its round the process waits.
  waits-IsSound :
      length (stash state.recv_round) ≢ n
      → IsSound n (xs ++ ys) w.sent (w.begun f.to) f.to (record state { recv_stash = stash })
  waits-IsSound short =
      let i = b.procs f.to in
      record {
        own = i.own;
        apart = i.apart;
        sends = i.sends;
        pace = i.pace;
        balance = stash-balance;
        valid = stash-valid;
        full = i.full;
        unbegun = i.unbegun;
        waits = λ h. let most = stash-length state.recv_round in omega (arith, most, short);
      }

  -- The next round begins with the complete batch.
  abbrev begun : ℕ → List (ℕ × Message A)
  begun = update (w.begun f.to) (state.recv_round + 1) (message_vector (stash state.recv_round))

  abbrev rest : ℕ → List (Message A)
  rest = update stash state.recv_round []

  begun-balance :
      (test : Message A → Bool) (r : ℕ)
      → packets test f.to r (xs ++ ys)
          + tally test (rest r)
          + tally test (messages_in (begun (r + 1)))
        ≡ packets test f.to r w.sent
  unfolding tally
  begun-balance test r =
      let books = stash-balance test r in
      elim (Bool-cases (state.recv_round == r)) [
        | inl h ↦
            let same = (==_iff state.recv_round r).0 h in
            let key : ((state.recv_round + 1) == (r + 1)) ≡ true = ground (arith, h) in
            let empty = (b.procs f.to).unbegun r (omega arith) in
            let moved = ap (λ i. tally test (stash i)) same in
            let nothing = ap (λ v. tally test (messages_in v)) empty in
            rw (h, key, messages_in-message_vector (stash state.recv_round))
              (omega (arith, books, moved, nothing))
        | inr h ↦
            let key : ((state.recv_round + 1) == (r + 1)) ≡ false = ground (arith, h) in
            rw (h, key) books
      ]

  -- The stash of the next round lacks the process's own message, which it has yet to send.
  next-length : f.to < n → length (rest (state.recv_round + 1)) < n
  next-length h =
      let later : (state.recv_round == (state.recv_round + 1)) ≡ false = ground arith in
      let none_sent = stash-le f.to (state.recv_round + 1) h in
      let pace = (b.procs f.to).pace in
      let zero_own : tally (is_from f.to) (stash (state.recv_round + 1)) ≡ 0 =
        ground (arith, none_sent, pace) in
      rw
        (
          later,
          sym (total-tally n (stash (state.recv_round + 1)) (stash-valid (state.recv_round + 1))),
        )
        (total_short n (λ p. tally (is_from p) (stash (state.recv_round + 1))) f.to
          (stash-single (state.recv_round + 1)) h zero_own)

  begins-IsSound :
      length (stash state.recv_round) ≡ n
      → IsSound n
          (xs ++ ys)
          w.sent
          begun
          f.to
          (record state { recv_stash = rest; recv_round = state.recv_round + 1 })
  begins-IsSound complete =
      let i = b.procs f.to in
      record {
        own = i.own;
        apart = i.apart;
        sends = i.sends;
        pace = let pace = i.pace in omega (arith, pace);
        balance = begun-balance;
        valid = λ r. elim (Bool-cases (state.recv_round == r)) [
          | inl h ↦ rw h tt
          | inr h ↦ rw h (stash-valid r)
        ];
        full = λ q r h k. elim (Bool-cases (state.recv_round == r)) [
          | inl s ↦
              let key : ((state.recv_round + 1) == (r + 1)) ≡ true = ground (arith, s) in
              rw (key, messages_in-message_vector (stash state.recv_round))
                (total_full n (λ p. tally (is_from p) (stash state.recv_round)) q
                  (stash-single state.recv_round)
                  (total-tally n (stash state.recv_round) (stash-valid state.recv_round) ∙ complete)
                  h)
          | inr s ↦
              let key : ((state.recv_round + 1) == (r + 1)) ≡ false = ground (arith, s) in
              rw key (i.full q r h (ground (arith, k, s)))
        ];
        unbegun = λ r h.
            let key : ((state.recv_round + 1) == (r + 1)) ≡ false = ground (arith, h) in
            rw key (i.unbegun r (omega arith));
        waits = next-length;
      }

  -- The packet does not count for other processes.
  others-IsSound : (q : ℕ) → f.to ≢ q → IsSound n (xs ++ ys) w.sent (w.begun q) q (w.procs q)
  others-IsSound q d =
      let i = b.procs q in
      record {
        own = i.own;
        apart = i.apart;
        sends = i.sends;
        pace = i.pace;
        balance = λ test r.
            let books = i.balance test r in
            let before = packets_before test q r in
            let other : (f.to == q) ≡ false = ground arith in
            let same : packets test q r w.in_flight ≡ packets test q r (xs ++ ys) =
              before ∙ ground (arith, other) in
            omega (arith, books, same);
        valid = i.valid;
        full = i.full;
        unbegun = i.unbegun;
        waits = i.waits;
      }

  begun_all : ℕ → ℕ → List (ℕ × Message A)
  begun_all = update w.begun f.to begun

  begun_all-IsSound :
      (q : ℕ) (s : RoundBased A)
      → f.to ≢ q
      → IsSound n (xs ++ ys) w.sent (w.begun q) q s
      → IsSound n (xs ++ ys) w.sent (update w.begun f.to begun q) q s
  begun_all-IsSound q s d i = let other : (f.to == q) ≡ false = ground arith in rw other i

  pub arrive-IsBalanced : IsBalanced n (arrive n f (record w { in_flight = xs ++ ys }))
  unfolding on_receive
  arrive-IsBalanced = elim (Bool-cases (length (stash state.recv_round) == n)) [
    | inl h ↦
        let self : (f.to == f.to) ≡ true = ground arith in
        rw (fresh, h)
          (record {
            valid = valid_all.1;
            procs =
                update-holds (λ q s. IsSound n (xs ++ ys) w.sent (update w.begun f.to begun q) q s)
                  w.procs f.to _ (λ q d. begun_all-IsSound q (w.procs q) d (others-IsSound q d))
                  (rw self (begins-IsSound ((==_iff (length (stash state.recv_round)) n).0 h)));
          })
    | inr h ↦
        rw (fresh, h)
          (record {
            valid = valid_all.1;
            procs =
                update-holds (λ q s. IsSound n (xs ++ ys) w.sent (w.begun q) q s) w.procs f.to _
                  others-IsSound (waits-IsSound (ground (arith, h)));
          })
  ]
