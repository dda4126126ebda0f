-- ===== src/Protocol/RoundBased/Network.antt =====
-- A system of processes that run the protocol over a network that neither loses nor copies packets,
-- and hands them over in any order. The layer above a process sends in rounds that it has begun.
use scala_neko.Base.{
  ℕ, ◌+◌, ◌≤◌, ◌<◌, ◌≡◌, refl, Bool, true, false, ◌&&◌, Option, none, some, List, [], ◌∷◌, ◌++◌,
  ◌==◌, ◌≢◌, update, All, if◌then◌else◌, arith,
}
use scala_neko.Base.Counts.{one, occurs}
use scala_neko.Protocol.Message.{Message, message}
use scala_neko.Protocol.RoundBased.{
  Round, StartRound, RoundBased, Sent, signal_on, round_on, Result, threw, did, new, send_each,
  on_send, on_receive,
}
use scala_neko.Protocol.RoundBased.Counts.{is_from, cover}

-- A packet for one of its destinations.
pub record Flight {ℓ} (A : Type ℓ) : Type ℓ where
  pub to : ℕ
  pub packet : Round A

-- Beside the processes and the packets on their way, two histories: the packets ever sent, and the
-- maps of the rounds that each process began.
pub record World {ℓ} (A : Type ℓ) : Type ℓ where
  pub procs : ℕ → RoundBased A
  pub in_flight : List (Flight A)
  pub sent : List (Flight A)
  pub begun : ℕ → ℕ → List (ℕ × Message A)

module _ {ℓ} {A : Type ℓ} where
  abbrev pub start : World A
  start = record { procs = λ p. new; in_flight = []; sent = []; begun = λ q r. [] }

  unfoldable pub flights_to : Round A → List ℕ → List (Flight A)
  flights_to k [] = []
  flights_to k (d ∷ ds) = record { to = d; packet = k } ∷ flights_to k ds

  unfoldable pub flights : List (Sent A) → List (Flight A)
  flights [] = []
  flights (signal_on ie ∷ out) = flights out
  flights (round_on k ∷ out) = flights_to k k.msg.destinations ++ flights out

  abbrev pub become : ℕ → RoundBased A → List (Flight A) → World A → World A
  become p s fs w = record w {
    procs = update w.procs p s;
    in_flight = fs ++ w.in_flight;
    sent = fs ++ w.sent;
  }

  abbrev pub settle : ℕ → Result A → World A → World A
  settle p threw w = w
  settle p (did s out) w = become p s (flights out) w

  abbrev pub submit : ℕ → ℕ → Message A → World A → World A
  submit n p m w = settle p (on_send n (message m) (w.procs p)) w

  abbrev pub begin :
      ℕ → Option (StartRound A) → (ℕ → ℕ → List (ℕ × Message A)) → ℕ → ℕ → List (ℕ × Message A)
  begin q none begun = begun
  begin q (some e) begun = update begun q (update (begun q) e.round e.msgs)

  abbrev pub arrive : ℕ → Flight A → World A → World A
  arrive n f w =
      let result : RoundBased A × Option (StartRound A) = on_receive n f.packet (w.procs f.to) in
      record w { procs = update w.procs f.to result.0; begun = begin f.to result.1 w.begun }

  -- A message with a set of processes as its destinations.
  pub record IsAddressed (n p : ℕ) (m : Message A) : Type ℓ where
    pub sender : m.from ≡ p
    pub valid : All (λ d. d < n) m.destinations
    pub once : (q : ℕ) → occurs q m.destinations ≤ 1

  pub data Step (n : ℕ) : World A → World A → Type ℓ where
    submits :
        (w : World A) (p : ℕ) (m : Message A)
        → p < n
        → IsAddressed n p m
        → (w.procs p).send_round ≤ (w.procs p).recv_round
        → Step n w (submit n p m w)
    receives :
        (w : World A) (xs ys : List (Flight A)) (f : Flight A)
        → w.in_flight ≡ xs ++ f ∷ ys
        → Step n w (arrive n f (record w { in_flight = xs ++ ys }))

  pub data Reach (n : ℕ) : World A → Type ℓ where
    here : Reach n start
    next : (w v : World A) → Reach n w → Step n w v → Reach n v

  -- The packets of a round for a process whose messages satisfy a test.
  abbrev pub is_for : (Message A → Bool) → ℕ → ℕ → Flight A → Bool
  is_for test q r f = test f.packet.msg && f.to == q && f.packet.round == r

  unfoldable pub packets : (Message A → Bool) → ℕ → ℕ → List (Flight A) → ℕ
  packets test q r [] = 0
  packets test q r (f ∷ fs) = packets test q r fs + one (is_for test q r f)

  pub packets-append :
      (test : Message A → Bool) (q r : ℕ) (xs ys : List (Flight A))
      → packets test q r (xs ++ ys) ≡ packets test q r xs + packets test q r ys
  unfolding packets
  packets-append test q r [] ys = omega arith
  packets-append test q r (x ∷ xs) ys = rw (packets-append test q r xs ys) omega arith

  pub packets-middle :
      (test : Message A → Bool) (q r : ℕ) (xs : List (Flight A)) (f : Flight A)
      (ys : List (Flight A))
      → packets test q r (xs ++ f ∷ ys) ≡ packets test q r (xs ++ ys) + one (is_for test q r f)
  unfolding packets
  packets-middle test q r xs f ys =
      rw (packets-append test q r xs (f ∷ ys), packets-append test q r xs ys) omega arith

  packets-flights_to :
      (test : Message A → Bool) (q r : ℕ) (k : Round A) (ds : List ℕ)
      → packets test q r (flights_to k ds) ≡ (if test k.msg && k.round == r then occurs q ds else 0)
  unfolding packets flights_to occurs
  packets-flights_to test q r k [] = ground arith
  packets-flights_to test q r k (d ∷ ds) = rw (packets-flights_to test q r k ds) ground arith

  -- The packets of a batch go once to each process that it covers, in its round.
  pub packets-own :
      (p q r round : ℕ) (batch : List (Message A))
      → All (λ m. m.from ≡ p) batch
      → packets (is_from p) q r (flights (send_each round batch))
        ≡ (if round == r then cover q batch else 0)
  unfolding packets flights send_each cover
  packets-own p q r round [] h = ground arith
  packets-own p q r round (m ∷ batch) h =
      let own : (m.from == p) ≡ true = rw h.0 ground arith in
      rw (packets-append, packets-flights_to, packets-own p q r round batch h.1, own) ground arith

  -- There are none from other processes.
  pub packets-other :
      (p p' q r round : ℕ) (batch : List (Message A))
      → p ≢ p'
      → All (λ m. m.from ≡ p) batch
      → packets (is_from p') q r (flights (send_each round batch)) ≡ 0
  unfolding packets flights send_each
  packets-other p p' q r round [] e h = refl
  packets-other p p' q r round (m ∷ batch) e h =
      let foreign : (m.from == p') ≡ false = rw h.0 (ground arith) in
      rw (packets-append, packets-flights_to, packets-other p p' q r round batch e h.1, foreign)
        refl
