-- ===== src/Protocol/Fifo/Network.antt =====
-- A system of processes that run the protocol over a network that neither loses nor copies
-- packets, and hands them over in any order.
use scala_neko.Base.{
  ℕ, ◌+◌, ◌≡◌, refl, sym, false, List, [], ◌∷◌, ◌++◌, ◌==◌, if◌then◌else◌, arith, Bool-cases, inl,
  inr, update, append-nil, append_assoc, subst, ap,
}
use scala_neko.Protocol.Message.{Message, message}
use scala_neko.Protocol.Fifo.{
  FifoInfo, FifoSequenced, FifoChannel, new, Sent, signal_on, packet, send_each, packets, on_send,
  on_receive,
}
use scala_neko.Protocol.Fifo.Invariant.{
  is_on, IsFifo, send-IsFifo, send_other-IsFifo, arrive_other-IsFifo, IsFifo-cast, enqueue-IsLoose,
  deliver_pending-IsFifo,
}

-- Beside the processes and the packets on their way, two histories: what the layer above `p`
-- sent to `q`, and what the layer above `q` was given of `p`.
pub record World {ℓ} (A : Type ℓ) : Type ℓ where
  pub procs : ℕ → FifoChannel A
  pub in_flight : List (FifoSequenced A)
  pub sent : ℕ → ℕ → List (Message A)
  pub delivered : ℕ → ℕ → List (Message A)

module _ {ℓ} {A : Type ℓ} where
  abbrev pub start : World A
  start = record { procs = λ _. new; in_flight = []; sent = λ _ _. []; delivered = λ _ _. [] }

  -- The packets among what a process sends; the network carries them.
  unfoldable pub carried : List (Sent A) → List (FifoSequenced A)
  carried [] = []
  carried (signal_on ie ∷ out) = carried out
  carried (packet k ∷ out) = k ∷ carried out

  -- The history to `q`, after `m` was sent to each of `dests`.
  unfoldable pub sent_to : ℕ → Message A → List ℕ → List (Message A) → List (Message A)
  sent_to q m [] ms = ms
  sent_to q m (d ∷ ds) ms = sent_to q m ds (if d == q then ms ++ m ∷ [] else ms)

  unfoldable pub submit : ℕ → Message A → World A → World A
  submit p m w =
      let (c, out) = on_send (message m) (w.procs p) in
      record w {
        procs = update w.procs p c;
        in_flight = w.in_flight ++ carried out;
        sent = update w.sent p (λ q. sent_to q m m.destinations (w.sent p q));
      }

  -- The packet `k` reaches its destination; `flight` are the others.
  unfoldable pub arrive : FifoSequenced A → List (FifoSequenced A) → World A → World A
  arrive k flight w =
      let (c, out) = on_receive k (w.procs k.to) in
      record w {
        procs = update w.procs k.to c;
        in_flight = flight;
        delivered =
            update w.delivered k.m.from
              (update (w.delivered k.m.from) k.to (w.delivered k.m.from k.to ++ out));
      }

  pub data Step (w v : World A) : Type ℓ where
    sends : (m : Message A) → v ≡ submit m.from m w → Step w v
    arrives :
        (xs : List (FifoSequenced A)) (k : FifoSequenced A) (ys : List (FifoSequenced A))
        → w.in_flight ≡ xs ++ k ∷ ys
        → v ≡ arrive k (xs ++ ys) w
        → Step w v

  pub data Reach (w : World A) : World A → Type ℓ where
    here : Reach w w
    next : {v u : World A} → Reach w v → Step v u → Reach w u

  -- The channel from `p` to `q`.
  abbrev pub Channel : ℕ → ℕ → World A → Type ℓ
  Channel p q w =
      IsFifo p q ((w.procs p).next_send_to q) ((w.procs q).next_receive_from p)
        ((w.procs q).message_buffer p) w.in_flight (w.sent p q) (w.delivered p q)

  pub start-Channel : (p q : ℕ) → Channel p q start
  unfolding new
  start-Channel p q = record {
    loose = record {
      numbered = refl;
      so_far = refl;
      within = omega arith;
      flying = tt;
      buffered = tt;
      sorted = tt;
      once = λ i. ground arith;
    };
    blocked = tt;
  }

  -- One turn of the loop over the destinations, on the channel from the sender to `q`.
  send_one-IsFifo :
      (q : ℕ) (m : Message A) (d : ℕ) (numbers : ℕ → ℕ) {nr : ℕ} {buffer : List (FifoInfo A)}
      {flight : List (FifoSequenced A)} {sent delivered : List (Message A)}
      → IsFifo m.from q (numbers q) nr buffer flight sent delivered
      → IsFifo m.from q
          (update numbers d (numbers d + 1) q)
          nr
          buffer
          (flight ++ record { m = m; to = d; seq_num = numbers d } ∷ [])
          (if d == q then sent ++ m ∷ [] else sent)
          delivered
  send_one-IsFifo q m d numbers h = elim (Bool-cases (d == q)) [
    | inl same ↦ let e : d ≡ q = ground arith in rw same (rw e (send-IsFifo m refl h))
    | inr other ↦ rw other (send_other-IsFifo _ (ground arith) h)
  ]

  send_each-IsFifo :
      (q : ℕ) (m : Message A) (ds : List ℕ) (c : FifoChannel A) {nr : ℕ}
      {buffer : List (FifoInfo A)} {flight : List (FifoSequenced A)}
      {sent delivered : List (Message A)}
      → IsFifo m.from q (c.next_send_to q) nr buffer flight sent delivered
      → IsFifo m.from q
          ((send_each m ds c).0.next_send_to q)
          nr
          buffer
          (flight ++ (send_each m ds c).1)
          (sent_to q m ds sent)
          delivered
  unfolding send_each sent_to
  send_each-IsFifo q m [] c h = rw append-nil h
  send_each-IsFifo q m (d ∷ ds) c {flight = flight} h =
      rw (append_assoc flight (record { m = m; to = d; seq_num = c.next_send_to d } ∷ []) _) at (
        send_each-IsFifo q m ds
          (record c { next_send_to = update c.next_send_to d (c.next_send_to d + 1) })
          (send_one-IsFifo q m d c.next_send_to h))

  -- The same on a channel from another process.
  send_each-other :
      (p q : ℕ) (m : Message A) (ds : List ℕ) (c : FifoChannel A) {ns nr : ℕ}
      {buffer : List (FifoInfo A)} {flight : List (FifoSequenced A)}
      {sent delivered : List (Message A)}
      → (m.from == p) ≡ false
      → IsFifo p q ns nr buffer flight sent delivered
      → IsFifo p q ns nr buffer (flight ++ (send_each m ds c).1) sent delivered
  unfolding send_each
  send_each-other p q m [] c off h = rw append-nil h
  send_each-other p q m (d ∷ ds) c {flight = flight} off h =
      rw (append_assoc flight (record { m = m; to = d; seq_num = c.next_send_to d } ∷ []) _) at (
        send_each-other p q m ds
          (record c { next_send_to = update c.next_send_to d (c.next_send_to d + 1) }) off
          (send_other-IsFifo (record { m = m; to = d; seq_num = c.next_send_to d }) (ground arith)
            h))

  send_each-receives :
      (m : Message A) (ds : List ℕ) (c : FifoChannel A)
      → ((send_each m ds c).0.next_receive_from ≡ c.next_receive_from)
        × ((send_each m ds c).0.message_buffer ≡ c.message_buffer)
  unfolding send_each
  send_each-receives m [] c = (refl, refl)
  send_each-receives m (d ∷ ds) c = send_each-receives m ds _

  carried-packets : (ks : List (FifoSequenced A)) → carried (packets ks) ≡ ks
  unfolding carried packets
  carried-packets [] = refl
  carried-packets (k ∷ ks) = ap (k ∷◌) (carried-packets ks)

  submit-receives :
      (q : ℕ) (m : Message A) (w : World A)
      → (((submit m.from m w).procs q).next_receive_from ≡ (w.procs q).next_receive_from)
        × (((submit m.from m w).procs q).message_buffer ≡ (w.procs q).message_buffer)
  unfolding submit on_send
  submit-receives q m w =
      let (numbers, buffers) = send_each-receives m m.destinations (w.procs m.from) in
      elim (Bool-cases (m.from == q)) [
        | inl same ↦
            let e : m.from ≡ q = ground arith in
            rw same (
              subst
                  (λ r.
                    (send_each m m.destinations (w.procs m.from)).0.next_receive_from
                    ≡ (w.procs r).next_receive_from)
                  e numbers,
              subst
                  (λ r.
                    (send_each m m.destinations (w.procs m.from)).0.message_buffer
                    ≡ (w.procs r).message_buffer)
                  e buffers,
            )
        | inr other ↦ rw other (refl, refl)
      ]

  -- A message that the layer above sends keeps every channel in order.
  pub submit-Channel :
      (p q : ℕ) (m : Message A) (w : World A) → Channel p q w → Channel p q (submit m.from m w)
  unfolding submit on_send
  submit-Channel p q m w h = elim (Bool-cases (m.from == p)) [
    | inl same ↦
        let e : m.from ≡ p = ground arith in
        subst (λ r. Channel r q w → Channel r q (submit m.from m w)) e
          (λ k.
            IsFifo-cast (ground arith) (ap (λ f. f m.from) (submit-receives q m w).0)
              (ap (λ f. f m.from) (submit-receives q m w).1)
              (ap (w.in_flight ++◌) (carried-packets _)) (ground arith) refl
              (send_each-IsFifo q m m.destinations (w.procs m.from) k))
          h
    | inr other ↦
        IsFifo-cast (ground arith) (ap (λ f. f p) (submit-receives q m w).0)
          (ap (λ f. f p) (submit-receives q m w).1) (ap (w.in_flight ++◌) (carried-packets _))
          (ground arith) refl (send_each-other p q m m.destinations (w.procs m.from) other h)
  ]

  -- A packet that arrives keeps its own channel in order.
  arrive_on-Channel :
      (xs : List (FifoSequenced A)) (k : FifoSequenced A) (ys : List (FifoSequenced A))
      (w : World A)
      → w.in_flight ≡ xs ++ k ∷ ys
      → Channel k.m.from k.to w
      → Channel k.m.from k.to (arrive k (xs ++ ys) w)
  unfolding arrive on_receive
  arrive_on-Channel xs k ys w e h =
      IsFifo-cast (ground arith) (ground arith) (ground arith) refl refl (ground arith) (
        deliver_pending-IsFifo (
          enqueue-IsLoose xs k ys (record { from = k.m.from; seq_num = k.seq_num; msg = k.m }) refl
            refl (ground arith) (IsFifo-cast refl refl refl (sym e) refl refl h)))

  -- It keeps every other channel in order.
  pub arrive-Channel :
      (p q : ℕ) (xs : List (FifoSequenced A)) (k : FifoSequenced A) (ys : List (FifoSequenced A))
      (w : World A)
      → w.in_flight ≡ xs ++ k ∷ ys
      → Channel p q w
      → Channel p q (arrive k (xs ++ ys) w)
  unfolding arrive on_receive
  arrive-Channel p q xs k ys w e h = elim (Bool-cases (is_on p q k)) [
    | inl on ↦
        let ep : k.m.from ≡ p = ground arith in
        let eq : k.to ≡ q = ground arith in
        subst (λ a. Channel a q w → Channel a q (arrive k (xs ++ ys) w)) ep
          (subst (λ b. Channel k.m.from b w → Channel k.m.from b (arrive k (xs ++ ys) w)) eq
            (arrive_on-Channel xs k ys w e))
          h
    | inr off ↦
        IsFifo-cast (ground arith) (ground arith) (ground arith) refl refl (ground arith)
          (arrive_other-IsFifo xs k ys off (IsFifo-cast refl refl refl (sym e) refl refl h))
  ]
