-- ===== src/Protocol/Fifo/Invariant.antt =====
-- One channel, seen from outside: what each event at its ends and on the network does to it.
use scala_neko.Base.{
  ℕ, ◌+◌, ◌≡◌, ◌≤◌, ◌<◌, refl, sym, Bool, true, false, List, [], ◌∷◌, ◌++◌, some, ◌==◌, ltb, leb,
  if◌then◌else◌, ◌&&◌, arith, length, get_elem?, take, All, length-append, take-append, take-all,
  get_elem?-append, get_elem?-length, All-append, All-imp, All-middle, ◌∙◌,
}
use scala_neko.Protocol.Message.{Message}
use scala_neko.Protocol.Fifo.{FifoInfo, FifoSequenced, enqueue, deliver_pending}
use scala_neko.Protocol.Fifo.Channel.{
  has_number, IsSorted, Buffers, IsBlocked, has_number-enqueue, All-enqueue, enqueue-IsSorted,
  IsBlocked-has_number, deliver_pending_lem, has_number-deliver_pending,
}

module _ {ℓ} {A : Type ℓ} where
  abbrev pub is_on : ℕ → ℕ → FifoSequenced A → Bool
  is_on p q k = k.m.from == p && k.to == q

  -- The packets from `p` to `q` with the number `i`.
  abbrev pub on_way : ℕ → ℕ → ℕ → List (FifoSequenced A) → ℕ
  on_way p q i [] = 0
  on_way p q i (k ∷ ks) = (if is_on p q k && k.seq_num == i then 1 else 0) + on_way p q i ks

  abbrev pub Flies : ℕ → ℕ → List (Message A) → FifoSequenced A → Type ℓ
  Flies p q sent k = is_on p q k ≡ true → get_elem? sent k.seq_num ≡ some k.m

  on_way-append :
      (p q i : ℕ) (xs ys : List (FifoSequenced A))
      → on_way p q i (xs ++ ys) ≡ on_way p q i xs + on_way p q i ys
  on_way-append p q i [] ys = omega arith
  on_way-append p q i (x ∷ xs) ys = omega (arith, on_way-append p q i xs ys)

  -- Everything but that the receiver's loop has stopped.
  pub record IsLoose (p q ns nr : ℕ) (buffer : List (FifoInfo A)) (flight : List (FifoSequenced A))
      (sent delivered : List (Message A)) : Type ℓ where
    pub numbered : ns ≡ length sent
    pub so_far : delivered ≡ take nr sent
    pub within : nr ≤ length sent
    pub flying : All (Flies p q sent) flight
    pub buffered : Buffers sent buffer
    pub sorted : IsSorted buffer
    pub once :
        (i : ℕ)
        → has_number i buffer + on_way p q i flight
          ≡ (if leb nr i && ltb i (length sent) then 1 else 0)

  pub record IsFifo (p q ns nr : ℕ) (buffer : List (FifoInfo A)) (flight : List (FifoSequenced A))
      (sent delivered : List (Message A)) : Type ℓ where
    pub loose : IsLoose p q ns nr buffer flight sent delivered
    pub blocked : IsBlocked nr buffer

  module _ {p q ns nr : ℕ} {buffer : List (FifoInfo A)} {flight : List (FifoSequenced A)}
      {sent delivered : List (Message A)} where
    -- With nothing on its way, all that was sent is delivered.
    pub all_delivered :
        IsFifo p q ns nr buffer flight sent delivered
        → ((i : ℕ) → on_way p q i flight ≡ 0)
        → delivered ≡ sent
    all_delivered h none_on_way =
        let none_below : (i : ℕ) → i < nr → has_number i buffer ≡ 0 =
          λ i below. ground (arith, h.loose.once i, none_on_way i) in
        let missing = IsBlocked-has_number nr buffer h.loose.sorted h.blocked none_below in
        let whole : nr ≡ length sent =
          ground (arith, h.loose.once nr, none_on_way nr, missing, h.loose.within) in
        h.loose.so_far ∙ rw whole (take-all sent)

    -- The sender numbers a message and sends it.
    pub send-IsFifo :
        (m : Message A)
        → m.from ≡ p
        → IsFifo p q ns nr buffer flight sent delivered
        → IsFifo p q
            (ns + 1)
            nr
            buffer
            (flight ++ record { m = m; to = q; seq_num = ns } ∷ [])
            (sent ++ m ∷ [])
            delivered
    send-IsFifo m from h = record {
      loose = record {
        numbered = omega (arith, length-append sent (m ∷ []), h.loose.numbered);
        so_far = h.loose.so_far ∙ sym (take-append nr sent (m ∷ []) h.loose.within);
        within = omega (arith, length-append sent (m ∷ []), h.loose.within);
        flying =
            All-append _ flight _
              (All-imp flight (λ k old on. get_elem?-append sent (m ∷ []) k.seq_num (old on))
                h.loose.flying)
              (λ _. rw h.loose.numbered (get_elem?-length sent m), tt);
        buffered =
            All-imp buffer (λ x old. get_elem?-append sent (m ∷ []) x.seq_num old) h.loose.buffered;
        sorted = h.loose.sorted;
        once = λ i. ground (
          arith,
          on_way-append p q i flight (record { m = m; to = q; seq_num = ns } ∷ []),
          length-append sent (m ∷ []),
          h.loose.once i,
        );
      };
      blocked = h.blocked;
    }

    -- A packet of another channel is sent.
    pub send_other-IsFifo :
        (k : FifoSequenced A)
        → is_on p q k ≡ false
        → IsFifo p q ns nr buffer flight sent delivered
        → IsFifo p q ns nr buffer (flight ++ k ∷ []) sent delivered
    send_other-IsFifo k off h = record {
      loose = record {
        numbered = h.loose.numbered;
        so_far = h.loose.so_far;
        within = h.loose.within;
        buffered = h.loose.buffered;
        sorted = h.loose.sorted;
        flying = All-append _ flight _ h.loose.flying (λ on. cc, tt);
        once = λ i. rw (on_way-append p q i flight (k ∷ [])) (ground (arith, h.loose.once i));
      };
      blocked = h.blocked;
    }

  on_way-middle :
      (p q i : ℕ) (xs : List (FifoSequenced A)) (k : FifoSequenced A) (ys : List (FifoSequenced A))
      → on_way p q i (xs ++ k ∷ ys)
        ≡ (if is_on p q k && k.seq_num == i then 1 else 0) + on_way p q i (xs ++ ys)
  on_way-middle p q i [] k ys = refl
  on_way-middle p q i (x ∷ xs) k ys = omega (arith, on_way-middle p q i xs k ys)

  module _ {p q ns nr : ℕ} {buffer : List (FifoInfo A)} {sent delivered : List (Message A)}
      (xs : List (FifoSequenced A)) (k : FifoSequenced A) (ys : List (FifoSequenced A)) where
    -- A packet of another channel arrives.
    pub arrive_other-IsFifo :
        is_on p q k ≡ false
        → IsFifo p q ns nr buffer (xs ++ k ∷ ys) sent delivered
        → IsFifo p q ns nr buffer (xs ++ ys) sent delivered
    arrive_other-IsFifo off h = record {
      loose = record {
        numbered = h.loose.numbered;
        so_far = h.loose.so_far;
        within = h.loose.within;
        buffered = h.loose.buffered;
        sorted = h.loose.sorted;
        flying = (All-middle _ xs k ys h.loose.flying).1;
        once = λ i. ground (arith, on_way-middle p q i xs k ys, h.loose.once i);
      };
      blocked = h.blocked;
    }

    pub enqueue-IsLoose :
        (x : FifoInfo A)
        → x.seq_num ≡ k.seq_num
        → x.msg ≡ k.m
        → is_on p q k ≡ true
        → IsFifo p q ns nr buffer (xs ++ k ∷ ys) sent delivered
        → IsLoose p q ns nr (enqueue x buffer) (xs ++ ys) sent delivered
    enqueue-IsLoose x number same on h =
        let (here, rest) = All-middle _ xs k ys h.loose.flying in
        record {
          numbered = h.loose.numbered;
          so_far = h.loose.so_far;
          within = h.loose.within;
          flying = rest;
          buffered = All-enqueue _ x buffer (rw (number, same) (here on)) h.loose.buffered;
          sorted = enqueue-IsSorted x buffer h.loose.sorted;
          once = λ i.
              ground
                (arith, on_way-middle p q i xs k ys, has_number-enqueue i x buffer, h.loose.once i);
        }

  -- The receiver's loop.
  pub deliver_pending-IsFifo :
      {p q ns nr : ℕ} {buffer : List (FifoInfo A)} {flight : List (FifoSequenced A)}
      {sent delivered : List (Message A)}
      → IsLoose p q ns nr buffer flight sent delivered
      → IsFifo p q ns
          (deliver_pending buffer nr).2
          (deliver_pending buffer nr).1
          flight
          sent
          (delivered ++ (deliver_pending buffer nr).0)
  deliver_pending-IsFifo {p} {q} {nr = nr} {buffer} {flight} {sent} h =
      let (more, up, within, kept, sorted, stopped) =
        deliver_pending_lem buffer nr sent h.buffered h.sorted h.within in
      record {
        loose = record {
          numbered = h.numbered;
          so_far = rw h.so_far (sym more);
          within = within;
          flying = h.flying;
          buffered = kept;
          sorted = sorted;
          once = λ i. ground (arith, has_number-deliver_pending buffer nr i, h.once i);
        };
        blocked = stopped;
      }

  -- The same channel, its six parts given otherwise.
  pub IsFifo-cast :
      {p q ns nr ns' nr' : ℕ} {buffer buffer' : List (FifoInfo A)}
      {flight flight' : List (FifoSequenced A)} {sent delivered sent' delivered' : List (Message A)}
      → ns' ≡ ns
      → nr' ≡ nr
      → buffer' ≡ buffer
      → flight' ≡ flight
      → sent' ≡ sent
      → delivered' ≡ delivered
      → IsFifo p q ns nr buffer flight sent delivered
      → IsFifo p q ns' nr' buffer' flight' sent' delivered'
  IsFifo-cast a b c d e f h = rw (a, b, c, d, e, f) h
