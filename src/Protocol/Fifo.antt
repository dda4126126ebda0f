-- ===== src/Protocol/Fifo.antt =====
-- FIFOChannel.scala: the state of one process and its two handlers. An array indexed by process
-- identifiers is a function of them; counters are numbers without the bound 2 ^ 63 of `Long`.
pub mod Channel
pub mod Invariant
pub mod Network
pub mod Order
mod Samples
use scala_neko.Base.{ℕ, ◌+◌, Bool, List, [], ◌∷◌, ◌==◌, ltb, if◌then◌else◌, ◌&&◌, ◌||◌, update}
use scala_neko.Protocol.Message.{Message, Request, signal, message}

pub record FifoInfo {ℓ} (A : Type ℓ) : Type ℓ where
  pub from : ℕ
  pub seq_num : ℕ
  pub msg : Message A

pub record FifoSequenced {ℓ} (A : Type ℓ) : Type ℓ where
  pub m : Message A
  pub to : ℕ
  pub seq_num : ℕ

pub record FifoChannel {ℓ} (A : Type ℓ) : Type ℓ where
  pub next_send_to : ℕ → ℕ
  pub next_receive_from : ℕ → ℕ
  pub message_buffer : ℕ → List (FifoInfo A)

-- What this layer sends on.
pub data Sent {ℓ} (A : Type ℓ) : Type ℓ where
  signal_on : ℕ → Sent A
  packet : FifoSequenced A → Sent A

module _ {ℓ} {A : Type ℓ} where
  pub new : FifoChannel A
  new = record { next_send_to = λ _. 0; next_receive_from = λ _. 0; message_buffer = λ _. [] }

  -- `m.destinations foreach { … }`
  pub send_each : Message A → List ℕ → FifoChannel A → FifoChannel A × List (FifoSequenced A)
  send_each m [] c = (c, [])
  send_each m (dest ∷ ds) c =
      let sn = c.next_send_to dest in
      let (c', sent) =
        send_each m ds (record c { next_send_to = update c.next_send_to dest (sn + 1) }) in
      (c', record { m = m; to = dest; seq_num = sn } ∷ sent)

  pub packets : List (FifoSequenced A) → List (Sent A)
  packets [] = []
  packets (p ∷ ps) = packet p ∷ packets ps

  pub on_send : Request A → FifoChannel A → FifoChannel A × List (Sent A)
  on_send (signal ie) c = (c, signal_on ie ∷ [])
  on_send (message m) c = let (c', sent) = send_each m m.destinations c in (c', packets sent)

  -- `FIFOOrdering` is on (-seqNum, from), and the head of the queue is its greatest element.
  pub comes_first : FifoInfo A → FifoInfo A → Bool
  comes_first i j = ltb i.seq_num j.seq_num || (i.seq_num == j.seq_num && ltb j.from i.from)

  -- The priority queue, as the list of its elements in the order in which it gives them.
  pub enqueue : FifoInfo A → List (FifoInfo A) → List (FifoInfo A)
  enqueue i [] = i ∷ []
  enqueue i (j ∷ buffer) = if comes_first i j then i ∷ j ∷ buffer else j ∷ enqueue i buffer

  -- The `while` loop: what it delivers, the buffer and the number that it leaves.
  pub deliver_pending : List (FifoInfo A) → ℕ → List (Message A) × List (FifoInfo A) × ℕ
  deliver_pending [] next = ([], [], next)
  deliver_pending (i ∷ buffer) next =
      let (delivered, rest, next') = deliver_pending buffer (next + 1) in
      if i.seq_num == next then (i.msg ∷ delivered, rest, next') else ([], i ∷ buffer, next)

  pub on_receive : FifoSequenced A → FifoChannel A → FifoChannel A × List (Message A)
  on_receive p c =
      let from = p.m.from in
      let buffer =
        enqueue (record { from = from; seq_num = p.seq_num; msg = p.m }) (c.message_buffer from) in
      let (delivered, rest, next) = deliver_pending buffer (c.next_receive_from from) in
      (
        record c {
          next_receive_from = update c.next_receive_from from next;
          message_buffer = update c.message_buffer from rest;
        },
        delivered,
      )
