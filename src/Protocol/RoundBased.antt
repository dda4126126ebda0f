-- ===== src/Protocol/RoundBased.antt =====
-- RoundBased.scala: the state of a process with its two handlers. A set of messages is a list, as
-- every message has a destination and none is in a batch twice.
mod Counts
mod Network
mod Invariant
mod Submit
mod Receive
pub mod Rounds
pub mod Progress
mod Samples
use scala_neko.Base.{
  ℕ, ◌+◌, Bool, true, false, ◌||◌, Option, none, some, List, [], ◌∷◌, map, ◌==◌, leb, length,
  update, if◌then◌else◌,
}
use scala_neko.Protocol.Message.{Message, Request, signal, message}

pub record Round {ℓ} (A : Type ℓ) : Type ℓ where
  pub msg : Message A
  pub round : ℕ

-- What a process hands to the layer above; `messages` are the entries of the map.
pub record StartRound {ℓ} (A : Type ℓ) : Type ℓ where
  pub round : ℕ
  pub msgs : List (ℕ × Message A)

pub record RoundBased {ℓ} (A : Type ℓ) : Type ℓ where
  pub send_round : ℕ
  pub send_batch : List (Message A)
  pub recv_round : ℕ
  pub recv_stash : ℕ → List (Message A)

-- What `onSend` sends; it may throw.
pub data Sent {ℓ} (A : Type ℓ) : Type ℓ where
  signal_on : ℕ → Sent A
  round_on : Round A → Sent A

pub data Result {ℓ} (A : Type ℓ) : Type ℓ where
  threw : Result A
  did : RoundBased A → List (Sent A) → Result A

unfoldable pub is_in : ℕ → List ℕ → Bool
is_in q [] = false
is_in q (d ∷ ds) = d == q || is_in q ds

-- `intersect(...).nonEmpty`
unfoldable pub meet : List ℕ → List ℕ → Bool
meet [] ds = false
meet (q ∷ qs) ds = is_in q ds || meet qs ds

module _ {ℓ} {A : Type ℓ} where
  abbrev pub new : RoundBased A
  new = record { send_round = 0; send_batch = []; recv_round = 0; recv_stash = λ r. [] }

  -- `sendBatch.exists(...)`
  unfoldable pub overlaps : Message A → List (Message A) → Bool
  overlaps m [] = false
  overlaps m (b ∷ batch) = meet b.destinations m.destinations || overlaps m batch

  unfoldable pub batch_size : List (Message A) → ℕ
  batch_size [] = 0
  batch_size (m ∷ batch) = batch_size batch + length m.destinations

  unfoldable pub send_each : ℕ → List (Message A) → List (Sent A)
  send_each round [] = []
  send_each round (m ∷ batch) = round_on (record { msg = m; round = round }) ∷ send_each round batch

  -- The batch with the new message; `n` is the number of processes.
  abbrev pub send_all : ℕ → List (Message A) → RoundBased A → Result A
  send_all n batch s =
      if batch_size batch == n
      then did (record s { send_batch = []; send_round = s.send_round + 1 })
          (send_each s.send_round batch)
      else did (record s { send_batch = batch }) []

  unfoldable pub on_send : ℕ → Request A → RoundBased A → Result A
  on_send n (signal ie) s = did s (signal_on ie ∷ [])
  on_send n (message m) s =
      if overlaps m s.send_batch then threw else send_all n (m ∷ s.send_batch) s

  -- What the map of a round has for each sender.
  unfoldable pub message_vector : List (Message A) → List (ℕ × Message A)
  message_vector [] = []
  message_vector (m ∷ batch) = (m.from, m) ∷ message_vector batch

  abbrev pub start_next :
      ℕ → (ℕ → List (Message A)) → RoundBased A → RoundBased A × Option (StartRound A)
  start_next n stash s =
      if length (stash s.recv_round) == n
      then (
        record s { recv_stash = update stash s.recv_round []; recv_round = s.recv_round + 1 },
        some (record { round = s.recv_round + 1; msgs = message_vector (stash s.recv_round) }),
      )
      else (record s { recv_stash = stash }, none)

  unfoldable pub on_receive : ℕ → Round A → RoundBased A → RoundBased A × Option (StartRound A)
  on_receive n k s =
      if leb s.recv_round k.round
      then start_next n (update s.recv_stash k.round (k.msg ∷ s.recv_stash k.round)) s
      else (s, none)
