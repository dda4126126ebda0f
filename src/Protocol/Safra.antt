-- ===== src/Protocol/Safra.antt =====
-- SafraTerminationDetection.scala: the state of one process and its two handlers. The count of
-- messages, of type Int in the source, is an integer without bounds.
pub mod Network
pub mod Counts
pub mod Probe
pub mod Changes
pub mod Invariant
pub mod Soundness
pub mod Requests
pub mod Arrivals
pub mod Detection
pub mod Hops
pub mod Liveness
mod Samples
use Prim.Native.Nat.{◌%◌}
use scala_neko.Base.{
  ℕ, ◌+◌, ◌-◌, Bool, true, false, ◌&&◌, Option, none, some, List, [], ◌∷◌, ◌==◌, length,
  if◌then◌else◌,
}
use scala_neko.Base.Int.{ℤ, pos, negsuc, ◌+ℤ◌, is_zero}
use scala_neko.Protocol.Message.{Message}

pub data StateColor : Type 0 where
  black white : StateColor

pub data State : Type 0 where
  active passive : State

pub record Token : Type 0 where
  pub color : StateColor
  pub count : ℤ

pub record TokenHolder : Type 0 where
  pub from : ℕ
  pub to : ℕ
  pub token : Token

pub record Safra : Type 0 where
  pub msg_count : ℤ
  pub state : State
  pub color : StateColor
  pub token : Option Token

-- What the layer above sends; signals other than the two named ones are told apart by numbers.
pub data Request {ℓ} (A : Type ℓ) : Type ℓ where
  initiate become_passive : Request A
  signal : ℕ → Request A
  message : Message A → Request A

-- What comes from the network.
pub data Packet {ℓ} (A : Type ℓ) : Type ℓ where
  announce : Packet A
  payload : Message A → Packet A
  token_holder : TokenHolder → Packet A

-- What a handler sends on, and what it gives to the layer above.
pub data Output {ℓ} (A : Type ℓ) : Type ℓ where
  send_signal : ℕ → Output A
  send_payload : Message A → Output A
  send_holder : TokenHolder → Output A
  send_announce : Output A
  deliver_terminate : Output A
  deliver : Message A → Output A

pub data Result {ℓ} (A : Type ℓ) : Type ℓ where
  threw : Result A
  did : Safra → List (Output A) → Result A

abbrev pub initiator : ℕ
initiator = 0

abbrev pub initial_token : Token
initial_token = record { color = white; count = pos 0 }

unfoldable pub new : ℕ → Safra
new me = record {
  msg_count = pos 0;
  state = active;
  color = white;
  token = if me == initiator then some initial_token else none;
}

unfoldable pub next_process : ℕ → ℕ → ℕ
next_process n me = (me + n - 1) % n

abbrev pub is_white : StateColor → Bool
is_white white = true
is_white black = false

abbrev pub is_passive : State → Bool
is_passive passive = true
is_passive active = false

-- The token that a process sends, by its color.
abbrev pub next_token : StateColor → ℤ → Token → Token
next_token white msg_count token = record { color = token.color; count = msg_count +ℤ token.count }
next_token black msg_count token = record { color = black; count = msg_count +ℤ token.count }

-- Whether the initiator announces, when the token comes back.
abbrev pub has_terminated : ℕ → Token → Safra → Bool
has_terminated me token s =
    is_white token.color
    && (me == initiator
        && (is_zero (s.msg_count +ℤ token.count) && (is_white s.color && is_passive s.state)))

module _ {ℓ} {A : Type ℓ} where
  -- Process `me` of `n`. The color becomes white in the two branches that do not leave it so.
  unfoldable pub transmit_token : ℕ → ℕ → Option Token → Safra → Safra × List (Output A)
  transmit_token n me none s = (record s { token = none }, [])
  transmit_token n me (some token) s =
      let to = next_process n me in
      let sent = if me == initiator then initial_token else next_token s.color s.msg_count token in
      (
        record s { color = white; token = none },
        send_holder (record { from = me; to = to; token = sent }) ∷ [],
      )

  abbrev pub done : Safra × List (Output A) → Result A
  done (s, out) = did s out

  unfoldable pub on_send : ℕ → ℕ → Request A → Safra → Result A
  on_send n me initiate s = did s []
  on_send n me become_passive s = elim s.state [
    | active ↦ done (transmit_token n me s.token (record s { state = passive }))
    | passive ↦ threw
  ]
  on_send n me (signal ie) s = elim s.state [
    | active ↦ did s (send_signal ie ∷ [])
    | passive ↦ threw
  ]
  on_send n me (message m) s = elim s.state [
    | active ↦
        did (record s { msg_count = s.msg_count +ℤ pos (length m.destinations) })
          (send_payload m ∷ [])
    | passive ↦ threw
  ]

  unfoldable pub on_token : ℕ → ℕ → Token → Safra → Safra × List (Output A)
  on_token n me token s =
      if has_terminated me token s then (s, send_announce ∷ []) else elim s.state [
        | active ↦ (record s { token = some token }, [])
        | passive ↦ transmit_token n me (some token) s
      ]

  unfoldable pub on_receive : ℕ → ℕ → Packet A → Safra → Safra × List (Output A)
  on_receive n me announce s = (s, deliver_terminate ∷ [])
  on_receive n me (payload m) s = (
    record s { color = black; state = active; msg_count = s.msg_count +ℤ negsuc 0 },
    deliver m ∷ [],
  )
  on_receive n me (token_holder holder) s = on_token n me holder.token s
