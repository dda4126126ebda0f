-- ===== src/Network/Events.antt =====
-- Event.scala: signals and the kinds of messages. The class of an event is a number, and what a
-- subclass adds is left out.
use scala_neko.Base.{ℕ, Bool, true, false, List, [], ◌∷◌}

-- `Wrapper(m)` has a class of its own and the rest of `m`.
pub data Message : Type 0 where
  unicast : (kind from to : ℕ) → Message
  multicast : (kind from : ℕ) → List ℕ → Message
  broadcast : (kind from : ℕ) → Message
  wrapper : ℕ → Message → Message

pub data Event : Type 0 where
  signal : ℕ → Event
  message : Message → Event

-- `ev.getClass`
abbrev pub class_of : Event → ℕ
class_of (signal kind) = kind
class_of (message (unicast kind from to)) = kind
class_of (message (multicast kind from to)) = kind
class_of (message (broadcast kind from)) = kind
class_of (message (wrapper kind m)) = kind

abbrev pub sender_of : Message → ℕ
sender_of (unicast kind from to) = from
sender_of (multicast kind from to) = from
sender_of (broadcast kind from) = from
sender_of (wrapper kind m) = sender_of m

abbrev pub destinations : Message → List ℕ
destinations (unicast kind from to) = to ∷ []
destinations (multicast kind from to) = to
destinations (broadcast kind from) = []
destinations (wrapper kind m) = destinations m

-- `isInstanceOf[BroadcastMessage]`
abbrev pub is_broadcast : Message → Bool
is_broadcast (broadcast kind from) = true
is_broadcast (unicast kind from to) = false
is_broadcast (multicast kind from to) = false
is_broadcast (wrapper kind m) = false
