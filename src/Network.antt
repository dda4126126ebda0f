-- ===== src/Network.antt =====
-- Network.scala and NekoProcess.scala: how an event passes from a process through the network to the
-- protocols of others. A message that a protocol gets is an entry of a list.
pub mod Events
pub mod Dispatchers
pub mod Deliveries
mod Samples
use scala_neko.Base.{
  ℕ, Bool, true, false, not, ◌&&◌, ◌||◌, Option, none, some, List, [], ◌∷◌, ◌++◌, ◌==◌,
  if◌then◌else◌,
}
use scala_neko.Topology.{Topology, or_empty}
use scala_neko.Topology.Sets.{elem, keep}
use scala_neko.Network.Events.{
  Message, Event, signal, message, class_of, sender_of, destinations, is_broadcast,
}
use scala_neko.Network.Dispatchers.{Dispatcher, Receiver, protocols_for}

-- The network interfaces of a process, each of which may have been told to drop messages, and its
-- dispatcher.
pub record NekoProcess : Type 0 where
  pub dispatcher : Dispatcher
  pub sender_drops : Bool
  pub receiver_drops : Bool

-- `receivers` leads from the processes to their network interfaces.
pub record AbstractNetwork : Type 0 where
  pub topology : Topology
  pub receivers : ℕ → Option NekoProcess

-- What is handed to whom at a process.
pub record Delivery : Type 0 where
  pub process : ℕ
  pub receiver : Receiver
  pub event : Event

unfoldable pub deliver_each : ℕ → Event → List Receiver → List Delivery
deliver_each dest e [] = []
deliver_each dest e (r ∷ rs) =
    record { process = dest; receiver = r; event = e } ∷ deliver_each dest e rs

-- `NekoProcess.Receiver.deliver`
abbrev pub deliver : ℕ → Event → Option NekoProcess → List Delivery
deliver dest e none = []
deliver dest e (some p) =
    if not p.receiver_drops
    then deliver_each dest e (protocols_for (class_of e) p.dispatcher)
    else []

unfoldable pub send_to : AbstractNetwork → ℕ → Message → List Delivery
send_to net dest m =
    if elem dest (destinations m) || is_broadcast m
    then deliver dest (message m) (net.receivers dest)
    else []

unfoldable pub send_each : AbstractNetwork → Message → List ℕ → List Delivery
send_each net m [] = []
send_each net m (dest ∷ dests) = send_to net dest m ++ send_each net m dests

unfoldable pub send : AbstractNetwork → Event → List Delivery
send net (signal kind) = []
send net (message m) =
    if is_broadcast m
    then send_each net m (
        keep (λ dest. not (dest == sender_of m))
          (or_empty (net.topology.neighbors_for (sender_of m))))
    else send_each net m (destinations m)

-- `NekoProcess.Sender.send`
unfoldable pub process_send : AbstractNetwork → NekoProcess → Event → List Delivery
process_send net p e = if not p.sender_drops then send net e else []
