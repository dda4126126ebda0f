-- ===== src/Protocol/ArbitraryTopology/Samples.antt =====
-- A process that passes a message on in a graph in which it has one neighbour, and the theorem on it.
use scala_neko.Base.{
  ℕ, ◌≡◌, refl, false, ◌&&◌, none, some, List, [], ◌∷◌, ltb, if◌then◌else◌, sym, ap, some_inv,
  arith,
}
use scala_neko.Base.Counts.{occurs}
use scala_neko.Topology.Sets.{elem, keep, intersect}
use scala_neko.Network.Events.{Message, multicast, broadcast, message, destinations}
use scala_neko.Network.Dispatchers.{
  register_for, protocols_for, Operation, registers, after, is_listening,
}
use scala_neko.Network.{NekoProcess, AbstractNetwork, deliver_each, send_to, send_each, send}
use scala_neko.Network.Deliveries.{handled, gets, HasSets}
use scala_neko.Protocol.ArbitraryTopology.{
  Action, on_send, on_receive, arriving, received, transmitted, delivered, on_send-transmitted,
}

program : Unit {0}
unfolding occurs elem keep intersect register_for protocols_for after is_listening deliver_each
    send_to send_each send handled on_send on_receive arriving received transmitted delivered
program = tt

-- Each process has the protocol 1, which listens to shells, of the class 6.
abbrev operations : ℕ → List Operation
operations q = registers 6 1 ∷ []

abbrev process : NekoProcess
process = record {
  dispatcher = after (registers 6 1 ∷ []);
  sender_drops = false;
  receiver_drops = false;
}

abbrev network : AbstractNetwork
network = record {
  topology = record {
    process_set = 0 ∷ 1 ∷ 2 ∷ [];
    neighbors_for = λ p. none;
    contains = λ p. ltb p 3;
  };
  receivers = λ q.
      some (record {
        dispatcher = after (operations q);
        sender_drops = false;
        receiver_drops = false;
      });
}

abbrev notice : Message
notice = multicast 8 0 (0 ∷ 1 ∷ 2 ∷ [])

notice-HasSets : HasSets network operations notice
unfolding program
notice-HasSets = record {
  neighbors = λ p q. omega arith;
  targets = λ q. ground arith;
  dispatchers = λ q p h. sym (ap (λ (n : NekoProcess). n.dispatcher) (some_inv process p h));
}

abbrev actions : List Action
actions = on_send 0 (1 ∷ []) (message notice)

received-actions : received 1 1 (transmitted network 6 actions) ≡ notice ∷ []
unfolding program
received-actions = refl

received-apart : received 2 1 (transmitted network 6 actions) ≡ []
unfolding program
received-apart = refl

-- A broadcast arrives nowhere.
received-broadcast :
    received 1 1 (transmitted network 6 (on_send 0 (1 ∷ []) (message (broadcast 8 0)))) ≡ []
unfolding program
received-broadcast = refl

on_send-transmitted_example :
    (received 1 1 (transmitted network 6 actions) ≡ (
      if (elem 1 (destinations notice) && elem 1 (1 ∷ [])) && gets network operations 1 6 1
      then notice ∷ []
      else []))
    × (delivered actions ≡ (if elem 0 (destinations notice) then notice ∷ [] else []))
on_send-transmitted_example =
    on_send-transmitted network operations 6 0 (1 ∷ []) notice 1 1 notice-HasSets
