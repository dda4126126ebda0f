-- ===== src/Network/Samples.antt =====
-- A network of three processes in a star, and the theorems on it.
use scala_neko.Base.{
  ℕ, ◌≡◌, ◌↔◌, refl, false, not, ◌&&◌, none, some, List, [], ◌∷◌, ◌==◌, ltb, if◌then◌else◌,
  Bool-cases, inl, inr, arith, sym, ap, some_inv, none-some,
}
use scala_neko.Base.Counts.{one, occurs}
use scala_neko.Topology.{Topology}
use scala_neko.Topology.Sets.{elem, keep}
use scala_neko.Network.Events.{Message, broadcast, wrapper, message, class_of}
use scala_neko.Network.Dispatchers.{
  protocol, orphan_event_handler, register_for, unregister_for, unregister_all_for, protocols_for,
  Operation, registers, unregisters, after, is_listening, calls, orphans,
}
use scala_neko.Network.Dispatchers.Registered.{protocols_for-after}
use scala_neko.Network.{
  NekoProcess, AbstractNetwork, deliver_each, send_to, send_each, send, process_send,
}
use scala_neko.Network.Deliveries.{handled, is_destination, gets, HasSets, handled-process_send}

program : Unit {0}
unfolding occurs elem keep register_for unregister_for unregister_all_for protocols_for after
    is_listening calls orphans deliver_each send_to send_each send process_send handled
program = tt

-- Protocol 4 comes and goes; protocol 5 stays.
abbrev operations : List Operation
operations = unregisters 7 4 ∷ registers 7 5 ∷ registers 7 4 ∷ []

protocols_for-operations : protocols_for 7 (after operations) ≡ protocol 5 ∷ []
unfolding program
protocols_for-operations = refl

protocols_for-orphan : protocols_for 8 (after operations) ≡ orphan_event_handler ∷ []
unfolding program
protocols_for-orphan = refl

protocols_for-after_example :
    ((proto : ℕ)
      → calls proto (protocols_for 7 (after operations)) ≡ one (is_listening operations 7 proto))
    × ((orphans (protocols_for 7 (after operations)) ≡ 1)
        ↔ ((proto : ℕ) → is_listening operations 7 proto ≡ false))
protocols_for-after_example = protocols_for-after operations 7

abbrev process : NekoProcess
process = record { dispatcher = after operations; sender_drops = false; receiver_drops = false }

abbrev star : Topology
star = record {
  process_set = 0 ∷ 1 ∷ 2 ∷ [];
  neighbors_for = λ p. if p == 0 then some (1 ∷ 2 ∷ []) else some (0 ∷ []);
  contains = λ p. ltb p 3;
}

abbrev network : AbstractNetwork
network = record { topology = star; receivers = λ q. if ltb q 3 then some process else none }

abbrev history : ℕ → List Operation
history q = operations

abbrev hello : Message
hello = broadcast 7 0

hello-HasSets : HasSets network history hello
unfolding program
hello-HasSets = record {
  neighbors =
      λ p q. elim (Bool-cases (p == 0)) [ inl e ↦ rw e ground arith | inr e ↦ rw e ground arith ];
  targets = λ q. omega arith;
  dispatchers = λ q p h. elim (Bool-cases (ltb q 3)) [
    | inl e ↦
        let same : some process ≡ some p = rw e at h in
        sym (ap (λ (n : NekoProcess). n.dispatcher) (some_inv process p same))
    | inr e ↦ absurd (none-some p (rw e at h))
  ];
}

handled-hello : handled 2 5 (process_send network process (message hello)) ≡ 1
unfolding program
handled-hello = refl

-- A wrapper of a broadcast is for nobody.
send-wrapped : send network (message (wrapper 9 hello)) ≡ []
unfolding program
send-wrapped = refl

handled-process_send_example :
    handled 2 5 (process_send network process (message hello))
    ≡ one (
        not process.sender_drops
        && (is_destination star hello 2 && gets network history 2 (class_of (message hello)) 5))
handled-process_send_example = handled-process_send network history hello hello-HasSets 2 5 process
