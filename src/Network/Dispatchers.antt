-- ===== src/Network/Dispatchers.antt =====
-- Dispatcher.scala: which protocols of a process an event is handed to, by its class. A protocol is a
-- number, and `protocolsForMessage`, a map with `Nil` as its default, is a function.
pub mod Registered
use scala_neko.Base.{
  ℕ, ◌+◌, ◌≤◌, ◌≡◌, refl, ap, ◌∙◌, sym, Bool, true, false, not, ◌&&◌, ◌||◌, List, [], ◌∷◌, ◌==◌,
  ==_iff, map, update, if◌then◌else◌, Bool-cases, inl, inr, arith,
}
use scala_neko.Base.Counts.{one, occurs}
use scala_neko.Topology.Sets.{elem, keep}

abbrev pub Dispatcher : Type 0
Dispatcher = ℕ → List ℕ

pub data Receiver : Type 0 where
  protocol : ℕ → Receiver
  orphan_event_handler : Receiver

abbrev pub empty : Dispatcher
empty = λ clazz. []

unfoldable pub register_for : ℕ → ℕ → Dispatcher → Dispatcher
register_for clazz proto d = if elem proto (d clazz) then d else update d clazz (proto ∷ d clazz)

unfoldable pub unregister_for : ℕ → ℕ → Dispatcher → Dispatcher
unregister_for clazz proto d =
    if elem proto (d clazz) then update d clazz (keep (λ p. not (p == proto)) (d clazz)) else d

unfoldable pub unregister_all_for : ℕ → Dispatcher → Dispatcher
unregister_all_for clazz d = update d clazz []

abbrev pub or_orphan : List ℕ → List Receiver
or_orphan [] = orphan_event_handler ∷ []
or_orphan (p ∷ ps) = protocol p ∷ map protocol ps

-- The receivers that `deliver` calls, in this order.
unfoldable pub protocols_for : ℕ → Dispatcher → List Receiver
protocols_for clazz d = or_orphan (d clazz)

pub data Operation : Type 0 where
  registers unregisters : ℕ → ℕ → Operation
  unregisters_all : ℕ → Operation

abbrev pub perform : Operation → Dispatcher → Dispatcher
perform (registers clazz proto) d = register_for clazz proto d
perform (unregisters clazz proto) d = unregister_for clazz proto d
perform (unregisters_all clazz) d = unregister_all_for clazz d

-- A dispatcher after some operations, the last one first.
unfoldable pub after : List Operation → Dispatcher
after [] = empty
after (o ∷ os) = perform o (after os)

-- Whether the last operation about a protocol and a class leaves it registered.
unfoldable pub is_listening : List Operation → ℕ → ℕ → Bool
is_listening [] clazz proto = false
is_listening (registers c p ∷ os) clazz proto =
    c == clazz && p == proto || is_listening os clazz proto
is_listening (unregisters c p ∷ os) clazz proto =
    not (c == clazz && p == proto) && is_listening os clazz proto
is_listening (unregisters_all c ∷ os) clazz proto = not (c == clazz) && is_listening os clazz proto

-- How often a receiver of a list is a protocol, and how often it is the handler of orphans.
unfoldable pub calls : ℕ → List Receiver → ℕ
calls proto [] = 0
calls proto (protocol p ∷ rs) = calls proto rs + one (p == proto)
calls proto (orphan_event_handler ∷ rs) = calls proto rs

unfoldable pub orphans : List Receiver → ℕ
orphans [] = 0
orphans (protocol p ∷ rs) = orphans rs
orphans (orphan_event_handler ∷ rs) = orphans rs + 1
