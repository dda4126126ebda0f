-- ===== src/Active.antt =====
-- ActiveProtocol.scala and StashedReceive.scala: the queue of an active process and the events that
-- it stashes. The count of the pending messages is the length of the queue; time is left out.
pub mod Stash
mod Samples
use scala_neko.Base.{Bool, true, false, not, Option, none, some, List, [], ◌∷◌, ◌++◌, if◌then◌else◌}

pub record ActiveProtocol {ℓ} (E : Type ℓ) : Type ℓ where
  pub blocking_queue : List E
  pub stash : List E

-- `Receive` on a queue: the event that is handled, or that the process waits.
pub data Outcome {ℓ} (E : Type ℓ) : Type ℓ where
  handled : E → ActiveProtocol E → Outcome E
  waiting : ActiveProtocol E → Outcome E

module _ {ℓ} {E : Type ℓ} where
  -- `deliver`: what `onReceive` is defined for is handled at once, and else the event is queued.
  unfoldable pub deliver : (E → Bool) → E → ActiveProtocol E → ActiveProtocol E × Option E
  deliver on_receive e s =
      if on_receive e
      then (s, some e)
      else (record s { blocking_queue = s.blocking_queue ++ e ∷ [] }, none)

  -- `_stash.find(pf.isDefinedAt)`
  unfoldable pub find : (E → Bool) → List E → Option E
  find defined [] = none
  find defined (m ∷ ms) = let rest = find defined ms in if defined m then some m else rest

  -- `_stash.filterNot(_ == m)`, where `eq` is the equality of events.
  unfoldable pub filter_not : (E → E → Bool) → E → List E → List E
  filter_not eq m [] = []
  filter_not eq m (x ∷ xs) = let rest = filter_not eq m xs in if eq x m then rest else x ∷ rest

  -- The loop that receives until the function is defined; it waits when the queue is empty.
  unfoldable pub receive_loop : (E → Bool) → List E → List E → Outcome E
  receive_loop defined stash [] = waiting (record { blocking_queue = []; stash = stash })
  receive_loop defined stash (m ∷ queue) =
      let rest = receive_loop defined (stash ++ m ∷ []) queue in
      if defined m then handled m (record { blocking_queue = queue; stash = stash }) else rest

  unfoldable pub receive_or_stash : (E → E → Bool) → (E → Bool) → ActiveProtocol E → Outcome E
  receive_or_stash eq defined s = elim (find defined s.stash) [
    | none ↦ receive_loop defined s.stash s.blocking_queue
    | some m ↦ handled m (record s { stash = filter_not eq m s.stash })
  ]
