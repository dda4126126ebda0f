-- ===== src/Protocol/VectorClock/Samples.antt =====
-- Process 0 sends to process 1, which has had an event of its own.
use scala_neko.Base.{ℕ, ◌≡◌, refl, [], ◌∷◌, inr, some, arith}
use scala_neko.Protocol.Message.{Message, message}
use scala_neko.Protocol.LogicalClock.{
  LogicalClock, internal, sent, received, Event, World, start, happens, acts, sends, act, send,
  receive, Reach, here, next,
}
use scala_neko.Protocol.LogicalClock.Invariant.{HappensBefore, direct}
use scala_neko.Protocol.VectorClock.{
  increment, zip_with, combine, next_time, receive_time, on_send, on_receive, stamped,
}
use scala_neko.Protocol.VectorClock.Order.{IsBefore, vector, HappensBefore-IsBefore}

program : Unit {0}
unfolding increment zip_with combine next_time receive_time on_send on_receive
program = tt

abbrev pair : LogicalClock
pair = vector 2

abbrev before_receipt : World pair
before_receipt = sends pair (acts pair (start pair) 1) 0

abbrev after_receipt : World pair
after_receipt = happens pair before_receipt 1 (received 0) (1 ∷ 2 ∷ [])

abbrev hello : Message ℕ
hello = record { from = 0; destinations = 1 ∷ []; content = 5 }

on_send-hello :
    on_send 0 (message hello) (3 ∷ 4 ∷ [])
    ≡ (4 ∷ 4 ∷ [], stamped (record { m = hello; ts = 4 ∷ 4 ∷ [] }))
unfolding program
on_send-hello = refl

on_receive-hello :
    on_receive 1 (record { m = hello; ts = 4 ∷ 4 ∷ [] }) (1 ∷ 6 ∷ []) ≡ some (4 ∷ 7 ∷ [], hello)
unfolding program
on_receive-hello = refl

before-Reach : Reach pair (start pair) before_receipt
before-Reach = next (next here (act 1 (omega arith) refl)) (send 0 (omega arith) refl)

after-Reach : Reach pair (start pair) after_receipt
unfolding program
after-Reach =
    next before-Reach (receive 1 0 (1 ∷ 0 ∷ []) (1 ∷ 2 ∷ []) [] [] (omega arith) refl refl refl)

abbrev sending : Event pair
sending = record { process = 0; kind = sent 0; stamp = 1 ∷ 0 ∷ [] }

abbrev receipt : Event pair
receipt = record { process = 1; kind = received 0; stamp = 1 ∷ 2 ∷ [] }

sending-receipt : HappensBefore pair after_receipt.log sending receipt
unfolding program
sending-receipt =
    direct [] [] (record { process = 1; kind = internal; stamp = 0 ∷ 1 ∷ [] } ∷ []) refl
      (inr (0, refl, refl))

HappensBefore-IsBefore_example : IsBefore (1 ∷ 0 ∷ []) (1 ∷ 2 ∷ [])
HappensBefore-IsBefore_example =
    HappensBefore-IsBefore 2 {e = sending} {f = receipt} after-Reach sending-receipt
