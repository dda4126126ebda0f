-- ===== src/Protocol/LamportClock/Samples.antt =====
-- Process 0 sends to process 1, which has had an event of its own.
use scala_neko.Base.{ℕ, ◌≡◌, ◌<◌, refl, [], ◌∷◌, inr}
use scala_neko.Protocol.Message.{Message}
use scala_neko.Protocol.LogicalClock.{
  internal, sent, received, Event, World, start, happens, acts, sends, act, send, receive, Reach,
  here, next,
}
use scala_neko.Protocol.LogicalClock.Invariant.{HappensBefore, direct}
use scala_neko.Protocol.LamportClock.{
  LcTimeStamped, update_clock, next_time, receive_time, on_send, on_receive, lamport,
  HappensBefore-lt,
}

program : Unit {0}
unfolding update_clock next_time receive_time on_send on_receive
program = tt

abbrev before_receipt : World lamport
before_receipt = sends lamport (acts lamport (start lamport) 1) 0

abbrev after_receipt : World lamport
after_receipt = happens lamport before_receipt 1 (received 0) 2

after-Reach : Reach lamport (start lamport) after_receipt
unfolding program
after-Reach =
    next (next (next here (act 1 tt refl)) (send 0 tt refl))
      (receive 1 0 1 2 [] [] tt refl refl refl)

abbrev sending : Event lamport
sending = record { process = 0; kind = sent 0; stamp = 1 }

abbrev receipt : Event lamport
receipt = record { process = 1; kind = received 0; stamp = 2 }

sending-receipt : HappensBefore lamport after_receipt.log sending receipt
unfolding program
sending-receipt =
    direct [] [] (record { process = 1; kind = internal; stamp = 1 } ∷ []) refl
      (inr (0, refl, refl))

HappensBefore-lt_example : ◌<◌ 1 2
HappensBefore-lt_example = HappensBefore-lt {e = sending} {f = receipt} after-Reach sending-receipt

abbrev hello : Message ℕ
hello = record { from = 0; destinations = 1 ∷ []; content = 5 }

abbrev late : LcTimeStamped ℕ
late = record { m = hello; ts = 9 }

on_receive-late : on_receive late 3 ≡ (10, hello)
unfolding program
on_receive-late = refl
