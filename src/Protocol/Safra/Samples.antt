-- ===== src/Protocol/Safra/Samples.antt =====
-- Two processes; the first sends a message to the second, and both become passive.
use scala_neko.Base.{ℕ, zero, suc, ◌≡◌, ◌≢◌, ◌⊎◌, refl, [], ◌∷◌, arith}
use scala_neko.Base.Int.{pos, negsuc, ◌+ℤ◌}
use scala_neko.Protocol.Message.{Message}
use scala_neko.Protocol.Safra.{
  black, white, become_passive, message, payload, new, next_process, transmit_token, on_send,
  on_token, on_receive,
}
use scala_neko.Protocol.Safra.Network.{
  World, start, all, copies, put_all, settle, submit, arrive, sends, payload_arrives, Reach, here,
  next,
}
use scala_neko.Protocol.Safra.Invariant.{AllPassive}
use scala_neko.Protocol.Safra.Detection.{Reach-announced}
use scala_neko.Protocol.Safra.Hops.{hop, hops}
use scala_neko.Protocol.Safra.Liveness.{Reach-finds}

program : Unit {0}
unfolding new next_process transmit_token on_send on_token on_receive all copies put_all settle hop
    hops ◌+ℤ◌
program = tt

abbrev hello : Message ℕ
hello = record { from = 0; destinations = 1 ∷ []; content = 7 }

abbrev sent : World ℕ
sent = submit 2 0 (message hello) start

abbrev first_passive : World ℕ
first_passive = submit 2 0 become_passive sent

abbrev received : World ℕ
received = arrive 2 1 (payload hello) (record first_passive { payloads = [] })

abbrev finished : World ℕ
finished = submit 2 1 become_passive received

counts : (finished.procs 0).msg_count ≡ pos 1
unfolding program
counts = refl

minus_one : (finished.procs 1).msg_count ≡ negsuc 0
unfolding program
minus_one = refl

travels :
    finished.holders
    ≡ record { from = 0; to = 1; token = record { color = white; count = pos 0 } } ∷ []
unfolding program
travels = refl

-- The second process was black.
second_hop :
    (hop 2 finished).holders
    ≡ record { from = 1; to = 0; token = record { color = black; count = negsuc 0 } } ∷ []
unfolding program
second_hop = refl

announced : (hops 2 4 finished).announcements ≡ 1 ∷ 0 ∷ []
unfolding program
announced = refl

Reach-finished : Reach 2 finished
unfolding program
Reach-finished =
    next received finished
      (next first_passive received
        (next sent first_passive
          (next start sent here (sends start 0 (message hello) (omega arith) (omega arith, tt)))
          (sends sent 0 become_passive (omega arith) tt))
        (payload_arrives first_passive [] [] 1 hello refl))
      (sends received 1 become_passive (omega arith) tt)

finished-AllPassive : AllPassive 2 finished.procs
unfolding program
finished-AllPassive zero h = refl
finished-AllPassive (suc zero) h = refl
finished-AllPassive (suc (suc i)) h = absurd (omega arith)

Reach-finds_example :
    Reach 2 (hops 2 6 finished)
    × (((hops 2 6 finished).announcements ≢ []) ⊎ ((hops 2 6 finished).told ≢ []))
unfolding program
Reach-finds_example = Reach-finds 2 finished (omega arith) Reach-finished finished-AllPassive refl

Reach-announced_example :
    AllPassive 2 (hops 2 6 finished).procs × ((hops 2 6 finished).payloads ≡ [])
Reach-announced_example =
    Reach-announced 2 (hops 2 6 finished) (omega arith) Reach-finds_example.0 Reach-finds_example.1
