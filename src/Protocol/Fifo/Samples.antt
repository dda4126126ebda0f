-- ===== src/Protocol/Fifo/Samples.antt =====
-- Two messages that overtake each other on the network, and the theorems there.
use scala_neko.Base.{ℕ, ◌≡◌, refl, List, [], ◌∷◌, ◌++◌}
use scala_neko.Protocol.Message.{Message, signal}
use scala_neko.Protocol.Fifo.{
  FifoSequenced, new, signal_on, send_each, packets, on_send, on_receive, comes_first, enqueue,
  deliver_pending,
}
use scala_neko.Protocol.Fifo.Network.{
  World, start, carried, sent_to, submit, arrive, sends, arrives, Reach, here, next,
}
use scala_neko.Protocol.Fifo.Order.{delivered-prefix-sent, delivers_all}

program : Unit {0}
unfolding new send_each packets on_send on_receive comes_first enqueue deliver_pending carried
    sent_to submit arrive
program = tt

-- Process 0 sends the first to 1 and 2, and the second to 1.
abbrev first : Message ℕ
first = record { from = 0; destinations = 1 ∷ 2 ∷ []; content = 10 }

abbrev second : Message ℕ
second = record { from = 0; destinations = 1 ∷ []; content = 20 }

abbrev both_sent : World ℕ
both_sent = submit 0 second (submit 0 first start)

abbrev first_to_1 : FifoSequenced ℕ
first_to_1 = record { m = first; to = 1; seq_num = 0 }

abbrev first_to_2 : FifoSequenced ℕ
first_to_2 = record { m = first; to = 2; seq_num = 0 }

abbrev second_to_1 : FifoSequenced ℕ
second_to_1 = record { m = second; to = 1; seq_num = 1 }

in_flight-both_sent : both_sent.in_flight ≡ first_to_1 ∷ first_to_2 ∷ second_to_1 ∷ []
unfolding program
in_flight-both_sent = refl

-- The second arrives before the first, and waits.
abbrev overtaken : World ℕ
overtaken = arrive second_to_1 (first_to_1 ∷ first_to_2 ∷ []) both_sent

abbrev settled : World ℕ
settled = arrive first_to_1 (first_to_2 ∷ []) overtaken

delivered-overtaken : overtaken.delivered 0 1 ≡ []
unfolding program
delivered-overtaken = refl

delivered-settled : settled.delivered 0 1 ≡ first ∷ second ∷ []
unfolding program
delivered-settled = refl

-- Signals pass through.
on_send_signal : on_send {A = ℕ} (signal 7) new ≡ (new, signal_on 7 ∷ [])
unfolding program
on_send_signal = refl

overtaken-Reach : Reach start overtaken
unfolding in_flight-both_sent
overtaken-Reach =
    next (next (next here (sends first refl)) (sends second refl))
      (arrives (first_to_1 ∷ first_to_2 ∷ []) second_to_1 [] in_flight-both_sent refl)

settled-Reach : Reach start settled
unfolding program
settled-Reach = next overtaken-Reach (arrives [] first_to_1 (first_to_2 ∷ []) refl refl)

delivered-prefix-sent_example :
    (rest : List (Message ℕ)) × (overtaken.sent 0 1 ≡ overtaken.delivered 0 1 ++ rest)
delivered-prefix-sent_example = delivered-prefix-sent 0 1 overtaken-Reach

delivers_all_example :
    (v : World ℕ) × Reach overtaken v × ((p q : ℕ) → v.delivered p q ≡ overtaken.sent p q)
delivers_all_example = delivers_all overtaken-Reach
