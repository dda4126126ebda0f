-- ===== src/Protocol/RoundBased/Samples.antt =====
-- Two processes that broadcast in a round, and the theorems on them.
use scala_neko.Base.{ℕ, zero, suc, ◌+◌, ◌≤◌, ◌<◌, ◌≡◌, refl, Bool, [], ◌∷◌, arith}
use scala_neko.Base.Counts.{occurs}
use scala_neko.Protocol.Message.{Message, message}
use scala_neko.Protocol.RoundBased.{
  threw, new, is_in, meet, overlaps, batch_size, send_each, on_send, message_vector, on_receive,
}
use scala_neko.Protocol.RoundBased.Counts.{tally, is_from}
use scala_neko.Protocol.RoundBased.Network.{
  World, start, flights_to, flights, submit, IsAddressed, submits, Reach, here, next, packets,
}
use scala_neko.Protocol.RoundBased.Invariant.{messages_in}
use scala_neko.Protocol.RoundBased.Rounds.{Reach-begun, Reach-recv_round}
use scala_neko.Protocol.RoundBased.Progress.{drain, drain-recv_round}

program : Unit {0}
unfolding is_in meet overlaps batch_size send_each on_send message_vector on_receive tally occurs
    flights_to flights packets drain
program = tt

abbrev hello : Message ℕ
hello = record { from = 0; destinations = 0 ∷ 1 ∷ []; content = 7 }

abbrev reply : Message ℕ
reply = record { from = 1; destinations = 0 ∷ 1 ∷ []; content = 8 }

hello-IsAddressed : IsAddressed 2 0 hello
unfolding program
hello-IsAddressed = record {
  sender = refl;
  valid = (omega arith, (omega arith, tt));
  once = λ q. ground arith;
}

reply-IsAddressed : IsAddressed 2 1 reply
unfolding program
reply-IsAddressed = record {
  sender = refl;
  valid = (omega arith, (omega arith, tt));
  once = λ q. ground arith;
}

-- Both have sent, and nothing has arrived.
abbrev sent : World ℕ
sent = submit 2 1 reply (submit 2 0 hello start)

sent-Reach : Reach 2 sent
unfolding program
sent-Reach =
    next (submit 2 0 hello start) sent
      (next start (submit 2 0 hello start) here
        (submits start 0 hello (omega arith) hello-IsAddressed (omega arith)))
      (submits (submit 2 0 hello start) 1 reply (omega arith) reply-IsAddressed (omega arith))

abbrev arrived : World ℕ
arrived = drain 2 sent.in_flight sent

-- Both have begun the round 1 with both messages.
begun-arrived : messages_in (arrived.begun 0 1) ≡ hello ∷ reply ∷ []
unfolding program
begun-arrived = refl

recv_round-arrived : (arrived.procs 1).recv_round ≡ 1
unfolding program
recv_round-arrived = refl

-- A second message to a process in one round.
on_send-twice : on_send 2 (message hello) (record (new {A = ℕ}) { send_batch = reply ∷ [] }) ≡ threw
unfolding program
on_send-twice = refl

sends_all : (p : ℕ) → p < 2 → 1 ≤ (sent.procs p).send_round
unfolding program
sends_all zero h = omega arith
sends_all (suc zero) h = omega arith
sends_all (suc (suc p)) h = absurd (omega arith)

drain-recv_round_example :
    Reach 2 (drain 2 sent.in_flight sent)
    × ((q : ℕ) → q < 2 → 1 ≤ ((drain 2 sent.in_flight sent).procs q).recv_round)
drain-recv_round_example = drain-recv_round 2 1 sent sent-Reach sends_all

arrived-Reach : Reach 2 arrived
arrived-Reach = drain-recv_round_example.0

first_round : 0 < (arrived.procs 0).recv_round
unfolding program
first_round = omega arith

Reach-begun_example :
    ((test : Message ℕ → Bool)
      → tally test (messages_in (arrived.begun 0 (0 + 1))) ≡ packets test 0 0 arrived.sent)
    × ((p : ℕ) → p < 2 → tally (is_from p) (messages_in (arrived.begun 0 (0 + 1))) ≡ 1)
Reach-begun_example = Reach-begun 2 0 0 arrived arrived-Reach (omega arith) first_round

Reach-recv_round_example : (arrived.procs 0).recv_round ≤ (arrived.procs 1).recv_round + 1
Reach-recv_round_example = Reach-recv_round 2 1 0 arrived arrived-Reach (omega arith) (omega arith)
