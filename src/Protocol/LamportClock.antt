-- ===== src/Protocol/LamportClock.antt =====
-- LamportClock.scala. The clock is a number without the bound 2 ^ 63 of `Long`.
mod Samples
use scala_neko.Base.{ℕ, ◌+◌, ◌≡◌, ◌≢◌, ◌<◌, ◌≤◌, refl, Option, some, max, ltb, if◌then◌else◌, arith}
use scala_neko.Protocol.Message.{Message, Request, signal, message}
use scala_neko.Protocol.LogicalClock.{LogicalClock, Event, World, start, Reach}
use scala_neko.Protocol.LogicalClock.Invariant.{HappensBefore}
use scala_neko.Protocol.LogicalClock.Causality.{clock_condition}

pub record LcTimeStamped {ℓ} (A : Type ℓ) : Type ℓ where
  pub m : Message A
  pub ts : ℕ

pub data Sent {ℓ} (A : Type ℓ) : Type ℓ where
  signal_on : ℕ → Sent A
  stamped : LcTimeStamped A → Sent A

-- The clock never goes back, whatever `f` gives.
unfoldable pub update_clock : (ℕ → ℕ) → ℕ → ℕ
update_clock f lc = let update = f lc in if ltb lc update then update else lc

-- The clock after `internal`, and at the start of `onSend`.
unfoldable pub next_time : ℕ → ℕ
unfolding update_clock
next_time = update_clock (λ l. l + 1)

-- The clock at the start of `onReceive`.
unfoldable pub receive_time : ℕ → ℕ → ℕ
unfolding update_clock
receive_time ts = update_clock (λ l. 1 + max l ts)

module _ {ℓ} {A : Type ℓ} where
  pub on_send : Request A → ℕ → ℕ × Sent A
  on_send (signal ie) lc = (next_time lc, signal_on ie)
  on_send (message m) lc = let lc' = next_time lc in (lc', stamped (record { m = m; ts = lc' }))

  pub on_receive : LcTimeStamped A → ℕ → ℕ × Message A
  on_receive t lc = (receive_time t.ts lc, t.m)

pub next_time-lt : (lc : ℕ) → lc < next_time lc
unfolding next_time
next_time-lt lc = ground arith

pub receive_time-lt : (lc ts : ℕ) → (lc < receive_time ts lc) × (ts < receive_time ts lc)
unfolding receive_time
receive_time-lt lc ts = ground arith

pub lt_trans : (a b c : ℕ) → a < b → b < c → a < c
lt_trans a b c h k = omega arith

abbrev pub lamport : LogicalClock
lamport = record {
  Time = ℕ;
  initial = 0;
  tick = λ p c. next_time c;
  merge = λ p c t. some (receive_time t c);
  IsProcess = λ p. Unit;
  IsTime = λ c. Unit;
  IsBefore = ◌<◌;
  Knows = λ p c t. Unit;
  before_trans = lt_trans;
  initial-IsTime = tt;
  tick_lem = λ p c is time. (tt, next_time-lt c);
  merge_lem = λ p c t is time time' k.
      (receive_time t c, refl, tt, (receive_time-lt c t).0, (receive_time-lt c t).1);
  Knows_self = λ p c. tt;
  Knows-before = λ p c d t a b l k. tt;
  Knows-tick = λ p q c d ne k. tt;
  Knows-merge = λ p q c d t e ne m k l. tt;
}

-- In every run of processes with Lamport clocks, over a network that may reorder, repeat or lose
-- messages, an event that may have influenced another has a smaller timestamp.
pub HappensBefore-lt :
    {w : World lamport} {e f : Event lamport}
    → Reach lamport (start lamport) w
    → HappensBefore lamport w.log e f
    → e.stamp < f.stamp
HappensBefore-lt r h = clock_condition lamport r h

-- Both handlers give the clock a greater value, also than the timestamp received, and a message is
-- sent with the new value.
pub handlers_advance {ℓ} :
    {A : Type ℓ} (lc : ℕ) (m : Message A) (ie : ℕ) (t : LcTimeStamped A)
    → (lc < (on_send {A = A} (signal ie) lc).0)
      × (lc < (on_send (message m) lc).0)
      × ((on_send (message m) lc).1 ≡ stamped (record { m = m; ts = (on_send (message m) lc).0 }))
      × (lc < (on_receive t lc).0)
      × (t.ts < (on_receive t lc).0)
      × ((on_receive t lc).1 ≡ t.m)
unfolding on_send on_receive
handlers_advance lc m ie t = (
  next_time-lt lc,
  next_time-lt lc,
  refl,
  (receive_time-lt lc t.ts).0,
  (receive_time-lt lc t.ts).1,
  refl,
)
