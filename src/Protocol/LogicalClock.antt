-- ===== src/Protocol/LogicalClock.antt =====
-- What the two protocols with the trait `LogicalClock` share: an interface of clock values, and the
-- system of processes, messages and timestamped events that runs over it.
pub mod Invariant
pub mod Causality
use scala_neko.Base.{ℕ, zero, suc, ◌+◌, ◌≡◌, ◌≢◌, ◌⊎◌, List, [], ◌∷◌, ◌++◌, Option, some, update}

pub record LogicalClock : Type 1 where
  pub Time : Type 0
  pub initial : Time
  -- The clock of process `p` after an internal event or at a sending.
  pub tick : ℕ → Time → Time
  -- The clock of `p` after it receives a timestamp; `none` if an assertion fails.
  pub merge : ℕ → Time → Time → Option Time
  -- The processes, and the values that their clocks take.
  pub IsProcess : ℕ → Type 0
  pub IsTime : Time → Type 0
  pub IsBefore : Time → Time → Type 0
  -- The clock of `p` is not behind what a value says of `p`.
  pub Knows : ℕ → Time → Time → Type 0
  pub before_trans : (a b c : Time) → IsBefore a b → IsBefore b c → IsBefore a c
  pub initial-IsTime : IsTime initial
  pub tick_lem :
      (p : ℕ) (c : Time) → IsProcess p → IsTime c → IsTime (tick p c) × IsBefore c (tick p c)
  pub merge_lem :
      (p : ℕ) (c t : Time)
      → IsProcess p
      → IsTime c
      → IsTime t
      → Knows p c t
      → (d : Time) × (merge p c t ≡ some d) × IsTime d × IsBefore c d × IsBefore t d
  pub Knows_self : (p : ℕ) (c : Time) → Knows p c c
  pub Knows-before :
      (p : ℕ) (c d t : Time) → IsTime c → IsTime d → IsBefore c d → Knows p c t → Knows p d t
  pub Knows-tick : (p q : ℕ) (c d : Time) → p ≢ q → Knows p c d → Knows p c (tick q d)
  pub Knows-merge :
      (p q : ℕ) (c d t e : Time)
      → p ≢ q
      → merge q d t ≡ some e
      → Knows p c d
      → Knows p c t
      → Knows p c e

pub data Kind : Type 0 where
  internal : Kind
  sent received : ℕ → Kind

module _ (C : LogicalClock) where
  open C use {Time, initial, tick, merge, IsProcess}

  -- What happened at a process, with the clock of that process right after it.
  pub record Event : Type 0 where
    pub process : ℕ
    pub kind : Kind
    pub stamp : Time

  -- Messages are told apart by numbers. The network keeps what was sent: it may hand a message
  -- over late, more than once, or never. The newest event is the head of the log.
  pub record World : Type 0 where
    pub clocks : ℕ → Time
    pub fresh : ℕ
    pub network : List (ℕ × Time)
    pub log : List Event

abbrev pub start : (C : LogicalClock) → World C
start C = record { clocks = λ _. C.initial; fresh = 0; network = []; log = [] }

module _ (C : LogicalClock) (w : World C) where
  open C use {Time, tick}

  abbrev pub happens : ℕ → Kind → Time → World C
  happens p kind c = record w {
    clocks = update w.clocks p c;
    log = record { process = p; kind = kind; stamp = c } ∷ w.log;
  }

  abbrev pub acts : ℕ → World C
  acts p = happens p internal (tick p (w.clocks p))

  abbrev pub sends : ℕ → World C
  sends p =
      let c = tick p (w.clocks p) in
      record (happens p (sent w.fresh) c) {
        fresh = suc w.fresh;
        network = (w.fresh, c) ∷ w.network;
      }

  pub data Step (v : World C) : Type 0 where
    act : (p : ℕ) → C.IsProcess p → v ≡ acts p → Step v
    send : (p : ℕ) → C.IsProcess p → v ≡ sends p → Step v
    receive :
        (q k : ℕ) (t c : Time) (xs ys : List (ℕ × Time))
        → C.IsProcess q
        → w.network ≡ xs ++ (k, t) ∷ ys
        → C.merge q (w.clocks q) t ≡ some c
        → v ≡ happens q (received k) c
        → Step v

pub data Reach (C : LogicalClock) (w : World C) : World C → Type 0 where
  here : Reach C w w
  next : {v u : World C} → Reach C w v → Step C v u → Reach C w u
