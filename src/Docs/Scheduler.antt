-- ===== src/Docs/Scheduler.antt =====
-- scheduler.js: a cooperative job queue on top of `setTimeout`. Labels and queues are two parallel
-- arrays, in the order of the labels' priorities; the queues hold jobs, oldest first.
-- `Calls` has what page code may do to a scheduler, and the modules below prove what holds then.
pub mod Order
pub mod Invariant
pub mod Timer
pub mod Runs
pub mod Queues
mod Samples
use mathlib.Core.Option
use scala_neko.Base.{
  ℕ, ◌+◌, ◌-◌, zero, suc, ◌≡◌, Bool, true, false, ◌&&◌, Option, none, some, List, [], ◌∷◌, ◌++◌,
  ltb, leb, if◌then◌else◌, length, get_elem?, set, insert_at, erase_idx,
}
use scala_neko.Base.Text.{Text, text_eq}

pub record Label : Type 0 where
  pub name : Text
  pub priority : ℕ

module _ {ℓ} (V : Type ℓ) where
  -- `work fn self args`, over the type `V` of the values of the language; `args` may be undefined.
  -- The closure that `scheduleLast` queues is named by what it closes over.
  pub data Job : Type ℓ where
    work : V → V → Option (List V) → Job
    last : Text → V → Job

  -- `timeout` says whether that property is defined. `timers` is the browser's: the number of
  -- callbacks that `setTimeout` has been given and not yet made.
  pub record Scheduler : Type ℓ where
    pub labels : List Label
    pub queues : List (List Job)
    pub timeout : Bool
    pub timers : ℕ

  -- What a call may throw: one of the three messages of this file, or what a job throws.
  pub data Thrown : Type ℓ where
    no_queue_for_add no_queue_for_label no_queue : Thrown
    by_job : V → Thrown

module _ {ℓ κ} (V : Type ℓ) where
  pub data Result (A : Type κ) : Type (ℓ ⊔ κ) where
    ok : A → Result A
    thrown : Thrown V → Result A

-- `new Scheduler()`
abbrev pub new {ℓ} : {V : Type ℓ} → Scheduler V
new = record { labels = []; queues = []; timeout = false; timers = 0 }

-- The loop of `indexOf`: the first index with the name, or the number of labels.
unfoldable pub scan : List Label → Text → ℕ
scan [] name = 0
scan (l ∷ ls) name = if text_eq l.name name then 0 else suc (scan ls name)

-- `scheduler.labels[i].name == label`. The arrays have one length (`Invariant`), so the index of
-- a queue is never past the labels, where the source would throw.
abbrev pub is_named : Option Label → Text → Bool
is_named none name = false
is_named (some l) name = text_eq l.name name

module _ {ℓ} {V : Type ℓ} where
  -- The loop of `addLabel`: the first index whose priority is above `p`, or the number of queues.
  unfoldable pub place : List Label → List (List (Job V)) → ℕ → ℕ
  place (l ∷ ls) (q ∷ qs) p = if leb l.priority p then suc (place ls qs p) else 0
  place _ _ p = 0

  unfoldable pub add_label : Text → ℕ → Scheduler V → Scheduler V
  add_label name p s =
      let i = place s.labels s.queues p in
      record s {
        labels = insert_at s.labels i (record { name = name; priority = p });
        queues = insert_at s.queues i [];
      }

  -- `none` is -1.
  unfoldable pub index_of : Scheduler V → Text → Option ℕ
  index_of s name =
      let i = scan s.labels name in
      if ltb i (length s.queues) && is_named (get_elem? s.labels i) name then some i else none

  pub clear_label : Text → Scheduler V → Scheduler V
  clear_label name s = elim (index_of s name) [
    | none ↦ s
    | some i ↦ record s { labels = erase_idx s.labels i; queues = erase_idx s.queues i }
  ]

  -- The loop of `nextWork` and the `shift` behind it: the job and the queues without it.
  unfoldable pub take_first : List (List (Job V)) → Option (Job V × List (List (Job V)))
  take_first [] = none
  take_first ([] ∷ qs) = Option.map (λ (j, rest). (j, [] ∷ rest)) (take_first qs)
  take_first ((j ∷ q) ∷ qs) = some (j, q ∷ qs)

  unfoldable pub next_work : Scheduler V → Option (Job V) × Scheduler V
  next_work s = elim (take_first s.queues) [
    | none ↦ (none, s)
    | some (j, qs) ↦ (some j, record s { queues = qs })
  ]

  -- `doWork`: the call of `setTimeout`. Its callback is `fire`.
  unfoldable pub do_work : Scheduler V → Scheduler V
  do_work s = record s { timeout = true; timers = s.timers + 1 }

  -- `queues[i].push(job)`
  unfoldable pub push_at : List (List (Job V)) → ℕ → Job V → List (List (Job V))
  push_at [] i j = []
  push_at (q ∷ qs) zero j = (q ++ j ∷ []) ∷ qs
  push_at (q ∷ qs) (suc i) j = q ∷ push_at qs i j

  unfoldable pub add : Text → Job V → Scheduler V → Result V (Unit {0}) × Scheduler V
  add name j s = elim (index_of s name) [
    | none ↦ (thrown no_queue_for_add, s)
    | some i ↦
        let s' = record s { queues = push_at s.queues i j } in
        (ok tt, if s'.timeout then s' else do_work s')
  ]

  -- With no such label the source writes to the index -1, which is no element of the array.
  unfoldable pub clear : Text → Scheduler V → Scheduler V
  clear name s = elim (index_of s name) [
    | none ↦ s
    | some i ↦ record s { queues = set s.queues i [] }
  ]

  unfoldable pub number_of_jobs : Text → Scheduler V → Result V ℕ
  number_of_jobs name s = elim (index_of s name) [
    | none ↦ thrown no_queue
    | some i ↦ ok (elim (get_elem? s.queues i) [ none ↦ 0 | some q ↦ length q ])
  ]

  pub queue_empty : Text → Scheduler V → Result V Bool
  queue_empty name s = elim (index_of s name) [
    | none ↦ thrown no_queue_for_label
    | some i ↦ ok (elim (get_elem? s.queues i) [ some (_ ∷ _) ↦ false | _ ↦ true ])
  ]

  -- The end of the callback: `doWork` again, unless the job threw.
  unfoldable pub resume :
      Job V → Result V (Unit {0}) × Scheduler V → Option (Job V) × Result V (Unit {0}) × Scheduler V
  resume j (ok _, s) = (some j, ok tt, do_work s)
  resume j (thrown e, s) = (some j, thrown e, s)

  -- What page code may do to a scheduler, a job that runs included.
  pub data Calls : Scheduler V → Scheduler V → Type ℓ where
    none_yet : (s : Scheduler V) → Calls s s
    then_add_label :
        {s t : Scheduler V} (name : Text) (p : ℕ) → Calls s t → Calls s (add_label name p t)
    then_clear_label : {s t : Scheduler V} (name : Text) → Calls s t → Calls s (clear_label name t)
    then_add : {s t : Scheduler V} (name : Text) (j : Job V) → Calls s t → Calls s (add name j t).1
    then_clear : {s t : Scheduler V} (name : Text) → Calls s t → Calls s (clear name t)

-- The values of the language, and what the application of a function to `this` and the arguments
-- does to the scheduler: it calls the scheduler's methods, and returns or throws.
pub record Host {ℓ} (V : Type ℓ) : Type ℓ where
  pub undefined : V
  pub apply : V → V → List V → Scheduler V → Result V (Unit {0}) × Scheduler V
  pub apply_calls :
      (fn self : V) (args : List V) (s : Scheduler V) → Calls s (apply fn self args s).1

module _ {ℓ} {V : Type ℓ} (host : Host V) where
  pub schedule_last : Text → V → Scheduler V → Result V (Unit {0}) × Scheduler V
  schedule_last name fn s = elim (queue_empty name s) [
    | thrown e ↦ (thrown e, s)
    | ok true ↦ host.apply fn host.undefined [] s
    | ok false ↦ add name (last name fn) s
  ]

  -- `work.fn.apply(work.self, work.args)`
  unfoldable pub perform : Job V → Scheduler V → Result V (Unit {0}) × Scheduler V
  perform (work fn self none) = host.apply fn self []
  perform (work fn self (some args)) = host.apply fn self args
  perform (last name fn) = schedule_last name fn

  -- The callback of the timer. The job that it took is a result of the model.
  unfoldable pub fire : Scheduler V → Option (Job V) × Result V (Unit {0}) × Scheduler V
  fire s =
      let (next, s') = next_work (record s { timers = s.timers - 1 }) in
      elim next [
        | none ↦ (none, ok tt, record s' { timeout = false })
        | some j ↦ resume j (perform j s')
      ]
