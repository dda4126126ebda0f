-- ===== src/Kernel/Activities.antt =====
-- ActivityManager.scala and the wrapper of ManagedActivity.scala: activities, each with its thread,
-- that go on in lockstep. A step is what one thread does between two calls that block, or what the
-- barrier does when all have come to it; the steps come in any order.
pub mod Places
pub mod Lockstep
pub mod Statuses
pub mod Ends
pub mod Stuck
mod Samples
use scala_neko.Base.{
  ℕ, ◌+◌, ◌≡◌, refl, Bool, true, false, not, ◌&&◌, ◌||◌, Option, none, some, List, [], ◌∷◌, ◌++◌,
  map, length, get_elem?, set, if◌then◌else◌,
}

pub data Status : Type 0 where
  created running waiting finished aborted : Status

-- Where the thread of an activity is: in its own code, blocked at the barrier in `willWait` or in
-- `willFinish`, let go by the barrier but not yet back from the call, back from `willFinish`, or
-- ended by an exception.
pub data Place : Type 0 where
  executing in_wait in_finish leaving_wait leaving_finish returned stopped : Place

-- ActivityInfo, with the place of the thread, and how often it has come to the barrier.
pub record Activity : Type 0 where
  pub status : Status
  pub place : Place
  pub arrivals : ℕ

-- What an action of the barrier does to the rest of the program, and whether it calls `reset`; it
-- sees whether all have finished, and the activities.
abbrev pub Action : Type 0 → Type 0
Action W = W → Bool → List Activity → W × Bool

-- `barrierActions` has the last one registered first. `trips` counts the runs of the action of the
-- barrier.
pub record Manager (W : Type 0) : Type 0 where
  pub activities : List Activity
  pub started : Bool
  pub all_finished : Bool
  pub barrier_actions : List (Action W)
  pub world : W
  pub trips : ℕ

abbrev pub is_finished : Activity → Bool
is_finished a = elim a.status [ finished ↦ true | _ ↦ false ]

abbrev pub is_created : Activity → Bool
is_created a = elim a.status [ created ↦ true | _ ↦ false ]

abbrev pub is_blocked : Activity → Bool
is_blocked a = elim a.place [ in_wait ↦ true | in_finish ↦ true | _ ↦ false ]

unfoldable pub forall : (Activity → Bool) → List Activity → Bool
forall f [] = true
forall f (a ∷ rest) = f a && forall f rest

abbrev pub reverse {ℓ} : {A : Type ℓ} → List A → List A
reverse [] = []
reverse (x ∷ xs) = reverse xs ++ x ∷ []

-- `willStart`, `willWait` and `willFinish` up to the barrier.
abbrev pub will_start : Activity → Activity
will_start a = record a { status = running; place = executing }

abbrev pub will_wait : Activity → Activity
will_wait a = record a { status = waiting; place = in_wait; arrivals = a.arrivals + 1 }

abbrev pub will_finish : Activity → Activity
will_finish a = record a { status = finished; place = in_finish; arrivals = a.arrivals + 1 }

-- The rest of `willWait`.
abbrev pub leave_wait : Activity → Activity
leave_wait a = elim a.status [
  | aborted ↦ record a { place = stopped }
  | _ ↦ record a { status = running; place = executing }
]

-- One turn of the loop of `willFinish`.
abbrev pub leave_finish : Bool → Activity → Activity
leave_finish all_finished a =
    if all_finished
    then record a { place = returned }
    else record a { place = in_finish; arrivals = a.arrivals + 1 }

abbrev pub abort_unfinished : Activity → Activity
abort_unfinished a = if is_finished a then a else record a { status = aborted }

abbrev pub release : Activity → Activity
release a = elim a.place [
  | in_wait ↦ record a { place = leaving_wait }
  | in_finish ↦ record a { place = leaving_finish }
  | _ ↦ a
]

module _ {W : Type 0} where
  -- `registerActivity`; an exception unless errors are logged.
  unfoldable pub register_activity : Bool → Manager W → Option (ℕ × Manager W)
  register_activity is_error_enabled m =
      if m.started && not is_error_enabled
      then none
      else some (
        length m.activities,
        record m {
          activities =
              m.activities ++ record { status = created; place = executing; arrivals = 0 } ∷ [];
        },
      )

  unfoldable pub register_action : Bool → Action W → Manager W → Option (Manager W)
  register_action is_error_enabled action m =
      if not m.started
      then some (record m { barrier_actions = action ∷ m.barrier_actions })
      else if is_error_enabled
      then some m
      else none

  -- `start`, without `whenDone`.
  unfoldable pub start : Manager W → Option (Manager W)
  start m =
      if m.started
      then some m
      else if not (forall is_created m.activities)
      then none
      else some (elim m.activities [
        | [] ↦ record m { started = true; all_finished = true }
        | a ∷ rest ↦ record m { started = true; activities = map will_start (a ∷ rest) }
      ])

  abbrev pub reset : Manager W → Manager W
  reset m = record m { activities = map abort_unfinished m.activities; all_finished = true }

  unfoldable pub execute_action : Action W → Manager W → Manager W
  execute_action action m =
      let (world, wants_reset) = action m.world m.all_finished m.activities in
      if wants_reset then reset (record m { world = world }) else record m { world = world }

  unfoldable pub execute_actions : List (Action W) → Manager W → Manager W
  execute_actions [] m = m
  execute_actions (action ∷ actions) m = execute_actions actions (execute_action action m)

  -- The check at the start of the action of the barrier.
  unfoldable pub check_finished : Manager W → Manager W
  check_finished m = if forall is_finished m.activities then record m { all_finished = true } else m

  -- `run` of the action of the barrier, after which the barrier lets all go.
  unfoldable pub trip : Manager W → Manager W
  trip m =
      let after = execute_actions (reverse m.barrier_actions) (check_finished m) in
      record after { activities = map release after.activities; trips = after.trips + 1 }

  abbrev pub put : ℕ → Activity → Manager W → Manager W
  put i a m = record m { activities = set m.activities i a }

  -- The steps of the threads; `throws` says whether the code of an activity may throw an exception.
  pub data Step (throws : Bool) : Manager W → Manager W → Type 0 where
    wait :
        (m : Manager W) (i : ℕ) (a : Activity)
        → get_elem? m.activities i ≡ some a
        → a.place ≡ executing
        → Step throws m (put i (will_wait a) m)
    finish :
        (m : Manager W) (i : ℕ) (a : Activity)
        → get_elem? m.activities i ≡ some a
        → a.place ≡ executing
        → Step throws m (put i (will_finish a) m)
    trips_now :
        (m : Manager W) (a : Activity) (rest : List Activity)
        → m.activities ≡ a ∷ rest
        → forall is_blocked m.activities ≡ true
        → Step throws m (trip m)
    back_from_wait :
        (m : Manager W) (i : ℕ) (a : Activity)
        → get_elem? m.activities i ≡ some a
        → a.place ≡ leaving_wait
        → Step throws m (put i (leave_wait a) m)
    back_from_finish :
        (m : Manager W) (i : ℕ) (a : Activity)
        → get_elem? m.activities i ≡ some a
        → a.place ≡ leaving_finish
        → Step throws m (put i (leave_finish m.all_finished a) m)
    throw :
        (m : Manager W) (i : ℕ) (a : Activity)
        → throws ≡ true
        → get_elem? m.activities i ≡ some a
        → a.place ≡ executing
        → Step throws m (reset (put i (record a { place = stopped }) m))

  -- Any number of steps.
  pub data Reach (throws : Bool) (first : Manager W) : Manager W → Type 0 where
    here : Reach throws first first
    later : (m n : Manager W) → Reach throws first m → Step throws m n → Reach throws first n
