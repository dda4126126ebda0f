-- ===== src/Kernel/Scheduler.antt =====
-- Scheduler.scala, SequentialScheduler.scala, Task.scala, Timer.scala and Simulator.scala: tasks with
-- times, and the steps that execute those that are due. A time, of type Long in the source, is a
-- number, and so is the id of a task. Threads are left out: one step runs after the other.
pub mod Queue
pub mod Batch
pub mod Cancel
pub mod Periodic
pub mod Termination
pub mod Runs
mod Samples
use scala_neko.Base.{
  ℕ, zero, suc, ◌+◌, Bool, true, false, not, ◌&&◌, ◌||◌, List, [], ◌∷◌, ◌++◌, ltb, leb, ◌==◌, max,
  if◌then◌else◌,
}

-- What one run of an action does with the timer and the rest of the program, `W`; it ends with the
-- value returned, which only a periodic task reads. What follows a scheduled task gets its id.
pub data Script (W : Type 0) : Type 0 where
  finish : Bool → Script W
  read : (W → Script W) → Script W
  write : W → Script W → Script W
  schedule_at : ℕ → (ℕ → Script W) → (ℕ → Script W) → Script W
  schedule_after : ℕ → (ℕ → Script W) → (ℕ → Script W) → Script W
  periodically : ℕ → ℕ → (ℕ → Script W) → (ℕ → Script W) → Script W
  cancel : ℕ → Script W → Script W

-- SimpleTask, and PeriodicTask with its period.
pub data Kind : Type 0 where
  simple : Kind
  periodic : ℕ → Kind

pub record Task (W : Type 0) : Type 0 where
  pub time : ℕ
  pub id : ℕ
  pub kind : Kind
  pub is_daemon : Bool
  pub action : ℕ → Script W

-- `taskQueue`, `_currentTime`, the last id that was given to a task, and the rest of the program;
-- `executed` records the times and ids of all executions so far.
pub record Scheduler (W : Type 0) : Type 0 where
  pub queue : List (Task W)
  pub current_time : ℕ
  pub last_id : ℕ
  pub world : W
  pub executed : List (ℕ × ℕ)

module _ {W : Type 0} where
  -- `compare` of Task: by the time, then by the id.
  unfoldable pub is_before : Task W → Task W → Bool
  is_before t u = ltb t.time u.time || t.time == u.time && ltb t.id u.id

  -- `taskQueue | Set(task)`; an equal task stays.
  unfoldable pub insert : Task W → List (Task W) → List (Task W)
  insert t [] = t ∷ []
  insert t (u ∷ us) =
      let rest = insert t us in
      if is_before t u then t ∷ u ∷ us else if is_before u t then u ∷ rest else u ∷ us

  -- `filterNot(t => t.id == taskID)`
  unfoldable pub without : ℕ → List (Task W) → List (Task W)
  without id [] = []
  without id (t ∷ ts) = let rest = without id ts in if t.id == id then rest else t ∷ rest

  -- The two parts of `partition(_.time <= _currentTime)`.
  unfoldable pub due : ℕ → List (Task W) → List (Task W)
  due now [] = []
  due now (t ∷ ts) = let rest = due now ts in if leb t.time now then t ∷ rest else rest

  unfoldable pub later : ℕ → List (Task W) → List (Task W)
  later now [] = []
  later now (t ∷ ts) = let rest = later now ts in if leb t.time now then rest else t ∷ rest

  abbrev pub is_empty : Scheduler W → Bool
  is_empty s = elim s.queue [ [] ↦ true | t ∷ ts ↦ false ]

  unfoldable pub all_daemons : List (Task W) → Bool
  all_daemons [] = true
  all_daemons (t ∷ ts) = t.is_daemon && all_daemons ts

  abbrev pub is_empty_beside_daemons : Scheduler W → Bool
  is_empty_beside_daemons s = all_daemons s.queue

  abbrev pub schedule : Task W → Scheduler W → Scheduler W
  schedule t s = record s { queue = insert t s.queue }

  -- `cancel` of the scheduler.
  abbrev pub cancel_task : ℕ → Scheduler W → Scheduler W
  cancel_task id s = record s { queue = without id s.queue }

  -- A new task with the next id, scheduled for a time.
  abbrev pub schedule_new : ℕ → Kind → (ℕ → Script W) → Scheduler W → Scheduler W
  schedule_new time kind action s =
      schedule
        (record {
          time = time;
          id = s.last_id + 1;
          kind = kind;
          is_daemon = false;
          action = action;
        })
        (record s { last_id = s.last_id + 1 })

  -- The operations of the timer that a script calls, in their order.
  unfoldable pub run_script : Script W → Scheduler W → Scheduler W × Bool
  run_script (finish again) s = (s, again)
  run_script (read next) s = run_script (next s.world) s
  run_script (write w next) s = run_script next (record s { world = w })
  run_script (schedule_at time action next) s =
      run_script (next (s.last_id + 1)) (schedule_new time simple action s)
  run_script (schedule_after delay action next) s =
      run_script (next (s.last_id + 1)) (schedule_new (s.current_time + delay) simple action s)
  run_script (periodically delay period action next) s =
      run_script (next (s.last_id + 1))
        (schedule_new (s.current_time + delay) (periodic period) action s)
  run_script (cancel id next) s = run_script next (cancel_task id s)

  -- `this.copy(time = time + period, id = this.id)`; the copy is a plain PeriodicTask.
  abbrev pub next_task : ℕ → ℕ → Task W → Task W
  next_task time period t = record t { time = time + period; is_daemon = false }

  unfoldable pub reschedule : Kind → ℕ → Task W → Scheduler W × Bool → Scheduler W
  reschedule simple time t (s, again) = s
  reschedule (periodic period) time t (s, again) =
      if again then schedule (next_task time period t) s else s

  abbrev pub record_execution : ℕ → Task W → Scheduler W → Scheduler W
  record_execution time t s = record s { executed = s.executed ++ (time, t.id) ∷ [] }

  unfoldable pub execute_at : ℕ → Task W → Scheduler W → Scheduler W
  execute_at time t s =
      reschedule t.kind time t (run_script (t.action time) (record_execution time t s))

  -- `executeBatch` of SequentialScheduler.
  unfoldable pub execute_batch : ℕ → List (Task W) → Scheduler W → Scheduler W
  execute_batch time [] s = s
  execute_batch time (t ∷ ts) s = execute_batch time ts (execute_at time t s)

  -- The time of the next batch, when the queue starts with this task.
  abbrev pub next_time : Task W → Scheduler W → ℕ
  next_time head s = max (s.current_time + 1) head.time

  -- `executeNext` once the time is known.
  unfoldable pub execute_due : ℕ → Scheduler W → Scheduler W
  execute_due now s =
      execute_batch now (due now s.queue)
        (record s { queue = later now s.queue; current_time = now })

  unfoldable pub execute_next : Scheduler W → Scheduler W
  execute_next s = elim s.queue [ [] ↦ s | head ∷ rest ↦ execute_due (next_time head s) s ]

  -- `run` of Simulator, with fuel for the batches.
  unfoldable pub run : ℕ → Scheduler W → Scheduler W
  run zero s = s
  run (suc fuel) s = if is_empty s then s else run fuel (execute_next s)
