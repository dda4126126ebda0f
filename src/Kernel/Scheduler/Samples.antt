-- ===== src/Kernel/Scheduler/Samples.antt =====
-- A program that counts, with tasks that schedule and cancel others.
use scala_neko.Base.{ℕ, ◌+◌, ◌<◌, ◌≡◌, refl, true, false, [], ◌∷◌, ◌++◌, map, arith}
use scala_neko.Kernel.Scheduler.{
  Script, finish, read, write, schedule_at, schedule_after, periodically, cancel, simple, Task,
  Scheduler, is_before, insert, without, due, later, all_daemons, run_script, reschedule,
  execute_at, execute_batch, execute_due, execute_next, run, cancel_task,
}
use scala_neko.Kernel.Scheduler.Queue.{IsSorted}
use scala_neko.Kernel.Scheduler.Batch.{IsAt, records, execute_next-IsAt}
use scala_neko.Kernel.Scheduler.Runs.{IsSound, run-IsSound}
use scala_neko.Kernel.Scheduler.Cancel.{IsSkipped, run-cancel_task}
use scala_neko.Kernel.Scheduler.Periodic.{beats, changes}
use scala_neko.Kernel.Scheduler.Termination.{
  quiet_finish, quiet_read, quiet_write, IsOnce, executed_ids, run-IsOnce,
}

program : Unit {0}
unfolding is_before insert without due later all_daemons run_script reschedule execute_at
    execute_batch execute_due execute_next run beats changes
program = tt

abbrev start : Scheduler ℕ
start = record { queue = []; current_time = 0; last_id = 0; world = 10; executed = [] }

abbrev count : ℕ → Script ℕ
count now = read (λ w. write (w + 1) (finish true))

-- Two tasks, a periodic one, and one that cancels the second.
abbrev setup : Script ℕ
setup = schedule_at 5 count (λ first. schedule_after 9 count (λ second.
    periodically 2 3 count
      (λ third. schedule_at 5 (λ now. cancel second (finish false)) (λ fourth. finish false))))

abbrev ready : Scheduler ℕ
ready = (run_script setup start).0

queue_order :
    map {B = ℕ × ℕ} (λ (t : Task ℕ). (t.time, t.id)) ready.queue
    ≡ (2, 3) ∷ (5, 1) ∷ (5, 4) ∷ (9, 2) ∷ []
unfolding program
queue_order = refl

first_steps : (run 3 ready).executed ≡ (2, 3) ∷ (5, 1) ∷ (5, 3) ∷ (5, 4) ∷ (8, 3) ∷ []
unfolding program
first_steps = refl

ready-IsSound : IsSound ready
unfolding program
ready-IsSound = record {
  sorted = ((refl, (refl, (refl, tt))), ((refl, (refl, tt)), ((refl, tt), (tt, tt))));
  distinct = (
    ((omega arith), ((omega arith), ((omega arith), tt))),
    (((omega arith), ((omega arith), tt)), ((omega arith, tt), (tt, tt))),
  );
  known = (omega arith, (omega arith, (omega arith, (omega arith, tt))));
  batch_distinct = tt;
  batch_known = tt;
  apart = tt;
}

run-IsSound_example : IsSound (run 4 (run_script (cancel 1 (finish true)) ready).0)
run-IsSound_example = run-IsSound 4 (cancel 1 (finish true)) ready ready-IsSound

abbrev second_task : Task ℕ
second_task = record { time = 7; id = 2; kind = simple; is_daemon = false; action = count }

abbrev first_task : Task ℕ
first_task = record { time = 5; id = 1; kind = simple; is_daemon = false; action = count }

abbrev two_tasks : Scheduler ℕ
two_tasks = record {
  queue = first_task ∷ second_task ∷ [];
  current_time = 0;
  last_id = 2;
  world = 0;
  executed = [];
}

two_tasks-IsSorted : IsSorted two_tasks.queue
unfolding program
two_tasks-IsSorted = ((refl, tt), (tt, tt))

execute_next-IsAt_example :
    (0 < 5) × IsAt 5 ([] ++ records 5 (due 5 two_tasks.queue)) (execute_next two_tasks)
execute_next-IsAt_example = execute_next-IsAt two_tasks first_task (second_task ∷ []) refl

run-cancel_task_example : IsSkipped 1 [] (run 3 (cancel_task 1 two_tasks)).executed
run-cancel_task_example = run-cancel_task 3 1 two_tasks (omega arith)

abbrev add_time : ℕ → ℕ → ℕ
add_time now w = w + now

beats_times : beats 1 3 4 3 ≡ (4, 1) ∷ (7, 1) ∷ (10, 1) ∷ []
unfolding program
beats_times = refl

count-IsOnce :
    (time id : ℕ)
    → IsOnce (record { time = time; id = id; kind = simple; is_daemon = false; action = count })
count-IsOnce time id = record {
  once = refl;
  quiet = λ now. quiet_read _ (λ w. quiet_write (w + 1) _ (quiet_finish true));
}

run-IsOnce_example :
    ((run 2 two_tasks).queue ≡ []) × (executed_ids (run 2 two_tasks) ≡ [] ++ 1 ∷ 2 ∷ [])
run-IsOnce_example =
    run-IsOnce 2 two_tasks two_tasks-IsSorted (count-IsOnce 5 1, (count-IsOnce 7 2, tt))
      (omega arith)
