-- ===== src/Kernel/Scheduler/Periodic.antt =====
-- Periodic tasks.
use scala_neko.Base.{
  ℕ, zero, suc, ◌+◌, ◌<◌, ◌≡◌, refl, ap, sym, ◌∙◌, Bool, true, false, List, [], ◌∷◌, ◌++◌, leb,
  arith, append_assoc, append-nil,
}
use scala_neko.Kernel.Scheduler.{
  finish, read, write, periodic, Task, Scheduler, insert, due, later, run_script, reschedule,
  execute_at, execute_batch, execute_due, next_time, run,
}
use scala_neko.Kernel.Scheduler.Batch.{run-zero, run-due}

-- The executions of a task every `period`, `n` times, from `time` on.
unfoldable pub beats : ℕ → ℕ → ℕ → ℕ → List (ℕ × ℕ)
beats id period time zero = []
beats id period time (suc n) = (time, id) ∷ beats id period (time + period) n

module _ {W : Type 0} where
  -- A change of the rest of the program at each of them.
  unfoldable pub changes : (ℕ → W → W) → ℕ → ℕ → ℕ → W → W
  changes f period time zero w = w
  changes f period time (suc n) w = changes f period (time + period) n (f time w)

  -- A task that changes the rest of the program and goes on.
  abbrev pub repeating : (ℕ → W → W) → ℕ → ℕ → ℕ → Bool → Task W
  repeating f id period time daemon = record {
    time = time;
    id = id;
    kind = periodic period;
    is_daemon = daemon;
    action = λ now. read (λ w. write (f now w) (finish true));
  }

  abbrev pub alone : Task W → ℕ → ℕ → W → List (ℕ × ℕ) → Scheduler W
  alone t now last w past = record {
    queue = t ∷ [];
    current_time = now;
    last_id = last;
    world = w;
    executed = past;
  }

  execute_due-repeating :
      (f : ℕ → W → W) (id period time : ℕ) (daemon : Bool) (now last : ℕ) (w : W)
      (past : List (ℕ × ℕ))
      → execute_due time (alone (repeating f id period time daemon) now last w past)
        ≡ alone
            (repeating f id period (time + period) false)
            time
            last
            (f time w)
            (past ++ (time, id) ∷ [])
  unfolding execute_due due later execute_batch execute_at run_script reschedule insert
  execute_due-repeating f id period time daemon now last w past =
      let is_due : leb time time ≡ true = ground arith in rw is_due refl

  execute_next-repeating :
      (f : ℕ → W → W) (id period time : ℕ) (daemon : Bool) (now last : ℕ) (w : W)
      (past : List (ℕ × ℕ))
      → now < time
      → next_time
          (repeating f id period time daemon)
          (alone (repeating f id period time daemon) now last w past)
        ≡ time
  execute_next-repeating f id period time daemon now last w past h = omega arith

  -- If only a periodic task is in the queue, for a later time, whose period is not zero and which
  -- goes on, then n steps execute it n times, at its time and at every period from then on, each
  -- time with the state of the program that the execution before it has left.
  pub run-repeating :
      (n : ℕ) (f : ℕ → W → W) (id period time : ℕ) (daemon : Bool) (now last : ℕ) (w : W)
      (past : List (ℕ × ℕ))
      → 0 < period
      → now < time
      → let after = run n (alone (repeating f id period time daemon) now last w past) in
        (after.executed ≡ past ++ beats id period time n)
        × (after.world ≡ changes f period time n w)
  unfolding beats changes
  run-repeating zero f id period time daemon now last w past p h =
      let e = run-zero (alone (repeating f id period time daemon) now last w past) in
      (
        ap (λ (s : Scheduler W). s.executed) e ∙ sym (append-nil past),
        ap (λ (s : Scheduler W). s.world) e,
      )
  run-repeating (suc n) f id period time daemon now last w past p h =
      let t = repeating f id period time daemon in
      let step =
        run-due n (alone t now last w past) t [] refl
        ∙ ap (λ k. run n (execute_due k (alone t now last w past)))
            (execute_next-repeating f id period time daemon now last w past h)
        ∙ ap (run n) (execute_due-repeating f id period time daemon now last w past) in
      let (a, b) =
        run-repeating n f id period (time + period) false time last (f time w)
          (past ++ (time, id) ∷ []) p (omega arith) in
      (
        ap (λ (s : Scheduler W). s.executed) step
            ∙ a
            ∙ append_assoc past ((time, id) ∷ []) (beats id period (time + period) n),
        ap (λ (s : Scheduler W). s.world) step ∙ b,
      )
