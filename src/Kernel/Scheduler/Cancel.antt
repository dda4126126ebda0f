-- ===== src/Kernel/Scheduler/Cancel.antt =====
-- Cancelled tasks.
use scala_neko.Base.{
  ℕ, ◌≤◌, ◌≡◌, ◌≢◌, ap, sym, ◌∙◌, Bool, true, false, List, [], ◌∷◌, ◌++◌, All, All-append, arith,
  append_assoc, append-nil,
}
use scala_neko.Kernel.Scheduler.{
  Kind, simple, periodic, Task, Scheduler, due, cancel_task, reschedule, execute_at, execute_batch,
  execute_due, run,
}
use scala_neko.Kernel.Scheduler.Queue.{All-insert, All-without, All-later, All-due, without-none}
use scala_neko.Kernel.Scheduler.Batch.{IsKept, run_script-keeps, run-keeps}

-- What has been executed since `past` has not this id.
pub record IsSkipped (id : ℕ) (past executed : List (ℕ × ℕ)) : Type 0 where
  pub since : List (ℕ × ℕ)
  pub all : executed ≡ past ++ since
  pub other : All (λ e. e.1 ≢ id) since

executed-IsSkipped :
    (id now other : ℕ) (past executed : List (ℕ × ℕ))
    → other ≢ id
    → IsSkipped id past executed
    → IsSkipped id past (executed ++ (now, other) ∷ [])
executed-IsSkipped id now other past executed n h = record {
  since = h.since ++ (now, other) ∷ [];
  all = ap (λ l. l ++ (now, other) ∷ []) h.all ∙ append_assoc past h.since ((now, other) ∷ []);
  other = All-append _ h.since _ h.other (n, tt);
}

module _ {W : Type 0} where
  -- The id is not in the queue, and it has not been executed since `past`.
  record IsGone (id : ℕ) (past : List (ℕ × ℕ)) (s : Scheduler W) : Type 0 where
    known : id ≤ s.last_id
    absent : All (λ (u : Task W). u.id ≢ id) s.queue
    skipped : IsSkipped id past s.executed

  IsGone-IsKept : (id : ℕ) (past : List (ℕ × ℕ)) → IsKept (IsGone id past)
  IsGone-IsKept id past = record {
    world = λ s w h. record { known = h.known; absent = h.absent; skipped = h.skipped };
    scheduled = λ s time kind action h.
        let known = h.known in
        record {
          known = omega arith;
          absent = All-insert _ _ s.queue (λ e. absurd (omega arith)) h.absent;
          skipped = h.skipped;
        };
    cancelled = λ s other h. record {
      known = h.known;
      absent = All-without _ other s.queue h.absent;
      skipped = h.skipped;
    };
  }

  reschedule-IsGone :
      (id : ℕ) (past : List (ℕ × ℕ)) (kind : Kind) (now : ℕ) (t : Task W) (r : Scheduler W × Bool)
      → t.id ≢ id
      → IsGone id past r.0
      → IsGone id past (reschedule kind now t r)
  unfolding reschedule
  reschedule-IsGone id past simple now t (s, again) n h = h
  reschedule-IsGone id past (periodic period) now t (s, false) n h = h
  reschedule-IsGone id past (periodic period) now t (s, true) n h = record {
    known = h.known;
    absent = All-insert _ _ s.queue n h.absent;
    skipped = h.skipped;
  }

  execute_batch-IsGone :
      (id : ℕ) (past : List (ℕ × ℕ)) (now : ℕ) (ts : List (Task W)) (s : Scheduler W)
      → All (λ (t : Task W). t.id ≢ id) ts
      → IsGone id past s
      → IsGone id past (execute_batch now ts s)
  unfolding execute_batch execute_at
  execute_batch-IsGone id past now [] s n h = h
  execute_batch-IsGone id past now (t ∷ ts) s n h = execute_batch-IsGone id past now ts _ n.1 (
      reschedule-IsGone id past t.kind now t _ n.0 (
        run_script-keeps _ (IsGone-IsKept id past) (t.action now) _ (record {
          known = h.known;
          absent = h.absent;
          skipped = executed-IsSkipped id now t.id past s.executed n.0 h.skipped;
        })))

  execute_due-IsGone :
      (id : ℕ) (past : List (ℕ × ℕ)) (now : ℕ) (s : Scheduler W)
      → IsGone id past s
      → IsGone id past (execute_due now s)
  unfolding execute_due
  execute_due-IsGone id past now s h =
      execute_batch-IsGone id past now (due now s.queue) _
        (All-due _ _ now s.queue (λ t k l. k) h.absent)
        (record { known = h.known; absent = All-later _ now s.queue h.absent; skipped = h.skipped })

  -- If the id of a task has been given out, then once it is cancelled between two steps no run
  -- executes it, however long and whatever the actions of the other tasks do.
  pub run-cancel_task :
      (fuel id : ℕ) (s : Scheduler W)
      → id ≤ s.last_id
      → IsSkipped id s.executed (run fuel (cancel_task id s)).executed
  run-cancel_task fuel id s h =
      (run-keeps (IsGone id s.executed) (execute_due-IsGone id s.executed) fuel _ (record {
        known = h;
        absent = without-none id s.queue;
        skipped = record { since = []; all = sym (append-nil s.executed); other = tt };
      })).skipped
