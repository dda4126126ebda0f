-- ===== src/Kernel/Scheduler/Batch.antt =====
-- One batch: which tasks it executes, and when.
use scala_neko.Base.{
  List-cases, ℕ, zero, suc, ◌+◌, ◌<◌, ◌≡◌, ◌⊎◌, inl, inr, refl, ap, sym, subst, ◌∙◌, Bool, true,
  false, List, [], ◌∷◌, ◌++◌, map, if◌then◌else◌, arith, append_assoc, append-nil,
}
use scala_neko.Kernel.Scheduler.{
  Script, finish, read, write, schedule_at, schedule_after, periodically, cancel, Kind, simple,
  periodic, Task, Scheduler, due, cancel_task, schedule_new, run_script, reschedule,
  record_execution, execute_at, execute_batch, next_time, execute_due, execute_next, run,
}

module _ {W : Type 0} where
  -- What every operation that a script can call preserves.
  pub record IsKept (P : Scheduler W → Type 0) : Type 0 where
    pub world : (s : Scheduler W) (w : W) → P s → P (record s { world = w })
    pub scheduled :
        (s : Scheduler W) (time : ℕ) (kind : Kind) (action : ℕ → Script W)
        → P s
        → P (schedule_new time kind action s)
    pub cancelled : (s : Scheduler W) (id : ℕ) → P s → P (cancel_task id s)

  -- A script preserves what the operations do.
  pub run_script-keeps :
      (P : Scheduler W → Type 0) (kept : IsKept P) (sc : Script W) (s : Scheduler W)
      → P s
      → P (run_script sc s).0
  unfolding run_script
  run_script-keeps P kept (finish again) s h = h
  run_script-keeps P kept (read next) s h = run_script-keeps P kept (next s.world) s h
  run_script-keeps P kept (write w next) s h = run_script-keeps P kept next _ (kept.world s w h)
  run_script-keeps P kept (schedule_at time action next) s h =
      run_script-keeps P kept (next (s.last_id + 1)) _ (kept.scheduled s time simple action h)
  run_script-keeps P kept (schedule_after delay action next) s h =
      run_script-keeps P kept (next (s.last_id + 1)) _
        (kept.scheduled s (s.current_time + delay) simple action h)
  run_script-keeps P kept (periodically delay period action next) s h =
      run_script-keeps P kept (next (s.last_id + 1)) _
        (kept.scheduled s (s.current_time + delay) (periodic period) action h)
  run_script-keeps P kept (cancel id next) s h =
      run_script-keeps P kept next _ (kept.cancelled s id h)

  -- The records of a batch at a time.
  abbrev pub records : ℕ → List (Task W) → List (ℕ × ℕ)
  records time ts = map (λ (t : Task W). (time, t.id)) ts

  -- The clock and the executions recorded.
  pub record IsAt (time : ℕ) (executed : List (ℕ × ℕ)) (s : Scheduler W) : Type 0 where
    pub clock : s.current_time ≡ time
    pub past : s.executed ≡ executed

  IsAt-IsKept : (time : ℕ) (executed : List (ℕ × ℕ)) → IsKept (IsAt time executed)
  IsAt-IsKept time executed = record {
    world = λ s w h. record { clock = h.clock; past = h.past };
    scheduled = λ s t kind action h. record { clock = h.clock; past = h.past };
    cancelled = λ s id h. record { clock = h.clock; past = h.past };
  }

  reschedule-IsAt :
      (kind : Kind) (now : ℕ) (t : Task W) (time : ℕ) (executed : List (ℕ × ℕ))
      (r : Scheduler W × Bool)
      → IsAt time executed r.0
      → IsAt time executed (reschedule kind now t r)
  unfolding reschedule
  reschedule-IsAt simple now t time executed (s, again) h = h
  reschedule-IsAt (periodic period) now t time executed (s, true) h = record {
    clock = h.clock;
    past = h.past;
  }
  reschedule-IsAt (periodic period) now t time executed (s, false) h = h

  execute_at-IsAt :
      (now : ℕ) (t : Task W) (s : Scheduler W) (time : ℕ) (executed : List (ℕ × ℕ))
      → IsAt time executed s
      → IsAt time (executed ++ (now, t.id) ∷ []) (execute_at now t s)
  unfolding execute_at
  execute_at-IsAt now t s time executed h =
      let recorded : IsAt time (executed ++ (now, t.id) ∷ []) (record_execution now t s) = record {
        clock = h.clock;
        past = ap (λ l. l ++ (now, t.id) ∷ []) h.past;
      } in
      reschedule-IsAt t.kind now t _ _ _ (
        run_script-keeps _ (IsAt-IsKept time (executed ++ (now, t.id) ∷ [])) (t.action now) _
          recorded)

  -- A batch is executed whole and in order, whatever its actions do.
  pub execute_batch-IsAt :
      (now : ℕ) (ts : List (Task W)) (s : Scheduler W) (time : ℕ) (executed : List (ℕ × ℕ))
      → IsAt time executed s
      → IsAt time (executed ++ records now ts) (execute_batch now ts s)
  unfolding execute_batch
  execute_batch-IsAt now [] s time executed h = record {
    clock = h.clock;
    past = h.past ∙ sym (append-nil executed);
  }
  execute_batch-IsAt now (t ∷ ts) s time executed h =
      let rest = execute_batch-IsAt now ts _ time _ (execute_at-IsAt now t s time executed h) in
      record {
        clock = rest.clock;
        past = rest.past ∙ append_assoc executed ((now, t.id) ∷ []) (records now ts);
      }

  pub queue-cases :
      (s : Scheduler W)
      → (s.queue ≡ []) ⊎ ((head : Task W) × (rest : List (Task W)) × (s.queue ≡ head ∷ rest))
  queue-cases s = List-cases s.queue

  pub execute_next-empty : (s : Scheduler W) → s.queue ≡ [] → execute_next s ≡ s
  unfolding execute_next
  execute_next-empty s e = ap (λ q. elim q [ [] ↦ s | h ∷ _ ↦ execute_due (next_time h s) s ]) e

  pub execute_next-due :
      (s : Scheduler W) (head : Task W) (rest : List (Task W))
      → s.queue ≡ head ∷ rest
      → execute_next s ≡ execute_due (next_time head s) s
  unfolding execute_next
  execute_next-due s head rest e =
      ap (λ q. elim q [ [] ↦ s | h ∷ _ ↦ execute_due (next_time h s) s ]) e

  -- A step with a task in the queue moves the clock forward, to the next tick or to the time of the
  -- first task if that is later, and executes at that time all tasks that are due then, in the
  -- order of the queue and each once, whatever the actions do: one that is cancelled by another of
  -- the same step is executed too.
  pub execute_next-IsAt :
      (s : Scheduler W) (head : Task W) (rest : List (Task W))
      → s.queue ≡ head ∷ rest
      → (s.current_time < next_time head s)
        × IsAt
            (next_time head s)
            (s.executed ++ records (next_time head s) (due (next_time head s) s.queue))
            (execute_next s)
  unfolding execute_due
  execute_next-IsAt s head rest e = (
    omega arith,
    subst
        (IsAt (next_time head s)
          (s.executed ++ records (next_time head s) (due (next_time head s) s.queue)))
        (sym (execute_next-due s head rest e))
        (execute_batch-IsAt (next_time head s) _ _ _ s.executed
          (record { clock = refl; past = refl })),
  )

  pub run-zero : (s : Scheduler W) → run zero s ≡ s
  unfolding run
  run-zero s = refl

  pub run-empty : (fuel : ℕ) (s : Scheduler W) → s.queue ≡ [] → run fuel s ≡ s
  unfolding run
  run-empty zero s e = refl
  run-empty (suc n) s e =
      ap (λ q. if elim q [ [] ↦ true | _ ∷ _ ↦ false ] then s else run n (execute_next s)) e

  pub run-due :
      (fuel : ℕ) (s : Scheduler W) (head : Task W) (rest : List (Task W))
      → s.queue ≡ head ∷ rest
      → run (suc fuel) s ≡ run fuel (execute_due (next_time head s) s)
  unfolding run
  run-due n s head rest e =
      ap (λ q. if elim q [ [] ↦ true | _ ∷ _ ↦ false ] then s else run n (execute_next s)) e
      ∙ ap (run n) (execute_next-due s head rest e)

  -- A run preserves what every step does.
  pub run-keeps :
      (P : Scheduler W → Type 0)
      → ((now : ℕ) (s : Scheduler W) → P s → P (execute_due now s))
      → (fuel : ℕ) (s : Scheduler W) → P s
      → P (run fuel s)
  run-keeps P step zero s h = subst P (sym (run-zero s)) h
  run-keeps P step (suc n) s h = elim (queue-cases s) [
    | inl e ↦ subst P (sym (run-empty (suc n) s e)) h
    | inr (head, rest, e) ↦
        subst P (sym (run-due n s head rest e)) (run-keeps P step n _ (step (next_time head s) s h))
  ]
