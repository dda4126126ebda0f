-- ===== src/Kernel/Scheduler/Termination.antt =====
-- Runs that come to an end.
use scala_neko.Base.{
  ℕ, zero, suc, ◌≤◌, ◌≡◌, inl, inr, refl, ap, sym, subst, ◌∙◌, Bool, true, List, [], ◌∷◌, ◌++◌, map,
  leb, length, All, Bool-cases, arith, append_assoc, append-nil,
}
use scala_neko.Kernel.Scheduler.{
  Script, finish, read, write, simple, Task, Scheduler, due, later, run_script, reschedule,
  record_execution, execute_at, execute_batch, execute_due, next_time, run,
}
use scala_neko.Kernel.Scheduler.Queue.{
  IsSorted, All-later, All-due, later-IsSorted, due-append-later,
}
use scala_neko.Kernel.Scheduler.Batch.{records, execute_batch-IsAt, queue-cases, run-empty, run-due}

module _ {W : Type 0} where
  -- A script that neither schedules nor cancels.
  pub data IsQuiet : Script W → Type 0 where
    quiet_finish : (again : Bool) → IsQuiet (finish again)
    quiet_read : (next : W → Script W) → ((w : W) → IsQuiet (next w)) → IsQuiet (read next)
    quiet_write : (w : W) (next : Script W) → IsQuiet next → IsQuiet (write w next)

  pub record IsOnce (t : Task W) : Type 0 where
    pub once : t.kind ≡ simple
    pub quiet : (now : ℕ) → IsQuiet (t.action now)

  queue-run_script :
      (sc : Script W) (s : Scheduler W) → IsQuiet sc → (run_script sc s).0.queue ≡ s.queue
  unfolding run_script
  queue-run_script sc s (quiet_finish again) = refl
  queue-run_script sc s (quiet_read next h) = queue-run_script (next s.world) s (h s.world)
  queue-run_script sc s (quiet_write w next h) = queue-run_script next _ h

  queue-execute_at :
      (now : ℕ) (t : Task W) (s : Scheduler W) → IsOnce t → (execute_at now t s).queue ≡ s.queue
  unfolding execute_at reschedule
  queue-execute_at now t s h =
      let r = run_script (t.action now) (record_execution now t s) in
      ap (λ k. (reschedule k now t r).queue) h.once
      ∙ queue-run_script (t.action now) (record_execution now t s) (h.quiet now)

  queue-execute_batch :
      (now : ℕ) (ts : List (Task W)) (s : Scheduler W)
      → All IsOnce ts
      → (execute_batch now ts s).queue ≡ s.queue
  unfolding execute_batch
  queue-execute_batch now [] s h = refl
  queue-execute_batch now (t ∷ ts) s h =
      queue-execute_batch now ts _ h.1 ∙ queue-execute_at now t s h.0

  abbrev pub ids : List (Task W) → List ℕ
  ids ts = map (λ (t : Task W). t.id) ts

  abbrev pub executed_ids : Scheduler W → List ℕ
  executed_ids s = map (λ e. e.1) s.executed

  records-ids :
      (now : ℕ) (executed : List (ℕ × ℕ)) (ts : List (Task W))
      → map (λ e. e.1) (executed ++ records now ts) ≡ map (λ e. e.1) executed ++ ids ts
  records-ids now [] [] = refl
  records-ids now [] (t ∷ ts) = ap (λ l. t.id ∷ l) (records-ids now [] ts)
  records-ids now (e ∷ executed) ts = ap (λ l. e.1 ∷ l) (records-ids now executed ts)

  ids-append : (ts us : List (Task W)) → ids (ts ++ us) ≡ ids ts ++ ids us
  ids-append [] us = refl
  ids-append (t ∷ ts) us = ap (λ l. t.id ∷ l) (ids-append ts us)

  length-later : (now : ℕ) (ts : List (Task W)) → length (later now ts) ≤ length ts
  unfolding later
  length-later now [] = omega arith
  length-later now (t ∷ ts) =
      let rest = length-later now ts in
      elim (Bool-cases (leb t.time now)) [ inl e ↦ rw e (omega arith) | inr e ↦ rw e (omega arith) ]

  -- The step takes the first task away.
  length-later_head :
      (s : Scheduler W) (head : Task W) (rest : List (Task W))
      → length (later (next_time head s) (head ∷ rest)) ≤ length rest
  unfolding later
  length-later_head s head rest =
      let is_due : leb head.time (next_time head s) ≡ true = ground arith in
      rw is_due (length-later (next_time head s) rest)

  -- What a step over such tasks leaves.
  execute_due-IsOnce :
      (now : ℕ) (s : Scheduler W)
      → All IsOnce s.queue
      → ((execute_due now s).queue ≡ later now s.queue)
        × (executed_ids (execute_due now s) ≡ executed_ids s ++ ids (due now s.queue))
  unfolding execute_due
  execute_due-IsOnce now s h = (
    queue-execute_batch now (due now s.queue) _ (All-due _ _ now s.queue (λ t k l. k) h),
    ap (map (λ e. e.1))
          (execute_batch-IsAt now (due now s.queue) _ now s.executed
            (record { clock = refl; past = refl })).past
        ∙ records-ids now s.executed (due now s.queue),
  )

  later-head :
      (s : Scheduler W) (head : Task W) (rest : List (Task W)) (fuel : ℕ)
      → s.queue ≡ head ∷ rest
      → length s.queue ≤ suc fuel
      → length (later (next_time head s) s.queue) ≤ fuel
  later-head s head rest fuel e h =
      let shorter = length-later_head s head rest in
      let bound : suc (length rest) ≤ suc fuel = subst (λ q. length q ≤ suc fuel) e h in
      subst (λ q. length (later (next_time head s) q) ≤ fuel) (sym e) (omega arith)

  -- The result of a run from `s`.
  abbrev Ends : Scheduler W → Scheduler W → Type 0
  Ends s after = (after.queue ≡ []) × (executed_ids after ≡ executed_ids s ++ ids s.queue)

  Ends-empty : (fuel : ℕ) (s : Scheduler W) → s.queue ≡ [] → Ends s (run fuel s)
  Ends-empty fuel s e =
      subst (Ends s) (sym (run-empty fuel s e))
        (e, sym (append-nil (executed_ids s)) ∙ ap (λ q. executed_ids s ++ ids q) (sym e))

  -- One step, and a run of what it leaves.
  Ends-step :
      (now : ℕ) (s after : Scheduler W)
      → IsSorted s.queue
      → All IsOnce s.queue
      → Ends (execute_due now s) after
      → Ends s after
  Ends-step now s after sorted once (empty, past) =
      let (left, first) = execute_due-IsOnce now s once in
      (
        empty,
        past
            ∙ ap (λ l. l ++ ids (execute_due now s).queue) first
            ∙ ap (λ q. (executed_ids s ++ ids (due now s.queue)) ++ ids q) left
            ∙ append_assoc (executed_ids s) (ids (due now s.queue)) (ids (later now s.queue))
            ∙ ap (λ l. executed_ids s ++ l)
                (sym (ids-append (due now s.queue) (later now s.queue))
                  ∙ ap ids (due-append-later now s.queue sorted)),
      )

  -- If the queue is in order and its tasks are to be executed once and neither schedule nor cancel
  -- others, then a simulation with as much fuel as there are tasks ends with an empty queue, and has
  -- executed every one of them once, in the order of the queue.
  pub run-IsOnce :
      (fuel : ℕ) (s : Scheduler W)
      → IsSorted s.queue
      → All IsOnce s.queue
      → length s.queue ≤ fuel
      → ((run fuel s).queue ≡ []) × (executed_ids (run fuel s) ≡ executed_ids s ++ ids s.queue)
  run-IsOnce zero s sorted once enough = elim (queue-cases s) [
    | inl e ↦ Ends-empty zero s e
    | inr (head, rest, e) ↦
        let none_left : suc (length rest) ≤ 0 = subst (λ q. length q ≤ 0) e enough in
        absurd (omega arith)
  ]
  run-IsOnce (suc fuel) s sorted once enough = elim (queue-cases s) [
    | inl e ↦ Ends-empty (suc fuel) s e
    | inr (head, rest, e) ↦
        let now = next_time head s in
        let left = sym (execute_due-IsOnce now s once).0 in
        subst (Ends s) (sym (run-due fuel s head rest e)) (
          Ends-step now s (run fuel (execute_due now s)) sorted once (
            run-IsOnce fuel (execute_due now s)
              (subst IsSorted left (later-IsSorted now s.queue sorted))
              (subst (All IsOnce) left (All-later _ now s.queue once))
              (subst (λ q. length q ≤ fuel) left (later-head s head rest fuel e enough))))
  ]
