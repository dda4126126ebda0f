-- ===== src/Kernel/Scheduler/Runs.antt =====
-- What holds of the queue in every run.
use scala_neko.Base.{
  ℕ, ◌+◌, ◌≤◌, ◌≢◌, inl, inr, sym, Bool, true, false, List, [], ◌∷◌, leb, ◌==◌, All, All-imp,
  Bool-cases, arith,
}
use scala_neko.Kernel.Scheduler.{
  Script, Kind, simple, periodic, Task, Scheduler, is_before, insert, without, due, later,
  run_script, reschedule, execute_at, execute_batch, execute_due, run,
}
use scala_neko.Kernel.Scheduler.Queue.{
  IsSorted, insert-IsSorted, without-IsSorted, later-IsSorted, All-insert, All-without, All-later,
  All-due,
}
use scala_neko.Kernel.Scheduler.Batch.{IsKept, run_script-keeps, run-keeps}

module _ {W : Type 0} where
  All-and :
      (P Q : Task W → Type 0) (ts : List (Task W)) → All P ts → All Q ts → All (λ t. P t × Q t) ts
  All-and P Q [] h k = tt
  All-and P Q (t ∷ ts) h k = ((h.0, k.0), All-and P Q ts h.1 k.1)

  abbrev Lacks : List (Task W) → ℕ → Type 0
  Lacks ts id = All (λ (u : Task W). u.id ≢ id) ts

  -- No two tasks have the same id.
  abbrev pub IsDistinct : List (Task W) → Type 0
  IsDistinct [] = Unit {0}
  IsDistinct (t ∷ ts) = Lacks ts t.id × IsDistinct ts

  insert-IsDistinct :
      (t : Task W) (us : List (Task W)) → Lacks us t.id → IsDistinct us → IsDistinct (insert t us)
  unfolding insert
  insert-IsDistinct t [] n h = (tt, tt)
  insert-IsDistinct t (u ∷ us) n h = elim (Bool-cases (is_before t u)) [
    | inl e ↦ rw e (n, h)
    | inr e ↦ elim (Bool-cases (is_before u t)) [
      | inl k ↦
          rw (e, k) (All-insert _ t us (λ same. n.0 (sym same)) h.0, insert-IsDistinct t us n.1 h.1)
      | inr k ↦ rw (e, k) h
    ]
  ]

  without-IsDistinct : (id : ℕ) (us : List (Task W)) → IsDistinct us → IsDistinct (without id us)
  unfolding without
  without-IsDistinct id [] h = tt
  without-IsDistinct id (u ∷ us) h = elim (Bool-cases (u.id == id)) [
    | inl e ↦ rw e (without-IsDistinct id us h.1)
    | inr e ↦ rw e (All-without _ id us h.0, without-IsDistinct id us h.1)
  ]

  -- The two parts of a queue with distinct ids, and that they share none.
  parts-IsDistinct :
      (now : ℕ) (us : List (Task W))
      → IsDistinct us
      → IsDistinct (due now us)
        × IsDistinct (later now us)
        × All (λ (t : Task W). Lacks (later now us) t.id) (due now us)
  unfolding due later
  parts-IsDistinct now [] h = (tt, tt, tt)
  parts-IsDistinct now (u ∷ us) h =
      let (a, b, c) = parts-IsDistinct now us h.1 in
      elim (Bool-cases (leb u.time now)) [
        | inl e ↦ rw e ((All-due _ _ now us (λ t k l. k) h.0, a), b, (All-later _ now us h.0, c))
        | inr e ↦ rw e (
          a,
          (All-later _ now us h.0, b),
          All-and _ _ _ (All-due _ _ now us (λ t k l same. k (sym same)) h.0) c,
        )
      ]

  abbrev Known : ℕ → List (Task W) → Type 0
  Known last ts = All (λ (t : Task W). t.id ≤ last) ts

  -- The queue while `ts` is what is left of a batch.
  pub record IsPending (ts : List (Task W)) (s : Scheduler W) : Type 0 where
    pub sorted : IsSorted s.queue
    pub distinct : IsDistinct s.queue
    pub known : Known s.last_id s.queue
    pub batch_distinct : IsDistinct ts
    pub batch_known : Known s.last_id ts
    pub apart : All (λ (t : Task W). Lacks s.queue t.id) ts

  grow : (last : ℕ) (ts : List (Task W)) → Known last ts → Known (last + 1) ts
  grow last ts h = All-imp ts (λ t k. omega arith) h

  unknown : (last : ℕ) (ts : List (Task W)) → Known last ts → Lacks ts (last + 1)
  unknown last ts h = All-imp ts (λ t k e. omega arith) h

  IsPending-IsKept : (ts : List (Task W)) → IsKept (IsPending ts)
  IsPending-IsKept ts = record {
    world = λ s w h. record {
      sorted = h.sorted;
      distinct = h.distinct;
      known = h.known;
      batch_distinct = h.batch_distinct;
      batch_known = h.batch_known;
      apart = h.apart;
    };
    scheduled = λ s time kind action h. record {
      sorted = insert-IsSorted _ s.queue h.sorted;
      distinct = insert-IsDistinct _ s.queue (unknown s.last_id s.queue h.known) h.distinct;
      known = All-insert _ _ s.queue (omega arith) (grow s.last_id s.queue h.known);
      batch_distinct = h.batch_distinct;
      batch_known = grow s.last_id ts h.batch_known;
      apart =
          All-imp ts (λ t k. All-insert _ _ s.queue (λ e. absurd (omega arith)) k.1)
            (All-and _ _ ts h.batch_known h.apart);
    };
    cancelled = λ s id h. record {
      sorted = without-IsSorted id s.queue h.sorted;
      distinct = without-IsDistinct id s.queue h.distinct;
      known = All-without _ id s.queue h.known;
      batch_distinct = h.batch_distinct;
      batch_known = h.batch_known;
      apart = All-imp ts (λ t k. All-without _ id s.queue k) h.apart;
    };
  }

  leave :
      (t : Task W) (ts : List (Task W)) (s : Scheduler W) → IsPending (t ∷ ts) s → IsPending ts s
  leave t ts s h = record {
    sorted = h.sorted;
    distinct = h.distinct;
    known = h.known;
    batch_distinct = h.batch_distinct.1;
    batch_known = h.batch_known.1;
    apart = h.apart.1;
  }

  -- A periodic task takes its place in the queue again, with its id.
  reschedule-IsPending :
      (kind : Kind) (now : ℕ) (t : Task W) (ts : List (Task W)) (r : Scheduler W × Bool)
      → IsPending (t ∷ ts) r.0
      → IsPending ts (reschedule kind now t r)
  unfolding reschedule
  reschedule-IsPending simple now t ts (s, again) h = leave t ts s h
  reschedule-IsPending (periodic period) now t ts (s, false) h = leave t ts s h
  reschedule-IsPending (periodic period) now t ts (s, true) h = record {
    sorted = insert-IsSorted _ s.queue h.sorted;
    distinct = insert-IsDistinct _ s.queue h.apart.0 h.distinct;
    known = All-insert _ _ s.queue h.batch_known.0 h.known;
    batch_distinct = h.batch_distinct.1;
    batch_known = h.batch_known.1;
    apart =
        All-imp ts (λ u k. All-insert _ _ s.queue (λ e. k.0 (sym e)) k.1)
          (All-and _ _ ts h.batch_distinct.0 h.apart.1);
  }

  execute_batch-IsPending :
      (now : ℕ) (ts : List (Task W)) (s : Scheduler W)
      → IsPending ts s
      → IsPending [] (execute_batch now ts s)
  unfolding execute_batch execute_at
  execute_batch-IsPending now [] s h = h
  execute_batch-IsPending now (t ∷ ts) s h = execute_batch-IsPending now ts _ (
      reschedule-IsPending t.kind now t ts _ (
        run_script-keeps _ (IsPending-IsKept (t ∷ ts)) (t.action now) _ (record {
          sorted = h.sorted;
          distinct = h.distinct;
          known = h.known;
          batch_distinct = h.batch_distinct;
          batch_known = h.batch_known;
          apart = h.apart;
        })))

  -- The queue is in order, no two of its tasks have the same id, and every id has been given out.
  abbrev pub IsSound : Scheduler W → Type 0
  IsSound s = IsPending [] s

  execute_due-IsSound : (now : ℕ) (s : Scheduler W) → IsSound s → IsSound (execute_due now s)
  unfolding execute_due
  execute_due-IsSound now s h =
      let (a, b, c) = parts-IsDistinct now s.queue h.distinct in
      execute_batch-IsPending now (due now s.queue) _ (record {
        sorted = later-IsSorted now s.queue h.sorted;
        distinct = b;
        known = All-later _ now s.queue h.known;
        batch_distinct = a;
        batch_known = All-due _ _ now s.queue (λ t k l. k) h.known;
        apart = c;
      })

  pub steps-IsSound : (fuel : ℕ) (s : Scheduler W) → IsSound s → IsSound (run fuel s)
  steps-IsSound = run-keeps IsSound execute_due-IsSound

  -- A queue that is in order, with ids that have been given out and that no two of its tasks share,
  -- stays so, whatever a script does to it and in any number of steps.
  pub run-IsSound :
      (fuel : ℕ) (sc : Script W) (s : Scheduler W)
      → IsSound s
      → IsSound (run fuel (run_script sc s).0)
  run-IsSound fuel sc s h = steps-IsSound fuel _ (run_script-keeps _ (IsPending-IsKept []) sc s h)
