-- ===== src/Kernel/Scheduler/Queue.antt =====
-- The queue of tasks: its order, and what the operations do to it.
use scala_neko.Base.{
  ℕ, ◌+◌, ◌≤◌, ◌<◌, ◌≡◌, ◌≢◌, ◌⊎◌, inl, inr, refl, ap, sym, subst, true, false, List, [], ◌∷◌, ◌++◌,
  leb, ◌==◌, All, All-imp, Bool-cases, arith,
}
use scala_neko.Kernel.Scheduler.{Task, Scheduler, is_before, insert, without, due, later, next_time}

module _ {W : Type 0} where
  -- Every task is before those behind it: the order of a sorted set, which has no task twice.
  abbrev pub IsSorted : List (Task W) → Type 0
  IsSorted [] = Unit {0}
  IsSorted (t ∷ ts) = All (λ u. is_before t u ≡ true) ts × IsSorted ts

  is_before_trans :
      (t u v : Task W) → is_before t u ≡ true → is_before u v ≡ true → is_before t v ≡ true
  unfolding is_before
  is_before_trans t u v h k = ground arith

  pub is_before-time : (t u : Task W) → is_before t u ≡ true → t.time ≤ u.time
  unfolding is_before
  is_before-time t u h = ground arith

  pub All-insert :
      (P : Task W → Type 0) (t : Task W) (us : List (Task W)) → P t → All P us → All P (insert t us)
  unfolding insert
  All-insert P t [] p h = (p, tt)
  All-insert P t (u ∷ us) p h = elim (Bool-cases (is_before t u)) [
    | inl e ↦ rw e (p, h)
    | inr e ↦ elim (Bool-cases (is_before u t)) [
      | inl k ↦ rw (e, k) (h.0, All-insert P t us p h.1)
      | inr k ↦ rw (e, k) h
    ]
  ]

  pub insert-IsSorted : (t : Task W) (us : List (Task W)) → IsSorted us → IsSorted (insert t us)
  unfolding insert
  insert-IsSorted t [] h = (tt, tt)
  insert-IsSorted t (u ∷ us) h = elim (Bool-cases (is_before t u)) [
    | inl e ↦ rw e ((e, All-imp us (λ v k. is_before_trans t u v e k) h.0), h)
    | inr e ↦ elim (Bool-cases (is_before u t)) [
      | inl k ↦ rw (e, k) (All-insert _ t us k h.0, insert-IsSorted t us h.1)
      | inr k ↦ rw (e, k) h
    ]
  ]

  pub All-without :
      (P : Task W → Type 0) (id : ℕ) (us : List (Task W)) → All P us → All P (without id us)
  unfolding without
  All-without P id [] h = tt
  All-without P id (u ∷ us) h = elim (Bool-cases (u.id == id)) [
    | inl e ↦ rw e (All-without P id us h.1)
    | inr e ↦ rw e (h.0, All-without P id us h.1)
  ]

  pub without-IsSorted : (id : ℕ) (us : List (Task W)) → IsSorted us → IsSorted (without id us)
  unfolding without
  without-IsSorted id [] h = tt
  without-IsSorted id (u ∷ us) h = elim (Bool-cases (u.id == id)) [
    | inl e ↦ rw e (without-IsSorted id us h.1)
    | inr e ↦ rw e (All-without _ id us h.0, without-IsSorted id us h.1)
  ]

  pub All-later :
      (P : Task W → Type 0) (now : ℕ) (us : List (Task W)) → All P us → All P (later now us)
  unfolding later
  All-later P now [] h = tt
  All-later P now (u ∷ us) h = elim (Bool-cases (leb u.time now)) [
    | inl e ↦ rw e (All-later P now us h.1)
    | inr e ↦ rw e (h.0, All-later P now us h.1)
  ]

  pub later-IsSorted : (now : ℕ) (us : List (Task W)) → IsSorted us → IsSorted (later now us)
  unfolding later
  later-IsSorted now [] h = tt
  later-IsSorted now (u ∷ us) h = elim (Bool-cases (leb u.time now)) [
    | inl e ↦ rw e (later-IsSorted now us h.1)
    | inr e ↦ rw e (All-later _ now us h.0, later-IsSorted now us h.1)
  ]

  pub All-due :
      (P Q : Task W → Type 0) (now : ℕ) (us : List (Task W))
      → ((t : Task W) → P t → t.time ≤ now → Q t)
      → All P us
      → All Q (due now us)
  unfolding due
  All-due P Q now [] f h = tt
  All-due P Q now (u ∷ us) f h = elim (Bool-cases (leb u.time now)) [
    | inl e ↦ rw e (f u h.0 (ground arith), All-due P Q now us f h.1)
    | inr e ↦ rw e (All-due P Q now us f h.1)
  ]

  later-All : (now : ℕ) (us : List (Task W)) → All (λ u. now < u.time) (later now us)
  unfolding later
  later-All now [] = tt
  later-All now (u ∷ us) = elim (Bool-cases (leb u.time now)) [
    | inl e ↦ rw e (later-All now us)
    | inr e ↦ rw e (ground arith, later-All now us)
  ]

  due-none :
      (now : ℕ) (us : List (Task W))
      → All (λ u. now < u.time) us
      → (due now us ≡ []) × (later now us ≡ us)
  unfolding due later
  due-none now [] h = (refl, refl)
  due-none now (u ∷ us) h =
      let none_due : leb u.time now ≡ false = ground arith in
      let (a, b) = due-none now us h.1 in rw none_due (a, ap (λ l. u ∷ l) b)

  -- A sorted queue is parted in two.
  pub due-append-later :
      (now : ℕ) (us : List (Task W)) → IsSorted us → due now us ++ later now us ≡ us
  unfolding due later
  due-append-later now [] h = refl
  due-append-later now (u ∷ us) h = elim (Bool-cases (leb u.time now)) [
    | inl e ↦ rw e (ap (λ l. u ∷ l) (due-append-later now us h.1))
    | inr e ↦
        let after : All (λ v. now < v.time) us =
          All-imp us
            (λ v k.
              let t = is_before-time u v k in let n : now < u.time = ground arith in omega arith)
            h.0 in
        let (a, b) = due-none now us after in rw (e, a, b) refl
  ]

  -- The tasks of a step are on time: at the time of the task, or in the tick after the last step.
  pub record IsOnTime (s : Scheduler W) (now : ℕ) (t : Task W) : Type 0 where
    pub not_early : t.time ≤ now
    pub not_late : (t.time ≡ now) ⊎ (now ≡ s.current_time + 1)

  IsOnTime-head :
      (s : Scheduler W) (head t : Task W)
      → head.time ≤ t.time
      → t.time ≤ next_time head s
      → IsOnTime s (next_time head s) t
  IsOnTime-head s head t h k = record { not_early = k; not_late = ground arith }

  -- In a queue in order, what a step executes comes before what it leaves; no task is executed
  -- before its time, and one is executed after it only if the step takes place in the tick after
  -- the step before it; what it leaves is for later.
  pub due-IsOnTime :
      (s : Scheduler W) (head : Task W) (rest : List (Task W))
      → s.queue ≡ head ∷ rest
      → IsSorted s.queue
      → (due (next_time head s) s.queue ++ later (next_time head s) s.queue ≡ s.queue)
        × All (IsOnTime s (next_time head s)) (due (next_time head s) s.queue)
        × All (λ t. next_time head s < t.time) (later (next_time head s) s.queue)
  due-IsOnTime s head rest e h =
      let sorted = subst IsSorted e h in
      let from_head : All (λ (t : Task W). head.time ≤ t.time) s.queue =
        subst (All (λ (t : Task W). head.time ≤ t.time)) (sym e)
          (omega arith, All-imp rest (λ t k. is_before-time head t k) sorted.0) in
      (
        due-append-later _ s.queue h,
        All-due _ _ _ s.queue (λ t k l. IsOnTime-head s head t k l) from_head,
        later-All _ s.queue,
      )

  -- Cancelling leaves no task with the id.
  pub without-none : (id : ℕ) (us : List (Task W)) → All (λ u. u.id ≢ id) (without id us)
  unfolding without
  without-none id [] = tt
  without-none id (u ∷ us) = elim (Bool-cases (u.id == id)) [
    | inl e ↦ rw e (without-none id us)
    | inr e ↦ rw e (ground arith, without-none id us)
  ]
