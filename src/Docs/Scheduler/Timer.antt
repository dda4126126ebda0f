-- ===== src/Docs/Scheduler/Timer.antt =====
-- The callback of the timer: what it takes, and what is left of the timer behind it.
use mathlib.Core.List.{flatten}
use scala_neko.Base.{
  suc, ap, ◌-◌, ◌≡◌, ◌≤◌, ◌<◌, refl, Bool, true, false, List, [], ◌∷◌, arith, length, Option, subst,
  sym, none, some, Option-cases, Bool-cases, inl, inr, ◌⊎◌, ◌∙◌,
}
use scala_neko.Base.Text.{Text}
use scala_neko.Docs.Scheduler.{
  Job, work, last, Scheduler, Calls, none_yet, then_add_label, then_clear_label, then_add,
  then_clear, new, take_first, add_label, clear_label, add, clear, next_work, do_work, Host,
  schedule_last, perform, resume, fire, Result, ok, thrown, Thrown, queue_empty,
}
use scala_neko.Docs.Scheduler.Invariant.{IsSound, pending, Calls-IsSound, new-IsSound}

module _ {ℓ} {V : Type ℓ} where
  -- What `nextWork` does on the list of all jobs.
  abbrev Takes : List (List (Job V)) → Option (Job V × List (List (Job V))) → Type ℓ
  Takes qs none = flatten qs ≡ []
  Takes qs (some (j, rest)) = (flatten qs ≡ j ∷ flatten rest) × (length rest ≡ length qs)

  take_first-Takes : (qs : List (List (Job V))) → Takes qs (take_first qs)
  unfolding take_first flatten
  take_first-Takes [] = refl
  take_first-Takes ([] ∷ qs) = elim (Option-cases (take_first qs)) [
    | inl e ↦ rw e (subst (Takes qs) e (take_first-Takes qs))
    | inr ((j, rest), e) ↦
        let (taken, same) = subst (Takes qs) e (take_first-Takes qs) in rw e (taken, ap suc same)
  ]
  take_first-Takes ((j ∷ q) ∷ qs) = (refl, refl)

  -- `nextWork` takes the oldest job of the first queue that has one, and leaves the labels, the
  -- timer and all other jobs in their order; it finds none only if there is none.
  pub next_work-pending :
      (s : Scheduler V)
      → ((pending s ≡ []) × (next_work s ≡ (none, s)))
        ⊎ ((j : Job V) × (t : Scheduler V) × (next_work s ≡ (some j, t))
            × (pending s ≡ j ∷ pending t)
            × (t.labels ≡ s.labels)
            × (length t.queues ≡ length s.queues)
            × (t.timeout ≡ s.timeout)
            × (t.timers ≡ s.timers))
  unfolding next_work
  next_work-pending s = elim (Option-cases (take_first s.queues)) [
    | inl e ↦ inl (subst (Takes s.queues) e (take_first-Takes s.queues), rw (e, next_work))
    | inr ((j, rest), e) ↦
        let (taken, same) = subst (Takes s.queues) e (take_first-Takes s.queues) in
        inr (j, record s { queues = rest }, rw (e, next_work), taken, refl, same, refl, refl)
  ]

  -- While the timer's id is kept, no call starts a timer.
  pub Calls-armed :
      {s t : Scheduler V}
      → Calls s t
      → s.timeout ≡ true
      → (t.timeout ≡ true) × (t.timers ≡ s.timers)
  unfolding add_label clear_label add clear
  Calls-armed (none_yet s) h = (h, refl)
  Calls-armed (then_add_label name p c) h = Calls-armed c h
  Calls-armed (then_clear_label {t = t} name c) h = ground (arith, Calls-armed c h)
  Calls-armed (then_add {t = t} name j c) h = ground (arith, Calls-armed c h)
  Calls-armed (then_clear {t = t} name c) h = ground (arith, Calls-armed c h)

  -- Between two events: a sound scheduler, with at most one timer, and none if the id is unset.
  pub record IsAtRest (s : Scheduler V) : Type ℓ where
    pub sound : IsSound s
    pub one_timer : s.timers ≤ 1
    pub no_timer : s.timeout ≡ false → s.timers ≡ 0

  Calls-timers :
      {s t : Scheduler V}
      → Calls s t
      → IsAtRest s
      → (t.timers ≤ 1) × (t.timeout ≡ false → t.timers ≡ 0)
  unfolding add_label clear_label add clear do_work
  Calls-timers (none_yet s) h = (h.one_timer, h.no_timer)
  Calls-timers (then_add_label name p c) h = Calls-timers c h
  Calls-timers (then_clear_label name c) h = ground (arith, Calls-timers c h)
  Calls-timers (then_add name j c) h = ground (arith, Calls-timers c h)
  Calls-timers (then_clear name c) h = ground (arith, Calls-timers c h)

  pub new-IsAtRest : IsAtRest (new {V = V})
  new-IsAtRest = record { sound = new-IsSound; one_timer = omega arith; no_timer = λ _. refl }

  pub Calls-IsAtRest : {s t : Scheduler V} → Calls s t → IsAtRest s → IsAtRest t
  Calls-IsAtRest c h =
      let (one, zero_if_unset) = Calls-timers c h in
      record { sound = Calls-IsSound c h.sound; one_timer = one; no_timer = zero_if_unset }

  -- While a job runs: a sound scheduler whose timer has gone off, with the old id still set.
  pub record IsRunning (s : Scheduler V) : Type ℓ where
    pub sound : IsSound s
    pub id_set : s.timeout ≡ true
    pub gone_off : s.timers ≡ 0

  pub Calls-IsRunning : {s t : Scheduler V} → Calls s t → IsRunning s → IsRunning t
  Calls-IsRunning c h =
      let (set, same) = Calls-armed c h.id_set in
      record { sound = Calls-IsSound c h.sound; id_set = set; gone_off = same ∙ h.gone_off }

  pub do_work-IsAtRest : {s : Scheduler V} → IsRunning s → IsAtRest (do_work s)
  unfolding do_work
  do_work-IsAtRest h = record {
    sound = record { paired = h.sound.paired; sorted = h.sound.sorted; idle = λ e. cc };
    one_timer = omega (arith, h.gone_off);
    no_timer = λ e. cc;
  }

  timeout_of_timer : (s : Scheduler V) → IsAtRest s → 0 < s.timers → s.timeout ≡ true
  timeout_of_timer s h armed = elim (Bool-cases s.timeout) [
    | inl on ↦ on
    | inr off ↦ absurd (omega (arith, h.no_timer off))
  ]

  resume-IsAtRest :
      (j : Job V) (r : Result V (Unit {0}) × Scheduler V)
      → IsRunning r.1
      → (resume j r).1 ≡ ok tt
      → IsAtRest (resume j r).2
  unfolding resume
  resume-IsAtRest j (ok tt, s) h e = do_work-IsAtRest h
  resume-IsAtRest j (thrown x, s) h e = cc

  resume-IsRunning :
      (j : Job V) (r : Result V (Unit {0}) × Scheduler V) {e : Thrown V}
      → IsRunning r.1
      → (resume j r).1 ≡ thrown e
      → IsRunning (resume j r).2
  unfolding resume
  resume-IsRunning j (ok tt, s) h e = cc
  resume-IsRunning j (thrown x, s) h e = h

module _ {ℓ} {V : Type ℓ} (host : Host V) where
  schedule_last-Calls :
      (name : Text) (fn : V) (s : Scheduler V) → Calls s (schedule_last host name fn s).1
  unfolding schedule_last
  schedule_last-Calls name fn s = on_test (queue_empty name s) refl
    where
      on_test :
          (r : Result V Bool) → queue_empty name s ≡ r → Calls s (schedule_last host name fn s).1
      on_test (ok true) e = rw (e, schedule_last) (host.apply_calls fn host.undefined [] s)
      on_test (ok false) e = rw (e, schedule_last) (then_add name (last name fn) (none_yet s))
      on_test (thrown x) e = rw (e, schedule_last) (none_yet s)

  -- A job does to the scheduler what calls of its methods do.
  pub perform-Calls : (j : Job V) (s : Scheduler V) → Calls s (perform host j s).1
  unfolding perform
  perform-Calls (work fn self none) s = host.apply_calls fn self [] s
  perform-Calls (work fn self (some args)) s = host.apply_calls fn self args s
  perform-Calls (last name fn) s = schedule_last-Calls name fn s

  -- The callback takes the first of all jobs, or finds none and unsets the id.
  pub fire-cases :
      (s : Scheduler V)
      → IsAtRest s
      → 0 < s.timers
      → ((pending s ≡ []) × (fire host s ≡ (none, ok tt, record s { timeout = false; timers = 0 })))
        ⊎ ((j : Job V) × (t : Scheduler V) × (pending s ≡ j ∷ pending t)
            × IsRunning t
            × (fire host s ≡ resume j (perform host j t)))
  unfolding fire
  fire-cases s h armed = elim (next_work-pending (record s { timers = s.timers - 1 })) [
    | inl (none_left, e) ↦ inl (none_left, rw (e, fire) (ground arith))
    | inr (j, t, e, taken, labels, queues, timeout, timers) ↦ inr (
      j,
      t,
      taken,
      record {
        sound = record {
          paired = rw (labels, queues) h.sound.paired;
          sorted = rw labels h.sound.sorted;
          idle = λ off. absurd (omega (arith, h.no_timer (sym timeout ∙ off)));
        };
        id_set = timeout ∙ timeout_of_timer s h armed;
        gone_off = omega (arith, h.one_timer);
      },
      rw (e, fire) (ap (λ p. resume j (perform host j p.1)) e),
    )
  ]

  -- After a job that returns, and after the last one, the scheduler is at rest again.
  pub fire-IsAtRest :
      (s : Scheduler V)
      → IsAtRest s
      → 0 < s.timers
      → (fire host s).1 ≡ ok tt
      → IsAtRest (fire host s).2
  fire-IsAtRest s h armed e = elim (fire-cases s h armed) [
    | inl (none_left, f) ↦ rw f (record {
      sound = record { paired = h.sound.paired; sorted = h.sound.sorted; idle = λ _. none_left };
      one_timer = omega arith;
      no_timer = λ _. refl;
    })
    | inr (j, t, _, run, f) ↦
        rw f (
          resume-IsAtRest j (perform host j t) (Calls-IsRunning (perform-Calls j t) run)
            (rw f at e))
  ]

  -- A job that throws leaves the id set and no timer.
  pub fire-IsRunning :
      (s : Scheduler V) {x : Thrown V}
      → IsAtRest s
      → 0 < s.timers
      → (fire host s).1 ≡ thrown x
      → IsRunning (fire host s).2
  fire-IsRunning s h armed e = elim (fire-cases s h armed) [
    | inl (_, f) ↦ absurd (cc)
    | inr (j, t, _, run, f) ↦ rw f (
        resume-IsRunning j (perform host j t) (Calls-IsRunning (perform-Calls j t) run) (rw f at e))
  ]
