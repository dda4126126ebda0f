-- ===== src/Docs/Scheduler/Runs.antt =====
-- Whole runs: the page's calls and the timer's callbacks, in any order.
use scala_neko.Base.{
  Option, ℕ, zero, suc, ◌≡◌, ◌<◌, ◌≤◌, refl, ap, false, true, List, [], ◌∷◌, arith, length, none,
  some, inl, inr, ◌⊎◌, All, ◌∙◌, subst,
}
use scala_neko.Docs.Scheduler.{
  Scheduler, Calls, Host, perform, resume, fire, new, Job, Result, ok, thrown, Thrown, do_work,
}
use scala_neko.Docs.Scheduler.Invariant.{IsSound, pending}
use scala_neko.Docs.Scheduler.Timer.{
  IsAtRest, IsRunning, Calls-IsAtRest, Calls-IsRunning, do_work-IsAtRest, fire-cases, fire-IsAtRest,
  fire-IsRunning, new-IsAtRest,
}

module _ {ℓ} {V : Type ℓ} where
  collect :
      (Scheduler V → List (Job V) × Scheduler V)
      → Option (Job V) × Result V (Unit {0}) × Scheduler V
      → List (Job V) × Scheduler V
  collect rest (none, r, t) = ([], t)
  collect rest (some j, r, t) = let (done, u) = rest t in (j ∷ done, u)

module _ {ℓ} {V : Type ℓ} (host : Host V) where
  -- The page calls methods, or the browser makes a callback that it owes.
  pub data Step (s t : Scheduler V) : Type ℓ where
    page : Calls s t → Step s t
    timer : 0 < s.timers → t ≡ (fire host s).2 → Step s t

  pub data Reach (s : Scheduler V) : Scheduler V → Type ℓ where
    here : Reach s s
    next : {t u : Scheduler V} → Reach s t → Step t u → Reach s u

  -- A stalled scheduler (`IsRunning`, with no job that runs) stays stalled.
  Step-IsRunning : {s t : Scheduler V} → Step s t → IsRunning s → IsRunning t
  Step-IsRunning (page c) h = Calls-IsRunning c h
  Step-IsRunning (timer armed e) h = absurd (omega (arith, h.gone_off))

  Reach-IsRunning : {s t : Scheduler V} → Reach s t → IsRunning s → IsRunning t
  Reach-IsRunning here h = h
  Reach-IsRunning (next r st) h = Step-IsRunning st (Reach-IsRunning r h)

  Step-IsAtRest : {s t : Scheduler V} → Step s t → IsAtRest s → IsAtRest t ⊎ IsRunning t
  Step-IsAtRest (page c) h = inl (Calls-IsAtRest c h)
  Step-IsAtRest {s} {t} (timer armed e) h = on_result (fire host s).1 refl
    where
      on_result : (r : Result V (Unit {0})) → (fire host s).1 ≡ r → IsAtRest t ⊎ IsRunning t
      on_result (ok _) f = inl (rw e (fire-IsAtRest host s h armed f))
      on_result (thrown x) f = inr (rw e (fire-IsRunning host s h armed f))

  pub Reach-IsAtRest : {s t : Scheduler V} → Reach s t → IsAtRest s → IsAtRest t ⊎ IsRunning t
  Reach-IsAtRest here h = inl h
  Reach-IsAtRest (next r st) h = elim (Reach-IsAtRest r h) [
    | inl rests ↦ Step-IsAtRest st rests
    | inr stalls ↦ inr (Step-IsRunning st stalls)
  ]

  -- In every scheduler that page code, jobs and callbacks can reach, each label has its one queue,
  -- the labels stand in the order of their priorities, and either no job waits, or a timer is set,
  -- or a job has thrown; there is never more than one timer.
  pub Reach-IsSound :
      {t : Scheduler V}
      → Reach new t
      → IsSound t × (t.timers ≤ 1) × ((t.timers ≡ 0) ⊎ (t.timeout ≡ true))
  Reach-IsSound r = elim (Reach-IsAtRest r new-IsAtRest) [
    | inl h ↦ (h.sound, h.one_timer, ground (arith, h.no_timer))
    | inr h ↦ (h.sound, omega (arith, h.gone_off), inl h.gone_off)
  ]

  -- After a job that throws, no later call and no later callback sets a timer again, in any run:
  -- the id stays set, so `add` starts none, and what waits is never taken.
  pub thrown-stalls :
      {s t : Scheduler V} {x : Thrown V}
      → IsAtRest s
      → 0 < s.timers
      → (fire host s).1 ≡ thrown x
      → Reach (fire host s).2 t
      → (t.timers ≡ 0) × (t.timeout ≡ true)
  thrown-stalls {s} h armed e r =
      let stalled = Reach-IsRunning r (fire-IsRunning host s h armed e) in
      (stalled.gone_off, stalled.id_set)

  -- The browser makes callbacks until one finds no job, `fuel` at most.
  unfoldable pub drain : ℕ → Scheduler V → List (Job V) × Scheduler V
  unfolding collect
  drain zero s = ([], s)
  drain (suc fuel) s = collect (drain fuel) (fire host s)

  -- A job that returns and calls nothing of the scheduler.
  abbrev pub IsInert : Job V → Type ℓ
  IsInert j = (s : Scheduler V) → perform host j s ≡ (ok tt, s)

  -- With a timer set, jobs that only do their own work are all made, each once, in the order of
  -- the priorities of their labels and within a label in the order of their arrival; then the
  -- scheduler is empty, with no timer and the id unset.
  pub drain_lem :
      (fuel : ℕ) (s : Scheduler V)
      → IsAtRest s
      → 0 < s.timers
      → All IsInert (pending s)
      → length (pending s) < fuel
      → ((drain fuel s).0 ≡ pending s)
        × (pending (drain fuel s).1 ≡ [])
        × ((drain fuel s).1.timers ≡ 0)
        × ((drain fuel s).1.timeout ≡ false)
  unfolding drain resume do_work
  drain_lem zero s h armed inert enough = absurd (omega arith)
  drain_lem (suc fuel) s h armed inert enough = elim (fire-cases host s h armed) [
    | inl (none_left, f) ↦ rw (f, collect, none_left) (refl, refl, refl, refl)
    | inr (j, t, taken, run, f) ↦
        let inert' = subst (All IsInert) taken inert in
        let made : fire host s ≡ (some j, ok tt, do_work t) = f ∙ ap (resume j) (inert'.0 t) in
        let (order, empty, off, unset) =
          drain_lem fuel (do_work t) (do_work-IsAtRest run) (omega arith) inert'.1
            (omega (arith, ap length taken)) in
        rw (made, collect, taken) (ap (j ∷◌) order, empty, off, unset)
  ]
