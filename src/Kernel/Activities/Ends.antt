-- ===== src/Kernel/Activities/Ends.antt =====
-- The end of the lockstep execution.
use scala_neko.Base.{
  ℕ, ◌≡◌, sym, subst, Bool, true, false, some, List, [], ◌∷◌, map, get_elem?, if◌then◌else◌, inl,
  inr, All, All-imp, Bool-cases, &&-eq-true,
}
use scala_neko.Kernel.Activities.{
  waiting, finished, in_wait, in_finish, returned, Activity, Action, Manager, is_finished,
  is_blocked, forall, reverse, start, will_start, will_wait, will_finish, leave_wait, leave_finish,
  abort_unfinished, release, reset, execute_action, execute_actions, check_finished, trip, put,
  Step, wait, finish, trips_now, back_from_wait, back_from_finish, throw, Reach, here, later,
}
use scala_neko.Kernel.Activities.Places.{All-set, All-get_elem?, All-map}
use scala_neko.Kernel.Activities.Lockstep.{IsNew, IsStarted, start-IsStarted}
use scala_neko.Kernel.Activities.Statuses.{
  Fits, at_work, at_wait, at_finish, Stays, arrive, check, abort-Stays, release-Fits, works,
  leave_wait-Fits, leave_finish-Fits, is_over, over-Fits, ended,
}

abbrev AllStay : Bool → List Activity → Type 0
AllStay b activities = All (λ a. Stays b a.place a.status) activities

abbrev AllFit : Bool → List Activity → Type 0
AllFit b activities = All (λ a. Fits b a.place a.status) activities

arrive_all :
    (b : Bool) (xs : List Activity) → forall is_blocked xs ≡ true → AllFit b xs → AllStay b xs
unfolding forall
arrive_all b [] k h = tt
arrive_all b (x ∷ xs) k h =
    let (now, rest) = &&-eq-true (is_blocked x) (forall is_blocked xs) k in
    (arrive b x.place x.status x.arrivals now h.0, arrive_all b xs rest h.1)

check_all :
    (b : Bool) (xs : List Activity) → forall is_finished xs ≡ true → AllStay b xs → AllStay true xs
unfolding forall
check_all b [] k h = tt
check_all b (x ∷ xs) k h =
    let (now, rest) = &&-eq-true (is_finished x) (forall is_finished xs) k in
    (check b x.place x.status x.arrivals now h.0, check_all b xs rest h.1)

started_all : (xs : List Activity) → AllFit false (map will_start xs)
started_all [] = tt
started_all (x ∷ xs) = (at_work, started_all xs)

module _ {W : Type 0} where
  abbrev IsStaying : Manager W → Type 0
  IsStaying m = AllStay m.all_finished m.activities

  abbrev pub IsFitting : Manager W → Type 0
  IsFitting m = AllFit m.all_finished m.activities

  check-IsStaying : (m : Manager W) → IsStaying m → IsStaying (check_finished m)
  unfolding check_finished
  check-IsStaying m h = elim (Bool-cases (forall is_finished m.activities)) [
    | inl e ↦
        subst (λ b. IsStaying (if b then record m { all_finished = true } else m)) (sym e)
          (check_all m.all_finished m.activities e h)
    | inr e ↦ subst (λ b. IsStaying (if b then record m { all_finished = true } else m)) (sym e) h
  ]

  reset-IsStaying : (m : Manager W) → IsStaying m → IsStaying (reset m)
  reset-IsStaying m h =
      All-map _ _ abort_unfinished m.activities
        (λ a k. abort-Stays m.all_finished a.place a.status a.arrivals k) h

  execute_action-IsStaying :
      (action : Action W) (m : Manager W) → IsStaying m → IsStaying (execute_action action m)
  unfolding execute_action
  execute_action-IsStaying action m h =
      let after : Manager W = record m { world = (action m.world m.all_finished m.activities).0 } in
      elim (Bool-cases (action m.world m.all_finished m.activities).1) [
        | inl e ↦
            subst (λ b. IsStaying (if b then reset after else after)) (sym e)
              (reset-IsStaying after h)
        | inr e ↦ subst (λ b. IsStaying (if b then reset after else after)) (sym e) h
      ]

  execute_actions-IsStaying :
      (actions : List (Action W)) (m : Manager W)
      → IsStaying m
      → IsStaying (execute_actions actions m)
  unfolding execute_actions
  execute_actions-IsStaying [] m h = h
  execute_actions-IsStaying (action ∷ actions) m h =
      execute_actions-IsStaying actions _ (execute_action-IsStaying action m h)

  trip-IsFitting :
      (m : Manager W) → forall is_blocked m.activities ≡ true → IsFitting m → IsFitting (trip m)
  unfolding trip
  trip-IsFitting m k h =
      let after = execute_actions (reverse m.barrier_actions) (check_finished m) in
      All-map _ _ release after.activities
        (λ a s. release-Fits after.all_finished a.place a.status a.arrivals s)
        (execute_actions-IsStaying (reverse m.barrier_actions) (check_finished m)
          (check-IsStaying m (arrive_all m.all_finished m.activities k h)))

  put-IsFitting :
      (m : Manager W) (i : ℕ) (a : Activity)
      → Fits m.all_finished a.place a.status
      → IsFitting m
      → IsFitting (put i a m)
  put-IsFitting m i a k h = All-set _ m.activities i a h k

  Step-IsFitting : (m n : Manager W) → Step false m n → IsFitting m → IsFitting n
  Step-IsFitting m _ (wait _ i a e p) h =
      let b = works _ a.place a.status p (All-get_elem? _ m.activities i a h e) in
      put-IsFitting m i (will_wait a) (subst (λ b. Fits b in_wait waiting) (sym b) at_wait) h
  Step-IsFitting m _ (finish _ i a e p) h =
      let b = works _ a.place a.status p (All-get_elem? _ m.activities i a h e) in
      put-IsFitting m i (will_finish a) (subst (λ b. Fits b in_finish finished) (sym b) at_finish) h
  Step-IsFitting m _ (trips_now _ a rest e k) h = trip-IsFitting m k h
  Step-IsFitting m _ (back_from_wait _ i a e p) h =
      put-IsFitting m i (leave_wait a)
        (leave_wait-Fits _ a.place a.status a.arrivals p (All-get_elem? _ m.activities i a h e)) h
  Step-IsFitting m _ (back_from_finish _ i a e p) h =
      put-IsFitting m i (leave_finish m.all_finished a)
        (leave_finish-Fits _ a.place a.status a.arrivals p (All-get_elem? _ m.activities i a h e)) h
  Step-IsFitting m _ (throw _ i a t e p) h = absurd (cc t)

  Reach-IsFitting : (s m : Manager W) → IsFitting s → Reach false s m → IsFitting m
  Reach-IsFitting s _ h here = h
  Reach-IsFitting s _ h (later m n r step) = Step-IsFitting m n step (Reach-IsFitting s m h r)

  start-IsFitting : (m s : Manager W) → IsStarted m s → IsFitting s
  start-IsFitting m s h = elim h.done [
    | inl e ↦
        subst (λ b. AllFit b s.activities) (sym e)
          (subst (AllFit false) (sym h.all) (started_all m.activities))
    | inr e ↦ subst (AllFit s.all_finished) (sym e) tt
  ]

  -- After `start`, whatever the activities do and in whatever order, as long as none throws an
  -- exception of its own, and whatever the actions of the barrier do, resets included: when one has
  -- come back from `willFinish`, then all activities are known to have finished, every activity has
  -- finished or been aborted, and no thread is in its own code or waits at the barrier.
  pub is_over-Reach :
      (m s n : Manager W) (i : ℕ) (a : Activity)
      → IsNew m
      → start m ≡ some s
      → Reach false s n
      → get_elem? n.activities i ≡ some a
      → a.place ≡ returned
      → (n.all_finished ≡ true) × All (λ b. is_over b ≡ true) n.activities
  is_over-Reach m s n i a new e r at_i back =
      let h = Reach-IsFitting s n (start-IsFitting m s (start-IsStarted m s new e)) r in
      let b = ended _ a.place a.status back (All-get_elem? _ n.activities i a h at_i) in
      (b, All-imp n.activities (λ c k. over-Fits _ c.place c.status c.arrivals b k) h)
