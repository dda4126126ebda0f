-- ===== src/Kernel/Activities/Samples.antt =====
-- Two activities, one of which waits once, and an action that counts.
use scala_neko.Base.{ℕ, ◌+◌, ◌≤◌, ◌≡◌, refl, Bool, true, false, some, List, [], ◌∷◌, All}
use scala_neko.Kernel.Activities.{
  Status, created, running, waiting, finished, aborted, Place, executing, in_wait, in_finish,
  leaving_wait, leaving_finish, stopped, returned, Activity, Action, Manager, forall,
  register_activity, register_action, start, execute_action, execute_actions, check_finished, trip,
  wait, finish, trips_now, back_from_wait, back_from_finish, Reach, here, later,
}
use scala_neko.Kernel.Activities.Lockstep.{IsNew, arrivals-Reach}
use scala_neko.Kernel.Activities.Ends.{is_over-Reach}
use scala_neko.Kernel.Activities.Statuses.{is_over}

program : Unit {0}
unfolding forall register_activity register_action start execute_action execute_actions
    check_finished trip
program = tt

abbrev count : Action ℕ
count w all_finished activities = (w + 1, false)

abbrev at : Status → Place → ℕ → Activity
at s p n = record { status = s; place = p; arrivals = n }

abbrev manager : Bool → Bool → ℕ → ℕ → List Activity → Manager ℕ
manager started done trips w activities = record {
  activities = activities;
  started = started;
  all_finished = done;
  barrier_actions = count ∷ [];
  world = w;
  trips = trips;
}

abbrev registered : Manager ℕ
registered = manager false false 0 0 (at created executing 0 ∷ at created executing 0 ∷ [])

late_action :
    register_action true count (manager true false 0 0 []) ≡ some (manager true false 0 0 [])
unfolding program
late_action = refl

-- An activity is registered after the start all the same.
late_activity :
    register_activity true (manager true false 0 0 [])
    ≡ some (0, manager true false 0 0 (at created executing 0 ∷ []))
unfolding program
late_activity = refl

abbrev begun : Manager ℕ
begun = manager true false 0 0 (at running executing 0 ∷ at running executing 0 ∷ [])

abbrev both_wait : Manager ℕ
both_wait = manager true false 0 0 (at waiting in_wait 1 ∷ at finished in_finish 1 ∷ [])

abbrev let_go : Manager ℕ
let_go = manager true false 1 1 (at waiting leaving_wait 1 ∷ at finished leaving_finish 1 ∷ [])

abbrev second_round : Manager ℕ
second_round = manager true false 1 1 (at running executing 1 ∷ at finished in_finish 2 ∷ [])

abbrev last_round : Manager ℕ
last_round = manager true false 1 1 (at finished in_finish 2 ∷ at finished in_finish 2 ∷ [])

abbrev over : Manager ℕ
over = manager true true 2 2 (at finished leaving_finish 2 ∷ at finished leaving_finish 2 ∷ [])

abbrev back : Manager ℕ
back = manager true true 2 2 (at finished returned 2 ∷ at finished leaving_finish 2 ∷ [])

to_second_round : (throws : Bool) → Reach throws begun second_round
unfolding program
to_second_round throws =
    later let_go_and_working second_round
      (later let_go let_go_and_working
        (later both_wait let_go
          (later one_waits both_wait
            (later begun one_waits here (wait begun 0 (at running executing 0) refl refl))
            (finish one_waits 1 (at running executing 0) refl refl))
          (trips_now both_wait _ _ refl refl))
        (back_from_wait let_go 0 (at waiting leaving_wait 1) refl refl))
      (back_from_finish let_go_and_working 1 (at finished leaving_finish 1) refl refl)
  where
    one_waits : Manager ℕ
    one_waits = manager true false 0 0 (at waiting in_wait 1 ∷ at running executing 0 ∷ [])

    let_go_and_working : Manager ℕ
    let_go_and_working =
        manager true false 1 1 (at running executing 1 ∷ at finished leaving_finish 1 ∷ [])

to_back : Reach false begun back
unfolding program
to_back =
    later over back
      (later last_round over
        (later second_round last_round (to_second_round false)
          (finish second_round 0 (at running executing 1) refl refl))
        (trips_now last_round _ _ refl refl))
      (back_from_finish over 0 (at finished leaving_finish 2) refl refl)

registered-IsNew : IsNew registered
registered-IsNew = record {
  not_started = refl;
  unfinished = refl;
  no_trips = refl;
  no_arrivals = (refl, (refl, tt));
}

arrivals-Reach_example : 2 ≤ 1 + 1
unfolding program
arrivals-Reach_example =
    arrivals-Reach true registered begun second_round 1 0 (at finished in_finish 2)
      (at running executing 1) registered-IsNew refl (to_second_round true) refl refl refl refl

is_over-Reach_example : (back.all_finished ≡ true) × All (λ b. is_over b ≡ true) back.activities
unfolding program
is_over-Reach_example =
    is_over-Reach registered begun back 0 (at finished returned 2) registered-IsNew refl to_back
      refl refl

-- The first activity has thrown an exception, the second is blocked, the third goes on.
abbrev thrown : Manager ℕ
thrown =
    manager true true 0 0
      (at aborted stopped 0 ∷ at aborted in_wait 1 ∷ at aborted executing 0 ∷ [])

abbrev third_waits : Manager ℕ
third_waits =
    manager true true 0 0 (at aborted stopped 0 ∷ at aborted in_wait 1 ∷ at waiting in_wait 1 ∷ [])
