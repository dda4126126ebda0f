-- ===== src/Docs/Scheduler/Samples.antt =====
-- A small page: its jobs, what they do, and the theorems at its schedulers.
use mathlib.Core.List.{flatten}
use scala_neko.Base.{ℕ, zero, suc, ◌≡◌, ◌≤◌, ◌⊎◌, refl, true, false, List, [], ◌∷◌, arith, none}
use scala_neko.Base.Text.{Text, codes}
use scala_neko.Docs.Scheduler.{
  work, last, Scheduler, new, Calls, none_yet, then_add_label, then_add, Host, Result, ok, thrown,
  by_job, place, scan, index_of, push_at, take_first, add_label, clear_label, clear, add, next_work,
  do_work, queue_empty, number_of_jobs, schedule_last, perform, resume, fire,
}
use scala_neko.Docs.Scheduler.Invariant.{IsSound, pending}
use scala_neko.Docs.Scheduler.Timer.{Calls-IsAtRest, new-IsAtRest}
use scala_neko.Docs.Scheduler.Runs.{
  here, next, page, drain, drain_lem, Reach-IsSound, thrown-stalls,
}
use scala_neko.Docs.Scheduler.Queues.{find}

program : Unit {0}
unfolding add_label add place index_of scan push_at take_first clear_label clear next_work do_work
    queue_empty number_of_jobs schedule_last perform resume fire flatten find drain
program = tt

abbrev search : Text
search = codes "search"

abbrev init : Text
init = codes "init"

-- The function 0 returns, 1 throws, and the others queue a call of 0.
apply : ℕ → ℕ → List ℕ → Scheduler ℕ → Result ℕ (Unit {0}) × Scheduler ℕ
apply zero self args s = (ok tt, s)
apply (suc zero) self args s = (thrown (by_job 1), s)
apply (suc (suc n)) self args s = add search (work 0 0 none) s

apply-Calls : (fn self : ℕ) (args : List ℕ) (s : Scheduler ℕ) → Calls s (apply fn self args s).1
unfolding apply
apply-Calls zero self args s = none_yet s
apply-Calls (suc zero) self args s = none_yet s
apply-Calls (suc (suc n)) self args s = then_add search (work 0 0 none) (none_yet s)

abbrev host : Host ℕ
host = record { undefined = 0; apply = apply; apply_calls = apply-Calls }

-- The labels are declared in the wrong order; the page then queues three jobs.
abbrev labelled : Scheduler ℕ
labelled = add_label init 1 (add_label search 5 new)

abbrev busy : Scheduler ℕ
busy =
    (add search (work 0 8 none)
      (add init (work 0 7 none) (add search (work 0 6 none) labelled).1).1).1

abbrev failing : Scheduler ℕ
failing = (add init (work 1 7 none) labelled).1

labelled-Calls : Calls new labelled
labelled-Calls = then_add_label init 1 (then_add_label search 5 (none_yet new))

busy-Calls : Calls new busy
busy-Calls =
    then_add search (work 0 8 none)
      (then_add init (work 0 7 none) (then_add search (work 0 6 none) labelled-Calls))

failing-Calls : Calls new failing
failing-Calls = then_add init (work 1 7 none) labelled-Calls

pending-busy : pending busy ≡ work 0 7 none ∷ work 0 6 none ∷ work 0 8 none ∷ []
unfolding program
pending-busy = refl

number_of_jobs-busy : number_of_jobs search busy ≡ ok 2
unfolding program
number_of_jobs-busy = refl

-- A job put at the end waits while its queue holds others.
schedule_last-busy :
    (schedule_last host search 0 busy).1.queues
    ≡ (work 0 7 none ∷ []) ∷ (work 0 6 none ∷ work 0 8 none ∷ last search 0 ∷ []) ∷ []
unfolding program
schedule_last-busy = refl

Reach-IsSound_example :
    IsSound busy × (busy.timers ≤ 1) × ((busy.timers ≡ 0) ⊎ (busy.timeout ≡ true))
Reach-IsSound_example = Reach-IsSound host (next here (page busy-Calls))

thrown-stalls_example : ((fire host failing).2.timers ≡ 0) × ((fire host failing).2.timeout ≡ true)
unfolding program apply
thrown-stalls_example =
    thrown-stalls host {s = failing} {x = by_job 1} (Calls-IsAtRest failing-Calls new-IsAtRest)
      (omega arith) refl here

drain_example :
    ((drain host 4 busy).0 ≡ pending busy)
    × (pending (drain host 4 busy).1 ≡ [])
    × ((drain host 4 busy).1.timers ≡ 0)
    × ((drain host 4 busy).1.timeout ≡ false)
unfolding program apply
drain_example =
    drain_lem host 4 busy (Calls-IsAtRest busy-Calls new-IsAtRest) (omega arith)
      (λ s. refl, (λ s. refl, (λ s. refl, tt))) (omega arith)
