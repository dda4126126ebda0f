-- ===== src/Docs/Search/Callbacks.antt =====
-- The states of the page's scheduler during searches, and what one callback does in each.
use scala_neko.Base.{
  ℕ, ◌≡◌, refl, ap, max, Bool, true, false, List, [], ◌∷◌, ◌++◌, append_assoc, length,
}
use scala_neko.Base.Text.{Text, codes}
use scala_neko.Docs.Scheduler.{
  Label, Job, Scheduler, take_first, push_at, place, scan, resume, add, index_of, next_work,
  do_work, clear, add_label, number_of_jobs, perform, fire,
}
use scala_neko.Docs.Search.{RegExp, Entity, matched_by, member_results, entity_results}
use scala_neko.Docs.Search.Jobs.{
  Closure, search_package, search_members, handle_searched, ResultPage, Window, entities_of, search,
  ready_scheduler, job, apply, set_progress, effect, callback,
}

abbrev pub labels : List Label
labels =
    record { name = codes "init"; priority = 1 }
    ∷ record { name = codes "focus"; priority = 2 }
    ∷ record { name = codes "filter"; priority = 4 }
    ∷ record { name = codes "search"; priority = 5 }
    ∷ []

-- The scheduler of the page when only jobs of searches wait.
abbrev pub waiting : List (Job Closure) → Bool → ℕ → Scheduler Closure
waiting jobs timeout timers = record {
  labels = labels;
  queues = [] ∷ [] ∷ [] ∷ jobs ∷ [];
  timeout = timeout;
  timers = timers;
}

pub ready_scheduler-waiting : ready_scheduler ≡ waiting [] false 0
unfolding ready_scheduler add_label place
ready_scheduler-waiting = refl

pub clear-waiting :
    (jobs : List (Job Closure)) (timeout : Bool) (timers : ℕ)
    → clear search (waiting jobs timeout timers) ≡ waiting [] timeout timers
unfolding clear index_of scan
clear-waiting jobs timeout timers = refl

pub add-armed :
    (jobs : List (Job Closure)) (j : Job Closure) (timers : ℕ)
    → (add search j (waiting jobs true timers)).1 ≡ waiting (jobs ++ j ∷ []) true timers
unfolding add index_of scan push_at
add-armed jobs j timers = refl

module _ (to_root : Text) (test : RegExp → Text → Bool) (index : List (Text × List Entity)) where
  abbrev pub window : ResultPage → List (Job Closure) → Window
  window p jobs = record { page = p; scheduler = waiting jobs true 1 }

  abbrev pub members_job : RegExp → Text → Job Closure
  members_job re pack = job (search_members (entities_of index pack) re pack)

  abbrev pub handle_job : RegExp → Text → Job Closure
  handle_job re pack = job (handle_searched (matched_by test re (entities_of index pack)) pack re)

  pub callback-search_package :
      (p : ResultPage) (re : RegExp) (pack : Text) (jobs : List (Job Closure))
      → callback to_root test index (window p (job (search_package pack re) ∷ jobs))
        ≡ window p (jobs ++ members_job re pack ∷ handle_job re pack ∷ [])
  unfolding callback fire next_work take_first perform apply resume do_work add index_of scan
      push_at effect
  callback-search_package p re pack jobs =
      ap (window p) (append_assoc jobs (members_job re pack ∷ []) (handle_job re pack ∷ []))

  pub callback-members :
      (p : ResultPage) (re : RegExp) (pack : Text) (jobs : List (Job Closure))
      → callback to_root test index (window p (members_job re pack ∷ jobs))
        ≡ window
            (record p {
              members =
                  p.members ++ member_results to_root test re pack (entities_of index pack) ∷ [];
            })
            jobs
  unfolding callback fire next_work take_first perform apply resume do_work effect
  callback-members p re pack jobs = refl

  pub callback-handle :
      (p : ResultPage) (re : RegExp) (pack : Text) (jobs : List (Job Closure))
      → callback to_root test index (window p (handle_job re pack ∷ jobs))
        ≡ window
            (record p {
              results_shown = true;
              close_results_shown = true;
              doc_title_shown = false;
              entities =
                  p.entities
                  ++ entity_results to_root pack (matched_by test re (entities_of index pack)) ∷ [];
              running = length jobs;
              max_jobs = max p.max_jobs (length jobs);
            })
            jobs
  unfolding callback fire next_work take_first perform apply resume do_work effect set_progress
      number_of_jobs index_of scan
  callback-handle p re pack jobs = refl

  pub callback-empty :
      (p : ResultPage)
      → callback to_root test index (window p [])
        ≡ record { page = p; scheduler = waiting [] false 0 }
  unfolding callback fire next_work take_first
  callback-empty p = refl
