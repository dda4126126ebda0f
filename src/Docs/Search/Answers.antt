-- ===== src/Docs/Search/Answers.antt =====
-- What comes of a search.
use scala_neko.Base.{ℕ, ◌*◌, ◌≡◌, ◌<◌, refl, ap, Bool, true, false, some, List, [], length}
use scala_neko.Base.Text.{Text}
use scala_neko.Docs.Strings.{trim, is_empty}
use scala_neko.Docs.Scheduler.{Job}
use scala_neko.Docs.Search.{RegExp, Entity, pattern_of, compile_pattern}
use scala_neko.Docs.Search.Jobs.{
  Closure, Window, sort, keys, hide_results, run, search_for, search_all, close_results,
}
use scala_neko.Docs.Search.Callbacks.{waiting, clear-waiting}
use scala_neko.Docs.Search.Queued.{IsAnswered, IsWaiting, run-queued}

module _ (to_root : Text) (test : RegExp → Text → Bool) (index : List (Text × List Entity))
    (to_lower_case : Text → Text) (is_pattern : RegExp → Bool) where
  -- What compilePattern does with a query.
  abbrev compiles : Text → Bool
  compiles query = is_pattern (pattern_of to_lower_case query)

  compile_pattern-some :
      (query : Text)
      → compiles query ≡ true
      → compile_pattern to_lower_case is_pattern query ≡ some (pattern_of to_lower_case query)
  unfolding compile_pattern
  compile_pattern-some query e = rw e refl

  -- A search for a query that is not blank and that makes a pattern, whatever is left of older
  -- searches, does not throw and gives the answer to that query once the scheduler has made its jobs,
  -- of which there are three to a package.
  pub search_all-IsAnswered :
      (may_replace : Bool) (fuel : ℕ) (w : Window)
      → IsWaiting to_root test index to_lower_case w.scheduler
      → is_empty (trim w.page.input) ≡ false
      → is_pattern (pattern_of to_lower_case (trim w.page.input)) ≡ true
      → 3 * length (sort (keys index)) < fuel
      → let searched = search_all to_root test index to_lower_case is_pattern may_replace w in
        (searched.threw ≡ false)
        × IsAnswered to_root test index to_lower_case
            (trim w.page.input)
            (sort (keys index))
            (run to_root test index fuel searched.window)
  unfolding search_all search_for
  search_all-IsAnswered may_replace fuel w waits asked compiled enough =
      rw (asked, compile_pattern-some (trim w.page.input) compiled)
        (
          refl,
          run-queued to_root test index to_lower_case (trim w.page.input) (sort (keys index)) fuel _
              waits refl refl refl enough,
        )

  -- To close the results right after such a search does not end it: the scheduler makes its jobs,
  -- and they give the answer as if nothing had been closed, with the results shown if there are
  -- packages. The query is not blank and makes a pattern, whatever is left of older searches, and
  -- there are three jobs to a package.
  pub close_results-IsAnswered :
      (may_replace : Bool) (fuel : ℕ) (w : Window)
      → IsWaiting to_root test index to_lower_case w.scheduler
      → is_empty (trim w.page.input) ≡ false
      → is_pattern (pattern_of to_lower_case (trim w.page.input)) ≡ true
      → 3 * length (sort (keys index)) < fuel
      → IsAnswered to_root test index to_lower_case (trim w.page.input) (sort (keys index)) (
          run to_root test index fuel (
            close_results to_root test index
              (search_all to_root test index to_lower_case is_pattern may_replace w).window))
  unfolding search_all search_for close_results hide_results
  close_results-IsAnswered may_replace fuel w waits asked compiled enough =
      rw (asked, compile_pattern-some (trim w.page.input) compiled)
        (run-queued to_root test index to_lower_case (trim w.page.input) (sort (keys index)) fuel _
          waits refl refl refl enough)

  -- A search for a blank query hides the results and drops the jobs of older searches.
  pub search_all-blank :
      (may_replace : Bool) (w : Window) (jobs : List (Job Closure)) (timeout : Bool) (timers : ℕ)
      → w.scheduler ≡ waiting jobs timeout timers
      → is_empty (trim w.page.input) ≡ true
      → (search_all to_root test index to_lower_case is_pattern may_replace w).window ≡ record {
        page = hide_results (record w.page { max_jobs = 1 });
        scheduler = waiting [] timeout timers;
      }
  unfolding search_all
  search_all-blank may_replace w jobs timeout timers s blank =
      rw (blank, s)
        (ap (λ t. record { page = hide_results (record w.page { max_jobs = 1 }); scheduler = t })
          (clear-waiting jobs timeout timers))
