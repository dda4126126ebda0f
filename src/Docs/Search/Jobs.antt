-- ===== src/Docs/Search/Jobs.antt =====
-- index.js: searchAll, the jobs that it and searchPackage queue, and the progress bar. `Window` is
-- the page with its scheduler; the callback of the timer is that of `Docs.Scheduler`, followed by
-- what the job did to the page. The promises of searchEntity are settled before the next callback,
-- so their effect is that of the job that made them.
use scala_neko.Base.{
  ℕ, zero, suc, max, Bool, true, false, ◌||◌, Option, none, some, List, [], ◌∷◌, ◌++◌, ◌==◌,
  if◌then◌else◌,
}
use scala_neko.Base.Text.{Text, codes, text_eq}
use scala_neko.Docs.Strings.{trim, is_empty}
use scala_neko.Docs.Scheduler.{
  Job, work, Scheduler, new, Calls, none_yet, then_add, Host, Result, ok, thrown, add, add_label,
  clear, number_of_jobs, fire,
}
use scala_neko.Docs.InsertSorted.{gtb}
use scala_neko.Docs.Search.{
  RegExp, Entity, PackageResults, compile_pattern, matched_by, member_results, entity_results,
}

-- The functions that are queued, by what they close over.
pub data Closure : Type 0 where
  undefined : Closure
  search_package : Text → RegExp → Closure
  search_members : List Entity → RegExp → Text → Closure
  handle_searched : List Entity → Text → RegExp → Closure

pub record ResultPage : Type 0 where
  pub input : Text
  pub url : Text
  pub search_text : Option Text
  pub results_shown : Bool
  pub close_results_shown : Bool
  pub doc_title_shown : Bool
  pub entities : List PackageResults
  pub members : List PackageResults
  pub max_jobs : ℕ
  pub running : ℕ

pub record Window : Type 0 where
  pub page : ResultPage
  pub scheduler : Scheduler Closure

-- `percent == 100`; the width of the bar is `100 - running / max_jobs * 100` per cent.
abbrev pub is_complete : ResultPage → Bool
is_complete p = p.running == 0

unfoldable pub insert : Text → List Text → List Text
insert x [] = x ∷ []
insert x (y ∷ ys) = let rest = insert x ys in if gtb x y then y ∷ rest else x ∷ y ∷ ys

-- `sort()` of strings.
unfoldable pub sort : List Text → List Text
sort [] = []
sort (x ∷ xs) = insert x (sort xs)

-- `Index.keys`
unfoldable pub keys : List (Text × List Entity) → List Text
keys [] = []
keys ((pack, entities) ∷ index) = pack ∷ keys index

-- `Index.PACKAGES[pack]`; searchPackage asks for keys only.
unfoldable pub entities_of : List (Text × List Entity) → Text → List Entity
entities_of [] pack = []
entities_of ((p, entities) ∷ index) pack =
    if text_eq p pack then entities else entities_of index pack

abbrev pub search : Text
search = codes "search"

-- The scheduler of the page, made when the document is ready.
unfoldable pub ready_scheduler : Scheduler Closure
ready_scheduler =
    add_label search 5
      (add_label (codes "filter") 4 (add_label (codes "focus") 2 (add_label (codes "init") 1 new)))

abbrev pub job : Closure → Job Closure
job fn = work fn undefined none

-- What searchAll gives to `window.history.replaceState`.
abbrev pub search_address : Text → Text
search_address query = codes "?search=" ++ query

-- Where `replaceState` throws, the exception is caught and nothing changes; what the browser makes of
-- the address is left to `Url`.
abbrev replace_state : Bool → Text → Text → Text
replace_state may_replace query url = if may_replace then search_address query else url

unfoldable pub hide_results : ResultPage → ResultPage
hide_results p = record p {
  results_shown = false;
  close_results_shown = false;
  doc_title_shown = true;
}

-- A second call of `add`, unless the first one threw.
abbrev and_add :
    Result Closure (Unit {0}) × Scheduler Closure
    → Closure
    → Result Closure (Unit {0}) × Scheduler Closure
and_add (thrown e, s) fn = (thrown e, s)
and_add (ok _, s) fn = add search (job fn) s

abbrev reported :
    Result Closure ℕ → Scheduler Closure → Result Closure (Unit {0}) × Scheduler Closure
reported (thrown e) s = (thrown e, s)
reported (ok running) s = (ok tt, s)

and_add-Calls :
    (s : Scheduler Closure) (r : Result Closure (Unit {0}) × Scheduler Closure) (fn : Closure)
    → Calls s r.1
    → Calls s (and_add r fn).1
and_add-Calls s (thrown e, t) fn c = c
and_add-Calls s (ok _, t) fn c = then_add search (job fn) c

reported-Calls : (r : Result Closure ℕ) (s : Scheduler Closure) → Calls s (reported r s).1
reported-Calls (thrown e) s = none_yet s
reported-Calls (ok running) s = none_yet s

module _ (to_root : Text) (test : RegExp → Text → Bool) (index : List (Text × List Entity)) where
  -- What a queued function does to the scheduler.
  unfoldable pub apply :
      Closure
      → Closure
      → List Closure
      → Scheduler Closure
      → Result Closure (Unit {0}) × Scheduler Closure
  apply (search_package pack re) self args s =
      let entities = entities_of index pack in
      and_add (add search (job (search_members entities re pack)) s)
        (handle_searched (matched_by test re entities) pack re)
  apply (handle_searched matched pack re) self args s = reported (number_of_jobs search s) s
  apply fn self args s = (ok tt, s)

  pub apply-Calls :
      (fn self : Closure) (args : List Closure) (s : Scheduler Closure)
      → Calls s (apply fn self args s).1
  unfolding apply
  apply-Calls undefined self args s = none_yet s
  apply-Calls (search_members entities re pack) self args s = none_yet s
  apply-Calls (handle_searched matched pack re) self args s =
      reported-Calls (number_of_jobs search s) s
  apply-Calls (search_package pack re) self args s =
      and_add-Calls s (add search _ s) _ (then_add search _ (none_yet s))

  abbrev pub host : Host Closure
  host = record { undefined = undefined; apply = apply; apply_calls = apply-Calls }

  -- `setProgress`; the source would throw without the label, and `apply` then does.
  unfoldable pub set_progress : Scheduler Closure → ResultPage → ResultPage
  set_progress s p = elim (number_of_jobs search s) [
    | thrown e ↦ p
    | ok running ↦ record p { running = running; max_jobs = max p.max_jobs running }
  ]

  -- What a queued function does to the page, with the scheduler as the function leaves it.
  unfoldable pub effect : Closure → Scheduler Closure → ResultPage → ResultPage
  effect (search_members entities re pack) s p = record p {
    members = p.members ++ member_results to_root test re pack entities ∷ [];
  }
  effect (handle_searched matched pack re) s p = set_progress s (record p {
    results_shown = true;
    close_results_shown = true;
    doc_title_shown = false;
    entities = p.entities ++ entity_results to_root pack matched ∷ [];
  })
  effect fn s p = p

  abbrev effect_of : Option (Job Closure) → Scheduler Closure → ResultPage → ResultPage
  effect_of (some (work fn self args)) s p = effect fn s p
  effect_of _ s p = p

  -- A callback of the timer, on the whole window.
  unfoldable pub callback : Window → Window
  callback w =
      let (made, r, s) = fire host w.scheduler in
      record { page = effect_of made s w.page; scheduler = s }

  -- The browser makes the callbacks that it owes, `fuel` at most.
  unfoldable pub run : ℕ → Window → Window
  run zero w = w
  run (suc fuel) w = elim w.scheduler.timers [ zero ↦ w | suc n ↦ run fuel (callback w) ]

  -- The loop over the packages at the end of searchAll.
  unfoldable pub search_packages : List Text → RegExp → Scheduler Closure → Scheduler Closure
  search_packages [] re s = s
  search_packages (pack ∷ packs) re s =
      search_packages packs re (add search (job (search_package pack re)) s).1

  -- The button that clears the search box, and the one that closes the results.
  unfoldable pub close_results : Window → Window
  close_results w = record w { page = hide_results (record w.page { input = [] }) }

-- What searchAll leaves, and whether it threw.
pub record Searched : Type 0 where
  pub window : Window
  pub threw : Bool

module _ (to_root : Text) (test : RegExp → Text → Bool) (index : List (Text × List Entity))
    (to_lower_case : Text → Text) (is_pattern : RegExp → Bool) where
  -- The loop at the end of searchAll, unless compilePattern throws.
  unfoldable pub search_for : Option RegExp → Scheduler Closure → Scheduler Closure × Bool
  search_for none s = (s, true)
  search_for (some re) s = (search_packages to_root test index (sort (keys index)) re s, false)

  unfoldable pub search_all : Bool → Window → Searched
  search_all may_replace w =
      let s = clear search w.scheduler in
      let p = record w.page { max_jobs = 1 } in
      let query = trim p.input in
      let (queued, threw) = search_for (compile_pattern to_lower_case is_pattern query) s in
      if is_empty query
      then record { window = record { page = hide_results p; scheduler = s }; threw = false }
      else record {
        window = record {
          page = record p {
            url = replace_state may_replace query p.url;
            search_text = some query;
            members = [];
            entities = [];
          };
          scheduler = queued;
        };
        threw = threw;
      }

  -- The keys in the search box, which now holds `value`. Up and Down do not search; Down starts
  -- the navigation of `Docs.Navigation`.
  unfoldable pub text_keyup : Bool → ℕ → Text → Window → Searched
  text_keyup may_replace key_code value w =
      let typed = record w { page = record w.page { input = value } } in
      if key_code == 27
      then search_all may_replace (record w { page = hide_results (record w.page { input = [] }) })
      else if key_code == 38 || key_code == 40
      then record { window = typed; threw = false }
      else search_all may_replace typed
