-- ===== src/Docs/Search/Runs.antt =====
-- The jobs of a search, run by the scheduler to the end: first those for the packages, then those
-- that they queue.
use scala_neko.Base.{
  ℕ, zero, suc, ◌+◌, ◌*◌, ◌≡◌, ◌<◌, refl, ap, sym, ◌∙◌, arith, max, Bool, true, false, List, [],
  ◌∷◌, ◌++◌, map, append_assoc, append-nil, length,
}
use scala_neko.Base.Text.{Text}
use scala_neko.Docs.Scheduler.{Job}
use scala_neko.Docs.Search.{
  RegExp, Entity, PackageResults, matched_by, member_results, entity_results,
}
use scala_neko.Docs.Search.Jobs.{Closure, search_package, ResultPage, Window, entities_of, job, run}
use scala_neko.Docs.Search.Callbacks.{
  waiting, window, members_job, handle_job, callback-search_package, callback-members,
  callback-handle, callback-empty,
}

module _ (to_root : Text) (test : RegExp → Text → Bool) (index : List (Text × List Entity)) where
  pub run-idle :
      (n : ℕ) (p : ResultPage)
      → run to_root test index n (record { page = p; scheduler = waiting [] false 0 })
        ≡ record { page = p; scheduler = waiting [] false 0 }
  unfolding run
  run-idle zero p = refl
  run-idle (suc n) p = refl

  pub run-empty :
      (n : ℕ) (p : ResultPage)
      → run to_root test index (suc n) (window to_root test index p [])
        ≡ record { page = p; scheduler = waiting [] false 0 }
  unfolding run
  run-empty n p = ap (run to_root test index n) (callback-empty to_root test index p) ∙ run-idle n p

  abbrev pub package_job : RegExp → Text → Job Closure
  package_job re pack = job (search_package pack re)

  -- The jobs that the jobs for the packages queue.
  abbrev pub follow_ups : RegExp → List Text → List (Job Closure)
  follow_ups re [] = []
  follow_ups re (pack ∷ packs) =
      members_job to_root test index re pack
      ∷ handle_job to_root test index re pack
      ∷ follow_ups re packs

  pub run-count :
      (m n : ℕ) (w : Window) → m ≡ n → run to_root test index m w ≡ run to_root test index n w
  run-count m n w e = ap (λ k. run to_root test index k w) e

  pub run-packages :
      (packs : List Text) (n : ℕ) (p : ResultPage) (re : RegExp) (rest : List (Job Closure))
      → run to_root test index
          (length packs + n)
          (window to_root test index p (map (package_job re) packs ++ rest))
        ≡ run to_root test index n (window to_root test index p (rest ++ follow_ups re packs))
  unfolding run
  run-packages [] n p re rest =
      run-count (0 + n) n _ (omega arith)
      ∙ ap (λ jobs. run to_root test index n (window to_root test index p jobs))
          (sym (append-nil rest))
  run-packages (pack ∷ packs) n p re rest =
      let new =
        members_job to_root test index re pack ∷ handle_job to_root test index re pack ∷ [] in
      run-count (length (pack ∷ packs) + n) (suc (length packs + n)) _ (omega arith)
      ∙ ap (run to_root test index (length packs + n)) (
          callback-search_package to_root test index p re pack (map (package_job re) packs ++ rest)
          ∙ ap (window to_root test index p) (append_assoc (map (package_job re) packs) rest new))
      ∙ run-packages packs n p re (rest ++ new)
      ∙ ap (λ jobs. run to_root test index n (window to_root test index p jobs))
          (append_assoc rest new (follow_ups re packs))

  abbrev pub results_of : RegExp → Text → PackageResults
  results_of re pack = entity_results to_root pack (matched_by test re (entities_of index pack))

  abbrev pub members_of : RegExp → Text → PackageResults
  members_of re pack = member_results to_root test re pack (entities_of index pack)

  -- The page after the jobs of one package, and after those of all.
  abbrev pub serve : RegExp → Text → ℕ → ResultPage → ResultPage
  serve re pack left p = record p {
    results_shown = true;
    close_results_shown = true;
    doc_title_shown = false;
    members = p.members ++ members_of re pack ∷ [];
    entities = p.entities ++ results_of re pack ∷ [];
    running = left;
    max_jobs = max p.max_jobs left;
  }

  pub served : RegExp → List Text → ResultPage → ResultPage
  served re [] p = p
  served re (pack ∷ packs) p = served re packs (serve re pack (length (follow_ups re packs)) p)

  pub run-follow_ups :
      (packs : List Text) (n : ℕ) (p : ResultPage) (re : RegExp)
      → run to_root test index
          (2 * length packs + n)
          (window to_root test index p (follow_ups re packs))
        ≡ run to_root test index n (window to_root test index (served re packs p) [])
  unfolding run served
  run-follow_ups [] n p re = run-count (2 * 0 + n) n _ (omega arith)
  run-follow_ups (pack ∷ packs) n p re =
      let more = 2 * length packs + n in
      run-count (2 * length (pack ∷ packs) + n) (suc (suc more)) _ (omega arith)
      ∙ ap (run to_root test index (suc more)) (callback-members to_root test index p re pack _)
      ∙ ap (run to_root test index more)
          (callback-handle to_root test index _ re pack (follow_ups re packs))
      ∙ run-follow_ups packs n _ re

  pub served-entities :
      (re : RegExp) (packs : List Text) (p : ResultPage)
      → (served re packs p).entities ≡ p.entities ++ map (results_of re) packs
  unfolding served
  served-entities re [] p = sym (append-nil _)
  served-entities re (pack ∷ packs) p =
      served-entities re packs _ ∙ append_assoc p.entities (results_of re pack ∷ []) _

  pub served-members :
      (re : RegExp) (packs : List Text) (p : ResultPage)
      → (served re packs p).members ≡ p.members ++ map (members_of re) packs
  unfolding served
  served-members re [] p = sym (append-nil _)
  served-members re (pack ∷ packs) p =
      served-members re packs _ ∙ append_assoc p.members (members_of re pack ∷ []) _

  pub served-search_text :
      (re : RegExp) (packs : List Text) (p : ResultPage)
      → (served re packs p).search_text ≡ p.search_text
  unfolding served
  served-search_text re [] p = refl
  served-search_text re (pack ∷ packs) p = served-search_text re packs _

  pub served-shown :
      (re : RegExp) (packs : List Text) (p : ResultPage)
      → 0 < length packs
      → ((served re packs p).results_shown ≡ true)
        × ((served re packs p).doc_title_shown ≡ false)
        × ((served re packs p).running ≡ 0)
  unfolding served
  served-shown re [] p h = absurd (omega arith)
  served-shown re (pack ∷ []) p h = (refl, refl, refl)
  served-shown re (pack ∷ next ∷ packs) p h =
      served-shown re (next ∷ packs) (serve re pack (length (follow_ups re (next ∷ packs))) p)
        (omega arith)
