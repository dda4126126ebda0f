-- ===== src/Docs/Search/Queued.antt =====
-- What a search is to come to, and the jobs that it queues.
use scala_neko.Base.{
  ℕ, suc, ◌+◌, ◌*◌, ◌-◌, ◌≡◌, ◌<◌, refl, ap, sym, subst, ◌∙◌, arith, Bool, true, false, some, List,
  [], ◌∷◌, ◌++◌, map, append_assoc, append-nil, length,
}
use scala_neko.Base.Text.{Text}
use scala_neko.Docs.Scheduler.{Job, Scheduler, push_at, scan, add, index_of, do_work, clear}
use scala_neko.Docs.Search.{RegExp, Entity, pattern_of}
use scala_neko.Docs.Search.Jobs.{Closure, ResultPage, Window, search, run, search_packages}
use scala_neko.Docs.Search.Callbacks.{waiting, clear-waiting, add-armed, window}
use scala_neko.Docs.Search.Runs.{
  run-empty, run-idle, package_job, run-packages, results_of, members_of, served, run-follow_ups,
  served-shown, served-entities, served-members, served-search_text, run-count,
}

module _ (to_root : Text) (test : RegExp → Text → Bool) (index : List (Text × List Entity))
    (to_lower_case : Text → Text) where
  -- What a reader sees of a search for `query` in the packages `packs`, at its end: every package
  -- in its place with its entities and its members that match, nothing of an older search, a full
  -- bar, and no job and no timer left.
  pub record IsAnswered (query : Text) (packs : List Text) (w : Window) : Type 0 where
    pub asked : w.page.search_text ≡ some query
    pub all_entities :
        w.page.entities ≡ map (results_of to_root test index (pattern_of to_lower_case query)) packs
    pub all_members :
        w.page.members ≡ map (members_of to_root test index (pattern_of to_lower_case query)) packs
    pub shown : 0 < length packs → (w.page.results_shown ≡ true) × (w.page.doc_title_shown ≡ false)
    pub full_bar : 0 < length packs → w.page.running ≡ 0
    pub idle : w.scheduler ≡ waiting [] false 0

  search_packages-armed :
      (packs : List Text) (re : RegExp) (jobs : List (Job Closure))
      → search_packages to_root test index packs re (waiting jobs true 1)
        ≡ waiting (jobs ++ map (package_job to_root test index re) packs) true 1
  unfolding search_packages
  search_packages-armed [] re jobs = ap (λ js. waiting js true 1) (sym (append-nil jobs))
  search_packages-armed (pack ∷ packs) re jobs =
      ap (search_packages to_root test index packs re)
        (add-armed jobs (package_job to_root test index re pack) 1)
      ∙ search_packages-armed packs re (jobs ++ package_job to_root test index re pack ∷ [])
      ∙ ap (λ js. waiting js true 1)
          (append_assoc jobs (package_job to_root test index re pack ∷ []) _)

  -- The scheduler of the page at any time: with a timer set, or with no job and no timer.
  pub data IsWaiting : Scheduler Closure → Type 0 where
    armed : (jobs : List (Job Closure)) → IsWaiting (waiting jobs true 1)
    unarmed : IsWaiting (waiting [] false 0)

  -- The jobs that searchAll queues.
  search_packages-unarmed :
      (pack : Text) (packs : List Text) (re : RegExp)
      → search_packages to_root test index (pack ∷ packs) re (waiting [] false 0)
        ≡ waiting (map (package_job to_root test index re) (pack ∷ packs)) true 1
  unfolding search_packages add index_of scan push_at do_work
  search_packages-unarmed pack packs re =
      search_packages-armed packs re (package_job to_root test index re pack ∷ [])

  run-jobs :
      (query : Text) (packs : List Text) (n : ℕ) (p : ResultPage)
      → p.search_text ≡ some query
      → p.entities ≡ []
      → p.members ≡ []
      → IsAnswered query packs (
          run to_root test index (length packs + (2 * length packs + suc n)) (
            window to_root test index p
              (map (package_job to_root test index (pattern_of to_lower_case query)) packs)))
  run-jobs query packs n p a b c =
      let re = pattern_of to_lower_case query in
      let ran =
        ap
          (λ jobs.
            run to_root test index (length packs + (2 * length packs + suc n))
              (window to_root test index p jobs))
          (sym (append-nil _))
        ∙ run-packages to_root test index packs (2 * length packs + suc n) p re []
        ∙ run-follow_ups to_root test index packs (suc n) p re
        ∙ run-empty to_root test index n (served to_root test index re packs p) in
      subst (IsAnswered query packs) (sym ran) (record {
        asked = served-search_text to_root test index re packs p ∙ a;
        all_entities =
            served-entities to_root test index re packs p
            ∙ ap (λ l. l ++ map (results_of to_root test index re) packs) b;
        all_members =
            served-members to_root test index re packs p
            ∙ ap (λ l. l ++ map (members_of to_root test index re) packs) c;
        shown = λ h. let (x, y, z) = served-shown to_root test index re packs p h in (x, y);
        full_bar = λ h. let (x, y, z) = served-shown to_root test index re packs p h in z;
        idle = refl;
      })

  run-enough :
      (query : Text) (packs : List Text) (fuel : ℕ) (p : ResultPage)
      → p.search_text ≡ some query
      → p.entities ≡ []
      → p.members ≡ []
      → 3 * length packs < fuel
      → IsAnswered query packs (
          run to_root test index fuel (
            window to_root test index p
              (map (package_job to_root test index (pattern_of to_lower_case query)) packs)))
  run-enough query packs fuel p a b c enough =
      let spare = fuel - 3 * length packs - 1 in
      subst (IsAnswered query packs)
        (run-count to_root test index (length packs + (2 * length packs + suc spare)) fuel _
          (omega (arith, enough)))
        (run-jobs query packs spare p a b c)

  run-none :
      (query : Text) (fuel : ℕ) (p : ResultPage)
      → p.search_text ≡ some query
      → p.entities ≡ []
      → p.members ≡ []
      → IsAnswered query []
          (run to_root test index fuel (record { page = p; scheduler = waiting [] false 0 }))
  run-none query fuel p a b c =
      subst (IsAnswered query []) (sym (run-idle to_root test index fuel p)) (record {
        asked = a;
        all_entities = b;
        all_members = c;
        shown = λ h. absurd (omega (arith, h));
        full_bar = λ h. absurd (omega (arith, h));
        idle = refl;
      })

  -- The window to_root test index after the jobs of a search are queued.
  abbrev queued : RegExp → List Text → ResultPage → Scheduler Closure → Window
  queued re packs p s = record {
    page = p;
    scheduler = search_packages to_root test index packs re (clear search s);
  }

  queued-armed :
      (re : RegExp) (packs : List Text) (p : ResultPage) (jobs : List (Job Closure))
      → queued re packs p (waiting jobs true 1)
        ≡ window to_root test index p (map (package_job to_root test index re) packs)
  queued-armed re packs p jobs =
      ap (λ s. record { page = p; scheduler = search_packages to_root test index packs re s })
        (clear-waiting jobs true 1)
      ∙ ap (λ s. record { page = p; scheduler = s }) (search_packages-armed packs re [])

  queued-unarmed :
      (re : RegExp) (pack : Text) (packs : List Text) (p : ResultPage)
      → queued re (pack ∷ packs) p (waiting [] false 0)
        ≡ window to_root test index p (map (package_job to_root test index re) (pack ∷ packs))
  queued-unarmed re pack packs p =
      ap
        (λ s. record {
          page = p;
          scheduler = search_packages to_root test index (pack ∷ packs) re s;
        })
        (clear-waiting [] false 0)
      ∙ ap (λ s. record { page = p; scheduler = s }) (search_packages-unarmed pack packs re)

  queued-none :
      (re : RegExp) (p : ResultPage)
      → queued re [] p (waiting [] false 0) ≡ record { page = p; scheduler = waiting [] false 0 }
  unfolding search_packages
  queued-none re p = ap (λ s. record { page = p; scheduler = s }) (clear-waiting [] false 0)

  pub run-queued :
      (query : Text) (packs : List Text) (fuel : ℕ) (p : ResultPage) {s : Scheduler Closure}
      → IsWaiting s
      → p.search_text ≡ some query
      → p.entities ≡ []
      → p.members ≡ []
      → 3 * length packs < fuel
      → IsAnswered query packs
          (run to_root test index fuel (queued (pattern_of to_lower_case query) packs p s))
  run-queued query packs fuel p (armed jobs) a b c enough =
      subst (λ w. IsAnswered query packs (run to_root test index fuel w))
        (sym (queued-armed (pattern_of to_lower_case query) packs p jobs))
        (run-enough query packs fuel p a b c enough)
  run-queued query [] fuel p unarmed a b c enough =
      subst (λ w. IsAnswered query [] (run to_root test index fuel w))
        (sym (queued-none (pattern_of to_lower_case query) p)) (run-none query fuel p a b c)
  run-queued query (pack ∷ packs) fuel p unarmed a b c enough =
      subst (λ w. IsAnswered query (pack ∷ packs) (run to_root test index fuel w))
        (sym (queued-unarmed (pattern_of to_lower_case query) pack packs p))
        (run-enough query (pack ∷ packs) fuel p a b c enough)
