-- ===== src/Docs/Search/Samples.antt =====
-- A search in an index of two packages.
use scala_neko.Base.{
  ℕ, ◌≡◌, refl, ap, if◌then◌else◌, not, Bool, true, false, ◌&&◌, ◌||◌, some, List, [], ◌∷◌, ◌++◌,
  map, ◌==◌, arith,
}
use scala_neko.Base.Text.{Text, codes}
use scala_neko.Docs.Strings.{
  is_space, trim_start, trim_end, trim, to_lower_case, has_char, split, last_part, replace_char,
}
use scala_neko.Docs.Scheduler.{
  Scheduler, index_of, take_first, push_at, place, scan, resume, add, next_work, do_work, clear,
  add_label, number_of_jobs, perform, fire,
}
use scala_neko.Docs.InsertSorted.{gtb}
use scala_neko.Docs.Search.{
  RegExp, Member, Entity, PackageResults, EntityItem, escape_pattern, camel_case, pattern_of,
  compile_pattern, url_friendly_entity, link_of, grep, matched_by, package_href, companion_of,
  entity_item, list_item, search_entity, matching_entities, member_results, entity_results,
}
use scala_neko.Docs.Search.Jobs.{
  Closure, search_package, ResultPage, insert, sort, keys, entities_of, ready_scheduler, job,
  hide_results, apply, set_progress, effect, callback, run, search_packages, search_for, search_all,
  Window, text_keyup, close_results,
}
use scala_neko.Docs.Search.Callbacks.{waiting}
use scala_neko.Docs.Search.Queued.{IsAnswered, armed}
use scala_neko.Docs.Search.Answers.{search_all-IsAnswered, close_results-IsAnswered}
use scala_neko.Docs.Search.Url.{pairs_of, value_of, all_plain, query_string, query_string-search}

program : Unit {0}
unfolding index_of is_space trim_start trim_end trim to_lower_case has_char split last_part
    replace_char take_first push_at place scan resume add next_work do_work clear add_label
    number_of_jobs perform fire gtb escape_pattern camel_case pattern_of compile_pattern
    url_friendly_entity link_of grep matched_by package_href companion_of entity_item list_item
    search_entity matching_entities member_results entity_results insert sort keys entities_of
    ready_scheduler hide_results apply set_progress effect callback run search_packages search_for
    search_all text_keyup close_results pairs_of value_of query_string all_plain
program = tt

-- An engine for patterns without special characters that looks at the start of a text.
abbrev starts_with : Text → Text → Bool
starts_with [] s = true
starts_with (c ∷ q) [] = false
starts_with (c ∷ q) (d ∷ s) = (c == d || c == to_lower_case d) && starts_with q s

abbrev finds : Text → Text → Bool
finds q [] = starts_with q []
finds q (c ∷ s) = starts_with q (c ∷ s) || finds q s

abbrev test : RegExp → Text → Bool
test re s = finds re.pattern s

-- An engine that takes "{1}" for no pattern.
abbrev is_pattern : RegExp → Bool
is_pattern re = not (starts_with (codes "{1}") re.pattern)

abbrev lower : Text → Text
lower s = map to_lower_case s

abbrev send : Member
send = record {
  label = codes "send";
  kind = codes "def";
  tail = [];
  link = codes "neko/A.html#send";
}

abbrev class_a : Entity
class_a = record {
  name = codes "neko.A";
  kind = codes "class";
  short_description = [];
  links = (codes "class", codes "neko/A.html") ∷ (codes "object", codes "neko/A$.html") ∷ [];
  members_trait = [];
  members_class = send ∷ [];
  members_object = [];
}

abbrev object_sender : Entity
object_sender = record {
  name = codes "neko.io.Sender";
  kind = codes "object";
  short_description = codes "Sends.";
  links = (codes "object", codes "neko/io/Sender$.html") ∷ [];
  members_trait = [];
  members_class = [];
  members_object = [];
}

abbrev index : List (Text × List Entity)
index = (codes "neko.io", object_sender ∷ []) ∷ (codes "neko", class_a ∷ []) ∷ []

abbrev page : ResultPage
page = record {
  input = codes " send ";
  url = [];
  search_text = some (codes "old");
  results_shown = false;
  close_results_shown = false;
  doc_title_shown = true;
  entities = [];
  members = [];
  max_jobs = 1;
  running = 0;
}

-- Jobs of an older search still wait.
abbrev old_jobs : Scheduler Closure
old_jobs =
    waiting (job (search_package (codes "neko") (pattern_of lower (codes "old"))) ∷ []) true 1

abbrev root : Text
root = codes "../"

hrefs :
    map
      (λ (r : PackageResults). r.href)
      (run root test index 9 (
        (search_all root test index lower is_pattern true
          (record { page = page; scheduler = old_jobs })).window)).page.entities
    ≡ codes "../neko/index.html" ∷ codes "../neko/io/index.html" ∷ []
unfolding program
hrefs = refl

titles :
    map
      (λ (r : PackageResults). map (λ (e : EntityItem). e.entity_url.title) r.items)
      (run root test index 9 (
        (search_all root test index lower is_pattern true
          (record { page = page; scheduler = old_jobs })).window)).page.entities
    ≡ [] ∷ (codes "Sends." ∷ []) ∷ []
unfolding program
titles = refl

labels_found :
    map
      (λ (r : PackageResults). map (λ (e : EntityItem). e.name) r.items)
      (run root test index 9 (
        (search_all root test index lower is_pattern true
          (record { page = page; scheduler = old_jobs })).window)).page.members
    ≡ (codes "A" ∷ []) ∷ [] ∷ []
unfolding program
labels_found = refl

camel_pattern : (pattern_of lower (codes "BiSe")).pattern ≡ codes "[a-z]*Bi[a-z]*Se"
unfolding program
camel_pattern = refl

friendly : url_friendly_entity (codes "a.+:b") ≡ codes "a.$plus$colonb"
unfolding program
friendly = refl

abbrev window : Window
window = record { page = page; scheduler = old_jobs }

search_all-IsAnswered_example :
    ((search_all root test index lower is_pattern true window).threw ≡ false)
    × IsAnswered root test index lower
        (trim (codes " send "))
        (sort (keys index))
        (run root test index 9 (search_all root test index lower is_pattern true window).window)
unfolding program
search_all-IsAnswered_example =
    search_all-IsAnswered root test index lower is_pattern true 9 window (armed _) refl refl
      (omega arith)

close_results-IsAnswered_example :
    IsAnswered root test index lower (trim (codes " send ")) (sort (keys index)) (
      run root test index 9 (
        close_results root test index
          (search_all root test index lower is_pattern true window).window))
unfolding program
close_results-IsAnswered_example =
    close_results-IsAnswered root test index lower is_pattern true 9 window (armed _) refl refl
      (omega arith)

abbrev braces : Window
braces = record { page = record page { input = codes "{1}" }; scheduler = old_jobs }

abbrev blank : ResultPage
blank = record page { input = codes "  " }

blank_search :
    (search_all root test index lower is_pattern true
      (record { page = blank; scheduler = old_jobs })).window.scheduler
    ≡ waiting [] true 1
unfolding program
blank_search = refl

-- A browser that cuts an address at `#`.
abbrev before_hash : Text → Text
before_hash [] = []
before_hash (c ∷ s) = if c == b'#' then [] else c ∷ before_hash s

before_hash-plain : (s : Text) → all_plain s ≡ true → before_hash s ≡ s
unfolding all_plain has_char
before_hash-plain [] h = refl
before_hash-plain (c ∷ s) h = ground (arith, h, (before_hash-plain s))

keeps_plain :
    (c : ℕ) (s : Text) → all_plain (c ∷ s) ≡ true → before_hash (b'?' ∷ c ∷ s) ≡ b'?' ∷ c ∷ s
keeps_plain c s h = ap (b'?' ∷◌) (before_hash-plain (c ∷ s) h)

query_string-search_example :
    query_string (before_hash (codes "?search=" ++ codes "send")) (codes "search")
    ≡ some (codes "send")
unfolding program
query_string-search_example =
    query_string-search before_hash keeps_plain (codes "send") refl refl refl refl
