-- ===== src/Docs/Search.antt =====
-- index.js: what a search looks for and the elements that it makes of what it finds. Elements of
-- the page are records of what their code sets; `to_root` is the page's global of that name.
-- `Jobs` has the jobs of a search on the scheduler, `Callbacks`, `Runs` and `Queued` what they do, `Answers`
-- what comes of a search, and `Url` the address that keeps its query.
pub mod Jobs
pub mod Callbacks
pub mod Runs
pub mod Queued
pub mod Answers
pub mod Url
mod Samples
use scala_neko.Base.{
  ℕ, ◌+◌, Bool, true, false, not, ◌&&◌, ◌||◌, Option, none, some, List, [], ◌∷◌, ◌++◌, map, leb,
  if◌then◌else◌,
}
use scala_neko.Base.Text.{Text, codes, text_eq}
use scala_neko.Docs.Strings.{is_empty, has_char, split, last_part, replace_char}

-- `new RegExp(pattern, flags)`; the only flag is "i".
pub record RegExp : Type 0 where
  pub pattern : Text
  pub ignore_case : Bool

abbrev is_upper : ℕ → Bool
is_upper c = leb b'A' c && leb c b'Z'

unfoldable pub escape_pattern : Text → Text
escape_pattern [] = []
escape_pattern (c ∷ s) =
    let rest = escape_pattern s in
    if has_char c (codes ".*+?|()[]\\") then b'\\' ∷ c ∷ rest else c ∷ rest

-- `replace(/([A-Z])/g, "[a-z]*$1")`
unfoldable pub camel_case : Text → Text
camel_case [] = []
camel_case (c ∷ s) =
    let rest = camel_case s in if is_upper c then codes "[a-z]*" ++ c ∷ rest else c ∷ rest

-- What `compilePattern` gives to the constructor `RegExp`; `to_lower_case` is the language's.
unfoldable pub pattern_of : (Text → Text) → Text → RegExp
pattern_of to_lower_case query =
    let escaped = escape_pattern query in
    if text_eq (to_lower_case query) query
    then record { pattern = escaped; ignore_case = true }
    else record { pattern = camel_case escaped; ignore_case = false }

-- The constructor throws for what is no pattern, as "{1}" and "a{2,1}", whose braces are not escaped.
unfoldable pub compile_pattern : (Text → Text) → (RegExp → Bool) → Text → Option RegExp
compile_pattern to_lower_case is_pattern query =
    if is_pattern (pattern_of to_lower_case query)
    then some (pattern_of to_lower_case query)
    else none

unfoldable pub url_friendly_entity : Text → Text
url_friendly_entity entity =
    replace_char b':' (codes "$colon") (replace_char b'+' (codes "$plus") entity)

pub record Member : Type 0 where
  pub label : Text
  pub kind : Text
  pub tail : Text
  pub link : Text

-- An element of `Index.PACKAGES[...]`. A missing text is the empty one, a missing list of members
-- is the empty one, and `links` has the values of the keys that name kinds.
pub record Entity : Type 0 where
  pub name : Text
  pub kind : Text
  pub short_description : Text
  pub links : List (Text × Text)
  pub members_trait : List Member
  pub members_class : List Member
  pub members_object : List Member

unfoldable pub link_of : List (Text × Text) → Text → Option Text
link_of [] kind = none
link_of ((k, link) ∷ links) kind = if text_eq k kind then some link else link_of links kind

-- What a missing key adds to a string.
abbrev or_undefined : Option Text → Text
or_undefined none = codes "undefined"
or_undefined (some s) = s

abbrev or_empty : Option Text → Text
or_empty none = []
or_empty (some s) = s

-- The anchor of a package, and the icon of a companion object.
pub record Link : Type 0 where
  pub title : Text
  pub href : Text

pub record MemberItem : Type 0 where
  pub kind : Text
  pub label : Link
  pub tail : Text

-- The list item of an entity; in front of its icon stands the companion or a spacer.
pub record EntityItem : Type 0 where
  pub id : Text
  pub icon_kind : Text
  pub icon : Link
  pub companion : Option Link
  pub name : Text
  pub entity_url : Link
  pub members : List MemberItem

-- The anchor of a package with the list behind it; `displayed` is the anchor's.
pub record PackageResults : Type 0 where
  pub pack : Text
  pub href : Text
  pub displayed : Bool
  pub items : List EntityItem

-- `$.grep`, and the split of searchPackage.
unfoldable pub grep {ℓ} : {A : Type ℓ} → (A → Bool) → List A → List A
grep f [] = []
grep f (x ∷ xs) = let rest = grep f xs in if f x then x ∷ rest else rest

unfoldable pub matched_by : (RegExp → Text → Bool) → RegExp → List Entity → List Entity
matched_by test re entities = grep (λ (e : Entity). test re e.name) entities

module _ (to_root : Text) where
  unfoldable pub package_href : Text → Text
  package_href pack =
      to_root ++ replace_char b'.' (codes "/") (url_friendly_entity pack) ++ codes "/index.html"

  unfoldable pub companion_of : Entity → Text → Option Link
  companion_of e name =
      let object = or_empty (link_of e.links (codes "object")) in
      if not (text_eq e.kind (codes "object")) && not (is_empty object)
      then some (record { title = name ++ codes " companion object"; href = to_root ++ object })
      else none

  -- What listItem and searchMembers build alike; only listItem sets the id.
  unfoldable pub entity_item : Text → Entity → List MemberItem → EntityItem
  entity_item id e members =
      let name = last_part (split b'.' e.name) in
      let href = to_root ++ or_undefined (link_of e.links e.kind) in
      record {
        id = id;
        icon_kind = e.kind;
        icon = record { title = name ++ codes " " ++ e.kind; href = href };
        companion = companion_of e name;
        name = name;
        entity_url = record {
          title = if is_empty e.short_description then name else e.short_description;
          href = href;
        };
        members = members;
      }

  unfoldable pub list_item : Entity → EntityItem
  list_item e = entity_item (replace_char b'.' (codes "-") e.name) e []

  abbrev pub member_item : Member → MemberItem
  member_item m = record {
    kind = m.kind;
    label = record { title = m.label; href = to_root ++ m.link };
    tail = m.tail;
  }

  unfoldable pub entity_results : Text → List Entity → PackageResults
  entity_results pack matched = record {
    pack = pack;
    href = package_href pack;
    displayed = elim matched [ [] ↦ false | _ ↦ true ];
    items = map list_item matched;
  }

  -- `test` is the engine of regular expressions.
  module _ (test : RegExp → Text → Bool) where
    unfoldable pub search_entity : RegExp → Entity → List MemberItem
    search_entity re e = map member_item (
        grep (λ (m : Member). test re m.label)
          ((e.members_trait ++ e.members_class) ++ e.members_object))

    -- The loop of searchMembers: an entity is appended if some of its members match.
    unfoldable pub matching_entities : RegExp → List Entity → List EntityItem
    matching_entities re [] = []
    matching_entities re (e ∷ es) =
        let rest = matching_entities re es in
        elim (search_entity re e) [ [] ↦ rest | m ∷ ms ↦ entity_item [] e (m ∷ ms) ∷ rest ]

    unfoldable pub member_results : RegExp → Text → List Entity → PackageResults
    member_results re pack entities =
        let items = matching_entities re entities in
        record {
          pack = pack;
          href = package_href pack;
          displayed = elim items [ [] ↦ false | _ ↦ true ];
          items = items;
        }
