-- ===== src/Docs/Template/Inherit.antt =====
-- template.js: `initInherit`, which copies the members of a page below the headings of the
-- ancestors and of the groups. A DOM node of a heading is its position in the list, a map is the
-- list of its entries with the newest first, and `none` is a `TypeError`.
mod Entries
mod Places
mod Copies
mod Arrange
mod Passes
pub mod Outcome
mod Samples
use mathlib.Core.Option
use scala_neko.Base.{
  ℕ, suc, Bool, true, false, not, ◌&&◌, Option, none, some, List, [], ◌∷◌, ◌++◌, map, ◌==◌, ◌>>=◌,
  if◌then◌else◌,
}
use scala_neko.Base.Text.{Text, codes, text_eq}
use scala_neko.Docs.Template.{index_of, slice_to, is_listed}

-- An `li` of a member list: its attributes, the text of its comment, and `mbrText` once it is set.
pub record Item : Type 0 where
  pub name : Option Text
  pub group : Option Text
  pub comment : Text
  pub mbr_text : Option Text

-- A `div.parent`, `div.conversion` or `div.group`: the key of its name and the lists of its
-- sections. No heading is called `__proto__`.
pub record Heading : Type 0 where
  pub name : Text
  pub is_conversion : Bool
  pub types : Option (List Item)
  pub values : Option (List Item)

-- `#types`, the lists of `.values` outside the headings, `#inheritedMembers` and
-- `#groupedMembers`.
pub record Document : Type 0 where
  pub types : List Item
  pub values : List Item
  pub inherited : List Heading
  pub grouped : List Heading

-- `parents[$(this).attr("name")] = $(this)` for the headings of one class.
unfoldable pub collect : (Heading → Bool) → ℕ → List Heading → List (Text × ℕ) → List (Text × ℕ)
collect selected i [] parents = parents
collect selected i (h ∷ hs) parents =
    collect selected (suc i) hs (if selected h then (h.name, i) ∷ parents else parents)

abbrev pub is_parent : Heading → Bool
is_parent h = not h.is_conversion

abbrev pub is_any : Heading → Bool
is_any h = true

unfoldable pub inherit_parents : List Heading → List (Text × ℕ)
inherit_parents hs = collect (λ h. h.is_conversion) 0 hs (collect is_parent 0 hs [])

unfoldable pub group_parents : List Heading → List (Text × ℕ)
group_parents hs = collect is_any 0 hs []

-- What `new Object()` has of its own.
abbrev pub object_members : List Text
object_members =
    codes "constructor"
    ∷ codes "hasOwnProperty"
    ∷ codes "isPrototypeOf"
    ∷ codes "propertyIsEnumerable"
    ∷ codes "toLocaleString"
    ∷ codes "toString"
    ∷ codes "valueOf"
    ∷ codes "__proto__"
    ∷ codes "__defineGetter__"
    ∷ codes "__defineSetter__"
    ∷ codes "__lookupGetter__"
    ∷ codes "__lookupSetter__"
    ∷ []

-- The value at a key of a map: a heading, something that every object has, or `undefined`.
pub data Found : Type 0 where
  heading : ℕ → Found
  built_in undefined : Found

unfoldable pub find : List (Text × ℕ) → Text → Found
find [] key = if is_listed key object_members then built_in else undefined
find (entry ∷ parents) key = if text_eq entry.0 key then heading entry.1 else find parents key

unfoldable pub owner_of : Text → Text
owner_of qual_name = slice_to qual_name (index_of b'#' qual_name)

-- The key of `groupParents[group]`.
abbrev pub group_key : Option Text → Text
group_key none = codes "undefined"
group_key (some group) = group

-- `this.mbrText = ...`, and the clone with its `mbrText`.
abbrev pub read_text : Item → Item
read_text m = record m { mbr_text = some m.comment }

-- `append` to a section, which is made where the heading has none.
abbrev pub append : Option (List Item) → Item → Option (List Item)
append none m = some (m ∷ [])
append (some ms) m = some (ms ++ m ∷ [])

pub data Section : Type 0 where
  of_types of_values : Section

abbrev pub add : Section → Item → Heading → Heading
add of_types m h = record h { types = append h.types m }
add of_values m h = record h { values = append h.values m }

-- The heading at position `i` changes, where the first of the list is at `j`.
unfoldable pub add_at : Section → Item → ℕ → ℕ → List Heading → List Heading
add_at section m i j [] = []
add_at section m i j (h ∷ hs) =
    (if j == i then add section m h else h) ∷ add_at section m i (suc j) hs

-- `if (parent != undefined) { ... }`: what is built in has no `append`.
abbrev pub copy_below : Section → Item → Found → List Heading → Option (List Heading)
copy_below section m (heading i) hs = some (add_at section (read_text m) i 0 hs)
copy_below section m built_in hs = none
copy_below section m undefined hs = some hs

module _ (section : Section) (inherit_map group_map : List (Text × ℕ)) where
  -- The body of a loop over members; a member without a name has no `indexOf`.
  unfoldable pub copy_member : Item → Document → Option Document
  copy_member m d = do
    qual_name ← m.name
    inherited ← copy_below section m (find inherit_map (owner_of qual_name)) d.inherited
    grouped ← copy_below section m (find group_map (group_key m.group)) d.grouped
    some (record d { inherited = inherited; grouped = grouped })

  unfoldable pub copy_all : List Item → Document → Option Document
  copy_all [] d = some d
  copy_all (m ∷ ms) d = copy_member m d >>= copy_all ms

-- `$(".values > ol > li")`
unfoldable pub nested_values : List Heading → List Item
nested_values [] = []
nested_values (h ∷ hs) = elim h.values [
  | none ↦ nested_values hs
  | some ms ↦ ms ++ nested_values hs
]

unfoldable pub value_items : Document → List Item
value_items d = d.values ++ nested_values d.inherited ++ nested_values d.grouped

-- The assignments to `mbrText`, which the loops do not read: those of `#types > ol > li` and of
-- `.values > ol > li`.
abbrev pub read_nested : Heading → Heading
read_nested h = record h { values = Option.map (map read_text) h.values }

unfoldable pub read_texts : Document → Document
read_texts d = record {
  types = map read_text d.types;
  values = map read_text d.values;
  inherited = map read_nested d.inherited;
  grouped = map read_nested d.grouped;
}

-- `if ($("> div.members", this).length == 0) { $(this).remove(); }` for the headings of one class.
abbrev pub has_members : Heading → Bool
has_members h = elim h.types [
  | some _ ↦ true
  | none ↦ elim h.values [ some _ ↦ true | none ↦ false ]
]

unfoldable pub remove_empty : (Heading → Bool) → List Heading → List Heading
remove_empty selected [] = []
remove_empty selected (h ∷ hs) =
    let rest = remove_empty selected hs in
    if selected h && not (has_members h) then rest else h ∷ rest

unfoldable pub remove_headings : Document → Document
remove_headings d = record d {
  inherited = remove_empty (λ h. h.is_conversion) (remove_empty is_parent d.inherited);
  grouped = remove_empty is_any d.grouped;
}

unfoldable pub init_inherit : Document → Option Document
init_inherit d = do
  let inherit_map = inherit_parents d.inherited
  let group_map = group_parents d.grouped
  typed ← copy_all of_types inherit_map group_map d.types d
  valued ← copy_all of_values inherit_map group_map (value_items typed) typed
  some (remove_headings (read_texts valued))
