-- ===== src/Docs/Template.antt =====
-- template.js: the controls of a page and the member lists that they filter. The page's DOM is a
-- record of what the script reads and changes; a class `in` or `out` is a Boolean, and a control
-- that the page may lack is an option. This file has the page and the work on texts, `Filter` the
-- function `filter`, `Handlers` the events, and `Display`, `Upkeep` and `Controls` what holds of
-- them. `Inherit` is the function `initInherit`.
pub mod Filter
pub mod Handlers
pub mod Inherit
pub mod Display
pub mod Upkeep
pub mod Controls
mod Samples
use mathlib.Core.Option
use scala_neko.Base.{
  ℕ, zero, suc, ◌+◌, Bool, true, false, not, ◌&&◌, ◌||◌, Option, none, some, List, [], ◌∷◌, ◌++◌,
  map, ◌==◌, leb, if◌then◌else◌, take, length,
}
use scala_neko.Base.Text.{Text, codes, text_eq}
use scala_neko.Docs.Strings.{is_space, to_lower_case, trim}

-- An ancestor in the linearization or among the implicits, and whether it is selected.
pub record Ancestor : Type 0 where
  pub name : Text
  pub data_hidden : Bool
  pub is_in : Bool

-- `li` elements of a member list; `mbr_text` is the text of the comment.
pub record Member : Type 0 where
  pub name : Text
  pub is_protected : Bool
  pub mbr_text : Text
  pub shown : Bool

-- A `div.members`.
pub record Block : Type 0 where
  pub members : List Member
  pub shown : Bool

-- A `div.group`.
pub record Group : Type 0 where
  pub blocks : List Block
  pub shown : Bool

pub record Page : Type 0 where
  -- `#order > ol > li`
  pub alpha : Option Bool
  pub inherit : Option Bool
  pub group : Option Bool
  -- `#visbl > ol > li`
  pub public_only : Option Bool
  pub all : Option Bool
  -- `#mbrsel > div > div.ancestors > ol > li`
  pub hide_all_control : Option Bool
  pub show_all_control : Option Bool
  pub linearization : List Ancestor
  pub implicits : List Ancestor
  -- `#memberfilter input`
  pub input : Text
  pub all_members : List Block
  pub all_members_shown : Bool
  -- The blocks below the parents and the conversions.
  pub inherited_members : List Block
  pub inherited_members_shown : Bool
  pub grouped_members : List Group
  pub grouped_members_shown : Bool
  -- The headings `div.parent` and `div.conversion`, and `#mbrsel > div.ancestors`.
  pub parents_shown : Bool
  pub conversions_shown : Bool
  pub ancestors_shown : Bool

-- `hasClass("in")`, `removeClass("out").addClass("in")` and the reverse, also on no element.
abbrev pub has_in : Option Bool → Bool
has_in none = false
has_in (some b) = b

abbrev pub has_out : Option Bool → Bool
has_out none = false
has_out (some b) = not b

abbrev pub turn : Bool → Option Bool → Option Bool
turn b none = none
turn b (some _) = some b

-- `indexOf` and `lastIndexOf` for one character; `none` is -1.
unfoldable pub index_of : ℕ → Text → Option ℕ
index_of c [] = none
index_of c (x ∷ s) = if x == c then some 0 else Option.map suc (index_of c s)

unfoldable pub last_index_of : ℕ → Text → Option ℕ
last_index_of c [] = none
last_index_of c (x ∷ s) = elim (last_index_of c s) [
  | some i ↦ some (suc i)
  | none ↦ if x == c then some 0 else none
]

-- `name.slice(0, i)`, where -1 cuts the last character off.
unfoldable pub drop_last : Text → Text
drop_last [] = []
drop_last (x ∷ []) = []
drop_last (x ∷ y ∷ s) = x ∷ drop_last (y ∷ s)

abbrev pub slice_to : Text → Option ℕ → Text
slice_to name none = drop_last name
slice_to name (some i) = take i name

unfoldable pub owner : Text → Text
owner name = elim (index_of b'#' name) [
  | some i ↦ take i name
  | none ↦ slice_to name (last_index_of b'.' name)
]

-- The loops over the names of the hidden ancestors.
unfoldable pub is_listed : Text → List Text → Bool
is_listed o [] = false
is_listed o (h ∷ hs) = text_eq h o || is_listed o hs

-- `replace(/[-[\]{}()*+?.,\\^$|#]/g, "\\$&")`
unfoldable pub escape : Text → Text
escape [] = []
escape (c ∷ s) =
    if is_listed (c ∷ []) (map (λ x. x ∷ []) (codes "-[]{}()*+?.,\\^$|#"))
    then b'\\' ∷ c ∷ escape s
    else c ∷ escape s

-- `replace(/\s+/g, "|")`; `gap` says that the character before was a space.
unfoldable pub join_words : Bool → Text → Text
join_words gap [] = []
join_words gap (c ∷ s) =
    let rest = join_words (is_space c) s in
    if is_space c then (if gap then rest else b'|' ∷ rest) else c ∷ rest

unfoldable pub to_query : Text → Text
to_query value = join_words false (escape (map to_lower_case (trim value)))
