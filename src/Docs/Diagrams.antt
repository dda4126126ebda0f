-- ===== src/Docs/Diagrams.antt =====
-- diagrams.js: the highlighting of nodes and edges. `Containers` has the sizes of the diagrams and
-- the links that show and hide them; `Classes`, `Highlight`, `Resize` and `Toggle` what holds of all.
pub mod Classes
pub mod Highlight
pub mod Containers
pub mod Resize
pub mod Slides
pub mod Toggle
pub mod Clicks
mod Samples
use scala_neko.Base.{
  ℕ, ◌+◌, ◌*◌, Bool, true, false, not, ◌&&◌, Option, none, some, List, [], ◌∷◌, ◌++◌, map, ltb,
  if◌then◌else◌, get_elem?, update,
}
use scala_neko.Base.Text.{Text, codes, text_eq}
use scala_neko.Docs.Strings.{is_space, is_empty, split}

-- One more character in front of the parts; `gap` says that the character before was a space.
unfoldable pub attach : Bool → Bool → ℕ → List Text → List Text
attach space gap c [] = []
attach false gap c (part ∷ parts) = (c ∷ part) ∷ parts
attach true false c (part ∷ parts) = [] ∷ part ∷ parts
attach true true c (part ∷ parts) = part ∷ parts

-- `split(/\s+/)`
unfoldable pub split_spaces : Bool → Text → List Text
split_spaces gap [] = [] ∷ []
split_spaces gap (c ∷ s) = attach (is_space c) gap c (split_spaces (is_space c) s)

-- `$.inArray(...) != -1`
unfoldable pub in_array : Text → List Text → Bool
in_array t [] = false
in_array t (x ∷ xs) = if text_eq x t then true else in_array t xs

unfoldable pub join_spaces : List Text → Text
join_spaces [] = []
join_spaces (s ∷ []) = s
join_spaces (s ∷ t ∷ ts) = s ++ b' ' ∷ join_spaces (t ∷ ts)

unfoldable pub keep_others : Text → List Text → List Text
keep_others t [] = []
keep_others t (x ∷ xs) = let rest = keep_others t xs in if text_eq x t then rest else x ∷ rest

-- `diagrams.addClass` and `diagrams.removeClass`, on the text of the attribute.
unfoldable pub add_class : Text → Text → Text
add_class new_class classes =
    if in_array new_class (split_spaces false classes)
    then classes
    else (if is_empty classes then classes else classes ++ b' ' ∷ []) ++ new_class

unfoldable pub remove_class : Text → Text → Text
remove_class old_class classes = join_spaces (keep_others old_class (split_spaces false classes))

-- Which selectors of initHighlighting an element matches; "over" changes none of them.
pub record Selectors : Type 0 where
  pub is_node : Bool
  pub is_this : Bool
  pub is_inheritance : Bool
  pub is_incoming_node : Bool
  pub is_incoming_edge : Bool
  pub is_outgoing_node : Bool
  pub is_outgoing_edge : Bool

-- An element of a diagram; `svg` is the id of the `svg` around it.
pub record Element : Type 0 where
  pub svg : Text
  pub id : Text
  pub selectors : Selectors

-- A selection of jQuery: the positions of its elements.
unfoldable pub select_from : ℕ → (Element → Bool) → List Element → List ℕ
select_from i f [] = []
select_from i f (e ∷ es) = let rest = select_from (i + 1) f es in if f e then i ∷ rest else rest

abbrev pub select : (Element → Bool) → List Element → List ℕ
select f es = select_from 0 f es

-- `$("#...")`
abbrev first_of : List ℕ → List ℕ
first_of [] = []
first_of (x ∷ xs) = x ∷ []

unfoldable pub by_id : Text → List Element → List ℕ
by_id id es = first_of (select (λ (e : Element). text_eq e.id id) es)

-- `parts[k]`, and what it adds to a string.
abbrev part : ℕ → Text → Option Text
part k id = get_elem? (split b'_' id) k

abbrev part_text : ℕ → Text → Text
part_text k id = elim (part k id) [ none ↦ codes "undefined" | some s ↦ s ]

abbrev same_part : Option Text → Option Text → Bool
same_part none none = true
same_part (some s) (some t) = text_eq s t
same_part _ _ = false

abbrev joined : Text → ℕ → Text
joined id k = part_text 0 id ++ b'_' ∷ part_text k id

abbrev over : Text
over = codes "over"

-- `attr("class", ...)` on a selection sets the attribute of all its elements; `classes` has them by
-- their positions.
unfoldable pub set_classes : List ℕ → Text → (ℕ → Text) → ℕ → Text
set_classes [] text classes = classes
set_classes (x ∷ xs) text classes = set_classes xs text (update classes x text)

-- `toggleClass`. The attribute read is that of the first element; on an empty selection there is
-- none, and `split` of undefined throws.
unfoldable pub toggle_class : Bool → List ℕ → (ℕ → Text) → Option (ℕ → Text)
toggle_class is_over [] classes = none
toggle_class true (x ∷ xs) classes = some (
    if in_array over (split_spaces false (classes x))
    then classes
    else set_classes (x ∷ xs) (add_class over (classes x)) classes)
toggle_class false (x ∷ xs) classes =
    some (set_classes (x ∷ xs) (remove_class over (classes x)) classes)

-- What a handler leaves: the attributes, and whether it threw.
pub record Outcome : Type 0 where
  pub classes : ℕ → Text
  pub threw : Bool

unfoldable pub toggle_each : Bool → List (List ℕ) → (ℕ → Text) → Outcome
toggle_each is_over [] classes = record { classes = classes; threw = false }
toggle_each is_over (xs ∷ selections) classes = elim (toggle_class is_over xs classes) [
  | none ↦ record { classes = classes; threw = true }
  | some toggled ↦ toggle_each is_over selections toggled
]

-- The elements with a handler, by the selector that gives it.
pub data Hover : Type 0 where
  inheritance_edge node incoming_node incoming_edge outgoing_node outgoing_edge : Hover

-- The loop over the edges in the handler of a node.
unfoldable pub edges_at : Text → ℕ → List Element → List Element → List (List ℕ)
edges_at id i all [] = []
edges_at id i all (e ∷ es) =
    let rest = edges_at id (i + 1) all es in
    if not (e.selectors.is_inheritance && text_eq e.svg (part_text 0 id))
    then rest
    else if same_part (part 1 e.id) (part 1 id)
    then by_id (joined e.id 2) all ∷ (i ∷ []) ∷ rest
    else if same_part (part 2 e.id) (part 1 id)
    then by_id (joined e.id 1) all ∷ (i ∷ []) ∷ rest
    else rest

abbrev single : ℕ → List ℕ
single x = x ∷ []

-- What the handlers toggle, one after the other; `id` is the id of the element `i`.
unfoldable pub selections_of : Hover → Text → ℕ → List Element → List (List ℕ)
selections_of inheritance_edge id i es =
    by_id (joined id 1) es ∷ by_id (joined id 2) es ∷ single i ∷ []
selections_of node id i es = single i ∷ edges_at id 0 es es
selections_of incoming_node id i es =
    single i
    ∷ select (λ (e : Element). e.selectors.is_incoming_edge) es
    ∷ select (λ (e : Element). e.selectors.is_this) es
    ∷ []
selections_of incoming_edge id i es =
    single i
    ∷ select (λ (e : Element). e.selectors.is_this) es
    ∷ map single (select (λ (e : Element). e.selectors.is_incoming_node) es)
selections_of outgoing_node id i es =
    single i
    ∷ select (λ (e : Element). e.selectors.is_outgoing_edge) es
    ∷ select (λ (e : Element). e.selectors.is_this) es
    ∷ []
selections_of outgoing_edge id i es =
    single i
    ∷ select (λ (e : Element). e.selectors.is_this) es
    ∷ map single (select (λ (e : Element). e.selectors.is_outgoing_node) es)

unfoldable pub mouseover : Hover → Text → ℕ → List Element → (ℕ → Text) → Outcome
mouseover h id i es classes = toggle_each true (selections_of h id i es) classes

unfoldable pub mouseout : Hover → Text → ℕ → List Element → (ℕ → Text) → Outcome
mouseout h id i es classes = toggle_each false (selections_of h id i es) classes
