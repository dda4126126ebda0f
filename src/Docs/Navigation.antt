-- ===== src/Docs/Navigation.antt =====
-- index.js, handleKeyNavigation: the iterator over the results of a search and the handler of the
-- keys that move through them. Elements of the page are numbers. A selection of jQuery holds at
-- most one of them. Scrolling is left out.
pub mod Highlight
pub mod Moves
mod Samples
use scala_neko.Base.{
  ℕ, zero, suc, ◌+◌, ◌-◌, min, Bool, true, false, Option, none, some, List, [], ◌∷◌, ◌==◌,
  if◌then◌else◌, length, get_elem?,
}
use scala_neko.Base.Text.{Text}

-- `position` is `index + 1`, since the index may be -1.
pub record EntityIterator : Type 0 where
  pub position : ℕ
  pub items : List ℕ
  pub litems : List ℕ
  pub ritems : List ℕ

abbrev pub or_else : List ℕ → List ℕ → List ℕ
or_else [] ritems = ritems
or_else (x ∷ xs) ritems = x ∷ xs

abbrev pub new : List ℕ → List ℕ → EntityIterator
new litems ritems = record {
  position = 0;
  items = or_else litems ritems;
  litems = litems;
  ritems = ritems;
}

-- `$(items[index])`
unfoldable pub item_at : List ℕ → ℕ → Option ℕ
item_at items zero = none
item_at items (suc index) = get_elem? items index

abbrev pub current : EntityIterator → Option ℕ
current it = item_at it.items it.position

abbrev pub next : EntityIterator → EntityIterator
next it = record it { position = min (length it.items) (it.position + 1) }

abbrev pub prev : EntityIterator → EntityIterator
prev it = record it { position = it.position - 1 }

-- `right` with the items on the right, `left` with those on the left.
abbrev pub switch_to : List ℕ → EntityIterator → EntityIterator
switch_to [] it = it
switch_to (x ∷ xs) it = record it { items = x ∷ xs; position = min it.position (length (x ∷ xs)) }

abbrev pub right : EntityIterator → EntityIterator
right it = switch_to it.ritems it

abbrev pub left : EntityIterator → EntityIterator
left it = switch_to it.litems it

-- The variables of the handler and what it changes of the page. `keydown` says whether the handler
-- is registered, and `visited` lists what Enter replaced the location with, the last one first.
pub record Navigation : Type 0 where
  pub items : EntityIterator
  pub old : Option ℕ
  pub selected : ℕ → Bool
  pub keydown : Bool
  pub visited : List (Option ℕ)
  pub input : Text
  pub input_focused : Bool
  pub results_shown : Bool
  pub close_results_shown : Bool
  pub doc_title_shown : Bool

-- `addClass("selected")` and `removeClass("selected")`.
unfoldable pub mark : Bool → Option ℕ → (ℕ → Bool) → ℕ → Bool
mark b none selected x = selected x
mark b (some y) selected x = if x == y then b else selected x

-- The items that the iterator moved to become `$old`.
unfoldable pub move : EntityIterator → Navigation → Navigation
move it n = record n {
  items = it;
  old = current it;
  selected = mark true (current it) (mark false n.old n.selected);
}

-- The job that handleKeyNavigation queues.
unfoldable pub handle_key_navigation : List ℕ → List ℕ → Navigation → Navigation
handle_key_navigation litems ritems n =
    let it = next (new litems ritems) in
    record n {
      items = it;
      old = current it;
      selected = mark true (current it) n.selected;
      keydown = true;
      input_focused = false;
    }

-- What `prev` gives is `undefined` at the index -1: the handler is taken off and the search box
-- has the focus.
unfoldable pub land : ℕ → EntityIterator → Navigation → Navigation
land zero it n = record n {
  items = it;
  old = none;
  selected = mark false n.old n.selected;
  keydown = false;
  input_focused = true;
}
land (suc index) it n = move it n

unfoldable pub up : Navigation → Navigation
up n = let it = prev n.items in land it.position it n

unfoldable pub escape : Navigation → Navigation
escape n = record n {
  input = [];
  results_shown = false;
  close_results_shown = false;
  doc_title_shown = true;
}

-- The cases of the `switch`.
pub data Key : Type 0 where
  tab_key enter_key escape_key left_key up_key right_key down_key other_key : Key

unfoldable pub key : ℕ → Key
key key_code =
    if key_code == 9
    then tab_key
    else if key_code == 13
    then enter_key
    else if key_code == 27
    then escape_key
    else if key_code == 37
    then left_key
    else if key_code == 38
    then up_key
    else if key_code == 39
    then right_key
    else if key_code == 40
    then down_key
    else other_key

unfoldable pub press : Key → Navigation → Navigation
press tab_key n = record n { selected = mark false n.old n.selected }
press enter_key n = record n { visited = n.old ∷ n.visited; input = [] }
press escape_key n = escape n
press left_key n = move (left n.items) n
press up_key n = up n
press right_key n = move (right n.items) n
press down_key n = move (next n.items) n
press other_key n = n

-- A key does nothing if the handler is off.
unfoldable pub key_down : ℕ → Navigation → Navigation
key_down key_code n = if n.keydown then press (key key_code) n else n
