-- ===== src/Docs/Template/Handlers.antt =====
-- template.js: the handlers of the events of a page, which end in `filter`, and `exposeMember`.
use scala_neko.Base.{
  ℕ, zero, suc, Bool, true, false, not, ◌&&◌, ◌||◌, Option, none, some, List, [], ◌∷◌, map, ◌==◌,
  if◌then◌else◌,
}
use scala_neko.Base.Text.{Text, codes, text_eq}
use scala_neko.Docs.Strings.{is_empty}
use scala_neko.Docs.Template.{Ancestor, Block, Group, Page, has_in, has_out, turn}
use scala_neko.Docs.Template.Filter.{filter}

unfoldable pub is_hidden_class : Text → Bool
is_hidden_class name = text_eq name (codes "scala.Any") || text_eq name (codes "scala.AnyRef")

unfoldable pub is_hidden : Ancestor → Bool
is_hidden a = a.data_hidden

-- A click on the `i`-th entry of a list.
unfoldable pub toggle_at : ℕ → List Ancestor → List Ancestor
toggle_at i [] = []
toggle_at zero (a ∷ xs) = record a { is_in = not a.is_in } ∷ xs
toggle_at (suc i) (a ∷ xs) = a ∷ toggle_at i xs

-- `li.in` goes out.
abbrev turn_out : Ancestor → Ancestor
turn_out a = record a { is_in = false }

-- `li:first` goes in.
unfoldable pub first_in : List Ancestor → List Ancestor
first_in [] = []
first_in (a ∷ xs) = record a { is_in = true } ∷ xs

-- `li.out` goes in, unless `hidden` holds of it.
abbrev turn_in : (Ancestor → Bool) → Ancestor → Ancestor
turn_in hidden a = record a { is_in = a.is_in || not (hidden a) }

-- `li.out[name='...']` goes in.
abbrev turn_named : Text → Ancestor → Ancestor
turn_named name a = record a { is_in = a.is_in || text_eq a.name name }

abbrev hidden_class : Ancestor → Bool
hidden_class a = is_hidden_class a.name

-- `[^#]*` from the start of a name.
unfoldable pub ancestor_name : Text → Text
ancestor_name [] = []
ancestor_name (c ∷ s) = if c == b'#' then [] else c ∷ ancestor_name s

-- The classes that are set before the first `filter`.
unfoldable pub hide_at_start : List Ancestor → List Ancestor
hide_at_start xs = map (λ (a : Ancestor). record a { is_in = a.is_in && not (is_hidden a) }) xs

unfoldable pub hide_classes : List Ancestor → List Ancestor
hide_classes [] = []
hide_classes (a ∷ xs) =
    a ∷ map (λ (b : Ancestor). record b { is_in = b.is_in && not (hidden_class b) }) xs

-- `#filterby li.out[name='...']`
abbrev pub expose_ancestor : Text → Page → Page
expose_ancestor name p = record p {
  linearization = map (turn_named name) p.linearization;
  implicits = map (turn_named name) p.implicits;
}

-- Escape, Up, Page up and Page down.
abbrev pub is_emptying : ℕ → Bool
is_emptying key_code = key_code == 27 || key_code == 38 || key_code == 33 || key_code == 34

-- What the reader does to the filter box without a key, as with the mouse: the handler of `input` only
-- shows or hides the button that clears it.
unfoldable pub edit : Text → Page → Page
edit value p = record p { input = value }

-- The Tab key in the document, which moves to the search box of the index.
unfoldable pub tab : Page → Page
tab p = record p { input = [] }

module _ (test : Text → Text → Bool) where
  -- The start of the page up to its first `filter`.
  unfoldable pub prefilter : Page → Page
  prefilter p = filter test (record p {
    linearization = hide_classes p.linearization;
    implicits = hide_at_start p.implicits;
  })

  -- `toggleVisibilityFilter`, for its two pairs of arguments.
  unfoldable pub enable_public : Page → Page
  enable_public p =
      if has_out p.public_only
      then filter test (record p { public_only = turn true p.public_only; all = turn false p.all })
      else p

  unfoldable pub enable_all : Page → Page
  enable_all p =
      if has_out p.all
      then filter test (record p { all = turn true p.all; public_only = turn false p.public_only })
      else p

  -- What `exposeMember` does to the filters, for a member whose parent element has this name.
  unfoldable pub expose_member : Text → Bool → Page → Page
  expose_member parent_name is_protected p =
      let q = if is_protected then enable_all p else p in
      let name = ancestor_name parent_name in
      if is_empty name then filter test q else filter test (expose_ancestor name q)

  -- A key in the filter box, which now holds `value`; four of the keys empty it.
  unfoldable pub keyup : ℕ → Text → Page → Page
  keyup key_code value p =
      if is_emptying key_code
      then filter test (record p { input = [] })
      else filter test (record p { input = value })

  unfoldable pub clear_input : Page → Page
  clear_input p = filter test (record p { input = [] })

  unfoldable pub click_linearization : ℕ → Page → Page
  click_linearization i p = filter test (record p { linearization = toggle_at i p.linearization })

  unfoldable pub click_implicits : ℕ → Page → Page
  click_implicits i p = filter test (record p { implicits = toggle_at i p.implicits })

  unfoldable pub hide_all : Page → Page
  hide_all p =
      let switch = has_out p.hide_all_control && has_in p.show_all_control in
      filter test (record p {
        linearization = first_in (map turn_out p.linearization);
        implicits = map turn_out p.implicits;
        hide_all_control = if switch then turn true p.hide_all_control else p.hide_all_control;
        show_all_control = if switch then turn false p.show_all_control else p.show_all_control;
      })

  unfoldable pub show_all : Page → Page
  show_all p =
      let switch = has_out p.show_all_control && has_in p.hide_all_control in
      filter test (record p {
        linearization = map (turn_in hidden_class) p.linearization;
        implicits = map (turn_in is_hidden) p.implicits;
        show_all_control = if switch then turn true p.show_all_control else p.show_all_control;
        hide_all_control = if switch then turn false p.hide_all_control else p.hide_all_control;
      })

  unfoldable pub order_alpha : Page → Page
  order_alpha p = filter test (record p {
    alpha = turn true p.alpha;
    inherit = turn false p.inherit;
    group = turn false p.group;
    parents_shown = false;
    conversions_shown = false;
    ancestors_shown = true;
  })

  unfoldable pub order_inherit : Page → Page
  order_inherit p = filter test (record p {
    inherit = turn true p.inherit;
    alpha = turn false p.alpha;
    group = turn false p.group;
    parents_shown = true;
    conversions_shown = true;
    ancestors_shown = false;
  })

  unfoldable pub order_group : Page → Page
  order_group p = filter test (record p {
    group = turn true p.group;
    alpha = turn false p.alpha;
    inherit = turn false p.inherit;
    parents_shown = false;
    conversions_shown = false;
    ancestors_shown = true;
  })

  unfoldable pub click_alpha : Page → Page
  click_alpha p = if has_out p.alpha then order_alpha p else p

  unfoldable pub click_inherit : Page → Page
  click_inherit p = if has_out p.inherit then order_inherit p else p

  unfoldable pub click_group : Page → Page
  click_group p = if has_out p.group then order_group p else p

  -- `if ($("#order > ol > li.group").length == 1) { orderGroup(); }`
  abbrev pub order_group_if : Option Bool → Page → Page
  order_group_if none q = q
  order_group_if (some b) q = order_group q

  -- The rest of the start: `initInherit` leaves members below the headings, and a page with an
  -- ordering by groups is ordered that way.
  unfoldable pub load : List Group → List Block → Page → Page
  load grouped inherited p =
      let q = record (prefilter p) { grouped_members = grouped; inherited_members = inherited } in
      order_group_if q.group q
