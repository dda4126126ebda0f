-- ===== src/Docs/Template/Samples.antt =====
-- A small page, and the theorems on it.
use scala_neko.Base.{◌≡◌, refl, Bool, true, false, ◌||◌, some, List, [], ◌∷◌, ◌==◌, ◌&&◌}
use scala_neko.Base.Text.{Text, codes}
use scala_neko.Docs.Strings.{is_space, trim_start, trim_end, to_lower_case, trim}
use scala_neko.Docs.Template.{
  Member, Block, Page, has_in, index_of, last_index_of, drop_last, owner, is_listed, escape,
  join_words, to_query,
}
use scala_neko.Docs.Template.Filter.{
  names_out, criteria, any_shown, any_block_shown, keeps, filter_func, filter_group,
  filter_alphabetic, filter_groups, filter_inheritance, filter,
}
use scala_neko.Docs.Template.Handlers.{
  is_hidden_class, is_hidden, toggle_at, first_in, ancestor_name, hide_at_start, hide_classes,
  prefilter, load, edit, enable_public, enable_all, expose_member, keyup, clear_input, tab,
  click_linearization, click_implicits, hide_all, show_all, order_alpha, order_inherit, order_group,
  click_alpha, click_inherit, click_group,
}
use scala_neko.Docs.Template.Display.{
  names_shown, in_blocks, in_groups, displayed, of_blocks, of_groups, candidates, is_wanted,
  names_wanted, displayed-filter,
}
use scala_neko.Docs.Template.Upkeep.{
  handle, Reach, loaded, acts, alpha_clicked, all_clicked, key_released, linearization_clicked,
  edited, is_filtering, IsFiltered, Reach-IsFiltered,
}
use scala_neko.Docs.Template.Controls.{one_of_two, one_of_three}

program : Unit {0}
unfolding load edit is_filtering index_of last_index_of drop_last owner is_listed is_space
    trim_start trim_end to_lower_case trim escape join_words to_query names_out criteria any_shown
    any_block_shown keeps filter_func filter_group filter_alphabetic filter_groups
    filter_inheritance filter is_hidden_class is_hidden toggle_at first_in ancestor_name
    hide_at_start hide_classes prefilter enable_public enable_all expose_member keyup clear_input
    tab click_linearization click_implicits hide_all show_all order_alpha order_inherit order_group
    click_alpha click_inherit click_group names_shown in_blocks in_groups displayed of_blocks
    of_groups candidates is_wanted names_wanted handle one_of_two one_of_three
program = tt

-- An engine for queries without special characters.
abbrev starts_with : Text → Text → Bool
starts_with [] s = true
starts_with (c ∷ q) [] = false
starts_with (c ∷ q) (d ∷ s) = c == to_lower_case d && starts_with q s

abbrev finds : Text → Text → Bool
finds q [] = starts_with q []
finds q (c ∷ s) = starts_with q (c ∷ s) || finds q s

abbrev member : Text → Bool → Member
member name is_protected = record {
  name = name;
  is_protected = is_protected;
  mbr_text = [];
  shown = false;
}

abbrev block : List Member → Block
block ms = record { members = ms; shown = false }

abbrev send : Member
send = member (codes "neko.A#send") false

abbrev receive : Member
receive = member (codes "neko.A#receive") true

abbrev equals : Member
equals = member (codes "scala.Any#equals") false

abbrev page : Page
page = record {
  alpha = some true;
  inherit = some false;
  group = some false;
  public_only = some true;
  all = some false;
  hide_all_control = some false;
  show_all_control = some true;
  linearization =
      record { name = codes "neko.A"; data_hidden = false; is_in = true }
      ∷ record { name = codes "scala.Any"; data_hidden = false; is_in = true }
      ∷ [];
  implicits = [];
  input = [];
  all_members = block (send ∷ receive ∷ equals ∷ []) ∷ [];
  all_members_shown = true;
  inherited_members = block (equals ∷ []) ∷ [];
  inherited_members_shown = true;
  grouped_members = record { blocks = block (receive ∷ []) ∷ []; shown = true } ∷ [];
  grouped_members_shown = true;
  parents_shown = false;
  conversions_shown = false;
  ancestors_shown = true;
}

alpha_in : has_in page.alpha ≡ true
alpha_in = refl

-- At first only `send` is seen; a click on the hidden ancestor brings `equals` back.
displayed-page : displayed (prefilter finds page) ≡ codes "neko.A#send" ∷ []
unfolding program
displayed-page = refl

displayed-clicked :
    displayed (handle finds (linearization_clicked 1) (prefilter finds page))
    ≡ codes "neko.A#send" ∷ codes "scala.Any#equals" ∷ []
unfolding program
displayed-clicked = refl

displayed-typed :
    displayed (handle finds (key_released b'r' (codes " Receive")) (enable_all finds page))
    ≡ codes "neko.A#receive" ∷ []
unfolding program
displayed-typed = refl

-- After Tab the box is empty and the members are still those of the query.
displayed-tab : displayed (tab (keyup finds b'x' (codes "receive") page)) ≡ []
unfolding program
displayed-tab = refl

displayed-filter_example :
    displayed (filter finds page)
    ≡ names_wanted finds (criteria true page) (send ∷ receive ∷ equals ∷ [])
unfolding program
displayed-filter_example = displayed-filter finds page refl

-- The page after its start, with the members below the headings as they were.
abbrev started : Page
started = load finds page.grouped_members page.inherited_members page

-- The reader shows all members, pastes a text, and orders by name, where the text counts.
abbrev last : Page
last =
    handle finds alpha_clicked
      (handle finds (edited (codes "send")) (handle finds all_clicked started))

walk : Reach finds page last (codes "send")
unfolding program
walk = acts alpha_clicked (
    acts (edited (codes "send"))
      (acts all_clicked (loaded page.grouped_members page.inherited_members refl)))

Reach-IsFiltered_example : IsFiltered finds (codes "send") last
Reach-IsFiltered_example = Reach-IsFiltered finds alpha_in walk
