-- ===== src/Docs/Template/Filter.antt =====
-- template.js: `filter`, which shows and hides the members of a page.
use scala_neko.Base.{Bool, true, false, not, ◌&&◌, ◌||◌, List, [], ◌∷◌, map, if◌then◌else◌}
use scala_neko.Base.Text.{Text}
use scala_neko.Docs.Strings.{is_empty}
use scala_neko.Docs.Template.{
  Ancestor, Member, Block, Group, Page, has_in, owner, is_listed, to_query,
}

-- The variables of `filter` that its inner function reads.
pub record Criteria : Type 0 where
  pub query : Text
  pub private_members_hidden : Bool
  pub hidden_superclasses_linearization : List Text
  pub hidden_superclasses_implicits : List Text
  pub hide_inherited_members : Bool

-- `> li.out`
unfoldable pub names_out : List Ancestor → List Text
names_out [] = []
names_out (a ∷ xs) = let rest = names_out xs in if a.is_in then rest else a.name ∷ rest

-- `> li:gt(0)`
abbrev pub after_first : List Ancestor → List Ancestor
after_first [] = []
after_first (a ∷ xs) = xs

unfoldable pub criteria : Bool → Page → Criteria
criteria hide p = record {
  query = to_query p.input;
  private_members_hidden = has_in p.public_only;
  hidden_superclasses_linearization =
      if has_in p.inherit
      then map (λ (a : Ancestor). a.name) (after_first p.linearization)
      else names_out p.linearization;
  hidden_superclasses_implicits =
      if has_in p.inherit
      then map (λ (a : Ancestor). a.name) p.implicits
      else names_out p.implicits;
  hide_inherited_members = hide;
}

unfoldable pub any_shown : List Member → Bool
any_shown [] = false
any_shown (m ∷ ms) = m.shown || any_shown ms

unfoldable pub any_block_shown : List Block → Bool
any_block_shown [] = false
any_block_shown (b ∷ bs) = b.shown || any_block_shown bs

-- `test query subject` is `new RegExp(query, "i").test(subject)`.
module _ (test : Text → Text → Bool) where
  -- The body of `filterFunc` for one member: `false` where it hides the member and returns.
  unfoldable pub keeps : Criteria → Member → Bool
  keeps c m =
      if c.private_members_hidden && m.is_protected
      then false
      else if c.hide_inherited_members
          && is_listed (owner m.name) c.hidden_superclasses_linearization
      then false
      else if c.hide_inherited_members && is_listed (owner m.name) c.hidden_superclasses_implicits
      then false
      else if not (is_empty c.query) && not (test c.query m.name || test c.query m.mbr_text)
      then false
      else true

  abbrev filter_member : Criteria → Member → Member
  filter_member c m = record m { shown = keeps c m }

  unfoldable pub filter_func : Criteria → Block → Block
  filter_func c b =
      let members = map (filter_member c) b.members in
      record { members = members; shown = any_shown members }

  unfoldable pub filter_group : Criteria → Group → Group
  filter_group c g =
      let blocks = map (filter_func c) g.blocks in
      record { blocks = blocks; shown = any_block_shown blocks }

  -- The three branches of `filter`.
  unfoldable pub filter_alphabetic : Page → Page
  filter_alphabetic p = record p {
    all_members_shown = true;
    inherited_members_shown = false;
    grouped_members_shown = false;
    all_members = map (filter_func (criteria true p)) p.all_members;
  }

  unfoldable pub filter_groups : Page → Page
  filter_groups p = record p {
    grouped_members_shown = true;
    inherited_members_shown = false;
    all_members_shown = false;
    grouped_members = map (filter_group (criteria true p)) p.grouped_members;
  }

  unfoldable pub filter_inheritance : Page → Page
  filter_inheritance p = record p {
    inherited_members_shown = true;
    grouped_members_shown = false;
    all_members_shown = false;
    inherited_members = map (filter_func (criteria false p)) p.inherited_members;
  }

  unfoldable pub filter : Page → Page
  filter p =
      if has_in p.alpha
      then filter_alphabetic p
      else if has_in p.group
      then filter_groups p
      else if has_in p.inherit
      then filter_inheritance p
      else p
