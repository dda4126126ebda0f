-- ===== src/Docs/Template/Inherit/Arrange.antt =====
-- An independent description of the page that `initInherit` leaves.
use mathlib.Core.Option
use scala_neko.Base.{
  Bool, true, false, not, ◌&&◌, ◌||◌, Option, none, some, List, [], ◌∷◌, map, if◌then◌else◌,
}
use scala_neko.Base.Text.{Text, text_eq}
use scala_neko.Docs.Template.{is_listed}
use scala_neko.Docs.Template.Inherit.{
  Item, Heading, Document, object_members, owner_of, group_key, read_text, value_items, has_members,
}
use scala_neko.Docs.Template.Inherit.Entries.{names}
use scala_neko.Docs.Template.Inherit.Copies.{receive}

-- Whether a heading is the one of a member.
abbrev pub owner_is : Text → Item → Bool
owner_is k m = elim m.name [ none ↦ false | some q ↦ text_eq k (owner_of q) ]

abbrev pub group_is : Text → Item → Bool
group_is k m = text_eq k (group_key m.group)

-- The clones of the members that satisfy a test, in their order.
unfoldable pub copies : (Item → Bool) → List Item → List Item
copies test [] = []
copies test (m ∷ ms) = let rest = copies test ms in if test m then read_text m ∷ rest else rest

-- A heading with the members that are its own.
abbrev pub arranged : (Text → Item → Bool) → List Item → List Item → Heading → Heading
arranged test types values h = record h {
  types = receive h.types (copies (test h.name) types);
  values = Option.map (map read_text) (receive h.values (copies (test h.name) values));
}

unfoldable pub with_members : List Heading → List Heading
with_members [] = []
with_members (h ∷ hs) = let rest = with_members hs in if has_members h then h ∷ rest else rest

unfoldable pub arrange : Document → Document
arrange d = record {
  types = map read_text d.types;
  values = map read_text d.values;
  inherited = with_members (map (arranged owner_is d.types (value_items d)) d.inherited);
  grouped = with_members (map (arranged group_is d.types (value_items d)) d.grouped);
}

-- Keys that a map without them still answers, and the members that have one or have no name.
abbrev pub is_taken : List Text → Text → Bool
is_taken ks key = is_listed key object_members && not (is_listed key ks)

abbrev pub is_rejected : Document → Option Text → Item → Bool
is_rejected d none m = true
is_rejected d (some q) m =
    is_taken (names d.inherited) (owner_of q) || is_taken (names d.grouped) (group_key m.group)

unfoldable pub any_rejected : Document → List Item → Bool
any_rejected d [] = false
any_rejected d (m ∷ ms) = is_rejected d m.name m || any_rejected d ms
