-- ===== src/Docs/Template/Inherit/Samples.antt =====
-- Small pages that `initInherit` prepares, and the theorem on them.
use scala_neko.Base.{◌≡◌, refl, false, none, some, [], ◌∷◌, ◌++◌, if◌then◌else◌}
use scala_neko.Base.Text.{Text, codes}
use scala_neko.Docs.Template.{index_of, drop_last, is_listed}
use scala_neko.Docs.Template.Inherit.{
  Item, Heading, Document, collect, inherit_parents, group_parents, find, owner_of, read_text,
  add_at, copy_member, copy_all, nested_values, value_items, read_texts, remove_empty,
  remove_headings, init_inherit,
}
use scala_neko.Docs.Template.Inherit.Places.{distinct}
use scala_neko.Docs.Template.Inherit.Arrange.{copies, with_members, arrange, any_rejected}
use scala_neko.Docs.Template.Inherit.Outcome.{init_inherit-arrange}

program : Unit {0}
unfolding index_of drop_last is_listed collect inherit_parents group_parents find owner_of add_at
    copy_member copy_all nested_values value_items read_texts remove_empty remove_headings
    init_inherit distinct copies with_members arrange any_rejected
program = tt

abbrev item : Text → Text → Item
item name group = record {
  name = some name;
  group = some group;
  comment = codes "a comment";
  mbr_text = none;
}

abbrev parent : Text → Heading
parent name = record { name = name; is_conversion = false; types = none; values = none }

abbrev inner : Item
inner = item (codes "neko.A#Inner") (codes "Ungrouped")

abbrev send : Item
send = item (codes "neko.A#send") (codes "Ungrouped")

abbrev equals : Item
equals = item (codes "scala.Any#equals") (codes "Ungrouped")

abbrev document : Document
document = record {
  types = inner ∷ [];
  values = send ∷ equals ∷ [];
  inherited = parent (codes "neko.A") ∷ parent (codes "scala.Any") ∷ parent (codes "neko.B") ∷ [];
  grouped = parent (codes "Ungrouped") ∷ [];
}

-- `neko.B` has no members and goes; `Inner` and `send` are below `neko.A`.
init_inherit-document :
    init_inherit document
    ≡ some (record {
      types = read_text inner ∷ [];
      values = read_text send ∷ read_text equals ∷ [];
      inherited =
          record (parent (codes "neko.A")) {
            types = some (read_text inner ∷ []);
            values = some (read_text send ∷ []);
          }
          ∷ record (parent (codes "scala.Any")) { values = some (read_text equals ∷ []) }
          ∷ [];
      grouped =
          record (parent (codes "Ungrouped")) {
            types = some (read_text inner ∷ []);
            values = some (read_text send ∷ read_text equals ∷ []);
          }
          ∷ [];
    })
unfolding program
init_inherit-document = refl

-- A group without a heading whose name every object has.
init_inherit-constructor :
    init_inherit
      (record document { values = item (codes "neko.A#send") (codes "constructor") ∷ [] })
    ≡ none
unfolding program
init_inherit-constructor = refl

-- Without "#" the owner is the name less its last character.
owner_of-plain : owner_of (codes "neko.A") ≡ codes "neko."
unfolding program
owner_of-plain = refl

init_inherit-arrange_example : init_inherit document ≡ (
    if any_rejected document (document.types ++ value_items document)
    then none
    else some (arrange document))
unfolding program
init_inherit-arrange_example = init_inherit-arrange document refl refl
