-- ===== src/Docs/Template/Controls.antt =====
-- The controls of a page that exclude each other: the orderings, the two kinds of visibility, and
-- the buttons that hide and show all ancestors.
use scala_neko.Base.{◌≡◌, refl, Bool, true, not, ◌||◌, if◌then◌else◌}
use scala_neko.Base.Text.{Text}
use scala_neko.Docs.Template.{Page, has_in}

unfoldable pub one_of_two : Bool → Bool → Bool
one_of_two a b = if a then not b else b

unfoldable pub one_of_three : Bool → Bool → Bool → Bool
unfolding one_of_two
one_of_three a b c = if a then not (b || c) else one_of_two b c

-- One control of each kind is in.
pub record IsExclusive (p : Page) : Type 0 where
  pub order : one_of_three (has_in p.alpha) (has_in p.inherit) (has_in p.group) ≡ true
  pub visibility : one_of_two (has_in p.public_only) (has_in p.all) ≡ true
  pub ancestors : one_of_two (has_in p.hide_all_control) (has_in p.show_all_control) ≡ true

module _ (test : Text → Text → Bool) where
  abbrev all_refl :
      (p : Page)
      → (p.alpha ≡ p.alpha)
        × (p.inherit ≡ p.inherit)
        × (p.group ≡ p.group)
        × (p.public_only ≡ p.public_only)
        × (p.all ≡ p.all)
        × (p.hide_all_control ≡ p.hide_all_control)
        × (p.show_all_control ≡ p.show_all_control)
  all_refl p = (refl, refl, refl, refl, refl, refl, refl)
