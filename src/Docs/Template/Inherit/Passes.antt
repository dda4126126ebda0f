-- ===== src/Docs/Template/Inherit/Passes.antt =====
-- The passes of `initInherit` over the headings, by names instead of positions.
use scala_neko.Base.{
  ℕ, suc, ◌+◌, ◌≡◌, refl, ap, subst, Bool, ◌||◌, none, some, List, [], ◌∷◌, ◌++◌, map, get_elem?,
  Bool-cases, inl, inr, arith,
}
use scala_neko.Base.Text.{Text}
use scala_neko.Docs.Template.Inherit.{
  Item, Heading, Document, Found, Section, of_types, of_values, nested_values, read_nested,
  is_parent, is_any, has_members, remove_empty,
}
use scala_neko.Docs.Template.Inherit.Entries.{names}
use scala_neko.Docs.Template.Inherit.Places.{hits}
use scala_neko.Docs.Template.Inherit.Copies.{extend, extend-name, given, fill}
use scala_neko.Docs.Template.Inherit.Arrange.{
  copies, arranged, with_members, is_rejected, any_rejected,
}

-- Filling by positions and filling by names.
module _ (s : Section) (found : Item → Found) where
  given-copies :
      (test : Item → Bool) (j : ℕ) (ms : List Item)
      → ((m : Item) → hits (found m) j ≡ test m)
      → given s found j ms ≡ copies test ms
  unfolding given copies
  given-copies test j [] e = refl
  given-copies test j (m ∷ ms) e = rw (e m, given-copies test j ms e) refl

  fill-map :
      (test : Text → Item → Bool) (ms : List Item) (j : ℕ) (hs : List Heading)
      → ((m : Item) (i : ℕ) (k : Text)
          → get_elem? (names hs) i ≡ some k
          → hits (found m) (j + i) ≡ test k m)
      → fill s found ms j hs ≡ map (λ h. extend s (copies (test h.name) ms) h) hs
  unfolding fill
  fill-map test ms j [] e = refl
  fill-map test ms j (h ∷ hs) e =
      rw
        (
          given-copies (test h.name) j ms (λ m.
              subst (λ n. hits (found m) n ≡ test h.name m) (omega arith) (e m 0 h.name refl)),
          fill-map test ms (suc j) hs
              (λ m i k g. subst (λ n. hits (found m) n ≡ test k m) (omega arith) (e m (suc i) k g)),
        )
        refl

  pub fill-start :
      (test : Text → Item → Bool) (ms : List Item) (hs : List Heading)
      → ((m : Item) (i : ℕ) (k : Text)
          → get_elem? (names hs) i ≡ some k
          → hits (found m) i ≡ test k m)
      → fill s found ms 0 hs ≡ map (λ h. extend s (copies (test h.name) ms) h) hs
  fill-start test ms hs e =
      fill-map test ms 0 hs
        (λ m i k g. subst (λ n. hits (found m) n ≡ test k m) (omega arith) (e m i k g))

  pub names-fill :
      (ms : List Item) (j : ℕ) (hs : List Heading) → names (fill s found ms j hs) ≡ names hs
  unfolding fill
  names-fill ms j [] = refl
  names-fill ms j (h ∷ hs) =
      rw (extend-name s (given s found j ms) h, names-fill ms (suc j) hs) refl

-- A pass over the types leaves the values.
pub nested_values-fill :
    (found : Item → Found) (ms : List Item) (j : ℕ) (hs : List Heading)
    → nested_values (fill of_types found ms j hs) ≡ nested_values hs
unfolding nested_values fill
nested_values-fill found ms j [] = refl
nested_values-fill found ms j (h ∷ hs) =
    ap (λ rest. elim h.values [ none ↦ rest | some xs ↦ xs ++ rest ])
      (nested_values-fill found ms (suc j) hs)

pub remove_empty-any : (hs : List Heading) → remove_empty is_any hs ≡ with_members hs
unfolding remove_empty with_members
remove_empty-any [] = refl
remove_empty-any (h ∷ hs) = elim (Bool-cases (has_members h)) [
  | inl e ↦ rw (e, remove_empty-any hs) refl
  | inr e ↦ rw (e, remove_empty-any hs) refl
]

pub remove_empty-classes :
    (hs : List Heading)
    → remove_empty (λ h. h.is_conversion) (remove_empty is_parent hs) ≡ with_members hs
unfolding remove_empty with_members
remove_empty-classes [] = refl
remove_empty-classes (h ∷ hs) = elim (Bool-cases (has_members h)) [
  | inl e ↦ elim (Bool-cases h.is_conversion) [
    | inl f ↦ simp (e, f, remove_empty-classes hs)
    | inr f ↦ simp (e, f, remove_empty-classes hs)
  ]
  | inr e ↦ elim (Bool-cases h.is_conversion) [
    | inl f ↦ simp (e, f, remove_empty-classes hs)
    | inr f ↦ simp (e, f, remove_empty-classes hs)
  ]
]

pub arranged-map :
    (test : Text → Item → Bool) (types values : List Item) (hs : List Heading)
    → map read_nested (
        map
          (λ h. extend of_values (copies (test h.name) values) h)
          (map (λ h. extend of_types (copies (test h.name) types) h) hs))
      ≡ map (arranged test types values) hs
arranged-map test types values [] = refl
arranged-map test types values (h ∷ hs) =
    ap (arranged test types values h ∷◌) (arranged-map test types values hs)

or_assoc : (a b c : Bool) → (a || (b || c)) ≡ ((a || b) || c)
or_assoc a b c = ground arith

pub any_rejected-append :
    (d : Document) (xs ys : List Item)
    → any_rejected d (xs ++ ys) ≡ (any_rejected d xs || any_rejected d ys)
unfolding any_rejected
any_rejected-append d [] ys = refl
any_rejected-append d (m ∷ ms) ys =
    rw (any_rejected-append d ms ys) (or_assoc (is_rejected d m.name m) _ _)
