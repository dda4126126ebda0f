-- ===== src/Docs/Template/Inherit/Outcome.antt =====
-- `initInherit` against its description.
use scala_neko.Base.{
  ℕ, ◌≡◌, refl, ap, ◌∙◌, true, false, Option, none, some, List, [], ◌∷◌, ◌++◌, map, if◌then◌else◌,
  ◌>>=◌, get_elem?, Bool-cases, inl, inr,
}
use scala_neko.Base.Text.{Text, text_eq}
use scala_neko.Docs.Template.Inherit.{
  Item, Heading, Document, inherit_parents, group_parents, owner_of, group_key, Section, of_types,
  of_values, copy_all, value_items, read_nested, read_texts, remove_headings, init_inherit,
}
use scala_neko.Docs.Template.Inherit.Entries.{names, inherit_parents-IsMapOf, group_parents-IsMapOf}
use scala_neko.Docs.Template.Inherit.Places.{distinct, hits, hits-find}
use scala_neko.Docs.Template.Inherit.Copies.{
  extend, fill, found_owner, found_group, any_fails, copy_all-fill, lead, fails, filled,
}
use scala_neko.Docs.Template.Inherit.Arrange.{
  owner_is, group_is, copies, arranged, arrange, is_rejected, any_rejected,
}
use scala_neko.Docs.Template.Inherit.Passes.{
  fill-start, names-fill, nested_values-fill, remove_empty-any, remove_empty-classes, arranged-map,
  any_rejected-append,
}

-- The loops over a page with one heading for each name.
module _ (d : Document) (u : distinct (names d.inherited) ≡ true)
    (v : distinct (names d.grouped) ≡ true) where
  abbrev inherit_map : List (Text × ℕ)
  inherit_map = inherit_parents d.inherited

  abbrev group_map : List (Text × ℕ)
  group_map = group_parents d.grouped

  lead-owner_is :
      (s : Section) (o : Option Text) (i : ℕ) (k : Text)
      → get_elem? (names d.inherited) i ≡ some k
      → hits (lead s inherit_map group_map o) i
        ≡ elim o [ none ↦ false | some q ↦ text_eq k (owner_of q) ]
  lead-owner_is s none i k g = refl
  lead-owner_is s (some q) i k g =
      hits-find d.inherited inherit_map (owner_of q) k i (inherit_parents-IsMapOf d.inherited) u g

  fails-rejected :
      (s : Section) (o : Option Text) (m : Item)
      → fails s inherit_map group_map o m ≡ is_rejected d o m
  fails-rejected s none m = refl
  fails-rejected s (some q) m =
      rw
        (
          (inherit_parents-IsMapOf d.inherited).throws (owner_of q),
          (group_parents-IsMapOf d.grouped).throws (group_key m.group),
        )
        refl

  any_fails-rejected :
      (s : Section) (ms : List Item) → any_fails s inherit_map group_map ms ≡ any_rejected d ms
  unfolding any_fails any_rejected
  any_fails-rejected s [] = refl
  any_fails-rejected s (m ∷ ms) = rw (fails-rejected s m.name m, any_fails-rejected s ms) refl

  filled-inherited :
      (s : Section) (ms : List Item) (hs : List Heading)
      → names hs ≡ names d.inherited
      → fill s (found_owner s inherit_map group_map) ms 0 hs
        ≡ map (λ h. extend s (copies (owner_is h.name) ms) h) hs
  filled-inherited s ms hs e =
      fill-start s _ owner_is ms hs (λ m i k g. lead-owner_is s m.name i k (rw e at g))

  filled-grouped :
      (s : Section) (ms : List Item) (hs : List Heading)
      → names hs ≡ names d.grouped
      → fill s (found_group s inherit_map group_map) ms 0 hs
        ≡ map (λ h. extend s (copies (group_is h.name) ms) h) hs
  filled-grouped s ms hs e = fill-start s _ group_is ms hs (λ m i k g.
      hits-find d.grouped group_map (group_key m.group) k i (group_parents-IsMapOf d.grouped) v
        (rw e at g))

  abbrev typed : Document
  typed = filled of_types inherit_map group_map d.types d

  value_items-typed : value_items typed ≡ value_items d
  unfolding value_items
  value_items-typed = rw (nested_values-fill, nested_values-fill) refl

  inherited-arranged :
      (values : List Item)
      → map read_nested
          (fill of_values (found_owner of_values inherit_map group_map) values 0 typed.inherited)
        ≡ map (arranged owner_is d.types values) d.inherited
  inherited-arranged values =
      ap (map read_nested) (
        filled-inherited of_values values typed.inherited
          (names-fill of_types _ d.types 0 d.inherited)
        ∙ ap (map (λ h. extend of_values (copies (owner_is h.name) values) h))
            (filled-inherited of_types d.types d.inherited refl))
      ∙ arranged-map owner_is d.types values d.inherited

  grouped-arranged :
      (values : List Item)
      → map read_nested
          (fill of_values (found_group of_values inherit_map group_map) values 0 typed.grouped)
        ≡ map (arranged group_is d.types values) d.grouped
  grouped-arranged values =
      ap (map read_nested) (
        filled-grouped of_values values typed.grouped (names-fill of_types _ d.types 0 d.grouped)
        ∙ ap (map (λ h. extend of_values (copies (group_is h.name) values) h))
            (filled-grouped of_types d.types d.grouped refl))
      ∙ arranged-map group_is d.types values d.grouped

  abbrev valued : Document
  valued = filled of_values inherit_map group_map (value_items d) typed

  remove_headings-arrange : remove_headings (read_texts valued) ≡ arrange d
  unfolding remove_headings read_texts arrange
  remove_headings-arrange =
      rw
        (
          remove_empty-classes,
          remove_empty-any,
          inherited-arranged (value_items d),
          grouped-arranged (value_items d),
        )
        refl

  values_pass :
      (copy_all of_values inherit_map group_map (value_items typed) typed >>= λ (after : Document).
      some (remove_headings (read_texts after)))
      ≡ (if any_rejected d (value_items d) then none else some (arrange d))
  values_pass =
      rw (value_items-typed, copy_all-fill of_values inherit_map group_map, any_fails-rejected)
        (elim (Bool-cases (any_rejected d (value_items d))) [
          | inl e ↦ rw e refl
          | inr e ↦ rw (e, remove_headings-arrange) refl
        ])

  -- With one heading for each name, `initInherit` fails exactly if a member has no name or a key
  -- that every object has and no heading; otherwise it gives each heading clones of its own
  -- members, in the order of the page, and removes the headings without members.
  pub init_inherit-arrange :
      init_inherit d
      ≡ (if any_rejected d (d.types ++ value_items d) then none else some (arrange d))
  unfolding init_inherit
  init_inherit-arrange = elim (Bool-cases (any_rejected d d.types)) [
    | inl e ↦
        rw (copy_all-fill, any_fails-rejected, any_rejected-append d d.types (value_items d), e)
          refl
    | inr e ↦
        rw
          (
            copy_all-fill of_types inherit_map group_map d.types d,
            any_fails-rejected,
            any_rejected-append d d.types (value_items d),
            e,
          )
          values_pass
  ]
