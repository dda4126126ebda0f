-- ===== src/Docs/Template/Inherit/Copies.antt =====
-- What a loop of `initInherit` over members does to the headings: each heading receives the members
-- that lead to it, in their order.
use scala_neko.Base.{
  ℕ, suc, ◌≡◌, refl, ap, ◌∙◌, Bool, true, false, ◌||◌, Option, none, some, List, [], ◌∷◌, ◌++◌,
  ◌==◌, ◌>>=◌, if◌then◌else◌, append_assoc, append-nil, ◌⊎◌, Bool-cases, inl, inr,
}
use scala_neko.Base.Text.{Text}
use scala_neko.Docs.Template.Inherit.{
  Item, Heading, Document, Found, heading, built_in, undefined, find, owner_of, group_key,
  read_text, append, Section, of_types, of_values, add, add_at, copy_below, copy_member, copy_all,
}
use scala_neko.Docs.Template.Inherit.Entries.{is_built_in}
use scala_neko.Docs.Template.Inherit.Places.{hits}

-- A section with some members more; without any, none is made.
abbrev pub receive : Option (List Item) → List Item → Option (List Item)
receive none [] = none
receive none (m ∷ ms) = some (m ∷ ms)
receive (some xs) ms = some (xs ++ ms)

abbrev pub extend : Section → List Item → Heading → Heading
extend of_types ms h = record h { types = receive h.types ms }
extend of_values ms h = record h { values = receive h.values ms }

receive-append :
    (o : Option (List Item)) (m : Item) (ms : List Item)
    → receive (append o m) ms ≡ receive o (m ∷ ms)
receive-append none m ms = refl
receive-append (some xs) m ms = ap some (append_assoc xs (m ∷ []) ms)

receive_nothing : (o : Option (List Item)) → receive o [] ≡ o
receive_nothing none = refl
receive_nothing (some xs) = ap some (append-nil xs)

extend-add :
    (s : Section) (m : Item) (ms : List Item) (h : Heading)
    → extend s ms (add s m h) ≡ extend s (m ∷ ms) h
extend-add of_types m ms h = ap (λ o. record h { types = o }) (receive-append h.types m ms)
extend-add of_values m ms h = ap (λ o. record h { values = o }) (receive-append h.values m ms)

extend_nothing : (s : Section) (h : Heading) → extend s [] h ≡ h
extend_nothing of_types h = ap (λ o. record h { types = o }) (receive_nothing h.types)
extend_nothing of_values h = ap (λ o. record h { values = o }) (receive_nothing h.values)

pub extend-name : (s : Section) (ms : List Item) (h : Heading) → (extend s ms h).name ≡ h.name
extend-name of_types ms h = refl
extend-name of_values ms h = refl

module _ (s : Section) (found : Item → Found) where
  -- The clones of the members that lead to position `j`.
  unfoldable pub given : ℕ → List Item → List Item
  given j [] = []
  given j (m ∷ ms) = let rest = given j ms in if hits (found m) j then read_text m ∷ rest else rest

  unfoldable pub fill : List Item → ℕ → List Heading → List Heading
  fill ms j [] = []
  fill ms j (h ∷ hs) = extend s (given j ms) h ∷ fill ms (suc j) hs

  fill_nothing : (j : ℕ) (hs : List Heading) → fill [] j hs ≡ hs
  unfolding fill given
  fill_nothing j [] = refl
  fill_nothing j (h ∷ hs) = rw (extend_nothing s h, fill_nothing (suc j) hs) refl

  fill-add_at :
      (m : Item) (ms : List Item) (i j : ℕ) (hs : List Heading)
      → found m ≡ heading i
      → fill ms j (add_at s (read_text m) i j hs) ≡ fill (m ∷ ms) j hs
  unfolding fill given add_at
  fill-add_at m ms i j [] e = refl
  fill-add_at m ms i j (h ∷ hs) e = elim (Bool-cases (j == i)) [
    | inl t ↦
        rw (e, t, fill-add_at m ms i (suc j) hs e, extend-add s (read_text m) (given j ms) h) refl
    | inr t ↦ rw (e, t, fill-add_at m ms i (suc j) hs e) refl
  ]

  fill_missed :
      (m : Item) (ms : List Item) (j : ℕ) (hs : List Heading)
      → found m ≡ undefined
      → fill ms j hs ≡ fill (m ∷ ms) j hs
  unfolding fill given
  fill_missed m ms j [] e = refl
  fill_missed m ms j (h ∷ hs) e = rw (e, fill_missed m ms (suc j) hs e) refl

  -- The two outcomes of a copy below one list of headings.
  copy_below-cases :
      (m : Item) (hs : List Heading) (f : Found)
      → found m ≡ f
      → ((is_built_in f ≡ true) × (copy_below s m f hs ≡ none))
        ⊎ ((is_built_in f ≡ false)
            × (after : List Heading) × (copy_below s m f hs ≡ some after)
            × ((ms : List Item) → fill ms 0 after ≡ fill (m ∷ ms) 0 hs))
  copy_below-cases m hs (heading i) e = inr (refl, _, refl, λ ms. fill-add_at m ms i 0 hs e)
  copy_below-cases m hs built_in e = inl (refl, refl)
  copy_below-cases m hs undefined e = inr (refl, hs, refl, λ ms. fill_missed m ms 0 hs e)

module _ (s : Section) (inherit_map group_map : List (Text × ℕ)) where
  -- Where a member leads.
  abbrev pub lead : Option Text → Found
  lead none = undefined
  lead (some q) = find inherit_map (owner_of q)

  abbrev pub found_owner : Item → Found
  found_owner m = lead m.name

  abbrev pub found_group : Item → Found
  found_group m = find group_map (group_key m.group)

  abbrev pub fails : Option Text → Item → Bool
  fails none m = true
  fails (some q) m = is_built_in (find inherit_map (owner_of q)) || is_built_in (found_group m)

  unfoldable pub any_fails : List Item → Bool
  any_fails [] = false
  any_fails (m ∷ ms) = fails m.name m || any_fails ms

  abbrev pub filled : List Item → Document → Document
  filled ms d = record d {
    inherited = fill s found_owner ms 0 d.inherited;
    grouped = fill s found_group ms 0 d.grouped;
  }

  abbrev copy_named : Option Text → Item → Document → Option Document
  copy_named o m d = do
    qual_name ← o
    inherited ← copy_below s m (find inherit_map (owner_of qual_name)) d.inherited
    grouped ← copy_below s m (find group_map (group_key m.group)) d.grouped
    some (record d { inherited = inherited; grouped = grouped })

  -- The two outcomes of a step, with the name apart.
  copy_named-cases :
      (o : Option Text) (m : Item) (d : Document)
      → m.name ≡ o
      → ((fails o m ≡ true) × (copy_named o m d ≡ none))
        ⊎ ((fails o m ≡ false)
            × (after : Document) × (copy_named o m d ≡ some after)
            × ((ms : List Item) → filled ms after ≡ filled (m ∷ ms) d))
  copy_named-cases none m d e = inl (refl, refl)
  copy_named-cases (some q) m d e =
      elim (copy_below-cases s found_owner m d.inherited _ (ap lead e)) [
        | inl (b, k) ↦ inl (rw b refl, rw k refl)
        | inr (b, xs, k, f) ↦ elim (copy_below-cases s found_group m d.grouped _ refl) [
          | inl (c, l) ↦ inl (rw (b, c) refl, rw (k, l) refl)
          | inr (c, ys, l, g) ↦ inr (
            rw (b, c) refl,
            record d { inherited = xs; grouped = ys },
            rw (k, l) refl,
            λ ms.
                ap (λ zs. record d { inherited = zs; grouped = fill s found_group ms 0 ys }) (f ms)
                ∙ ap
                    (λ zs. record d {
                      inherited = fill s found_owner (m ∷ ms) 0 d.inherited;
                      grouped = zs;
                    })
                    (g ms),
          )
        ]
      ]

  -- The loop fails at a member without a name and at a key that every object has. Otherwise it
  -- fills the headings.
  pub copy_all-fill :
      (ms : List Item) (d : Document)
      → copy_all s inherit_map group_map ms d ≡ (if any_fails ms then none else some (filled ms d))
  unfolding copy_all copy_member any_fails
  copy_all-fill [] d = rw (fill_nothing, fill_nothing) refl
  copy_all-fill (m ∷ ms) d = elim (copy_named-cases m.name m d refl) [
    | inl (f, h) ↦ rw (f, h) refl
    | inr (f, after, h, e) ↦ rw (f, h, copy_all-fill ms after, e ms) refl
  ]
