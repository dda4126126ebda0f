-- ===== src/Docs/Diagrams/Highlight.antt =====
-- What the mouse highlights it takes back when it leaves.
use scala_neko.Base.{
  ℕ, ◌≡◌, ◌⊎◌, inl, inr, refl, ap, sym, subst, ◌∙◌, Bool, true, false, ◌||◌, some, List, [], ◌∷◌,
  map, ◌==◌, ==_iff, if◌then◌else◌, update, All, Bool-cases, arith,
}
use scala_neko.Base.Text.{Text}
use scala_neko.Docs.Diagrams.{
  split_spaces, in_array, add_class, remove_class, over, set_classes, toggle_class, toggle_each,
  Element, Hover, selections_of, mouseover, mouseout, single,
}
use scala_neko.Docs.Diagrams.Classes.{IsClean, IsToggled, IsClean-IsToggled}

unfoldable is_in : ℕ → List ℕ → Bool
is_in x [] = false
is_in x (y ∷ ys) = y == x || is_in x ys

module _ (before : ℕ → Text) (toggles : (x : ℕ) → IsToggled (before x)) where
  -- Outside of `xs` nothing has changed, and in `xs` the class may have been added.
  abbrev Within : List ℕ → (ℕ → Text) → Type 0
  Within xs now =
      (x : ℕ) → (now x ≡ before x) ⊎ ((is_in x xs ≡ true) × (now x ≡ add_class over (before x)))

  update-Within :
      (y : ℕ) (xs : List ℕ) (now : ℕ → Text)
      → is_in y xs ≡ true
      → Within xs now
      → Within xs (update now y (add_class over (before y)))
  update-Within y xs now i h x = elim (Bool-cases (y == x)) [
    | inl e ↦
        let same = (==_iff y x).0 e in
        rw e (inr (subst (λ z. is_in z xs ≡ true) same i, ap (λ z. add_class over (before z)) same))
    | inr e ↦ rw e (h x)
  ]

  -- Adding the class at one more element.
  over-Within :
      (y : ℕ) (xs : List ℕ) (now : ℕ → Text)
      → is_in y xs ≡ true
      → Within xs now
      → (next : ℕ → Text) × (toggle_class true (y ∷ []) now ≡ some next) × Within xs next
  unfolding toggle_class set_classes
  over-Within y xs now i h = elim (h y) [
    | inl e ↦ (
      update now y (add_class over (now y)),
      ap (λ b. some (if b then now else update now y (add_class over (now y))))
          (ap (λ t. in_array over (split_spaces false t)) e ∙ (toggles y).not_there),
      subst (λ t. Within xs (update now y (add_class over t))) (sym e) (update-Within y xs now i h),
    )
    | inr (_, e) ↦ (
      now,
      ap (λ b. some (if b then now else update now y (add_class over (now y))))
          (ap (λ t. in_array over (split_spaces false t)) e ∙ (toggles y).there),
      h,
    )
  ]

  out-Within :
      (y : ℕ) (ys : List ℕ) (now : ℕ → Text)
      → Within (y ∷ ys) now
      → Within ys (update now y (remove_class over (now y)))
  unfolding is_in
  out-Within y ys now h x = elim (Bool-cases (y == x)) [
    | inl e ↦
        let same = ap before ((==_iff y x).0 e) in
        rw e (
          inl (elim (h y) [
            | inl k ↦ ap (remove_class over) k ∙ (toggles y).unchanged ∙ same
            | inr (_, k) ↦ ap (remove_class over) k ∙ (toggles y).restored ∙ same
          ]))
    | inr e ↦ rw e (elim (h x) [
      | inl k ↦ inl k
      | inr (i, k) ↦ inr (subst (λ b. (b || is_in x ys) ≡ true) e i, k)
    ])
  ]

  over-each :
      (ys xs : List ℕ) (now : ℕ → Text)
      → All (λ y. is_in y xs ≡ true) ys
      → Within xs now
      → ((toggle_each true (map single ys) now).threw ≡ false)
        × Within xs (toggle_each true (map single ys) now).classes
  unfolding toggle_each
  over-each [] xs now i h = (refl, h)
  over-each (y ∷ ys) xs now i h =
      let (next, made, w) = over-Within y xs now i.0 h in
      rw (toggle_each, made) (over-each ys xs next i.1 w)

  out-each :
      (ys : List ℕ) (now : ℕ → Text)
      → Within ys now
      → ((toggle_each false (map single ys) now).threw ≡ false)
        × Within [] (toggle_each false (map single ys) now).classes
  unfolding toggle_each toggle_class set_classes
  out-each [] now h = (refl, h)
  out-each (y ∷ ys) now h = out-each ys _ (out-Within y ys now h)

  each_in :
      (ys xs : List ℕ)
      → ((y : ℕ) → is_in y ys ≡ true → is_in y xs ≡ true)
      → All (λ y. is_in y xs ≡ true) ys
  unfolding is_in
  each_in [] xs h = tt
  each_in (y ∷ ys) xs h = (h y (ground arith), each_in ys xs (λ z k. h z (ground arith)))

  none_in : (now : ℕ → Text) → Within [] now → (x : ℕ) → now x ≡ before x
  unfolding is_in
  none_in now h x = elim (h x) [ inl e ↦ e | inr (k, e) ↦ absurd (cc k) ]

-- If the class names of the elements are clean and each step of a handler selects one element,
-- then neither the handler of the mouse coming in nor that of the mouse leaving throws, and after
-- both every element has the attribute that it had before.
pub mouseout-mouseover :
    (h : Hover) (id : Text) (i : ℕ) (es : List Element) (classes : ℕ → Text) (xs : List ℕ)
    → ((x : ℕ) → IsClean (classes x))
    → selections_of h id i es ≡ map single xs
    → ((mouseover h id i es classes).threw ≡ false)
      × ((mouseout h id i es (mouseover h id i es classes).classes).threw ≡ false)
      × ((x : ℕ) → (mouseout h id i es (mouseover h id i es classes).classes).classes x ≡ classes x)
unfolding mouseover mouseout
mouseout-mouseover h id i es classes xs is_clean one =
    let toggles : (x : ℕ) → IsToggled (classes x) = λ x. IsClean-IsToggled (is_clean x) in
    let (a, w) =
      over-each classes toggles xs xs classes (each_in classes toggles xs xs (λ y k. k))
        (λ x. inl refl) in
    let (b, v) = out-each classes toggles xs _ w in rw one (a, b, none_in classes toggles _ v)
