-- ===== src/Docs/Template/Inherit/Entries.antt =====
-- The maps of `initInherit`: an entry is found for the names of the headings, and it leads to a
-- heading of that name.
use scala_neko.Base.{
  ℕ, suc, ◌+◌, ◌≡◌, refl, ap, subst, Bool, true, false, not, ◌&&◌, ◌||◌, some, List, [], ◌∷◌, map,
  get_elem?, All, Bool-cases, inl, inr, arith,
}
use scala_neko.Base.Text.{Text, text_eq, eq_of_text_eq}
use scala_neko.Docs.Template.{is_listed}
use scala_neko.Docs.Template.Inherit.{
  Heading, collect, is_parent, is_any, inherit_parents, group_parents, object_members, Found,
  heading, built_in, undefined, find,
}

abbrev pub names : List Heading → List Text
names hs = map (λ (h : Heading). h.name) hs

abbrev pub is_built_in : Found → Bool
is_built_in (heading i) = false
is_built_in built_in = true
is_built_in undefined = false

-- Every entry leads to the heading of its key.
abbrev pub IsSound : List Text → List (Text × ℕ) → Type 0
IsSound all parents = All (λ entry. get_elem? all entry.1 ≡ some entry.0) parents

pub IsSound-find :
    (all : List Text) (parents : List (Text × ℕ)) (key : Text) (i : ℕ)
    → IsSound all parents
    → find parents key ≡ heading i
    → get_elem? all i ≡ some key
unfolding find
IsSound-find all [] key i s h = elim (Bool-cases (is_listed key object_members)) [
  | inl e ↦ cc (rw e at h)
  | inr e ↦ cc (rw e at h)
]
IsSound-find all (entry ∷ parents) key i s h = elim (Bool-cases (text_eq entry.0 key)) [
  | inl e ↦
      let same : heading entry.1 ≡ heading i = rw e at h in
      let place : entry.1 ≡ i = ap (λ f. elim f [ heading n ↦ n | _ ↦ i ]) same in
      rw (← place, ← eq_of_text_eq entry.0 key e) s.0
  | inr e ↦ IsSound-find all parents key i s.1 (rw e at h)
]

IsSound-collect :
    (all : List Text) (selected : Heading → Bool) (i : ℕ) (hs : List Heading)
    → (parents : List (Text × ℕ))
    → ((j : ℕ) (k : Text) → get_elem? (names hs) j ≡ some k → get_elem? all (i + j) ≡ some k)
    → IsSound all parents
    → IsSound all (collect selected i hs parents)
unfolding collect
IsSound-collect all selected i [] parents at s = s
IsSound-collect all selected i (h ∷ hs) parents at s =
    IsSound-collect all selected (suc i) hs _
      (λ j k e. subst (λ n. get_elem? all n ≡ some k) (omega arith) (at (suc j) k e))
      (elim (Bool-cases (selected h)) [
        | inl e ↦
            rw e (subst (λ n. get_elem? all n ≡ some h.name) (omega arith) (at 0 h.name refl), s)
        | inr e ↦ rw e s
      ])

IsSound-start :
    (selected : Heading → Bool) (hs : List Heading) (parents : List (Text × ℕ))
    → IsSound (names hs) parents
    → IsSound (names hs) (collect selected 0 hs parents)
IsSound-start selected hs parents s =
    IsSound-collect (names hs) selected 0 hs parents
      (λ j k e. subst (λ n. get_elem? (names hs) n ≡ some k) (omega arith) e) s

-- The names of the headings that are selected.
is_selected : (Heading → Bool) → Text → List Heading → Bool
is_selected selected key [] = false
is_selected selected key (h ∷ hs) = selected h && text_eq h.name key || is_selected selected key hs

-- Whether a heading is found.
abbrev pub is_heading : Found → Bool
is_heading (heading i) = true
is_heading built_in = false
is_heading undefined = false

is_heading-find :
    (key name : Text) (i : ℕ) (parents : List (Text × ℕ))
    → is_heading (find ((name, i) ∷ parents) key)
      ≡ (text_eq name key || is_heading (find parents key))
unfolding find
is_heading-find key name i parents = elim (Bool-cases (text_eq name key)) [
  | inl e ↦ rw e refl
  | inr e ↦ rw e refl
]

is_built_in-find :
    (key name : Text) (i : ℕ) (parents : List (Text × ℕ))
    → is_built_in (find ((name, i) ∷ parents) key)
      ≡ (not (text_eq name key) && is_built_in (find parents key))
unfolding find
is_built_in-find key name i parents = elim (Bool-cases (text_eq name key)) [
  | inl e ↦ rw e refl
  | inr e ↦ rw e refl
]

is_heading-collect :
    (selected : Heading → Bool) (key : Text) (i : ℕ) (hs : List Heading) (parents : List (Text × ℕ))
    → is_heading (find (collect selected i hs parents) key)
      ≡ (is_selected selected key hs || is_heading (find parents key))
unfolding collect is_selected
is_heading-collect selected key i [] parents = refl
is_heading-collect selected key i (h ∷ hs) parents = elim (Bool-cases (selected h)) [
  | inl e ↦ rw (e, is_heading-collect selected key (suc i) hs, is_heading-find) ground arith
  | inr e ↦ rw (e, is_heading-collect selected key (suc i) hs) refl
]

is_built_in-collect :
    (selected : Heading → Bool) (key : Text) (i : ℕ) (hs : List Heading) (parents : List (Text × ℕ))
    → is_built_in (find (collect selected i hs parents) key)
      ≡ (not (is_selected selected key hs) && is_built_in (find parents key))
unfolding collect is_selected
is_built_in-collect selected key i [] parents = refl
is_built_in-collect selected key i (h ∷ hs) parents = elim (Bool-cases (selected h)) [
  | inl e ↦ rw (e, is_built_in-collect selected key (suc i) hs, is_built_in-find) ground arith
  | inr e ↦ rw (e, is_built_in-collect selected key (suc i) hs) refl
]

-- The two classes together are all headings.
is_selected-classes :
    (key : Text) (hs : List Heading)
    → (is_selected (λ h. h.is_conversion) key hs || is_selected is_parent key hs)
      ≡ is_listed key (names hs)
unfolding is_selected is_listed
is_selected-classes key [] = refl
is_selected-classes key (h ∷ hs) = rw (← is_selected-classes key hs) ground arith

is_selected-any :
    (key : Text) (hs : List Heading) → is_selected is_any key hs ≡ is_listed key (names hs)
unfolding is_selected is_listed
is_selected-any key [] = refl
is_selected-any key (h ∷ hs) = rw (is_selected-any key hs) refl

-- What a map must give at a key: it is right about the headings, the names and what is built in.
pub record IsMapOf (hs : List Heading) (parents : List (Text × ℕ)) : Type 0 where
  pub sound : IsSound (names hs) parents
  pub complete : (key : Text) → is_heading (find parents key) ≡ is_listed key (names hs)
  pub throws :
      (key : Text)
      → is_built_in (find parents key)
        ≡ (is_listed key object_members && not (is_listed key (names hs)))

is_heading-empty : (key : Text) → is_heading (find [] key) ≡ false
unfolding find
is_heading-empty key = elim (Bool-cases (is_listed key object_members)) [
  | inl e ↦ rw e refl
  | inr e ↦ rw e refl
]

is_built_in-empty : (key : Text) → is_built_in (find [] key) ≡ is_listed key object_members
unfolding find
is_built_in-empty key = elim (Bool-cases (is_listed key object_members)) [
  | inl e ↦ rw e refl
  | inr e ↦ rw e refl
]

pub inherit_parents-IsMapOf : (hs : List Heading) → IsMapOf hs (inherit_parents hs)
unfolding inherit_parents
inherit_parents-IsMapOf hs = record {
  sound = IsSound-start (λ h. h.is_conversion) hs _ (IsSound-start is_parent hs [] tt);
  complete = λ key.
      rw
        (is_heading-collect, is_heading-collect, ← is_selected-classes key hs, is_heading-empty key)
        ground arith;
  throws = λ key.
      rw
        (
          is_built_in-collect,
          is_built_in-collect,
          ← is_selected-classes key hs,
          is_built_in-empty key,
        )
        ground arith;
}

pub group_parents-IsMapOf : (hs : List Heading) → IsMapOf hs (group_parents hs)
unfolding group_parents
group_parents-IsMapOf hs = record {
  sound = IsSound-start is_any hs [] tt;
  complete =
      λ key. rw (is_heading-collect, ← is_selected-any key hs, is_heading-empty key) ground arith;
  throws =
      λ key. rw (is_built_in-collect, ← is_selected-any key hs, is_built_in-empty key) ground arith;
}
