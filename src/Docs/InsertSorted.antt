-- ===== src/Docs/InsertSorted.antt =====
-- index.js, insertSorted: a list item is put into a list by its id. Items are their ids.
mod Samples
use mathlib.Core.Option
use scala_neko.Base.{
  ℕ, zero, suc, ◌≡◌, refl, ap, Bool, true, false, ◌&&◌, ◌||◌, Option, none, some, List, [], ◌∷◌,
  ◌++◌, ◌==◌, ltb, if◌then◌else◌, insert_at, All,
}
use scala_neko.Base.Text.{Text}

-- `>` on strings.
unfoldable pub gtb : Text → Text → Bool
gtb [] t = false
gtb (c ∷ s) [] = true
gtb (c ∷ s) (d ∷ t) = ltb d c || c == d && gtb s t

-- The index of the `beforeLi` that the loop leaves.
unfoldable pub before_li : Text → List Text → Option ℕ
before_li li [] = none
before_li li (x ∷ lis) = elim (before_li li lis) [
  | some i ↦ some (suc i)
  | none ↦ if gtb x li then some 0 else none
]

unfoldable pub insert_sorted : List Text → Text → List Text
insert_sorted lis li = elim (before_li li lis) [
  | none ↦ lis ++ li ∷ []
  | some i ↦ insert_at lis i li
]

none_greater :
    (li : Text) (lis : List Text) → All (λ y. gtb y li ≡ false) lis → before_li li lis ≡ none
unfolding before_li
none_greater li [] h = refl
none_greater li (y ∷ lis) h = rw (none_greater li lis h.1, h.0) refl

-- The loop on a list whose last item with a greater id is `x`.
last_greater :
    (li x : Text) (before after : List Text)
    → gtb x li ≡ true
    → All (λ y. gtb y li ≡ false) after
    → (i : ℕ) × (before_li li (before ++ x ∷ after) ≡ some i)
      × (insert_at (before ++ x ∷ after) i li ≡ before ++ li ∷ x ∷ after)
unfolding before_li
last_greater li x [] after g h = (0, rw (none_greater li after h, g) refl, refl)
last_greater li x (y ∷ before) after g h =
    let (i, e, d) = last_greater li x before after g h in (suc i, rw e refl, ap (λ l. y ∷ l) d)

-- An item goes to the end of a list that has no greater id, and right before the last item with a
-- greater id otherwise, whatever stands before that one.
pub insert_sorted_lem :
    (li x : Text) (before after : List Text)
    → gtb x li ≡ true
    → All (λ y. gtb y li ≡ false) after
    → (insert_sorted after li ≡ after ++ li ∷ [])
      × (insert_sorted (before ++ x ∷ after) li ≡ before ++ li ∷ x ∷ after)
unfolding insert_sorted
insert_sorted_lem li x before after g h =
    let (i, e, d) = last_greater li x before after g h in
    (rw (insert_sorted, none_greater li after h) refl, rw (insert_sorted, e) d)
