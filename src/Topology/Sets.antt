-- ===== src/Topology/Sets.antt =====
-- The operations of `Set` that the topologies use, on lists.
use scala_neko.Base.{
  ℕ, ◌≡◌, refl, sym, ap, ◌∙◌, ==_iff, Bool, true, false, not, ◌&&◌, ◌||◌, Option, none, some, List,
  [], ◌∷◌, ◌==◌, ◌++◌, if◌then◌else◌, Bool-cases, inl, inr, arith,
}

unfoldable pub elem : ℕ → List ℕ → Bool
elem x [] = false
elem x (y ∷ ys) = y == x || elem x ys

-- The elements that satisfy a test.
unfoldable pub keep : (ℕ → Bool) → List ℕ → List ℕ
keep f [] = []
keep f (x ∷ xs) = let rest = keep f xs in if f x then x ∷ rest else rest

unfoldable pub union : List ℕ → List ℕ → List ℕ
union xs ys = xs ++ keep (λ y. not (elem y xs)) ys

unfoldable pub intersect : List ℕ → List ℕ → List ℕ
intersect xs ys = keep (λ x. elem x ys) xs

unfoldable pub diff : List ℕ → List ℕ → List ℕ
diff xs ys = keep (λ x. not (elem x ys)) xs

-- `if (res.isEmpty) None else Some(res)`
abbrev pub some_unless_empty : List ℕ → Option (List ℕ)
some_unless_empty [] = none
some_unless_empty (x ∷ xs) = some (x ∷ xs)

elem-append : (z : ℕ) (xs ys : List ℕ) → elem z (xs ++ ys) ≡ (elem z xs || elem z ys)
unfolding elem
elem-append z [] ys = refl
elem-append z (x ∷ xs) ys = rw (elem-append z xs ys) ground arith

or_and : (a b c : Bool) → (a ≡ true → c ≡ true) → (a || b && c) ≡ ((a || b) && c)
or_and true b c h = sym (h refl)
or_and false b c h = refl

and_or : (a b c : Bool) → (a ≡ true → c ≡ false) → (b && c) ≡ ((a || b) && c)
and_or true b c h = rw (h refl) ground arith
and_or false b c h = refl

pub keep-eq : (f : ℕ → Bool) (z : ℕ) (xs : List ℕ) → elem z (keep f xs) ≡ (elem z xs && f z)
unfolding elem keep
keep-eq f z [] = refl
keep-eq f z (x ∷ xs) = elim (Bool-cases (f x)) [
  | inl e ↦ rw (e, keep-eq f z xs) (or_and (x == z) _ _ (λ h. sym (ap f ((==_iff x z).0 h)) ∙ e))
  | inr e ↦ rw (e, keep-eq f z xs) (and_or (x == z) _ _ (λ h. sym (ap f ((==_iff x z).0 h)) ∙ e))
]

pub elem-union : (z : ℕ) (xs ys : List ℕ) → elem z (union xs ys) ≡ (elem z xs || elem z ys)
unfolding union
elem-union z xs ys = rw (elem-append, keep-eq) ground arith

pub elem-intersect : (z : ℕ) (xs ys : List ℕ) → elem z (intersect xs ys) ≡ (elem z xs && elem z ys)
unfolding intersect
elem-intersect z xs ys = keep-eq (λ x. elem x ys) z xs

pub elem-diff : (z : ℕ) (xs ys : List ℕ) → elem z (diff xs ys) ≡ (elem z xs && not (elem z ys))
unfolding diff
elem-diff z xs ys = keep-eq (λ x. not (elem x ys)) z xs
