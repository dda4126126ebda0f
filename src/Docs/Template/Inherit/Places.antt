-- ===== src/Docs/Template/Inherit/Places.antt =====
-- With one heading for each name, the maps of `initInherit` lead to the heading of that name.
use scala_neko.Base.{
  ℕ, suc, zero, ◌≡◌, refl, sym, ap, ◌∙◌, Bool, true, false, not, ◌&&◌, some, List, [], ◌∷◌, ◌==◌,
  ==_iff, get_elem?, Bool-cases, inl, inr, some_inv, arith,
}
use scala_neko.Base.Text.{Text, text_eq, text_eq_refl, eq_of_text_eq}
use scala_neko.Docs.Template.{is_listed}
use scala_neko.Docs.Template.Inherit.{Heading, Found, heading, built_in, undefined, find}
use scala_neko.Docs.Template.Inherit.Entries.{names, is_heading, IsSound-find, IsMapOf}

-- Whether no name is there twice.
unfoldable pub distinct : List Text → Bool
distinct [] = true
distinct (k ∷ ks) = not (is_listed k ks) && distinct ks

abbrev pub hits : Found → ℕ → Bool
hits (heading i) j = j == i
hits built_in j = false
hits undefined j = false

is_listed-get_elem? :
    (key : Text) (ks : List Text) (i : ℕ) → get_elem? ks i ≡ some key → is_listed key ks ≡ true
unfolding is_listed
is_listed-get_elem? key [] i h = cc
is_listed-get_elem? key (k ∷ ks) zero h = rw (some_inv _ _ h, text_eq_refl key) refl
is_listed-get_elem? key (k ∷ ks) (suc i) h = rw (is_listed-get_elem? key ks i h) ground arith

-- A name stands at one place.
distinct_unique :
    (ks : List Text) (key : Text) (i j : ℕ)
    → distinct ks ≡ true
    → get_elem? ks i ≡ some key
    → get_elem? ks j ≡ some key
    → i ≡ j
unfolding distinct
distinct_unique [] key i j d g h = cc
distinct_unique (k ∷ ks) key zero zero d g h = refl
distinct_unique (k ∷ ks) key zero (suc j) d g h =
    let listed = is_listed-get_elem? key ks j h in cc (rw (some_inv _ _ g, listed) at d)
distinct_unique (k ∷ ks) key (suc i) zero d g h =
    let listed = is_listed-get_elem? key ks i g in cc (rw (some_inv _ _ h, listed) at d)
distinct_unique (k ∷ ks) key (suc i) (suc j) d g h =
    ap suc (distinct_unique ks key i j (ground (arith, d)) g h)

-- A name that is not a key is another text.
text_eq-absent :
    (ks : List Text) (key k : Text) (j : ℕ)
    → is_listed key ks ≡ false
    → get_elem? ks j ≡ some k
    → text_eq k key ≡ false
text_eq-absent ks key k j absent g = elim (Bool-cases (text_eq k key)) [
  | inl e ↦
      let same : get_elem? ks j ≡ some key = rw (eq_of_text_eq k key e) at g in
      cc (is_listed-get_elem? key ks j same, absent)
  | inr e ↦ e
]

hits-heading :
    (ks : List Text) (key k : Text) (i j : ℕ)
    → distinct ks ≡ true
    → get_elem? ks i ≡ some key
    → get_elem? ks j ≡ some k
    → (j == i) ≡ text_eq k key
hits-heading ks key k i j d at g = elim (Bool-cases (text_eq k key)) [
  | inl e ↦
      let same : get_elem? ks j ≡ some key = rw (eq_of_text_eq k key e) at g in
      rw (e, distinct_unique ks key j i d same at) ground arith
  | inr e ↦ elim (Bool-cases (j == i)) [
    | inl f ↦
        let same : some k ≡ some key = sym g ∙ ap (get_elem? ks) ((==_iff j i).0 f) ∙ at in
        let equal : text_eq k key ≡ true = rw (some_inv k key same) (text_eq_refl key) in cc equal
    | inr f ↦ f ∙ sym e
  ]
]

-- With one heading for each name, the map leads to the heading whose name is the key.
pub hits-find :
    (hs : List Heading) (parents : List (Text × ℕ)) (key k : Text) (j : ℕ)
    → IsMapOf hs parents
    → distinct (names hs) ≡ true
    → get_elem? (names hs) j ≡ some k
    → hits (find parents key) j ≡ text_eq k key
hits-find hs parents key k j m d g = hits-found (find parents key) refl
  where
    hits-found : (f : Found) → find parents key ≡ f → hits f j ≡ text_eq k key
    hits-found (heading i) e =
        hits-heading (names hs) key k i j d (IsSound-find (names hs) parents key i m.sound e) g
    hits-found built_in e =
        sym (text_eq-absent (names hs) key k j (sym (m.complete key) ∙ ap is_heading e) g)
    hits-found undefined e =
        sym (text_eq-absent (names hs) key k j (sym (m.complete key) ∙ ap is_heading e) g)
