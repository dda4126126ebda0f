-- ===== src/Docs/Diagrams/Classes.antt =====
-- addClass and removeClass on an attribute of clean class names.
use scala_neko.Base.{
  ℕ, ◌≡◌, inl, inr, refl, ap, sym, ◌∙◌, true, false, List, [], ◌∷◌, ◌++◌, All, All-imp, Bool-cases,
  append-nil, append_assoc,
}
use scala_neko.Base.Text.{Text, text_eq}
use scala_neko.Docs.Strings.{is_space, is_empty}
use scala_neko.Docs.Diagrams.{
  attach, split_spaces, in_array, join_spaces, keep_others, add_class, remove_class, over,
}

pub record IsName (w : Text) : Type 0 where
  pub no_spaces : All (λ c. is_space c ≡ false) w
  pub not_empty : is_empty w ≡ false

-- A class name, other than the one that highlights.
pub record IsWord (w : Text) : Type 0 where
  pub name : IsName w
  pub not_over : text_eq w over ≡ false

-- An attribute of class names with one space between two, none of them highlighting.
pub data IsClean : Text → Type 0 where
  clean : (w : Text) (ws : List Text) → IsWord w → All IsWord ws → IsClean (join_spaces (w ∷ ws))

blank : is_space b' ' ≡ true
unfolding is_space
blank = refl

attach-gap : (c : ℕ) (parts : List Text) → attach false true c parts ≡ attach false false c parts
unfolding attach
attach-gap c [] = refl
attach-gap c (part ∷ parts) = refl

-- A word in front of the end, and in front of a space.
split_spaces-word : (w : Text) → All (λ c. is_space c ≡ false) w → split_spaces false w ≡ w ∷ []
unfolding split_spaces attach
split_spaces-word [] h = refl
split_spaces-word (c ∷ w) h = rw (h.0, split_spaces-word w h.1) refl

split_spaces-before :
    (w t p : Text) (ps : List Text)
    → All (λ c. is_space c ≡ false) w
    → split_spaces true t ≡ p ∷ ps
    → split_spaces false (w ++ b' ' ∷ t) ≡ w ∷ p ∷ ps
unfolding split_spaces attach
split_spaces-before [] t p ps h e = rw (blank, e) refl
split_spaces-before (c ∷ w) t p ps h e = rw (h.0, split_spaces-before w t p ps h.1 e) refl

-- The text after a space starts with a word.
split_spaces-gap :
    (w t : Text)
    → All (λ c. is_space c ≡ false) w
    → is_empty w ≡ false
    → split_spaces true (w ++ t) ≡ split_spaces false (w ++ t)
unfolding split_spaces attach
split_spaces-gap [] t h k = absurd (cc k)
split_spaces-gap (c ∷ w) t h k = rw h.0 (attach-gap c (split_spaces false (w ++ t)))

join-gap :
    (v : Text) (ws : List Text)
    → IsName v
    → split_spaces true (join_spaces (v ∷ ws)) ≡ split_spaces false (join_spaces (v ∷ ws))
unfolding join_spaces
join-gap v [] h = rw (← append-nil v) (split_spaces-gap v [] h.no_spaces h.not_empty)
join-gap v (u ∷ ws) h = split_spaces-gap v _ h.no_spaces h.not_empty

-- The parts of words with one space between two.
split_spaces-join :
    (w : Text) (ws : List Text)
    → IsName w
    → All IsName ws
    → split_spaces false (join_spaces (w ∷ ws)) ≡ w ∷ ws
unfolding join_spaces
split_spaces-join w [] h hs = split_spaces-word w h.no_spaces
split_spaces-join w (v ∷ ws) h hs =
    split_spaces-before w (join_spaces (v ∷ ws)) v ws h.no_spaces
      (join-gap v ws hs.0 ∙ split_spaces-join v ws hs.0 hs.1)

join-append :
    (w : Text) (ws : List Text) (v : Text)
    → join_spaces ((w ∷ ws) ++ v ∷ []) ≡ join_spaces (w ∷ ws) ++ b' ' ∷ v
unfolding join_spaces
join-append w [] v = refl
join-append w (u ∷ ws) v =
    rw (join-append u ws v) (sym (append_assoc w (b' ' ∷ join_spaces (u ∷ ws)) (b' ' ∷ v)))

over-IsName : IsName over
unfolding is_space
over-IsName = record { no_spaces = (refl, (refl, (refl, (refl, tt)))); not_empty = refl }

names : (ws : List Text) → All IsWord ws → All IsName ws
names ws h = All-imp ws (λ w k. k.name) h

All-last : (ws : List Text) → All IsName ws → All IsName (ws ++ over ∷ [])
All-last [] h = (over-IsName, tt)
All-last (w ∷ ws) h = (h.0, All-last ws h.1)

in_array-none : (ws : List Text) → All IsWord ws → in_array over ws ≡ false
unfolding in_array
in_array-none [] h = refl
in_array-none (w ∷ ws) h = rw h.0.not_over (in_array-none ws h.1)

in_array-last : (ws : List Text) → in_array over (ws ++ over ∷ []) ≡ true
unfolding in_array
in_array-last [] = refl
in_array-last (w ∷ ws) = elim (Bool-cases (text_eq w over)) [
  | inl e ↦ rw e refl
  | inr e ↦ rw e (in_array-last ws)
]

keep_others-none : (ws : List Text) → All IsWord ws → keep_others over ws ≡ ws
unfolding keep_others
keep_others-none [] h = refl
keep_others-none (w ∷ ws) h = rw (keep_others-none ws h.1, h.0.not_over) refl

keep_others-last : (ws : List Text) → All IsWord ws → keep_others over (ws ++ over ∷ []) ≡ ws
unfolding keep_others
keep_others-last [] h = refl
keep_others-last (w ∷ ws) h = rw (keep_others-last ws h.1, h.0.not_over) refl

is_empty-append : (s t : Text) → is_empty s ≡ false → is_empty (s ++ t) ≡ false
is_empty-append [] t h = absurd (cc h)
is_empty-append (c ∷ s) t h = refl

is_empty-join : (w : Text) (ws : List Text) → IsName w → is_empty (join_spaces (w ∷ ws)) ≡ false
unfolding join_spaces
is_empty-join w [] h = h.not_empty
is_empty-join w (v ∷ ws) h = is_empty-append w _ h.not_empty

-- What the two operations do to a clean attribute.
pub record IsToggled (s : Text) : Type 0 where
  pub not_there : in_array over (split_spaces false s) ≡ false
  pub there : in_array over (split_spaces false (add_class over s)) ≡ true
  pub restored : remove_class over (add_class over s) ≡ s
  pub unchanged : remove_class over s ≡ s

add_class-join :
    (w : Text) (ws : List Text)
    → IsWord w
    → All IsWord ws
    → add_class over (join_spaces (w ∷ ws)) ≡ join_spaces ((w ∷ ws) ++ over ∷ [])
unfolding add_class
add_class-join w ws h hs =
    rw
      (
        split_spaces-join w ws h.name (names ws hs),
        in_array-none (w ∷ ws) (h, hs),
        is_empty-join w ws h.name,
      )
      (append_assoc (join_spaces (w ∷ ws)) (b' ' ∷ []) over ∙ sym (join-append w ws over))

-- Adding the class and removing it again gives a clean attribute back.
pub IsClean-IsToggled : {s : Text} → IsClean s → IsToggled s
unfolding remove_class
IsClean-IsToggled (clean w ws h hs) =
    let split_s = split_spaces-join w ws h.name (names ws hs) in
    let added = add_class-join w ws h hs in
    let split_added =
      ap (split_spaces false) added
      ∙ split_spaces-join w (ws ++ over ∷ []) h.name (All-last ws (names ws hs)) in
    record {
      not_there = ap (in_array over) split_s ∙ in_array-none (w ∷ ws) (h, hs);
      there = ap (in_array over) split_added ∙ in_array-last (w ∷ ws);
      restored =
          ap (λ l. join_spaces (keep_others over l)) split_added
          ∙ ap join_spaces (keep_others-last (w ∷ ws) (h, hs));
      unchanged =
          ap (λ l. join_spaces (keep_others over l)) split_s
          ∙ ap join_spaces (keep_others-none (w ∷ ws) (h, hs));
    }
