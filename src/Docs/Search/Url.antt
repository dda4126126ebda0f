-- ===== src/Docs/Search/Url.antt =====
-- index.js, QueryString: the query of a page's address, which searchAll puts there.
use scala_neko.Base.{
  ℕ, ◌≡◌, refl, ap, ◌∙◌, Bool, true, false, not, ◌||◌, ◌&&◌, leb, Option, none, some, List, [], ◌∷◌,
  ◌++◌, ◌==◌, if◌then◌else◌, arith,
}
use scala_neko.Base.Text.{Text, codes, text_eq}
use scala_neko.Docs.Strings.{has_char, split, last_part}
use scala_neko.Docs.Search.Jobs.{search_address}

abbrev put : List Text → List (Text × Text) → List (Text × Text)
put (key ∷ value ∷ []) map = (key, value) ∷ map
put _ map = map

-- The pairs that the loop puts into `QueryString.map`, the last one first.
unfoldable pub pairs_of : List Text → List (Text × Text) → List (Text × Text)
pairs_of [] map = map
pairs_of (elem ∷ elems) map = pairs_of elems (put (split b'=' elem) map)

unfoldable pub value_of : List (Text × Text) → Text → Option Text
value_of [] key = none
value_of ((k, value) ∷ map) key = if text_eq k key then some value else value_of map key

-- `search` is `window.location.search`.
unfoldable pub query_string : Text → Text → Option Text
query_string search key = value_of (pairs_of (split b'&' (last_part (split b'?' search))) []) key

left_false : (a b : Bool) → (a || b) ≡ false → a ≡ false
left_false true b h = h
left_false false b h = refl

right_false : (a b : Bool) → (a || b) ≡ false → b ≡ false
right_false true b h = absurd (cc h)
right_false false b h = h

same : (c : ℕ) → (c == c) ≡ true
same c = ground arith

pub split-none : (c : ℕ) (s : Text) → has_char c s ≡ false → split c s ≡ s ∷ []
unfolding split has_char
split-none c [] h = refl
split-none c (x ∷ s) h =
    rw (split-none c s (right_false (x == c) _ h), left_false (x == c) _ h) refl

split-at :
    (c : ℕ) (s t : Text)
    → has_char c s ≡ false
    → has_char c t ≡ false
    → split c (s ++ c ∷ t) ≡ s ∷ t ∷ []
unfolding split has_char
split-at c [] t h k = rw (split-none c t k, same c) refl
split-at c (x ∷ s) t h k =
    rw (split-at c s t (right_false (x == c) _ h) k, left_false (x == c) _ h) refl

-- The characters that a browser leaves as they are in the query of an address: those of ASCII but
-- for spaces, controls, quotes, `<`, `>` and `#`.
abbrev is_plain : ℕ → Bool
is_plain c = leb b'!' c && leb c b'~' && not (has_char c (codes "\"'<>#"))

unfoldable pub all_plain : Text → Bool
all_plain [] = true
all_plain (c ∷ s) = is_plain c && all_plain s

-- `location_search` leads from the address that `replaceState` is given to `window.location.search`.
-- It encodes characters that are not plain, which `QueryString` does not decode.
module _ (location_search : Text → Text)
    (keeps : (c : ℕ) (s : Text)
      → all_plain (c ∷ s) ≡ true
      → location_search (b'?' ∷ c ∷ s) ≡ b'?' ∷ c ∷ s) where
  -- What searchAll puts into the address is found there again, if the browser keeps an address of
  -- plain characters, and the query has only such characters and none of the three that part an
  -- address.
  pub query_string-search :
      (query : Text)
      → all_plain query ≡ true
      → has_char b'?' query ≡ false
      → has_char b'&' query ≡ false
      → has_char b'=' query ≡ false
      → query_string (location_search (search_address query)) (codes "search") ≡ some query
  unfolding query_string pairs_of last_part value_of has_char all_plain
  query_string-search query plain a b c =
      ap (λ address. query_string address (codes "search"))
        (keeps b's' (codes "earch=" ++ query) plain)
      ∙ ap (λ l. value_of (pairs_of (split b'&' (last_part l)) []) (codes "search"))
          (split-at b'?' [] (codes "search=" ++ query) refl a)
      ∙ ap (λ l. value_of (pairs_of l []) (codes "search"))
          (split-none b'&' (codes "search=" ++ query) b)
      ∙ ap (λ l. value_of (put l []) (codes "search")) (split-at b'=' (codes "search") query refl c)
