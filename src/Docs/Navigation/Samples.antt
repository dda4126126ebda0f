-- ===== src/Docs/Navigation/Samples.antt =====
-- The theorems at a search with two entities and three members.
use scala_neko.Base.{ℕ, ◌≡◌, refl, true, false, none, some, List, [], ◌∷◌}
use scala_neko.Docs.Navigation.{
  Navigation, new, item_at, mark, move, land, up, escape, key, press, key_down,
  handle_key_navigation,
}
use scala_neko.Docs.Navigation.Highlight.{IsSound, presses, navigation-IsSound}

program : Unit {0}
unfolding item_at mark move land up escape key press key_down handle_key_navigation presses
program = tt

abbrev quiet : Navigation
quiet = record {
  items = new [] [];
  old = none;
  selected = λ x. false;
  keydown = false;
  visited = [];
  input = b'A' ∷ [];
  input_focused = true;
  results_shown = true;
  close_results_shown = true;
  doc_title_shown = false;
}

abbrev entities : List ℕ
entities = 10 ∷ 11 ∷ []

abbrev members : List ℕ
members = 20 ∷ 21 ∷ 22 ∷ []

-- Down, to the members, down, to the entities: the second entity.
old-walk :
    (presses (40 ∷ 39 ∷ 40 ∷ 37 ∷ []) (handle_key_navigation entities members quiet)).old ≡ some 11
unfolding program
old-walk = refl

visited-enter :
    (presses (39 ∷ 13 ∷ []) (handle_key_navigation entities members quiet)).visited ≡ some 20 ∷ []
unfolding program
visited-enter = refl

navigation-IsSound_example :
    IsSound (presses (40 ∷ 39 ∷ 9 ∷ 38 ∷ []) (handle_key_navigation entities members quiet))
navigation-IsSound_example =
    navigation-IsSound entities members quiet (40 ∷ 39 ∷ 9 ∷ 38 ∷ []) (λ x. refl)
