-- ===== src/Docs/Diagrams/Samples.antt =====
-- A diagram of a class, its parent and an implicit view, and a page with two diagrams.
use scala_neko.Base.{ℕ, ◌*◌, ◌≡◌, refl, true, false, List, [], ◌∷◌, map}
use Prim.Native.String.{String}
use scala_neko.Base.Text.{Text, codes}
use scala_neko.Base.Text.{text_eq}
use scala_neko.Docs.Strings.{is_space, split}
use scala_neko.Docs.Diagrams.{
  attach, in_array, keep_others, select_from, by_id, set_classes, toggle_class, toggle_each,
  edges_at, over, split_spaces, add_class, remove_class, Selectors, Element, inheritance_edge, node,
  incoming_node, Outcome, selections_of, mouseover, mouseout, join_spaces,
}
use scala_neko.Docs.Diagrams.Containers.{
  Container, Diagrams, inheritance_diagram, content_diagram, container, resize_one, resize,
  slide_after, slid_of, toggle,
}
use scala_neko.Docs.Diagrams.Classes.{IsName, IsWord, IsClean, clean}
use scala_neko.Docs.Diagrams.Resize.{IsFitted, resize-IsFitted}
use scala_neko.Docs.Diagrams.Slides.{visible_at_end, IsInStep}
use scala_neko.Docs.Diagrams.Toggle.{
  Action, clicked, ended, handle, run, same, run-IsInStep, wheel_handlers-toggle-toggle,
}
use scala_neko.Docs.Diagrams.Clicks.{
  IsPatient, IsToggledBy, visible_after, run-IsToggledBy, hidden_with_open_link, run-hidden,
}

-- Lists the code that the samples run.
program : Unit {0}
unfolding attach split_spaces in_array join_spaces keep_others add_class remove_class select_from
    by_id set_classes toggle_class toggle_each edges_at selections_of mouseover mouseout resize_one
    resize toggle slide_after slid_of visible_at_end handle run same visible_after IsPatient
    is_space split
program = tt

abbrev nothing : Selectors
nothing = record {
  is_node = false;
  is_this = false;
  is_inheritance = false;
  is_incoming_node = false;
  is_incoming_edge = false;
  is_outgoing_node = false;
  is_outgoing_edge = false;
}

abbrev element : String → Selectors → Element
element id selectors = record { svg = codes "graph0"; id = codes id; selectors = selectors }

-- The class, its parent, the edge between them, and an implicit view with its edge.
abbrev diagram : List Element
diagram =
    element "graph0_1" (record nothing { is_node = true; is_this = true })
    ∷ element "graph0_2" (record nothing { is_node = true })
    ∷ element "graph0_1_2" (record nothing { is_inheritance = true })
    ∷ element "graph0_3" (record nothing { is_node = true; is_incoming_node = true })
    ∷ element "graph0_3_1" (record nothing { is_incoming_edge = true })
    ∷ []

abbrev attributes : ℕ → Text
attributes x = codes "node default"

split_words : split_spaces false (codes " a  b ") ≡ codes "" ∷ codes "a" ∷ codes "b" ∷ codes "" ∷ []
unfolding program
split_words = refl

removed : remove_class (codes "over") (codes "a over  b over") ≡ codes "a b"
unfolding program
removed = refl

of_node : selections_of node (codes "graph0_1") 0 diagram ≡ (0 ∷ []) ∷ (1 ∷ []) ∷ (2 ∷ []) ∷ []
unfolding program
of_node = refl

of_edge :
    selections_of inheritance_edge (codes "graph0_1_2") 2 diagram
    ≡ (0 ∷ []) ∷ (1 ∷ []) ∷ (2 ∷ []) ∷ []
unfolding program
of_edge = refl

highlighted :
    map (λ x. (mouseover node (codes "graph0_1") 0 diagram attributes).classes x) (1 ∷ 3 ∷ [])
    ≡ codes "node default over" ∷ codes "node default" ∷ []
unfolding program
highlighted = refl

-- A selection that is empty throws.
broken : (mouseover incoming_node (codes "graph0_1") 0 [] attributes).threw ≡ true
unfolding program
broken = refl

attributes-IsClean : (x : ℕ) → IsClean (attributes x)
unfolding program
attributes-IsClean x =
    let word : (w : Text) → IsName w → text_eq w over ≡ false → IsWord w =
      λ w h k. record { name = h; not_over = k } in
    clean (codes "node") (codes "default" ∷ [])
      (word (codes "node")
        (record { no_spaces = (refl, (refl, (refl, (refl, tt)))); not_empty = refl }) refl)
      (
        word (codes "default")
            (record {
              no_spaces = (refl, (refl, (refl, (refl, (refl, (refl, (refl, tt)))))));
              not_empty = refl;
            })
            refl,
        tt,
      )

abbrev entered : Outcome
entered = mouseover node (codes "graph0_1") 0 diagram attributes

abbrev loaded : ℕ → Container
loaded width = record {
  width = width;
  height = 200;
  shown_width = width;
  shown_height = (200, 1);
  magnifying = true;
  display = record {
    is_open = false;
    is_visible = false;
    help_shown = false;
    controls_shown = false;
    slides = [];
  };
  wheel_handlers = 0;
}

abbrev page : Diagrams
page = record { inheritance = loaded 1000; content = loaded 500 }

page-IsInStep : IsInStep (container inheritance_diagram page).display
unfolding program
page-IsInStep = record { help = refl; controls = refl }

page-IsToggledBy : IsToggledBy false (container inheritance_diagram page).display
unfolding program
page-IsToggledBy = record { link = refl; in_step = page-IsInStep; visible = refl }

shown_size : (resize 800 page).inheritance.shown_height ≡ (200 * 800, 1000)
unfolding program
shown_size = refl

resize-IsFitted_example :
    IsFitted 800
      (container inheritance_diagram page)
      (container inheritance_diagram (resize 800 page))
resize-IsFitted_example = resize-IsFitted 800 page inheritance_diagram

-- The second click comes while the diagram still slides down.
abbrev hasty : List Action
hasty =
    clicked 800 inheritance_diagram
    ∷ clicked 800 content_diagram
    ∷ clicked 700 inheritance_diagram
    ∷ ended inheritance_diagram
    ∷ []

hasty-IsInStep : IsInStep (container inheritance_diagram (run hasty page)).display
hasty-IsInStep = run-IsInStep hasty page inheritance_diagram page-IsInStep

abbrev calm : List Action
calm =
    clicked 800 inheritance_diagram
    ∷ clicked 800 content_diagram
    ∷ ended inheritance_diagram
    ∷ clicked 700 inheritance_diagram
    ∷ []

calm-IsPatient : IsPatient calm page
unfolding program
calm-IsPatient = (refl, (refl, (refl, tt)))

run-IsToggledBy_example :
    IsToggledBy
      (visible_after calm inheritance_diagram false)
      (container inheritance_diagram (run calm page)).display
run-IsToggledBy_example =
    run-IsToggledBy calm page inheritance_diagram false calm-IsPatient page-IsToggledBy

abbrev opened_page : Diagrams
opened_page = run (clicked 800 inheritance_diagram ∷ ended inheritance_diagram ∷ []) page

opened_page-IsToggledBy : IsToggledBy true (container inheritance_diagram opened_page).display
unfolding program
opened_page-IsToggledBy = record {
  link = refl;
  in_step = record { help = refl; controls = refl };
  visible = refl;
}

no_slides : (container inheritance_diagram opened_page).display.slides ≡ []
unfolding program
no_slides = refl

-- A second click before the diagram is hidden.
hasty_clicks :
    (container inheritance_diagram (
      run
        (clicked 800 inheritance_diagram
          ∷ clicked 800 inheritance_diagram
          ∷ ended inheritance_diagram
          ∷ ended inheritance_diagram
          ∷ [])
        opened_page)).display
    ≡ hidden_with_open_link
hasty_clicks = run-hidden 800 800 opened_page inheritance_diagram opened_page-IsToggledBy no_slides

wheel_handlers-toggle-toggle_example :
    ((toggle 800 content_diagram (toggle 800 content_diagram page)).inheritance.wheel_handlers ≡ 0)
    × ((toggle 800 content_diagram (toggle 800 content_diagram page)).content.wheel_handlers ≡ 1)
wheel_handlers-toggle-toggle_example =
    wheel_handlers-toggle-toggle 800 800 content_diagram page refl refl
