-- ===== src/Docs/Diagrams/Containers.antt =====
-- diagrams.js: the sizes of the diagrams, and the links that show and hide them.
use scala_neko.Base.{ℕ, ◌+◌, ◌*◌, Bool, true, false, not, List, [], ◌∷◌, ◌++◌, ltb, if◌then◌else◌}

-- `slideUp` and `slideDown`.
pub data Slide : Type 0 where
  up down : Slide

-- What toggle shows and hides. `slides` has the animations of the diagram, of which the first one
-- runs; the diagram is visible while it slides up.
pub record Display : Type 0 where
  pub is_open : Bool
  pub is_visible : Bool
  pub help_shown : Bool
  pub controls_shown : Bool
  pub slides : List Slide

-- A container with its diagram; `width` and `height` are the data kept when the page is loaded, and
-- the height shown is the quotient of two numbers. `wheel_handlers` counts the handlers of
-- `mousewheel.focal`.
pub record Container : Type 0 where
  pub width : ℕ
  pub height : ℕ
  pub shown_width : ℕ
  pub shown_height : ℕ × ℕ
  pub magnifying : Bool
  pub display : Display
  pub wheel_handlers : ℕ

unfoldable pub resize_one : ℕ → Container → Container
resize_one available c =
    if ltb available c.width
    then record c { shown_width = available; shown_height = (c.height * available, c.width) }
    else record c { shown_width = c.width; shown_height = (c.height, 1); magnifying = false }

-- The two containers of a page.
pub record Diagrams : Type 0 where
  pub inheritance : Container
  pub content : Container

unfoldable pub resize : ℕ → Diagrams → Diagrams
resize available d = record {
  inheritance = resize_one available d.inheritance;
  content = resize_one available d.content;
}

pub data Which : Type 0 where
  inheritance_diagram content_diagram : Which

abbrev pub container : Which → Diagrams → Container
container inheritance_diagram d = d.inheritance
container content_diagram d = d.content

abbrev pub with_container : Which → Container → Diagrams → Diagrams
with_container inheritance_diagram c d = record d { inheritance = c }
with_container content_diagram c d = record d { content = c }

-- An animation waits for those before it; one that slides down shows the diagram when it starts.
unfoldable pub slide_after : List Slide → Slide → Display → Display
slide_after [] up x = record x { slides = up ∷ [] }
slide_after [] down x = record x { slides = down ∷ []; is_visible = true }
slide_after (s ∷ ss) t x = record x { slides = (s ∷ ss) ++ t ∷ [] }

abbrev pub hide : Display → Display
hide x =
    slide_after x.slides up
      (record x { is_open = not x.is_open; help_shown = false; controls_shown = false })

abbrev pub show : Display → Display
show x =
    slide_after x.slides down
      (record x { is_open = not x.is_open; help_shown = true; controls_shown = true })

-- The animation that runs is over, and the next one starts.
abbrev pub visible_next : Bool → List Slide → Bool
visible_next b [] = b
visible_next b (up ∷ ss) = b
visible_next b (down ∷ ss) = true

unfoldable pub slid_of : List Slide → Display → Display
slid_of [] x = x
slid_of (up ∷ ss) x = record x { slides = ss; is_visible = visible_next false ss }
slid_of (down ∷ ss) x = record x { slides = ss; is_visible = true }

abbrev pub slid : Display → Display
slid x = slid_of x.slides x

abbrev pub with_display : Display → Container → Container
with_display x c = record c { display = x }

-- `unbind('mousewheel.focal')` on the container of inheritance, `on` on both.
abbrev pub unbind_wheel : Diagrams → Diagrams
unbind_wheel d = record d { inheritance = record d.inheritance { wheel_handlers = 0 } }

abbrev pub bind_wheel : Container → Container
bind_wheel c = record c { wheel_handlers = c.wheel_handlers + 1 }

-- The two branches of `toggle`.
abbrev pub closed : Which → Diagrams → Diagrams
closed which d =
    let c = container which d in
    unbind_wheel (with_container which (with_display (hide c.display) c) d)

abbrev pub opened : ℕ → Which → Diagrams → Diagrams
opened available which d =
    let resized = resize available d in
    let c = container which resized in
    let shown = with_container which (with_display (show c.display) c) resized in
    record { inheritance = bind_wheel shown.inheritance; content = bind_wheel shown.content }

-- `diagrams.toggle`, as a click on the link calls it. The calls at the start of a page, which show a
-- diagram without an animation, are left out.
unfoldable pub toggle : ℕ → Which → Diagrams → Diagrams
toggle available which d =
    if (container which d).display.is_visible then closed which d else opened available which d
