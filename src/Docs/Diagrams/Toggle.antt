-- ===== src/Docs/Diagrams/Toggle.antt =====
-- The links that show and hide the diagrams.
use scala_neko.Base.{
  ℕ, ◌+◌, ◌≡◌, inl, inr, refl, ap, sym, subst, ◌∙◌, Bool, true, false, not, List, [], ◌∷◌, ltb,
  if◌then◌else◌, Bool-cases,
}
use scala_neko.Docs.Diagrams.Containers.{
  down, Display, Container, Diagrams, Which, inheritance_diagram, content_diagram, container,
  with_container, slide_after, hide, show, slid, with_display, resize_one, resize, closed, opened,
  toggle,
}
use scala_neko.Docs.Diagrams.Slides.{IsInStep, hide-IsInStep, show-IsInStep, slid-IsInStep}

-- What happens to the links: clicks, each with the width available at its time, and ends of
-- animations.
pub data Action : Type 0 where
  clicked : ℕ → Which → Action
  ended : Which → Action

unfoldable pub handle : Action → Diagrams → Diagrams
handle (clicked available which) d = toggle available which d
handle (ended which) d =
    let c = container which d in with_container which (with_display (slid c.display) c) d

unfoldable pub run : List Action → Diagrams → Diagrams
run [] d = d
run (a ∷ actions) d = run actions (handle a d)

unfoldable pub same : Which → Which → Bool
same inheritance_diagram inheritance_diagram = true
same content_diagram content_diagram = true
same _ _ = false

-- What an action does to one of the displays.
abbrev pub acted : Action → Which → Display → Display
acted (clicked available w) which x =
    if same w which then (if x.is_visible then hide x else show x) else x
acted (ended w) which x = if same w which then slid x else x

pub itself : (which : Which) (x y : Display) → (if same which which then x else y) ≡ x
unfolding same
itself inheritance_diagram x y = refl
itself content_diagram x y = refl

resize_one-display : (available : ℕ) (c : Container) → (resize_one available c).display ≡ c.display
unfolding resize_one
resize_one-display available c = elim (Bool-cases (ltb available c.width)) [
  | inl e ↦ rw e refl
  | inr e ↦ rw e refl
]

toggle-visible :
    (available : ℕ) (which : Which) (d : Diagrams)
    → (container which d).display.is_visible ≡ true
    → toggle available which d ≡ closed which d
unfolding toggle
toggle-visible available which d e =
    ap (λ b. if b then closed which d else opened available which d) e

toggle-hidden :
    (available : ℕ) (which : Which) (d : Diagrams)
    → (container which d).display.is_visible ≡ false
    → toggle available which d ≡ opened available which d
unfolding toggle
toggle-hidden available which d e =
    ap (λ b. if b then closed which d else opened available which d) e

display-closed :
    (w which : Which) (d : Diagrams)
    → (container which (closed w d)).display
      ≡ (if same w which then hide (container which d).display else (container which d).display)
unfolding same
display-closed inheritance_diagram inheritance_diagram d = refl
display-closed inheritance_diagram content_diagram d = refl
display-closed content_diagram inheritance_diagram d = refl
display-closed content_diagram content_diagram d = refl

display-opened :
    (available : ℕ) (w which : Which) (d : Diagrams)
    → (container which (opened available w d)).display
      ≡ (if same w which then show (container which d).display else (container which d).display)
unfolding same resize
display-opened available inheritance_diagram inheritance_diagram d =
    ap show (resize_one-display available d.inheritance)
display-opened available inheritance_diagram content_diagram d =
    resize_one-display available d.content
display-opened available content_diagram inheritance_diagram d =
    resize_one-display available d.inheritance
display-opened available content_diagram content_diagram d =
    ap show (resize_one-display available d.content)

-- The branch that is chosen for the display on which one clicks.
chosen :
    (w which : Which) (d : Diagrams) (b : Bool)
    → (container w d).display.is_visible ≡ b
    → (if same w which
        then (if b then hide (container which d).display else show (container which d).display)
        else (container which d).display)
      ≡ acted (clicked 0 w) which (container which d).display
unfolding same
chosen inheritance_diagram inheritance_diagram d b e = rw e refl
chosen inheritance_diagram content_diagram d b e = refl
chosen content_diagram inheritance_diagram d b e = refl
chosen content_diagram content_diagram d b e = rw e refl

pub display-handle :
    (a : Action) (which : Which) (d : Diagrams)
    → (container which (handle a d)).display ≡ acted a which (container which d).display
unfolding handle same
display-handle (clicked available w) which d =
    elim (Bool-cases (container w d).display.is_visible) [
      | inl e ↦
          ap (λ x. (container which x).display) (toggle-visible available w d e)
          ∙ display-closed w which d
          ∙ chosen w which d true e
      | inr e ↦
          ap (λ x. (container which x).display) (toggle-hidden available w d e)
          ∙ display-opened available w which d
          ∙ chosen w which d false e
    ]
display-handle (ended inheritance_diagram) inheritance_diagram d = refl
display-handle (ended inheritance_diagram) content_diagram d = refl
display-handle (ended content_diagram) inheritance_diagram d = refl
display-handle (ended content_diagram) content_diagram d = refl

if-IsInStep : (b : Bool) (x y : Display) → IsInStep x → IsInStep y → IsInStep (if b then x else y)
if-IsInStep true x y h k = h
if-IsInStep false x y h k = k

acted-IsInStep :
    (a : Action) (which : Which) (x : Display) → IsInStep x → IsInStep (acted a which x)
acted-IsInStep (clicked available w) which x h =
    if-IsInStep (same w which) _ x
      (if-IsInStep x.is_visible _ _ (hide-IsInStep x) (show-IsInStep x)) h
acted-IsInStep (ended w) which x h = if-IsInStep (same w which) _ x (slid-IsInStep x h) h

-- If the help and the controls of a diagram are shown as the diagram is when its animations are
-- over, then that is so after any clicks on the links and ends of animations, in any order.
pub run-IsInStep :
    (actions : List Action) (d : Diagrams) (which : Which)
    → IsInStep (container which d).display
    → IsInStep (container which (run actions d)).display
unfolding run
run-IsInStep [] d which h = h
run-IsInStep (a ∷ actions) d which h =
    run-IsInStep actions (handle a d) which
      (subst IsInStep (sym (display-handle a which d)) (acted-IsInStep a which _ h))

resize_one-wheel_handlers :
    (available : ℕ) (c : Container) → (resize_one available c).wheel_handlers ≡ c.wheel_handlers
unfolding resize_one
resize_one-wheel_handlers available c = elim (Bool-cases (ltb available c.width)) [
  | inl e ↦ rw e refl
  | inr e ↦ rw e refl
]

show-is_visible : (x : Display) → x.slides ≡ [] → (show x).is_visible ≡ true
unfolding slide_after
show-is_visible x over =
    ap
      (λ ss.
        (slide_after ss down (record x {
          is_open = not x.is_open;
          help_shown = true;
          controls_shown = true;
        })).is_visible)
      over

opened-is_visible :
    (available : ℕ) (which : Which) (d : Diagrams)
    → (container which d).display.slides ≡ []
    → (container which (opened available which d)).display.is_visible ≡ true
unfolding same
opened-is_visible available which d over =
    ap (λ (x : Display). x.is_visible) (display-opened available which which d ∙ itself which _ _)
    ∙ show-is_visible (container which d).display over

closed-opened :
    (available : ℕ) (which : Which) (d : Diagrams)
    → let after = closed which (opened available which d) in
      (after.inheritance.wheel_handlers ≡ 0)
      × (after.content.wheel_handlers ≡ d.content.wheel_handlers + 1)
unfolding resize
closed-opened available inheritance_diagram d =
    (refl, ap (λ n. n + 1) (resize_one-wheel_handlers available d.content))
closed-opened available content_diagram d =
    (refl, ap (λ n. n + 1) (resize_one-wheel_handlers available d.content))

-- Opening a hidden diagram, whose animations are over, and closing it leaves no handler of the mouse
-- wheel on the container of the inheritance diagram, and one more than before on that of the content
-- diagram.
pub wheel_handlers-toggle-toggle :
    (available later : ℕ) (which : Which) (d : Diagrams)
    → (container which d).display.is_visible ≡ false
    → (container which d).display.slides ≡ []
    → ((toggle later which (toggle available which d)).inheritance.wheel_handlers ≡ 0)
      × ((toggle later which (toggle available which d)).content.wheel_handlers
          ≡ d.content.wheel_handlers + 1)
wheel_handlers-toggle-toggle available later which d e over =
    let (none_left, one_more) = closed-opened available which d in
    let both =
      ap (toggle later which) (toggle-hidden available which d e)
      ∙ toggle-visible later which _ (opened-is_visible available which d over) in
    (
      ap (λ (r : Diagrams). r.inheritance.wheel_handlers) both ∙ none_left,
      ap (λ (r : Diagrams). r.content.wheel_handlers) both ∙ one_more,
    )
