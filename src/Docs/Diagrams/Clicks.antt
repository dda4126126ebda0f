-- ===== src/Docs/Diagrams/Clicks.antt =====
-- Clicks on the links of the diagrams, with time for the animations between them and without.
use scala_neko.Base.{
  ℕ, ◌≡◌, refl, ap, sym, subst, ◌∙◌, Bool, true, false, not, List, [], ◌∷◌, if◌then◌else◌,
}
use scala_neko.Docs.Diagrams.Containers.{
  Display, Diagrams, Which, inheritance_diagram, content_diagram, container, slide_after, hide,
  show, slid_of, slid,
}
use scala_neko.Docs.Diagrams.Slides.{
  IsInStep, visible_at_end, end_of, slide_after-up, slide_after-down, slid_of-end, hide-IsInStep,
  show-IsInStep, slid-IsInStep,
}
use scala_neko.Docs.Diagrams.Toggle.{
  Action, clicked, ended, handle, run, same, acted, itself, display-handle,
}

-- Each click comes when the animations of its own diagram are over.
unfoldable pub IsPatient : List Action → Diagrams → Type 0
IsPatient [] d = Unit {0}
IsPatient (clicked available w ∷ actions) d =
    ((container w d).display.slides ≡ []) × IsPatient actions (handle (clicked available w) d)
IsPatient (ended w ∷ actions) d = IsPatient actions (handle (ended w) d)

-- The link, the help, the controls, and what comes of the diagram.
pub record IsToggledBy (b : Bool) (x : Display) : Type 0 where
  pub link : x.is_open ≡ b
  pub in_step : IsInStep x
  pub visible : end_of x ≡ b

abbrev pub switched : Action → Which → Bool → Bool
switched (clicked available w) which b = if same w which then not b else b
switched (ended w) which b = b

-- Whether a diagram is to be visible, going by the clicks on its own link alone.
unfoldable pub visible_after : List Action → Which → Bool → Bool
visible_after [] which b = b
visible_after (a ∷ actions) which b = visible_after actions which (switched a which b)

hide-IsToggledBy : (x : Display) → IsToggledBy true x → IsToggledBy false (hide x)
hide-IsToggledBy x h =
    let (end, link, help, controls) =
      slide_after-up x.slides
        (record x { is_open = not x.is_open; help_shown = false; controls_shown = false }) refl in
    record { link = link ∙ ap not h.link; in_step = hide-IsInStep x; visible = end }

show-IsToggledBy : (x : Display) → IsToggledBy false x → IsToggledBy true (show x)
show-IsToggledBy x h =
    let (end, link, help, controls) =
      slide_after-down x.slides
        (record x { is_open = not x.is_open; help_shown = true; controls_shown = true }) refl in
    record { link = link ∙ ap not h.link; in_step = show-IsInStep x; visible = end }

chosen-IsToggledBy :
    (shown b : Bool) (x : Display)
    → shown ≡ b
    → IsToggledBy b x
    → IsToggledBy (not b) (if shown then hide x else show x)
chosen-IsToggledBy true true x e h = hide-IsToggledBy x h
chosen-IsToggledBy true false x e h = absurd (cc e)
chosen-IsToggledBy false true x e h = absurd (cc e)
chosen-IsToggledBy false false x e h = show-IsToggledBy x h

-- A click that finds no animation.
clicked-IsToggledBy :
    (b : Bool) (x : Display)
    → x.slides ≡ []
    → IsToggledBy b x
    → IsToggledBy (not b) (if x.is_visible then hide x else show x)
unfolding visible_at_end
clicked-IsToggledBy b x none_left h =
    chosen-IsToggledBy x.is_visible b x
      (sym (ap (visible_at_end x.is_visible) none_left) ∙ h.visible) h

slid-IsToggledBy : (b : Bool) (x : Display) → IsToggledBy b x → IsToggledBy b (slid x)
slid-IsToggledBy b x h =
    let (end, link, help, controls) = slid_of-end x.slides x refl in
    record { link = link ∙ h.link; in_step = slid-IsInStep x h.in_step; visible = end ∙ h.visible }

if_slid-IsToggledBy :
    (choice b : Bool) (x : Display) → IsToggledBy b x → IsToggledBy b (if choice then slid x else x)
if_slid-IsToggledBy true b x h = slid-IsToggledBy b x h
if_slid-IsToggledBy false b x h = h

-- A click on the link of a display, or on another one.
if_clicked-IsToggledBy :
    (w which : Which) (b : Bool) (d : Diagrams)
    → (container w d).display.slides ≡ []
    → IsToggledBy b (container which d).display
    → IsToggledBy
        (if same w which then not b else b)
        (acted (clicked 0 w) which (container which d).display)
unfolding same
if_clicked-IsToggledBy inheritance_diagram inheritance_diagram b d e h =
    clicked-IsToggledBy b d.inheritance.display e h
if_clicked-IsToggledBy inheritance_diagram content_diagram b d e h = h
if_clicked-IsToggledBy content_diagram inheritance_diagram b d e h = h
if_clicked-IsToggledBy content_diagram content_diagram b d e h =
    clicked-IsToggledBy b d.content.display e h

-- If the link, the help and the controls of a diagram agree with what is shown when its animations
-- are over, then they still do after clicks on the links, each of which finds the animations of its
-- own diagram over, and ends of animations between them; and a diagram comes to be shown if it was
-- to be shown before and the number of clicks on its own link is even, or was not and it is odd.
pub run-IsToggledBy :
    (actions : List Action) (d : Diagrams) (which : Which) (b : Bool)
    → IsPatient actions d
    → IsToggledBy b (container which d).display
    → IsToggledBy (visible_after actions which b) (container which (run actions d)).display
unfolding run visible_after IsPatient
run-IsToggledBy [] d which b calm h = h
run-IsToggledBy (clicked available w ∷ actions) d which b (over, calm) h =
    run-IsToggledBy actions (handle (clicked available w) d) which
      (if same w which then not b else b) calm
      (subst (IsToggledBy _) (sym (display-handle (clicked available w) which d))
        (if_clicked-IsToggledBy w which b d over h))
run-IsToggledBy (ended w ∷ actions) d which b calm h =
    run-IsToggledBy actions (handle (ended w) d) which b calm (
      subst (IsToggledBy b) (sym (display-handle (ended w) which d))
        (if_slid-IsToggledBy (same w which) b _ h))

abbrev click : Display → Display
click x = if x.is_visible then hide x else show x

display-click :
    (available : ℕ) (which : Which) (d : Diagrams)
    → (container which (handle (clicked available which) d)).display
      ≡ click (container which d).display
display-click available which d =
    display-handle (clicked available which) which d ∙ itself which _ _

display-ended :
    (which : Which) (d : Diagrams)
    → (container which (handle (ended which) d)).display ≡ slid (container which d).display
display-ended which d = display-handle (ended which) which d ∙ itself which _ _

-- A display that is shown, with no animation, as its link says.
abbrev shown_as : Bool → Bool → Display
shown_as h k = record {
  is_open = true;
  is_visible = true;
  help_shown = h;
  controls_shown = k;
  slides = [];
}

abbrev pub hidden_with_open_link : Display
hidden_with_open_link = record {
  is_open = true;
  is_visible = false;
  help_shown = false;
  controls_shown = false;
  slides = [];
}

click-click : (h k : Bool) → slid (slid (click (click (shown_as h k)))) ≡ hidden_with_open_link
unfolding slide_after slid_of
click-click h k = refl

as_shown :
    (x : Display) → IsToggledBy true x → x.slides ≡ [] → x ≡ shown_as x.help_shown x.controls_shown
unfolding visible_at_end
as_shown x h over =
    let visible = sym (ap (visible_at_end x.is_visible) over) ∙ h.visible in
    ap (λ ss. record x { slides = ss }) over
    ∙ ap (λ b. record x { slides = []; is_visible = b }) visible
    ∙ ap (λ b. record x { slides = []; is_visible = true; is_open = b }) h.link

-- Two clicks on the link of a diagram that is shown, the second one before the diagram is hidden,
-- leave the link open, and the diagram, the help and the controls hidden once its animations are
-- over.
pub run-hidden :
    (available later : ℕ) (d : Diagrams) (which : Which)
    → IsToggledBy true (container which d).display
    → (container which d).display.slides ≡ []
    → (container which (
        run
          (clicked available which ∷ clicked later which ∷ ended which ∷ ended which ∷ [])
          d)).display
      ≡ hidden_with_open_link
unfolding run
run-hidden available later d which h over =
    display-ended which _
    ∙ ap slid (display-ended which _)
    ∙ ap (λ x. slid (slid x)) (display-click later which _)
    ∙ ap (λ x. slid (slid (click x))) (display-click available which d)
    ∙ ap (λ x. slid (slid (click (click x)))) (as_shown (container which d).display h over)
    ∙ click-click (container which d).display.help_shown (container which d).display.controls_shown
