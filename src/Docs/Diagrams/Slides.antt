-- ===== src/Docs/Diagrams/Slides.antt =====
-- What comes of a diagram when its animations are over.
use scala_neko.Base.{◌≡◌, refl, ap, sym, ◌∙◌, Bool, true, false, not, List, [], ◌∷◌, ◌++◌}
use scala_neko.Docs.Diagrams.Containers.{
  Slide, up, down, Display, slide_after, hide, show, slid_of, slid, visible_next,
}

-- Whether the diagram is visible once the animations are over.
unfoldable pub visible_at_end : Bool → List Slide → Bool
visible_at_end b [] = b
visible_at_end b (up ∷ ss) = visible_at_end false ss
visible_at_end b (down ∷ ss) = visible_at_end true ss

-- The help and the controls are shown as the diagram will be.
pub record IsInStep (x : Display) : Type 0 where
  pub help : x.help_shown ≡ visible_at_end x.is_visible x.slides
  pub controls : x.controls_shown ≡ visible_at_end x.is_visible x.slides

pub visible_at_end-up : (b : Bool) (ss : List Slide) → visible_at_end b (ss ++ up ∷ []) ≡ false
unfolding visible_at_end
visible_at_end-up b [] = refl
visible_at_end-up b (up ∷ ss) = visible_at_end-up false ss
visible_at_end-up b (down ∷ ss) = visible_at_end-up true ss

pub visible_at_end-down : (b : Bool) (ss : List Slide) → visible_at_end b (ss ++ down ∷ []) ≡ true
unfolding visible_at_end
visible_at_end-down b [] = refl
visible_at_end-down b (up ∷ ss) = visible_at_end-down false ss
visible_at_end-down b (down ∷ ss) = visible_at_end-down true ss

-- What a display comes to be.
abbrev pub end_of : Display → Bool
end_of x = visible_at_end x.is_visible x.slides

pub slide_after-up :
    (ss : List Slide) (x : Display)
    → x.slides ≡ ss
    → (end_of (slide_after ss up x) ≡ false)
      × ((slide_after ss up x).is_open ≡ x.is_open)
      × ((slide_after ss up x).help_shown ≡ x.help_shown)
      × ((slide_after ss up x).controls_shown ≡ x.controls_shown)
unfolding slide_after visible_at_end
slide_after-up [] x h = (refl, refl, refl, refl)
slide_after-up (s ∷ ss) x h = (visible_at_end-up x.is_visible (s ∷ ss), refl, refl, refl)

pub slide_after-down :
    (ss : List Slide) (x : Display)
    → x.slides ≡ ss
    → (end_of (slide_after ss down x) ≡ true)
      × ((slide_after ss down x).is_open ≡ x.is_open)
      × ((slide_after ss down x).help_shown ≡ x.help_shown)
      × ((slide_after ss down x).controls_shown ≡ x.controls_shown)
unfolding slide_after visible_at_end
slide_after-down [] x h = (refl, refl, refl, refl)
slide_after-down (s ∷ ss) x h = (visible_at_end-down x.is_visible (s ∷ ss), refl, refl, refl)

pub visible_next-end :
    (b : Bool) (ss : List Slide) → visible_at_end (visible_next b ss) ss ≡ visible_at_end b ss
unfolding visible_at_end
visible_next-end b [] = refl
visible_next-end b (up ∷ ss) = refl
visible_next-end b (down ∷ ss) = refl

-- The end of an animation changes nothing of what comes of a display.
pub slid_of-end :
    (ss : List Slide) (x : Display)
    → x.slides ≡ ss
    → (end_of (slid_of ss x) ≡ end_of x)
      × ((slid_of ss x).is_open ≡ x.is_open)
      × ((slid_of ss x).help_shown ≡ x.help_shown)
      × ((slid_of ss x).controls_shown ≡ x.controls_shown)
unfolding slid_of visible_at_end
slid_of-end [] x h = (refl, refl, refl, refl)
slid_of-end (up ∷ ss) x h =
    (visible_next-end false ss ∙ sym (ap (visible_at_end x.is_visible) h), refl, refl, refl)
slid_of-end (down ∷ ss) x h = (sym (ap (visible_at_end x.is_visible) h), refl, refl, refl)

-- What a click or an end of an animation leaves in step.
pub hide-IsInStep : (x : Display) → IsInStep (hide x)
hide-IsInStep x =
    let (end, link, help, controls) =
      slide_after-up x.slides
        (record x { is_open = not x.is_open; help_shown = false; controls_shown = false }) refl in
    record { help = help ∙ sym end; controls = controls ∙ sym end }

pub show-IsInStep : (x : Display) → IsInStep (show x)
show-IsInStep x =
    let (end, link, help, controls) =
      slide_after-down x.slides
        (record x { is_open = not x.is_open; help_shown = true; controls_shown = true }) refl in
    record { help = help ∙ sym end; controls = controls ∙ sym end }

pub slid-IsInStep : (x : Display) → IsInStep x → IsInStep (slid x)
slid-IsInStep x h =
    let (end, link, help, controls) = slid_of-end x.slides x refl in
    record { help = help ∙ h.help ∙ sym end; controls = controls ∙ h.controls ∙ sym end }
