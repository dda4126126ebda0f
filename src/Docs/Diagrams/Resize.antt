-- ===== src/Docs/Diagrams/Resize.antt =====
-- The sizes of the diagrams.
use scala_neko.Base.{
  ℕ, ◌*◌, ◌≤◌, ◌<◌, ◌≡◌, ◌⊎◌, inl, inr, refl, sym, Bool, true, false, ◌&&◌, ltb, Bool-cases, arith,
}
use scala_neko.Docs.Diagrams.Containers.{
  Container, Diagrams, Which, inheritance_diagram, content_diagram, container, resize_one, resize,
}

-- The size shown fits and has the proportions of the diagram, and the cursor is that of a magnifying
-- glass only on a diagram that is too wide.
pub record IsFitted (available : ℕ) (before c : Container) : Type 0 where
  pub fits : c.shown_width ≤ available
  pub no_larger : c.shown_width ≤ before.width
  pub largest : (c.shown_width ≡ available) ⊎ (c.shown_width ≡ before.width)
  pub quotient : 0 < c.shown_height.1
  pub proportion :
      c.shown_height.0 * before.width ≡ before.height * c.shown_width * c.shown_height.1
  pub glass : c.magnifying ≡ (before.magnifying && ltb available before.width)

and-false : (b : Bool) → (b && false) ≡ false
and-false b = ground arith

and-true : (b : Bool) → (b && true) ≡ b
and-true b = ground arith

resize_one-IsFitted :
    (available : ℕ) (c : Container) → IsFitted available c (resize_one available c)
unfolding resize_one
resize_one-IsFitted available c = elim (Bool-cases (ltb available c.width)) [
  | inl e ↦
      let less : available < c.width = ground arith in
      rw e (record {
        fits = omega arith;
        no_larger = omega arith;
        largest = inl refl;
        quotient = omega arith;
        proportion = refl;
        glass = sym (rw e (and-true c.magnifying));
      })
  | inr e ↦
      let more : c.width ≤ available = ground arith in
      rw e (record {
        fits = omega arith;
        no_larger = omega arith;
        largest = inr refl;
        quotient = omega arith;
        proportion = omega arith;
        glass = sym (rw e (and-false c.magnifying));
      })
]

-- For every available width, each of the two diagrams is afterwards shown as wide as the space
-- available or as it is itself, no wider than either, with a height that has the proportions kept
-- when the page was loaded, and magnified only if it was before and is too wide.
pub resize-IsFitted :
    (available : ℕ) (d : Diagrams) (which : Which)
    → IsFitted available (container which d) (container which (resize available d))
unfolding resize
resize-IsFitted available d inheritance_diagram = resize_one-IsFitted available d.inheritance
resize-IsFitted available d content_diagram = resize_one-IsFitted available d.content
