-- ===== src/Docs/Navigation/Moves.antt =====
-- Where the keys lead: the n-th press of Down is at the item with the index n, or at the last one,
-- and Up takes a press of Down back.
use scala_neko.Base.{
  ℕ, zero, suc, ◌+◌, ◌≡◌, ◌≤◌, refl, ap, sym, subst, ◌∙◌, min, arith, true, false, List, [], ◌∷◌,
  length,
}
use scala_neko.Docs.Navigation.{
  EntityIterator, Navigation, or_else, new, next, prev, current, item_at, move, up, land, press,
  key, key_down, handle_key_navigation,
}
use scala_neko.Docs.Navigation.Highlight.{presses}

abbrev pub downs : ℕ → List ℕ
downs zero = []
downs (suc n) = 40 ∷ downs n

-- The iterator after that many calls of `next`.
unfoldable pub forward : ℕ → EntityIterator → EntityIterator
forward zero it = it
forward (suc n) it = forward n (next it)

forward-position :
    (n : ℕ) (it : EntityIterator)
    → it.position ≤ length it.items
    → forward n it ≡ record it { position = min (length it.items) (it.position + n) }
unfolding forward
forward-position zero it h = ap (λ p. record it { position = p }) (omega arith)
forward-position (suc n) it h =
    forward-position n (next it) (omega arith) ∙ ap (λ p. record it { position = p }) (omega arith)

key_down-on :
    (key_code : ℕ) (v : Navigation)
    → v.keydown ≡ true
    → key_down key_code v ≡ press (key key_code) v
unfolding key_down
key_down-on key_code v on = simp on refl

-- Pressing Down moves the iterator and makes its item `$old`.
presses-downs :
    (n : ℕ) (v : Navigation)
    → v.keydown ≡ true
    → v.old ≡ current v.items
    → (presses (downs n) v).old ≡ current (forward n v.items)
unfolding presses forward press key move
presses-downs zero v on e = e
presses-downs (suc n) v on e =
    ap (λ w. (presses (downs n) w).old) (key_down-on 40 v on)
    ∙ presses-downs n (move (next v.items) v) on refl

-- After n presses of Down the item with the index n of the list is `$old`, or the last one if
-- there are not so many; the list is that of the entities, or that of the members if there are no
-- entities.
pub old-downs :
    (n : ℕ) (litems ritems : List ℕ) (v : Navigation)
    → (presses (downs n) (handle_key_navigation litems ritems v)).old
      ≡ item_at (or_else litems ritems) (min (length (or_else litems ritems)) (n + 1))
unfolding handle_key_navigation
old-downs n litems ritems v =
    let it = next (new litems ritems) in
    presses-downs n (handle_key_navigation litems ritems v) refl refl
    ∙ ap current (forward-position n it (omega arith))
    ∙ ap (item_at (or_else litems ritems)) (omega arith)

-- The Up key as many times.
abbrev pub ups : ℕ → List ℕ
ups zero = []
ups (suc n) = 38 ∷ ups n

-- The search box has the focus again, and nothing was visited or typed.
pub record IsBack (v w : Navigation) : Type 0 where
  pub handler_off : w.keydown ≡ false
  pub focused : w.input_focused ≡ true
  pub same_visited : w.visited ≡ v.visited
  pub same_input : w.input ≡ v.input

key_down-up :
    (i : ℕ) (v : Navigation)
    → v.keydown ≡ true
    → v.items.position ≡ i + 1
    → key_down 38 v ≡ land i (prev v.items) v
unfolding press key up
key_down-up i v on e = key_down-on 38 v on ∙ ap (λ p. land p (prev v.items) v) (omega (arith, e))

-- From the item with the index i, i + 1 presses of Up take the handler off and give the search box
-- the focus; nothing is visited and the query stays.
pub presses-ups :
    (i : ℕ) (v : Navigation)
    → v.keydown ≡ true
    → v.items.position ≡ i + 1
    → IsBack v (presses (ups (suc i)) v)
unfolding presses move land
presses-ups zero v on e =
    subst (IsBack v) (sym (key_down-up 0 v on e))
      (record { handler_off = refl; focused = refl; same_visited = refl; same_input = refl })
presses-ups (suc i) v on e =
    let b = presses-ups i (move (prev v.items) v) on (omega (arith, e)) in
    subst (λ w. IsBack v (presses (ups (suc i)) w)) (sym (key_down-up (suc i) v on e))
      (record {
        handler_off = b.handler_off;
        focused = b.focused;
        same_visited = b.same_visited;
        same_input = b.same_input;
      })
