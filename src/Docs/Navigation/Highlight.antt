-- ===== src/Docs/Navigation/Highlight.antt =====
-- Which result is highlighted while keys are pressed.
use scala_neko.Base.{
  ℕ, zero, suc, ◌≡◌, ◌≤◌, refl, arith, Bool, true, false, Option, none, some, List, [], ◌∷◌,
  Bool-cases, inl, inr, length,
}
use scala_neko.Docs.Navigation.{
  Key, tab_key, enter_key, escape_key, left_key, up_key, right_key, down_key, other_key, key, land,
  EntityIterator, Navigation, new, next, prev, current, right, left, switch_to, mark, move, up,
  escape, press, key_down, handle_key_navigation,
}

-- Within the items, and on one of them if there are any on either side.
pub record IsPlaced (it : EntityIterator) : Type 0 where
  pub inside : it.position ≤ length it.items
  pub on_item : 1 ≤ length it.items → 1 ≤ it.position
  pub left_items : 1 ≤ length it.litems → 1 ≤ length it.items
  pub right_items : 1 ≤ length it.ritems → 1 ≤ length it.items

pub record IsSound (n : Navigation) : Type 0 where
  pub placed : n.keydown ≡ true → IsPlaced n.items
  pub old_current : n.keydown ≡ true → n.old ≡ current n.items
  pub off : n.keydown ≡ false → n.old ≡ none
  pub only_old : (x : ℕ) → n.selected x ≡ true → n.old ≡ some x

mark-false :
    (o : Option ℕ) (selected : ℕ → Bool)
    → ((x : ℕ) → selected x ≡ true → o ≡ some x)
    → (x : ℕ) → mark false o selected x ≡ false
unfolding mark
mark-false none selected h x = elim (Bool-cases (selected x)) [ inl e ↦ cc (h x e) | inr e ↦ e ]
mark-false (some y) selected h x = ground (arith, h x)

mark-true :
    (c : Option ℕ) (selected : ℕ → Bool)
    → ((x : ℕ) → selected x ≡ false)
    → (x : ℕ) → mark true c selected x ≡ true
    → c ≡ some x
unfolding mark
mark-true none selected h x e = ground (arith, h x)
mark-true (some y) selected h x e = ground (arith, h x)

switch_to-IsPlaced :
    (xs : List ℕ) (it : EntityIterator)
    → (1 ≤ length xs → 1 ≤ length it.items)
    → IsPlaced it
    → IsPlaced (switch_to xs it)
switch_to-IsPlaced [] it k h = h
switch_to-IsPlaced (x ∷ xs) it k h = record {
  inside = omega arith;
  on_item = λ e. omega (arith, k e, h.on_item (k e));
  left_items = λ e. omega arith;
  right_items = λ e. omega arith;
}

next-IsPlaced : (it : EntityIterator) → IsPlaced it → IsPlaced (next it)
next-IsPlaced it h = record {
  inside = omega arith;
  on_item = λ e. omega arith;
  left_items = h.left_items;
  right_items = h.right_items;
}

new-IsPlaced : (litems ritems : List ℕ) → IsPlaced (next (new litems ritems))
new-IsPlaced [] ritems = record {
  inside = omega arith;
  on_item = λ e. omega arith;
  left_items = λ e. absurd (omega arith);
  right_items = λ e. e;
}
new-IsPlaced (x ∷ xs) ritems = record {
  inside = omega arith;
  on_item = λ e. omega arith;
  left_items = λ e. e;
  right_items = λ e. omega arith;
}

move-IsSound :
    (it : EntityIterator) (n : Navigation)
    → IsPlaced it
    → IsSound n
    → n.keydown ≡ true
    → IsSound (move it n)
unfolding move
move-IsSound it n p h on = record {
  placed = λ e. p;
  old_current = λ e. refl;
  off = λ e. cc (e, on);
  only_old = mark-true (current it) _ (mark-false n.old n.selected h.only_old);
}

land-IsSound :
    (p : ℕ) (it : EntityIterator) (n : Navigation)
    → (1 ≤ p → IsPlaced it)
    → IsSound n
    → n.keydown ≡ true
    → IsSound (land p it n)
unfolding land
land-IsSound zero it n p h on = record {
  placed = λ k. absurd (cc k);
  old_current = λ k. absurd (cc k);
  off = λ k. refl;
  only_old = λ x k. absurd (cc (k, mark-false n.old n.selected h.only_old x));
}
land-IsSound (suc index) it n p h on = move-IsSound it n (p (omega arith)) h on

up-IsSound : (n : Navigation) → IsSound n → n.keydown ≡ true → IsSound (up n)
unfolding up
up-IsSound n h on =
    let p = h.placed on in
    land-IsSound _ (prev n.items) n
      (λ k. record {
        inside = omega (arith, p.inside);
        on_item = λ e. k;
        left_items = p.left_items;
        right_items = p.right_items;
      })
      h on

press-IsSound : (k : Key) (n : Navigation) → IsSound n → n.keydown ≡ true → IsSound (press k n)
unfolding press escape
press-IsSound tab_key n h on = record {
  placed = h.placed;
  old_current = h.old_current;
  off = h.off;
  only_old = λ x k. absurd (cc (k, mark-false n.old n.selected h.only_old x));
}
press-IsSound enter_key n h on = record {
  placed = h.placed;
  old_current = h.old_current;
  off = h.off;
  only_old = h.only_old;
}
press-IsSound escape_key n h on = record {
  placed = h.placed;
  old_current = h.old_current;
  off = h.off;
  only_old = h.only_old;
}
press-IsSound left_key n h on =
    let p = h.placed on in
    move-IsSound (left n.items) n (switch_to-IsPlaced n.items.litems n.items p.left_items p) h on
press-IsSound up_key n h on = up-IsSound n h on
press-IsSound right_key n h on =
    let p = h.placed on in
    move-IsSound (right n.items) n (switch_to-IsPlaced n.items.ritems n.items p.right_items p) h on
press-IsSound down_key n h on =
    move-IsSound (next n.items) n (next-IsPlaced n.items (h.placed on)) h on
press-IsSound other_key n h on = h

-- Keys one after the other.
unfoldable pub presses : List ℕ → Navigation → Navigation
presses [] n = n
presses (k ∷ ks) n = presses ks (key_down k n)

key_down-IsSound : (key_code : ℕ) (n : Navigation) → IsSound n → IsSound (key_down key_code n)
unfolding key_down
key_down-IsSound key_code n h = elim (Bool-cases n.keydown) [
  | inl e ↦ simp e (press-IsSound (key key_code) n h e)
  | inr e ↦ simp e h
]

presses-IsSound : (ks : List ℕ) (n : Navigation) → IsSound n → IsSound (presses ks n)
unfolding presses
presses-IsSound [] n h = h
presses-IsSound (k ∷ ks) n h = presses-IsSound ks (key_down k n) (key_down-IsSound k n h)

-- If nothing was highlighted before, then after any keys the iterator stands on one of the items,
-- if there are any, `$old` is that item, and no other element is highlighted; once the handler is
-- off nothing is.
pub navigation-IsSound :
    (litems ritems : List ℕ) (n : Navigation) (ks : List ℕ)
    → ((x : ℕ) → n.selected x ≡ false)
    → IsSound (presses ks (handle_key_navigation litems ritems n))
unfolding handle_key_navigation
navigation-IsSound litems ritems n ks h =
    presses-IsSound ks (handle_key_navigation litems ritems n) (record {
      placed = λ k. new-IsPlaced litems ritems;
      old_current = λ k. refl;
      off = λ k. absurd (cc k);
      only_old = mark-true (current (next (new litems ritems))) n.selected h;
    })
