-- ===== src/Active/Stash.antt =====
-- Which event `ReceiveOrStash` handles, and what it leaves.
use scala_neko.Base.{
  ℕ, ◌+◌, ◌≤◌, ◌≡◌, refl, sym, ap, ◌∙◌, ◌↔◌, Bool, true, false, Option, none, some, some_inv, List,
  [], ◌∷◌, ◌++◌, append_assoc, if◌then◌else◌, Bool-cases, Option-cases, inl, inr, arith,
}
use scala_neko.Active.{
  ActiveProtocol, Outcome, handled, waiting, find, filter_not, receive_loop, receive_or_stash,
}

module _ {ℓ} {E : Type ℓ} where
  abbrev pub pending : ActiveProtocol E → List E
  pending s = s.stash ++ s.blocking_queue

  abbrev pub event : Outcome E → Option E
  event (handled m s) = some m
  event (waiting s) = none

  abbrev pub protocol_of : Outcome E → ActiveProtocol E
  protocol_of (handled m s) = s
  protocol_of (waiting s) = s

  abbrev pub left_over : Outcome E → List E
  left_over (handled m s) = pending s
  left_over (waiting s) = pending s

  -- A list without the first of its elements for which a function is defined.
  unfoldable pub without_first : (E → Bool) → List E → List E
  without_first defined [] = []
  without_first defined (m ∷ ms) =
      let rest = without_first defined ms in if defined m then ms else m ∷ rest

  -- With nothing in the stash to handle, the loop goes on with the queue.
  receive_loop-event :
      (defined : E → Bool) (stash queue : List E)
      → event (receive_loop defined stash queue) ≡ find defined queue
  unfolding receive_loop find
  receive_loop-event defined stash [] = refl
  receive_loop-event defined stash (m ∷ queue) = elim (Bool-cases (defined m)) [
    | inl e ↦ rw e refl
    | inr e ↦ rw e (receive_loop-event defined (stash ++ m ∷ []) queue)
  ]

  receive_loop-left_over :
      (defined : E → Bool) (stash queue : List E)
      → left_over (receive_loop defined stash queue) ≡ stash ++ without_first defined queue
  unfolding receive_loop without_first
  receive_loop-left_over defined stash [] = refl
  receive_loop-left_over defined stash (m ∷ queue) = elim (Bool-cases (defined m)) [
    | inl e ↦ rw e refl
    | inr e ↦ rw e (
        receive_loop-left_over defined (stash ++ m ∷ []) queue
        ∙ append_assoc stash (m ∷ []) (without_first defined queue))
  ]

  -- Where the first of two lists has such an element, and where it has none.
  find-append_some :
      (defined : E → Bool) (xs ys : List E) (m : E)
      → find defined xs ≡ some m
      → (find defined (xs ++ ys) ≡ some m)
        × (without_first defined (xs ++ ys) ≡ without_first defined xs ++ ys)
  unfolding find without_first
  find-append_some defined [] ys m h = cc h
  find-append_some defined (x ∷ xs) ys m h = elim (Bool-cases (defined x)) [
    | inl e ↦ (rw e (rw e at h), rw e refl)
    | inr e ↦
        let (found, rest) = find-append_some defined xs ys m (rw e at h) in
        (rw e found, rw (e, rest) refl)
  ]

  find-append_none :
      (defined : E → Bool) (xs ys : List E)
      → find defined xs ≡ none
      → (find defined (xs ++ ys) ≡ find defined ys)
        × (without_first defined (xs ++ ys) ≡ xs ++ without_first defined ys)
  unfolding find without_first
  find-append_none defined [] ys h = (refl, refl)
  find-append_none defined (x ∷ xs) ys h = elim (Bool-cases (defined x)) [
    | inl e ↦ cc (rw e at h)
    | inr e ↦
        let (found, rest) = find-append_none defined xs ys (rw e at h) in
        (rw e found, rw (e, rest) refl)
  ]

module _ {ℓ} {E : Type ℓ} (eq : E → E → Bool) where
  unfoldable pub copies : E → List E → ℕ
  copies m [] = 0
  copies m (x ∷ xs) = copies m xs + (if eq x m then 1 else 0)

  copies-find :
      ((x y : E) → (eq x y ≡ true) ↔ (x ≡ y))
      → (defined : E → Bool) (xs : List E) (m : E) → find defined xs ≡ some m
      → 1 ≤ copies m xs
  unfolding find copies
  copies-find eq_iff defined [] m h = cc h
  copies-find eq_iff defined (x ∷ xs) m h = elim (Bool-cases (defined x)) [
    | inl e ↦ let same = (eq_iff x m).1 (some_inv x m (rw e at h)) in rw same omega arith
    | inr e ↦ let rest = copies-find eq_iff defined xs m (rw e at h) in omega (arith, rest)
  ]

  filter_not-absent : (m : E) (xs : List E) → copies m xs ≡ 0 → filter_not eq m xs ≡ xs
  unfolding filter_not copies
  filter_not-absent m [] h = refl
  filter_not-absent m (x ∷ xs) h = elim (Bool-cases (eq x m)) [
    | inl e ↦ absurd (omega (arith, (rw e at h)))
    | inr e ↦ rw (e, filter_not-absent m xs (ground (arith, h))) refl
  ]

  -- Without equal events only the one that is handled goes.
  filter_not-find :
      ((x y : E) → (eq x y ≡ true) ↔ (x ≡ y))
      → (defined : E → Bool) (xs : List E) (m : E) → find defined xs ≡ some m
      → copies m xs ≤ 1
      → filter_not eq m xs ≡ without_first defined xs
  unfolding find copies filter_not without_first
  filter_not-find eq_iff defined [] m h k = refl
  filter_not-find eq_iff defined (x ∷ xs) m h k = elim (Bool-cases (defined x)) [
    | inl e ↦
        let same = (eq_iff x m).1 (some_inv x m (rw e at h)) in
        let alone : copies m xs ≡ 0 = let bound = (rw same at k) in omega (arith, bound) in
        rw (e, same, filter_not-absent m xs alone) refl
    | inr e ↦
        let found = copies-find eq_iff defined xs m (rw e at h) in
        elim (Bool-cases (eq x m)) [
          | inl d ↦ let bound = (rw d at k) in absurd (omega (arith, bound, found))
          | inr d ↦
              rw
                (
                  e,
                  d,
                  filter_not-find eq_iff defined xs m (rw e at h)
                      (let bound = (rw d at k) in omega (arith, bound)),
                )
                refl
        ]
  ]

  of_stash :
      (defined : E → Bool) (s : ActiveProtocol E) (m : E)
      → find defined s.stash ≡ some m
      → receive_or_stash eq defined s ≡ handled m (record s { stash = filter_not eq m s.stash })
  unfolding receive_or_stash
  of_stash defined s m e =
      ap
        (λ o. elim o [
          | none ↦ receive_loop defined s.stash s.blocking_queue
          | some x ↦ handled x (record s { stash = filter_not eq x s.stash })
        ])
        e

  of_queue :
      (defined : E → Bool) (s : ActiveProtocol E)
      → find defined s.stash ≡ none
      → receive_or_stash eq defined s ≡ receive_loop defined s.stash s.blocking_queue
  unfolding receive_or_stash
  of_queue defined s e =
      ap
        (λ o. elim o [
          | none ↦ receive_loop defined s.stash s.blocking_queue
          | some x ↦ handled x (record s { stash = filter_not eq x s.stash })
        ])
        e

  -- If no two events of the stash are equal, `ReceiveOrStash` handles the first of the events of the
  -- stash and then of the queue for which the function is defined, and waits if there is none; the
  -- other events stay in their order.
  pub receive_or_stash-find :
      ((x y : E) → (eq x y ≡ true) ↔ (x ≡ y))
      → (defined : E → Bool) (s : ActiveProtocol E) → ((m : E) → copies m s.stash ≤ 1)
      → (event (receive_or_stash eq defined s) ≡ find defined (pending s))
        × (left_over (receive_or_stash eq defined s) ≡ without_first defined (pending s))
  receive_or_stash-find eq_iff defined s once = elim (Option-cases (find defined s.stash)) [
    | inl e ↦
        let (found, rest) = find-append_none defined s.stash s.blocking_queue e in
        (
          ap event (of_queue defined s e)
              ∙ receive_loop-event defined s.stash s.blocking_queue
              ∙ sym found,
          ap left_over (of_queue defined s e)
              ∙ receive_loop-left_over defined s.stash s.blocking_queue
              ∙ sym rest,
        )
    | inr (m, e) ↦
        let (found, rest) = find-append_some defined s.stash s.blocking_queue m e in
        (
          ap event (of_stash defined s m e) ∙ sym found,
          ap left_over (of_stash defined s m e)
              ∙ ap (◌++ s.blocking_queue) (filter_not-find eq_iff defined s.stash m e (once m))
              ∙ sym rest,
        )
  ]

  -- `ys` is what stays of `xs` when every copy of `m` goes, and nothing else.
  pub data Without (m : E) : List E → List E → Type ℓ where
    nothing : Without m [] []
    gone : (x : E) (xs ys : List E) → eq x m ≡ true → Without m xs ys → Without m (x ∷ xs) ys
    stays :
        (x : E) (xs ys : List E) → eq x m ≡ false → Without m xs ys → Without m (x ∷ xs) (x ∷ ys)
