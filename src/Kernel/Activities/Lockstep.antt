-- ===== src/Kernel/Activities/Lockstep.antt =====
-- Activities go through the barrier together.
use scala_neko.Base.{
  some_inv, none-some, not, ℕ, ◌+◌, ◌≤◌, ◌≡◌, ◌⊎◌, inl, inr, refl, ap, sym, subst, ◌∙◌, Bool, true,
  false, none, some, List, [], ◌∷◌, map, get_elem?, if◌then◌else◌, All, Bool-cases, arith,
}
use scala_neko.Kernel.Activities.{
  Status, Place, executing, in_wait, in_finish, leaving_wait, leaving_finish, returned, stopped,
  Activity, Manager, forall, Reach, here, later, start, will_start, is_created,
}
use scala_neko.Kernel.Activities.Places.{
  All-get_elem?, All-map, Counted, IsCounted, IsLevel, Step-IsLevel,
}

-- The thread has not ended.
abbrev pub is_live : Activity → Bool
is_live a = elim a.place [ returned ↦ false | stopped ↦ false | _ ↦ true ]

live-bounds :
    (trips : ℕ) (s : Status) (p : Place) (n : ℕ)
    → is_live (record { status = s; place = p; arrivals = n }) ≡ true
    → Counted p trips n
    → (trips ≤ n) × (n ≤ trips + 1)
live-bounds trips s executing n l h = (omega arith, omega arith)
live-bounds trips s leaving_wait n l h = (omega arith, omega arith)
live-bounds trips s leaving_finish n l h = (omega arith, omega arith)
live-bounds trips s in_wait n l h = (omega arith, omega arith)
live-bounds trips s in_finish n l h = (omega arith, omega arith)
live-bounds trips s returned n l h = absurd (cc l)
live-bounds trips s stopped n l h = absurd (cc l)

module _ {W : Type 0} where
  -- A manager to which activities have been registered and that has not started.
  pub record IsNew (m : Manager W) : Type 0 where
    pub not_started : m.started ≡ false
    pub unfinished : m.all_finished ≡ false
    pub no_trips : m.trips ≡ 0
    pub no_arrivals : All (λ (a : Activity). a.arrivals ≡ 0) m.activities

  -- What `start` makes of it.
  pub record IsStarted (m s : Manager W) : Type 0 where
    pub all : s.activities ≡ map will_start m.activities
    pub trips : s.trips ≡ 0
    pub done : (s.all_finished ≡ false) ⊎ (s.activities ≡ [])

  start-cases :
      (xs : List Activity) (m s : Manager W)
      → m.activities ≡ xs
      → IsNew m
      → elim xs [
        | [] ↦ record m { started = true; all_finished = true }
        | a ∷ rest ↦ record m { started = true; activities = map will_start (a ∷ rest) }
      ]
        ≡ s
      → IsStarted m s
  start-cases [] m s e h k =
      subst (IsStarted m) k
        (record { all = e ∙ ap (map will_start) (sym e); trips = h.no_trips; done = inr e })
  start-cases (a ∷ rest) m s e h k =
      subst (IsStarted m) k
        (record { all = ap (map will_start) (sym e); trips = h.no_trips; done = inl h.unfinished })

  abbrev started_from : List Activity → Manager W → Manager W
  started_from xs m = elim xs [
    | [] ↦ record m { started = true; all_finished = true }
    | a ∷ rest ↦ record m { started = true; activities = map will_start (a ∷ rest) }
  ]

  pub start-IsStarted : (m s : Manager W) → IsNew m → start m ≡ some s → IsStarted m s
  unfolding start
  start-IsStarted m s h e =
      let same = started_from m.activities m in
      let fresh : (if not (forall is_created m.activities) then none else some same) ≡ some s =
        sym (
          ap
            (λ b.
              if b
              then some m
              else if not (forall is_created m.activities)
              then none
              else some same)
            h.not_started)
        ∙ e in
      elim (Bool-cases (forall is_created m.activities)) [
        | inl k ↦
            start-cases m.activities m s refl h
              (some_inv _ _ (sym (ap (λ b. if not b then none else some same) k) ∙ fresh))
        | inr k ↦ absurd (none-some _ (sym (ap (λ b. if not b then none else some same) k) ∙ fresh))
      ]

  start-IsLevel : (m s : Manager W) → IsNew m → IsStarted m s → IsLevel s
  start-IsLevel m s h k =
      subst (λ (xs : List Activity). All (IsCounted s.trips) xs) (sym k.all)
        (All-map _ _ will_start m.activities (λ a z. z ∙ sym k.trips) h.no_arrivals)

  Reach-IsLevel : {throws : Bool} (s m : Manager W) → IsLevel s → Reach throws s m → IsLevel m
  Reach-IsLevel s _ h here = h
  Reach-IsLevel s _ h (later m n r step) = Step-IsLevel m n step (Reach-IsLevel s m h r)

  -- After `start`, whatever the activities do and in whatever order, throwing exceptions included,
  -- of two activities whose threads have not ended neither has come to the barrier more than once
  -- more often than the other.
  pub arrivals-Reach :
      (throws : Bool) (m s n : Manager W) (i j : ℕ) (a b : Activity)
      → IsNew m
      → start m ≡ some s
      → Reach throws s n
      → get_elem? n.activities i ≡ some a
      → get_elem? n.activities j ≡ some b
      → is_live a ≡ true
      → is_live b ≡ true
      → a.arrivals ≤ b.arrivals + 1
  arrivals-Reach throws m s n i j a b new e r ai bj la lb =
      let level = Reach-IsLevel s n (start-IsLevel m s new (start-IsStarted m s new e)) r in
      let ca =
        live-bounds n.trips a.status a.place a.arrivals la
          (All-get_elem? _ n.activities i a level ai) in
      let cb =
        live-bounds n.trips b.status b.place b.arrivals lb
          (All-get_elem? _ n.activities j b level bj) in
      omega arith
