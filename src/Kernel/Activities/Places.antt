-- ===== src/Kernel/Activities/Places.antt =====
-- Where the threads of the activities are, and how often they have come to the barrier.
use scala_neko.Base.{
  ℕ, zero, suc, ◌+◌, ◌≤◌, ◌≡◌, inl, inr, refl, ap, sym, subst, Bool, true, false, none, some, List,
  [], ◌∷◌, map, get_elem?, set, if◌then◌else◌, All, Bool-cases, &&-eq-true, arith,
}
use scala_neko.Kernel.Activities.{
  Status, created, running, waiting, finished, aborted, Place, executing, in_wait, in_finish,
  leaving_wait, leaving_finish, returned, stopped, Activity, Action, Manager, is_finished,
  is_blocked, forall, reverse, will_wait, will_finish, leave_wait, leave_finish, abort_unfinished,
  release, reset, execute_action, execute_actions, check_finished, trip, put, Step, wait, finish,
  trips_now, back_from_wait, back_from_finish, throw,
}

pub All-set :
    (P : Activity → Type 0) (xs : List Activity) (i : ℕ) (v : Activity)
    → All P xs
    → P v
    → All P (set xs i v)
All-set P [] i v h p = tt
All-set P (x ∷ xs) zero v h p = (p, h.1)
All-set P (x ∷ xs) (suc i) v h p = (h.0, All-set P xs i v h.1 p)

pub All-get_elem? :
    (P : Activity → Type 0) (xs : List Activity) (i : ℕ) (v : Activity)
    → All P xs
    → get_elem? xs i ≡ some v
    → P v
All-get_elem? P [] i v h e = absurd (cc e)
All-get_elem? P (x ∷ xs) zero v h e = subst (λ o. elim o [ none ↦ P v | some w ↦ P w ]) e h.0
All-get_elem? P (x ∷ xs) (suc i) v h e = All-get_elem? P xs i v h.1 e

pub All-map :
    (P Q : Activity → Type 0) (f : Activity → Activity) (xs : List Activity)
    → ((x : Activity) → P x → Q (f x))
    → All P xs
    → All Q (map f xs)
All-map P Q f [] k h = tt
All-map P Q f (x ∷ xs) k h = (k x h.0, All-map P Q f xs k h.1)

-- How often a thread has come to the barrier, when it has let all go `trips` times.
abbrev pub Counted : Place → ℕ → ℕ → Type 0
Counted executing trips n = n ≡ trips
Counted leaving_wait trips n = n ≡ trips
Counted leaving_finish trips n = n ≡ trips
Counted in_wait trips n = n ≡ trips + 1
Counted in_finish trips n = n ≡ trips + 1
Counted returned trips n = n ≤ trips
Counted stopped trips n = n ≤ trips

abbrev pub IsCounted : ℕ → Activity → Type 0
IsCounted trips a = Counted a.place trips a.arrivals

abbrev AllCounted : ℕ → List Activity → Type 0
AllCounted trips activities = All (λ a. Counted a.place trips a.arrivals) activities

at_place :
    (a : Activity) (place : Place) (trips : ℕ)
    → a.place ≡ place
    → IsCounted trips a
    → Counted place trips a.arrivals
at_place a place trips e h = subst (λ p. Counted p trips a.arrivals) e h

-- What resetting leaves as it is.
pub abort-place :
    (P : Place → ℕ → Type 0) (a : Activity)
    → P a.place a.arrivals
    → P (abort_unfinished a).place (abort_unfinished a).arrivals
abort-place P a h = elim (Bool-cases (is_finished a)) [ inl e ↦ rw e h | inr e ↦ rw e h ]

leave_wait-IsCounted :
    (trips : ℕ) (s : Status) (p : Place) (n : ℕ)
    → n ≡ trips
    → IsCounted trips (leave_wait (record { status = s; place = p; arrivals = n }))
leave_wait-IsCounted trips created p n e = e
leave_wait-IsCounted trips running p n e = e
leave_wait-IsCounted trips waiting p n e = e
leave_wait-IsCounted trips finished p n e = e
leave_wait-IsCounted trips aborted p n e = omega arith

release-IsCounted :
    (trips : ℕ) (s : Status) (p : Place) (n : ℕ)
    → is_blocked (record { status = s; place = p; arrivals = n }) ≡ true
    → Counted p trips n
    → IsCounted (trips + 1) (release (record { status = s; place = p; arrivals = n }))
release-IsCounted trips s in_wait n b h = h
release-IsCounted trips s in_finish n b h = h
release-IsCounted trips s executing n b h = absurd (cc b)
release-IsCounted trips s leaving_wait n b h = absurd (cc b)
release-IsCounted trips s leaving_finish n b h = absurd (cc b)
release-IsCounted trips s returned n b h = absurd (cc b)
release-IsCounted trips s stopped n b h = absurd (cc b)

leave_finish-IsCounted :
    (trips : ℕ) (all_finished : Bool) (a : Activity)
    → a.arrivals ≡ trips
    → IsCounted trips (leave_finish all_finished a)
leave_finish-IsCounted trips true a e = omega arith
leave_finish-IsCounted trips false a e = ap (λ k. k + 1) e

abbrev Arrived : ℕ → Place → ℕ → Type 0
Arrived trips p n =
    (is_blocked (record { status = created; place = p; arrivals = n }) ≡ true) × Counted p trips n

All-Arrived :
    (trips : ℕ) (xs : List Activity)
    → forall is_blocked xs ≡ true
    → All (IsCounted trips) xs
    → All (λ a. Arrived trips a.place a.arrivals) xs
unfolding forall
All-Arrived trips [] b h = tt
All-Arrived trips (x ∷ xs) b h =
    let (now, rest) = &&-eq-true (is_blocked x) (forall is_blocked xs) b in
    ((now, h.0), All-Arrived trips xs rest h.1)

module _ {W : Type 0} where
  -- The places and arrivals of a manager, and the trips of its barrier.
  record IsPlaced (P : Place → ℕ → Type 0) (trips : ℕ) (m : Manager W) : Type 0 where
    placed : All (λ (a : Activity). P a.place a.arrivals) m.activities
    count : m.trips ≡ trips

  reset-IsPlaced :
      (P : Place → ℕ → Type 0) (trips : ℕ) (m : Manager W)
      → IsPlaced P trips m
      → IsPlaced P trips (reset m)
  reset-IsPlaced P trips m h = record {
    placed = All-map _ _ abort_unfinished m.activities (λ a k. abort-place P a k) h.placed;
    count = h.count;
  }

  execute_action-IsPlaced :
      (P : Place → ℕ → Type 0) (trips : ℕ) (action : Action W) (m : Manager W)
      → IsPlaced P trips m
      → IsPlaced P trips (execute_action action m)
  unfolding execute_action
  execute_action-IsPlaced P trips action m h =
      let after : Manager W = record m { world = (action m.world m.all_finished m.activities).0 } in
      let same : IsPlaced P trips after = record { placed = h.placed; count = h.count } in
      elim (Bool-cases (action m.world m.all_finished m.activities).1) [
        | inl e ↦
            subst (λ b. IsPlaced P trips (if b then reset after else after)) (sym e)
              (reset-IsPlaced P trips after same)
        | inr e ↦ subst (λ b. IsPlaced P trips (if b then reset after else after)) (sym e) same
      ]

  execute_actions-IsPlaced :
      (P : Place → ℕ → Type 0) (trips : ℕ) (actions : List (Action W)) (m : Manager W)
      → IsPlaced P trips m
      → IsPlaced P trips (execute_actions actions m)
  unfolding execute_actions
  execute_actions-IsPlaced P trips [] m h = h
  execute_actions-IsPlaced P trips (action ∷ actions) m h =
      execute_actions-IsPlaced P trips actions _ (execute_action-IsPlaced P trips action m h)

  check-IsPlaced :
      (P : Place → ℕ → Type 0) (trips : ℕ) (m : Manager W)
      → IsPlaced P trips m
      → IsPlaced P trips (check_finished m)
  unfolding check_finished
  check-IsPlaced P trips m h = elim (Bool-cases (forall is_finished m.activities)) [
    | inl e ↦
        subst (λ b. IsPlaced P trips (if b then record m { all_finished = true } else m)) (sym e)
          (record { placed = h.placed; count = h.count })
    | inr e ↦
        subst (λ b. IsPlaced P trips (if b then record m { all_finished = true } else m)) (sym e) h
  ]

  abbrev pub IsLevel : Manager W → Type 0
  IsLevel m = All (IsCounted m.trips) m.activities

  trip-IsLevel :
      (m : Manager W) → forall is_blocked m.activities ≡ true → IsLevel m → IsLevel (trip m)
  unfolding trip
  trip-IsLevel m b h =
      let first =
        check-IsPlaced (Arrived m.trips) m.trips m
          (record { placed = All-Arrived m.trips m.activities b h; count = refl }) in
      let after =
        execute_actions-IsPlaced (Arrived m.trips) m.trips (reverse m.barrier_actions) _ first in
      All-map _ _ release _
        (λ a (k, c).
          subst (λ t. IsCounted (t + 1) (release a)) (sym after.count)
            (release-IsCounted m.trips a.status a.place a.arrivals k c))
        after.placed

  put-IsLevel :
      (m : Manager W) (i : ℕ) (a : Activity) → IsCounted m.trips a → IsLevel m → IsLevel (put i a m)
  put-IsLevel m i a k h = All-set _ m.activities i a h k

  pub Step-IsLevel : {throws : Bool} (m n : Manager W) → Step throws m n → IsLevel m → IsLevel n
  Step-IsLevel m _ (wait _ i a e p) h =
      let n = at_place a executing m.trips p (All-get_elem? _ m.activities i a h e) in
      put-IsLevel m i (will_wait a) (ap (λ k. k + 1) n) h
  Step-IsLevel m _ (finish _ i a e p) h =
      let n = at_place a executing m.trips p (All-get_elem? _ m.activities i a h e) in
      put-IsLevel m i (will_finish a) (ap (λ k. k + 1) n) h
  Step-IsLevel m _ (trips_now _ a rest e b) h = trip-IsLevel m b h
  Step-IsLevel m _ (back_from_wait _ i a e p) h =
      let n = at_place a leaving_wait m.trips p (All-get_elem? _ m.activities i a h e) in
      put-IsLevel m i (leave_wait a) (leave_wait-IsCounted m.trips a.status a.place a.arrivals n) h
  Step-IsLevel m _ (back_from_finish _ i a e p) h =
      let n = at_place a leaving_finish m.trips p (All-get_elem? _ m.activities i a h e) in
      put-IsLevel m i (leave_finish m.all_finished a)
        (leave_finish-IsCounted m.trips m.all_finished a n) h
  Step-IsLevel m _ (throw _ i a t e p) h =
      let n = at_place a executing m.trips p (All-get_elem? _ m.activities i a h e) in
      (reset-IsPlaced (λ place k. Counted place m.trips k) m.trips
        (put i (record a { place = stopped }) m)
        (record {
          placed = put-IsLevel m i (record a { place = stopped }) (omega arith) h;
          count = refl;
        })).placed
