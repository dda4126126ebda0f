-- ===== src/Docs/Scheduler/Invariant.antt =====
-- What holds of a scheduler between two events, whatever the page and its jobs do.
use mathlib.Core.List.{flatten}
use scala_neko.Base.{
  ℕ, zero, suc, ap, ◌≡◌, refl, false, List, [], ◌∷◌, arith, length, Option-cases, inl, inr,
  length-insert_at, length-set,
}
use scala_neko.Base.Text.{Text}
use scala_neko.Docs.Scheduler.{
  Job, Scheduler, Calls, none_yet, then_add_label, then_clear_label, then_add, then_clear, push_at,
  index_of, add_label, clear_label, add, clear, do_work, new,
}
use scala_neko.Docs.Scheduler.Order.{
  IsSorted, insert_at-place-IsSorted, erase_idx-IsSorted, length-erase_idx, flatten-insert_at,
  flatten-erase_idx-eq-nil, flatten-set-eq-nil,
}

module _ {ℓ} {V : Type ℓ} where
  -- All jobs, in the order in which the timer takes them.
  abbrev pub pending : Scheduler V → List (Job V)
  pending s = flatten s.queues

  -- One queue to a label, priorities ascending, and no job waits without a timer.
  pub record IsSound (s : Scheduler V) : Type ℓ where
    pub paired : length s.labels ≡ length s.queues
    pub sorted : IsSorted s.labels
    pub idle : s.timeout ≡ false → pending s ≡ []

  pub new-IsSound : IsSound new
  unfolding flatten
  new-IsSound = record { paired = refl; sorted = tt; idle = λ _. refl }

  add_label-IsSound :
      (name : Text) (p : ℕ) {s : Scheduler V} → IsSound s → IsSound (add_label name p s)
  unfolding add_label
  add_label-IsSound name p {s} h = record {
    paired = rw (length-insert_at, length-insert_at) (ap suc h.paired);
    sorted = insert_at-place-IsSorted s.labels s.queues _ h.paired h.sorted;
    idle = λ e. rw flatten-insert_at (h.idle e);
  }

  clear_label-IsSound : (name : Text) {s : Scheduler V} → IsSound s → IsSound (clear_label name s)
  unfolding clear_label
  clear_label-IsSound name {s} h = elim (Option-cases (index_of s name)) [
    | inl e ↦ rw (e, clear_label) h
    | inr (i, e) ↦
        rw (e, clear_label)
          (record {
            paired = length-erase_idx s.labels s.queues i h.paired;
            sorted = erase_idx-IsSorted s.labels i h.sorted;
            idle = λ t. flatten-erase_idx-eq-nil s.queues i (h.idle t);
          })
  ]

  clear-IsSound : (name : Text) {s : Scheduler V} → IsSound s → IsSound (clear name s)
  unfolding clear
  clear-IsSound name {s} h = elim (Option-cases (index_of s name)) [
    | inl e ↦ rw (e, clear) h
    | inr (i, e) ↦
        rw (e, clear)
          (record {
            paired = rw length-set h.paired;
            sorted = h.sorted;
            idle = λ t. flatten-set-eq-nil s.queues i (h.idle t);
          })
  ]

  pub length-push_at :
      (qs : List (List (Job V))) (i : ℕ) (j : Job V) → length (push_at qs i j) ≡ length qs
  unfolding push_at
  length-push_at [] i j = refl
  length-push_at (q ∷ qs) zero j = refl
  length-push_at (q ∷ qs) (suc i) j = ap suc (length-push_at qs i j)

  add-IsSound : (name : Text) (j : Job V) {s : Scheduler V} → IsSound s → IsSound (add name j s).1
  unfolding add do_work
  add-IsSound name j {s} h = elim (Option-cases (index_of s name)) [
    | inl e ↦ rw (e, add) h
    | inr (i, e) ↦
        rw (e, add)
          (record {
            paired = ground (arith, length-push_at s.queues i j);
            sorted = ground arith;
            idle = ground arith;
          })
  ]

  -- Whatever page code calls, the scheduler stays sound.
  pub Calls-IsSound : {s t : Scheduler V} → Calls s t → IsSound s → IsSound t
  Calls-IsSound (none_yet s) h = h
  Calls-IsSound (then_add_label name p c) h = add_label-IsSound name p (Calls-IsSound c h)
  Calls-IsSound (then_clear_label name c) h = clear_label-IsSound name (Calls-IsSound c h)
  Calls-IsSound (then_add name j c) h = add-IsSound name j (Calls-IsSound c h)
  Calls-IsSound (then_clear name c) h = clear-IsSound name (Calls-IsSound c h)
