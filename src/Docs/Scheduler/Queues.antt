-- ===== src/Docs/Scheduler/Queues.antt =====
-- What the operations do to the queue behind a label, errors included.
use mathlib.Core.Option
use scala_neko.Base.{
  ℕ, ◌≡◌, refl, Bool, true, false, List, [], ◌∷◌, ◌++◌, arith, length, Option, none, some,
  Option-cases, inl, inr, ◌⊎◌, ltb, if◌then◌else◌, get_elem?, set, insert_at, ◌&&◌,
}
use scala_neko.Base.Text.{Text, text_eq, eq_of_text_eq, text_eq_left, text_eq_apart}
use scala_neko.Docs.Scheduler.{
  Label, Job, Scheduler, is_named, scan, index_of, place, push_at, add_label, add, clear, ok,
  thrown, no_queue_for_add, do_work,
}
use scala_neko.Docs.Scheduler.Invariant.{IsSound}

abbrev is_some {ℓ} : {A : Type ℓ} → Option A → Bool
is_some none = false
is_some (some a) = true

module _ {ℓ} {V : Type ℓ} where
  -- The two arrays read as one association list.
  unfoldable pub find : List Label → List (List (Job V)) → Text → Option (List (Job V))
  find (l ∷ ls) (q ∷ qs) name = if text_eq l.name name then some q else find ls qs name
  find _ _ name = none

  abbrev pub queue_of : Text → Scheduler V → Option (List (Job V))
  queue_of name s = find s.labels s.queues name

  hit-find :
      (ls : List Label) (qs : List (List (Job V))) (name : Text)
      → length ls ≡ length qs
      → (ltb (scan ls name) (length qs) && is_named (get_elem? ls (scan ls name)) name)
        ≡ is_some (find ls qs name)
  unfolding scan find
  hit-find [] [] name e = refl
  hit-find [] (q ∷ qs) name e = absurd (omega arith)
  hit-find (l ∷ ls) [] name e = absurd (omega arith)
  hit-find (l ∷ ls) (q ∷ qs) name e = ground (arith, hit-find ls qs name)

  -- `indexOf` gives the position of the first label with the name, if there is one.
  pub index_of-find :
      (s : Scheduler V) (name : Text)
      → IsSound s
      → index_of s name ≡ (if is_some (queue_of name s) then some (scan s.labels name) else none)
  unfolding index_of
  index_of-find s name h = rw (hit-find s.labels s.queues name h.paired)

  find-push_at :
      (ls : List Label) (qs : List (List (Job V))) (name other : Text) (j : Job V)
      → find ls (push_at qs (scan ls name) j) other ≡ (
          if text_eq name other
          then Option.map (λ q. q ++ j ∷ []) (find ls qs other)
          else find ls qs other)
  unfolding find push_at scan
  find-push_at [] qs name other j = ground arith
  find-push_at (l ∷ ls) [] name other j = ground arith
  find-push_at (l ∷ ls) (q ∷ qs) name other j = ground (
    arith,
    text_eq_left l.name name other,
    text_eq_apart l.name name other,
    find-push_at ls qs name other j,
  )

  find-set :
      (ls : List Label) (qs : List (List (Job V))) (name other : Text)
      → find ls (set qs (scan ls name) []) other
        ≡ (if text_eq name other then Option.map (λ _. []) (find ls qs other) else find ls qs other)
  unfolding find scan
  find-set [] qs name other = ground arith
  find-set (l ∷ ls) [] name other = ground arith
  find-set (l ∷ ls) (q ∷ qs) name other = ground (
    arith,
    text_eq_left l.name name other,
    text_eq_apart l.name name other,
    find-set ls qs name other,
  )

  find-insert_at :
      (ls : List Label) (qs : List (List (Job V))) (p : ℕ) (name other : Text)
      → text_eq name other ≡ false
      → find
          (insert_at ls (place ls qs p) (record { name = name; priority = p }))
          (insert_at qs (place ls qs p) [])
          other
        ≡ find ls qs other
  unfolding find place
  find-insert_at [] qs p name other h = rw h
  find-insert_at (l ∷ ls) [] p name other h = rw h
  find-insert_at (l ∷ ls) (q ∷ qs) p name other h =
      ground (arith, find-insert_at ls qs p name other)

  index_of_missing :
      (s : Scheduler V) (name : Text) → IsSound s → queue_of name s ≡ none → index_of s name ≡ none
  index_of_missing s name h e = rw (index_of-find s name h, e)

  index_of_present :
      (s : Scheduler V) (name : Text) {q : List (Job V)}
      → IsSound s
      → queue_of name s ≡ some q
      → index_of s name ≡ some (scan s.labels name)
  index_of_present s name h e = rw (index_of-find s name h, e)

  queue_of_same :
      (s : Scheduler V) (name other : Text)
      → text_eq name other ≡ true
      → queue_of other s ≡ queue_of name s
  queue_of_same s name other e = rw (eq_of_text_eq name other e)

  -- `add` fails, and changes nothing, exactly if no label has the name. Otherwise the job goes to
  -- the end of the queue of that label, and every other queue is as before.
  pub queue_of-add :
      (s : Scheduler V) (name other : Text) (j : Job V)
      → IsSound s
      → ((queue_of name s ≡ none) × (add name j s ≡ (thrown no_queue_for_add, s)))
        ⊎ ((q : List (Job V)) × (queue_of name s ≡ some q)
            × ((add name j s).0 ≡ ok tt)
            × (queue_of other (add name j s).1
                ≡ (if text_eq name other then some (q ++ j ∷ []) else queue_of other s)))
  unfolding add do_work
  queue_of-add s name other j h = elim (Option-cases (queue_of name s)) [
    | inl e ↦ inl (e, rw (index_of_missing s name h e, add))
    | inr (q, e) ↦
        let found = index_of_present s name h e in
        inr (
          q,
          e,
          rw (found, add),
          rw (found, add)
              (ground
                (arith, find-push_at s.labels s.queues name other j, queue_of_same s name other)),
        )
  ]

  -- `clear` empties the queue of the label, if there is one, and leaves every other queue.
  pub queue_of-clear :
      (s : Scheduler V) (name other : Text)
      → IsSound s
      → queue_of other (clear name s)
        ≡ (if text_eq name other then Option.map (λ _. []) (queue_of other s) else queue_of other s)
  unfolding clear
  queue_of-clear s name other h = elim (Option-cases (queue_of name s)) [
    | inl e ↦ rw (index_of_missing s name h e, clear) (ground (arith, queue_of_same s name other))
    | inr (q, e) ↦ rw (index_of_present s name h e, clear) (find-set s.labels s.queues name other)
  ]

  -- A new label gets an empty queue unless it hides behind an older one of its name; no other
  -- label's queue changes.
  pub queue_of-add_label :
      (s : Scheduler V) (name other : Text) (p : ℕ)
      → IsSound s
      → text_eq name other ≡ false
      → queue_of other (add_label name p s) ≡ queue_of other s
  unfolding add_label
  queue_of-add_label s name other p h e = find-insert_at s.labels s.queues p name other e
