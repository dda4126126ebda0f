-- ===== src/Network/Dispatchers/Registered.antt =====
-- A dispatcher hands an event to the protocols that are listening.
use scala_neko.Base.{
  ℕ, ◌+◌, ◌≤◌, ◌≡◌, refl, ap, ◌∙◌, sym, Bool, true, false, not, List, [], ◌∷◌, ◌==◌, ==_iff, map,
  update, if◌then◌else◌, Bool-cases, List-cases, ◌↔◌, inl, inr, arith,
}
use scala_neko.Base.Counts.{one, occurs}
use scala_neko.Topology.Sets.{elem, keep}
use scala_neko.Network.Dispatchers.{
  Dispatcher, protocol, register_for, unregister_for, unregister_all_for, or_orphan, protocols_for,
  Operation, registers, unregisters, unregisters_all, after, is_listening, calls, orphans,
}

occurs-elem : (x : ℕ) (xs : List ℕ) → elem x xs ≡ false → occurs x xs ≡ 0
unfolding elem occurs
occurs-elem x [] h = refl
occurs-elem x (y ∷ ys) h =
    let rest = occurs-elem x ys (ground (arith, h)) in ground (arith, h, rest)

-- With at most one entry for each protocol, an entry and a count are the same.
pub occurs-one : (x : ℕ) (xs : List ℕ) → occurs x xs ≤ 1 → occurs x xs ≡ one (elem x xs)
unfolding elem occurs
occurs-one x [] h = refl
occurs-one x (y ∷ ys) h = elim (Bool-cases (y == x)) [
  | inl e ↦ rw e (let few = (rw e at h) in omega (arith, few))
  | inr e ↦ rw e (
      let few = (rw e at h) in
      let rest = occurs-one x ys (omega (arith, few)) in omega (arith, rest))
]

pub occurs-keep :
    (x : ℕ) (f : ℕ → Bool) (xs : List ℕ) → occurs x (keep f xs) ≡ (if f x then occurs x xs else 0)
unfolding occurs keep
occurs-keep x f [] = ground arith
occurs-keep x f (y ∷ ys) =
    let rest = occurs-keep x f ys in
    elim (Bool-cases (y == x)) [
      | inl e ↦
          let same = ap f ((==_iff y x).0 e) in
          elim (Bool-cases (f x)) [
            | inl g ↦ rw (same ∙ g, g, e) (let kept = (rw g at rest) in omega (arith, kept))
            | inr g ↦ rw (same ∙ g, g) (rw g at rest)
          ]
      | inr e ↦ elim (Bool-cases (f y)) [
        | inl g ↦ rw (g, e) (ground (arith, rest))
        | inr g ↦ rw (g, e) (ground (arith, rest))
      ]
    ]

calls-map : (x : ℕ) (xs : List ℕ) → calls x (map protocol xs) ≡ occurs x xs
unfolding calls occurs
calls-map x [] = refl
calls-map x (y ∷ ys) = rw (calls-map x ys) refl

orphans-map : (xs : List ℕ) → orphans (map protocol xs) ≡ 0
unfolding orphans
orphans-map [] = refl
orphans-map (y ∷ ys) = orphans-map ys

update_self : (d : Dispatcher) (c : ℕ) (v : List ℕ) → update d c v c ≡ v
update_self d c v = let self : (c == c) ≡ true = ground arith in rw self refl

update_other : (d : Dispatcher) (c k : ℕ) (v : List ℕ) → (c == k) ≡ false → update d c v k ≡ d k
update_other d c k v e = rw e refl

-- The operations at their own class, and at another.
register_for-own :
    (c p x : ℕ) (d : Dispatcher)
    → occurs p (d c) ≡ one (elem p (d c))
    → occurs x (register_for c p d c) ≡ (if p == x then 1 else occurs x (d c))
unfolding register_for occurs
register_for-own c p x d once = elim (Bool-cases (elem p (d c))) [
  | inl e ↦ elim (Bool-cases (p == x)) [
    | inl f ↦ rw (e, f) (ap (λ k. occurs k (d c)) (sym ((==_iff p x).0 f)) ∙ once ∙ ap one e)
    | inr f ↦ rw (e, f) refl
  ]
  | inr e ↦ elim (Bool-cases (p == x)) [
    | inl f ↦
        let absent = ap (λ k. occurs k (d c)) (sym ((==_iff p x).0 f)) ∙ once ∙ ap one e in
        rw (e, update_self d c (p ∷ d c), f, absent) refl
    | inr f ↦ rw (e, update_self d c (p ∷ d c), f) omega arith
  ]
]

unregister_for-own :
    (c p x : ℕ) (d : Dispatcher)
    → occurs p (d c) ≡ one (elem p (d c))
    → occurs x (unregister_for c p d c) ≡ (if p == x then 0 else occurs x (d c))
unfolding unregister_for
unregister_for-own c p x d once = elim (Bool-cases (elem p (d c))) [
  | inl e ↦ elim (Bool-cases (p == x)) [
    | inl f ↦
        let swapped : (x == p) ≡ true = ground (arith, f) in
        rw (e, update_self d c (keep (λ q. not (q == p)) (d c)), occurs-keep, f, swapped) refl
    | inr f ↦
        let swapped : (x == p) ≡ false = ground (arith, f) in
        rw (e, update_self d c (keep (λ q. not (q == p)) (d c)), occurs-keep, f, swapped) refl
  ]
  | inr e ↦ elim (Bool-cases (p == x)) [
    | inl f ↦ rw (e, f) (ap (λ k. occurs k (d c)) (sym ((==_iff p x).0 f)) ∙ once ∙ ap one e)
    | inr f ↦ rw (e, f) refl
  ]
]

register_for-other : (c p k : ℕ) (d : Dispatcher) → (c == k) ≡ false → register_for c p d k ≡ d k
unfolding register_for
register_for-other c p k d e = elim (Bool-cases (elem p (d c))) [
  | inl f ↦ rw f refl
  | inr f ↦ rw f (update_other d c k (p ∷ d c) e)
]

unregister_for-other :
    (c p k : ℕ) (d : Dispatcher) → (c == k) ≡ false → unregister_for c p d k ≡ d k
unfolding unregister_for
unregister_for-other c p k d e = elim (Bool-cases (elem p (d c))) [
  | inl f ↦ rw f (update_other d c k (keep (λ q. not (q == p)) (d c)) e)
  | inr f ↦ rw f refl
]

-- A protocol is entered once for a class if it is listening, and else not.
pub occurs-after :
    (os : List Operation) (clazz proto : ℕ)
    → occurs proto (after os clazz) ≡ one (is_listening os clazz proto)
unfolding after is_listening occurs unregister_all_for
occurs-after [] clazz proto = refl
occurs-after (registers c p ∷ os) clazz proto = elim (Bool-cases (c == clazz)) [
  | inl e ↦
      let there = (==_iff c clazz).0 e in
      let rest = occurs-after os clazz proto in
      let once = occurs-one p (after os c) (let few = occurs-after os c p in ground (arith, few)) in
      let own = register_for-own c p proto (after os) once in
      ap (λ k. occurs proto (register_for c p (after os) k)) (sym there)
      ∙ own
      ∙ ap (λ k. if p == proto then 1 else occurs proto (after os k)) there
      ∙ ground (arith, rest, e)
  | inr e ↦ rw (register_for-other c p clazz (after os) e, e) (occurs-after os clazz proto)
]
occurs-after (unregisters c p ∷ os) clazz proto = elim (Bool-cases (c == clazz)) [
  | inl e ↦
      let there = (==_iff c clazz).0 e in
      let rest = occurs-after os clazz proto in
      let once = occurs-one p (after os c) (let few = occurs-after os c p in ground (arith, few)) in
      let own = unregister_for-own c p proto (after os) once in
      ap (λ k. occurs proto (unregister_for c p (after os) k)) (sym there)
      ∙ own
      ∙ ap (λ k. if p == proto then 0 else occurs proto (after os k)) there
      ∙ ground (arith, rest, e)
  | inr e ↦ rw (unregister_for-other c p clazz (after os) e, e) (occurs-after os clazz proto)
]
occurs-after (unregisters_all c ∷ os) clazz proto = elim (Bool-cases (c == clazz)) [
  | inl e ↦ rw e refl
  | inr e ↦ rw e (occurs-after os clazz proto)
]

pub calls-or_orphan : (x : ℕ) (ps : List ℕ) → calls x (or_orphan ps) ≡ occurs x ps
unfolding calls occurs
calls-or_orphan x [] = refl
calls-or_orphan x (p ∷ ps) = rw (calls-map x ps) refl

-- After any registrations and their ends, an event is handed once to each protocol that is
-- listening to its class and to no other, and to the handler of orphans exactly if there is none.
pub protocols_for-after :
    (os : List Operation) (clazz : ℕ)
    → ((proto : ℕ)
        → calls proto (protocols_for clazz (after os)) ≡ one (is_listening os clazz proto))
      × ((orphans (protocols_for clazz (after os)) ≡ 1)
          ↔ ((proto : ℕ) → is_listening os clazz proto ≡ false))
unfolding protocols_for orphans occurs
protocols_for-after os clazz = (
  λ proto. calls-or_orphan proto (after os clazz) ∙ occurs-after os clazz proto,
  elim (List-cases (after os clazz)) [
    | inl e ↦ (
      λ h proto.
          let entered = occurs-after os clazz proto in
          let absent : occurs proto (after os clazz) ≡ 0 = ap (occurs proto) e in
          ground (arith, entered, absent),
      λ h. rw e refl,
    )
    | inr (p, ps, e) ↦ (
      λ h.
          let none : orphans (or_orphan (after os clazz)) ≡ 0 =
            ap (λ xs. orphans (or_orphan xs)) e ∙ orphans-map ps in
          absurd (omega (arith, h, none)),
      λ h.
          let entered = occurs-after os clazz p in
          let there : occurs p (after os clazz) ≡ occurs p ps + one (p == p) = ap (occurs p) e in
          let unlisted = h p in absurd (ground (arith, entered, there, unlisted)),
    )
  ],
)
