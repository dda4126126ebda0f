-- ===== src/Topology/Ring.antt =====
-- Ring.scala, without `underlying` and `isConnected`, for a range of `size` processes, each `step`
-- after the one before; `low` is `range.min`, a natural number, as processes have. A range that goes
-- down has the same processes as one that goes up. Most of what follows is about the step 1.
pub mod Steps
use Prim.Native.Nat.{◌%◌}
use native.Mathlib.Nat.{mod-eq_of_lt, add-mod_right, mod_self}
use scala_neko.Base.{
  ℕ, zero, suc, ◌+◌, ◌-◌, ◌≤◌, ◌<◌, ◌≡◌, ◌⊎◌, refl, sym, ap, ◌∙◌, Bool, true, false, ◌&&◌, ◌||◌,
  none, some, List, [], ◌∷◌, ◌==◌, if◌then◌else◌, inl, inr, arith, Bool-cases, ==_iff, ltb,
}
use scala_neko.Topology.{Topology, or_empty}
use scala_neko.Topology.Sets.{elem}
use scala_neko.Topology.Neighbors.{is_neighbor, IsSound}

unfoldable pub range : ℕ → ℕ → ℕ → List ℕ
range low step zero = []
range low step (suc size) = low ∷ range (low + step) step size

unfoldable pub next_of : ℕ → ℕ → ℕ → ℕ
next_of low size p = (p + 1 - low) % size + low

unfoldable pub prev_of : ℕ → ℕ → ℕ → ℕ
prev_of low size p = (p + size - 1 - low) % size + low

unfoldable pub ring : ℕ → ℕ → ℕ → Topology
ring low step size = record {
  process_set = range low step size;
  neighbors_for = λ p.
      if elem p (range low step size)
      then some (prev_of low size p ∷ next_of low size p ∷ [])
      else none;
  contains = λ p. elem p (range low step size);
}

elem-range :
    (low size p : ℕ)
    → ((elem p (range low 1 size) ≡ true) → (low ≤ p) × (p < low + size))
      × ((low ≤ p) × (p < low + size) → elem p (range low 1 size) ≡ true)
unfolding elem range
elem-range low zero p = (λ h. absurd (cc h), λ h. absurd (omega (arith, h.0, h.1)))
elem-range low (suc size) p =
    let (from, to) = elem-range (low + 1) size p in (ground (arith, from), ground (arith, to))

pub lt_or_ge : (a b : ℕ) → (a < b) ⊎ (b ≤ a)
lt_or_ge a b = elim (Bool-cases (ltb a b)) [
  | inl e ↦ inl (ground arith)
  | inr e ↦ inr (ground arith)
]

next_of-cases :
    (low size p : ℕ)
    → low ≤ p
    → p < low + size
    → ((p + 1 < low + size) × (next_of low size p ≡ p + 1))
      ⊎ ((p + 1 ≡ low + size) × (next_of low size p ≡ low))
unfolding next_of
next_of-cases low size p h k = elim (lt_or_ge (p + 1) (low + size)) [
  | inl lt ↦
      let eq : (p + 1 - low) % size ≡ p + 1 - low = mod-eq_of_lt (omega arith) in
      inl (lt, omega (arith, eq, h))
  | inr ge ↦
      let last : p + 1 ≡ low + size = omega arith in
      let span : p + 1 - low ≡ size = omega (arith, last) in
      let eq : (p + 1 - low) % size ≡ 0 = ap (λ k. k % size) span ∙ mod_self size in
      inr (last, omega (arith, eq))
]

prev_of-cases :
    (low size p : ℕ)
    → low ≤ p
    → p < low + size
    → ((low < p) × (prev_of low size p ≡ p - 1))
      ⊎ ((p ≡ low) × (prev_of low size p ≡ low + size - 1))
unfolding prev_of
prev_of-cases low size p h k = elim (lt_or_ge low p) [
  | inl lt ↦
      let span : p + size - 1 - low ≡ p - 1 - low + size = omega (arith, lt) in
      let eq : (p + size - 1 - low) % size ≡ p - 1 - low =
        ap (λ k. k % size) span
        ∙ add-mod_right (p - 1 - low) size
        ∙ mod-eq_of_lt (omega (arith, lt)) in
      inl (lt, omega (arith, eq, lt))
  | inr ge ↦
      let first : p ≡ low = omega arith in
      let span : p + size - 1 - low ≡ size - 1 = omega (arith, first) in
      let eq : (p + size - 1 - low) % size ≡ size - 1 =
        ap (λ k. k % size) span ∙ mod-eq_of_lt (omega (arith, first)) in
      inr (first, omega (arith, eq, first))
]

next-prev : (low size p : ℕ) → low ≤ p → p < low + size → next_of low size (prev_of low size p) ≡ p
next-prev low size p h k = elim (prev_of-cases low size p h k) [
  | inl (lt, e) ↦ rw e (elim (next_of-cases low size (p - 1) (omega arith) (omega arith)) [
    | inl (_, d) ↦ omega (arith, d)
    | inr (last, _) ↦ absurd (omega (arith, last))
  ])
  | inr (first, e) ↦
      rw e (elim (next_of-cases low size (low + size - 1) (omega arith) (omega arith)) [
        | inl (more, _) ↦ absurd (omega (arith, more))
        | inr (_, d) ↦ omega (arith, d, first)
      ])
]

prev-next : (low size p : ℕ) → low ≤ p → p < low + size → prev_of low size (next_of low size p) ≡ p
prev-next low size p h k = elim (next_of-cases low size p h k) [
  | inl (lt, e) ↦ rw e (elim (prev_of-cases low size (p + 1) (omega arith) (omega (arith, lt))) [
    | inl (_, d) ↦ omega (arith, d)
    | inr (first, _) ↦ absurd (omega (arith, first))
  ])
  | inr (last, e) ↦ rw e (elim (prev_of-cases low size low (omega arith) (omega (arith, last))) [
    | inl (more, _) ↦ absurd (omega (arith, more))
    | inr (_, d) ↦ omega (arith, d, last)
  ])
]

stay :
    (low size p : ℕ)
    → low ≤ p
    → p < low + size
    → ((low ≤ next_of low size p) × (next_of low size p < low + size))
      × ((low ≤ prev_of low size p) × (prev_of low size p < low + size))
stay low size p h k = (
  elim (next_of-cases low size p h k) [
    | inl (lt, e) ↦ (omega (arith, e), omega (arith, e, lt))
    | inr (last, e) ↦ (omega (arith, e), omega (arith, e, last))
  ],
  elim (prev_of-cases low size p h k) [
    | inl (lt, e) ↦ (omega (arith, e, lt), omega (arith, e, lt))
    | inr (first, e) ↦ (omega (arith, e), omega (arith, e))
  ],
)

in_ring :
    (b : Bool) (x y q : ℕ)
    → elem q (or_empty (if b then some (x ∷ y ∷ []) else none)) ≡ (b && (x == q || y == q))
unfolding elem
in_ring true x y q = ground arith
in_ring false x y q = refl

is_neighbor-ring_eq :
    (low size p q : ℕ)
    → is_neighbor (ring low 1 size) p q
      ≡ (elem p (range low 1 size) && (prev_of low size p == q || next_of low size p == q))
unfolding ring
is_neighbor-ring_eq low size p q = in_ring _ _ _ q

split : (b c d : Bool) → (b && (c || d)) ≡ true → (b ≡ true) × ((c ≡ true) ⊎ (d ≡ true))
split true true d h = (refl, inl refl)
split true false d h = (refl, inr h)
split false c d h = absurd (cc h)

join : (b c d : Bool) → b ≡ true → (c ≡ true) ⊎ (d ≡ true) → (b && (c || d)) ≡ true
join true true d h k = refl
join true false d h (inl e) = absurd (cc e)
join true false d h (inr e) = e
join false c d h k = h

-- What a neighbour is, with the bounds of the range.
is_neighbor-cases :
    (low size p q : ℕ)
    → is_neighbor (ring low 1 size) p q ≡ true
    → ((low ≤ p) × (p < low + size)) × ((prev_of low size p ≡ q) ⊎ (next_of low size p ≡ q))
is_neighbor-cases low size p q h =
    let (b, c) = split _ _ _ (sym (is_neighbor-ring_eq low size p q) ∙ h) in
    (
      (elem-range low size p).0 b,
      elim c [ inl e ↦ inl ((==_iff _ q).0 e) | inr e ↦ inr ((==_iff _ q).0 e) ],
    )

is_neighbor-of :
    (low size p q : ℕ)
    → (low ≤ p) × (p < low + size)
    → (prev_of low size p ≡ q) ⊎ (next_of low size p ≡ q)
    → is_neighbor (ring low 1 size) p q ≡ true
is_neighbor-of low size p q b c =
    is_neighbor-ring_eq low size p q
    ∙ join _ _ _ ((elem-range low size p).1 b)
        (elim c [ inl e ↦ inl ((==_iff _ q).1 e) | inr e ↦ inr ((==_iff _ q).1 e) ])

neighbor_within :
    (low size p q : ℕ) → is_neighbor (ring low 1 size) p q ≡ true → (low ≤ q) × (q < low + size)
neighbor_within low size p q h =
    let ((a, b), c) = is_neighbor-cases low size p q h in
    let (n, v) = stay low size p a b in
    elim c [
      | inl e ↦ (omega (arith, e, v.0), omega (arith, e, v.1))
      | inr e ↦ (omega (arith, e, n.0), omega (arith, e, n.1))
    ]

ring-symmetric :
    (low size p q : ℕ)
    → is_neighbor (ring low 1 size) p q ≡ true
    → is_neighbor (ring low 1 size) q p ≡ true
ring-symmetric low size p q h =
    let ((a, b), c) = is_neighbor-cases low size p q h in
    is_neighbor-of low size q p (neighbor_within low size p q h) (elim c [
      | inl e ↦ inr (ap (next_of low size) (sym e) ∙ next-prev low size p a b)
      | inr e ↦ inl (ap (prev_of low size) (sym e) ∙ prev-next low size p a b)
    ])

contains-ring :
    (low size p : ℕ) → (ring low 1 size).contains p ≡ elem p (ring low 1 size).process_set
unfolding ring
contains-ring low size p = refl

process_set-ring :
    (low size p : ℕ) → (low ≤ p) × (p < low + size) → elem p (ring low 1 size).process_set ≡ true
unfolding ring
process_set-ring low size p h = (elem-range low size p).1 h

-- The next and the previous process of one in the range are in the range, and going there and back
-- leads to the same process.
pub next_of-prev_of :
    (low size p : ℕ)
    → low ≤ p
    → p < low + size
    → (((low ≤ next_of low size p) × (next_of low size p < low + size))
        × ((low ≤ prev_of low size p) × (prev_of low size p < low + size)))
      × (next_of low size (prev_of low size p) ≡ p)
      × (prev_of low size (next_of low size p) ≡ p)
next_of-prev_of low size p h k =
    (stay low size p h k, next-prev low size p h k, prev-next low size p h k)

-- With the step 1.
pub ring-IsSound : (low size : ℕ) → IsSound (ring low 1 size)
ring-IsSound low size = record {
  contains_eq = contains-ring low size;
  from_process = λ p q h. process_set-ring low size p (is_neighbor-cases low size p q h).0;
  to_process = λ p q h. process_set-ring low size q (neighbor_within low size p q h);
  symmetric = ring-symmetric low size;
}
