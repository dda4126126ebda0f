-- ===== src/Topology/Ring/Steps.antt =====
-- Ring.scala: which ranges give a ring that is sound.
use Prim.Native.Nat.{◌%◌}
use native.Mathlib.Nat.{mod-eq_of_lt}
use scala_neko.Base.{
  ℕ, zero, suc, ◌+◌, ◌-◌, ◌≤◌, ◌<◌, ◌≡◌, ◌⊎◌, ◌↔◌, sym, subst, true, inl, inr, arith,
}
use scala_neko.Topology.Sets.{elem}
use scala_neko.Topology.Neighbors.{is_neighbor, IsSound}
use scala_neko.Topology.Ring.{range, next_of, ring, lt_or_ge, ring-IsSound}

elem-range_ge : (low step size p : ℕ) → elem p (range low step size) ≡ true → low ≤ p
unfolding elem range
elem-range_ge low step zero p h = absurd (cc h)
elem-range_ge low step (suc size) p h =
    let rest = elem-range_ge (low + step) step size p in ground (arith, h, rest)

-- The successor of the first process is in the range only if nothing is left out.
elem-range_gap :
    (low step size : ℕ) → 1 ≤ step → elem (low + 1) (range low step size) ≡ true → step ≡ 1
unfolding elem range
elem-range_gap low step zero h k = absurd (cc k)
elem-range_gap low step (suc size) h k =
    let rest = elem-range_ge (low + step) step size (low + 1) in ground (arith, h, k, rest)

next_of-low : (low size : ℕ) → 1 < size → next_of low size low ≡ low + 1
unfolding next_of
next_of-low low size h =
    let eq : (low + 1 - low) % size ≡ low + 1 - low = mod-eq_of_lt (omega (arith, h)) in
    omega (arith, eq)

-- The successor of the first process is a neighbour of it.
is_neighbor-low :
    (low step size : ℕ) → 1 < size → is_neighbor (ring low step size) low (low + 1) ≡ true
unfolding ring range elem
is_neighbor-low low step (suc size) h = rw (next_of-low low (suc size) h) ground arith
is_neighbor-low low step zero h = absurd (omega (arith, h))

few-IsSound : (low step size : ℕ) → size ≤ 1 → IsSound (ring low step size)
unfolding ring range
few-IsSound low step zero h = ring-IsSound low zero
few-IsSound low step (suc zero) h = ring-IsSound low 1
few-IsSound low step (suc (suc size)) h = absurd (omega (arith, h))

many-step : (low step size : ℕ) → 1 ≤ step → IsSound (ring low step size) → (step ≡ 1) ⊎ (size ≤ 1)
unfolding ring
many-step low step size h sound = elim (lt_or_ge 1 size) [
  | inr few ↦ inr few
  | inl many ↦
      let next = sound.to_process low (low + 1) (is_neighbor-low low step size many) in
      inl (elem-range_gap low step size h next)
]

-- A ring over a range, whose step is not zero, is sound, that is, `contains` is about its processes,
-- and its neighbours are processes of it and neighbours of each other, exactly if the range leaves
-- nothing out, as its step is 1 or it has one process at most.
pub ring-IsSound_iff :
    (low step size : ℕ) → 1 ≤ step → IsSound (ring low step size) ↔ ((step ≡ 1) ⊎ (size ≤ 1))
ring-IsSound_iff low step size h = (
  many-step low step size h,
  λ c. elim c [
    | inl one ↦ subst (λ k. IsSound (ring low k size)) (sym one) (ring-IsSound low size)
    | inr few ↦ few-IsSound low step size few
  ],
)
