-- ===== src/Topology/Samples.antt =====
-- The theorems at two cliques of three processes and a ring of four.
use scala_neko.Base.{ℕ, ◌≡◌, ◌≤◌, ◌⊎◌, ◌↔◌, inl, refl, arith, true, false, some, [], ◌∷◌}
use scala_neko.Topology.{Topology}
use scala_neko.Topology.Sets.{elem, keep, union, intersect, diff}
use scala_neko.Topology.Combinator.{union_of, intersect_of, diff_of}
use scala_neko.Topology.Neighbors.{is_neighbor, IsSound, diff_of-removed}
use scala_neko.Topology.Clique.{without, clique, clique-IsSound}
use scala_neko.Topology.Ring.{range, next_of, prev_of, ring}
use scala_neko.Topology.Ring.Steps.{ring-IsSound_iff}

program : Unit {0}
unfolding elem keep union intersect diff union_of intersect_of diff_of without clique range next_of
    prev_of ring
program = tt

abbrev low : Topology
low = clique (0 ∷ 1 ∷ 2 ∷ [])

abbrev high : Topology
high = clique (2 ∷ 3 ∷ 4 ∷ [])

neighbors-union : (union_of low high).neighbors_for 2 ≡ some (0 ∷ 1 ∷ 3 ∷ 4 ∷ [])
unfolding program
neighbors-union = refl

-- The process 2 is not in the difference, and has neighbours in it.
neighbors-diff : (diff_of low high).neighbors_for 2 ≡ some (0 ∷ 1 ∷ [])
unfolding program
neighbors-diff = refl

low-IsSound : IsSound low
low-IsSound = (clique-IsSound (0 ∷ 1 ∷ 2 ∷ [])).0

high-IsSound : IsSound high
high-IsSound = (clique-IsSound (2 ∷ 3 ∷ 4 ∷ [])).0

diff_of-removed_example :
    ((diff_of low high).contains 2 ≡ false)
    × (is_neighbor (diff_of low high) 2 0 ≡ true)
    × (is_neighbor (diff_of low high) 0 2 ≡ false)
unfolding program
diff_of-removed_example = diff_of-removed low high 2 0 low-IsSound high-IsSound refl refl refl

neighbors-ring : (ring 3 1 4).neighbors_for 6 ≡ some (5 ∷ 3 ∷ [])
unfolding program
neighbors-ring = refl

-- `0 until 10 by 2`: the process 1 is not in the ring.
neighbors-even : (ring 0 2 5).neighbors_for 0 ≡ some (4 ∷ 1 ∷ [])
unfolding program
neighbors-even = refl

ring-IsSound_iff_example : IsSound (ring 0 2 5) ↔ ((◌≡◌ {A = ℕ} 2 1) ⊎ (5 ≤ 1))
ring-IsSound_iff_example = ring-IsSound_iff 0 2 5 (omega arith)

contiguous-IsSound : IsSound (ring 3 1 4)
contiguous-IsSound = (ring-IsSound_iff 3 1 4 (omega arith)).1 (inl refl)
