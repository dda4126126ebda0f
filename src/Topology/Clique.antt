-- ===== src/Topology/Clique.antt =====
-- Clique.scala, without `underlying` and `isConnected`. A range is its elements.
use scala_neko.Base.{
  ℕ, ◌≡◌, refl, sym, ap, ◌∙◌, Bool, true, false, not, ◌&&◌, none, some, List, ◌==◌, if◌then◌else◌,
  arith,
}
use scala_neko.Topology.{Topology, or_empty}
use scala_neko.Topology.Sets.{elem, keep, keep-eq}
use scala_neko.Topology.Neighbors.{is_neighbor, IsSound}

-- `set - process`
unfoldable pub without : ℕ → List ℕ → List ℕ
without p xs = keep (λ x. not (x == p)) xs

unfoldable pub clique : List ℕ → Topology
clique range = record {
  process_set = range;
  neighbors_for = λ p. if elem p range then some (without p range) else none;
  contains = λ p. elem p range;
}

in_clique :
    (b : Bool) (p q : ℕ) (range : List ℕ)
    → elem q (or_empty (if b then some (without p range) else none))
      ≡ (b && elem q range && not (q == p))
unfolding without elem
in_clique true p q range = keep-eq (λ x. not (x == p)) q range
in_clique false p q range = refl

is_neighbor-clique_eq :
    (range : List ℕ) (p q : ℕ)
    → is_neighbor (clique range) p q ≡ (elem p range && elem q range && not (q == p))
unfolding clique
is_neighbor-clique_eq range p q = in_clique (elem p range) p q range

contains-clique :
    (range : List ℕ) (p : ℕ) → (clique range).contains p ≡ elem p (clique range).process_set
unfolding clique
contains-clique range p = refl

process_set-clique : (range : List ℕ) (p : ℕ) → elem p (clique range).process_set ≡ elem p range
unfolding clique
process_set-clique range p = refl

==_comm : (a b : ℕ) → (a == b) ≡ (b == a)
==_comm a b = ground arith

first_of : (a b c : Bool) → (a && b && c) ≡ true → a ≡ true
first_of true b c h = refl
first_of false b c h = h

second_of : (a b c : Bool) → (a && b && c) ≡ true → b ≡ true
second_of true true c h = refl
second_of true false c h = h
second_of false b c h = absurd (cc h)

swap : (a b c : Bool) → (b && a && c) ≡ (a && b && c)
swap a b c = ground arith

-- In a clique two processes are neighbours if they are two different ones of its range, and a
-- clique is sound.
pub clique-IsSound :
    (range : List ℕ)
    → IsSound (clique range)
      × ((p q : ℕ)
          → is_neighbor (clique range) p q ≡ (elem p range && elem q range && not (q == p)))
clique-IsSound range =
    let eq = is_neighbor-clique_eq range in
    (
      record {
        contains_eq = contains-clique range;
        from_process =
            λ p q k. process_set-clique range p ∙ first_of _ _ (not (q == p)) (sym (eq p q) ∙ k);
        to_process = λ p q k.
            process_set-clique range q
            ∙ second_of (elem p range) _ (not (q == p)) (sym (eq p q) ∙ k);
        symmetric = λ p q k.
            eq q p
            ∙ ap (λ b. elem q range && elem p range && not b) (==_comm p q)
            ∙ swap (elem p range) (elem q range) (not (q == p))
            ∙ sym (eq p q)
            ∙ k;
      },
      eq,
    )
